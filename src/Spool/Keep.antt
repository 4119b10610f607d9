-- ===== src/Spool/Keep.antt =====
-- Reading, writing and telling one spool, and who waits at it then.
use nchan.Msg.Update.{update_multi_msgid, update_subscriber_last_msg_id, verify_msg_id}
use nchan.Memstore.Message.{Message}
use mathlib.Core.Option.{some_inj}
use nchan.Msg.Compare.{counted_tags, spool_rbtree_compare}
use nchan.Spool.Ensures.{Ensures, after-Ensures, bind-Ensures, none-Ensures, some-Ensures}
use nchan.Prelude.{
  All, Bool, Bool-cases, List, ap, false, if◌then◌else◌, inl, inr, ltb, none, refl, some, subst,
  sym, true, [], ◌∙◌, ◌∷◌, ◌≡◌,
}
use nchan.Prelude.Int.{eqb_ℤ, pos, ℤ}
use nchan.Msg.Id.{MsgId, newest_msgid_time}
use nchan.Spool.{
  Call, Env, Ref, Response, Spool, Spooler, Subscriber, count_removed, current, find_node,
  find_spool, get_node, get_spool, in_tree, is_at, is_passthrough, message, respond_loop, spool_at,
  spool_respond_general, told, write_spool,
}
use nchan.Spool.Tracks.{
  Follow, IsOne, IsTracking, SameId, Tracked, find_node-All, find_node-is_at, find_node-write_node,
  write_node-All, write_node-write_node,
}

-- What is asked of the spool that a pointer points to.
abbrev pub Fits : Ref → Spool → Type 0
Fits current s = s.id.time ≡ newest_msgid_time
Fits (in_tree id) s = Tracked s

pub Fits-same :
    (ref : Ref) (s s' : Spool) → s.id ≡ s'.id → s.subs ≡ s'.subs → Fits ref s → Fits ref s'
Fits-same current s s' same subs h = subst (λ id. id.time ≡ newest_msgid_time) same h
Fits-same (in_tree id) s s' same subs (one, old, follow) = (
  subst IsOne same one,
  subst (λ id. eqb_ℤ id.time newest_msgid_time ≡ false) same old,
  subst (λ i. Follow i s'.subs) same (subst (Follow s.id) subs follow),
)

-- A spool that loses its subscribers.
pub Fits-gone : (ref : Ref) (s s' : Spool) → s.id ≡ s'.id → s'.subs ≡ [] → Fits ref s → Fits ref s'
Fits-gone current s s' same gone h = subst (λ id. id.time ≡ newest_msgid_time) same h
Fits-gone (in_tree id) s s' same gone (one, old, follow) = (
  subst IsOne same one,
  subst (λ id. eqb_ℤ id.time newest_msgid_time ≡ false) same old,
  subst (Follow s'.id) (sym gone) tt,
)

pub spool_at-Fits :
    (ref : Ref) (spl : Spooler) {s : Spool}
    → IsTracking spl
    → spool_at ref spl ≡ some s
    → Fits ref s
unfolding spool_at
spool_at-Fits current spl h e = subst (λ s. s.id.time ≡ newest_msgid_time) (some_inj.0 e) h.1
spool_at-Fits (in_tree id) spl {s} h e = find_node-All Tracked id spl.tree s h.0 e

pub write_spool-IsTracking :
    (ref : Ref) (s : Spool) (spl : Spooler)
    → IsTracking spl
    → Fits ref s
    → IsTracking (write_spool ref s spl)
unfolding write_spool
write_spool-IsTracking current s spl h fits = (h.0, fits, h.2)
write_spool-IsTracking (in_tree id) s spl h fits =
    (write_node-All Tracked id s spl.tree fits h.0, h.1, h.2)

-- The pointer finds the spool by its id.
abbrev pub Here : Ref → Spool → Type 0
Here current s = Unit
Here (in_tree id) s = is_at id s ≡ true

pub spool_at-Here : (ref : Ref) (spl : Spooler) {s : Spool} → spool_at ref spl ≡ some s → Here ref s
unfolding spool_at
spool_at-Here current spl e = tt
spool_at-Here (in_tree id) spl {s} e = find_node-is_at id spl.tree s e

pub spool_at-calls :
    (ref : Ref) (spl : Spooler) (cs : List Call)
    → spool_at ref (record spl { calls = cs }) ≡ spool_at ref spl
unfolding spool_at
spool_at-calls current spl cs = refl
spool_at-calls (in_tree id) spl cs = refl

pub spool_at-current : (spl : Spooler) → spool_at current spl ≡ some (spl.current_msg_spool)
unfolding spool_at
spool_at-current spl = refl

-- An id that is not the newest is looked up in the tree.
pub find_spool-node :
    (id : MsgId) (spl : Spooler)
    → eqb_ℤ id.time newest_msgid_time ≡ false
    → is_passthrough spl.fetching_strategy ≡ false
    → find_spool id spl
      ≡ (elim (find_node id spl.tree) [ none ↦ none | some s ↦ some (in_tree s.id) ], spl)
unfolding find_spool
find_spool-node id spl old fetching = rw (old, fetching) refl

pub get_spool-node :
    (env : Env) (id : MsgId) (spl : Spooler)
    → eqb_ℤ id.time newest_msgid_time ≡ false
    → is_passthrough spl.fetching_strategy ≡ false
    → get_spool env id spl ≡ get_node env.memory id spl (find_node id spl.tree)
unfolding get_spool
get_spool-node env id spl old fetching = rw (old, fetching) refl

-- A spool that was written is read again, and is written over.
pub spool_at-write_spool :
    (ref : Ref) (spl : Spooler) {s : Spool} (s' : Spool)
    → spool_at ref spl ≡ some s
    → s'.id ≡ s.id
    → spool_at ref (write_spool ref s' spl) ≡ some s'
unfolding spool_at write_spool
spool_at-write_spool current spl s' e same = refl
spool_at-write_spool (in_tree id) spl {s} s' e same =
    find_node-write_node id s s' spl.tree e same (spool_at-Here (in_tree id) spl e)

pub write_spool-write_spool :
    (ref : Ref) (spl : Spooler) {s : Spool} (s' s'' : Spool)
    → spool_at ref spl ≡ some s
    → s'.id ≡ s.id
    → write_spool ref s'' (write_spool ref s' spl) ≡ write_spool ref s'' spl
unfolding write_spool
write_spool-write_spool current spl s' s'' e same = refl
write_spool-write_spool (in_tree id) spl {s} s' s'' e same =
    ap (λ l. record spl { tree = l })
      (write_node-write_node id s' s'' spl.tree (
        subst (λ i. eqb_ℤ (spool_rbtree_compare id i) (pos 0) ≡ true) (sym same)
          (spool_at-Here (in_tree id) spl e)))

pub All-if {ℓ κ} :
    {A : Type ℓ} (Q : A → Type κ) (b : Bool) (a : A) (l : List A)
    → Q a
    → All Q l
    → All Q (if b then l else a ∷ l)
All-if Q true a l q h = h
All-if Q false a l q h = (q, h)

pub count_removed-same :
    (b : Bool) (u : Subscriber) (s : Spool)
    → Ensures (λ s'. s'.id ≡ s.id) (if b then count_removed u s else some s)
unfolding count_removed
count_removed-same false u s = some-Ensures s refl
count_removed-same true u s = elim (Bool-cases (ltb 0 s.sub_count)) [
  | inl left ↦ rw left (some-Ensures _ refl)
  | inr none_left ↦ rw none_left none-Ensures
]

-- The loop of `spool_respond_general`: what is true of each who stays, after it was told.
pub respond_loop-Ensures {κ κ'} :
    {P : Subscriber → Type κ} {Q : Subscriber → Type κ'} (env : Env) (r : Response)
    → ((u u' : Subscriber) → P u → told env r u ≡ some u' → Q u')
    → (us : List Subscriber) (s : Spool) (calls : List Call) → All P us
    → Ensures (λ rest. (rest.1.id ≡ s.id) × All Q rest.0) (respond_loop env r us s calls)
unfolding respond_loop
respond_loop-Ensures env r step [] s calls h = some-Ensures _ (refl, tt)
respond_loop-Ensures {Q = Q} env r step (u ∷ us) s calls (here, there) =
    bind-Ensures (told env r u) (λ u' e.
      after-Ensures _ (count_removed-same (env.leaves u r) u s) (λ s' same.
        after-Ensures _ (respond_loop-Ensures {Q = Q} env r step us s' _ there) (λ rest ok.
          some-Ensures _
            (ok.0 ∙ same, All-if Q (env.leaves u r) u' rest.0 (step u u' here e) ok.1))))

-- An id of one channel replaces the old one.
pub update_multi_msgid-one :
    (overlap : List ℤ) (memory : Bool) (old new : MsgId)
    → new.tagcount ≡ 1
    → update_multi_msgid overlap memory old new ≡ some new
unfolding update_multi_msgid
update_multi_msgid-one overlap memory old new one = rw one refl

-- A message moves a subscriber to its id.
pub told-message :
    (env : Env) (m : Message) (u : Subscriber)
    → m.id.tagcount ≡ 1
    → Ensures (λ u'. u'.updates ≡ true → SameId u'.last_msgid m.id) (told env (message m) u)
unfolding told update_subscriber_last_msg_id
told-message env m u one = elim (Bool-cases u.updates) [
  | inl updates ↦ rw updates (
      after-Ensures {P = λ r. r.0 ≡ m.id}
        (update_subscriber_last_msg_id env.overlap env.memory u.last_msgid (some (m.prev_id, m.id)))
        (rw (update_multi_msgid-one env.overlap env.memory u.last_msgid m.id one)
          (bind-Ensures (verify_msg_id u.last_msgid m.prev_id m.id) (λ rc e. some-Ensures _ refl)))
        (λ r same.
          some-Ensures _
            (λ h. record { same_time = ap (λ i. i.time) same; same_tags = ap counted_tags same })))
  | inr keeps ↦ rw keeps (some-Ensures _ (λ h. cc))
]

-- `spool_respond_general` changes who waits at the spool, and no other spool; `Q` is true of each
-- that stays.
abbrev pub Responded : (Subscriber → Type 0) → Ref → Spooler → Spool → Spooler → Type 0
Responded Q ref spl s spl' =
    (s' : Spool) × (cs : List Call) × (s'.id ≡ s.id)
    × All Q s'.subs
    × (spl' ≡ record (write_spool ref s' spl) { calls = cs })

pub spool_respond_general-Responded :
    {P : Subscriber → Type 0} (Q : Subscriber → Type 0) (env : Env) (r : Response) (ref : Ref)
    (spl : Spooler) (s : Spool)
    → ((u : Subscriber) → P u → Ensures Q (told env r u))
    → spool_at ref spl ≡ some s
    → All P s.subs
    → Ensures (Responded Q ref spl s) (spool_respond_general env r ref spl)
unfolding spool_respond_general
spool_respond_general-Responded Q env r ref spl s step at h = rw at (
    after-Ensures _
      (respond_loop-Ensures {Q = Q} env r (λ u u' p e. (step u p).gives u' e) s.subs s spl.calls h)
      (λ rest ok. some-Ensures _ (record (rest.1) { subs = rest.0 }, rest.2, ok.0, ok.1, refl)))
