-- ===== src/Spool/Tracks.antt =====
-- Each subscriber waits at the spool of the message that it had last: what keeps that.
use mathlib.Core.Option.{some_inj}
use nchan.Prelude.{
  All, Bool-cases, List, ap, arith, false, inl, inr, refl, some, subst, sym, true, [], ◌∙◌, ◌∷◌,
  ◌≡◌,
}
use nchan.Prelude.Int.{eqb_ℤ, pos, ℤ}
use nchan.Msg.Id.{MsgId, newest_msgid_time}
use nchan.Msg.Compare.{compare_padded, counted_tags, spool_rbtree_compare, three_way}
use nchan.Spool.{
  Spool, Spooler, Subscriber, find_node, is_at, is_passthrough, remove_node, write_node,
}

-- An id of one channel with the tag `t`.
abbrev pub IsOne : MsgId → Type 0
IsOne id = (id.tagcount ≡ 1) × ((t : ℤ) × (counted_tags id ≡ t ∷ []))

pub record SameId (a b : MsgId) : Type 0 where
  pub same_time : a.time ≡ b.time
  pub same_tags : counted_tags a ≡ counted_tags b

pub SameId-sym : {a b : MsgId} → SameId a b → SameId b a
SameId-sym h = record { same_time = sym h.same_time; same_tags = sym h.same_tags }

pub SameId-trans : {a b c : MsgId} → SameId a b → SameId b c → SameId a c
SameId-trans h k = record {
  same_time = h.same_time ∙ k.same_time;
  same_tags = h.same_tags ∙ k.same_tags;
}

compare_one :
    (a b s t : ℤ) → eqb_ℤ (three_way a b (three_way s t (pos 0))) (pos 0) ≡ true → (a ≡ b) × (s ≡ t)
compare_one a b s t h = ground arith

-- The tree finds a node by its id.
pub is_at-SameId :
    (id : MsgId) (s : Spool) → IsOne id → IsOne s.id → is_at id s ≡ true → SameId id s.id
unfolding spool_rbtree_compare compare_padded
is_at-SameId id s (one, (t, e)) (one', (t', e')) h =
    let both = compare_one id.time s.id.time t t' (rw (e, e') at h) in
    record { same_time = both.0; same_tags = e ∙ ap (λ x. x ∷ []) both.1 ∙ sym e' }

-- The subscribers that update their ids had the message `id` last.
abbrev pub Follow : MsgId → List Subscriber → Type 0
Follow id = All (λ u. u.updates ≡ true → SameId u.last_msgid id)

-- The spool is at the id of a message of one channel, which its subscribers had last.
abbrev pub Tracked : Spool → Type 0
Tracked s = IsOne s.id × (eqb_ℤ s.id.time newest_msgid_time ≡ false) × Follow s.id s.subs

-- All spools but that of the newest messages are tracked, and messages are fetched.
abbrev pub IsTracking : Spooler → Type 0
IsTracking spl =
    All Tracked spl.tree
    × (spl.current_msg_spool.id.time ≡ newest_msgid_time)
    × (is_passthrough spl.fetching_strategy ≡ false)

module _ {κ} (P : Spool → Type κ) where
  pub find_node-All :
      (id : MsgId) (ss : List Spool) (s : Spool) → All P ss → find_node id ss ≡ some s → P s
  unfolding find_node
  find_node-All id [] s h e = cc
  find_node-All id (t ∷ ts) s (here, there) e = elim (Bool-cases (is_at id t)) [
    | inl found ↦ subst P (some_inj.0 (rw found at e)) here
    | inr other ↦ find_node-All id ts s there (rw other at e)
  ]

  pub write_node-All :
      (id : MsgId) (s : Spool) (ss : List Spool) → P s → All P ss → All P (write_node id s ss)
  unfolding write_node
  write_node-All id s [] new h = tt
  write_node-All id s (t ∷ ts) new (here, there) = elim (Bool-cases (is_at id t)) [
    | inl found ↦ rw found (new, there)
    | inr other ↦ rw other (here, write_node-All id s ts new there)
  ]

  pub remove_node-All : (id : MsgId) (ss : List Spool) → All P ss → All P (remove_node id ss)
  unfolding remove_node
  remove_node-All id [] h = tt
  remove_node-All id (t ∷ ts) (here, there) = elim (Bool-cases (is_at id t)) [
    | inl found ↦ rw found there
    | inr other ↦ rw other (here, remove_node-All id ts there)
  ]

pub find_node-is_at :
    (id : MsgId) (ss : List Spool) (s : Spool) → find_node id ss ≡ some s → is_at id s ≡ true
unfolding find_node
find_node-is_at id [] s e = cc
find_node-is_at id (t ∷ ts) s e = elim (Bool-cases (is_at id t)) [
  | inl found ↦ subst (λ x. is_at id x ≡ true) (some_inj.0 (rw found at e)) found
  | inr other ↦ find_node-is_at id ts s (rw other at e)
]

-- A node that is written is found again, is written over, and is taken out.
pub find_node-write_node :
    (id : MsgId) (s s' : Spool) (ss : List Spool)
    → find_node id ss ≡ some s
    → s'.id ≡ s.id
    → is_at id s ≡ true
    → find_node id (write_node id s' ss) ≡ some s'
unfolding find_node write_node
find_node-write_node id s s' [] e same at_id = cc
find_node-write_node id s s' (t ∷ ts) e same at_id = elim (Bool-cases (is_at id t)) [
  | inl found ↦ rw found (rw (same, at_id) refl)
  | inr other ↦ rw other (rw other (find_node-write_node id s s' ts (rw other at e) same at_id))
]

pub write_node-write_node :
    (id : MsgId) (s s' : Spool) (ss : List Spool)
    → is_at id s ≡ true
    → write_node id s' (write_node id s ss) ≡ write_node id s' ss
unfolding write_node
write_node-write_node id s s' [] at_id = refl
write_node-write_node id s s' (t ∷ ts) at_id = elim (Bool-cases (is_at id t)) [
  | inl found ↦ rw (found, at_id) refl
  | inr other ↦ rw (other, other) (ap (λ l. t ∷ l) (write_node-write_node id s s' ts at_id))
]

pub remove_node-write_node :
    (id : MsgId) (s : Spool) (ss : List Spool)
    → is_at id s ≡ true
    → remove_node id (write_node id s ss) ≡ remove_node id ss
unfolding remove_node write_node
remove_node-write_node id s [] at_id = refl
remove_node-write_node id s (t ∷ ts) at_id = elim (Bool-cases (is_at id t)) [
  | inl found ↦ rw (found, at_id) refl
  | inr other ↦ rw (other, other) (ap (λ l. t ∷ l) (remove_node-write_node id s ts at_id))
]
