-- ===== src/Spool/Fetch/Nextmsg.antt =====
-- `spool_nextmsg`, and who waits where after it.
use nchan.Prelude.{
  All, Bool, List, Option, ap, arith, false, if◌then◌else◌, none, not, refl, some, subst, true, [],
  ◌∷◌, ◌≡◌,
}
use nchan.Prelude.Int.{eqb_ℤ, ℤ}
use nchan.Msg.Id.{MsgId, newest_msgid_time, nth_msgid_time}
use nchan.Msg.Compare.{msg_ids_equal}
use nchan.Spool.{
  Env, Ref, Spool, Spooler, Subscriber, current, expect_current, find_node, find_spool, get_node,
  get_spool, in_tree, init_spool, is_passthrough, latest_msg_id, spool_at, write_spool,
}
use nchan.Spool.Ensures.{Ensures, assert-Ensures}
use nchan.Spool.Tracks.{
  Follow, IsOne, IsTracking, SameId, SameId-trans, find_node-All, find_node-is_at, is_at-SameId,
}
use nchan.Spool.Keep.{
  Fits, Fits-gone, find_spool-node, get_spool-node, spool_at-Fits, spool_at-Here,
  spool_at-write_spool, update_multi_msgid-one, write_spool-IsTracking,
}
use nchan.Spool.Told.{ToldAll}
use nchan.Spool.Fetch.{emptied, spool_nextmsg, to_next}
use nchan.Spool.Fetch.Transfer.{Joins}
use nchan.Spool.Fetch.Next.{to_next-IsTracking, to_next_spool-IsTracking}

Follow-SameId :
    (id id' : MsgId) (us : List Subscriber) → SameId id id' → Follow id us → Follow id' us
Follow-SameId id id' [] same h = tt
Follow-SameId id id' (u ∷ us) same (here, there) =
    ((λ e. SameId-trans (here e) same), Follow-SameId id id' us same there)

-- Who had the message of an id last may join the node of the id.
Joins-Follow :
    (id : MsgId) (us : List Subscriber) (spl : Spooler)
    → IsOne id
    → Follow id us
    → IsTracking spl
    → Joins false (in_tree id) us spl
Joins-Follow id us spl one follow h new at =
    Follow-SameId id new.id us
      (is_at-SameId id new one (spool_at-Fits (in_tree id) spl h at).0
        (spool_at-Here (in_tree id) spl at))
      follow

-- The node that is found has the id.
Joins-found :
    (id : MsgId) (t : Spool) (us : List Subscriber) (spl taken : Spooler)
    → find_node id spl.tree ≡ some t
    → All (λ s. IsOne s.id) spl.tree
    → IsOne id
    → Follow id us
    → IsTracking taken
    → Joins false (in_tree t.id) us taken
Joins-found id t us spl taken found every one follow h =
    let one_t = find_node-All (λ s. IsOne s.id) id spl.tree t every found in
    Joins-Follow t.id us taken one_t
      (Follow-SameId id t.id us (is_at-SameId id t one one_t (find_node-is_at id spl.tree t found))
        follow)
      h

pub write_spool-fetching :
    (ref : Ref) (s : Spool) (spl : Spooler)
    → (write_spool ref s spl).fetching_strategy ≡ spl.fetching_strategy
unfolding write_spool
write_spool-fetching current s spl = refl
write_spool-fetching (in_tree id) s spl = refl

-- The spool of a pointer, empty, is what was asked of it.
pub emptied-Fits :
    (ref : Ref) (spl : Spooler) (s : Spool)
    → spool_at ref spl ≡ some s
    → IsTracking (write_spool ref (emptied s) spl)
    → Fits ref (emptied s)
emptied-Fits ref spl s at h =
    spool_at-Fits ref (write_spool ref (emptied s) spl) h
      (spool_at-write_spool ref spl (emptied s) at refl)

-- A node is added for an id.
new_node-IsTracking :
    (id : MsgId) (s : Spool) (spl : Spooler)
    → IsOne id
    → eqb_ℤ id.time newest_msgid_time ≡ false
    → spool_at current spl ≡ some s
    → IsTracking (write_spool current (emptied s) spl)
    → (spool_at current (record spl { tree = init_spool id ∷ spl.tree }) ≡ some s)
      × IsTracking
          (write_spool current (emptied s) (record spl { tree = init_spool id ∷ spl.tree }))
unfolding spool_at write_spool
new_node-IsTracking id s spl one old at h = (at, (((one, old, tt), h.0), h.1, h.2))

-- The spools of the newest messages: from there, a node is made if there is none.
next_from_current :
    (env : Env) (memory : Bool) (id : MsgId) (s : Spool) (spl : Spooler) (found : Option Spool)
    → find_node id spl.tree ≡ found
    → IsOne id
    → eqb_ℤ id.time newest_msgid_time ≡ false
    → spool_at current spl ≡ some s
    → IsTracking (write_spool current (emptied s) spl)
    → All (λ t. IsOne t.id) spl.tree
    → Follow id s.subs
    → Ensures IsTracking (
        to_next env true current s id
          (get_node memory id spl found).0
          (get_node memory id spl found).1)
next_from_current env memory id s spl (some t) found one old at h every follow =
    to_next-IsTracking env true current s id (some (in_tree t.id)) spl at (λ e. cc) one old follow h
      (Joins-found id t s.subs spl (write_spool current (emptied s) spl) found every one follow h)
next_from_current env false id s spl none found one old at h every follow =
    to_next-IsTracking env true current s id none spl at (λ e. cc) one old follow h tt
next_from_current env true id s spl none found one old at h every follow =
    let (at', h') = new_node-IsTracking id s spl one old at h in
    to_next-IsTracking env true current s id (some (in_tree id)) _ at' (λ e. cc) one old follow h'
      (Joins-Follow id s.subs _ one follow h')

next_from_node :
    (env : Env) (i id : MsgId) (s : Spool) (spl : Spooler) (found : Option Spool)
    → find_node id spl.tree ≡ found
    → IsOne id
    → eqb_ℤ id.time newest_msgid_time ≡ false
    → spool_at (in_tree i) spl ≡ some s
    → IsTracking (write_spool (in_tree i) (emptied s) spl)
    → All (λ t. IsOne t.id) spl.tree
    → Follow id s.subs
    → Ensures IsTracking (
        to_next env false
          (in_tree i)
          s
          id
          (elim found [ none ↦ none | some t ↦ some (in_tree t.id) ])
          spl)
next_from_node env i id s spl (some t) found one old at h every follow =
    to_next-IsTracking env false (in_tree i) s id (some (in_tree t.id)) spl at (λ e. tt) one old
      follow h
      (Joins-found id t s.subs spl (write_spool (in_tree i) (emptied s) spl) found every one follow
        h)
next_from_node env i id s spl none found one old at h every follow =
    to_next-IsTracking env false (in_tree i) s id none spl at (λ e. tt) one old follow h tt

pub spool_nextmsg-IsTracking :
    (env : Env) (ref : Ref) (id : MsgId) (spl : Spooler)
    → IsOne id
    → eqb_ℤ id.time newest_msgid_time ≡ false
    → ToldAll id ref spl
    → Ensures IsTracking (spool_nextmsg env ref id spl)
unfolding spool_nextmsg
spool_nextmsg-IsTracking env ref id spl one old (s, at, h, every, follow) =
    let fetching : is_passthrough spl.fetching_strategy ≡ false =
      subst (λ f. is_passthrough f ≡ false) (write_spool-fetching ref (emptied s) spl) h.2 in
    rw at (
      rw fetching (
        rw (update_multi_msgid-one env.overlap env.memory s.id id one.0) (
          assert-Ensures (not (msg_ids_equal s.id id)) _
            (λ differ. ends ref at h (emptied-Fits ref spl s at h) fetching))))
  where
    ends :
        (ref : Ref)
        → spool_at ref spl ≡ some s
        → IsTracking (write_spool ref (emptied s) spl)
        → Fits ref (emptied s)
        → is_passthrough spl.fetching_strategy ≡ false
        → Ensures IsTracking (
            to_next env
              (eqb_ℤ s.id.time newest_msgid_time)
              ref
              s
              id
              (if eqb_ℤ s.id.time newest_msgid_time
                then get_spool env id spl
                else find_spool id spl).0
              (if eqb_ℤ s.id.time newest_msgid_time
                then get_spool env id spl
                else find_spool id spl).1)
    ends current at h fits fetching = rw (ap (λ t. eqb_ℤ t newest_msgid_time) fits) (
        rw (get_spool-node env id spl old fetching)
          (next_from_current env env.memory id s spl _ refl one old at h every follow))
    ends (in_tree i) at h fits fetching = rw fits.1 (
        rw (find_spool-node id spl old fetching)
          (next_from_node env i id s spl _ refl one old at h every follow))

old_nth : (t : ℤ) → eqb_ℤ t nth_msgid_time ≡ true → eqb_ℤ t newest_msgid_time ≡ false
old_nth t h = ground arith

find_spool-latest :
    (spl : Spooler) → find_spool latest_msg_id spl ≡ (some current, expect_current spl)
unfolding find_spool
find_spool-latest spl = refl

expecting :
    (ref : Ref) (s : Spool) (spl : Spooler)
    → Fits ref s
    → eqb_ℤ s.id.time newest_msgid_time ≡ false
    → spool_at ref spl ≡ some s
    → spool_at ref (expect_current spl) ≡ some s
unfolding spool_at
expecting current s spl fits old at =
    absurd (let newest = ap (λ t. eqb_ℤ t newest_msgid_time) fits in cc)
expecting (in_tree id) s spl fits old at = at

-- From the spool of the nth message, to that of the newest ones.
pub spool_nextmsg-latest :
    (env : Env) (ref : Ref) (s : Spool) (spl : Spooler)
    → eqb_ℤ s.id.time nth_msgid_time ≡ true
    → spool_at ref spl ≡ some s
    → IsTracking spl
    → Ensures IsTracking (spool_nextmsg env ref latest_msg_id spl)
unfolding spool_nextmsg
spool_nextmsg-latest env ref s spl nth at h =
    let old = old_nth s.id.time nth in
    let fits = spool_at-Fits ref spl h at in
    rw at (
      rw h.2 (
        rw (update_multi_msgid-one env.overlap env.memory s.id latest_msg_id refl) (
          assert-Ensures (not (msg_ids_equal s.id latest_msg_id)) _ (λ differ. rw old (
            rw (find_spool-latest spl) (
              to_next_spool-IsTracking env false ref s latest_msg_id current (expect_current spl)
                (expecting ref s spl fits old at)
                (write_spool-IsTracking ref (emptied s) (expect_current spl) h
                  (Fits-gone ref s (emptied s) refl refl fits))
                tt))))))
