-- ===== src/Spool/Answer/Missing.antt =====
-- A message that the store does not have, and who waits where after that.
use nchan.Msg.Compare.{compare_msgids}
use nchan.Spool.Keep.{Fits-same, spool_at-Fits, spool_at-write_spool, write_spool-IsTracking}
use nchan.Spool.Told.{respond_status-IsTracking}
use nchan.Spool.Fetch.Next.{spool_fetch_msg-IsTracking}
use nchan.Prelude.{
  Bool, Bool-cases, Option, assert, false, inl, inr, none, not, refl, some, true, ◌&&◌, ◌==◌, ◌>>=◌,
  ◌>>◌, ◌≡◌,
}
use nchan.Prelude.Int.{eqb_ℤ, pos}
use nchan.Msg.Id.{MsgId, newest_msgid_time}
use nchan.Memstore.Buffer.{MsgStatus}
use nchan.Spool.{
  Env, Ref, Spool, Spooler, at_current, current, find_node, find_spool, get_node, get_spool,
  in_tree, latest_msg_id, oldest_msg_id, spool_at, spool_respond_general, status,
}
use nchan.Spool.Ensures.{
  Ensures, after-Ensures, assert-Ensures, bind-Ensures, none-Ensures, some-Ensures,
}
use nchan.Spool.Tracks.{IsOne, IsTracking}
use nchan.Spool.Fetch.{same_ref, spool_transfer_subscribers}
use nchan.Spool.Fetch.Transfer.{destroy_spool-IsTracking, spool_transfer_subscribers-updates}
use nchan.Spool.Answer.{answer_missing, destroy_ref, destroy_unless_reserved, set_status}

-- A spool is looked up, or made.
pub get_spool-IsTracking :
    (env : Env) (id : MsgId) (spl : Spooler)
    → IsOne id
    → IsTracking spl
    → IsTracking (get_spool env id spl).1
unfolding get_spool
get_spool-IsTracking env id spl one h = elim (Bool-cases (eqb_ℤ id.time newest_msgid_time)) [
  | inl newest ↦ rw newest h
  | inr old ↦ rw old (rw h.2 (made env.memory (find_node id spl.tree) old))
]
  where
    made :
        (memory : Bool) (o : Option Spool)
        → eqb_ℤ id.time newest_msgid_time ≡ false
        → IsTracking (get_node memory id spl o).1
    made memory (some s) old = h
    made true none old = (((one, old, tt), h.0), h.1, h.2)
    made false none old = h

pub find_spool-IsTracking :
    (id : MsgId) (spl : Spooler) → IsTracking spl → IsTracking (find_spool id spl).1
unfolding find_spool
find_spool-IsTracking id spl h = elim (Bool-cases (at_current id spl)) [
  | inl newest ↦ rw newest h
  | inr old ↦ rw old h
]

destroyed-IsTracking :
    (ref : Ref) (s : Spool) (spl : Spooler)
    → IsTracking spl
    → Ensures IsTracking (destroy_unless_reserved ref s spl)
destroyed-IsTracking ref s spl h = elim (Bool-cases (s.reserved == 0)) [
  | inl free ↦ rw free (gone ref)
  | inr reserved ↦ rw reserved (some-Ensures spl h)
]
  where
    gone : (ref : Ref) → Ensures IsTracking (destroy_ref ref spl)
    gone current = none-Ensures
    gone (in_tree id) = destroy_spool-IsTracking id spl h

pub answer_missing-IsTracking :
    (env : Env) (code : MsgStatus) (ref : Ref) (s : Spool) (spl : Spooler)
    → spool_at ref spl ≡ some s
    → IsTracking spl
    → Ensures IsTracking (answer_missing env code ref s spl)
unfolding answer_missing
answer_missing-IsTracking env code ref s spl at h =
    after-Ensures (spool_respond_general env (status 204) ref (set_status code ref s spl))
      (respond_status-IsTracking env 204 ref (set_status code ref s spl) _
        (write_spool-IsTracking ref _ spl h
          (Fits-same ref s _ refl refl (spool_at-Fits ref spl h at)))
        (spool_at-write_spool ref spl _ at refl))
      (λ told_them tracked.
        let kept = get_spool-IsTracking env oldest_msg_id told_them (refl, (pos 0, refl)) tracked in
        bind-Ensures (get_spool env oldest_msg_id told_them).0 (λ nuspool e.
          elim (Bool-cases (not (same_ref ref nuspool))) [
            | inl other ↦ rw other (
                after-Ensures
                  (spool_transfer_subscribers true ref nuspool
                    (get_spool env oldest_msg_id told_them).1)
                  (spool_transfer_subscribers-updates ref nuspool _ kept)
                  (λ moved h'.
                    after-Ensures (destroy_unless_reserved ref s moved)
                      (destroyed-IsTracking ref s moved h')
                      (λ left h''. spool_fetch_msg-IsTracking nuspool left h'')))
            | inr same ↦ rw same (
                bind-Ensures (compare_msgids s.id oldest_msg_id) (λ order ordered.
                  elim (Bool-cases (s.id.tagcount == 1 && eqb_ℤ order (pos 0))) [
                    | inl oldest ↦
                        rw oldest (to_newest (get_spool env oldest_msg_id told_them).1 kept)
                    | inr younger ↦ rw younger none-Ensures
                  ]))
          ]))
  where
    to_newest :
        (spl' : Spooler)
        → IsTracking spl'
        → Ensures IsTracking (do
          newspool ← (get_spool env latest_msg_id spl').0
          assert (not (same_ref ref newspool))
          moved ← spool_transfer_subscribers true ref newspool (get_spool env latest_msg_id spl').1
          destroy_unless_reserved ref s moved)
    to_newest spl' h' = bind-Ensures (get_spool env latest_msg_id spl').0 (λ newspool e.
        assert-Ensures (not (same_ref ref newspool)) _ (λ other.
          after-Ensures
            (spool_transfer_subscribers true ref newspool (get_spool env latest_msg_id spl').1)
            (spool_transfer_subscribers-updates ref newspool _
              (get_spool-IsTracking env latest_msg_id spl' (refl, (pos 0, refl)) h'))
            (λ moved h''. destroyed-IsTracking ref s moved h'')))
