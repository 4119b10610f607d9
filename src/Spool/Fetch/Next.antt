-- ===== src/Spool/Fetch/Next.antt =====
-- The end of `spool_nextmsg`, and who waits where after it.
use nchan.Prelude.Int.{eqb_ℤ}
use nchan.Msg.Id.{MsgId, newest_msgid_time}
use nchan.Spool.Fetch.Transfer.{
  Joins, destroy_spool-IsTracking, spool_transfer_subscribers-IsTracking,
}
use nchan.Prelude.{
  All, Bool, Bool-cases, List, Option, false, if◌then◌else◌, inl, inr, ltb, none, not, refl, some,
  subst, true, ◌&&◌, ◌==◌, ◌||◌, ◌∙◌, ◌∷◌, ◌≡◌,
}
use nchan.Memstore.Buffer.{
  MsgStatus, msg_channel_notready, msg_error, msg_expected, msg_expired, msg_found, msg_invalid,
  msg_notfound, msg_pending,
}
use nchan.Spool.{
  Env, Ref, Spool, Spooler, Subscriber, call, current, in_tree, is_passthrough, remove_node,
  spool_at, used, write_node, write_spool,
}
use nchan.Spool.Ensures.{Ensures, after-Ensures, assert-Ensures, bind-Ensures, some-Ensures}
use nchan.Spool.Tracks.{Follow, IsOne, IsTracking, Tracked, remove_node-All, remove_node-write_node}
use nchan.Spool.Keep.{
  Fits-same, spool_at-Fits, spool_at-Here, spool_at-calls, write_spool-IsTracking,
}
use nchan.Spool.Told.{respond_status-IsTracking}
use nchan.Spool.Fetch.{
  destroy_spool, emptied, fetchmsg_max_times, id_of_ref, is_invalid, is_none, same_ref,
  spool_fetch_msg, spool_transfer_subscribers, to_next, wake, wake_by,
}

-- A spool that is written with its id and its subscribers unchanged.
write_kept :
    (ref : Ref) (spl : Spooler) (s s' : Spool)
    → IsTracking spl
    → spool_at ref spl ≡ some s
    → s.id ≡ s'.id
    → s.subs ≡ s'.subs
    → IsTracking (write_spool ref s' spl)
write_kept ref spl s s' h at same subs =
    write_spool-IsTracking ref s' spl h (Fits-same ref s s' same subs (spool_at-Fits ref spl h at))

-- Asking the store for a message.
pub spool_fetch_msg-IsTracking :
    (ref : Ref) (spl : Spooler) → IsTracking spl → Ensures IsTracking (spool_fetch_msg ref spl)
unfolding spool_fetch_msg
spool_fetch_msg-IsTracking ref spl h = bind-Ensures (spool_at ref spl) (λ s at.
    elim (Bool-cases
      (s.fetchmsg_prev_msec == spl.now && ltb fetchmsg_max_times s.fetchmsg_current_count)) [
        | inl often ↦ rw often (some-Ensures _ (write_kept ref spl s _ h at refl refl))
        | inr seldom ↦
            rw seldom
              (elim (Bool-cases (not spl.channel_ready || not spl.channel_buffer_complete)) [
                | inl early ↦ rw early (some-Ensures _ (write_kept ref spl s _ h at refl refl))
                | inr ready ↦ rw ready (
                    assert-Ensures (is_none s.msg) _ (λ a.
                      assert-Ensures (is_invalid s.msg_status) _ (λ b.
                        assert-Ensures (not (is_passthrough spl.fetching_strategy)) _
                          (λ c. some-Ensures _ (write_kept ref spl s _ h at refl refl)))))
              ])
      ])

wake_by-IsTracking :
    (env : Env) (st : MsgStatus) (ref : Ref) (s : Spool) (spl : Spooler)
    → IsTracking spl
    → spool_at ref spl ≡ some s
    → Ensures IsTracking (wake_by env st ref s spl)
wake_by-IsTracking env msg_channel_notready ref s spl h at =
    spool_fetch_msg-IsTracking ref _ (write_kept ref spl s _ h at refl refl)
wake_by-IsTracking env msg_invalid ref s spl h at = spool_fetch_msg-IsTracking ref spl h
wake_by-IsTracking env msg_expected ref s spl h at =
    respond_status-IsTracking env 204 ref spl s h at
wake_by-IsTracking env msg_error ref s spl h at = some-Ensures spl h
wake_by-IsTracking env msg_pending ref s spl h at = some-Ensures spl h
wake_by-IsTracking env msg_notfound ref s spl h at = some-Ensures spl h
wake_by-IsTracking env msg_found ref s spl h at = some-Ensures spl h
wake_by-IsTracking env msg_expired ref s spl h at = some-Ensures spl h

pub wake-IsTracking :
    (env : Env) (ref : Ref) (spl : Spooler) → IsTracking spl → Ensures IsTracking (wake env ref spl)
unfolding wake
wake-IsTracking env ref spl h = bind-Ensures (spool_at ref spl) (λ s at.
    elim (Bool-cases (ltb 0 s.non_internal_sub_count)) [
      | inl external_subs ↦ rw external_subs (elim (Bool-cases (ltb 0 s.sub_count)) [
        | inl woken ↦ rw woken (
            wake_by-IsTracking env s.msg_status ref s (call used spl) h
              (spool_at-calls ref spl (used ∷ spl.calls) ∙ at))
        | inr empty ↦ rw empty (some-Ensures _ h)
      ])
      | inr internal_subs ↦ rw internal_subs (elim (Bool-cases (ltb 0 s.sub_count)) [
        | inl woken ↦ rw woken (wake_by-IsTracking env s.msg_status ref s spl h at)
        | inr empty ↦ rw empty (some-Ensures _ h)
      ])
    ])

-- The spool that the subscribers go to, if there is one.
abbrev pub Goes : List Subscriber → (Spooler → Spooler) → Option Ref → Spooler → Type 0
Goes us taken none spl = Unit
Goes us taken (some newref) spl = Joins false newref us (taken spl)

-- The spool gets the new id, and its subscribers stay.
renamed-IsTracking :
    (id : MsgId) (s : Spool) (new_id : MsgId) (spl : Spooler)
    → spool_at (in_tree id) spl ≡ some s
    → IsOne new_id
    → eqb_ℤ new_id.time newest_msgid_time ≡ false
    → Follow new_id s.subs
    → IsTracking (write_spool (in_tree id) (emptied s) spl)
    → IsTracking (record spl {
      tree =
          record s { id = new_id; msg_status = msg_invalid; msg = none } ∷ remove_node id spl.tree;
    })
unfolding write_spool
renamed-IsTracking id s new_id spl at one old follow h = (
  (
    (one, old, follow),
    subst (All Tracked)
        (remove_node-write_node id (emptied s) spl.tree (spool_at-Here (in_tree id) spl at))
        (remove_node-All Tracked id (write_node id (emptied s) spl.tree) h.0),
  ),
  h.1,
  h.2,
)

abbrev pub IsNode : Ref → Type 0
IsNode current = true ≡ false
IsNode (in_tree id) = Unit

-- The subscribers go to another spool.
pub to_next_spool-IsTracking :
    (env : Env) (immortal : Bool) (ref : Ref) (s : Spool) (new_id : MsgId) (newref : Ref)
    (spl : Spooler)
    → spool_at ref spl ≡ some s
    → IsTracking (write_spool ref (emptied s) spl)
    → Joins false newref s.subs (write_spool ref (emptied s) spl)
    → Ensures IsTracking (to_next env immortal ref s new_id (some newref) spl)
to_next_spool-IsTracking env immortal ref s new_id newref spl at h goes =
    assert-Ensures (not (same_ref ref newref)) _ (λ other.
      after-Ensures (spool_transfer_subscribers false ref newref spl)
        (spool_transfer_subscribers-IsTracking false ref newref spl s at h goes)
        (λ moved tracked.
          after-Ensures
            (if not immortal && s.reserved == 0
              then destroy_spool (id_of_ref ref) moved
              else some moved)
            (elim (Bool-cases (not immortal && s.reserved == 0)) [
              | inl gone ↦ rw gone (destroy_spool-IsTracking (id_of_ref ref) moved tracked)
              | inr kept ↦ rw kept (some-Ensures moved tracked)
            ])
            (λ left tracked'. wake-IsTracking env newref left tracked')))

pub to_next-IsTracking :
    (env : Env) (immortal : Bool) (ref : Ref) (s : Spool) (new_id : MsgId) (to : Option Ref)
    (spl : Spooler)
    → spool_at ref spl ≡ some s
    → (not immortal ≡ true → IsNode ref)
    → IsOne new_id
    → eqb_ℤ new_id.time newest_msgid_time ≡ false
    → Follow new_id s.subs
    → IsTracking (write_spool ref (emptied s) spl)
    → Goes s.subs (write_spool ref (emptied s)) to spl
    → Ensures IsTracking (to_next env immortal ref s new_id to spl)
to_next-IsTracking env immortal current s new_id none spl at tree one old follow h goes =
    assert-Ensures (not immortal) _ (λ mortal. absurd (cc (tree mortal)))
to_next-IsTracking env immortal (in_tree id) s new_id none spl at tree one old follow h goes =
    assert-Ensures (not immortal) _ (λ mortal.
      wake-IsTracking env (in_tree new_id) _
        (renamed-IsTracking id s new_id spl at one old follow h))
to_next-IsTracking env immortal ref s new_id (some newref) spl at tree one old follow h goes =
    to_next_spool-IsTracking env immortal ref s new_id newref spl at h goes
