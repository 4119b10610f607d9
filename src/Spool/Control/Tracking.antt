-- ===== src/Spool/Control/Tracking.antt =====
-- Who waits where after statuses and notices for the spools, and after a channel became ready.
use nchan.Prelude.Int.{eqb_ℤ}
use nchan.Spool.Fetch.{is_invalid, spool_fetch_msg}
use nchan.Prelude.{
  All, Bool, Bool-cases, List, Option, ap, false, get_elem?, if◌then◌else◌, inl, inr, none, not,
  refl, some, subst, suc, sym, true, zero, ℕ, [], ◌%◌, ◌&&◌, ◌+◌, ◌==◌, ◌∙◌, ◌∷◌, ◌≡◌,
}
use nchan.Msg.Id.{MsgId, newest_msgid_time}
use nchan.Memstore.Buffer.{msg_expected, msg_invalid}
use nchan.Spool.{
  Env, Ref, Response, Spool, Spooler, Subscriber, count_removed, current, in_tree, spool_at,
  spool_respond_general, status,
}
use nchan.Spool.Ensures.{Ensures, after-Ensures, bind-Ensures, none-Ensures, some-Ensures}
use nchan.Spool.Tracks.{Follow, IsTracking, SameId, Tracked}
use nchan.Spool.Keep.{
  Fits, count_removed-same, spool_at-Fits, spool_at-write_spool, write_spool-IsTracking,
}
use nchan.Spool.Told.{IsQuiet, respond_quiet-IsTracking, respond_status-IsTracking, same_again}
use nchan.Spool.Fetch.Transfer.{destroy_spool-IsTracking}
use nchan.Spool.Answer.{destroy_ref, set_status}
use nchan.Spool.Answer.Missing.{find_spool-IsTracking}
use nchan.Spool.Answer.Tracking.{set_kept}
use nchan.Spool.Fetch.Next.{spool_fetch_msg-IsTracking}
use nchan.Spool.Control.{
  ask_again, ask_all, fetchmsg_ev_handler, ids_of, is_unasked, its_time_for_a_spooling,
  reserve_unasked, respond_nodes, respond_status_at, spool_release, spool_sub_dequeue_callback,
  spooler_catch_up, spooler_channel_status_changed, spooler_respond_generic, spooler_respond_status,
  waiting_ids, without,
}

destroy_ref-IsTracking :
    (ref : Ref) (spl : Spooler) → IsTracking spl → Ensures IsTracking (destroy_ref ref spl)
destroy_ref-IsTracking current spl h = none-Ensures
destroy_ref-IsTracking (in_tree id) spl h = destroy_spool-IsTracking id spl h

respond_status_at-IsTracking :
    (env : Env) (code : ℕ) (to : Option Ref) (spl : Spooler)
    → IsTracking spl
    → Ensures IsTracking (respond_status_at env code to spl)
respond_status_at-IsTracking env code none spl h = some-Ensures spl h
respond_status_at-IsTracking env code (some ref) spl h = bind-Ensures (spool_at ref spl) (λ s at.
    after-Ensures
      (spool_respond_general env (status code) ref
        (if code == 204 then set_status msg_expected ref s spl else spl))
      (told_by (code == 204) s at) (λ told_them kept. destroy_ref-IsTracking ref told_them kept))
  where
    told_by :
        (b : Bool) (s : Spool)
        → spool_at ref spl ≡ some s
        → Ensures IsTracking (
            spool_respond_general env
              (status code)
              ref
              (if b then set_status msg_expected ref s spl else spl))
    told_by true s at =
        respond_status-IsTracking env code ref _ _ (set_kept ref s _ spl at h refl refl)
          (spool_at-write_spool ref spl _ at refl)
    told_by false s at = respond_status-IsTracking env code ref spl s h at

pub spooler_respond_status-IsTracking :
    (env : Env) (id : MsgId) (code : ℕ) (spl : Spooler)
    → IsTracking spl
    → Ensures IsTracking (spooler_respond_status env id code spl)
unfolding spooler_respond_status
spooler_respond_status-IsTracking env id code spl h =
    respond_status_at-IsTracking env code _ _ (find_spool-IsTracking id spl h)

-- What is no message, wherever the pointer points to.
respond_general-IsTracking :
    (env : Env) (r : Response) (ref : Ref) (spl : Spooler)
    → IsQuiet r
    → IsTracking spl
    → Ensures IsTracking (spool_respond_general env r ref spl)
unfolding spool_respond_general
respond_general-IsTracking env r ref spl quiet h =
    elim (spool_at ref spl)
        as (λ o. spool_at ref spl ≡ o → Ensures IsTracking (spool_respond_general env r ref spl)) [
          | none ↦ λ at. rw at none-Ensures
          | some s ↦ λ at. respond_quiet-IsTracking env r ref spl s quiet h at
        ]
      refl

respond_nodes-IsTracking :
    (env : Env) (r : Response) (ids : List MsgId) (spl : Spooler)
    → IsQuiet r
    → IsTracking spl
    → Ensures IsTracking (respond_nodes env r ids spl)
unfolding respond_nodes
respond_nodes-IsTracking env r [] spl quiet h = some-Ensures spl h
respond_nodes-IsTracking env r (id ∷ ids) spl quiet h =
    after-Ensures (spool_respond_general env r (in_tree id) spl)
      (respond_general-IsTracking env r (in_tree id) spl quiet h)
      (λ spl' h'. respond_nodes-IsTracking env r ids spl' quiet h')

pub spooler_respond_generic-IsTracking :
    (env : Env) (r : Response) (spl : Spooler)
    → IsQuiet r
    → IsTracking spl
    → Ensures IsTracking (spooler_respond_generic env r spl)
unfolding spooler_respond_generic
spooler_respond_generic-IsTracking env r spl quiet h =
    after-Ensures (respond_nodes env r (ids_of spl.tree) spl)
      (respond_nodes-IsTracking env r (ids_of spl.tree) spl quiet h)
      (λ spl' h'. respond_general-IsTracking env r current spl' quiet h')

spool_release-IsTracking :
    (ref : Ref) (spl : Spooler) → IsTracking spl → Ensures IsTracking (spool_release ref spl)
unfolding spool_release
spool_release-IsTracking ref spl h = bind-Ensures (spool_at ref spl) (λ s at.
    let released =
      set_kept ref s (record s { reserved = (s.reserved + 255) % 256 }) spl at h refl refl in
    elim (Bool-cases (
      not (eqb_ℤ s.id.time newest_msgid_time)
      && ((s.reserved + 255) % 256 == 0)
      && (s.sub_count == 0))) [
        | inl gone ↦ rw gone (destroy_ref-IsTracking ref _ released)
        | inr kept ↦ rw kept (some-Ensures _ released)
      ])

reserve_unasked-Tracked : (ss : List Spool) → All Tracked ss → All Tracked (reserve_unasked ss).0
unfolding reserve_unasked
reserve_unasked-Tracked [] h = tt
reserve_unasked-Tracked (s ∷ ss) (here, there) = elim (Bool-cases (is_unasked s.msg_status)) [
  | inl unasked ↦ rw unasked (here, reserve_unasked-Tracked ss there)
  | inr asked ↦ rw asked (here, reserve_unasked-Tracked ss there)
]

-- The request that is made again.
asked_again-IsTracking :
    (id : MsgId) (s : Spool) (spl : Spooler)
    → spool_at (in_tree id) spl ≡ some s
    → IsTracking spl
    → Ensures IsTracking (spool_fetch_msg (in_tree id) (set_status msg_invalid (in_tree id) s spl))
asked_again-IsTracking id s spl at h =
    spool_fetch_msg-IsTracking (in_tree id) _ (set_kept (in_tree id) s _ spl at h refl refl)

its_time_for_a_spooling-IsTracking :
    (id : MsgId) (spl : Spooler)
    → IsTracking spl
    → Ensures IsTracking (its_time_for_a_spooling id spl)
unfolding its_time_for_a_spooling
its_time_for_a_spooling-IsTracking id spl h = bind-Ensures (spool_at (in_tree id) spl) (λ s at.
    after-Ensures _ (asked (is_unasked s.msg_status) s at)
      (λ asked_it h'. spool_release-IsTracking (in_tree id) asked_it h'))
  where
    asked :
        (b : Bool) (s : Spool)
        → spool_at (in_tree id) spl ≡ some s
        → Ensures IsTracking (
            if b
            then spool_fetch_msg (in_tree id) (set_status msg_invalid (in_tree id) s spl)
            else some spl)
    asked true s at = asked_again-IsTracking id s spl at h
    asked false s at = some-Ensures spl h

ask_all-IsTracking :
    (ids : List MsgId) (spl : Spooler) → IsTracking spl → Ensures IsTracking (ask_all ids spl)
unfolding ask_all
ask_all-IsTracking [] spl h = some-Ensures spl h
ask_all-IsTracking (id ∷ ids) spl h =
    after-Ensures (its_time_for_a_spooling id spl) (its_time_for_a_spooling-IsTracking id spl h)
      (λ spl' h'. ask_all-IsTracking ids spl' h')

pub spooler_channel_status_changed-IsTracking :
    (spl : Spooler) → IsTracking spl → Ensures IsTracking (spooler_channel_status_changed spl)
unfolding spooler_channel_status_changed
spooler_channel_status_changed-IsTracking spl h = changed spl.channel_ready
  where
    changed :
        (b : Bool)
        → Ensures IsTracking (
            if b
            then ask_all
                (reserve_unasked spl.tree).1
                (record spl { tree = (reserve_unasked spl.tree).0 })
            else some spl)
    changed true =
        ask_all-IsTracking (reserve_unasked spl.tree).1 _
          (reserve_unasked-Tracked spl.tree h.0, h.1, h.2)
    changed false = some-Ensures spl h

ask_again-IsTracking :
    (ids : List MsgId) (spl : Spooler) → IsTracking spl → Ensures IsTracking (ask_again ids spl)
unfolding ask_again
ask_again-IsTracking [] spl h = some-Ensures spl h
ask_again-IsTracking (id ∷ ids) spl h = bind-Ensures (spool_at (in_tree id) spl) (λ s at.
    after-Ensures (spool_fetch_msg (in_tree id) (set_status msg_invalid (in_tree id) s spl))
      (asked_again-IsTracking id s spl at h) (λ asked h'. ask_again-IsTracking ids asked h'))

pub spooler_catch_up-IsTracking :
    (spl : Spooler) → IsTracking spl → Ensures IsTracking (spooler_catch_up spl)
unfolding spooler_catch_up
spooler_catch_up-IsTracking spl h = ask_again-IsTracking (waiting_ids spl.tree) spl h

pub fetchmsg_ev_handler-IsTracking :
    (ref : Ref) (spl : Spooler) → IsTracking spl → Ensures IsTracking (fetchmsg_ev_handler ref spl)
unfolding fetchmsg_ev_handler
fetchmsg_ev_handler-IsTracking ref spl h = bind-Ensures (spool_at ref spl) (λ s at.
    let fired = set_kept ref s (record s { fetchmsg_timer = false }) spl at h refl refl in
    elim (Bool-cases (is_invalid s.msg_status)) [
      | inl invalid ↦ rw invalid (spool_fetch_msg-IsTracking ref _ fired)
      | inr valid ↦ rw valid (some-Ensures _ fired)
    ])

without-All {κ} :
    (P : Subscriber → Type κ) (n : ℕ) (us : List Subscriber) → All P us → All P (without n us)
unfolding without
without-All P n [] h = tt
without-All P zero (u ∷ us) (here, there) = there
without-All P (suc n) (u ∷ us) (here, there) = (here, without-All P n us there)

-- A spool that lost one of its subscribers.
Fits-without :
    (ref : Ref) (n : ℕ) (s s' : Spool)
    → s'.id ≡ s.id
    → s'.subs ≡ without n s.subs
    → Fits ref s
    → Fits ref s'
Fits-without current n s s' same subs fits = ap (λ i. i.time) same ∙ fits
Fits-without (in_tree id) n s s' same subs fits = same_again s s' same fits (
    subst (Follow s.id) (sym subs)
      (without-All (λ u. u.updates ≡ true → SameId u.last_msgid s.id) n s.subs fits.2))

pub spool_sub_dequeue_callback-IsTracking :
    (ref : Ref) (n : ℕ) (spl : Spooler)
    → IsTracking spl
    → Ensures IsTracking (spool_sub_dequeue_callback ref n spl)
unfolding spool_sub_dequeue_callback
spool_sub_dequeue_callback-IsTracking ref n spl h = bind-Ensures (spool_at ref spl) (λ s at.
    bind-Ensures (get_elem? s.subs n) (λ u e.
      after-Ensures (count_removed u s) (count_removed-same true u s) (λ counted same.
        some-Ensures _ (
          write_spool-IsTracking ref _ spl h (
            Fits-without ref n s (record counted { subs = without n s.subs }) same refl
              (spool_at-Fits ref spl h at))))))
