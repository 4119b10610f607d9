-- ===== src/Spool/Fetch/Steps.antt =====
-- The calls that moving subscribers and asking the store make.
use mathlib.Core.List.{Memᴰ}
use nchan.Prelude.{
  Bool, Bool-cases, List, Option, arith, false, if◌then◌else◌, inl, inr, length, ltb, none, not,
  refl, some, true, [], ◌&&◌, ◌==◌, ◌||◌, ◌∙◌, ◌∷◌, ◌≡◌,
}
use nchan.Memstore.Buffer.{
  MsgStatus, msg_channel_notready, msg_error, msg_expected, msg_expired, msg_found, msg_invalid,
  msg_notfound, msg_pending,
}
use nchan.Msg.Id.{MsgId}
use nchan.Spool.{
  Call, Env, Ref, Spool, Spooler, Subscriber, call, current, dequeued, find_node, get_message,
  get_message_start, in_tree, is_passthrough, spool_at, status, used, write_spool,
}
use nchan.Spool.Ensures.{
  Ensures, after-Ensures, assert-Ensures, bind-Ensures, some-Ensures, weaken-Ensures,
}
use nchan.Spool.Grows.{
  Steps, Steps-call, Steps-refl, Steps-trans, Steps-write_spool, is_node,
  spool_respond_general-Steps,
}
use nchan.Spool.Fetch.{
  dequeue_all, destroy_spool, emptied, fetchmsg_max_times, id_of_ref, is_invalid, is_none, same_ref,
  spool_fetch_msg, spool_transfer_subscribers, to_next, transfer_loop, wake, wake_by,
}

pub spool_fetch_msg-Steps :
    (ref : Ref) (spl : Spooler) → Ensures (Steps (is_node ref) spl) (spool_fetch_msg ref spl)
unfolding spool_fetch_msg
spool_fetch_msg-Steps ref spl = bind-Ensures (spool_at ref spl) (λ s at.
    elim (Bool-cases
      (s.fetchmsg_prev_msec == spl.now && ltb fetchmsg_max_times s.fetchmsg_current_count)) [
        | inl often ↦ rw often (some-Ensures _ (Steps-write_spool ref _ spl))
        | inr seldom ↦
            rw seldom
              (elim (Bool-cases (not spl.channel_ready || not spl.channel_buffer_complete)) [
                | inl early ↦ rw early (some-Ensures _ (Steps-write_spool ref _ spl))
                | inr ready ↦ rw ready (
                    assert-Ensures (is_none s.msg) _ (λ a.
                      assert-Ensures (is_invalid s.msg_status) _ (λ b.
                        assert-Ensures (not (is_passthrough spl.fetching_strategy)) _
                          (λ c. some-Ensures _ (asked s.id _)))))
              ])
      ])
  where
    asked :
        (id : MsgId) (counted : Spool)
        → Steps
            (is_node ref)
            spl
            (call (get_message id) (call get_message_start (write_spool ref counted spl)))
    asked id counted =
        let written = Steps-write_spool ref counted spl in
        ((λ c x. Memᴰ.tail (Memᴰ.tail (written.0 c x))), written.1)

wake_by-Steps :
    (env : Env) (st : MsgStatus) (ref : Ref) (s : Spool) (spl : Spooler)
    → Ensures (Steps (is_node ref) spl) (wake_by env st ref s spl)
wake_by-Steps env msg_channel_notready ref s spl =
    let asking = write_spool ref (record s { msg_status = msg_invalid }) spl in
    weaken-Ensures (spool_fetch_msg-Steps ref asking)
      (λ spl' h. Steps-trans (is_node ref) spl asking spl' (Steps-write_spool ref _ spl) h)
wake_by-Steps env msg_invalid ref s spl = spool_fetch_msg-Steps ref spl
wake_by-Steps env msg_expected ref s spl = spool_respond_general-Steps env (status 204) ref spl
wake_by-Steps env msg_error ref s spl = some-Ensures spl (Steps-refl (is_node ref) spl)
wake_by-Steps env msg_pending ref s spl = some-Ensures spl (Steps-refl (is_node ref) spl)
wake_by-Steps env msg_notfound ref s spl = some-Ensures spl (Steps-refl (is_node ref) spl)
wake_by-Steps env msg_found ref s spl = some-Ensures spl (Steps-refl (is_node ref) spl)
wake_by-Steps env msg_expired ref s spl = some-Ensures spl (Steps-refl (is_node ref) spl)

pub wake-Steps :
    (env : Env) (ref : Ref) (spl : Spooler) → Ensures (Steps (is_node ref) spl) (wake env ref spl)
unfolding wake
wake-Steps env ref spl = bind-Ensures (spool_at ref spl) (λ s at.
    elim (Bool-cases (ltb 0 s.non_internal_sub_count)) [
      | inl external_subs ↦
          rw external_subs (woken s (call used spl) (Steps-call (is_node ref) used spl))
      | inr internal_subs ↦ rw internal_subs (woken s spl (Steps-refl (is_node ref) spl))
    ])
  where
    woken :
        (s : Spool) (spl' : Spooler)
        → Steps (is_node ref) spl spl'
        → Ensures
            (Steps (is_node ref) spl)
            (if ltb 0 s.sub_count then wake_by env s.msg_status ref s spl' else some spl')
    woken s spl' h = elim (Bool-cases (ltb 0 s.sub_count)) [
      | inl some_subs ↦ rw some_subs (
          weaken-Ensures (wake_by-Steps env s.msg_status ref s spl')
            (λ after k. Steps-trans (is_node ref) spl spl' after h k))
      | inr none_left ↦ rw none_left (some-Ensures spl' h)
    ]

pub spool_transfer_subscribers-Steps :
    (update : Bool) (ref newref : Ref) (spl : Spooler)
    → Ensures
        (Steps (is_node ref && is_node newref) spl)
        (spool_transfer_subscribers update ref newref spl)
unfolding spool_transfer_subscribers
spool_transfer_subscribers-Steps update ref newref spl = bind-Ensures (spool_at ref spl) (λ s at.
    bind-Ensures (spool_at newref (write_spool ref (emptied s) spl)) (λ new at'. some-Ensures _ (
      both (write_spool ref (emptied s) spl) (transfer_loop update s.subs new) ref newref
        (Steps-write_spool ref (emptied s) spl))))
  where
    both :
        (taken : Spooler) (new : Spool) (ref newref : Ref)
        → Steps (is_node ref) spl taken
        → Steps (is_node ref && is_node newref) spl (write_spool newref new taken)
    both taken new current newref h =
        ((λ x m. (Steps-write_spool newref new taken).0 x (h.0 x m)), λ e. cc)
    both taken new (in_tree i) newref h = (
      (λ x m. (Steps-write_spool newref new taken).0 x (h.0 x m)),
      λ e. (Steps-write_spool newref new taken).1 e ∙ h.1 refl,
    )

dequeue_all-Grows :
    (us : List Subscriber) (calls : List Call) (c : Call)
    → Memᴰ c calls
    → Memᴰ c (dequeue_all us calls)
dequeue_all-Grows [] calls c h = h
dequeue_all-Grows (u ∷ us) calls c h = dequeue_all-Grows us (dequeued u ∷ calls) c (Memᴰ.tail h)

pub destroy_spool-Steps :
    (apart : Bool) (id : MsgId) (spl : Spooler) → Ensures (Steps apart spl) (destroy_spool id spl)
unfolding destroy_spool
destroy_spool-Steps apart id spl = bind-Ensures (find_node id spl.tree) (λ s e.
    assert-Ensures (s.reserved == 0) _ (λ free.
      assert-Ensures (s.sub_count == length s.subs) _
        (λ counted. some-Ensures _ ((λ c h. dequeue_all-Grows s.subs spl.calls c h), λ e'. refl))))

-- The spool that the subscribers come to, or else the renamed one.
abbrev pub comes_to_node : Option Ref → Bool
comes_to_node none = true
comes_to_node (some newref) = is_node newref

pub to_next-Steps :
    (env : Env) (immortal : Bool) (ref : Ref) (s : Spool) (new_id : MsgId) (to : Option Ref)
    (spl : Spooler)
    → Ensures
        (Steps (is_node ref && comes_to_node to) spl)
        (to_next env immortal ref s new_id to spl)
to_next-Steps env immortal ref s new_id none spl =
    assert-Ensures (not immortal) _ (λ mortal.
      weaken-Ensures (wake-Steps env (in_tree new_id) _) (λ spl' h. (h.0, λ e. h.1 refl)))
to_next-Steps env immortal ref s new_id (some newref) spl =
    assert-Ensures (not (same_ref ref newref)) _ (λ other.
      after-Ensures (spool_transfer_subscribers false ref newref spl)
        (spool_transfer_subscribers-Steps false ref newref spl)
        (λ moved h.
          after-Ensures
            (if not immortal && s.reserved == 0
              then destroy_spool (id_of_ref ref) moved
              else some moved)
            (left (not immortal && s.reserved == 0) moved)
            (λ left k. weaken-Ensures (wake-Steps env newref left) (λ spl' l. (
              (λ c x. l.0 c (k.0 c (h.0 c x))),
              λ e. l.1 (second (is_node ref) (is_node newref) e) ∙ k.1 refl ∙ h.1 e,
            )))))
  where
    left :
        (b : Bool) (moved : Spooler)
        → Ensures (Steps true moved) (if b then destroy_spool (id_of_ref ref) moved else some moved)
    left true moved = destroy_spool-Steps true (id_of_ref ref) moved
    left false moved = some-Ensures moved (Steps-refl true moved)

    second : (a b : Bool) → (a && b) ≡ true → b ≡ true
    second a b h = ground arith
