-- ===== src/Spool/Answer/Telling.antt =====
-- Who is told a message.
use mathlib.Core.List.{Memᴰ}
use nchan.Prelude.{
  List, Option, ap, false, if◌then◌else◌, ltb, none, refl, some, subst, true, [], ◌&&◌, ◌>>=◌, ◌∙◌,
  ◌∷◌, ◌≡◌,
}
use nchan.Prelude.Int.{eqb_ℤ}
use nchan.Memstore.Message.{Message}
use nchan.Msg.Id.{MsgId, newest_msgid_time}
use nchan.Spool.{
  Call, Env, Spooler, Subscriber, current, expect_current, in_tree, is_passthrough, message,
  spool_at, spool_respond_general, told,
}
use nchan.Spool.Ensures.{
  Ensures, after-Ensures, bind-Ensures, both-Ensures, none-Ensures, some-Ensures, weaken-Ensures,
}
use nchan.Spool.Tracks.{IsTracking}
use nchan.Spool.Keep.{spool_at-current}
use nchan.Spool.Told.{ToldAll, respond_message-ToldAll}
use nchan.Spool.Grows.{
  Steps, Steps-refl, Steps-trans, Told, kept, spool_respond_general-Steps,
  spool_respond_general-Told,
}
use nchan.Spool.Fetch.{emptied, spool_nextmsg}
use nchan.Spool.Fetch.Nextmsg.{emptied-Fits, spool_nextmsg-IsTracking, write_spool-fetching}
use nchan.Spool.Fetch.NextSteps.{spool_nextmsg-current, spool_nextmsg-node}
use nchan.Spool.Answer.{collect, respond_and_move, respond_collected, spooler_respond_message}
use nchan.Spool.Answer.Respond.{IsPublished}

-- Moving on after the message was told.
next_node :
    (env : Env) (i : MsgId) (m : Message) (spl : Spooler)
    → IsPublished m
    → ToldAll m.id (in_tree i) spl
    → Ensures
        (λ spl'. IsTracking spl' × Steps true spl spl')
        (spool_nextmsg env (in_tree i) m.id spl)
next_node env i m spl (one, old) (s, at, h, every, follow) =
    both-Ensures
      (spool_nextmsg-IsTracking env (in_tree i) m.id spl one old (s, at, h, every, follow))
      (spool_nextmsg-node env i m.id s spl one.0 old
        (subst (λ f. is_passthrough f ≡ false) (write_spool-fetching (in_tree i) (emptied s) spl)
          h.2)
        at (emptied-Fits (in_tree i) spl s at h).1)

next_current :
    (env : Env) (m : Message) (spl : Spooler)
    → IsPublished m
    → ToldAll m.id current spl
    → Ensures (Steps false spl) (spool_nextmsg env current m.id spl)
next_current env m spl (one, old) (s, at, h, every, follow) =
    spool_nextmsg-current env m.id s spl one.0 old
      (subst (λ f. is_passthrough f ≡ false) (write_spool-fetching current (emptied s) spl) h.2) at
      (ap (λ t. eqb_ℤ t newest_msgid_time) (emptied-Fits current spl s at h))

respond_and_move-Steps :
    (env : Env) (m : Message) (i : MsgId) (spl : Spooler)
    → IsPublished m
    → IsTracking spl
    → Ensures
        (λ spl'. IsTracking spl' × Steps true spl spl')
        (respond_and_move env m (in_tree i) spl)
unfolding respond_and_move spool_respond_general
respond_and_move-Steps env m i spl published h =
    elim (spool_at (in_tree i) spl)
        as (λ o.
          spool_at (in_tree i) spl ≡ o
          → Ensures (λ spl'. IsTracking spl' × Steps true spl spl')
              (respond_and_move env m (in_tree i) spl)) [
                | none ↦ λ at. rw at none-Ensures
                | some s ↦ λ at.
                    after-Ensures (spool_respond_general env (message m) (in_tree i) spl)
                      (both-Ensures
                        (respond_message-ToldAll env m (in_tree i) spl s h published.0.0 at)
                        (spool_respond_general-Steps env (message m) (in_tree i) spl))
                      (λ told_them (all, steps).
                        weaken-Ensures (next_node env i m told_them published all)
                          (λ spl' (tracked, more).
                            (tracked, Steps-trans true spl told_them spl' steps more)))
              ]
      refl

respond_collected-Steps :
    (env : Env) (m : Message) (ids : List MsgId) (spl : Spooler)
    → IsPublished m
    → IsTracking spl
    → Ensures (λ spl'. IsTracking spl' × Steps true spl spl') (respond_collected env m ids spl)
unfolding respond_collected
respond_collected-Steps env m [] spl published h = some-Ensures spl (h, Steps-refl true spl)
respond_collected-Steps env m (id ∷ ids) spl published h =
    after-Ensures (respond_and_move env m (in_tree id) spl)
      (respond_and_move-Steps env m id spl published h)
      (λ next (h', steps).
        weaken-Ensures (respond_collected-Steps env m ids next published h')
          (λ spl' (h'', more). (h'', Steps-trans true spl next spl' steps more)))

-- The subscribers of the newest messages.
respond_current-tells :
    (env : Env) (m : Message) (spl : Spooler)
    → IsPublished m
    → IsTracking spl
    → Ensures
        (λ spl'. Told (message m) spl.current_msg_spool.subs spl'.calls)
        (respond_and_move env m current spl)
unfolding respond_and_move
respond_current-tells env m spl published h =
    after-Ensures (spool_respond_general env (message m) current spl)
      (both-Ensures
        (respond_message-ToldAll env m current spl spl.current_msg_spool h published.0.0
          (spool_at-current spl))
        (spool_respond_general-Told env (message m) current spl spl.current_msg_spool
          (spool_at-current spl)))
      (λ told_them (all, (steps, told)).
        weaken-Ensures (next_current env m told_them published all)
          (λ spl' more. still spl.current_msg_spool.subs told more.0))
  where
    still :
        (us : List Subscriber) {before after : List Call}
        → Told (message m) us before
        → ((c : Call) → Memᴰ c before → Memᴰ c after)
        → Told (message m) us after
    still [] told grows = tt
    still (u ∷ us) (here, there) grows = (grows _ here, still us there grows)

-- A message that is published to one channel is told to every subscriber that waits for the newest
-- message, once the channel's buffer is complete, if no assertion fails.
pub spooler_respond_message-tells :
    (env : Env) (m : Message) (spl spl' : Spooler)
    → IsPublished m
    → IsTracking spl
    → ltb 0 spl.current_msg_spool.sub_count ≡ true
    → spl.channel_buffer_complete ≡ true
    → spooler_respond_message env m spl ≡ some spl'
    → Told (message m) spl.current_msg_spool.subs spl'.calls
unfolding spooler_respond_message
spooler_respond_message-tells env m spl spl' published h waited complete e =
    (tells (collect m spl.tree >>= (λ ids. respond_collected env m ids spl)) (
        bind-Ensures (collect m spl.tree)
          (λ ids e'. respond_collected-Steps env m ids spl published h))).gives
      spl' (rw h.2 at e)
  where
    then_current : Spooler → Option Spooler
    then_current waiting = do
      told_all ←
          if ltb 0 waiting.current_msg_spool.sub_count && waiting.channel_buffer_complete
          then respond_and_move env m current waiting
          else some waiting
      some (record told_all { prev_msg_id = m.id })

    same_cond :
        (t : Spooler)
        → kept t ≡ kept spl
        → (ltb 0 t.current_msg_spool.sub_count && t.channel_buffer_complete) ≡ true
    same_cond t same = ap (λ k. ltb 0 (k.0).sub_count && k.1) same ∙ rw (waited, complete) refl

    tells :
        (o : Option Spooler)
        → Ensures (λ t. IsTracking t × Steps true spl t) o
        → Ensures
            (λ after. Told (message m) spl.current_msg_spool.subs after.calls)
            (o >>= λ told_tree. then_current (expect_current told_tree))
    tells o found = after-Ensures o found (λ t (tracked, steps).
        let same = steps.1 refl in
        rw (same_cond t same) (
          after-Ensures (respond_and_move env m current (expect_current t))
            (respond_current-tells env m (expect_current t) published tracked)
            (λ told_all told.
              some-Ensures _ (subst (λ k. Told (message m) (k.0).subs told_all.calls) same told))))
