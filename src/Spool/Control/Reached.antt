-- ===== src/Spool/Control/Reached.antt =====
-- The spoolers that a running channel comes to, by whatever happens in whatever order.
use nchan.Prelude.{Bool, Option, Rc, false, refl, some, ℕ, ◌≡◌}
use nchan.Msg.Id.{MsgId}
use nchan.Memstore.Message.{Message}
use nchan.Memstore.Buffer.{MsgStatus, msg_found}
use nchan.Spool.{
  Env, Ref, Response, Spool, Spooler, Strategy, Subscriber, find_node, is_passthrough,
}
use nchan.Spool.Tracks.{IsOne, IsTracking}
use nchan.Spool.Told.{IsQuiet}
use nchan.Spool.Answer.{spool_fetch_msg_callback, spooler_add_subscriber, spooler_respond_message}
use nchan.Spool.Answer.Respond.{IsPublished}
use nchan.Spool.Answer.Joining.{spooler_add_subscriber-IsTracking}
use nchan.Spool.Answer.Tracking.{
  IsAnswer, spool_fetch_msg_callback-IsTracking, spooler_respond_message-IsTracking,
}
use nchan.Spool.Control.{
  fetchmsg_ev_handler, spool_sub_dequeue_callback, spooler_catch_up, spooler_channel_status_changed,
  spooler_prepare_to_stop, spooler_respond_generic, spooler_respond_status, start_spooler,
}
use nchan.Spool.Control.Tracking.{
  fetchmsg_ev_handler-IsTracking, spool_sub_dequeue_callback-IsTracking,
  spooler_catch_up-IsTracking, spooler_channel_status_changed-IsTracking,
  spooler_respond_generic-IsTracking, spooler_respond_status-IsTracking,
}

-- A spooler that fetches messages is started; then subscribers of one channel are added, messages of
-- one channel are told, the store answers, statuses and notices are told, subscribers leave, and time passes. No step
-- fails an assertion, and who is added joins no spool that still holds a message.
pub data Reaches : Spooler → Type 0 where
  started :
      (strategy : Strategy) (ready complete : Bool) (now : ℕ)
      → is_passthrough strategy ≡ false
      → Reaches (start_spooler strategy ready complete now)
  passed :
      (ready complete : Bool) (now : ℕ) (spl : Spooler)
      → Reaches spl
      → Reaches
          (record spl { channel_ready = ready; channel_buffer_complete = complete; now = now })
  joined :
      (env : Env) (u : Subscriber) (rc : Rc) (spl spl' : Spooler)
      → Reaches spl
      → IsOne u.last_msgid
      → ((s : Spool) → find_node u.last_msgid spl.tree ≡ some s → ¬ (s.msg_status ≡ msg_found))
      → spooler_add_subscriber env u spl ≡ some (rc, spl')
      → Reaches spl'
  published :
      (env : Env) (m : Message) (spl spl' : Spooler)
      → Reaches spl
      → IsPublished m
      → spooler_respond_message env m spl ≡ some spl'
      → Reaches spl'
  answered :
      (env : Env) (code : MsgStatus) (msg : Option Message) (msgid : MsgId) (spl spl' : Spooler)
      → Reaches spl
      → IsAnswer msg
      → spool_fetch_msg_callback env code msg msgid spl ≡ some spl'
      → Reaches spl'
  responded :
      (env : Env) (id : MsgId) (code : ℕ) (spl spl' : Spooler)
      → Reaches spl
      → spooler_respond_status env id code spl ≡ some spl'
      → Reaches spl'
  broadcast :
      (env : Env) (r : Response) (spl spl' : Spooler)
      → Reaches spl
      → IsQuiet r
      → spooler_respond_generic env r spl ≡ some spl'
      → Reaches spl'
  became_ready :
      (spl spl' : Spooler)
      → Reaches spl
      → spooler_channel_status_changed spl ≡ some spl'
      → Reaches spl'
  caught_up : (spl spl' : Spooler) → Reaches spl → spooler_catch_up spl ≡ some spl' → Reaches spl'
  left :
      (ref : Ref) (n : ℕ) (spl spl' : Spooler)
      → Reaches spl
      → spool_sub_dequeue_callback ref n spl ≡ some spl'
      → Reaches spl'
  stopping : (spl : Spooler) → Reaches spl → Reaches (spooler_prepare_to_stop spl)
  timer_fired :
      (ref : Ref) (spl spl' : Spooler)
      → Reaches spl
      → fetchmsg_ev_handler ref spl ≡ some spl'
      → Reaches spl'

-- In every spooler that comes about from its start, by these steps in any order, each spool of the
-- tree is at an id of one channel that is not the newest, each of its subscribers that keeps its last
-- id had the message of that id last, the other spool keeps the newest id, and messages are fetched.
pub Reaches-IsTracking : (spl : Spooler) → Reaches spl → IsTracking spl
Reaches-IsTracking spl (started strategy ready complete now fetching) = (tt, refl, fetching)
Reaches-IsTracking spl (passed ready complete now before r) = Reaches-IsTracking before r
Reaches-IsTracking spl (joined env u rc before after r one empty e) =
    spooler_add_subscriber-IsTracking env u before (rc, spl) one empty (Reaches-IsTracking before r)
      e
Reaches-IsTracking spl (published env m before after r ok e) =
    spooler_respond_message-IsTracking env m before spl ok (Reaches-IsTracking before r) e
Reaches-IsTracking spl (answered env code msg msgid before after r ok e) =
    spool_fetch_msg_callback-IsTracking env code msg msgid before spl ok
      (Reaches-IsTracking before r) e
Reaches-IsTracking spl (responded env id code before after r e) =
    (spooler_respond_status-IsTracking env id code before (Reaches-IsTracking before r)).gives spl e
Reaches-IsTracking spl (broadcast env quiet_r before after r quiet e) =
    (spooler_respond_generic-IsTracking env quiet_r before quiet
        (Reaches-IsTracking before r)).gives
      spl e
Reaches-IsTracking spl (became_ready before after r e) =
    (spooler_channel_status_changed-IsTracking before (Reaches-IsTracking before r)).gives spl e
Reaches-IsTracking spl (caught_up before after r e) =
    (spooler_catch_up-IsTracking before (Reaches-IsTracking before r)).gives spl e
Reaches-IsTracking spl (left ref n before after r e) =
    (spool_sub_dequeue_callback-IsTracking ref n before (Reaches-IsTracking before r)).gives spl e
Reaches-IsTracking spl (stopping before r) = Reaches-IsTracking before r
Reaches-IsTracking spl (timer_fired ref before after r e) =
    (fetchmsg_ev_handler-IsTracking ref before (Reaches-IsTracking before r)).gives spl e
