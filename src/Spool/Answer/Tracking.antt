-- ===== src/Spool/Answer/Tracking.antt =====
-- Who waits where in a spooler: each of its operations keeps that subscribers wait at the spool of the
-- message that they had last.
use nchan.Prelude.{Bool-cases, Option, inl, inr, none, not, refl, some, ◌≡◌}
use nchan.Prelude.Int.{eqb_ℤ}
use nchan.Msg.Id.{MsgId, nth_msgid_time}
use nchan.Memstore.Message.{Message}
use nchan.Memstore.Buffer.{
  MsgStatus, msg_channel_notready, msg_error, msg_expected, msg_expired, msg_found, msg_invalid,
  msg_notfound, msg_pending,
}
use nchan.Spool.{
  Env, Ref, Spool, Spooler, Strategy, call, fetch, fetch_ignore_msg_notfound, get_message_finish,
  is_passthrough, message, passthrough, spool_at, spool_respond_general, status, write_spool,
}
use nchan.Spool.Ensures.{
  Ensures, after-Ensures, assert-Ensures, bind-Ensures, none-Ensures, some-Ensures,
}
use nchan.Spool.Tracks.{IsTracking}
use nchan.Spool.Keep.{Fits-same, spool_at-Fits, spool_at-write_spool, write_spool-IsTracking}
use nchan.Spool.Told.{respond_message-ToldAll, respond_status-IsTracking}
use nchan.Spool.Fetch.Nextmsg.{spool_nextmsg-IsTracking, spool_nextmsg-latest}
use nchan.Spool.Fetch.{is_none}
use nchan.Spool.Answer.{
  answer_at, answer_by, answer_missing, spool_fetch_msg_callback, spooler_respond_message,
}
use nchan.Spool.Answer.Respond.{IsPublished, respond_message_keeps}
use nchan.Spool.Answer.Missing.{answer_missing-IsTracking, find_spool-IsTracking}

-- The message of an answer, if it has one, is of one channel.
abbrev pub IsAnswer : Option Message → Type 0
IsAnswer none = Unit
IsAnswer (some m) = IsPublished m

pub set_kept :
    (ref : Ref) (s s' : Spool) (spl : Spooler)
    → spool_at ref spl ≡ some s
    → IsTracking spl
    → s.id ≡ s'.id
    → s.subs ≡ s'.subs
    → IsTracking (write_spool ref s' spl)
set_kept ref s s' spl at h same subs =
    write_spool-IsTracking ref s' spl h (Fits-same ref s s' same subs (spool_at-Fits ref spl h at))

answer_by-IsTracking :
    (env : Env) (code : MsgStatus) (msg : Option Message) (ref : Ref) (s : Spool) (spl : Spooler)
    → IsAnswer msg
    → spool_at ref spl ≡ some s
    → IsTracking spl
    → Ensures IsTracking (answer_by env code msg ref s spl)
answer_by-IsTracking env msg_found none ref s spl ok at h = none-Ensures
answer_by-IsTracking env msg_found (some m) ref s spl ok at h =
    after-Ensures (spool_respond_general env (message m) ref _)
      (respond_message-ToldAll env m ref _ _ (set_kept ref s _ spl at h refl refl) ok.0.0
        (spool_at-write_spool ref spl _ at refl))
      (λ told_them all. spool_nextmsg-IsTracking env ref m.id told_them ok.0 ok.1 all)
answer_by-IsTracking env msg_expected msg ref s spl ok at h =
    elim (Bool-cases (eqb_ℤ s.id.time nth_msgid_time)) [
      | inl nth ↦ rw nth (spool_nextmsg-latest env ref s spl nth at h)
      | inr other ↦ rw other (
          after-Ensures (spool_respond_general env (status 204) ref _)
            (respond_status-IsTracking env 204 ref _ _ (set_kept ref s _ spl at h refl refl)
              (spool_at-write_spool ref spl _ at refl))
            (λ told_them kept. assert-Ensures (is_none msg) _ (λ unset. some-Ensures _ kept)))
    ]
answer_by-IsTracking env msg_channel_notready msg ref s spl ok at h =
    some-Ensures _ (set_kept ref s _ spl at h refl refl)
answer_by-IsTracking env msg_notfound msg ref s spl ok at h = not_found spl.fetching_strategy
  where
    not_found :
        (f : Strategy)
        → Ensures IsTracking (elim f [
          | fetch_ignore_msg_notfound ↦ some spl
          | fetch ↦ answer_missing env msg_notfound ref s spl
          | passthrough ↦ answer_missing env msg_notfound ref s spl
        ])
    not_found fetch_ignore_msg_notfound = some-Ensures spl h
    not_found fetch = answer_missing-IsTracking env msg_notfound ref s spl at h
    not_found passthrough = answer_missing-IsTracking env msg_notfound ref s spl at h
answer_by-IsTracking env msg_expired msg ref s spl ok at h =
    answer_missing-IsTracking env msg_expired ref s spl at h
answer_by-IsTracking env msg_pending msg ref s spl ok at h = some-Ensures spl h
answer_by-IsTracking env msg_error msg ref s spl ok at h =
    respond_status-IsTracking env 500 ref spl s h at
answer_by-IsTracking env msg_invalid msg ref s spl ok at h = none-Ensures

answer_at-IsTracking :
    (env : Env) (code : MsgStatus) (msg : Option Message) (to : Option Ref) (spl : Spooler)
    → IsAnswer msg
    → IsTracking spl
    → Ensures IsTracking (answer_at env code msg to spl)
answer_at-IsTracking env code msg none spl ok h = some-Ensures spl h
answer_at-IsTracking env code msg (some ref) spl ok h =
    bind-Ensures (spool_at ref spl) (λ s at. answer_by-IsTracking env code msg ref s spl ok at h)

-- Whatever the store answers, all subscribers still wait at the spools of the messages that they had
-- last, if the message is of one channel and no assertion fails.
pub spool_fetch_msg_callback-IsTracking :
    (env : Env) (code : MsgStatus) (msg : Option Message) (msgid : MsgId) (spl spl' : Spooler)
    → IsAnswer msg
    → IsTracking spl
    → spool_fetch_msg_callback env code msg msgid spl ≡ some spl'
    → IsTracking spl'
unfolding spool_fetch_msg_callback
spool_fetch_msg_callback-IsTracking env code msg msgid spl spl' ok h e =
    (assert-Ensures (not (is_passthrough spl.fetching_strategy)) _ (λ fetching.
        answer_at-IsTracking env code msg _ _ ok
          (find_spool-IsTracking msgid (call get_message_finish spl) h))).gives
      spl' e

-- A message that is told leaves all subscribers at the spools of the messages that they had last, those
-- that were told at its own, if it is of one channel and no assertion fails.
pub spooler_respond_message-IsTracking :
    (env : Env) (m : Message) (spl spl' : Spooler)
    → IsPublished m
    → IsTracking spl
    → spooler_respond_message env m spl ≡ some spl'
    → IsTracking spl'
spooler_respond_message-IsTracking env m spl spl' published h e =
    (respond_message_keeps env m spl published h).gives spl' e
