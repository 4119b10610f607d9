-- ===== src/Memstore/Publish.antt =====
-- Publishing to a channel in store/memory/memstore.c.
pub mod Order
pub mod Total
pub mod LastMessage
pub mod Delivery
pub mod Reading
use nchan.Prelude.{
  Bool, List, Option, Rc, assert, false, if◌then◌else◌, ngx_error, ngx_ok, none, not, some, [],
  ◌++◌, ◌+◌, ◌==◌, ◌>>=◌, ◌>>◌, ◌||◌, ◌∷◌,
}
use nchan.Prelude.Int.{eqb_ℤ, pos, to_i16, ℤ, ◌+ℤ◌}
use nchan.Msg.Id.{MsgId, Multitag}
use nchan.Msg.Extract.{set_fixed_0}
use nchan.Msg.Update.{copy_msg_id}
use nchan.Memstore.Message.{Message, fixed_0}
use nchan.Memstore.Buffer.{Chanhead, group_add, memstore_chanhead_messages_gc}

-- `ch->msg_last`
abbrev pub last : List Message → Option Message
last [] = none
last (m ∷ []) = some m
last (m ∷ x ∷ ms) = last (x ∷ ms)

-- NCHAN_NOBUFFER_MSG_EXPIRE_SEC
abbrev pub nobuffer_msg_expire_sec : ℤ
nobuffer_msg_expire_sec = pos 10

-- The place of no earlier message.
no_prev_id : Message → MsgId
no_prev_id m = record m.prev_id {
  time = pos 0;
  tag = set_fixed_0 m.prev_id.tag (pos 0);
  tagcount = 1;
}

abbrev pub prev_id_after : Option Message → Message → MsgId
unfolding no_prev_id
prev_id_after none m = no_prev_id m
prev_id_after (some l) m = l.id

-- `if(msg->id.time == 0) msg->id.time = ngx_time()`
abbrev pub time_or_now : ℤ → ℤ → ℤ
time_or_now now t = if eqb_ℤ t (pos 0) then now else t

-- The tag that `chanhead_push_message` gives a message of second `t` after the last message.
abbrev pub tag_after : Bool → Option Message → ℤ → Multitag → Multitag
tag_after redis_distributed none t tag = if redis_distributed then tag else set_fixed_0 tag (pos 0)
tag_after redis_distributed (some l) t tag =
    if eqb_ℤ l.id.time t
    then set_fixed_0 tag (to_i16 (fixed_0 l.id.tag +ℤ pos 1))
    else if redis_distributed
    then tag
    else set_fixed_0 tag (pos 0)

-- The message as `chanhead_push_message` links it, with its id and the id before it.
pub stamped : ℤ → Bool → Option Message → Message → Message
stamped now redis_distributed prev m =
    let t = time_or_now now m.id.time in
    record m {
      prev_id = prev_id_after prev m;
      id = record m.id { time = t; tag = tag_after redis_distributed prev t m.id.tag };
    }

pub pushed : Message → Chanhead → Chanhead
pushed m ch = record ch {
  messages = ch.messages ++ m ∷ [];
  stored_message_count = ch.stored_message_count + 1;
  total_message_count = ch.total_message_count + 1;
  groupnode = group_add (pos 1) ch.groupnode;
}

-- `ch->msg_last == msg` after the collection, which deletes from the front only.
abbrev pub last_status : List Message → Rc
last_status [] = ngx_error
last_status (m ∷ ms) = ngx_ok

-- `chanhead_push_message`: the status with the message as it is stored, and the channel; `none` is a
-- failed assertion.
pub chanhead_push_message : ℤ → Chanhead → Message → Option ((Rc × Message) × Chanhead)
unfolding stamped pushed
chanhead_push_message now ch msg = do
  assert (msg.id.tagcount == 1)
  let m = stamped now ch.redis_distributed (last ch.messages) msg
  let ch' = memstore_chanhead_messages_gc now (pushed m ch)
  some ((last_status ch'.messages, m), ch')

-- `fill_message_timedata`
unfoldable pub fill_message_timedata : ℤ → ℤ → Message → Message
fill_message_timedata now timeout m =
    let t = time_or_now now m.id.time in
    record m {
      id = record m.id { time = t };
      expires = if eqb_ℤ m.expires (pos 0) then t +ℤ timeout else m.expires;
    }

-- What a publication reads of the location's configuration, and the clock.
pub record PublishConf : Type 0 where
  pub now : ℤ
  pub message_timeout : ℤ
  pub max_messages : ℤ
  pub redis_distributed : Bool

-- `forwarded`: the message is sent to the owner; the next two are the errors given to the callback;
-- `published`: the message is handed to `nchan_memstore_publish_generic`, and, when there is no buffer,
-- to `nobuffer_msg_reaper`.
pub data Outcome : Type 0 where
  forwarded : Message → Outcome
  insufficient_storage internal_server_error : Outcome
  published : Message → Outcome

-- The message of the branch without a buffer.
pub unbuffered : ℤ → MsgId → Message → Message
unfolding no_prev_id
unbuffered now latest_msgid m = record m {
  expires = now +ℤ nobuffer_msg_expire_sec;
  prev_id = no_prev_id m;
  id =
      if eqb_ℤ latest_msgid.time m.id.time
      then record m.id { tag = set_fixed_0 m.id.tag (to_i16 (fixed_0 latest_msgid.tag +ℤ pos 1)) }
      else m.id;
}

-- `nchan_copy_msg_id(&chead->latest_msgid, &publish_msg->id, NULL)`. An id of one tag needs no memory.
pub set_latest : Message → Chanhead → Chanhead
set_latest m ch = record ch { latest_msgid = (copy_msg_id ch.latest_msgid m.id false false).1 }

-- The assertion before the message is handed on: its id is not the id before it.
abbrev pub differs_from_prev : Message → Bool
differs_from_prev m =
    not (eqb_ℤ m.id.time m.prev_id.time) || not (eqb_ℤ (fixed_0 m.id.tag) (fixed_0 m.prev_id.tag))

-- What follows the two branches.
pub hand_on : Message → Chanhead → Option (Outcome × Chanhead)
unfolding set_latest
hand_on m ch = do assert (differs_from_prev m); some (published m, set_latest m ch)

hand_on_pushed : (Rc × Message) × Chanhead → Option (Outcome × Chanhead)
unfolding hand_on
hand_on_pushed ((ngx_ok, m), ch) = hand_on m ch
hand_on_pushed ((rc, m), ch) = some (internal_server_error, ch)

-- The owner's part of `nchan_store_chanhead_publish_message_generic`, after the collection. `memory`
-- is whether `create_shared_message` succeeds.
pub publish_owned : PublishConf → Bool → Chanhead → Message → Option (Outcome × Chanhead)
unfolding chanhead_push_message unbuffered hand_on_pushed hand_on
publish_owned conf memory ch msg =
    if not memory
    then some (internal_server_error, ch)
    else if eqb_ℤ ch.max_messages (pos 0)
    then hand_on (unbuffered conf.now ch.latest_msgid msg) ch
    else chanhead_push_message conf.now ch msg >>= hand_on_pushed

-- `nchan_store_chanhead_publish_message_generic`
pub chanhead_publish_message_generic :
    PublishConf → Bool → Chanhead → Message → Option (Outcome × Chanhead)
unfolding publish_owned fill_message_timedata
chanhead_publish_message_generic conf memory ch msg = do
  assert (msg.id.tagcount == 1)
  assert (not conf.redis_distributed)
  if not (ch.slot == ch.owner)
      then some ((if memory then forwarded msg else insufficient_storage), ch)
      else (do
        assert ch.shared
        publish_owned conf memory
            (memstore_chanhead_messages_gc conf.now
              (record ch { max_messages = conf.max_messages }))
            (fill_message_timedata conf.now conf.message_timeout msg))
