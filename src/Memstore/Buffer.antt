-- ===== src/Memstore/Buffer.antt =====
-- The message buffer of a channel in store/memory/memstore.c.
pub mod Collected
pub mod Gc
pub mod Find
use mathlib.Core.List.{reverse}
use nchan.Prelude.{
  Bool, List, Option, assert, if◌then◌else◌, ltb, none, not, some, ℕ, [], ◌&&◌, ◌++◌, ◌-◌, ◌==◌,
  ◌>>=◌, ◌>>◌, ◌||◌, ◌∷◌,
}
use nchan.Prelude.Int.{eqb_ℤ, leb_ℤ, ltb_ℤ, neg_part, negsuc, pos, pos_part, ℤ, ◌+ℤ◌}
use nchan.Msg.Id.{MsgId, newest_msgid_time, nth_msgid_time, oldest_msgid_time}
use nchan.Memstore.Message.{Message, fixed_0}

-- `memstore_channel_head_t`, as far as the buffer goes. `messages` is the doubly linked list from
-- `msg_first` to `msg_last`; `released` holds what was given to `msg_reaper`, in order; `groupnode`
-- is the message count of the channel's group, if it has one; `shared` is whether it has shared data, which the
-- owner allocates with the channel.
pub record Chanhead : Type 0 where
  pub owner : ℕ
  pub slot : ℕ
  pub messages : List Message
  pub max_messages : ℤ
  pub stored_message_count : ℕ
  pub total_message_count : ℕ
  pub latest_msgid : MsgId
  pub groupnode : Option ℤ
  pub released : List Message
  pub redis_distributed : Bool
  pub msg_buffer_complete : Bool
  pub shared : Bool

abbrev pub group_add : ℤ → Option ℤ → Option ℤ
group_add n none = none
group_add n (some count) = some (count +ℤ n)

-- `chanhead_delete_message` on `msg_first`; the code asserts that no other message is deleted.
pub chanhead_delete_first : Message → List Message → Chanhead → Chanhead
chanhead_delete_first m next ch = record ch {
  messages = next;
  stored_message_count = ch.stored_message_count - 1;
  groupnode = group_add (negsuc 0) ch.groupnode;
  released = ch.released ++ m ∷ [];
}

-- The first loop of `chanhead_messages_gc_custom`; it leaves `cur` and the channel.
pub gc_excess : List Message → ℤ → Chanhead → List Message × Chanhead
unfolding chanhead_delete_first
gc_excess [] max_messages ch = ([], ch)
gc_excess (cur ∷ next) max_messages ch =
    let rest = gc_excess next max_messages (chanhead_delete_first cur next ch) in
    if leb_ℤ (pos 0) max_messages && ltb_ℤ max_messages (pos ch.stored_message_count)
    then rest
    else (cur ∷ next, ch)

-- The second loop.
gc_expired : List Message → ℤ → Chanhead → Chanhead
unfolding chanhead_delete_first
gc_expired [] now ch = ch
gc_expired (cur ∷ next) now ch =
    let rest = gc_expired next now (chanhead_delete_first cur next ch) in
    if ltb_ℤ cur.expires now then rest else ch

-- `chanhead_messages_gc_custom`
pub chanhead_messages_gc_custom : ℤ → ℤ → Chanhead → Chanhead
unfolding gc_excess gc_expired
chanhead_messages_gc_custom max_messages now ch =
    if not (ch.owner == ch.slot)
    then ch
    else let (cur, ch') = gc_excess ch.messages max_messages ch in gc_expired cur now ch'

-- `memstore_chanhead_messages_gc`
pub memstore_chanhead_messages_gc : ℤ → Chanhead → Chanhead
memstore_chanhead_messages_gc now ch = chanhead_messages_gc_custom ch.max_messages now ch

pub data MsgStatus : Type 0 where
  msg_error msg_channel_notready msg_invalid msg_pending : MsgStatus
  msg_notfound msg_found msg_expected msg_expired : MsgStatus

-- `mid_time > cur->msg->id.time || (mid_time == … && mid_tag >= …)`
abbrev pub at_or_after : ℤ → ℤ → Message → Bool
at_or_after mid_time mid_tag m =
    ltb_ℤ m.id.time mid_time || (eqb_ℤ mid_time m.id.time && leb_ℤ (fixed_0 m.id.tag) mid_tag)

-- The walk of `chanhead_find_next_message` from `msg_last` back; `next` is `cur->next`.
find_back : ℤ → ℤ → List Message → Option Message → MsgStatus × Option Message
find_back mid_time mid_tag [] next = (msg_notfound, none)
find_back mid_time mid_tag (cur ∷ prev) next =
    let rest = find_back mid_time mid_tag prev (some cur) in
    if at_or_after mid_time mid_tag cur
    then elim next [ none ↦ (msg_expected, none) | some m ↦ (msg_found, some m) ]
    else rest

-- The loop for the n-th message, from either end.
find_nth : List Message → Option Message → ℕ → Option Message
find_nth [] prev n = prev
find_nth (cur ∷ next) prev n =
    let rest = find_nth next (some cur) (n - 1) in if ltb 1 n then rest else some cur

abbrev pub found_or_expected : Option Message → MsgStatus × Option Message
found_or_expected none = (msg_expected, none)
found_or_expected (some m) = (msg_found, some m)

abbrev pub first_before : ℤ → ℤ → Message → Bool
first_before mid_time mid_tag m =
    ltb_ℤ mid_time m.id.time || (eqb_ℤ mid_time m.id.time && ltb_ℤ mid_tag (fixed_0 m.id.tag))

-- What `chanhead_find_next_message` does after the collection, on the buffer that is left; `none` is
-- a failed assertion.
pub find_in_buffer : ℤ → List Message → MsgId → Option (MsgStatus × Option Message)
unfolding find_back find_nth
find_in_buffer max_messages [] msgid =
    if eqb_ℤ msgid.time oldest_msgid_time || eqb_ℤ max_messages (pos 0)
    then some (msg_expected, none)
    else some (msg_notfound, none)
find_in_buffer max_messages (first ∷ more) msgid =
    let mid_tag = fixed_0 msgid.tag in
    if eqb_ℤ msgid.time newest_msgid_time
    then some (msg_expected, none)
    else if eqb_ℤ msgid.time nth_msgid_time
    then (do
      assert (not (eqb_ℤ mid_tag (pos 0)))
      some (
          found_or_expected (
            if ltb_ℤ (pos 0) mid_tag
            then find_nth (first ∷ more) none (pos_part mid_tag)
            else find_nth (reverse (first ∷ more)) none (neg_part mid_tag))))
    else (do
      assert (msgid.tagcount == 1 && first.id.tagcount == 1)
      if first_before msgid.time mid_tag first
          then some (msg_found, some first)
          else some (find_back msgid.time mid_tag (reverse (first ∷ more)) none))

-- `chanhead_find_next_message` on the owner's channel: the status with the message, and the channel
-- after the collection.
unfoldable pub chanhead_find_next_message :
    ℤ → Chanhead → MsgId → Option ((MsgStatus × Option Message) × Chanhead)
unfolding find_in_buffer
chanhead_find_next_message now ch msgid = do
  assert ch.msg_buffer_complete
  assert (ch.owner == ch.slot)
  found ← find_in_buffer ch.max_messages (memstore_chanhead_messages_gc now ch).messages msgid
  some (found, memstore_chanhead_messages_gc now ch)
