-- ===== src/Memstore/Groups/Limits.antt =====
-- The checks of a group's limits before a message is published or a subscriber is added,
-- store/memory/memstore.c. What a check calls is a list of calls, in their order.
pub mod Respected
pub mod Admitted
mod Tests
use nchan.Prelude.{
  Bool, List, Option, if◌then◌else◌, none, not, some, ℕ, [], ◌&&◌, ◌*◌, ◌++◌, ◌||◌, ◌∷◌,
}
use nchan.Prelude.Int.{eqb_ℤ, leb_ℤ, ltb_ℤ, pos, ℤ, ◌+ℤ◌}
use nchan.Memstore.Groups.{Group}

-- `nchan_group_limits_t`: 0 is no limit.
pub record Limits : Type 0 where
  pub channels : ℤ
  pub subscribers : ℤ
  pub messages : ℤ
  pub messages_shmem_bytes : ℤ
  pub messages_file_bytes : ℤ

-- The `err` of a refusal.
pub data Reason : Type 0 where
  messages_reached shmem_bytes_reached file_bytes_reached channels_reached : Reason

pub data PublishCall : Type 0 where
  publish_message : PublishCall
  cb_forbidden : Reason → PublishCall
  cb_internal_server_error cb_insufficient_storage : PublishCall

-- What is published: `count_channel_id` of the id, `memstore_msg_memsize` and `ngx_buf_size`.
pub record Publication : Type 0 where
  pub n : ℕ
  pub msg_sz : ℕ
  pub buf_size : ℕ

-- What the stores answer: whether this worker has the channel's head, whether `nchan_store_find_channel` finds the
-- channel, and whether the publishing is declined.
pub record Stores : Type 0 where
  pub chanhead : Bool
  pub found : Bool
  pub declined : Bool

-- `group_publish_accounting_channelcheck`
pub group_publish_accounting_channelcheck : Bool → List PublishCall
group_publish_accounting_channelcheck chaninfo =
    if chaninfo then publish_message ∷ [] else cb_forbidden channels_reached ∷ []

-- The three tests of the group's messages, each made while those before it are passed.
pub refused_message : Limits → Group → Publication → Option Reason
refused_message limit g p =
    if not (eqb_ℤ limit.messages (pos 0) || ltb_ℤ g.messages limit.messages)
    then some messages_reached
    else if not (eqb_ℤ limit.messages_shmem_bytes (pos 0))
        && not (leb_ℤ (g.messages_shmem_bytes +ℤ pos (p.n * p.msg_sz)) limit.messages_shmem_bytes)
    then some shmem_bytes_reached
    else if not (eqb_ℤ limit.messages_file_bytes (pos 0))
        && not (leb_ℤ (g.messages_file_bytes +ℤ pos p.buf_size) limit.messages_file_bytes)
    then some file_bytes_reached
    else none

publish_now : Stores → List PublishCall
publish_now stores =
    if stores.declined then publish_message ∷ cb_insufficient_storage ∷ [] else publish_message ∷ []

-- The test of the group's channels, after those of its messages.
pub check_channels : Limits → Group → Stores → List PublishCall
unfolding group_publish_accounting_channelcheck publish_now
check_channels limit g stores =
    if not (eqb_ℤ limit.channels (pos 0))
    then if eqb_ℤ (g.channels +ℤ pos 1) limit.channels
      then if not stores.chanhead
        then group_publish_accounting_channelcheck stores.found
        else publish_now stores
      else if leb_ℤ limit.channels g.channels
      then cb_forbidden channels_reached ∷ []
      else publish_now stores
    else publish_now stores

-- `if(ok)`, with `err` where it is not.
abbrev pub answer_of : Option Reason → List PublishCall → List PublishCall
answer_of none calls = calls
answer_of (some err) calls = cb_forbidden err ∷ []

-- `group_publish_accounting_check`, of a group or none.
pub group_publish_accounting_check : Limits → Option Group → Publication → Stores → List PublishCall
unfolding refused_message check_channels
group_publish_accounting_check limit none p stores = cb_internal_server_error ∷ []
group_publish_accounting_check limit (some g) p stores =
    answer_of (refused_message limit g p) (check_channels limit g stores)

-- SUB_CHANNEL_AUTHORIZED and SUB_CHANNEL_UNAUTHORIZED, with which the subscribing goes on, and what is called else.
pub data SubscribeCall : Type 0 where
  continue_authorized continue_unauthorized : SubscribeCall
  spooler_add : SubscribeCall
  respond_forbidden : SubscribeCall
  release_subscriber release_chanhead free_data : SubscribeCall

-- `if(d->reserved) d->sub->fn->release(d->sub, 0)`
release_if : Bool → List SubscribeCall
release_if reserved = if reserved then release_subscriber ∷ [] else []

-- `group_subscribe_channel_limit_reached`: whether the subscriber is alive and was reserved, and whether the channel
-- was found.
pub group_subscribe_channel_limit_reached : Bool → Bool → Bool → List SubscribeCall
unfolding release_if
group_subscribe_channel_limit_reached alive reserved chaninfo =
    if alive
    then if chaninfo
      then continue_authorized ∷ []
      else respond_forbidden ∷ release_if reserved ++ free_data ∷ []
    else release_if reserved ++ free_data ∷ []

-- `group_subscribe_channel_limit_check`
pub group_subscribe_channel_limit_check :
    Limits → Option Group → Bool → Bool → Bool → List SubscribeCall
unfolding release_if group_subscribe_channel_limit_reached
group_subscribe_channel_limit_check limit none alive reserved found =
    if alive
    then respond_forbidden ∷ release_if reserved ++ free_data ∷ []
    else release_if reserved ++ free_data ∷ []
group_subscribe_channel_limit_check limit (some g) alive reserved found =
    if alive
    then if eqb_ℤ limit.channels (pos 0) || ltb_ℤ g.channels limit.channels
      then continue_authorized ∷ []
      else if not (eqb_ℤ limit.channels (pos 0)) && eqb_ℤ g.channels limit.channels
      then group_subscribe_channel_limit_reached alive reserved found
      else continue_unauthorized ∷ []
    else release_if reserved ++ free_data ∷ []

-- `group_subscribe_accounting_check`; `ready` is whether `ensure_chanhead_ready_or_trash_chanhead` returned the head.
pub group_subscribe_accounting_check :
    Limits → Option Group → Bool → Bool → Bool → List SubscribeCall
unfolding release_if
group_subscribe_accounting_check limit none ready alive reserved =
    (if ready && alive then respond_forbidden ∷ [] else [])
    ++ release_if reserved
    ++ release_chanhead ∷ free_data ∷ []
group_subscribe_accounting_check limit (some g) ready alive reserved =
    (if ready && alive
      then if eqb_ℤ limit.subscribers (pos 0) || ltb_ℤ g.subscribers limit.subscribers
        then spooler_add ∷ []
        else respond_forbidden ∷ []
      else [])
    ++ release_if reserved
    ++ release_chanhead ∷ free_data ∷ []
