-- ===== src/Memstore/Groups.antt =====
-- The accounting of channel groups, store/memory/groups.c: counts in shared memory, which a worker
-- updates at once when it has the group, and else when it receives it.
pub mod Deferred
pub mod Limits
use nchan.Prelude.{Bool, List, if◌then◌else◌, ltb, suc, true, ℕ, [], ◌*◌, ◌++◌, ◌∷◌}
use nchan.Prelude.Int.{negsuc, pos, ℤ, ◌+ℤ◌, ◌-ℤ◌}

-- The counts of `nchan_group_t`. The atomics wrap around as signed numbers do.
pub record Group : Type 0 where
  pub channels : ℤ
  pub multiplexed_channels : ℤ
  pub messages : ℤ
  pub messages_shmem_bytes : ℤ
  pub messages_file_bytes : ℤ
  pub subscribers : ℤ

-- What is to be counted: the callback with its data.
pub data Update : Type 0 where
  add_channel : ℤ → Bool → Bool → Update
  add_message : ℤ → ℕ → ℕ → Update
  add_subscribers : ℤ → Update

-- `n * size`
abbrev pub times : ℤ → ℕ → ℤ
times (pos n) size = pos (n * size)
times (negsuc n) size = pos 0 -ℤ pos (suc n * size)

-- `group_add_channel_internal`
group_add_channel_internal : Bool → Bool → ℤ → Group → Group
group_add_channel_internal multi self_owned n g =
    if multi
    then record g { multiplexed_channels = g.multiplexed_channels +ℤ n }
    else if self_owned
    then record g { channels = g.channels +ℤ n }
    else g

-- `group_add_message_internal`
group_add_message_internal : ℕ → ℕ → ℤ → Group → Group
group_add_message_internal mem_sz file_sz n g = record g {
  messages = g.messages +ℤ n;
  messages_shmem_bytes = g.messages_shmem_bytes +ℤ times n mem_sz;
  messages_file_bytes =
      if ltb 0 file_sz then g.messages_file_bytes +ℤ times n file_sz else g.messages_file_bytes;
}

-- `group_add_subscribers_internal`
group_add_subscribers_internal : ℤ → Group → Group
group_add_subscribers_internal n g = record g { subscribers = g.subscribers +ℤ n }

-- The function that the callback calls.
pub apply : Update → Group → Group
unfolding group_add_channel_internal group_add_message_internal group_add_subscribers_internal
apply (add_channel n multi self_owned) g = group_add_channel_internal multi self_owned n g
apply (add_message n mem_sz file_sz) g = group_add_message_internal mem_sz file_sz n g
apply (add_subscribers n) g = group_add_subscribers_internal n g

-- `group_tree_node_t` of a worker beside the group in shared memory: `has_group` is whether the
-- node's `group` is set, and `when_ready` the list from `when_ready_head` to `when_ready_tail`.
pub record GroupNode : Type 0 where
  pub has_group : Bool
  pub when_ready : List Update
  pub shm_group : Group

-- `add_whenready_callback`. Without memory the callback is called at once with no group, and then
-- counts nothing.
add_whenready_callback : Bool → Update → GroupNode → GroupNode
add_whenready_callback memory u gtn =
    if memory then record gtn { when_ready = gtn.when_ready ++ u ∷ [] } else gtn

-- `memstore_group_add_channel_generic`, `memstore_group_add_message_generic` and
-- `memstore_group_add_subscribers`. `memory` is whether both the data and the link of the callback
-- were allocated.
pub group_update : Bool → Update → GroupNode → GroupNode
unfolding add_whenready_callback
group_update memory u gtn =
    if gtn.has_group
    then record gtn { shm_group = apply u gtn.shm_group }
    else add_whenready_callback memory u gtn

-- The loop of `call_whenready_callbacks`, with a group.
pub call_callbacks : List Update → Group → Group
call_callbacks [] g = g
call_callbacks (u ∷ us) g = call_callbacks us (apply u g)

-- `memstore_group_receive` for a node that the worker has
pub group_receive : GroupNode → GroupNode
unfolding call_callbacks
group_receive gtn = record {
  has_group = true;
  when_ready = [];
  shm_group = call_callbacks gtn.when_ready gtn.shm_group;
}

-- `memstore_group_add_channel` and `memstore_group_remove_channel`, of a channel that is multiplexed or not, and
-- owned by this worker or not
group_add_channel : Bool → Bool → Update
group_add_channel multi self_owned = add_channel (pos 1) multi self_owned

group_remove_channel : Bool → Bool → Update
group_remove_channel multi self_owned = add_channel (negsuc 0) multi self_owned

-- `memstore_group_add_message` and `memstore_group_remove_message`
group_add_message : ℕ → ℕ → Update
group_add_message mem_sz file_sz = add_message (pos 1) mem_sz file_sz

group_remove_message : ℕ → ℕ → Update
group_remove_message mem_sz file_sz = add_message (negsuc 0) mem_sz file_sz
