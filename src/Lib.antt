-- ===== src/Lib.antt =====
-- Nchan, a publish/subscribe server that runs inside nginx.
--
-- A publisher's message gets an id, a second and a tag that counts within the second, and is put
-- into the message buffer of its channel by the one worker process that owns the channel. A
-- subscriber holds the id of the last message it had and asks for the next one; a subscriber that
-- is multiplexed over several channels holds an id with a tag for each. Workers send each other
-- alerts over pipes, count what belongs to a group of channels in shared memory, and give messages
-- that are no longer wanted to reapers, which free them later. The subscribers of a channel wait in
-- spools, one for each id; a message is told to the spools before it, whose subscribers then move
-- on to its own.
--
-- Which file models what. Names follow the code; a step that the code writes as a part of a
-- function is a definition of its own beside it.
--
-- Msg/Id: `nchan_msg_id_t` (src/nchan_types.h). Msg/Compare: `nchan_compare_msgids`
-- (src/util/nchan_msg.c), `spool_rbtree_compare` and `msg_ids_equal` (src/store/spool.c).
-- Msg/Update: `nchan_copy_msg_id`, `nchan_update_multi_msgid`, `verify_msg_id` and
-- `update_subscriber_last_msg_id`. Msg/Extract: `nchan_extract_from_multi_msgid`,
-- `nchan_expand_msg_id_multi_tag` and `nchan_msgid_tagcount_match` (src/util/nchan_msg.c). Msg/Tag:
-- `msgtag_to_strptr` and `msgid_to_str` (src/util/nchan_output.c), and `nchan_parse_msg_tag`.
-- Msg/Tag/Compound: `nchan_parse_compound_msgid`, `set_default_id` and
-- `nchan_subscriber_get_msg_id` (src/util/nchan_msg.c).
--
-- Memstore/Message: reference counts (src/util/nchan_msg.c) and
-- `nchan_memstore_store_msg_ready_to_reap_generic`. Memstore/Buffer: `chanhead_messages_gc_custom`
-- and `chanhead_find_next_message`. Memstore/Publish:
-- `nchan_store_chanhead_publish_message_generic`, with `chanhead_push_message`
-- (src/store/memory/memstore.c). Memstore/Ipc: the write buffers, `ipc_write_handler`, `ipc_alert`,
-- `ipc_broadcast_alert` and `ipc_read_handler` (src/store/memory/ipc.c). Memstore/Groups: the
-- accounting of src/store/memory/groups.c. Memstore/Groups/Limits:
-- `group_publish_accounting_check`, `group_subscribe_channel_limit_check` and
-- `group_subscribe_accounting_check` with their callbacks (src/store/memory/memstore.c).
--
-- Spool: the spools of src/store/spool.c, with `find_spool`, `get_spool`, `spool_add_subscriber`
-- and `spool_respond_general`. Spool/Fetch: `destroy_spool`, `spool_transfer_subscribers`,
-- `spool_fetch_msg` and `spool_nextmsg`. Spool/Answer: `spool_fetch_msg_callback`,
-- `spooler_respond_message` and `spooler_add_subscriber`. Spool/Control: `start_spooler`,
-- `spooler_respond_status`, `spooler_respond_generic`, `spooler_channel_status_changed`,
-- `spooler_catch_up`, `fetchmsg_ev_handler` and `spool_sub_dequeue_callback`.
--
-- Util/Links: the link fields of doubly linked lists. Util/Slist: src/util/nchan_slist.c.
-- Util/LinkedList: src/util/nchan_list.c. Util/Reaper: src/util/nchan_reaper.c. Util/TimeQueue:
-- src/util/nchan_timequeue.c. Util/RwLock: src/store/ngx_rwlock.c, of which each access to the
-- shared memory is a step of one process. Util/ChannelId: src/util/nchan_channel_id.c,
-- `nchan_strsplit` (src/util/nchan_util.c), and `parse_multi_id` and `count_channel_id`
-- (src/store/memory/memstore.c).
--
-- Prelude: Boolean tests, lists measured by native numbers, signed integers, C's assert. `none` as
-- the result of an operation is a fault: a failed assertion, or a read outside an array or through
-- a null pointer.
--
-- State is passed explicitly. The links of list elements are functions from addresses to addresses,
-- so that aliasing is that of the code. The buffer of a channel and the overflow of a pipe, whose
-- links only their own functions write, are sequences, as are the pages of a time queue and the
-- tree of spools. Whether memory is granted, how much a pipe takes before it would block, what
-- `ready` answers, which subscribers leave when they are told something, the order in which
-- processes take steps, and the clock are arguments.
--
-- Bounds. `int16_t` tags are converted where the code assigns them; the tag of a pushed message is
-- below 32767 where its order is stated. The index of a ring is a `uint16_t` and wraps at 65536.
-- Counts of list elements are kept without the wrap at 2^64, which a list in memory does not reach,
-- but a count that is lowered from 0 wraps. Times are integers.
--
-- Fuel. `write_handler` calls itself at most once for each alert of the overflow. A pass of the
-- reaper and a traversal take one round more than the list has elements. `split_id` takes one round
-- more than the id has bytes. `digits` takes one round more than the number that it prints.
-- `follow`, a subscriber that asks again and again, asks once more than the buffer has messages.
--
-- Not modelled: nginx's event loop, requests, pools and shared memory allocator; the Redis store
-- with its libraries; output, statistics and configuration; the subscribers; and of the memory
-- store the life of channel heads, the handlers of the alerts, errors of write() at a pipe other
-- than that it would block, and how a spooler stops. The store answers the request of a spool
-- later, as a step of its own, also where the code calls the spooler back within the request.
pub mod Prelude
pub mod Msg
pub mod Memstore
pub mod Spool
pub mod Util
