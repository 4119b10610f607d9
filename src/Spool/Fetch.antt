-- ===== src/Spool/Fetch.antt =====
-- Moving subscribers between spools and asking the store for their next messages, store/spool.c. The
-- store answers a request later: what follows a request in the calling function is done before.
pub mod Transfer
pub mod Next
pub mod Nextmsg
pub mod Steps
pub mod NextSteps
use nchan.Prelude.{
  Bool, List, Option, assert, false, if◌then◌else◌, length, ltb, none, not, some, suc, true, ℕ, [],
  ◌&&◌, ◌==◌, ◌>>=◌, ◌>>◌, ◌||◌, ◌∷◌,
}
use nchan.Prelude.Int.{eqb_ℤ, pos}
use nchan.Msg.Id.{MsgId, newest_msgid_time}
use nchan.Msg.Compare.{msg_ids_equal, spool_rbtree_compare}
use nchan.Msg.Update.{update_multi_msgid}
use nchan.Memstore.Message.{Message}
use nchan.Memstore.Buffer.{
  MsgStatus, msg_channel_notready, msg_error, msg_expected, msg_expired, msg_found, msg_invalid,
  msg_notfound, msg_pending,
}
use nchan.Spool.{
  Call, Env, Ref, Spool, Spooler, Subscriber, call, current, dequeued, find_node, find_spool,
  get_message, get_message_start, get_spool, in_tree, is_passthrough, latest_msg_id, remove_node,
  spool_add_subscriber, spool_at, spool_respond_general, status, used, write_spool,
}

abbrev pub dequeue_all : List Subscriber → List Call → List Call
dequeue_all [] calls = calls
dequeue_all (u ∷ us) calls = dequeue_all us (dequeued u ∷ calls)

-- `remove_spool` and `destroy_spool`, which dequeue the subscribers that are left. Each takes one off the
-- count, which is then asserted to be 0.
unfoldable pub destroy_spool : MsgId → Spooler → Option Spooler
unfolding remove_node
destroy_spool id spl = do
  s ← find_node id spl.tree
  assert (s.reserved == 0)
  assert (s.sub_count == length s.subs)
  some (record spl { tree = remove_node id spl.tree; calls = dequeue_all s.subs spl.calls })

-- The loop of `spool_transfer_subscribers`: each subscriber is put in front of the new spool's.
unfoldable pub transfer_loop : Bool → List Subscriber → Spool → Spool
unfolding spool_add_subscriber
transfer_loop update [] new = new
transfer_loop update (u ∷ us) new =
    transfer_loop update us
      (spool_add_subscriber (if update then record u { last_msgid = new.id } else u) new)

abbrev pub emptied : Spool → Spool
emptied s = record s { subs = []; sub_count = 0; non_internal_sub_count = 0 }

-- `spool_transfer_subscribers`, between two spools whose counts are those of their subscribers.
unfoldable pub spool_transfer_subscribers : Bool → Ref → Ref → Spooler → Option Spooler
unfolding transfer_loop
spool_transfer_subscribers update ref newref spl = do
  s ← spool_at ref spl
  let taken = write_spool ref (emptied s) spl
  new ← spool_at newref taken
  some (write_spool newref (transfer_loop update s.subs new) taken)

-- NCHAN_SPOOL_FETCHMSG_MAX_TIMES
abbrev pub fetchmsg_max_times : ℕ
fetchmsg_max_times = 20

abbrev pub is_none : Option Message → Bool
is_none none = true
is_none (some m) = false

abbrev pub is_invalid : MsgStatus → Bool
is_invalid msg_invalid = true
is_invalid msg_error = false
is_invalid msg_channel_notready = false
is_invalid msg_pending = false
is_invalid msg_notfound = false
is_invalid msg_found = false
is_invalid msg_expected = false
is_invalid msg_expired = false

-- `spool_fetch_msg`. Where the spools pass messages through, the callback's assertion fails.
unfoldable pub spool_fetch_msg : Ref → Spooler → Option Spooler
spool_fetch_msg ref spl = do
  s ← spool_at ref spl
  let same = s.fetchmsg_prev_msec == spl.now
  let again = ltb fetchmsg_max_times s.fetchmsg_current_count
  let count = record s {
    fetchmsg_current_count = if same then suc s.fetchmsg_current_count else 0;
    fetchmsg_prev_msec = spl.now;
  }
  if same && again
      then some
          (write_spool ref (record s { fetchmsg_timer = true; fetchmsg_current_count = 0 }) spl)
      else if not spl.channel_ready || not spl.channel_buffer_complete
      then some (write_spool ref (record count { msg_status = msg_channel_notready }) spl)
      else (do
        assert (is_none s.msg)
        assert (is_invalid s.msg_status)
        assert (not (is_passthrough spl.fetching_strategy))
        some (
            call (get_message s.id) (
              call get_message_start
                (write_spool ref (record count { msg_status = msg_pending }) spl))))

-- The new spool's subscribers are told to wait, or their message is asked for.
abbrev pub wake_by : Env → MsgStatus → Ref → Spool → Spooler → Option Spooler
wake_by env msg_channel_notready ref s spl =
    spool_fetch_msg ref (write_spool ref (record s { msg_status = msg_invalid }) spl)
wake_by env msg_invalid ref s spl = spool_fetch_msg ref spl
wake_by env msg_expected ref s spl = spool_respond_general env (status 204) ref spl
wake_by env msg_error ref s spl = some spl
wake_by env msg_pending ref s spl = some spl
wake_by env msg_notfound ref s spl = some spl
wake_by env msg_found ref s spl = some spl
wake_by env msg_expired ref s spl = some spl

-- The end of `spool_nextmsg`.
unfoldable pub wake : Env → Ref → Spooler → Option Spooler
unfolding spool_fetch_msg
wake env ref spl = do
  s ← spool_at ref spl
  let spl' = if ltb 0 s.non_internal_sub_count then call used spl else spl
  if ltb 0 s.sub_count then wake_by env s.msg_status ref s spl' else some spl'

abbrev pub same_ref : Ref → Ref → Bool
same_ref current current = true
same_ref current (in_tree id) = false
same_ref (in_tree id) current = false
same_ref (in_tree id) (in_tree id') = eqb_ℤ (spool_rbtree_compare id id') (pos 0)

abbrev pub id_of_ref : Ref → MsgId
id_of_ref current = latest_msg_id
id_of_ref (in_tree id) = id

-- The subscribers go to the next spool, or the spool becomes the next one.
abbrev pub to_next : Env → Bool → Ref → Spool → MsgId → Option Ref → Spooler → Option Spooler
to_next env immortal ref s new_id (some newref) spl = do
  assert (not (same_ref ref newref))
  moved ← spool_transfer_subscribers false ref newref spl
  left ← if not immortal && s.reserved == 0 then destroy_spool (id_of_ref ref) moved else some moved
  wake env newref left
to_next env immortal ref s new_id none spl = do
  assert (not immortal)
  let renamed = record s { id = new_id; msg_status = msg_invalid; msg = none }
  wake env (in_tree new_id) (record spl { tree = renamed ∷ remove_node (id_of_ref ref) spl.tree })

-- `spool_nextmsg`
unfoldable pub spool_nextmsg : Env → Ref → MsgId → Spooler → Option Spooler
unfolding spool_transfer_subscribers destroy_spool wake remove_node
spool_nextmsg env ref new_last_id spl = do
  s ← spool_at ref spl
  let immortal = eqb_ℤ s.id.time newest_msgid_time
  let last_id = if is_passthrough spl.fetching_strategy then latest_msg_id else new_last_id
  if is_passthrough spl.fetching_strategy && immortal then some spl else (do
    new_id ← update_multi_msgid env.overlap env.memory s.id last_id
    assert (not (msg_ids_equal s.id new_id))
    let found = if immortal then get_spool env new_id spl else find_spool new_id spl
    to_next env immortal ref s new_id found.0 found.1)
