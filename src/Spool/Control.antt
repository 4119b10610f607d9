-- ===== src/Spool/Control.antt =====
-- Starting a spooler, statuses and notices for all of its spools, and a channel that becomes ready,
-- store/spool.c.
pub mod Tracking
pub mod Reached
use nchan.Prelude.{
  Bool, List, Option, false, get_elem?, if◌then◌else◌, none, not, some, suc, true, zero, ℕ, [], ◌%◌,
  ◌&&◌, ◌+◌, ◌==◌, ◌>>=◌, ◌∷◌,
}
use nchan.Prelude.Int.{eqb_ℤ, pos}
use nchan.Msg.Id.{MsgId, fixed, newest_msgid_time}
use nchan.Memstore.Buffer.{
  MsgStatus, msg_channel_notready, msg_error, msg_expected, msg_expired, msg_found, msg_invalid,
  msg_notfound, msg_pending,
}
use nchan.Spool.{
  Env, Ref, Response, Spool, Spooler, Strategy, Subscriber, call, count_removed, current, dequeued,
  find_spool, in_tree, init_spool, latest_msg_id, notice, spool_at, spool_respond_general, status,
  write_spool,
}
use nchan.Spool.Fetch.{is_invalid, spool_fetch_msg}
use nchan.Spool.Answer.{destroy_ref, set_status}

-- `start_spooler` of a spooler that is not running, with the clock and what is known of the channel.
abbrev pub start_spooler : Strategy → Bool → Bool → ℕ → Spooler
start_spooler strategy ready complete now = record {
  tree = [];
  current_msg_spool = record (init_spool latest_msg_id) { msg_status = msg_expected };
  prev_msg_id = record {
    time = pos 0;
    tag = fixed (pos 0 ∷ pos 0 ∷ pos 0 ∷ pos 0 ∷ []);
    tagactive = pos 0;
    tagcount = 0;
  };
  channel_ready = ready;
  channel_buffer_complete = complete;
  fetching_strategy = strategy;
  want_to_stop = false;
  now = now;
  calls = [];
}

abbrev pub ids_of : List Spool → List MsgId
ids_of [] = []
ids_of (s ∷ ss) = s.id ∷ ids_of ss

abbrev pub respond_status_at : Env → ℕ → Option Ref → Spooler → Option Spooler
respond_status_at env code none spl = some spl
respond_status_at env code (some ref) spl = do
  s ← spool_at ref spl
  told_them ←
      spool_respond_general env (status code) ref
        (if code == 204 then set_status msg_expected ref s spl else spl)
  destroy_ref ref told_them

-- `spooler_respond_status`
pub spooler_respond_status : Env → MsgId → ℕ → Spooler → Option Spooler
spooler_respond_status env id code spl =
    let found = find_spool id spl in respond_status_at env code found.0 found.1

-- The walk of `spooler_respond_generic` through the tree.
pub respond_nodes : Env → Response → List MsgId → Spooler → Option Spooler
respond_nodes env r [] spl = some spl
respond_nodes env r (id ∷ ids) spl =
    spool_respond_general env r (in_tree id) spl >>= respond_nodes env r ids

-- `spooler_respond_generic`
pub spooler_respond_generic : Env → Response → Spooler → Option Spooler
unfolding respond_nodes
spooler_respond_generic env r spl =
    respond_nodes env r (ids_of spl.tree) spl >>= spool_respond_general env r current

abbrev pub spooler_broadcast_status : Env → ℕ → Spooler → Option Spooler
spooler_broadcast_status env code = spooler_respond_generic env (status code)

abbrev pub spooler_broadcast_notice : Env → ℕ → Spooler → Option Spooler
spooler_broadcast_notice env code = spooler_respond_generic env (notice code)

-- A count of type `uint8_t`.
abbrev pub spool_reserve : Spool → Spool
spool_reserve s = record s { reserved = (s.reserved + 1) % 256 }

-- `spool_release`
pub spool_release : Ref → Spooler → Option Spooler
spool_release ref spl = do
  s ← spool_at ref spl
  let left = (s.reserved + 255) % 256
  let released = write_spool ref (record s { reserved = left }) spl
  if not (eqb_ℤ s.id.time newest_msgid_time) && (left == 0) && (s.sub_count == 0)
      then destroy_ref ref released
      else some released

-- The test of `its_time_for_a_spooling_filter` and `its_time_for_a_spooling`.
abbrev pub is_unasked : MsgStatus → Bool
is_unasked msg_channel_notready = true
is_unasked msg_invalid = true
is_unasked msg_pending = false
is_unasked msg_error = false
is_unasked msg_notfound = false
is_unasked msg_found = false
is_unasked msg_expected = false
is_unasked msg_expired = false

-- `its_time_for_a_spooling_filter` on every node: the nodes afterwards, and the ids of those it takes.
pub reserve_unasked : List Spool → List Spool × List MsgId
reserve_unasked [] = ([], [])
reserve_unasked (s ∷ ss) =
    let rest = reserve_unasked ss in
    if is_unasked s.msg_status
    then (spool_reserve s ∷ rest.0, s.id ∷ rest.1)
    else (s ∷ rest.0, rest.1)

-- `its_time_for_a_spooling`
pub its_time_for_a_spooling : MsgId → Spooler → Option Spooler
unfolding spool_release
its_time_for_a_spooling id spl = do
  s ← spool_at (in_tree id) spl
  asked ←
      if is_unasked s.msg_status
      then spool_fetch_msg (in_tree id) (set_status msg_invalid (in_tree id) s spl)
      else some spl
  spool_release (in_tree id) asked

pub ask_all : List MsgId → Spooler → Option Spooler
unfolding its_time_for_a_spooling
ask_all [] spl = some spl
ask_all (id ∷ ids) spl = its_time_for_a_spooling id spl >>= ask_all ids

-- `spooler_channel_status_changed`
pub spooler_channel_status_changed : Spooler → Option Spooler
unfolding reserve_unasked ask_all
spooler_channel_status_changed spl =
    let taken = reserve_unasked spl.tree in
    if spl.channel_ready then ask_all taken.1 (record spl { tree = taken.0 }) else some spl

-- `spooler_catch_up_filter`
abbrev pub is_waiting : MsgStatus → Bool
is_waiting msg_expected = true
is_waiting msg_pending = true
is_waiting msg_channel_notready = false
is_waiting msg_invalid = false
is_waiting msg_error = false
is_waiting msg_notfound = false
is_waiting msg_found = false
is_waiting msg_expired = false

pub waiting_ids : List Spool → List MsgId
waiting_ids [] = []
waiting_ids (s ∷ ss) =
    let rest = waiting_ids ss in if is_waiting s.msg_status then s.id ∷ rest else rest

-- `spooler_catch_up_callback`
pub ask_again : List MsgId → Spooler → Option Spooler
ask_again [] spl = some spl
ask_again (id ∷ ids) spl = do
  s ← spool_at (in_tree id) spl
  asked ← spool_fetch_msg (in_tree id) (set_status msg_invalid (in_tree id) s spl)
  ask_again ids asked

-- `spooler_catch_up`
pub spooler_catch_up : Spooler → Option Spooler
unfolding waiting_ids ask_again
spooler_catch_up spl = ask_again (waiting_ids spl.tree) spl

-- `fetchmsg_ev_handler`
pub fetchmsg_ev_handler : Ref → Spooler → Option Spooler
fetchmsg_ev_handler ref spl = do
  s ← spool_at ref spl
  let fired = write_spool ref (record s { fetchmsg_timer = false }) spl
  if is_invalid s.msg_status then spool_fetch_msg ref fired else some fired

-- The list without the subscriber at an index.
pub without : ℕ → List Subscriber → List Subscriber
without n [] = []
without zero (u ∷ us) = us
without (suc n) (u ∷ us) = u ∷ without n us

-- `spool_sub_dequeue_callback`, when the subscriber at an index of a spool leaves by itself.
pub spool_sub_dequeue_callback : Ref → ℕ → Spooler → Option Spooler
unfolding count_removed without
spool_sub_dequeue_callback ref n spl = do
  s ← spool_at ref spl
  u ← get_elem? s.subs n
  counted ← count_removed u s
  some (call (dequeued u) (write_spool ref (record counted { subs = without n s.subs }) spl))

-- `spooler_prepare_to_stop`; that its subscribers leave after the next response is theirs to do.
abbrev pub spooler_prepare_to_stop : Spooler → Spooler
spooler_prepare_to_stop spl = record spl { want_to_stop = true }
