-- ===== src/Spool/Answer.antt =====
-- What a spooler does with the store's answers, new messages, new subscribers and a channel that
-- becomes ready, store/spool.c.
pub mod Respond
pub mod Missing
pub mod Joining
pub mod Tracking
pub mod Telling
mod Tests
use nchan.Prelude.{
  Bool, List, Option, Rc, assert, false, if◌then◌else◌, leb, ltb, min, ngx_error, ngx_ok, none, not,
  some, true, [], ◌&&◌, ◌++◌, ◌==◌, ◌>>=◌, ◌>>◌, ◌||◌, ◌∷◌,
}
use nchan.Prelude.Int.{eqb_ℤ, leb_ℤ, ltb_ℤ, pos}
use nchan.Msg.Id.{MsgId, nth_msgid_time}
use nchan.Msg.Compare.{compare_msgid_tags, compare_msgids}
use nchan.Memstore.Message.{Message, fixed_0}
use nchan.Memstore.Buffer.{
  MsgStatus, msg_channel_notready, msg_error, msg_expected, msg_expired, msg_found, msg_invalid,
  msg_notfound, msg_pending,
}
use nchan.Spool.{
  Env, Ref, Spool, Spooler, Subscriber, added, call, current, expect_current, fetch,
  fetch_ignore_msg_notfound, find_spool, get_message_finish, get_spool, in_tree, is_passthrough,
  latest_msg_id, message, oldest_msg_id, passthrough, respond, spool_add_subscriber, spool_at,
  spool_respond_general, status, used, write_spool,
}
use nchan.Spool.Fetch.{
  destroy_spool, is_none, same_ref, spool_fetch_msg, spool_nextmsg, spool_transfer_subscribers,
}

abbrev pub set_status : MsgStatus → Ref → Spool → Spooler → Spooler
set_status st ref s spl = write_spool ref (record s { msg_status = st }) spl

-- `destroy_spool` of a spool by its pointer; the spool of the newest messages is in no node.
abbrev pub destroy_ref : Ref → Spooler → Option Spooler
destroy_ref current spl = none
destroy_ref (in_tree id) spl = destroy_spool id spl

abbrev pub destroy_unless_reserved : Ref → Spool → Spooler → Option Spooler
destroy_unless_reserved ref s spl = if s.reserved == 0 then destroy_ref ref spl else some spl

-- The case of a message that was not found or has expired.
pub answer_missing : Env → MsgStatus → Ref → Spool → Spooler → Option Spooler
answer_missing env code ref s spl = do
  told_them ← spool_respond_general env (status 204) ref (set_status code ref s spl)
  let oldest = get_spool env oldest_msg_id told_them
  nuspool ← oldest.0
  if not (same_ref ref nuspool)
      then (do
        moved ← spool_transfer_subscribers true ref nuspool oldest.1
        left ← destroy_unless_reserved ref s moved
        spool_fetch_msg nuspool left)
      else (do
        order ← compare_msgids s.id oldest_msg_id
        if s.id.tagcount == 1 && eqb_ℤ order (pos 0)
            then (do
              let newest = get_spool env latest_msg_id oldest.1
              newspool ← newest.0
              assert (not (same_ref ref newspool))
              moved ← spool_transfer_subscribers true ref newspool newest.1
              destroy_unless_reserved ref s moved)
            else none)

-- The `switch` of `spool_fetch_msg_callback`.
abbrev pub answer_by : Env → MsgStatus → Option Message → Ref → Spool → Spooler → Option Spooler
answer_by env msg_found none ref s spl = none
answer_by env msg_found (some m) ref s spl = do
  told_them ←
      spool_respond_general env (message m) ref
        (write_spool ref (record s { msg_status = msg_found; msg = some m }) spl)
  spool_nextmsg env ref m.id told_them
answer_by env msg_expected msg ref s spl =
    if eqb_ℤ s.id.time nth_msgid_time then spool_nextmsg env ref latest_msg_id spl else (do
      told_them ←
          spool_respond_general env (status 204) ref
            (write_spool ref (record s { msg_status = msg_expected; msg = none }) spl)
      assert (is_none msg)
      some told_them)
answer_by env msg_channel_notready msg ref s spl =
    some (write_spool ref (record s { msg_status = msg_channel_notready; msg = none }) spl)
answer_by env msg_notfound msg ref s spl = elim spl.fetching_strategy [
  | fetch_ignore_msg_notfound ↦ some spl
  | fetch ↦ answer_missing env msg_notfound ref s spl
  | passthrough ↦ answer_missing env msg_notfound ref s spl
]
answer_by env msg_expired msg ref s spl = answer_missing env msg_expired ref s spl
answer_by env msg_pending msg ref s spl = some spl
answer_by env msg_error msg ref s spl = spool_respond_general env (status 500) ref spl
answer_by env msg_invalid msg ref s spl = none

abbrev pub answer_at : Env → MsgStatus → Option Message → Option Ref → Spooler → Option Spooler
answer_at env code msg none spl = some spl
answer_at env code msg (some ref) spl = spool_at ref spl >>= λ s. answer_by env code msg ref s spl

-- `spool_fetch_msg_callback` of a spooler that was not stopped, for the request of the id `msgid`.
pub spool_fetch_msg_callback : Env → MsgStatus → Option Message → MsgId → Spooler → Option Spooler
unfolding answer_missing
spool_fetch_msg_callback env code msg msgid spl = do
  assert (not (is_passthrough spl.fetching_strategy))
  let found = find_spool msgid (call get_message_finish spl)
  answer_at env code msg found.0 found.1

-- `compare_msgid_onetag_range`: whether the id is in the range from `min` to before `max`.
abbrev pub in_onetag_range : MsgId → MsgId → MsgId → Bool
in_onetag_range min max id =
    (ltb_ℤ min.time id.time || (eqb_ℤ min.time id.time && leb_ℤ (fixed_0 min.tag) (fixed_0 id.tag)))
    && (ltb_ℤ id.time max.time
        || (eqb_ℤ max.time id.time && ltb_ℤ (fixed_0 id.tag) (fixed_0 max.tag)))

-- The other branch of `collect_spool_range_callback`, for ids of several channels.
abbrev pub in_multi_range : MsgId → MsgId → MsgId → Option Bool
in_multi_range min max id =
    if ltb_ℤ id.time min.time || ltb_ℤ max.time id.time
    then some false
    else if ltb_ℤ min.time id.time && ltb_ℤ id.time max.time
    then some true
    else (do
      below ←
          if eqb_ℤ id.time max.time
          then compare_msgid_tags id max >>= (λ c. some (ltb_ℤ c (pos 0)))
          else some false
      if eqb_ℤ id.time max.time && eqb_ℤ id.time min.time && not below
          then some false
          else if eqb_ℤ id.time max.time && not (eqb_ℤ id.time min.time) && below
          then some true
          else if eqb_ℤ id.time min.time
          then compare_msgid_tags id min >>= (λ c. some (leb_ℤ (pos 0) c))
          else some false)

-- The spools that `rbtree_conditional_walk` collects, in the order in which they are taken up. The counts of
-- tags are asserted for every spool, also for those that the walk passes by because their subtree is out of
-- the range.
pub collect : Message → List Spool → Option (List MsgId)
collect m [] = some []
collect m (s ∷ ss) = do
  within ←
      if leb m.id.tagcount 1
      then (if (m.prev_id.tagcount == m.id.tagcount)
            && (m.id.tagcount == s.id.tagcount)
            && (s.id.tagcount == 1)
          then some (in_onetag_range m.prev_id m.id s.id)
          else none)
      else in_multi_range m.prev_id m.id s.id
  rest ← collect m ss
  some (if within then rest ++ s.id ∷ [] else rest)

-- Telling the subscribers of one spool and moving them on.
pub respond_and_move : Env → Message → Ref → Spooler → Option Spooler
respond_and_move env m ref spl = do
  told_them ← spool_respond_general env (message m) ref spl
  spool_nextmsg env ref m.id told_them

pub respond_collected : Env → Message → List MsgId → Spooler → Option Spooler
unfolding respond_and_move
respond_collected env m [] spl = some spl
respond_collected env m (id ∷ ids) spl =
    respond_and_move env m (in_tree id) spl >>= respond_collected env m ids

-- `spooler_respond_message`
pub spooler_respond_message : Env → Message → Spooler → Option Spooler
unfolding collect respond_collected respond_and_move
spooler_respond_message env m spl = do
  told_tree ←
      if is_passthrough spl.fetching_strategy
      then some spl
      else collect m spl.tree >>= (λ ids. respond_collected env m ids spl)
  let waiting = expect_current told_tree
  told_all ←
      if ltb 0 waiting.current_msg_spool.sub_count && waiting.channel_buffer_complete
      then respond_and_move env m current waiting
      else some waiting
  some (record told_all { prev_msg_id = m.id })

-- The `switch` of `spooler_add_subscriber`.
abbrev pub welcome : Env → Subscriber → MsgStatus → Ref → Spool → Spooler → Option Spooler
welcome env u msg_found ref s spl = s.msg >>= λ m. spool_respond_general env (message m) ref spl
welcome env u msg_invalid ref s spl = do assert (is_none s.msg); spool_fetch_msg ref spl
welcome env u msg_channel_notready ref s spl = some spl
welcome env u msg_pending ref s spl = some spl
welcome env u msg_expected ref s spl = some (call (respond u (status 204)) spl)
welcome env u msg_expired ref s spl = none
welcome env u msg_notfound ref s spl = none
welcome env u msg_error ref s spl = none

abbrev pub add_at : Env → Subscriber → Option Ref → Spooler → Option (Rc × Spooler)
add_at env u none spl = some (ngx_error, spl)
add_at env u (some ref) spl = do
  s ← spool_at ref spl
  let s' = spool_add_subscriber u s
  let joined = call (added u) (write_spool ref s' spl)
  welcomed ← welcome env u s'.msg_status ref s' joined
  some (ngx_ok, if u.internal then welcomed else call used welcomed)

-- `spooler_add_subscriber` of a subscriber that can be enqueued, and that waits when it is told to.
pub spooler_add_subscriber : Env → Subscriber → Spooler → Option (Rc × Spooler)
spooler_add_subscriber env u spl =
    if spl.want_to_stop
    then some (ngx_error, spl)
    else (let found = get_spool env u.last_msgid spl in add_at env u found.0 found.1)
