-- ===== src/Spool.antt =====
-- The spools of a channel, store/spool.c: the subscribers that wait at each message id, and what they
-- are told. The tree of spools is a sequence that is searched by `spool_rbtree_compare`; a spool is
-- known by its id. Memory for a subscriber's place and for a request is granted.
pub mod Fetch
pub mod Answer
pub mod Control
pub mod Ensures
pub mod Tracks
pub mod Keep
pub mod Told
pub mod Grows
use nchan.Prelude.{
  Bool, List, Option, assert, false, if◌then◌else◌, ltb, none, some, suc, true, ℕ, [], ◌+◌, ◌-◌,
  ◌>>=◌, ◌>>◌, ◌^◌, ◌||◌, ◌∷◌,
}
use nchan.Prelude.Int.{eqb_ℤ, pos, ℤ}
use nchan.Msg.Id.{MsgId, newest_msgid_time, oldest_msgid_time}
use nchan.Msg.Compare.{spool_rbtree_compare}
use nchan.Msg.Update.{update_subscriber_last_msg_id}
use nchan.Msg.Tag.Compound.{special_id}
use nchan.Memstore.Message.{Message}
use nchan.Memstore.Buffer.{MsgStatus, msg_expected, msg_invalid}

-- What the spools use of `subscriber_t`. `updates` is whether its `respond_message` calls
-- `update_subscriber_last_msg_id`, as all do but those of other workers.
pub record Subscriber : Type 0 where
  pub number : ℕ
  pub internal : Bool
  pub updates : Bool
  pub last_msgid : MsgId

-- A call of `respond_message`, `respond_status` or `notify`.
pub data Response : Type 0 where
  message : Message → Response
  status : ℕ → Response
  notice : ℕ → Response

-- What a spooler calls: its subscribers, its handlers and the store.
pub data Call : Type 0 where
  respond : Subscriber → Response → Call
  dequeued : Subscriber → Call
  added : Subscriber → Call
  used : Call
  get_message : MsgId → Call
  get_message_start get_message_finish : Call

-- What the spooler does not decide: whether a subscriber dequeues itself when it is told something,
-- the bytes of a pointer that overlie fixed tags, and whether memory for tags and spools is granted.
pub record Env : Type 0 where
  pub leaves : Subscriber → Response → Bool
  pub overlap : List ℤ
  pub memory : Bool

-- `subscriber_pool_t`
pub record Spool : Type 0 where
  pub id : MsgId
  pub msg : Option Message
  pub msg_status : MsgStatus
  pub subs : List Subscriber
  pub sub_count : ℕ
  pub non_internal_sub_count : ℕ
  pub reserved : ℕ
  pub fetchmsg_prev_msec : ℕ
  pub fetchmsg_current_count : ℕ
  pub fetchmsg_timer : Bool

pub data Strategy : Type 0 where
  fetch fetch_ignore_msg_notfound passthrough : Strategy

-- `channel_spooler_t`, with the time in milliseconds, and the calls that were made, the last first.
pub record Spooler : Type 0 where
  pub tree : List Spool
  pub current_msg_spool : Spool
  pub prev_msg_id : MsgId
  pub channel_ready : Bool
  pub channel_buffer_complete : Bool
  pub fetching_strategy : Strategy
  pub want_to_stop : Bool
  pub now : ℕ
  pub calls : List Call

abbrev pub is_passthrough : Strategy → Bool
is_passthrough passthrough = true
is_passthrough fetch = false
is_passthrough fetch_ignore_msg_notfound = false

abbrev pub latest_msg_id : MsgId
latest_msg_id = special_id newest_msgid_time (pos 0)

abbrev pub oldest_msg_id : MsgId
oldest_msg_id = special_id oldest_msgid_time (pos 0)

abbrev pub call : Call → Spooler → Spooler
call c spl = record spl { calls = c ∷ spl.calls }

-- A pointer to a spool.
pub data Ref : Type 0 where
  current : Ref
  in_tree : MsgId → Ref

abbrev pub is_at : MsgId → Spool → Bool
is_at id s = eqb_ℤ (spool_rbtree_compare id s.id) (pos 0)

-- The node of the tree at an id: reading it, writing it and taking it out.
pub find_node : MsgId → List Spool → Option Spool
find_node id [] = none
find_node id (s ∷ ss) = if is_at id s then some s else find_node id ss

pub write_node : MsgId → Spool → List Spool → List Spool
write_node id s [] = []
write_node id s (t ∷ ts) = if is_at id t then s ∷ ts else t ∷ write_node id s ts

pub remove_node : MsgId → List Spool → List Spool
remove_node id [] = []
remove_node id (t ∷ ts) = if is_at id t then ts else t ∷ remove_node id ts

pub spool_at : Ref → Spooler → Option Spool
unfolding find_node
spool_at current spl = some (spl.current_msg_spool)
spool_at (in_tree id) spl = find_node id spl.tree

pub write_spool : Ref → Spool → Spooler → Spooler
unfolding write_node
write_spool current s spl = record spl { current_msg_spool = s }
write_spool (in_tree id) s spl = record spl { tree = write_node id s spl.tree }

-- `init_spool`
abbrev pub init_spool : MsgId → Spool
init_spool id = record {
  id = id;
  msg = none;
  msg_status = msg_invalid;
  subs = [];
  sub_count = 0;
  non_internal_sub_count = 0;
  reserved = 0;
  fetchmsg_prev_msec = 0;
  fetchmsg_current_count = 0;
  fetchmsg_timer = false;
}

-- Where `find_spool` and `get_spool` take the spool of the newest messages.
abbrev pub at_current : MsgId → Spooler → Bool
at_current id spl = eqb_ℤ id.time newest_msgid_time || is_passthrough spl.fetching_strategy

abbrev pub expect_current : Spooler → Spooler
expect_current spl = record spl {
  current_msg_spool = record (spl.current_msg_spool) { msg_status = msg_expected };
}

-- `find_spool`
pub find_spool : MsgId → Spooler → Option Ref × Spooler
unfolding find_node
find_spool id spl =
    if at_current id spl
    then (some current, expect_current spl)
    else (elim (find_node id spl.tree) [ none ↦ none | some s ↦ some (in_tree s.id) ], spl)

abbrev pub get_node : Bool → MsgId → Spooler → Option Spool → Option Ref × Spooler
get_node memory id spl (some s) = (some (in_tree s.id), spl)
get_node memory id spl none =
    if memory
    then (some (in_tree id), record spl { tree = init_spool id ∷ spl.tree })
    else (none, spl)

-- `get_spool`
pub get_spool : Env → MsgId → Spooler → Option Ref × Spooler
unfolding find_node
get_spool env id spl =
    if at_current id spl
    then (some current, expect_current spl)
    else get_node env.memory id spl (find_node id spl.tree)

abbrev pub external : Subscriber → ℕ
external u = if u.internal then 0 else 1

-- `spool_add_subscriber`, of a subscriber that is enqueued already or lets itself be.
unfoldable pub spool_add_subscriber : Subscriber → Spool → Spool
spool_add_subscriber u s = record s {
  subs = u ∷ s.subs;
  sub_count = suc s.sub_count;
  non_internal_sub_count = s.non_internal_sub_count + external u;
}

-- A count of type `ngx_uint_t` that is lowered.
abbrev pub lower : ℕ → ℕ → ℕ
lower n k = if ltb n k then n + 2 ^ 64 - k else n - k

-- The part of `spool_remove_subscriber` that counts.
pub count_removed : Subscriber → Spool → Option Spool
count_removed u s = do
  assert (ltb 0 s.sub_count)
  some (record s {
    sub_count = s.sub_count - 1;
    non_internal_sub_count = lower s.non_internal_sub_count (external u);
  })

-- What `respond_message` of the subscriber does to its id.
pub told : Env → Response → Subscriber → Option Subscriber
told env (message m) u =
    if u.updates
    then (do
      r ← update_subscriber_last_msg_id env.overlap env.memory u.last_msgid (some (m.prev_id, m.id))
      some (record u { last_msgid = r.0 }))
    else some u
told env (status code) u = some u
told env (notice code) u = some u

-- The loop of `spool_respond_general`, over the subscribers from `nsub` on; those that stay, and
-- the calls, the last first.
pub respond_loop :
    Env
    → Response
    → List Subscriber
    → Spool
    → List Call
    → Option (List Subscriber × Spool × List Call)
unfolding told count_removed
respond_loop env r [] s calls = some ([], s, calls)
respond_loop env r (u ∷ us) s calls = do
  u' ← told env r u
  let left = env.leaves u r
  s' ← if left then count_removed u s else some s
  rest ←
      respond_loop env r us s'
        (if left then dequeued u ∷ respond u r ∷ calls else respond u r ∷ calls)
  some (if left then rest.0 else u' ∷ rest.0, rest.1, rest.2)

-- `spool_respond_general`
pub spool_respond_general : Env → Response → Ref → Spooler → Option Spooler
unfolding respond_loop
spool_respond_general env r ref spl = do
  s ← spool_at ref spl
  rest ← respond_loop env r s.subs s spl.calls
  some (record (write_spool ref (record (rest.1) { subs = rest.0 }) spl) { calls = rest.2 })
