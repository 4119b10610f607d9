-- ===== src/Spool/Answer/Tests.antt =====
-- A spooler with two subscribers, run.
use nchan.Msg.Update.{update_multi_msgid, update_subscriber_last_msg_id, verify_msg_id}
use nchan.Msg.Compare.{compare_padded, msg_ids_equal, spool_rbtree_compare}
use nchan.Spool.Fetch.{
  destroy_spool, spool_fetch_msg, spool_nextmsg, spool_transfer_subscribers, transfer_loop, wake,
}
use nchan.Memstore.Message.{Message}
use nchan.Spool.Control.{start_spooler}
use nchan.Spool.Control.Reached.{Reaches-IsTracking, joined, published, started}
use nchan.Spool.Answer.Telling.{spooler_respond_message-tells}
use nchan.Spool.Grows.{Told}
use nchan.Spool.Answer.{
  answer_missing, collect, respond_and_move, respond_collected, spool_fetch_msg_callback,
  spooler_add_subscriber, spooler_respond_message,
}
use nchan.Prelude.{
  List, Option, Rc, false, length, ngx_ok, none, refl, some, true, ℕ, [], ◌>>=◌, ◌∷◌, ◌≡◌,
}
use nchan.Prelude.Int.{pos}
use nchan.Msg.Id.{MsgId}
use nchan.Msg.Tag.Compound.{special_id}
use nchan.Memstore.Buffer.{MsgStatus, msg_expected, msg_expired, msg_found}
use nchan.Spool.{
  Env, Spool, Spooler, Subscriber, count_removed, fetch, find_node, find_spool, get_spool,
  init_spool, latest_msg_id, message, remove_node, respond_loop, spool_add_subscriber, spool_at,
  spool_respond_general, told, write_node, write_spool,
}
use nchan.Spool.Tracks.{IsTracking}

abbrev stays : Env
stays = record { leaves = λ u r. false; overlap = []; memory = true }

abbrev first_id : MsgId
first_id = special_id (pos 7) (pos 0)

abbrev second_id : MsgId
second_id = special_id (pos 7) (pos 1)

abbrev waiter : ℕ → MsgId → Subscriber
waiter n id = record { number = n; internal = false; updates = true; last_msgid = id }

abbrev spool_of : MsgId → MsgStatus → List Subscriber → Spool
spool_of id st us = record (init_spool id) {
  msg_status = st;
  subs = us;
  sub_count = length us;
  non_internal_sub_count = length us;
}

-- One subscriber waits after the first message, another for any new one.
abbrev waiting : Spooler
waiting = record {
  tree = spool_of first_id msg_expected (waiter 1 first_id ∷ []) ∷ [];
  current_msg_spool = spool_of latest_msg_id msg_expected (waiter 2 latest_msg_id ∷ []);
  prev_msg_id = first_id;
  channel_ready = true;
  channel_buffer_complete = true;
  fetching_strategy = fetch;
  want_to_stop = false;
  now = 100;
  calls = [];
}

waiting-IsTracking : IsTracking waiting
waiting-IsTracking = (
  (((refl, (pos 0, refl)), refl, ((λ e. record { same_time = refl; same_tags = refl }), tt)), tt),
  refl,
  refl,
)

abbrev second : Message
second = record {
  content = 5;
  id = second_id;
  prev_id = first_id;
  expires = pos 0;
  refcount = pos 0;
  mem_size = 10;
  file_size = 0;
}

abbrev result : Option Spooler → Spooler
result none = waiting
result (some spl) = spl

-- The second message: both subscribers are told it, and wait at it.
abbrev told_second : Option Spooler
told_second = spooler_respond_message stays second waiting

told_second-runs : told_second ≡ some (result told_second)
unfolding spooler_respond_message collect respond_collected respond_and_move spool_respond_general
    respond_loop told update_subscriber_last_msg_id verify_msg_id update_multi_msgid spool_nextmsg
    find_spool get_spool find_node write_node remove_node spool_at write_spool
    spool_transfer_subscribers transfer_loop spool_add_subscriber destroy_spool wake spool_fetch_msg
    count_removed spool_rbtree_compare compare_padded msg_ids_equal
told_second-runs = refl

-- The store's answers and a new subscriber.
abbrev found : Option Spooler
found = spool_fetch_msg_callback stays msg_found (some second) first_id waiting

found-runs : found ≡ some (result found)
unfolding spool_fetch_msg_callback spool_respond_general respond_loop told
    update_subscriber_last_msg_id verify_msg_id update_multi_msgid spool_nextmsg find_spool
    find_node write_node remove_node spool_at write_spool wake spool_fetch_msg count_removed
    spool_rbtree_compare compare_padded msg_ids_equal
found-runs = refl

abbrev expired : Option Spooler
expired = spool_fetch_msg_callback stays msg_expired none first_id waiting

expired-runs : expired ≡ some (result expired)
unfolding spool_fetch_msg_callback answer_missing spool_respond_general respond_loop told find_spool
    get_spool find_node write_node remove_node spool_at write_spool spool_transfer_subscribers
    transfer_loop spool_add_subscriber destroy_spool spool_fetch_msg count_removed
    spool_rbtree_compare compare_padded
expired-runs = refl

abbrev third_joined : Option (Rc × Spooler)
third_joined = spooler_add_subscriber stays (waiter 3 first_id) waiting

third_joined-runs : third_joined ≡ some (ngx_ok, result (third_joined >>= λ r. some (r.1)))
unfolding spooler_add_subscriber get_spool find_node write_node spool_at write_spool
    spool_add_subscriber spool_rbtree_compare compare_padded
third_joined-runs = refl

-- A channel that starts, gets a subscriber who waits for any message, and gets a message.
abbrev begun : Spooler
begun = start_spooler fetch true true 100

abbrev with_one : Option Spooler
with_one = spooler_add_subscriber stays (waiter 1 latest_msg_id) begun >>= λ r. some (r.1)

with_one-runs :
    spooler_add_subscriber stays (waiter 1 latest_msg_id) begun ≡ some (ngx_ok, result with_one)
unfolding spooler_add_subscriber get_spool find_node write_node spool_at write_spool
    spool_add_subscriber spool_rbtree_compare compare_padded
with_one-runs = refl

abbrev with_message : Option Spooler
with_message = spooler_respond_message stays second (result with_one)

with_message-runs : with_message ≡ some (result with_message)
unfolding spooler_add_subscriber spooler_respond_message collect respond_collected respond_and_move
    spool_respond_general respond_loop told update_subscriber_last_msg_id verify_msg_id
    update_multi_msgid spool_nextmsg find_spool get_spool find_node write_node remove_node spool_at
    write_spool spool_transfer_subscribers transfer_loop spool_add_subscriber destroy_spool wake
    spool_fetch_msg count_removed spool_rbtree_compare compare_padded msg_ids_equal
with_message-runs = refl

none_found :
    (s : Spool) → find_node latest_msg_id begun.tree ≡ some s → ¬ (s.msg_status ≡ msg_found)
unfolding find_node
none_found s e = absurd (cc e)

Reaches-IsTracking_example : IsTracking (result with_message)
Reaches-IsTracking_example = Reaches-IsTracking (result with_message) (
    published stays second (result with_one) (result with_message)
      (joined stays (waiter 1 latest_msg_id) ngx_ok begun (result with_one)
        (started fetch true true 100 refl) (refl, (pos 0, refl)) none_found with_one-runs)
      ((refl, (pos 1, refl)), refl) with_message-runs)

spooler_respond_message-tells_example :
    Told (message second) (waiter 2 latest_msg_id ∷ []) ((result told_second).calls)
spooler_respond_message-tells_example =
    spooler_respond_message-tells stays second waiting (result told_second)
      ((refl, (pos 1, refl)), refl) waiting-IsTracking refl refl told_second-runs
