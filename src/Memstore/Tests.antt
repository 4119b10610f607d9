-- ===== src/Memstore/Tests.antt =====
-- Runs of the memory store's operations at concrete channels, and uses of their theorems.
use nchan.Prelude.{
  List, arith, false, length, refl, some, true, ℕ, [], ◌++◌, ◌+◌, ◌∷◌, ◌≡◌, ◌≤◌, ◌⊎◌,
}
use nchan.Prelude.Int.{negsuc, pos, ◌+ℤ◌}
use nchan.Msg.Id.{MsgId, fixed}
use nchan.Memstore.Message.{Message, refcount_invalid}
use nchan.Memstore.Message.Lifetime.{
  Step, any_forced, fate, fates, held, release, releases, reserve, reserves, run_steps,
  run_steps-balance, run_steps-fates, try_reap,
}
use nchan.Memstore.Buffer.{
  Chanhead, chanhead_find_next_message, chanhead_messages_gc_custom, find_in_buffer, msg_found,
}
use nchan.Memstore.Buffer.Find.Deliver.{AllRegular, follow, follow-newer}
use nchan.Memstore.Buffer.Collected.{Collected, newest, unexpired}
use nchan.Memstore.Buffer.Gc.{FirstFresh, gc_custom-splits}
use nchan.Memstore.Publish.{
  Outcome, PublishConf, chanhead_publish_message_generic, fill_message_timedata, last, published,
}
use nchan.Memstore.Publish.Order.{CanPublish, IsOrdered}
use nchan.Memstore.Publish.Reading.{chanhead_find_next_message-answer}
use nchan.Memstore.Publish.Total.{publish-IsOrdered}
use nchan.Memstore.Publish.Delivery.{publish-delivers}
use nchan.Memstore.Groups.{Group, GroupNode, add_message, add_subscribers, group_receive}
use nchan.Memstore.Groups.Deferred.{Event, at_once, elsewhere, here, receive, run, run-at_once}

abbrev id_at : ℕ → ℕ → MsgId
id_at t g = record { time = pos t; tag = fixed (pos g ∷ []); tagactive = pos 0; tagcount = 1 }

abbrev message : ℕ → ℕ → ℕ → Message
message n t g = record {
  content = n;
  id = id_at t g;
  prev_id = id_at 0 0;
  expires = pos 1000;
  refcount = pos 0;
  mem_size = 1;
  file_size = 0;
}

abbrev two_messages : List Message
two_messages = message 1 10 0 ∷ message 2 10 1 ∷ []

abbrev channel : Chanhead
channel = record {
  owner = 1;
  slot = 1;
  messages = two_messages;
  max_messages = pos 5;
  stored_message_count = 2;
  total_message_count = 2;
  latest_msgid = id_at 10 1;
  groupnode = some (pos 2);
  released = [];
  redis_distributed = false;
  msg_buffer_complete = true;
  shared = true;
}

abbrev conf : PublishConf
conf = record {
  now = pos 10;
  message_timeout = pos 60;
  max_messages = pos 5;
  redis_distributed = false;
}

abbrev new_message : Message
new_message = record (message 3 0 0) { expires = pos 0 }

two_messages-AllRegular : AllRegular two_messages
two_messages-AllRegular =
    (record { one = refl; plain = omega arith }, (record { one = refl; plain = omega arith }, tt))

channel-IsOrdered : IsOrdered channel
channel-IsOrdered = record {
  sorted = ((refl, tt), (tt, tt));
  regular = two_messages-AllRegular;
  counted = refl;
}

channel-CanPublish : CanPublish conf channel new_message
channel-CanPublish = record {
  one = refl;
  local = refl;
  clock = omega arith;
  not_negative = omega arith;
  owner_shared = λ here. refl;
  behind = ((omega arith, omega arith, omega arith), ((omega arith, omega arith, omega arith), tt));
}

follow-newer_example :
    follow (find_in_buffer (pos 5) two_messages) 3 (id_at 10 0) ≡ message 2 10 1 ∷ []
follow-newer_example =
    follow-newer (pos 5) (message 1 10 0) (message 2 10 1 ∷ []) (id_at 10 0) ((refl, tt), (tt, tt))
      two_messages-AllRegular (record { one = refl; plain = omega arith })

publish-delivers_example :
    (m' : Message) × (ch' : Chanhead) × (chanhead_publish_message_generic conf true channel
        new_message
      ≡ some (published m', ch'))
    × (m'.content ≡ 3)
    × (last ch'.messages ≡ some m')
    × (find_in_buffer ch'.max_messages ch'.messages (id_at 10 1) ≡ some (msg_found, some m'))
unfolding fill_message_timedata ◌+ℤ◌
publish-delivers_example =
    publish-delivers conf channel new_message (message 2 10 1) refl channel-IsOrdered
      channel-CanPublish refl refl refl refl

publish-IsOrdered_example :
    (o : Outcome) × (ch' : Chanhead) × (chanhead_publish_message_generic conf false channel
        new_message
      ≡ some (o, ch'))
    × IsOrdered ch'
publish-IsOrdered_example =
    publish-IsOrdered conf false channel new_message channel-IsOrdered channel-CanPublish

gc_custom-splits_example :
    (dropped : List Message) × (two_messages
      ≡ dropped ++ (chanhead_messages_gc_custom (pos 1) (pos 10) channel).messages)
    × Collected channel dropped
        (unexpired (pos 10) (newest (pos 1) two_messages))
        (chanhead_messages_gc_custom (pos 1) (pos 10) channel)
    × (length (chanhead_messages_gc_custom (pos 1) (pos 10) channel).messages ≤ 1)
    × FirstFresh (pos 10) (chanhead_messages_gc_custom (pos 1) (pos 10) channel).messages
gc_custom-splits_example = gc_custom-splits (pos 1) (pos 10) channel 1 refl refl refl

chanhead_find_next_message-answer_example :
    (ch' : Chanhead) × (chanhead_find_next_message (pos 20) channel (id_at 10 0)
      ≡ some ((msg_found, some (message 2 10 1)), ch'))
    × (ch'.messages ≡ two_messages)
    × IsOrdered ch'
chanhead_find_next_message-answer_example =
    chanhead_find_next_message-answer (pos 20) channel (id_at 10 0) refl refl channel-IsOrdered
      (record { one = refl; plain = omega arith })

-- Reserved and released, then tried by the reaper, before and after the message expires.
abbrev a_life : List Step
a_life =
    reserve
    ∷ try_reap (pos 2000) true false
    ∷ release
    ∷ try_reap (pos 20) true false
    ∷ try_reap (pos 2000) true false
    ∷ []

abbrev ended : Message
ended = record (message 1 10 0) { refcount = refcount_invalid }

run_steps-fates_example : run_steps a_life (message 1 10 0) ≡ some ended
unfolding fates fate
run_steps-fates_example = run_steps-fates a_life (message 1 10 0) (held 0)

-- A message that one holds when the reaper is forced.
abbrev a_forced_life : List Step
a_forced_life = reserve ∷ try_reap (pos 20) false true ∷ []

a_forced_life-runs : run_steps a_forced_life (message 1 10 0) ≡ some ended
unfolding fates fate
a_forced_life-runs = run_steps-fates a_forced_life (message 1 10 0) (held 0)

run_steps-balance_example :
    (k : ℕ) × (0 + reserves a_forced_life ≡ k + releases a_forced_life)
    × ((ended.refcount ≡ pos k)
        ⊎ ((ended.refcount ≡ refcount_invalid) × ((k ≡ 0) ⊎ (any_forced a_forced_life ≡ true))))
run_steps-balance_example =
    run_steps-balance a_forced_life (message 1 10 0) ended 0 refl a_forced_life-runs

abbrev no_group : Group
no_group = record {
  channels = pos 0;
  multiplexed_channels = pos 0;
  messages = pos 0;
  messages_shmem_bytes = pos 0;
  messages_file_bytes = pos 0;
  subscribers = pos 0;
}

abbrev waiting_node : GroupNode
waiting_node = record { has_group = false; when_ready = []; shm_group = no_group }

abbrev some_events : List Event
some_events =
    here (add_message (pos 1) 100 0)
    ∷ elsewhere (add_subscribers (pos 2))
    ∷ receive
    ∷ here (add_message (negsuc 0) 100 0)
    ∷ []

run-at_once_example :
    ((group_receive (run some_events waiting_node)).shm_group ≡ at_once some_events no_group)
    × ((group_receive (run some_events waiting_node)).when_ready ≡ [])
run-at_once_example = run-at_once some_events waiting_node refl
