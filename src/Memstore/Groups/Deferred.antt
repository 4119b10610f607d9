-- ===== src/Memstore/Groups/Deferred.antt =====
-- Counting later comes to the same as counting at once.
use nchan.Prelude.{
  Bool, Bool-cases, List, ap, false, if◌then◌else◌, inl, inr, ltb, refl, sym, true, [], ◌++◌, ◌∙◌,
  ◌∷◌, ◌≡◌,
}
use nchan.Prelude.Int.{int_laws, pos, ℤ, ◌+ℤ◌}
use nchan.Memstore.Groups.{
  Group, GroupNode, Update, add_channel, add_message, add_subscribers, add_whenready_callback,
  apply, call_callbacks, group_add_channel_internal, group_add_message_internal,
  group_add_subscribers_internal, group_receive, group_update, times,
}

-- The counts of one group added to those of another.
plus : Group → Group → Group
plus g d = record {
  channels = g.channels +ℤ d.channels;
  multiplexed_channels = g.multiplexed_channels +ℤ d.multiplexed_channels;
  messages = g.messages +ℤ d.messages;
  messages_shmem_bytes = g.messages_shmem_bytes +ℤ d.messages_shmem_bytes;
  messages_file_bytes = g.messages_file_bytes +ℤ d.messages_file_bytes;
  subscribers = g.subscribers +ℤ d.subscribers;
}

abbrev empty_group : Group
empty_group = record {
  channels = pos 0;
  multiplexed_channels = pos 0;
  messages = pos 0;
  messages_shmem_bytes = pos 0;
  messages_file_bytes = pos 0;
  subscribers = pos 0;
}

-- What an update adds to each count.
abbrev delta : Update → Group
delta (add_channel n true own) = record empty_group { multiplexed_channels = n }
delta (add_channel n false true) = record empty_group { channels = n }
delta (add_channel n false false) = empty_group
delta (add_message n mem file) = record empty_group {
  messages = n;
  messages_shmem_bytes = times n mem;
  messages_file_bytes = if ltb 0 file then times n file else pos 0;
}
delta (add_subscribers n) = record empty_group { subscribers = n }

+ℤ_comm : (g a b : ℤ) → g +ℤ a +ℤ b ≡ g +ℤ b +ℤ a
+ℤ_comm g a b = omega int_laws

+ℤ_zero : (g : ℤ) → g ≡ g +ℤ pos 0
+ℤ_zero g = omega int_laws

plus_comm : (g a b : Group) → plus (plus g a) b ≡ plus (plus g b) a
unfolding plus
plus_comm g a b = λ i. record {
  channels = +ℤ_comm g.channels a.channels b.channels i;
  multiplexed_channels =
      +ℤ_comm g.multiplexed_channels a.multiplexed_channels b.multiplexed_channels i;
  messages = +ℤ_comm g.messages a.messages b.messages i;
  messages_shmem_bytes =
      +ℤ_comm g.messages_shmem_bytes a.messages_shmem_bytes b.messages_shmem_bytes i;
  messages_file_bytes = +ℤ_comm g.messages_file_bytes a.messages_file_bytes b.messages_file_bytes i;
  subscribers = +ℤ_comm g.subscribers a.subscribers b.subscribers i;
}

-- A group is equal to the sum if its counts are.
plus-eq :
    (g' g d : Group)
    → g'.channels ≡ g.channels +ℤ d.channels
    → g'.multiplexed_channels ≡ g.multiplexed_channels +ℤ d.multiplexed_channels
    → g'.messages ≡ g.messages +ℤ d.messages
    → g'.messages_shmem_bytes ≡ g.messages_shmem_bytes +ℤ d.messages_shmem_bytes
    → g'.messages_file_bytes ≡ g.messages_file_bytes +ℤ d.messages_file_bytes
    → g'.subscribers ≡ g.subscribers +ℤ d.subscribers
    → g' ≡ plus g d
unfolding plus
plus-eq g' g d c x m s f u = λ i. record {
  channels = c i;
  multiplexed_channels = x i;
  messages = m i;
  messages_shmem_bytes = s i;
  messages_file_bytes = f i;
  subscribers = u i;
}

module _ (g : Group) where
  apply-delta : (u : Update) → apply u g ≡ plus g (delta u)
  unfolding apply group_add_channel_internal group_add_message_internal
      group_add_subscribers_internal
  apply-delta (add_channel n true own) =
      plus-eq _ g (delta (add_channel n true own)) (+ℤ_zero g.channels) refl (+ℤ_zero g.messages)
        (+ℤ_zero g.messages_shmem_bytes) (+ℤ_zero g.messages_file_bytes) (+ℤ_zero g.subscribers)
  apply-delta (add_channel n false true) =
      plus-eq _ g (delta (add_channel n false true)) refl (+ℤ_zero g.multiplexed_channels)
        (+ℤ_zero g.messages) (+ℤ_zero g.messages_shmem_bytes) (+ℤ_zero g.messages_file_bytes)
        (+ℤ_zero g.subscribers)
  apply-delta (add_channel n false false) =
      plus-eq _ g empty_group (+ℤ_zero g.channels) (+ℤ_zero g.multiplexed_channels)
        (+ℤ_zero g.messages) (+ℤ_zero g.messages_shmem_bytes) (+ℤ_zero g.messages_file_bytes)
        (+ℤ_zero g.subscribers)
  apply-delta (add_message n mem file) =
      plus-eq _ g (delta (add_message n mem file)) (+ℤ_zero g.channels)
        (+ℤ_zero g.multiplexed_channels) refl refl (by_file (ltb 0 file)) (+ℤ_zero g.subscribers)
    where
      by_file :
          (b : Bool)
          → (if b then g.messages_file_bytes +ℤ times n file else g.messages_file_bytes)
            ≡ g.messages_file_bytes +ℤ (if b then times n file else pos 0)
      by_file true = refl
      by_file false = +ℤ_zero g.messages_file_bytes
  apply-delta (add_subscribers n) =
      plus-eq _ g (delta (add_subscribers n)) (+ℤ_zero g.channels) (+ℤ_zero g.multiplexed_channels)
        (+ℤ_zero g.messages) (+ℤ_zero g.messages_shmem_bytes) (+ℤ_zero g.messages_file_bytes) refl

-- Two updates can be made in either order.
apply_comm : (a b : Update) (g : Group) → apply a (apply b g) ≡ apply b (apply a g)
apply_comm a b g =
    apply-delta (apply b g) a
    ∙ ap (λ x. plus x (delta a)) (apply-delta g b)
    ∙ plus_comm g (delta b) (delta a)
    ∙ ap (λ x. plus x (delta b)) (sym (apply-delta g a))
    ∙ sym (apply-delta (apply a g) b)

call_callbacks-last :
    (us : List Update) (u : Update) (g : Group)
    → call_callbacks (us ++ u ∷ []) g ≡ apply u (call_callbacks us g)
unfolding call_callbacks
call_callbacks-last [] u g = refl
call_callbacks-last (v ∷ us) u g = call_callbacks-last us u (apply v g)

call_callbacks_comm :
    (us : List Update) (u : Update) (g : Group)
    → call_callbacks us (apply u g) ≡ apply u (call_callbacks us g)
unfolding call_callbacks
call_callbacks_comm [] u g = refl
call_callbacks_comm (v ∷ us) u g =
    ap (call_callbacks us) (apply_comm v u g) ∙ call_callbacks_comm us u (apply v g)

-- This worker counts something, another worker counts something, or the group arrives.
pub data Event : Type 0 where
  here : Update → Event
  elsewhere : Update → Event
  receive : Event

pub run : List Event → GroupNode → GroupNode
run [] gtn = gtn
run (here u ∷ es) gtn = run es (group_update true u gtn)
run (elsewhere u ∷ es) gtn = run es (record gtn { shm_group = apply u gtn.shm_group })
run (receive ∷ es) gtn = run es (group_receive gtn)

-- All the updates of the events, made at once.
pub at_once : List Event → Group → Group
at_once [] g = g
at_once (here u ∷ es) g = at_once es (apply u g)
at_once (elsewhere u ∷ es) g = at_once es (apply u g)
at_once (receive ∷ es) g = at_once es g

-- What the group will be once the node has received it.
abbrev due : GroupNode → Group
due gtn = call_callbacks gtn.when_ready gtn.shm_group

group_update-ready :
    (u : Update) (gtn : GroupNode)
    → gtn.has_group ≡ true
    → group_update true u gtn ≡ record gtn { shm_group = apply u gtn.shm_group }
unfolding group_update
group_update-ready u gtn h = simp h refl

group_update-waiting :
    (u : Update) (gtn : GroupNode)
    → gtn.has_group ≡ false
    → group_update true u gtn ≡ record gtn { when_ready = gtn.when_ready ++ u ∷ [] }
unfolding group_update add_whenready_callback
group_update-waiting u gtn h = simp h refl

group_update-due :
    (u : Update) (gtn : GroupNode) → due (group_update true u gtn) ≡ apply u (due gtn)
group_update-due u gtn = elim (Bool-cases gtn.has_group) [
  | inl ready ↦
      ap due (group_update-ready u gtn ready) ∙ call_callbacks_comm gtn.when_ready u gtn.shm_group
  | inr waiting ↦
      ap due (group_update-waiting u gtn waiting)
      ∙ call_callbacks-last gtn.when_ready u gtn.shm_group
]

run-due : (es : List Event) (gtn : GroupNode) → due (run es gtn) ≡ at_once es (due gtn)
unfolding run at_once group_receive call_callbacks
run-due [] gtn = refl
run-due (here u ∷ es) gtn =
    run-due es (group_update true u gtn) ∙ ap (at_once es) (group_update-due u gtn)
run-due (elsewhere u ∷ es) gtn =
    run-due es (record gtn { shm_group = apply u gtn.shm_group })
    ∙ ap (at_once es) (call_callbacks_comm gtn.when_ready u gtn.shm_group)
run-due (receive ∷ es) gtn = run-due es (group_receive gtn) ∙ ap (at_once es) (received gtn)
  where
    received : (gtn : GroupNode) → due (group_receive gtn) ≡ due gtn
    received gtn = refl

-- However the updates of this worker, those of the others and the arrival of the group are interleaved, and with memory for the
-- callbacks, once the group has arrived it counts exactly what all the updates would have counted at once, as if the
-- worker had had the group from the start.
pub run-at_once :
    (es : List Event) (gtn : GroupNode)
    → gtn.when_ready ≡ []
    → ((group_receive (run es gtn)).shm_group ≡ at_once es gtn.shm_group)
      × ((group_receive (run es gtn)).when_ready ≡ [])
unfolding group_receive call_callbacks
run-at_once es gtn e =
    (run-due es gtn ∙ ap (λ us. at_once es (call_callbacks us gtn.shm_group)) e, refl)
