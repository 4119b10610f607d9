-- ===== src/Memstore/Publish/Reading.antt =====
-- What a channel whose buffer is in order answers to a subscriber, `chanhead_find_next_message`.
use nchan.Memstore.Buffer.Find.Deliver.{AllRegular}
use nchan.Prelude.{
  List, Option, ap, arith, if◌then◌else◌, none, refl, some, true, [], ◌==◌, ◌||◌, ◌∙◌, ◌∷◌, ◌≡◌,
}
use nchan.Prelude.Int.{eqb_ℤ, pos, ℤ}
use nchan.Msg.Id.{MsgId, oldest_msgid_time}
use nchan.Memstore.Message.{Message, fixed_0}
use nchan.Memstore.Buffer.{
  Chanhead, MsgStatus, chanhead_find_next_message, find_in_buffer, found_or_expected,
  memstore_chanhead_messages_gc, msg_expected, msg_notfound,
}
use nchan.Memstore.Buffer.Collected.{newest, unexpired}
use nchan.Memstore.Buffer.Gc.{memstore_gc-Collected}
use nchan.Memstore.Buffer.Find.{
  IsRegular, IsSorted, find_in_buffer-empty, find_in_buffer-next_after, next_after,
}
use nchan.Memstore.Publish.Order.{IsOrdered, gc-IsOrdered}

-- The answer from the messages that are kept: the oldest newer one, or what is said of an empty buffer.
abbrev pub answer : ℤ → MsgId → List Message → MsgStatus × Option Message
answer max id [] =
    if eqb_ℤ id.time oldest_msgid_time || eqb_ℤ max (pos 0)
    then (msg_expected, none)
    else (msg_notfound, none)
answer max id (m ∷ ms) = found_or_expected (next_after id.time (fixed_0 id.tag) (m ∷ ms))

find_in_buffer-answer :
    (max : ℤ) (ms : List Message) (id : MsgId)
    → IsSorted ms
    → AllRegular ms
    → IsRegular id
    → find_in_buffer max ms id ≡ some (answer max id ms)
find_in_buffer-answer max [] id s r reg = find_in_buffer-empty max id
find_in_buffer-answer max (m ∷ ms) id s r reg = find_in_buffer-next_after max m ms id s r.0.one reg

find-eq :
    (now : ℤ) (ch : Chanhead) (id : MsgId) (found : MsgStatus × Option Message)
    → ch.msg_buffer_complete ≡ true
    → ch.owner ≡ ch.slot
    → find_in_buffer ch.max_messages (memstore_chanhead_messages_gc now ch).messages id ≡ some found
    → chanhead_find_next_message now ch id ≡ some (found, memstore_chanhead_messages_gc now ch)
unfolding chanhead_find_next_message
find-eq now ch id found complete own e = simp (complete, same, e) refl
  where
    same : (ch.owner == ch.slot) ≡ true
    same = ground arith

-- On the owner, when the buffer is complete and in order, a subscriber at a regular id is answered from
-- what a collection keeps of the buffer: with the oldest message that is newer than the id, or that one
-- is expected, or, of an empty buffer, that one is expected for the oldest id or where nothing is
-- buffered, and else that the place is not found. No assertion fails then, and the buffer that is left
-- is in order.
pub chanhead_find_next_message-answer :
    (now : ℤ) (ch : Chanhead) (id : MsgId)
    → ch.msg_buffer_complete ≡ true
    → ch.owner ≡ ch.slot
    → IsOrdered ch
    → IsRegular id
    → (ch' : Chanhead) × (chanhead_find_next_message now ch id
        ≡ some
            (answer ch.max_messages id (unexpired now (newest ch.max_messages ch.messages)), ch'))
      × (ch'.messages ≡ unexpired now (newest ch.max_messages ch.messages))
      × IsOrdered ch'
chanhead_find_next_message-answer now ch id complete own wf reg =
    let ch' = memstore_chanhead_messages_gc now ch in
    let kept = (memstore_gc-Collected now ch own wf.counted).messages in
    let wf' = gc-IsOrdered now ch own wf in
    (
      ch',
      find-eq now ch id
          (answer ch.max_messages id (unexpired now (newest ch.max_messages ch.messages))) complete
          own
          (find_in_buffer-answer ch.max_messages ch'.messages id wf'.sorted wf'.regular reg
            ∙ ap (λ ms. some (answer ch.max_messages id ms)) kept),
      kept,
      wf',
    )
