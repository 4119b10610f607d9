-- ===== src/Util/TimeQueue/Dequeue.antt =====
-- Dequeueing takes the first item, and with it a time queue is a first-in first-out queue.
use nchan.Util.TimeQueue.Fifo.{IsAnswer, dequeue_any, fifo_dequeue}
use nchan.Prelude.{
  All, Bool, List, Option, ap, inr, length, refl, some, subst, sym, true, ℕ, [], ◌++◌, ◌>>=◌, ◌∙◌,
  ◌∷◌, ◌≡◌,
}
use nchan.Prelude.Int.{ℤ}
use nchan.Util.TimeQueue.{Item, TimeQueue, timequeue_dequeue, timequeue_queue}
use nchan.Util.TimeQueue.Correct.{IsValid, contents, timequeue_queue-IsQueue}

-- A time queue that is used in any order, where memory for a page is granted whenever it is asked for.
pub data Op : Type 0 where
  queue : List Item → ℕ → ℤ → Op
  dequeue : ℤ → Op

-- What a call answers: whether it did, and what it wrote to `dequeued`.
pub data Answer : Type 0 where
  queued : Bool → Answer
  dequeued : Bool → Item → Answer

abbrev after_queue :
    Bool × TimeQueue
    → (TimeQueue → Option (List Answer × TimeQueue))
    → Option (List Answer × TimeQueue)
after_queue (done, pq) more = more pq >>= λ r. some (queued done ∷ r.0, r.1)

pub run : List Op → TimeQueue → Option (List Answer × TimeQueue)
run [] pq = some ([], pq)
run (queue slots now tag ∷ ops) pq = after_queue (timequeue_queue (some slots) now tag pq) (run ops)
run (dequeue expected ∷ ops) pq = do
  d ← timequeue_dequeue expected pq
  r ← run ops d.2
  some (dequeued d.0 d.1 ∷ r.0, r.1)

-- The same calls of a sequence.
unfoldable pub fifo_run : ℤ → List Op → List Item → List Answer × List Item
fifo_run anytag [] xs = ([], xs)
fifo_run anytag (queue slots now tag ∷ ops) xs =
    let r = fifo_run anytag ops (xs ++ record { time_start = now; tag = tag } ∷ []) in
    (queued true ∷ r.0, r.1)
fifo_run anytag (dequeue expected ∷ ops) xs =
    let d = fifo_dequeue anytag expected xs in
    let r = fifo_run anytag ops d.2 in (dequeued d.0 d.1 ∷ r.0, r.1)

abbrev pub HasSlots : ℕ → Op → Type 0
HasSlots n (queue slots now tag) = length slots ≡ n
HasSlots n (dequeue expected) = Unit

abbrev Runs : ℤ → List Op → TimeQueue → List Item → Type 0
Runs a ops pq xs =
    (pq' : TimeQueue) × (run ops pq ≡ some ((fifo_run a ops xs).0, pq'))
    × IsValid pq'
    × (contents pq' ≡ (fifo_run a ops xs).1)

run_after_queue :
    (a : ℤ) (ops : List Op) (pq pq' : TimeQueue) (xs : List Item) (slots : List Item) (now : ℕ)
    (tag : ℤ)
    → timequeue_queue (some slots) now tag pq ≡ (true, pq')
    → Runs a ops pq' (xs ++ record { time_start = now; tag = tag } ∷ [])
    → Runs a (queue slots now tag ∷ ops) pq xs
unfolding run fifo_run
run_after_queue a ops pq pq' xs slots now tag done (pq'', ran, valid, left) = (
  pq'',
  ap (λ r. after_queue r (run ops)) done
      ∙ ap (λ r. r >>= λ r'. some (queued true ∷ r'.0, r'.1)) ran,
  valid,
  left,
)

run_after_dequeue :
    (a expected : ℤ) (ops : List Op) (pq pq' : TimeQueue) (xs : List Item)
    → timequeue_dequeue expected pq
      ≡ some ((fifo_dequeue a expected xs).0, (fifo_dequeue a expected xs).1, pq')
    → Runs a ops pq' (fifo_dequeue a expected xs).2
    → Runs a (dequeue expected ∷ ops) pq xs
unfolding run fifo_run
run_after_dequeue a expected ops pq pq' xs done (pq'', ran, valid, left) =
    (pq'', rw (done, ran) refl, valid, left)

run-Runs :
    (a : ℤ) (n : ℕ) (ops : List Op) (pq : TimeQueue) (xs : List Item)
    → pq.anytag ≡ a
    → pq.items_per_page ≡ n
    → IsValid pq
    → contents pq ≡ xs
    → All (HasSlots n) ops
    → Runs a ops pq xs
unfolding IsAnswer
run-Runs a n [] pq xs any size wf e h = unfold run fifo_run in (pq, refl, wf, e)
run-Runs a n (queue slots now tag ∷ ops) pq xs any size wf e (room, h) =
    let (pq', done, q) =
      timequeue_queue-IsQueue (some slots) now tag pq wf (inr (slots, refl, room ∙ sym size)) in
    run_after_queue a ops pq pq' xs slots now tag done (
      run-Runs a n ops pq' (xs ++ record { time_start = now; tag = tag } ∷ []) (q.tag ∙ any)
        (q.same ∙ size) q.valid
        (q.holds ∙ ap (λ l. l ++ record { time_start = now; tag = tag } ∷ []) e) h)
run-Runs a n (dequeue expected ∷ ops) pq xs any size wf e (room, h) =
    let (pq', done, q) = answer in
    run_after_dequeue a expected ops pq pq' xs done (
      run-Runs a n ops pq' (fifo_dequeue a expected xs).2 (q.tag ∙ any) (q.same ∙ size) q.valid
        q.holds h)
  where
    answer : IsAnswer pq (fifo_dequeue a expected xs) (timequeue_dequeue expected pq)
    answer =
        subst (λ l. IsAnswer pq (fifo_dequeue a expected l) (timequeue_dequeue expected pq)) e
          (subst
            (λ t.
              IsAnswer pq (fifo_dequeue t expected (contents pq)) (timequeue_dequeue expected pq))
            any
            (dequeue_any pq.items_per_page pq.anytag pq.front pq.last pq.standby expected wf
              wf.last.0))

-- Whatever calls are made of a time queue whose pages are in order, with memory granted for the pages, they answer what
-- those of a first-in first-out queue of the items it holds do, no read is outside the slots of a page, and the queue is left
-- in order with the items that the other has left.
pub run-fifo_run :
    (ops : List Op) (pq : TimeQueue)
    → IsValid pq
    → All (HasSlots pq.items_per_page) ops
    → (pq' : TimeQueue) × (run ops pq ≡ some ((fifo_run pq.anytag ops (contents pq)).0, pq'))
      × IsValid pq'
      × (contents pq' ≡ (fifo_run pq.anytag ops (contents pq)).1)
run-fifo_run ops pq wf h =
    run-Runs pq.anytag pq.items_per_page ops pq (contents pq) refl refl wf refl h
