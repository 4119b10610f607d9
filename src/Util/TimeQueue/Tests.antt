-- ===== src/Util/TimeQueue/Tests.antt =====
-- A time queue with two items to a page, and a use of its theorem.
use nchan.Prelude.{List, arith, false, inl, refl, some, true, ℕ, [], ◌∷◌, ◌≡◌}
use nchan.Prelude.Int.{negsuc, pos}
use nchan.Util.TimeQueue.{Item, TimeQueue}
use nchan.Util.TimeQueue.Correct.{IsValid, contents}
use nchan.Util.TimeQueue.Dequeue.{
  Answer, Op, dequeue, dequeued, fifo_run, queue, queued, run, run-fifo_run,
}

abbrev item : ℕ → ℕ → Item
item t tag = record { time_start = t; tag = pos tag }

abbrev empty_slots : List Item
empty_slots = item 0 0 ∷ item 0 0 ∷ []

-- One item is left on a full page.
abbrev two_pages : TimeQueue
two_pages = record {
  items_per_page = 2;
  anytag = negsuc 0;
  front = record { start = 1; end = 2; slots = item 1 5 ∷ item 2 6 ∷ [] } ∷ [];
  last = record { start = 0; end = 2; slots = item 3 7 ∷ item 4 8 ∷ [] };
  standby = [];
}

two_pages-IsValid : IsValid two_pages
two_pages-IsValid = record {
  sized = (omega arith, omega arith);
  front = ((omega arith, omega arith, refl), tt);
  last = (inl (omega arith), omega arith, refl);
  standby = tt;
}

abbrev ops : List Op
ops =
    dequeue (pos 9)
    ∷ dequeue (pos 6)
    ∷ queue empty_slots 5 (pos 9)
    ∷ dequeue (negsuc 0)
    ∷ dequeue (pos 8)
    ∷ queue empty_slots 6 (pos 4)
    ∷ []

abbrev answers : List Answer
answers =
    dequeued false (item 2 6)
    ∷ dequeued true (item 2 6)
    ∷ queued true
    ∷ dequeued true (item 3 7)
    ∷ dequeued true (item 4 8)
    ∷ queued true
    ∷ []

run-fifo_run_example :
    (pq' : TimeQueue) × (run ops two_pages ≡ some (answers, pq'))
    × IsValid pq'
    × (contents pq' ≡ item 5 9 ∷ item 6 4 ∷ [])
unfolding fifo_run
run-fifo_run_example =
    run-fifo_run ops two_pages two_pages-IsValid (tt, (tt, (refl, (tt, (tt, (refl, tt))))))
