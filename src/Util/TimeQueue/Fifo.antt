-- ===== src/Util/TimeQueue/Fifo.antt =====
-- Dequeuing, against taking from a sequence.
use nchan.Prelude.{
  Bool, Bool-cases, List, Option, ap, append_assoc, arith, false, get_elem?, if◌then◌else◌, inl,
  inr, leb, leb→le, not, refl, some, suc, sym, true, ℕ, [], ◌%◌, ◌&&◌, ◌++◌, ◌<◌, ◌==◌, ◌^◌, ◌∙◌,
  ◌∷◌, ◌≡◌, ◌⊎◌,
}
use nchan.Prelude.Int.{eqb_ℤ, ℤ}
use nchan.Util.TimeQueue.{Item, Page, TimeQueue, advance, first, timequeue_dequeue}
use nchan.Util.TimeQueue.Slices.{slice, slice-empty, slice-pop}
use nchan.Util.TimeQueue.Correct.{IsQueue, IsValid, contents, items, items_of}

-- What a first-in first-out queue answers, and what it then holds.
abbrev pub fifo_dequeue : ℤ → ℤ → List Item → Bool × Item × List Item
fifo_dequeue anytag expected [] = (false, record { time_start = 0; tag = anytag }, [])
fifo_dequeue anytag expected (x ∷ xs) =
    if not (eqb_ℤ expected x.tag) && not (eqb_ℤ expected anytag)
    then (false, x, x ∷ xs)
    else (true, x, xs)

abbrev queue_of : ℕ → ℤ → List Page → Page → List Page → TimeQueue
queue_of n anytag front last standby = record {
  items_per_page = n;
  anytag = anytag;
  front = front;
  last = last;
  standby = standby;
}

-- After the first item was taken.
advance-IsQueue :
    (n : ℕ) (a : ℤ) (front : List Page) (last : Page) (standby : List Page)
    → IsValid (queue_of n a front last standby)
    → (first front last).start < (first front last).end
    → (x : Item) × (xs : List Item) × (get_elem? (first front last).slots (first front last).start
        ≡ some x)
      × (contents (queue_of n a front last standby) ≡ x ∷ xs)
      × IsQueue
          (queue_of n a front last standby)
          (advance (queue_of n a front last standby) front)
          xs
advance-IsQueue n a [] last standby wf some_left =
    let (x, there, cut) =
      slice-pop last.slots last.start last.end some_left (omega (arith, wf.last.1, wf.last.2)) in
    (
      x,
      slice (suc last.start) last.end last.slots,
      there,
      cut,
      rw unwrapped (elim (Bool-cases (leb last.end (suc last.start))) [
        | inl done ↦ rw done (record {
          same = refl;
          tag = refl;
          valid = record {
            sized = wf.sized;
            front = tt;
            last = (inr (refl, refl), omega arith, wf.last.2);
            standby = wf.standby;
          };
          holds =
              slice-empty last.slots 0 0 (omega arith)
              ∙ sym (slice-empty last.slots (suc last.start) last.end (leb→le _ _ done));
        })
        | inr more ↦ rw more (record {
          same = refl;
          tag = refl;
          valid = record {
            sized = wf.sized;
            front = tt;
            last = (inl (ground arith), wf.last.1, wf.last.2);
            standby = wf.standby;
          };
          holds = refl;
        })
      ]),
    )
  where
    unwrapped : suc last.start % 2 ^ 16 ≡ suc last.start
    unwrapped = omega (arith, wf.last.1, wf.sized.1)
advance-IsQueue n a (p ∷ ps) last standby wf some_left =
    let (x, there, cut) =
      slice-pop p.slots p.start p.end some_left (omega (arith, wf.front.0.1, wf.front.0.2)) in
    (
      x,
      slice (suc p.start) p.end p.slots ++ (items_of ps ++ items last),
      there,
      append_assoc (items p) (items_of ps) (items last)
          ∙ ap (λ l. l ++ (items_of ps ++ items last)) cut,
      rw unwrapped (elim (Bool-cases (leb p.end (suc p.start))) [
        | inl done ↦ rw done (record {
          same = refl;
          tag = refl;
          valid = record {
            sized = wf.sized;
            front = wf.front.1;
            last = wf.last;
            standby = ((refl, refl, wf.front.0.2), wf.standby);
          };
          holds =
              ap (λ l. l ++ (items_of ps ++ items last))
                (sym (slice-empty p.slots (suc p.start) p.end (leb→le _ _ done)));
        })
        | inr more ↦ rw more (record {
          same = refl;
          tag = refl;
          valid = record {
            sized = wf.sized;
            front = ((ground arith, wf.front.0.1, wf.front.0.2), wf.front.1);
            last = wf.last;
            standby = wf.standby;
          };
          holds = append_assoc (slice (suc p.start) p.end p.slots) (items_of ps) (items last);
        })
      ]),
    )
  where
    unwrapped : suc p.start % 2 ^ 16 ≡ suc p.start
    unwrapped = omega (arith, wf.front.0.1, wf.sized.1)

-- The answer that the code gives from the first page.
unfoldable pub IsAnswer :
    TimeQueue → Bool × Item × List Item → Option (Bool × Item × TimeQueue) → Type 0
IsAnswer pq (taken, x, xs) r = (pq' : TimeQueue) × (r ≡ some (taken, x, pq')) × IsQueue pq pq' xs

unchanged : (pq : TimeQueue) → IsValid pq → IsQueue pq pq (contents pq)
unchanged pq wf = record { same = refl; tag = refl; valid = wf; holds = refl }

dequeue_some :
    (n : ℕ) (a : ℤ) (front : List Page) (last : Page) (standby : List Page) (expected : ℤ)
    → IsValid (queue_of n a front last standby)
    → (first front last).start < (first front last).end
    → IsAnswer
        (queue_of n a front last standby)
        (fifo_dequeue a expected (contents (queue_of n a front last standby)))
        (timequeue_dequeue expected (queue_of n a front last standby))
unfolding IsAnswer timequeue_dequeue
dequeue_some n a front last standby expected wf some_left =
    let (x, xs, there, holds, queue) = advance-IsQueue n a front last standby wf some_left in
    rw (holds, not_empty, there)
      (elim (Bool-cases (not (eqb_ℤ expected x.tag) && not (eqb_ℤ expected a))) [
        | inl other ↦ rw other (
          queue_of n a front last standby,
          refl,
          record { same = refl; tag = refl; valid = wf; holds = holds },
        )
        | inr mine ↦ rw mine (advance (queue_of n a front last standby) front, refl, queue)
      ])
  where
    not_empty :
        ((first front last).start == (first front last).end && (first front last).start == 0)
        ≡ false
    not_empty = ground arith

pub dequeue_any :
    (n : ℕ) (a : ℤ) (front : List Page) (last : Page) (standby : List Page) (expected : ℤ)
    → IsValid (queue_of n a front last standby)
    → ((last.start < last.end) ⊎ ((last.start ≡ 0) × (last.end ≡ 0)))
    → IsAnswer
        (queue_of n a front last standby)
        (fifo_dequeue a expected (contents (queue_of n a front last standby)))
        (timequeue_dequeue expected (queue_of n a front last standby))
unfolding IsAnswer timequeue_dequeue
dequeue_any n a [] last standby expected wf (inl some_left) =
    dequeue_some n a [] last standby expected wf some_left
dequeue_any n a [] last standby expected wf (inr (start, end)) =
    rw (nothing, empty)
      (
        queue_of n a [] last standby,
        refl,
        record { same = refl; tag = refl; valid = wf; holds = nothing },
      )
  where
    empty : (last.start == last.end && last.start == 0) ≡ true
    empty = ground arith

    nothing : items last ≡ []
    nothing = slice-empty last.slots last.start last.end (omega arith)
dequeue_any n a (p ∷ ps) last standby expected wf some_left =
    dequeue_some n a (p ∷ ps) last standby expected wf wf.front.0.0
