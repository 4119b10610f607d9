-- ===== src/Memstore/Ipc/Handler.antt =====
-- What `ipc_write_handler` does to the queue that a write buffer stands for.
use nchan.Memstore.Ipc.Advance.{
  advance-Represents, cond-false, cond-true, ge→ltb, loop-Represents, write_handler-aborted,
  write_handler-quiet, write_handler-retry,
}
use native.Mathlib.Decide.{dec_lt}
use nchan.Prelude.{
  List, ap, append-nil, ap₂, arith, drop, drop-all, drop-append_ge, drop-append_le, inl, inr,
  length, length-drop, lt→ltb, min, refl, some, subst, suc, sym, take, take-all, take-append_ge,
  take-append_le, zero, ℕ, [], ◌++◌, ◌+◌, ◌-◌, ◌<◌, ◌>>=◌, ◌∙◌, ◌∷◌, ◌≡◌, ◌≤◌, ◌⊎◌,
}
use nchan.Memstore.Ipc.{
  Alert, Writebuf, advance, ipc_writebuf_size, squeeze_in, write_alerts, write_handler,
}
use nchan.Memstore.Ipc.Fifo.{Represents, squeeze_in-Represents}

-- With an overflow, the ring is full.
full : (wb : Writebuf) (q : List Alert) → Represents wb q → 0 < wb.overflow_n → wb.n ≡ 32
full wb q r h = elim (dec_lt wb.n 32) [
  | yes less ↦ absurd (omega (arith, r.overflow_full less))
  | no more ↦ omega (arith, r.fits)
]

-- The buffer once the loop is done, and the overflow was moved up into the ring.
refill :
    (wb : Writebuf) (q : List Alert) (k : ℕ) (r : Represents wb q)
    → k ≤ length r.ring
    → 0 < wb.overflow_n
    → (sq : Writebuf) × (squeeze_in
          (ipc_writebuf_size - (advance wb.first (wb.first + k) wb).n)
          ((advance wb.first (wb.first + k) wb).first + (advance wb.first (wb.first + k) wb).n)
          (advance wb.first (wb.first + k) wb)
        ≡ some sq)
      × Represents sq (drop k r.ring ++ wb.overflow)
      × (sq.overflow_n ≡ wb.overflow_n - k)
refill wb q k r h some_left =
    let wb' = advance wb.first (wb.first + k) wb in
    let (held, count, over, over_n, same) = advance-Represents wb q k r h in
    let (sq, e, rep, left) =
      squeeze_in-Represents (ipc_writebuf_size - wb'.n) (wb'.first + wb'.n) wb' (drop k r.ring)
        wb.overflow over refl held count (omega (arith, r.fits, r.counted, length-drop k r.ring))
        (over_n ∙ r.overflow_counted) (omega arith) (ap length same ∙ r.size) in
    (sq, e, rep, omega (arith, full wb q r some_left, r.counted, length-drop k r.ring))

-- Nothing is left over: the buffer after the loop.
settle :
    (wb : Writebuf) (q : List Alert) (k : ℕ) (r : Represents wb q)
    → k ≤ length r.ring
    → (wb.overflow_n ≡ 0) ⊎ (k ≡ 0)
    → Represents (advance wb.first (wb.first + k) wb) (drop k r.ring ++ wb.overflow)
settle wb q k r h quiet =
    let (held, count, over, over_n, same) = advance-Represents wb q k r h in
    record {
      ring = drop k r.ring;
      whole = rw over refl;
      holds = held;
      counted = count;
      fits = omega (arith, r.fits, r.counted, length-drop k r.ring);
      overflow_counted = over_n ∙ r.overflow_counted ∙ sym (ap length over);
      overflow_full = λ less. over_n ∙ (elim quiet [
        | inl z ↦ z
        | inr z ↦ r.overflow_full (omega (arith, r.counted, length-drop k r.ring))
      ]);
      size = ap length same ∙ r.size;
    }

pub nothing_over :
    (wb : Writebuf) (q : List Alert) → Represents wb q → wb.overflow_n ≡ 0 → wb.overflow ≡ []
nothing_over wb q r z = by_length wb.overflow (sym r.overflow_counted ∙ z)
  where
    by_length : (o : List Alert) → length o ≡ 0 → o ≡ []
    by_length [] e = refl
    by_length (a ∷ o) e = absurd (omega arith)

module _ (calls room : ℕ) (wb : Writebuf) (q : List Alert) (r : Represents wb q) where
  -- What one call does: the result in each of the cases of the overflow.
  Takes : ℕ → Type 0
  Takes n =
      (wb' : Writebuf) × (write_handler (suc calls) room wb ≡ some (take n q, wb'))
      × Represents wb' (drop n q)

  loop_at :
      (k : ℕ)
      → k ≡ min room (length r.ring)
      → write_alerts wb.alerts wb.n wb.first room
        ≡ some (wb.first + k, take room r.ring, room - length r.ring)
  loop_at k e =
      loop-Represents wb q room r
      ∙ ap (λ j. some (wb.first + j, take room r.ring, room - length r.ring)) (sym e)

  -- The pipe fills up before the ring is empty.
  short-quiet : room < length r.ring → (wb.overflow_n ≡ 0) ⊎ (room ≡ 0) → Takes room
  unfolding Takes
  short-quiet short quiet =
      rw
        (
          r.whole,
          take-append_le room r.ring wb.overflow (omega arith),
          drop-append_le room r.ring wb.overflow (omega arith),
        )
        (
          advance wb.first (wb.first + room) wb,
          write_handler-quiet calls room wb (wb.first + room) (room - length r.ring)
              (take room r.ring) (loop_at room (omega arith))
              (cond-false wb.overflow_n (wb.first + room - wb.first) (difference quiet)),
          settle wb q room r (omega arith) quiet,
        )
    where
      difference :
          (wb.overflow_n ≡ 0) ⊎ (room ≡ 0) → (wb.overflow_n ≡ 0) ⊎ (wb.first + room - wb.first ≡ 0)
      difference (inl z) = inl z
      difference (inr z) = inr (omega arith)

  short-refill : room < length r.ring → 0 < wb.overflow_n → 0 < room → Takes room
  unfolding Takes
  short-refill short over some_room =
      let (sq, squeeze, rep, left) = refill wb q room r (omega arith) over in
      rw
        (
          r.whole,
          take-append_le room r.ring wb.overflow (omega arith),
          drop-append_le room r.ring wb.overflow (omega arith),
        )
        (
          sq,
          write_handler-aborted calls room wb (wb.first + room) (room - length r.ring)
              (take room r.ring) (loop_at room (omega arith)) sq
              (cond-true wb.overflow_n (wb.first + room - wb.first) over (omega arith)) squeeze
              (lt→ltb (wb.first + room) (wb.first + wb.n) (omega (arith, r.counted))),
          rep,
        )

  -- All of the ring is written.
  whole-quiet : length r.ring ≤ room → wb.overflow_n ≡ 0 → Takes room
  unfolding Takes
  whole-quiet enough z =
      let n = length r.ring in
      let none_over = nothing_over wb q r z in
      let exact : q ≡ r.ring = r.whole ∙ ap (λ o. r.ring ++ o) none_over ∙ append-nil r.ring in
      rw exact (
        advance wb.first (wb.first + n) wb,
        write_handler-quiet calls room wb (wb.first + n) (room - n) (take room r.ring)
            (loop_at n (omega arith)) (cond-false wb.overflow_n (wb.first + n - wb.first) (inl z)),
        subst (Represents (advance wb.first (wb.first + n) wb))
            (ap₂ (λ a b. a ++ b)
                (drop-all n r.ring (omega arith) ∙ sym (drop-all room r.ring enough)) none_over
              ∙ append-nil (drop room r.ring))
            (settle wb q n r (omega arith) (inl z)),
      )

  whole-retry :
      length r.ring ≤ room
      → 0 < wb.overflow_n
      → ((sq : Writebuf) (o : List Alert)
          → Represents sq o
          → sq.overflow_n < calls
          → (wb' : Writebuf) × (write_handler calls (room - length r.ring) sq
              ≡ some (take (room - length r.ring) o, wb'))
            × Represents wb' (drop (room - length r.ring) o))
      → wb.overflow_n < suc calls
      → Takes room
  unfolding Takes
  whole-retry enough over again bound =
      let n = length r.ring in
      let (sq, squeeze, rep, left) = refill wb q n r (omega arith) over in
      let nothing : drop n r.ring ++ wb.overflow ≡ wb.overflow =
        ap (λ l. l ++ wb.overflow) (drop-all n r.ring (omega arith)) in
      let (wb', rest, rep') =
        again sq wb.overflow (subst (Represents sq) nothing rep)
          (omega (arith, full wb q r over, r.counted)) in
      rw
        (
          r.whole,
          take-append_ge room r.ring wb.overflow enough,
          drop-append_ge room r.ring wb.overflow enough,
        )
        (
          wb',
          write_handler-retry calls room wb (wb.first + n) (room - n) (take room r.ring)
                (loop_at n (omega arith)) sq
                (cond-true wb.overflow_n (wb.first + n - wb.first) over
                  (omega (arith, full wb q r over, r.counted)))
                squeeze (ge→ltb (wb.first + n) (wb.first + wb.n) (omega (arith, r.counted)))
              ∙ ap (λ m. m >>= λ p. some (take room r.ring ++ p.0, p.1)) rest
              ∙ ap (λ l. some (l ++ take (room - n) wb.overflow, wb'))
                  (take-all room r.ring enough),
          rep',
        )

-- The write handler, in whatever state the buffer of a queue is, ends within one call more than there are alerts in the
-- overflow. It writes the front of the queue in order, as many alerts as the pipe has room for, and
-- the buffer then stands for the rest of the queue.
pub write_handler-take :
    (calls room : ℕ) (wb : Writebuf) (q : List Alert)
    → Represents wb q
    → wb.overflow_n < calls
    → (wb' : Writebuf) × (write_handler calls room wb ≡ some (take room q, wb'))
      × Represents wb' (drop room q)
unfolding Takes
write_handler-take zero room wb q r h = absurd (omega arith)
write_handler-take (suc calls) room wb q r h = elim (dec_lt room (length r.ring)) [
  | yes short ↦ elim (dec_lt 0 wb.overflow_n) [
    | no none_left ↦ short-quiet calls room wb q r short (inl (omega arith))
    | yes over ↦ elim (dec_lt 0 room) [
      | no none_room ↦ short-quiet calls room wb q r short (inr (omega arith))
      | yes some_room ↦ (short-refill calls room wb q r short over some_room)
    ]
  ]
  | no enough ↦ elim (dec_lt 0 wb.overflow_n) [
    | no none_left ↦ (whole-quiet calls room wb q r (omega arith) (omega arith))
    | yes over ↦
        (whole-retry calls room wb q r (omega arith) over
          (λ sq o rep less. write_handler-take calls (room - length r.ring) sq o rep less) h)
  ]
]
