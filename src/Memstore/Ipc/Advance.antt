-- ===== src/Memstore/Ipc/Advance.antt =====
-- What the loop of `ipc_write_handler` does to the queue, without the overflow.
use native.Mathlib.Decide.{dec_lt}
use nchan.Prelude.{
  List, arith, drop, drop-all, false, inl, inr, length, length-drop, ltb, min, refl, some, suc,
  take, true, ℕ, ◌%◌, ◌&&◌, ◌++◌, ◌+◌, ◌-◌, ◌<◌, ◌>>=◌, ◌≡◌, ◌≤◌, ◌⊎◌,
}
use nchan.Memstore.Ipc.{
  Alert, Writebuf, advance, ipc_writebuf_size, squeeze_in, write_alerts, write_handler,
}
use nchan.Memstore.Ipc.Fifo.{Holds, Holds-drop, Holds-mod, Represents, write_alerts-Holds}

advance-all :
    (first i : ℕ) (wb : Writebuf)
    → i ≡ first + wb.n
    → advance first i wb ≡ record wb { first = 0; n = 0 }
unfolding advance
advance-all first i wb e = ground arith

advance-some :
    (first i : ℕ) (wb : Writebuf)
    → i < first + wb.n
    → advance first i wb ≡ record wb { first = i % 65536; n = wb.n - (i - first) }
unfolding advance
advance-some first i wb h = ground arith

-- The first loop and the update of the indices take the alerts written off the ring.
pub advance-Represents :
    (wb : Writebuf) (q : List Alert) (k : ℕ) (r : Represents wb q)
    → k ≤ length r.ring
    → Holds
        (advance wb.first (wb.first + k) wb).alerts
        (advance wb.first (wb.first + k) wb).first
        (drop k r.ring)
      × ((advance wb.first (wb.first + k) wb).n ≡ length (drop k r.ring))
      × ((advance wb.first (wb.first + k) wb).overflow ≡ wb.overflow)
      × ((advance wb.first (wb.first + k) wb).overflow_n ≡ wb.overflow_n)
      × ((advance wb.first (wb.first + k) wb).alerts ≡ wb.alerts)
advance-Represents wb q k r h = elim (dec_lt k wb.n) [
  | yes less ↦ rw (advance-some wb.first (wb.first + k) wb (omega arith)) (
    Holds-mod wb.alerts (wb.first + k) ((wb.first + k) % 65536) (drop k r.ring) (omega arith)
        (Holds-drop wb.alerts k wb.first r.ring h r.holds),
    omega (arith, length-drop k r.ring, r.counted),
    refl,
    refl,
    refl,
  )
  | no all ↦ rw (advance-all wb.first (wb.first + k) wb (omega (arith, r.counted))) (
    rw (drop-all k r.ring (omega (arith, r.counted))) tt,
    omega (arith, length-drop k r.ring, r.counted),
    refl,
    refl,
    refl,
  )
]

module _ (calls room : ℕ) (wb : Writebuf) (i left : ℕ) (wrote : List Alert)
    (loop : write_alerts wb.alerts wb.n wb.first room ≡ some (i, wrote, left)) where
  pub write_handler-quiet :
      (ltb 0 wb.overflow_n && ltb 0 (i - wb.first)) ≡ false
      → write_handler (suc calls) room wb ≡ some (wrote, advance wb.first i wb)
  unfolding write_handler
  write_handler-quiet quiet = rw (loop, quiet) refl

  module _ (sq : Writebuf) (more : (ltb 0 wb.overflow_n && ltb 0 (i - wb.first)) ≡ true)
      (squeeze : squeeze_in
          (ipc_writebuf_size - (advance wb.first i wb).n)
          ((advance wb.first i wb).first + (advance wb.first i wb).n)
          (advance wb.first i wb)
        ≡ some sq) where
    pub write_handler-aborted :
        ltb i (wb.first + wb.n) ≡ true → write_handler (suc calls) room wb ≡ some (wrote, sq)
    unfolding write_handler
    write_handler-aborted aborted = rw (loop, more, squeeze, aborted) refl

    pub write_handler-retry :
        ltb i (wb.first + wb.n) ≡ false
        → write_handler (suc calls) room wb
          ≡ write_handler calls left sq >>= λ r. some (wrote ++ r.0, r.1)
    unfolding write_handler
    write_handler-retry done = rw (loop, more, squeeze, done) refl

pub cond-false : (o d : ℕ) → (o ≡ 0) ⊎ (d ≡ 0) → (ltb 0 o && ltb 0 d) ≡ false
cond-false o d (inl e) = ground arith
cond-false o d (inr e) = ground arith

pub cond-true : (o d : ℕ) → 0 < o → 0 < d → (ltb 0 o && ltb 0 d) ≡ true
cond-true o d h k = ground arith

pub ge→ltb : (a b : ℕ) → b ≤ a → ltb a b ≡ false
ge→ltb a b h = ground arith

-- The loop for the buffer of a queue.
pub loop-Represents :
    (wb : Writebuf) (q : List Alert) (room : ℕ) (r : Represents wb q)
    → write_alerts wb.alerts wb.n wb.first room
      ≡ some (wb.first + min room (length r.ring), take room r.ring, room - length r.ring)
loop-Represents wb q room r =
    rw r.counted (write_alerts-Holds wb.alerts r.ring wb.first room r.holds)
