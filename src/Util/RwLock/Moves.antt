-- ===== src/Util/RwLock/Moves.antt =====
-- What a step of one process keeps.
use nchan.Prelude.{Bool, arith, false, suc, true, ℕ, ◌+◌, ◌≡◌, ◌≢◌, ◌≤◌}
use nchan.Prelude.Int.{ℤ, ◌+ℤ◌, ◌-ℤ◌}
use nchan.Util.RwLock.{Pc, RwLock, idle, move}
use nchan.Util.RwLock.Invariant.{Counts, HasSeen, in_mutex, reads, writes}

module _ (to_read : Bool) (i : ℕ) (l : RwLock) where
  abbrev pub after : Pc → RwLock
  unfolding move
  after p = (move to_read (suc i) l p).0

  abbrev pub next : Pc → Pc
  unfolding move
  next p = (move to_read (suc i) l p).1

  pub move-Counts :
      (p : Pc) (r w r' w' : ℕ)
      → Counts l.lock r w
      → HasSeen l.lock p
      → reads p ≤ r
      → writes p ≤ w
      → r' + reads p ≡ r + reads (next p)
      → w' + writes p ≡ w + writes (next p)
      → Counts (after p).lock r' w'
  unfolding move ◌+ℤ◌ ◌-ℤ◌
  move-Counts idle r w r' w' c s hr hw er ew = ground arith
  move-Counts p r w r' w' c s hr hw er ew = ground arith

  pub move-HasSeen :
      (p : Pc) (r w : ℕ)
      → Counts l.lock r w
      → HasSeen l.lock p
      → reads p ≤ r
      → writes p ≤ w
      → HasSeen (after p).lock (next p)
  unfolding move
  move-HasSeen idle r w c s hr hw = ground arith
  move-HasSeen p r w c s hr hw = ground arith

  pub move-owner :
      (p : Pc)
      → (in_mutex p ≡ true → l.mutex ≡ suc i)
      → in_mutex (next p) ≡ true
      → (after p).mutex ≡ suc i
  unfolding move
  move-owner idle own h = ground arith
  move-owner p own h = ground arith

  pub move-others :
      (p : Pc) (j : ℕ)
      → (in_mutex p ≡ true → l.mutex ≡ suc i)
      → j ≢ i
      → l.mutex ≡ suc j
      → (after p).mutex ≡ suc j
  unfolding move
  move-others idle j own ne h = ground arith
  move-others p j own ne h = ground arith

  -- The lock is written by the process that has the mutex only.
  pub move-lock : (p : Pc) → in_mutex p ≡ false → (after p).lock ≡ l.lock
  unfolding move
  move-lock idle h = ground arith
  move-lock p h = ground arith

-- A process without the mutex has seen nothing.
pub HasSeen-outside : (lock : ℤ) (p : Pc) → in_mutex p ≡ false → HasSeen lock p
HasSeen-outside lock idle h = tt
HasSeen-outside lock p h = ground arith
