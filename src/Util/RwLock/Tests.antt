-- ===== src/Util/RwLock/Tests.antt =====
-- Three processes that want the lock, and uses of the theorems.
use nchan.Prelude.{Bool, List, arith, false, refl, replicate, true, ℕ, ◌++◌, ◌≡◌, ◌≢◌}
use nchan.Prelude.Int.{pos, ◌+ℤ◌}
use nchan.Util.RwLock.{run, rwlock_init, unread_skip, unwrite_skip}
use nchan.Util.RwLock.Totals.{total}
use nchan.Util.RwLock.Invariant.{Counts, reads, writes}
use nchan.Util.RwLock.Exclusion.{run-Counts, run-exclusive}

abbrev turns : ℕ → Bool × ℕ → List (Bool × ℕ)
turns n t = replicate n t

-- The process 0 reserves the lock for writing while 1 and 2 try to read.
abbrev schedule : List (Bool × ℕ)
schedule = turns 3 (false, 0) ++ (turns 4 (true, 1) ++ (turns 5 (false, 0) ++ turns 6 (true, 2)))

run-exclusive_example :
    (writes ((run 3 schedule rwlock_init).pc 1) ≡ 0)
    × (reads ((run 3 schedule rwlock_init).pc 1) ≡ 0)
unfolding run
run-exclusive_example = run-exclusive 3 schedule 0 1 (omega arith) (omega arith) (omega arith) refl

run-Counts_example :
    Counts (pos 2) 2 0
    × ((run 3 (turns 7 (true, 1) ++ turns 8 (true, 2)) rwlock_init).pc 1 ≢ unread_skip)
    × ((run 3 (turns 7 (true, 1) ++ turns 8 (true, 2)) rwlock_init).pc 1 ≢ unwrite_skip)
unfolding run total ◌+ℤ◌
run-Counts_example = run-Counts 3 (turns 7 (true, 1) ++ turns 8 (true, 2)) 1
