-- ===== src/Util/RwLock.antt =====
-- The reader-writer lock in shared memory, store/ngx_rwlock.c, as the processes use it: an access to
-- shared memory at a time, in any order. A process that waits is one that takes the same step again.
pub mod Totals
pub mod Invariant
pub mod Moves
pub mod Exclusion
mod Tests
use nchan.Prelude.{Bool, List, if◌then◌else◌, ltb, not, suc, ℕ, [], ◌&&◌, ◌==◌, ◌∷◌}
use nchan.Prelude.Int.{eqb_ℤ, negsuc, pos, ℤ, ◌+ℤ◌, ◌-ℤ◌}

-- `ngx_rwlock_t`. A process is known by its pid, which is not 0.
pub record RwLock : Type 0 where
  pub mutex : ℕ
  pub lock : ℤ
  pub write_pid : ℕ

-- NGX_RWLOCK_WRITE
abbrev pub rwlock_write : ℤ
rwlock_write = negsuc 0

-- Where a process stands in the four functions: the first test of NGX_RWLOCK_MUTEX_COND, taking the
-- mutex, the second test, the statement, giving the mutex back; `retry` and `skip` give it back after
-- the second test failed.
pub data Pc : Type 0 where
  idle : Pc
  read_test read_lock read_retest read_load : Pc
  read_store : ℤ → Pc
  read_unlock read_retry : Pc
  reading : Pc
  unread_test unread_test_zero unread_lock unread_retest unread_load : Pc
  unread_store : ℤ → Pc
  unread_unlock unread_skip : Pc
  write_test write_lock write_retest write_store write_own write_unlock write_retry : Pc
  writing : Pc
  unwrite_test unwrite_lock unwrite_retest unwrite_store : Pc
  unwrite_disown unwrite_unlock unwrite_skip : Pc

-- `rwl_lock_mutex`: one round of its loop, by the process `pid`.
abbrev pub lock_mutex : ℕ → RwLock → Pc → Pc → RwLock × Pc
lock_mutex pid l here there = if l.mutex == 0 then (record l { mutex = pid }, there) else (l, here)

-- `rwl_unlock_mutex`, which sets the mutex only if it is the process's own.
abbrev pub unlock_mutex : ℕ → RwLock → Pc → RwLock × Pc
unlock_mutex pid l there = if l.mutex == pid then (record l { mutex = 0 }, there) else (l, there)

abbrev pub is_write : ℤ → Bool
is_write v = eqb_ℤ v rwlock_write

-- The next step of a process; when it is idle, whether it goes on to read or to write.
pub move : Bool → ℕ → RwLock → Pc → RwLock × Pc
move to_read pid l idle = (l, if to_read then read_test else write_test)
move to_read pid l read_test = (l, if not (is_write l.lock) then read_lock else read_test)
move to_read pid l read_lock = lock_mutex pid l read_lock read_retest
move to_read pid l read_retest = (l, if not (is_write l.lock) then read_load else read_retry)
move to_read pid l read_load = (l, read_store l.lock)
move to_read pid l (read_store v) = (record l { lock = v +ℤ pos 1 }, read_unlock)
move to_read pid l read_unlock = unlock_mutex pid l reading
move to_read pid l read_retry = unlock_mutex pid l read_test
move to_read pid l reading = (l, unread_test)
move to_read pid l unread_test = (l, if not (is_write l.lock) then unread_test_zero else idle)
move to_read pid l unread_test_zero = (l, if not (eqb_ℤ l.lock (pos 0)) then unread_lock else idle)
move to_read pid l unread_lock = lock_mutex pid l unread_lock unread_retest
move to_read pid l unread_retest =
    (l, if not (is_write l.lock) && not (eqb_ℤ l.lock (pos 0)) then unread_load else unread_skip)
move to_read pid l unread_load = (l, unread_store l.lock)
move to_read pid l (unread_store v) = (record l { lock = v -ℤ pos 1 }, unread_unlock)
move to_read pid l unread_unlock = unlock_mutex pid l idle
move to_read pid l unread_skip = unlock_mutex pid l idle
move to_read pid l write_test = (l, if eqb_ℤ l.lock (pos 0) then write_lock else write_test)
move to_read pid l write_lock = lock_mutex pid l write_lock write_retest
move to_read pid l write_retest = (l, if eqb_ℤ l.lock (pos 0) then write_store else write_retry)
move to_read pid l write_store = (record l { lock = rwlock_write }, write_own)
move to_read pid l write_own = (record l { write_pid = pid }, write_unlock)
move to_read pid l write_unlock = unlock_mutex pid l writing
move to_read pid l write_retry = unlock_mutex pid l write_test
move to_read pid l writing = (l, unwrite_test)
move to_read pid l unwrite_test = (l, if is_write l.lock then unwrite_lock else idle)
move to_read pid l unwrite_lock = lock_mutex pid l unwrite_lock unwrite_retest
move to_read pid l unwrite_retest = (l, if is_write l.lock then unwrite_store else unwrite_skip)
move to_read pid l unwrite_store = (record l { lock = pos 0 }, unwrite_disown)
move to_read pid l unwrite_disown = (record l { write_pid = 0 }, unwrite_unlock)
move to_read pid l unwrite_unlock = unlock_mutex pid l idle
move to_read pid l unwrite_skip = unlock_mutex pid l idle

-- The processes 0, 1, … with the pids 1, 2, ….
pub record System : Type 0 where
  pub shared : RwLock
  pub pc : ℕ → Pc

abbrev pub update : (ℕ → Pc) → ℕ → Pc → ℕ → Pc
update f i p j = if i == j then p else f j

-- The process `i` of `n` takes a step.
pub turn : ℕ → Bool × ℕ → System → System
unfolding move
turn n (to_read, i) s =
    if ltb i n
    then (let (l, p) = move to_read (suc i) s.shared (s.pc i) in
        record { shared = l; pc = update s.pc i p })
    else s

pub run : ℕ → List (Bool × ℕ) → System → System
unfolding turn
run n [] s = s
run n (t ∷ ts) s = run n ts (turn n t s)

-- `ngx_rwlock_init`, with no process inside.
abbrev pub rwlock_init : System
rwlock_init = record { shared = record { mutex = 0; lock = pos 0; write_pid = 0 }; pc = λ i. idle }
