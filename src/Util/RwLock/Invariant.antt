-- ===== src/Util/RwLock/Invariant.antt =====
-- What holds of the lock in every state that the processes reach.
use nchan.Prelude.{Bool, false, suc, true, ℕ, ◌≡◌, ◌⊎◌}
use nchan.Prelude.Int.{pos, ℤ}
use nchan.Util.RwLock.{
  Pc, RwLock, is_write, read_load, read_retest, read_retry, read_store, read_unlock, reading,
  rwlock_write, unread_load, unread_lock, unread_retest, unread_skip, unread_store, unread_test,
  unread_test_zero, unread_unlock, unwrite_disown, unwrite_lock, unwrite_retest, unwrite_skip,
  unwrite_store, unwrite_test, unwrite_unlock, write_own, write_retest, write_retry, write_store,
  write_unlock, writing,
}
use nchan.Util.RwLock.Totals.{total}

-- Between taking the mutex and giving it back.
abbrev pub in_mutex : Pc → Bool
in_mutex read_retest = true
in_mutex read_load = true
in_mutex (read_store v) = true
in_mutex read_unlock = true
in_mutex read_retry = true
in_mutex unread_retest = true
in_mutex unread_load = true
in_mutex (unread_store v) = true
in_mutex unread_unlock = true
in_mutex unread_skip = true
in_mutex write_retest = true
in_mutex write_store = true
in_mutex write_own = true
in_mutex write_unlock = true
in_mutex write_retry = true
in_mutex unwrite_retest = true
in_mutex unwrite_store = true
in_mutex unwrite_disown = true
in_mutex unwrite_unlock = true
in_mutex unwrite_skip = true
in_mutex p = false

-- From the statement of `ngx_rwlock_reserve_read` to that of `ngx_rwlock_release_read`.
abbrev pub reads : Pc → ℕ
reads read_unlock = 1
reads reading = 1
reads unread_test = 1
reads unread_test_zero = 1
reads unread_lock = 1
reads unread_retest = 1
reads unread_load = 1
reads (unread_store v) = 1
reads unread_skip = 1
reads p = 0

-- The same of the two functions for writing.
abbrev pub writes : Pc → ℕ
writes write_own = 1
writes write_unlock = 1
writes writing = 1
writes unwrite_test = 1
writes unwrite_lock = 1
writes unwrite_retest = 1
writes unwrite_store = 1
writes unwrite_skip = 1
writes p = 0

-- What a process that has the mutex has seen of the lock; it never stands at a skip.
abbrev pub HasSeen : ℤ → Pc → Type 0
HasSeen lock read_load = is_write lock ≡ false
HasSeen lock (read_store v) = (is_write lock ≡ false) × (v ≡ lock)
HasSeen lock (unread_store v) = v ≡ lock
HasSeen lock write_store = lock ≡ pos 0
HasSeen lock unread_skip = ⊥
HasSeen lock unwrite_skip = ⊥
HasSeen lock p = Unit

-- The lock is the number of readers, or stands for the one writer.
abbrev pub Counts : ℤ → ℕ → ℕ → Type 0
Counts lock readers writers =
    ((lock ≡ pos readers) × (writers ≡ 0)) ⊎ ((lock ≡ rwlock_write) × (readers ≡ 0) × (writers ≡ 1))

pub record IsSafe (n : ℕ) (l : RwLock) (pc : ℕ → Pc) : Type 0 where
  pub owner : (j : ℕ) → in_mutex (pc j) ≡ true → l.mutex ≡ suc j
  pub counts : Counts l.lock (total reads n pc) (total writes n pc)
  pub seen : (j : ℕ) → HasSeen l.lock (pc j)
