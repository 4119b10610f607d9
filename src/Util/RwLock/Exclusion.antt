-- ===== src/Util/RwLock/Exclusion.antt =====
-- Every order of the processes' steps keeps the lock safe, and no writer is in with another process.
use nchan.Prelude.{
  Bool, Bool-cases, List, ap, arith, false, inl, inr, ltb, ltb→lt, refl, subst, suc, sym, true, ℕ,
  [], ◌+◌, ◌<◌, ◌==◌, ◌∙◌, ◌∷◌, ◌≡◌, ◌≢◌, ◌≤◌,
}
use nchan.Prelude.Int.{pos}
use nchan.Util.RwLock.{
  Pc, RwLock, System, run, rwlock_init, turn, unread_skip, unwrite_skip, update,
}
use nchan.Util.RwLock.Totals.{add-le-total, le-total, total, total-idle, total-update}
use nchan.Util.RwLock.Invariant.{Counts, HasSeen, IsSafe, in_mutex, reads, writes}
use nchan.Util.RwLock.Moves.{
  HasSeen-outside, after, move-Counts, move-HasSeen, move-lock, move-others, move-owner, next,
}

rwlock_init-IsSafe : (n : ℕ) → IsSafe n rwlock_init.shared rwlock_init.pc
rwlock_init-IsSafe n = record {
  owner = λ j h. cc;
  counts = inl (ap pos (sym (total-idle reads n refl)), total-idle writes n refl);
  seen = λ j. tt;
}

module _ (n i : ℕ) (to_read : Bool) (l : RwLock) (pc : ℕ → Pc) (here : i < n)
    (wf : IsSafe n l pc) where
  abbrev l' : RwLock
  l' = after to_read i l (pc i)

  abbrev p' : Pc
  p' = next to_read i l (pc i)

  i_outside : (j : ℕ) → in_mutex (pc j) ≡ true → (i == j) ≡ false → in_mutex (pc i) ≡ false
  i_outside j inside other = elim (Bool-cases (in_mutex (pc i))) [
    | inl both ↦ absurd (omega (arith, wf.owner i both, wf.owner j inside, distinct))
    | inr outside ↦ outside
  ]
    where
      distinct : i ≢ j
      distinct = ground arith

  step-owner : (j : ℕ) → in_mutex (update pc i p' j) ≡ true → l'.mutex ≡ suc j
  step-owner j h = elim (Bool-cases (i == j)) [
    | inl same ↦ move-owner to_read i l (pc i) (wf.owner i) (rw same at h) ∙ ground arith
    | inr other ↦
        move-others to_read i l (pc i) j (wf.owner i) (ground arith) (wf.owner j (rw other at h))
  ]

  step-seen : (j : ℕ) → HasSeen l'.lock (update pc i p' j)
  step-seen j = elim (Bool-cases (i == j)) [
    | inl same ↦ rw same (
        move-HasSeen to_read i l (pc i) (total reads n pc) (total writes n pc) wf.counts (wf.seen i)
          (le-total reads n pc i here) (le-total writes n pc i here))
    | inr other ↦ rw other (elim (Bool-cases (in_mutex (pc j))) [
      | inl inside ↦
          subst (λ k. HasSeen k (pc j))
            (sym (move-lock to_read i l (pc i) (i_outside j inside other))) (wf.seen j)
      | inr outside ↦ HasSeen-outside l'.lock (pc j) outside
    ])
  ]

  step-IsSafe : IsSafe n l' (update pc i p')
  step-IsSafe = record {
    owner = step-owner;
    counts =
        move-Counts to_read i l (pc i) (total reads n pc) (total writes n pc)
          (total reads n (update pc i p')) (total writes n (update pc i p')) wf.counts (wf.seen i)
          (le-total reads n pc i here) (le-total writes n pc i here)
          (total-update reads n pc i p' here) (total-update writes n pc i p' here);
    seen = step-seen;
  }

pub turn-IsSafe :
    (n : ℕ) (t : Bool × ℕ) (s : System)
    → IsSafe n s.shared s.pc
    → IsSafe n (turn n t s).shared (turn n t s).pc
unfolding turn
turn-IsSafe n (to_read, i) s wf = elim (Bool-cases (ltb i n)) [
  | inl here ↦ rw here (step-IsSafe n i to_read s.shared s.pc (ltb→lt i n here) wf)
  | inr nobody ↦ rw nobody wf
]

pub run-IsSafe :
    (n : ℕ) (ts : List (Bool × ℕ)) (s : System)
    → IsSafe n s.shared s.pc
    → IsSafe n (run n ts s).shared (run n ts s).pc
unfolding run
run-IsSafe n [] s wf = wf
run-IsSafe n (t ∷ ts) s wf = run-IsSafe n ts (turn n t s) (turn-IsSafe n t s wf)

both-le :
    (w : Pc → ℕ) (n : ℕ) (f : ℕ → Pc) (i j : ℕ)
    → i < n
    → j < n
    → i ≢ j
    → w (f i) + w (f j) ≤ total w n f
both-le w n f i j hi hj ne = elim (Bool-cases (ltb i j)) [
  | inl less ↦ add-le-total w n f i j (ltb→lt i j less) hj
  | inr more ↦ omega (arith, add-le-total w n f j i (ground arith) hi)
]

-- From a free lock, in whatever order processes that reserve and release it take their steps: while one is between
-- its reservation for writing and its release, no other is between a reservation, for reading or writing, and its release.
pub run-exclusive :
    (n : ℕ) (ts : List (Bool × ℕ)) (i j : ℕ)
    → i < n
    → j < n
    → i ≢ j
    → writes ((run n ts rwlock_init).pc i) ≡ 1
    → (writes ((run n ts rwlock_init).pc j) ≡ 0) × (reads ((run n ts rwlock_init).pc j) ≡ 0)
run-exclusive n ts i j hi hj ne w =
    let s = run n ts rwlock_init in
    let wf = run-IsSafe n ts rwlock_init (rwlock_init-IsSafe n) in
    ground (arith, wf.counts, both-le writes n s.pc i j hi hj ne, le-total reads n s.pc j hj)

-- From a free lock, in whatever order the processes take their steps: the lock is the number of those between a
-- reservation for reading and its release while there is none for writing, or -1 with one for writing and none for reading;
-- and no process that releases what it has reserved is turned away at the second test.
pub run-Counts :
    (n : ℕ) (ts : List (Bool × ℕ)) (j : ℕ)
    → Counts
        (run n ts rwlock_init).shared.lock
        (total reads n (run n ts rwlock_init).pc)
        (total writes n (run n ts rwlock_init).pc)
      × ((run n ts rwlock_init).pc j ≢ unread_skip)
      × ((run n ts rwlock_init).pc j ≢ unwrite_skip)
run-Counts n ts j =
    let s = run n ts rwlock_init in
    let wf = run-IsSafe n ts rwlock_init (rwlock_init-IsSafe n) in
    (
      wf.counts,
      λ e. subst (HasSeen s.shared.lock) e (wf.seen j),
      λ e. subst (HasSeen s.shared.lock) e (wf.seen j),
    )
