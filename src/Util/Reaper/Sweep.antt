-- ===== src/Util/Reaper/Sweep.antt =====
-- A pass of the reaper over the list of what is waiting.
use nchan.Prelude.{
  Bool, Bool-cases, List, Option, ap, append-nil, append_assoc, arith, false, if◌then◌else◌, inl,
  inr, leb, length, length-append, ltb, none, not, refl, some, subst, suc, sym, true, zero, ℕ, [],
  ◌&&◌, ◌++◌, ◌+◌, ◌<◌, ◌==◌, ◌∙◌, ◌∷◌, ◌≡◌, ◌≢◌,
}
use nchan.Util.Links.{Links, points_to}
use nchan.Util.Links.Segment.{Avoids, IsSegment-split, first_or, last_or}
use nchan.Util.Links.Edit.{IsSegment-unlink, Nodup-split, first-other, last-Avoids}
use nchan.Util.Slist.{Slist}
use nchan.Util.Slist.Correct.{Holds, Nodup-remove, NotIn-flip, new_head, new_tail}
use nchan.Util.Reaper.{Reaper, differ, its_reaping_time, reap_ready_thing, reaping_loop}

-- The links and the fields of a reaper as a list of util/nchan_slist.c has them.
abbrev pub waiting : Links × Reaper → Links × Slist
waiting (h, rp) = (h, record { head = rp.first; tail = rp.last; n = rp.count })

-- What a pass reaps, and what it leaves, in order.
abbrev pub sweep : (ℕ → Bool) → ℕ → ℕ → List ℕ → List ℕ × List ℕ
sweep ready max_notready notready [] = ([], [])
sweep ready max_notready notready (x ∷ xs) =
    let reaping = sweep ready max_notready notready xs in
    let skipping =
      sweep ready max_notready (if ltb 0 max_notready then notready + 1 else notready) xs in
    if leb notready max_notready
    then if ready x then (x ∷ reaping.0, reaping.1) else (skipping.0, x ∷ skipping.1)
    else ([], x ∷ xs)

assertions_hold :
    (p q : Option ℕ) (x n : ℕ)
    → differ p q ≡ true
    → points_to p x ≡ false
    → points_to q x ≡ false
    → 0 < n
    → (differ p q && not (points_to p x) && not (points_to q x) && ltb 0 n) ≡ true
assertions_hold p q x n a b c d = rw (a, b, c) (ground arith)

points_to-Avoids : (o : Option ℕ) (x : ℕ) → Avoids o (x ∷ []) → points_to o x ≡ false
points_to-Avoids none x a = refl
points_to-Avoids (some y) x a = by_ne y x a.0
  where
    by_ne : (y x : ℕ) → x ≢ y → (y == x) ≡ false
    by_ne y x h = ground arith

differ-Avoids : (p : Option ℕ) (rs : List ℕ) → Avoids p rs → differ p (first_or rs none) ≡ true
differ-Avoids none rs a = refl
differ-Avoids (some p) [] a = refl
differ-Avoids (some p) (r ∷ rs) a = by_ne p r a.0
  where
    by_ne : (p r : ℕ) → r ≢ p → not (p == r) ≡ true
    by_ne p r h = ground arith

-- Reaping a thing takes it off the list, and its assertions hold.
reap_ready_thing-Holds :
    (h : Links) (rp : Reaper) (ls : List ℕ) (x : ℕ) (rs : List ℕ)
    → Holds (waiting (h, rp)) (ls ++ x ∷ rs)
    → (s' : Links × Reaper) × (reap_ready_thing x (h.next x) (h, rp) ≡ some s')
      × Holds (waiting s') (ls ++ rs)
      × (s'.1.reaped ≡ rp.reaped ++ x ∷ [])
unfolding reap_ready_thing
reap_ready_thing-Holds h rp ls x rs r =
    let (before, after, joined) = IsSegment-unlink h ls x rs r.linked r.distinct in
    let (dl, dr, nl, nr, apart) = Nodup-split ls x rs r.distinct in
    let hold =
      assertions_hold (last_or ls none) (first_or rs none) x rp.count
        (differ-Avoids (last_or ls none) rs (last-Avoids ls rs apart))
        (points_to-Avoids (last_or ls none) x (last-Avoids ls (x ∷ []) (NotIn-flip x ls nl)))
        (points_to-Avoids (first_or rs none) x (first-other x rs nr))
        (omega (arith, r.counted, length-append ls (x ∷ rs))) in
    rw (before, after, hold)
      (
        _,
        refl,
        record {
          head = rw r.head (new_head ls x rs nl);
          tail = rw r.tail (new_tail ls x rs nr);
          counted = omega (arith, r.counted, length-append ls (x ∷ rs), length-append ls rs);
          linked = joined;
          distinct = Nodup-remove ls x rs r.distinct;
        },
        refl,
      )

next-Holds :
    (h : Links) (list : Slist) (ls : List ℕ) (x : ℕ) (rs : List ℕ)
    → Holds (h, list) (ls ++ x ∷ rs)
    → h.next x ≡ first_or rs none
next-Holds h list ls x rs r = (IsSegment-split h none ls (x ∷ rs) none r.linked).1.1

-- What a pass from the things `xs` on comes to, when `ls` were passed over before.
Sweeps : (ℕ → Bool) → ℕ → ℕ → List ℕ → List ℕ → Option ℕ → ℕ → Links × Reaper → Type 0
Sweeps ready max_notready rounds ls xs cur notready s =
    (s' : Links × Reaper) × (reaping_loop ready max_notready rounds cur notready s ≡ some s')
    × Holds (waiting s') (ls ++ (sweep ready max_notready notready xs).1)
    × (s'.1.reaped ≡ s.1.reaped ++ (sweep ready max_notready notready xs).0)

module _ (ready : ℕ → Bool) (max_notready rounds : ℕ) (ls : List ℕ) (x : ℕ) (xs : List ℕ)
    (notready : ℕ) (s : Links × Reaper) (next : s.0.next x ≡ first_or xs none) where
  step-stop :
      leb notready max_notready ≡ false
      → Holds (waiting s) (ls ++ x ∷ xs)
      → Sweeps ready max_notready (suc rounds) ls (x ∷ xs) (some x) notready s
  unfolding Sweeps reaping_loop
  step-stop over r = rw over (s, refl, r, sym (append-nil s.1.reaped))

  step-reap :
      (s1 : Links × Reaper)
      → leb notready max_notready ≡ true
      → ready x ≡ true
      → reap_ready_thing x (s.0.next x) s ≡ some s1
      → s1.1.reaped ≡ s.1.reaped ++ x ∷ []
      → Sweeps ready max_notready rounds ls xs (first_or xs none) notready s1
      → Sweeps ready max_notready (suc rounds) ls (x ∷ xs) (some x) notready s
  unfolding Sweeps reaping_loop
  step-reap s1 within now reaped record_eq (s', e, r, all) =
      rw (within, now, reaped, next)
        (
          s',
          e,
          r,
          all
              ∙ ap (λ l. l ++ (sweep ready max_notready notready xs).0) record_eq
              ∙ append_assoc s.1.reaped (x ∷ []) _,
        )

  step-skip :
      leb notready max_notready ≡ true
      → ready x ≡ false
      → Sweeps ready max_notready rounds
          (ls ++ x ∷ [])
          xs
          (first_or xs none)
          (if ltb 0 max_notready then notready + 1 else notready)
          s
      → Sweeps ready max_notready (suc rounds) ls (x ∷ xs) (some x) notready s
  unfolding Sweeps reaping_loop
  step-skip within later (s', e, r, all) =
      rw (within, later, next)
        (s', e, subst (Holds (waiting s')) (append_assoc ls (x ∷ []) _) r, all)

step-end :
    (ready : ℕ → Bool) (max_notready rounds : ℕ) (ls : List ℕ) (notready : ℕ) (s : Links × Reaper)
    → Holds (waiting s) (ls ++ [])
    → Sweeps ready max_notready (suc rounds) ls [] none notready s
unfolding Sweeps reaping_loop
step-end ready max_notready rounds ls notready s r = (s, refl, r, sym (append-nil s.1.reaped))

loop-sweep :
    (ready : ℕ → Bool) (max_notready rounds : ℕ) (ls xs : List ℕ) (notready : ℕ) (h : Links)
    (rp : Reaper)
    → Holds (waiting (h, rp)) (ls ++ xs)
    → length xs < rounds
    → Sweeps ready max_notready rounds ls xs (first_or xs none) notready (h, rp)
loop-sweep ready max_notready zero ls xs notready h rp r b = absurd (omega arith)
loop-sweep ready max_notready (suc rounds) ls [] notready h rp r b =
    step-end ready max_notready rounds ls notready (h, rp) r
loop-sweep ready max_notready (suc rounds) ls (x ∷ xs) notready h rp r b =
    let next = next-Holds h (waiting (h, rp)).1 ls x xs r in
    elim (Bool-cases (leb notready max_notready)) [
      | inr over ↦ step-stop ready max_notready rounds ls x xs notready (h, rp) next over r
      | inl within ↦ elim (Bool-cases (ready x)) [
        | inl now ↦
            let (s1, e, r1, reaped) = reap_ready_thing-Holds h rp ls x xs r in
            step-reap ready max_notready rounds ls x xs notready (h, rp) next s1 within now e reaped
              (loop-sweep ready max_notready rounds ls xs notready s1.0 s1.1 r1 (omega arith))
        | inr later ↦
            step-skip ready max_notready rounds ls x xs notready (h, rp) next within later
              (loop-sweep ready max_notready rounds (ls ++ x ∷ []) xs
                (if ltb 0 max_notready then notready + 1 else notready) h rp
                (subst (Holds (waiting (h, rp))) (sym (append_assoc ls (x ∷ []) xs)) r)
                (omega arith))
      ]
    ]

-- A pass over a list of any length ends, no assertion in it fails, and the list is again linked and counted properly. Until more than
-- `max_notready` things were found not ready, it reaps each thing that is ready, once and in order, and keeps the
-- others in order; what it does not come to stays.
pub its_reaping_time-sweep :
    (ready : ℕ → Bool) (max_notready : ℕ) (h : Links) (rp : Reaper) (xs : List ℕ)
    → Holds (waiting (h, rp)) xs
    → (s' : Links × Reaper) × (its_reaping_time ready max_notready (h, rp) ≡ some s')
      × Holds (waiting s') (sweep ready max_notready 0 xs).1
      × (s'.1.reaped ≡ rp.reaped ++ (sweep ready max_notready 0 xs).0)
unfolding its_reaping_time Sweeps
its_reaping_time-sweep ready max_notready h rp xs r =
    subst (λ o. Sweeps ready max_notready (rp.count + 1) [] xs o 0 (h, rp)) (sym r.head)
      (loop-sweep ready max_notready (rp.count + 1) [] xs 0 h rp r (omega (arith, r.counted)))
