-- ===== src/Util/RwLock/Totals.antt =====
-- Counting processes by where they stand.
use nchan.Prelude.{Bool-cases, arith, inl, inr, refl, subst, suc, zero, ℕ, ◌+◌, ◌<◌, ◌==◌, ◌≡◌, ◌≤◌}
use nchan.Util.RwLock.{Pc, idle, update}

module _ (w : Pc → ℕ) where
  unfoldable pub total : ℕ → (ℕ → Pc) → ℕ
  total zero f = 0
  total (suc n) f = total n f + w (f n)

  total-update_of_le :
      (n : ℕ) (f : ℕ → Pc) (i : ℕ) (p : Pc) → n ≤ i → total n (update f i p) ≡ total n f
  unfolding total
  total-update_of_le zero f i p h = refl
  total-update_of_le (suc n) f i p h = ground (arith, total-update_of_le n f i p)

  pub total-update :
      (n : ℕ) (f : ℕ → Pc) (i : ℕ) (p : Pc)
      → i < n
      → total n (update f i p) + w (f i) ≡ total n f + w p
  unfolding total
  total-update zero f i p h = absurd (omega arith)
  total-update (suc n) f i p h = ground (arith, total-update n f i p, total-update_of_le n f i p)

  -- Two processes count for both.
  pub le-total : (n : ℕ) (f : ℕ → Pc) (i : ℕ) → i < n → w (f i) ≤ total n f
  unfolding total
  le-total zero f i h = absurd (omega arith)
  le-total (suc n) f i h = elim (Bool-cases (i == n)) [
    | inl last ↦
        (let same : n ≡ i = ground arith in
          subst (λ k. w (f k) ≤ total n f + w (f n)) same (omega arith))
    | inr below ↦ omega (arith, le-total n f i (ground arith))
  ]

  pub add-le-total : (n : ℕ) (f : ℕ → Pc) (i j : ℕ) → i < j → j < n → w (f i) + w (f j) ≤ total n f
  unfolding total
  add-le-total zero f i j h k = absurd (omega arith)
  add-le-total (suc n) f i j h k = elim (Bool-cases (j == n)) [
    | inl last ↦
        (let same : n ≡ j = ground arith in
          let below : i < n = omega arith in
          subst (λ m. w (f i) + w (f m) ≤ total n f + w (f n)) same
            (omega (arith, le-total n f i below)))
    | inr below ↦ omega (arith, add-le-total n f i j h (ground arith))
  ]

  pub total-idle : (n : ℕ) → w idle ≡ 0 → total n (λ i. idle) ≡ 0
  unfolding total
  total-idle zero h = refl
  total-idle (suc n) h = omega (arith, total-idle n h)
