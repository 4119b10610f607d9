-- ===== src/Util/TimeQueue/Slices.antt =====
-- The slots of a page from its start to its end.
use nchan.Prelude.{
  List, ap, arith, get_elem?, length, refl, set, some, suc, zero, ℕ, [], ◌++◌, ◌<◌, ◌∷◌, ◌≡◌, ◌≤◌,
}

module _ {ℓ} {A : Type ℓ} where
  abbrev pub slice : ℕ → ℕ → List A → List A
  slice start end [] = []
  slice start zero (x ∷ xs) = []
  slice zero (suc end) (x ∷ xs) = x ∷ slice zero end xs
  slice (suc start) (suc end) (x ∷ xs) = slice start end xs

  pub slice-empty : (xs : List A) (start end : ℕ) → end ≤ start → slice start end xs ≡ []
  slice-empty [] start end h = refl
  slice-empty (x ∷ xs) start zero h = refl
  slice-empty (x ∷ xs) zero (suc end) h = absurd (omega arith)
  slice-empty (x ∷ xs) (suc start) (suc end) h = slice-empty xs start end (omega arith)

  pub slice-push :
      (xs : List A) (start end : ℕ) (x : A)
      → start ≤ end
      → end < length xs
      → slice start (suc end) (set xs end x) ≡ slice start end xs ++ x ∷ []
  slice-push [] start end x h room = absurd (omega arith)
  slice-push (y ∷ xs) (suc start) zero x h room = absurd (omega arith)
  slice-push (y ∷ xs) (suc start) (suc end) x h room =
      slice-push xs start end x (omega arith) (omega arith)
  slice-push (y ∷ xs) zero zero x h room = ap (λ l. x ∷ l) (slice-empty xs 0 0 (omega arith))
  slice-push (y ∷ xs) zero (suc end) x h room =
      ap (λ l. y ∷ l) (slice-push xs zero end x (omega arith) (omega arith))

  after_first : (y : A) (xs : List A) (end : ℕ) → slice 0 end xs ≡ slice 1 (suc end) (y ∷ xs)
  after_first y xs end = refl

  pub slice-pop :
      (xs : List A) (start end : ℕ)
      → start < end
      → end ≤ length xs
      → (x : A) × (get_elem? xs start ≡ some x)
        × (slice start end xs ≡ x ∷ slice (suc start) end xs)
  slice-pop [] start end h room = absurd (omega arith)
  slice-pop (y ∷ xs) start zero h room = absurd (omega arith)
  slice-pop (y ∷ xs) zero (suc end) h room = (y, refl, ap (λ l. y ∷ l) (after_first y xs end))
  slice-pop (y ∷ xs) (suc start) (suc end) h room =
      slice-pop xs start end (omega arith) (omega arith)
