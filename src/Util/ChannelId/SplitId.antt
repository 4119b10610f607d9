-- ===== src/Util/ChannelId/SplitId.antt =====
-- Splitting an id at a delimiter, `nchan_strsplit`.
use mathlib.Core.Option.{some_inj}
use nchan.Prelude.{
  Bool-cases, List, Option, Option-cases, ap, arith, drop, false, if◌then◌else◌, inl, inr, leb,
  length, length-drop, ltb, none, refl, some, suc, sym, true, zero, ℕ, [], ◌++◌, ◌<◌, ◌==◌, ◌∙◌,
  ◌∷◌, ◌≡◌,
}
use nchan.Util.ChannelId.{multitag_max, split_id, starts_with, strsplit}

module _ (delim before : List ℕ) (c : ℕ) (s : List ℕ) where
  strsplit-found :
      ltb (length delim) (suc (length s)) ≡ true
      → starts_with delim (c ∷ s) ≡ true
      → strsplit delim before (c ∷ s) ≡ some (before, drop (length delim) (c ∷ s))
  unfolding strsplit
  strsplit-found h k = rw (h, k) refl

  strsplit-later :
      ltb (length delim) (suc (length s)) ≡ true
      → starts_with delim (c ∷ s) ≡ false
      → strsplit delim before (c ∷ s) ≡ strsplit delim (before ++ c ∷ []) s
  unfolding strsplit
  strsplit-later h k = rw (h, k) refl

  strsplit-whole :
      ltb (length delim) (suc (length s)) ≡ false
      → (suc (length s) == length delim) ≡ true
      → strsplit delim before (c ∷ s) ≡ some (before ++ c ∷ s, [])
  unfolding strsplit
  strsplit-whole h k = rw (h, k) refl

  strsplit-null :
      ltb (length delim) (suc (length s)) ≡ false
      → (suc (length s) == length delim) ≡ false
      → strsplit delim before (c ∷ s) ≡ none
  unfolding strsplit
  strsplit-null h k = rw (h, k) refl

strsplit-end : (delim before : List ℕ) → 0 < length delim → strsplit delim before [] ≡ none
unfolding strsplit
strsplit-end delim before h = rw (not_zero (length delim) h) refl
  where
    not_zero : (n : ℕ) → 0 < n → (n == 0) ≡ false
    not_zero n h = ground arith

none≢some : (r : List ℕ × List ℕ) → none ≡ some r → 0 < 0
none≢some r e = cc

left_over :
    (o : Option (List ℕ × List ℕ)) (p q more rest : List ℕ)
    → o ≡ some (q, rest)
    → o ≡ some (p, more)
    → rest ≡ more
left_over o p q more rest e k = ap (λ r. r.1) (some_inj.0 (sym e ∙ k))

-- Each part that is split off leaves fewer bytes.
strsplit-shorter :
    (delim before s p more : List ℕ)
    → 0 < length delim
    → strsplit delim before s ≡ some (p, more)
    → length more < length s
strsplit-shorter delim before [] p more h e =
    absurd (omega (arith, none≢some (p, more) (sym (strsplit-end delim before h) ∙ e)))
strsplit-shorter delim before (c ∷ s) p more h e =
    elim (Bool-cases (ltb (length delim) (suc (length s)))) [
      | inl longer ↦ elim (Bool-cases (starts_with delim (c ∷ s))) [
        | inl here ↦
            let same =
              left_over _ p before more _ (strsplit-found delim before c s longer here) e in
            omega (arith, ap length same, length-drop (length delim) (c ∷ s))
        | inr later ↦
            let fewer =
              strsplit-shorter delim (before ++ c ∷ []) s p more h
                (sym (strsplit-later delim before c s longer later) ∙ e) in
            omega arith
      ]
      | inr short ↦ elim (Bool-cases (suc (length s) == length delim)) [
        | inl exact ↦
            let same =
              left_over _ p (before ++ c ∷ s) more [] (strsplit-whole delim before c s short exact)
                e in
            omega (arith, ap length same)
        | inr less ↦ absurd (
            omega
              (arith, none≢some (p, more) (sym (strsplit-null delim before c s short less) ∙ e)))
      ]
    ]

strsplit-short :
    (delim before s : List ℕ) → length s < length delim → strsplit delim before s ≡ none
strsplit-short delim before [] h = strsplit-end delim before h
strsplit-short delim before (c ∷ s) h =
    strsplit-null delim before c s (not_longer (length delim) (suc (length s)) h)
      (not_equal (length delim) (suc (length s)) h)
  where
    not_longer : (n m : ℕ) → m < n → ltb n m ≡ false
    not_longer n m h = ground arith

    not_equal : (n m : ℕ) → m < n → (m == n) ≡ false
    not_equal n m h = ground arith

pub split_id-none :
    (rounds : ℕ) (delim s : List ℕ) (out : List (List ℕ))
    → strsplit delim [] s ≡ none
    → split_id (suc rounds) delim s out ≡ some out
unfolding split_id
split_id-none rounds delim s out e = rw (split_id, e) refl

pub split_id-some :
    (rounds : ℕ) (delim s p more : List ℕ) (out : List (List ℕ))
    → strsplit delim [] s ≡ some (p, more)
    → split_id (suc rounds) delim s out
      ≡ (if leb multitag_max (length out) then none else split_id rounds delim more (out ++ p ∷ []))
unfolding split_id
split_id-some rounds delim s p more out e = rw (split_id, e) refl

-- An id that is shorter than the delimiter, and so also what stands after the last delimiter when it is
-- shorter, is dropped: it gives no channel.
pub split_id-short :
    (rounds : ℕ) (delim s : List ℕ) (out : List (List ℕ))
    → length s < length delim
    → split_id (suc rounds) delim s out ≡ some out
split_id-short rounds delim s out h = split_id-none rounds delim s out (strsplit-short delim [] s h)

-- The loop over the parts of an id ends by itself: with any more rounds than the id has bytes, the result is the same.
split_id-rounds :
    (n k : ℕ) (delim s : List ℕ) (out : List (List ℕ))
    → 0 < length delim
    → length s < n
    → length s < k
    → split_id n delim s out ≡ split_id k delim s out
split_id-rounds zero k delim s out d h h' = absurd (omega arith)
split_id-rounds (suc n) zero delim s out d h h' = absurd (omega arith)
split_id-rounds (suc n) (suc k) delim s out d h h' = elim (Option-cases (strsplit delim [] s)) [
  | inl e ↦ split_id-none n delim s out e ∙ sym (split_id-none k delim s out e)
  | inr ((p, more), e) ↦
      let fewer = strsplit-shorter delim [] s p more d e in
      split_id-some n delim s p more out e
      ∙ ap (λ r. if leb multitag_max (length out) then none else r)
          (split_id-rounds n k delim more (out ++ p ∷ []) d (omega arith) (omega arith))
      ∙ sym (split_id-some k delim s p more out e)
]

pub split_id-zero : (delim s : List ℕ) (out : List (List ℕ)) → split_id 0 delim s out ≡ some out
unfolding split_id
split_id-zero delim s out = refl
