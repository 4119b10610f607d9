-- ===== src/Util/Slist/Ends.antt =====
-- Taking elements off the ends of the list, telling whether it is empty, and moving one list to another.
use nchan.Prelude.{
  List, Option, ap, append-nil, arith, drop, false, inl, inr, length, length-append, none, refl,
  some, subst, suc, sym, take, take-append, ℕ, [], ◌++◌, ◌-◌, ◌==◌, ◌∙◌, ◌∷◌, ◌≡◌, ◌⊎◌,
}
use nchan.Util.Links.{Links, is_null}
use nchan.Util.Links.Segment.{first_or, last_or, last_or-append}
use nchan.Util.Slist.{Slist, remove_if_any, slist_is_empty, slist_pop, slist_shift}
use nchan.Util.Slist.Correct.{Holds, slist_remove-Holds}

-- What taking out the element `o` does, when the list is then `ys`.
abbrev TakesOut : Option ℕ → Links × Slist → List ℕ → Type 0
TakesOut o s ys = ((remove_if_any o s).0 ≡ o) × Holds (remove_if_any o s).1 ys

takes_none : (s : Links × Slist) → Holds s [] → TakesOut none s []
unfolding remove_if_any
takes_none s r = (refl, r)

takes_some :
    (h : Links) (list : Slist) (ls : List ℕ) (el : ℕ) (rs : List ℕ)
    → Holds (h, list) (ls ++ el ∷ rs)
    → TakesOut (some el) (h, list) (ls ++ rs)
unfolding remove_if_any
takes_some h list ls el rs r = (refl, (slist_remove-Holds h list ls el rs r).0)

-- `nchan_slist_shift` gives the first element, or null, and leaves the others.
pub slist_shift-Holds :
    (h : Links) (list : Slist) (xs : List ℕ)
    → Holds (h, list) xs
    → ((slist_shift (h, list)).0 ≡ first_or xs none) × Holds (slist_shift (h, list)).1 (drop 1 xs)
unfolding slist_shift
slist_shift-Holds h list xs r =
    let done : TakesOut list.head (h, list) (drop 1 xs) =
      subst (λ o. TakesOut o (h, list) (drop 1 xs)) (sym r.head) (by_first xs r) in
    (done.0 ∙ r.head, done.1)
  where
    by_first :
        (xs : List ℕ) → Holds (h, list) xs → TakesOut (first_or xs none) (h, list) (drop 1 xs)
    by_first [] r = takes_none (h, list) r
    by_first (x ∷ xs) r = takes_some h list [] x xs r

snoc-cases : (xs : List ℕ) → (xs ≡ []) ⊎ ((ls : List ℕ) × (x : ℕ) × (xs ≡ ls ++ x ∷ []))
snoc-cases [] = inl refl
snoc-cases (x ∷ xs) = elim (snoc-cases xs) [
  | inl e ↦ inr ([], x, ap (λ l. x ∷ l) e)
  | inr (ls, y, e) ↦ inr (x ∷ ls, y, ap (λ l. x ∷ l) e)
]

but_last : (ls : List ℕ) (x : ℕ) → take (length (ls ++ x ∷ []) - 1) (ls ++ x ∷ []) ≡ ls
but_last ls x =
    let count : length (ls ++ x ∷ []) - 1 ≡ length ls = omega (arith, length-append ls (x ∷ [])) in
    ap (λ n. take n (ls ++ x ∷ [])) count ∙ take-append ls (x ∷ [])

-- `nchan_slist_pop` gives the last element, or null, and leaves the others.
slist_pop-Holds :
    (h : Links) (list : Slist) (xs : List ℕ)
    → Holds (h, list) xs
    → ((slist_pop (h, list)).0 ≡ last_or xs none)
      × Holds (slist_pop (h, list)).1 (take (length xs - 1) xs)
unfolding slist_pop
slist_pop-Holds h list xs r =
    let done : TakesOut list.tail (h, list) (take (length xs - 1) xs) =
      subst (λ o. TakesOut o (h, list) (take (length xs - 1) xs)) (sym r.tail) by_last in
    (done.0 ∙ r.tail, done.1)
  where
    by_last : TakesOut (last_or xs none) (h, list) (take (length xs - 1) xs)
    by_last = elim (snoc-cases xs) [
      | inl e ↦
          subst (λ l. TakesOut (last_or l none) (h, list) (take (length l - 1) l)) (sym e)
            (takes_none (h, list) (subst (Holds (h, list)) e r))
      | inr (ls, x, e) ↦
          subst (λ l. TakesOut (last_or l none) (h, list) (take (length l - 1) l)) (sym e)
            (subst (λ o. TakesOut o (h, list) (take (length (ls ++ x ∷ []) - 1) (ls ++ x ∷ [])))
              (sym (last_or-append ls (x ∷ []) none))
              (subst (TakesOut (some x) (h, list)) (append-nil ls ∙ sym (but_last ls x))
                (takes_some h list ls x [] (subst (Holds (h, list)) e r))))
    ]

-- `nchan_slist_is_empty` tells whether the list is empty, and its assertions hold.
slist_is_empty-Holds :
    (h : Links) (list : Slist) (xs : List ℕ)
    → Holds (h, list) xs
    → slist_is_empty list ≡ some (length xs == 0)
unfolding slist_is_empty
slist_is_empty-Holds h list [] r = simp (r.counted, r.head, r.tail) refl
slist_is_empty-Holds h list (x ∷ xs) r =
    simp
      (
        not_zero list.n (length xs) r.counted,
        not_zero (suc (length xs)) (length xs) refl,
        r.head,
        r.tail,
        not_null xs x,
      )
      refl
  where
    not_zero : (n m : ℕ) → n ≡ suc m → (n == 0) ≡ false
    not_zero n m e = ground arith

    not_null : (xs : List ℕ) (x : ℕ) → is_null (last_or xs (some x)) ≡ false
    not_null [] x = refl
    not_null (y ∷ ys) x = not_null ys y
