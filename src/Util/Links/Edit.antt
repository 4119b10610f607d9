-- ===== src/Util/Links/Edit.antt =====
-- Putting an element into a linked list, and taking one out.
use nchan.Prelude.{All, List, Option, ap, none, refl, some, sym, ℕ, [], ◌++◌, ◌∙◌, ◌∷◌, ◌≡◌, ◌≢◌}
use nchan.Util.Links.{Links, set_next, set_next_of, set_prev, set_prev_of}
use nchan.Util.Links.Segment.{
  Avoids, IsSegment, IsSegment-join, IsSegment-split, Nodup, NotIn, assign_self, first_or, last_or,
  set_next-IsSegment, set_next_of-IsSegment, set_next_of-last, set_prev-IsSegment,
  set_prev_of-IsSegment, set_prev_of-first,
}

set_next_of-prev : (h : Links) (o v : Option ℕ) → (set_next_of o v h).prev ≡ h.prev
set_next_of-prev h none v = refl
set_next_of-prev h (some x) v = refl

set_prev_of-next : (h : Links) (o v : Option ℕ) → (set_prev_of o v h).next ≡ h.next
set_prev_of-next h none v = refl
set_prev_of-next h (some x) v = refl

-- A new last element, the first element of a new list, and an element taken out.
pub IsSegment-append :
    (h : Links) (xs : List ℕ) (el : ℕ) (q : Option ℕ)
    → IsSegment h none xs q
    → Nodup xs
    → NotIn el xs
    → IsSegment
        (set_next el none
          (set_next_of (last_or xs none) (some el) (set_prev el (last_or xs none) h)))
        none
        (xs ++ el ∷ [])
        none
IsSegment-append h xs el q s d n =
    let h1 = set_prev el (last_or xs none) h in
    let h2 = set_next_of (last_or xs none) (some el) h1 in
    IsSegment-join (set_next el none h2) none xs (el ∷ []) none
      (set_next-IsSegment h2 el none none xs (some el) n (
        set_next_of-last h1 none xs q (some el) d
          (set_prev-IsSegment h el (last_or xs none) none xs q n s)))
      (
        ap (λ f. f el) (set_next_of-prev h1 (last_or xs none) (some el))
            ∙ assign_self h.prev el (last_or xs none),
        assign_self h2.next el none,
        tt,
      )

pub IsSegment-prepend :
    (h : Links) (xs : List ℕ) (el : ℕ)
    → IsSegment h none xs none
    → Nodup xs
    → NotIn el xs
    → IsSegment
        (set_prev el none
          (set_prev_of (first_or xs none) (some el) (set_next el (first_or xs none) h)))
        none
        (el ∷ xs)
        none
IsSegment-prepend h xs el s d n =
    let h1 = set_next el (first_or xs none) h in
    let h2 = set_prev_of (first_or xs none) (some el) h1 in
    (
      assign_self h2.prev el none,
      ap (λ f. f el) (set_prev_of-next h1 (first_or xs none) (some el))
          ∙ assign_self h.next el (first_or xs none),
      set_prev-IsSegment h2 el none (some el) xs none n (
          set_prev_of-first h1 none xs none (some el) d
            (set_next-IsSegment h el (first_or xs none) none xs none n s)),
    )

pub Nodup-split :
    (ls : List ℕ) (el : ℕ) (rs : List ℕ)
    → Nodup (ls ++ el ∷ rs)
    → Nodup ls × Nodup rs × NotIn el ls × NotIn el rs × All (λ x. NotIn x rs) ls
Nodup-split [] el rs d = (tt, d.1, tt, d.0, tt)
Nodup-split (x ∷ ls) el rs d =
    let (dl, dr, nl, nr, apart) = Nodup-split ls el rs d.1 in
    let (xl, xe, xr) = NotIn-split x ls el rs d.0 in
    ((xl, dl), dr, ((λ e. xe (sym e)), nl), nr, (xr, apart))
  where
    NotIn-split :
        (x : ℕ) (ls : List ℕ) (el : ℕ) (rs : List ℕ)
        → NotIn x (ls ++ el ∷ rs)
        → NotIn x ls × (el ≢ x) × NotIn x rs
    NotIn-split x [] el rs n = (tt, n.0, n.1)
    NotIn-split x (y ∷ ls) el rs n = let (a, b, c) = NotIn-split x ls el rs n.1 in ((n.0, a), b, c)

pub last-Avoids : (ls rs : List ℕ) → All (λ x. NotIn x rs) ls → Avoids (last_or ls none) rs
last-Avoids [] rs a = tt
last-Avoids (x ∷ []) rs a = a.0
last-Avoids (x ∷ y ∷ ls) rs a = last-Avoids (y ∷ ls) rs a.1

first-Avoids : (ls rs : List ℕ) → All (λ x. NotIn x rs) ls → Avoids (first_or rs none) ls
first-Avoids ls [] a = tt
first-Avoids [] (r ∷ rs) a = tt
first-Avoids (x ∷ ls) (r ∷ rs) a = ((λ e. a.0.0 (sym e)), first-Avoids ls (r ∷ rs) a.1)

-- Unlinking an element joins what stands on its two sides.
pub IsSegment-unlink :
    (h : Links) (ls : List ℕ) (el : ℕ) (rs : List ℕ)
    → IsSegment h none (ls ++ el ∷ rs) none
    → Nodup (ls ++ el ∷ rs)
    → (h.prev el ≡ last_or ls none)
      × (h.next el ≡ first_or rs none)
      × IsSegment
          (set_prev_of
            (first_or rs none)
            (last_or ls none)
            (set_next_of (last_or ls none) (first_or rs none) h))
          none
          (ls ++ rs)
          none
IsSegment-unlink h ls el rs s d =
    let (left, right) = IsSegment-split h none ls (el ∷ rs) none s in
    let (dl, dr, nl, nr, apart) = Nodup-split ls el rs d in
    let p = last_or ls none in
    let q = first_or rs none in
    let h1 = set_next_of p q h in
    (
      right.0,
      right.1,
      IsSegment-join (set_prev_of q p h1) none ls rs none
          (set_prev_of-IsSegment h1 q p none ls q (first-Avoids ls rs apart)
            (set_next_of-last h none ls (some el) q dl left))
          (set_prev_of-first h1 (some el) rs none p dr
            (set_next_of-IsSegment h p q (some el) rs none (last-Avoids ls rs apart) right.2)),
    )

pub first-other : (el : ℕ) (rs : List ℕ) → NotIn el rs → Avoids (first_or rs none) (el ∷ [])
first-other el [] n = tt
first-other el (r ∷ rs) n = ((λ e. n.0 (sym e)), tt)
