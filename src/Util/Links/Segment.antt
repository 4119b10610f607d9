-- ===== src/Util/Links/Segment.antt =====
-- Segments of linked lists, and how they change when links are written.
use nchan.Prelude.{All, List, Option, arith, none, refl, some, sym, ℕ, [], ◌++◌, ◌∙◌, ◌∷◌, ◌≡◌, ◌≢◌}
use nchan.Util.Links.{Links, assign, set_next, set_next_of, set_prev, set_prev_of}

-- The first and the last element, or what stands before and after the segment.
abbrev pub first_or : List ℕ → Option ℕ → Option ℕ
first_or [] q = q
first_or (x ∷ xs) q = some x

abbrev pub last_or : List ℕ → Option ℕ → Option ℕ
last_or [] p = p
last_or (x ∷ xs) p = last_or xs (some x)

-- The elements are linked in this order, from the element `p` before them to the element `q` after them.
abbrev pub IsSegment : Links → Option ℕ → List ℕ → Option ℕ → Type 0
IsSegment h p [] q = Unit {0}
IsSegment h p (x ∷ xs) q = (h.prev x ≡ p) × (h.next x ≡ first_or xs q) × IsSegment h (some x) xs q

abbrev pub NotIn : ℕ → List ℕ → Type 0
NotIn x xs = All (λ y. y ≢ x) xs

abbrev pub Nodup : List ℕ → Type 0
Nodup [] = Unit {0}
Nodup (x ∷ xs) = NotIn x xs × Nodup xs

-- A pointer is null or to no element of the list.
abbrev pub Avoids : Option ℕ → List ℕ → Type 0
Avoids none xs = Unit {0}
Avoids (some x) xs = NotIn x xs

pub assign_self : (f : ℕ → Option ℕ) (x : ℕ) (v : Option ℕ) → assign f x v x ≡ v
assign_self f x v = ground arith

pub assign-other : (f : ℕ → Option ℕ) (x : ℕ) (v : Option ℕ) (y : ℕ) → y ≢ x → assign f x v y ≡ f y
assign-other f x v y h = ground arith

first_or-append :
    (ls rs : List ℕ) (q : Option ℕ) → first_or (ls ++ rs) q ≡ first_or ls (first_or rs q)
first_or-append [] rs q = refl
first_or-append (a ∷ ls) rs q = refl

pub last_or-append :
    (ls rs : List ℕ) (p : Option ℕ) → last_or (ls ++ rs) p ≡ last_or rs (last_or ls p)
last_or-append [] rs p = refl
last_or-append (a ∷ ls) rs p = last_or-append ls rs (some a)

pub IsSegment-split :
    (h : Links) (p : Option ℕ) (ls rs : List ℕ) (q : Option ℕ)
    → IsSegment h p (ls ++ rs) q
    → IsSegment h p ls (first_or rs q) × IsSegment h (last_or ls p) rs q
IsSegment-split h p [] rs q s = (tt, s)
IsSegment-split h p (a ∷ ls) rs q s =
    let (left, right) = IsSegment-split h (some a) ls rs q s.2 in
    ((s.0, s.1 ∙ first_or-append ls rs q, left), right)

pub IsSegment-join :
    (h : Links) (p : Option ℕ) (ls rs : List ℕ) (q : Option ℕ)
    → IsSegment h p ls (first_or rs q)
    → IsSegment h (last_or ls p) rs q
    → IsSegment h p (ls ++ rs) q
IsSegment-join h p [] rs q s t = t
IsSegment-join h p (a ∷ ls) rs q s t =
    (s.0, s.1 ∙ sym (first_or-append ls rs q), IsSegment-join h (some a) ls rs q s.2 t)

-- Writing the links of an element that is not in the segment leaves it as it is.
pub set_next-IsSegment :
    (h : Links) (x : ℕ) (v p : Option ℕ) (xs : List ℕ) (q : Option ℕ)
    → NotIn x xs
    → IsSegment h p xs q
    → IsSegment (set_next x v h) p xs q
set_next-IsSegment h x v p [] q n s = tt
set_next-IsSegment h x v p (y ∷ ys) q n s =
    (s.0, assign-other h.next x v y n.0 ∙ s.1, set_next-IsSegment h x v (some y) ys q n.1 s.2)

pub set_prev-IsSegment :
    (h : Links) (x : ℕ) (v p : Option ℕ) (xs : List ℕ) (q : Option ℕ)
    → NotIn x xs
    → IsSegment h p xs q
    → IsSegment (set_prev x v h) p xs q
set_prev-IsSegment h x v p [] q n s = tt
set_prev-IsSegment h x v p (y ∷ ys) q n s =
    (assign-other h.prev x v y n.0 ∙ s.0, s.1, set_prev-IsSegment h x v (some y) ys q n.1 s.2)

pub set_next_of-IsSegment :
    (h : Links) (x v p : Option ℕ) (xs : List ℕ) (q : Option ℕ)
    → Avoids x xs
    → IsSegment h p xs q
    → IsSegment (set_next_of x v h) p xs q
set_next_of-IsSegment h none v p xs q n s = s
set_next_of-IsSegment h (some x) v p xs q n s = set_next-IsSegment h x v p xs q n s

pub set_prev_of-IsSegment :
    (h : Links) (x v p : Option ℕ) (xs : List ℕ) (q : Option ℕ)
    → Avoids x xs
    → IsSegment h p xs q
    → IsSegment (set_prev_of x v h) p xs q
set_prev_of-IsSegment h none v p xs q n s = s
set_prev_of-IsSegment h (some x) v p xs q n s = set_prev-IsSegment h x v p xs q n s

-- Writing the link of the last element moves the end of the segment.
pub last-other : (x y : ℕ) (ys : List ℕ) → NotIn x (y ∷ ys) → Avoids (last_or ys (some y)) (x ∷ [])
last-other x y [] n = ((λ e. n.0 (sym e)), tt)
last-other x y (z ∷ ys) n = last-other x z ys n.1

pub set_next_of-other :
    (h : Links) (o v : Option ℕ) (x : ℕ)
    → Avoids o (x ∷ [])
    → ((set_next_of o v h).prev x ≡ h.prev x) × ((set_next_of o v h).next x ≡ h.next x)
set_next_of-other h none v x a = (refl, refl)
set_next_of-other h (some y) v x a = (refl, assign-other h.next y v x a.0)

pub set_next_of-last :
    (h : Links) (p : Option ℕ) (xs : List ℕ) (q v : Option ℕ)
    → Nodup xs
    → IsSegment h p xs q
    → IsSegment (set_next_of (last_or xs none) v h) p xs v
set_next_of-last h p [] q v d s = tt
set_next_of-last h p (x ∷ []) q v d s = (s.0, assign_self h.next x v, tt)
set_next_of-last h p (x ∷ y ∷ ys) q v d s =
    let rest = set_next_of-last h (some x) (y ∷ ys) q v d.1 s.2 in
    let (same_prev, same_next) =
      set_next_of-other h (last_or ys (some y)) v x (last-other x y ys d.0) in
    (same_prev ∙ s.0, same_next ∙ s.1, rest)

pub set_prev_of-first :
    (h : Links) (p : Option ℕ) (xs : List ℕ) (q v : Option ℕ)
    → Nodup xs
    → IsSegment h p xs q
    → IsSegment (set_prev_of (first_or xs none) v h) v xs q
set_prev_of-first h p [] q v d s = tt
set_prev_of-first h p (x ∷ xs) q v d s =
    (assign_self h.prev x v, s.1, set_prev-IsSegment h x v (some x) xs q d.0 s.2)
