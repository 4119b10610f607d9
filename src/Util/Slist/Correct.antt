-- ===== src/Util/Slist/Correct.antt =====
-- The linked list as a sequence: each operation of util/nchan_slist.c does what its name says.
use nchan.Util.Links.Edit.{IsSegment-append, IsSegment-prepend, IsSegment-unlink, Nodup-split}
use nchan.Prelude.{
  All, All-append, List, Option, ap, arith, if◌then◌else◌, length, length-append, none, refl, some,
  subst, suc, sym, ℕ, [], ◌++◌, ◌==◌, ◌∙◌, ◌∷◌, ◌≡◌, ◌≢◌,
}
use nchan.Util.Links.{Links, is_null, points_to, set_next, set_next_of, set_prev, set_prev_of}
use nchan.Util.Links.Segment.{
  Avoids, IsSegment, Nodup, NotIn, assign_self, first_or, last-other, last_or, last_or-append,
  set_next-IsSegment, set_prev-IsSegment,
}
use nchan.Util.Slist.{
  Slist, append_links, decrement, prepend_links, slist_append, slist_prepend, slist_remove,
}

-- The list and the links stand for the sequence, whose elements are all different.
pub record Holds (s : Links × Slist) (xs : List ℕ) : Type 0 where
  pub head : s.1.head ≡ first_or xs none
  pub tail : s.1.tail ≡ last_or xs none
  pub counted : s.1.n ≡ length xs
  pub linked : IsSegment s.0 none xs none
  pub distinct : Nodup xs

pub Nodup-append :
    (ls rs : List ℕ) → Nodup ls → Nodup rs → All (λ x. NotIn x rs) ls → Nodup (ls ++ rs)
Nodup-append [] rs d e a = e
Nodup-append (x ∷ ls) rs d e a =
    (All-append (λ y. y ≢ x) ls rs d.0 a.0, Nodup-append ls rs d.1 e a.1)

pub NotIn-flip : (x : ℕ) (xs : List ℕ) → NotIn x xs → All (λ y. NotIn y (x ∷ [])) xs
NotIn-flip x [] n = tt
NotIn-flip x (y ∷ ys) n = ((λ e. n.0 (sym e), tt), NotIn-flip x ys n.1)

pub is_null-first :
    (xs : List ℕ) (el : ℕ)
    → (if is_null (first_or xs none) then some el else first_or xs none)
      ≡ first_or (xs ++ el ∷ []) none
is_null-first [] el = refl
is_null-first (x ∷ xs) el = refl

pub append_links-eq :
    (t : Option ℕ) (el : ℕ) (h : Links)
    → append_links t el h ≡ set_next_of t (some el) (set_prev el t h)
unfolding append_links
append_links-eq none el h = refl
append_links-eq (some t) el h = refl

prepend_links-eq :
    (t : Option ℕ) (el : ℕ) (h : Links)
    → prepend_links t el h ≡ set_prev_of t (some el) (set_next el t h)
unfolding prepend_links
prepend_links-eq none el h = refl
prepend_links-eq (some t) el h = refl

-- Appending an element that is not in the list puts it at the end.
pub slist_append-Holds :
    (el : ℕ) (h : Links) (list : Slist) (xs : List ℕ)
    → Holds (h, list) xs
    → NotIn el xs
    → Holds (slist_append el (h, list)) (xs ++ el ∷ [])
unfolding slist_append
slist_append-Holds el h list xs r n = record {
  head = rw r.head (is_null-first xs el);
  tail = sym (last_or-append xs (el ∷ []) none);
  counted = omega (arith, r.counted, length-append xs (el ∷ []));
  linked =
      subst (λ k. IsSegment (set_next el none k) none (xs ++ el ∷ []) none)
        (sym (append_links-eq (last_or xs none) el h) ∙ ap (λ t. append_links t el h) (sym r.tail))
        (IsSegment-append h xs el none r.linked r.distinct n);
  distinct = Nodup-append xs (el ∷ []) r.distinct (tt, tt) (NotIn-flip el xs n);
}

is_null-last :
    (xs : List ℕ) (el : ℕ)
    → (if is_null (last_or xs none) then some el else last_or xs none) ≡ last_or xs (some el)
is_null-last [] el = refl
is_null-last (x ∷ xs) el = some_last xs x
  where
    some_last :
        (xs : List ℕ) (x : ℕ)
        → (if is_null (last_or xs (some x)) then some el else last_or xs (some x))
          ≡ last_or xs (some x)
    some_last [] x = refl
    some_last (y ∷ ys) x = some_last ys y

-- Prepending an element that is not in the list puts it at the front.
slist_prepend-Holds :
    (el : ℕ) (h : Links) (list : Slist) (xs : List ℕ)
    → Holds (h, list) xs
    → NotIn el xs
    → Holds (slist_prepend el (h, list)) (el ∷ xs)
unfolding slist_prepend
slist_prepend-Holds el h list xs r n = record {
  head = refl;
  tail = rw r.tail (is_null-last xs el);
  counted = omega (arith, r.counted);
  linked =
      subst (λ k. IsSegment (set_prev el none k) none (el ∷ xs) none)
        (sym (prepend_links-eq (first_or xs none) el h)
          ∙ ap (λ t. prepend_links t el h) (sym r.head))
        (IsSegment-prepend h xs el r.linked r.distinct n);
  distinct = (n, r.distinct);
}

points_self : (x : ℕ) (a b : Option ℕ) → (if points_to (some x) x then a else b) ≡ a
points_self x a b = ground arith

points-other :
    (o : Option ℕ) (x : ℕ) (a b : Option ℕ)
    → Avoids o (x ∷ [])
    → (if points_to o x then a else b) ≡ b
points-other none x a b n = refl
points-other (some y) x a b n = by_ne y x (λ e. n.0 (sym e))
  where
    by_ne : (y x : ℕ) → y ≢ x → (if y == x then a else b) ≡ b
    by_ne y x h = ground arith

pub new_head :
    (ls : List ℕ) (el : ℕ) (rs : List ℕ)
    → NotIn el ls
    → (if points_to (first_or (ls ++ el ∷ rs) none) el
        then first_or rs none
        else first_or (ls ++ el ∷ rs) none)
      ≡ first_or (ls ++ rs) none
new_head [] el rs n = points_self el (first_or rs none) (some el)
new_head (x ∷ ls) el rs n =
    points-other (some x) el (first_or rs none) (some x) ((λ e. n.0 (sym e)), tt)

pub new_tail :
    (ls : List ℕ) (el : ℕ) (rs : List ℕ)
    → NotIn el rs
    → (if points_to (last_or (ls ++ el ∷ rs) none) el
        then last_or ls none
        else last_or (ls ++ el ∷ rs) none)
      ≡ last_or (ls ++ rs) none
new_tail ls el rs n = rw (last_or-append ls (el ∷ rs) none, last_or-append ls rs none) (by_end rs n)
  where
    by_end :
        (rs : List ℕ)
        → NotIn el rs
        → (if points_to (last_or rs (some el)) el then last_or ls none else last_or rs (some el))
          ≡ last_or rs (last_or ls none)
    by_end [] n = points_self el (last_or ls none) (some el)
    by_end (r ∷ rs) n =
        points-other (last_or rs (some r)) el (last_or ls none) (last_or rs (some r))
          (last-other el r rs n)

pub Nodup-remove : (ls : List ℕ) (el : ℕ) (rs : List ℕ) → Nodup (ls ++ el ∷ rs) → Nodup (ls ++ rs)
Nodup-remove ls el rs d =
    let (dl, dr, nl, nr, apart) = Nodup-split ls el rs d in Nodup-append ls rs dl dr apart

pub NotIn-append : (x : ℕ) (ls rs : List ℕ) → NotIn x ls → NotIn x rs → NotIn x (ls ++ rs)
NotIn-append x ls rs a b = All-append (λ y. y ≢ x) ls rs a b

pub decrement-suc : (n m : ℕ) → n ≡ suc m → decrement n ≡ m
decrement-suc n m e = ground arith

-- Removing an element takes it out, wherever in the list it is, and clears its links.
pub slist_remove-Holds :
    (h : Links) (list : Slist) (ls : List ℕ) (el : ℕ) (rs : List ℕ)
    → Holds (h, list) (ls ++ el ∷ rs)
    → Holds (slist_remove el (h, list)) (ls ++ rs)
      × ((slist_remove el (h, list)).0.prev el ≡ none)
      × ((slist_remove el (h, list)).0.next el ≡ none)
unfolding slist_remove
slist_remove-Holds h list ls el rs r =
    let (before, after, joined) = IsSegment-unlink h ls el rs r.linked r.distinct in
    let (dl, dr, nl, nr, apart) = Nodup-split ls el rs r.distinct in
    let away = NotIn-append el ls rs nl nr in
    let h1 = set_next_of (last_or ls none) (first_or rs none) h in
    let h2 = set_prev_of (first_or rs none) (last_or ls none) h1 in
    rw (before, after)
      (
        record {
          head = rw r.head (new_head ls el rs nl);
          tail = rw r.tail (new_tail ls el rs nr);
          counted =
              decrement-suc list.n (length (ls ++ rs))
                (omega (arith, r.counted, length-append ls (el ∷ rs), length-append ls rs));
          linked =
              set_next-IsSegment (set_prev el none h2) el none none (ls ++ rs) none away
                (set_prev-IsSegment h2 el none none (ls ++ rs) none away joined);
          distinct = Nodup-remove ls el rs r.distinct;
        },
        assign_self h2.prev el none,
        assign_self h2.next el none,
      )
