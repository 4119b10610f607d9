-- ===== src/Util/Slist/Transfer.antt =====
-- Moving the elements of one list to the end of another, `nchan_slist_transfer`.
use nchan.Prelude.{
  All, List, Option, ap, ap₂, arith, false, if◌then◌else◌, length, none, refl, some, suc, ℕ, [],
  ◌+◌, ◌==◌, ◌∙◌, ◌∷◌, ◌≡◌,
}
use nchan.Util.Links.{Links, is_null, set_next, set_prev}
use nchan.Util.Links.Segment.{
  IsSegment, NotIn, assign_self, last_or, set_next-IsSegment, set_prev-IsSegment,
}
use nchan.Util.Slist.{Slist, slist_transfer, transfer_links}
use nchan.Util.Slist.Correct.{Holds}

-- The result for a source that is not empty.
moved : Links → Slist → Slist → Option (Links × Slist × Slist)
moved h dst src = some (
  h,
  record {
    head = if is_null dst.head then src.head else dst.head;
    tail = src.tail;
    n = dst.n + src.n;
  },
  record { head = none; tail = none; n = 0 },
)

transfer-some :
    (h h' : Links) (dst src : Slist)
    → (src.n == 0) ≡ false
    → transfer_links dst.tail src.head src.tail h ≡ some h'
    → slist_transfer h dst src ≡ moved h' dst src
unfolding slist_transfer moved
transfer-some h h' dst src z e = rw (z, e) refl

transfer_links-empty :
    (h : Links) (y : ℕ) (o : Option ℕ) → transfer_links none (some y) o h ≡ some (set_prev y none h)
unfolding transfer_links
transfer_links-empty h y o = refl

not_zero : (n m : ℕ) → n ≡ suc m → (n == 0) ≡ false
not_zero n m e = ground arith

-- Moving to an empty list gives it all the elements in order, and empties the source.
pub slist_transfer-empty :
    (h : Links) (dst src : Slist) (y : ℕ) (ys : List ℕ)
    → Holds (h, dst) []
    → Holds (h, src) (y ∷ ys)
    → (h' : Links) × (dst' : Slist) × (src' : Slist) × (slist_transfer h dst src
        ≡ some (h', dst', src'))
      × Holds (h', dst') (y ∷ ys)
      × Holds (h', src') []
unfolding moved
slist_transfer-empty h dst src y ys d s = (
  set_prev y none h,
  _,
  _,
  transfer-some h (set_prev y none h) dst src (not_zero src.n (length ys) s.counted) (
      ap₂ (λ t k. transfer_links t k src.tail h) d.tail s.head ∙ transfer_links-empty h y src.tail),
  record {
    head = rw (d.head, s.head) refl;
    tail = s.tail;
    counted = omega (arith, d.counted, s.counted);
    linked = (
      assign_self h.prev y none,
      s.linked.1,
      set_prev-IsSegment h y none (some y) ys none s.distinct.0 s.linked.2,
    );
    distinct = s.distinct;
  },
  record { head = refl; tail = refl; counted = refl; linked = tt; distinct = tt },
)

transfer_links-full :
    (h : Links) (t y l : ℕ)
    → transfer_links (some t) (some y) (some l) h
      ≡ some (set_next l (some y) (set_prev y (some t) h))
unfolding transfer_links
transfer_links-full h t y l = refl

some_last :
    (P : ℕ → Type 0) (x : ℕ) (xs : List ℕ)
    → All P (x ∷ xs)
    → (l : ℕ) × (last_or xs (some x) ≡ some l) × P l
some_last P x [] a = (x, refl, a.0)
some_last P x (y ∷ ys) a = some_last P y ys a.1

All-true : (xs : List ℕ) → All (λ x. Unit {0}) xs
All-true [] = tt
All-true (x ∷ xs) = (tt, All-true xs)

-- Moving to a list that is not empty does not: the links lead from the head of the destination over its old
-- elements only, and end there, while its count and its tail take in those of the source.
pub slist_transfer-loses :
    (h : Links) (dst src : Slist) (x : ℕ) (xs : List ℕ) (y : ℕ) (ys : List ℕ)
    → Holds (h, dst) (x ∷ xs)
    → Holds (h, src) (y ∷ ys)
    → All (λ z. NotIn z (x ∷ xs)) (y ∷ ys)
    → (h' : Links) × (dst' : Slist) × (src' : Slist) × (slist_transfer h dst src
        ≡ some (h', dst', src'))
      × (dst'.head ≡ some x)
      × IsSegment h' none (x ∷ xs) none
      × (dst'.n ≡ length (x ∷ xs) + length (y ∷ ys))
      × (dst'.tail ≡ last_or (y ∷ ys) none)
unfolding moved
slist_transfer-loses h dst src x xs y ys d s apart =
    let (t, at_t, _) = some_last (λ z. Unit {0}) x xs (All-true (x ∷ xs)) in
    let (l, at_l, away) = some_last (λ z. NotIn z (x ∷ xs)) y ys apart in
    let h1 = set_prev y (some t) h in
    (
      set_next l (some y) h1,
      _,
      _,
      transfer-some h (set_next l (some y) h1) dst src (not_zero src.n (length ys) s.counted) (
          ap₂ (λ a b. transfer_links a src.head b h) (d.tail ∙ at_t) (s.tail ∙ at_l)
          ∙ ap (λ a. transfer_links (some t) a (some l) h) s.head
          ∙ transfer_links-full h t y l),
      rw d.head refl,
      set_next-IsSegment h1 l (some y) none (x ∷ xs) none away
          (set_prev-IsSegment h y (some t) none (x ∷ xs) none apart.0 d.linked),
      omega (arith, d.counted, s.counted),
      s.tail,
    )
