-- ===== src/Util/LinkedList/Correct.antt =====
-- The allocating list as a sequence, where its operations keep it one.
use nchan.Util.Links.Edit.{
  IsSegment-prepend, IsSegment-unlink, Nodup-split, first-other, last-Avoids,
}
use nchan.Prelude.{
  Bool, List, Option, ap, ap₂, arith, if◌then◌else◌, length, length-append, none, refl, some, subst,
  suc, sym, zero, ℕ, [], ◌++◌, ◌+◌, ◌<◌, ◌∙◌, ◌∷◌, ◌≡◌, ◌≢◌,
}
use nchan.Util.Links.{
  Links, assign, is_null, points_to, set_next, set_next_of, set_prev, set_prev_of,
}
use nchan.Util.Links.Segment.{
  Avoids, IsSegment, NotIn, assign-other, assign_self, first_or, last_or, set_next_of-other,
}
use nchan.Util.Slist.{Slist, decrement, slist_append}
use nchan.Util.Slist.Correct.{
  Holds, Nodup-remove, NotIn-flip, append_links-eq, decrement-suc, new_head, new_tail,
  slist_append-Holds,
}
use nchan.Util.LinkedList.{
  LinkedList, list_append_sized, list_prepend_sized, list_remove, list_traverse_and_empty, traverse,
}

-- The same fields as a list of util/nchan_slist.c.
abbrev pub as_slist : Links × LinkedList → Links × Slist
as_slist (h, list) = (h, record { head = list.head; tail = list.tail; n = list.n })

-- The two ways of appending do the same to the links, the head, the tail and the count.
pub list_append_sized-slist_append :
    (el : ℕ) (pool_sz : Bool) (s : Links × LinkedList)
    → as_slist (list_append_sized el pool_sz s) ≡ slist_append el (as_slist s)
unfolding list_append_sized slist_append
list_append_sized-slist_append el pool_sz (h, list) =
    ap
      (λ k. (
        set_next el none k,
        record {
          head = if is_null list.head then some el else list.head;
          tail = some el;
          n = list.n + 1;
        },
      ))
      (swap list.tail ∙ sym (append_links-eq list.tail el h))
  where
    swap :
        (t : Option ℕ)
        → set_prev el t (set_next_of t (some el) h) ≡ set_next_of t (some el) (set_prev el t h)
    swap none = refl
    swap (some t) = refl

-- What is appended to a list stands at its end.
list_append_sized-Holds :
    (el : ℕ) (pool_sz : Bool) (h : Links) (list : LinkedList) (xs : List ℕ)
    → Holds (as_slist (h, list)) xs
    → NotIn el xs
    → Holds (as_slist (list_append_sized el pool_sz (h, list))) (xs ++ el ∷ [])
list_append_sized-Holds el pool_sz h list xs r n =
    rw (list_append_sized-slist_append el pool_sz (h, list))
      (slist_append-Holds el h (as_slist (h, list)).1 xs r n)

-- Prepending to a list that is not empty puts the element at its front.
list_prepend_sized-Holds :
    (el : ℕ) (h : Links) (list : LinkedList) (x : ℕ) (xs : List ℕ)
    → Holds (as_slist (h, list)) (x ∷ xs)
    → NotIn el (x ∷ xs)
    → Holds (as_slist (list_prepend_sized el (h, list))) (el ∷ x ∷ xs)
unfolding list_prepend_sized
list_prepend_sized-Holds el h list x xs r n = record {
  head = refl;
  tail = r.tail;
  counted = omega (arith, r.counted);
  linked =
      subst (λ k. IsSegment k none (el ∷ x ∷ xs) none)
        (sym (swap (some x))
          ∙ ap (λ t. set_next el t (set_prev el none (set_prev_of t (some el) h))) (sym r.head))
        (IsSegment-prepend h (x ∷ xs) el r.linked r.distinct n);
  distinct = (n, r.distinct);
}
  where
    swap :
        (t : Option ℕ)
        → set_next el t (set_prev el none (set_prev_of t (some el) h))
          ≡ set_prev el none (set_prev_of t (some el) (set_next el t h))
    swap none = refl
    swap (some t) = refl

-- After `el` was prepended and `el'` appended, `el'` cannot be reached from the head.
pub Loses : ℕ → ℕ → Bool → Links → LinkedList → Type 0
Loses el el' pool_sz h list =
    (h' : Links) × (list' : LinkedList) × (list_append_sized el' pool_sz
        (list_prepend_sized el (h, list))
      ≡ (h', list'))
    × (list'.head ≡ some el)
    × (h'.next el ≡ none)
    × (list'.tail ≡ some el')
    × (list'.n ≡ list.n + 2)
    × ((list_traverse_and_empty (h', list')).0 ≡ el ∷ [])

traverse-end :
    (rounds : ℕ) (h : Links) (el : ℕ)
    → 1 < rounds
    → h.next el ≡ none
    → traverse rounds h (some el) ≡ el ∷ []
unfolding traverse
traverse-end zero h el b e = absurd (omega arith)
traverse-end (suc zero) h el b e = absurd (omega arith)
traverse-end (suc (suc rounds)) h el b e = rw e refl

Loses-empty :
    (el el' n : ℕ) (pool_sz pooled : Bool) (h : Links)
    → el ≢ el'
    → Loses el el' pool_sz h (record { head = none; tail = none; n = n; pooled = pooled })
unfolding Loses list_prepend_sized list_append_sized list_traverse_and_empty
Loses-empty el el' n pool_sz pooled h ne =
    let unlinked =
      assign-other (assign h.next el none) el' none el ne ∙ assign_self h.next el none in
    (
      _,
      _,
      refl,
      refl,
      unlinked,
      refl,
      omega arith,
      traverse-end (n + 1 + 1 + 1)
          (set_next el' none (set_prev el' none (set_next el none (set_prev el none h)))) el
          (omega arith) unlinked,
    )

-- Prepending to an empty list leaves it without a tail, so what is appended next is not linked to it:
-- the new element is the tail and both are counted, but the links from the head end after the prepended element, and a traversal
-- visits that one only.
pub list_prepend_sized-Loses :
    (el el' : ℕ) (pool_sz : Bool) (h : Links) (list : LinkedList)
    → Holds (as_slist (h, list)) []
    → el ≢ el'
    → Loses el el' pool_sz h list
list_prepend_sized-Loses el el' pool_sz h list r ne =
    let with_ends : Option ℕ → Option ℕ → LinkedList =
      λ a b. record { head = a; tail = b; n = list.n; pooled = list.pooled } in
    let empty : list ≡ with_ends none none = ap₂ with_ends r.head r.tail in
    subst (Loses el el' pool_sz h) (sym empty) (Loses-empty el el' list.n pool_sz list.pooled h ne)

traverse-IsSegment :
    (rounds : ℕ) (h : Links) (p : Option ℕ) (xs : List ℕ)
    → IsSegment h p xs none
    → length xs < rounds
    → traverse rounds h (first_or xs none) ≡ xs
unfolding traverse
traverse-IsSegment zero h p xs s b = absurd (omega arith)
traverse-IsSegment (suc rounds) h p [] s b = refl
traverse-IsSegment (suc rounds) h p (x ∷ xs) s b =
    rw s.1 (ap (λ l. x ∷ l) (traverse-IsSegment rounds h (some x) xs s.2 (omega arith)))

-- A traversal calls back with each element once, in order, and leaves the list empty.
pub list_traverse_and_empty-Holds :
    (h : Links) (list : LinkedList) (xs : List ℕ)
    → Holds (as_slist (h, list)) xs
    → ((list_traverse_and_empty (h, list)).0 ≡ xs)
      × Holds (as_slist (h, (list_traverse_and_empty (h, list)).1)) []
unfolding list_traverse_and_empty
list_traverse_and_empty-Holds h list xs r = (
  ap (traverse (list.n + 1) h) r.head
      ∙ traverse-IsSegment (list.n + 1) h none xs r.linked (omega (arith, r.counted)),
  record { head = refl; tail = refl; counted = refl; linked = tt; distinct = tt },
)

set_prev_of-other :
    (h : Links) (o v : Option ℕ) (x : ℕ)
    → Avoids o (x ∷ [])
    → ((set_prev_of o v h).prev x ≡ h.prev x) × ((set_prev_of o v h).next x ≡ h.next x)
set_prev_of-other h none v x a = (refl, refl)
set_prev_of-other h (some y) v x a = (assign-other h.prev y v x a.0, refl)

-- The reads and writes of `nchan_list_remove`, when the links of the element are `p` and `q`.
remove_links :
    (h : Links) (list : LinkedList) (el : ℕ) (p q : Option ℕ)
    → h.prev el ≡ p
    → h.next el ≡ q
    → Avoids p (el ∷ [])
    → Avoids q (el ∷ [])
    → list_remove el (h, list) ≡ (
      set_prev_of q p (set_next_of p q h),
      record {
        head = if points_to list.head el then q else list.head;
        tail = if points_to list.tail el then p else list.tail;
        n = decrement list.n;
        pooled = list.pooled;
      },
    )
unfolding list_remove
remove_links h list el p q before after ap aq =
    let (p1, n1) = set_next_of-other h p q el ap in
    let (p2, n2) = set_prev_of-other (set_next_of p q h) q p el aq in
    rw (before, after, n1, p1, before, after, p2, n2, p1, n1, before, after) refl

-- Removing takes the element out, wherever in the list it is.
pub list_remove-Holds :
    (h : Links) (list : LinkedList) (ls : List ℕ) (el : ℕ) (rs : List ℕ)
    → Holds (as_slist (h, list)) (ls ++ el ∷ rs)
    → Holds (as_slist (list_remove el (h, list))) (ls ++ rs)
list_remove-Holds h list ls el rs r =
    let (before, after, joined) = IsSegment-unlink h ls el rs r.linked r.distinct in
    let (dl, dr, nl, nr, apart) = Nodup-split ls el rs r.distinct in
    subst (λ s. Holds (as_slist s) (ls ++ rs))
      (sym (
        remove_links h list el (last_or ls none) (first_or rs none) before after
          (last-Avoids ls (el ∷ []) (NotIn-flip el ls nl)) (first-other el rs nr)))
      (record {
        head = rw r.head (new_head ls el rs nl);
        tail = rw r.tail (new_tail ls el rs nr);
        counted =
            decrement-suc list.n (length (ls ++ rs))
              (omega (arith, r.counted, length-append ls (el ∷ rs), length-append ls rs));
        linked = joined;
        distinct = Nodup-remove ls el rs r.distinct;
      })
