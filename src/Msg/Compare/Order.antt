-- ===== src/Msg/Compare/Order.antt =====
-- That the comparisons are orders, and agree with one another.
use nchan.Prelude.{
  Bool-cases, List, arith, false, get_elem?, if◌then◌else◌, inl, inr, length, length-take, refl,
  some, suc, true, zero, ℕ, [], ◌∷◌, ◌≡◌, ◌⊎◌,
}
use nchan.Prelude.Int.{eqb_ℤ, ltb_ℤ, negsuc, pos, ℤ, ◌<ℤ◌, ◌≤ℤ◌}
use nchan.Msg.Id.{IsWf, MsgId, fixed_tags, tags}
use nchan.Msg.Compare.{
  compare_msgids, compare_padded, counted_tags, msg_ids_equal, spool_rbtree_compare, tags_equal,
  three_way,
}

-- An id of one channel: its only tag is `s`.
pub record IsSingle (id : MsgId) (s : ℤ) : Type 0 where
  pub one : id.tagcount ≡ 1
  pub only : get_elem? (fixed_tags id.tag) 0 ≡ some s

abbrev pub lex : ℤ → ℤ → ℤ → ℤ → ℤ
lex t1 s1 t2 s2 = three_way t1 t2 (three_way s1 s2 (pos 0))

-- One-channel ids are compared by their second, then by their tag; no assertion fails.
pub compare_msgids-eq-lex :
    (a b : MsgId) (s t : ℤ)
    → IsSingle a s
    → IsSingle b t
    → compare_msgids a b ≡ some (lex a.time s b.time t)
unfolding compare_msgids
compare_msgids-eq-lex a b s t p q = ground arith

compare_padded_self : (xs : List ℤ) → compare_padded xs xs ≡ pos 0
unfolding compare_padded
compare_padded_self [] = refl
compare_padded_self (x ∷ xs) = ground (arith, compare_padded_self xs)

compare_padded_trans :
    (xs ys zs : List ℤ)
    → compare_padded xs ys ≤ℤ pos 0
    → compare_padded ys zs ≤ℤ pos 0
    → compare_padded xs zs
      ≡ (if eqb_ℤ (compare_padded xs ys) (pos 0) then compare_padded ys zs else negsuc 0)
unfolding compare_padded
compare_padded_trans [] [] [] h k = refl
compare_padded_trans [] [] (z ∷ zs) h k = ground (arith, compare_padded_trans [] [] zs)
compare_padded_trans [] (y ∷ ys) [] h k = ground (arith, compare_padded_trans [] ys [])
compare_padded_trans [] (y ∷ ys) (z ∷ zs) h k = ground (arith, compare_padded_trans [] ys zs)
compare_padded_trans (x ∷ xs) [] [] h k = ground (arith, compare_padded_trans xs [] [])
compare_padded_trans (x ∷ xs) [] (z ∷ zs) h k = ground (arith, compare_padded_trans xs [] zs)
compare_padded_trans (x ∷ xs) (y ∷ ys) [] h k = ground (arith, compare_padded_trans xs ys [])
compare_padded_trans (x ∷ xs) (y ∷ ys) (z ∷ zs) h k = ground (arith, compare_padded_trans xs ys zs)

abbrev pub negate : ℤ → ℤ
negate c = three_way (pos 0) c (pos 0)

compare_padded-swap : (xs ys : List ℤ) → compare_padded ys xs ≡ negate (compare_padded xs ys)
unfolding compare_padded
compare_padded-swap [] [] = refl
compare_padded-swap [] (y ∷ ys) = ground (arith, compare_padded-swap [] ys)
compare_padded-swap (x ∷ xs) [] = ground (arith, compare_padded-swap xs [])
compare_padded-swap (x ∷ xs) (y ∷ ys) = ground (arith, compare_padded-swap xs ys)

-- Both ways round a comparison is negated.
pub spool_rbtree_compare_swap :
    (a b : MsgId) → spool_rbtree_compare b a ≡ negate (spool_rbtree_compare a b)
unfolding spool_rbtree_compare
spool_rbtree_compare_swap a b =
    ground (arith, compare_padded-swap (counted_tags a) (counted_tags b))

-- From a ≤ b and b ≤ c follows a ≤ c, which is strict where either of the two is.
pub spool_rbtree_compare_trans :
    (a b c : MsgId)
    → spool_rbtree_compare a b ≤ℤ pos 0
    → spool_rbtree_compare b c ≤ℤ pos 0
    → spool_rbtree_compare a c
      ≡ (if eqb_ℤ (spool_rbtree_compare a b) (pos 0) then spool_rbtree_compare b c else negsuc 0)
unfolding spool_rbtree_compare
spool_rbtree_compare_trans a b c h k =
    ground (arith, compare_padded_trans (counted_tags a) (counted_tags b) (counted_tags c))

-- What an id is ordered by: its second, then its tags in turn, those that it lacks as -1.
abbrev pub tag_at : List ℤ → ℕ → ℤ
tag_at [] i = negsuc 0
tag_at (t ∷ ts) zero = t
tag_at (t ∷ ts) (suc i) = tag_at ts i

abbrev pub key : MsgId → ℕ → ℤ
key id zero = id.time
key id (suc i) = tag_at (counted_tags id) i

-- Two sequences agree before an index.
abbrev pub Agree : (ℕ → ℤ) → (ℕ → ℤ) → ℕ → Type 0
Agree f g zero = Unit
Agree f g (suc i) = Agree f g i × (f i ≡ g i)

-- The result 0 for sequences that are the same; -1 or 1 by the first place where they differ.
abbrev pub Lexicographic : (ℕ → ℤ) → (ℕ → ℤ) → ℤ → Type 0
Lexicographic f g c =
    ((c ≡ pos 0) × ((i : ℕ) → f i ≡ g i))
    ⊎ ((i : ℕ) × Agree f g i × (((c ≡ negsuc 0) × (f i <ℤ g i)) ⊎ ((c ≡ pos 1) × (g i <ℤ f i))))

module _ (f g : ℕ → ℤ) where
  Agree-later :
      (i : ℕ) → f zero ≡ g zero → Agree (λ k. f (suc k)) (λ k. g (suc k)) i → Agree f g (suc i)
  Agree-later zero same h = (tt, same)
  Agree-later (suc i) same (before, here) = (Agree-later i same before, here)

  Lexicographic-later :
      (c : ℤ)
      → f zero ≡ g zero
      → Lexicographic (λ k. f (suc k)) (λ k. g (suc k)) c
      → Lexicographic f g c
  Lexicographic-later c same (inl (equal, all)) = inl (equal, every)
    where
      every : (i : ℕ) → f i ≡ g i
      every zero = same
      every (suc i) = all i
  Lexicographic-later c same (inr (i, before, differ)) =
      inr (suc i, Agree-later i same before, differ)

  Lexicographic-three_way :
      (rest : ℤ)
      → Lexicographic (λ k. f (suc k)) (λ k. g (suc k)) rest
      → Lexicographic f g (three_way (f zero) (g zero) rest)
  Lexicographic-three_way rest h = elim (Bool-cases (ltb_ℤ (f zero) (g zero))) [
    | inl less ↦ rw less (inr (zero, tt, inl (refl, below (f zero) (g zero) less)))
    | inr not_less ↦ rw not_less (elim (Bool-cases (ltb_ℤ (g zero) (f zero))) [
      | inl more ↦ rw more (inr (zero, tt, inr (refl, below (g zero) (f zero) more)))
      | inr not_more ↦
          rw not_more (Lexicographic-later rest (equal (f zero) (g zero) not_less not_more) h)
    ])
  ]
    where
      below : (a b : ℤ) → ltb_ℤ a b ≡ true → a <ℤ b
      below a b h = ground arith

      equal : (a b : ℤ) → ltb_ℤ a b ≡ false → ltb_ℤ b a ≡ false → a ≡ b
      equal a b h k = ground arith

compare_padded-Lexicographic :
    (xs ys : List ℤ) → Lexicographic (tag_at xs) (tag_at ys) (compare_padded xs ys)
unfolding compare_padded
compare_padded-Lexicographic [] [] = inl (refl, λ i. refl)
compare_padded-Lexicographic [] (y ∷ ys) =
    Lexicographic-three_way (tag_at []) (tag_at (y ∷ ys)) _ (compare_padded-Lexicographic [] ys)
compare_padded-Lexicographic (x ∷ xs) [] =
    Lexicographic-three_way (tag_at (x ∷ xs)) (tag_at []) _ (compare_padded-Lexicographic xs [])
compare_padded-Lexicographic (x ∷ xs) (y ∷ ys) =
    Lexicographic-three_way (tag_at (x ∷ xs)) (tag_at (y ∷ ys)) _
      (compare_padded-Lexicographic xs ys)

-- Any two ids are compared lexicographically by their seconds and then their tags in turn, a tag that
-- one of them lacks counting as -1: the result is 0 exactly if all of these are the same, and else -1 or
-- 1 as the first that differs is less in the first id or in the second.
pub spool_rbtree_compare-Lexicographic :
    (a b : MsgId) → Lexicographic (key a) (key b) (spool_rbtree_compare a b)
unfolding spool_rbtree_compare
spool_rbtree_compare-Lexicographic a b =
    Lexicographic-three_way (key a) (key b) _
      (compare_padded-Lexicographic (counted_tags a) (counted_tags b))

compare_padded-tags_equal :
    (xs ys : List ℤ)
    → length xs ≡ length ys
    → eqb_ℤ (compare_padded xs ys) (pos 0) ≡ tags_equal xs ys
unfolding compare_padded tags_equal
compare_padded-tags_equal [] [] h = refl
compare_padded-tags_equal [] (y ∷ ys) h = absurd (omega arith)
compare_padded-tags_equal (x ∷ xs) [] h = absurd (omega arith)
compare_padded-tags_equal (x ∷ xs) (y ∷ ys) h =
    ground (arith, compare_padded-tags_equal xs ys (omega arith))

pub length-counted_tags : (id : MsgId) → IsWf id → length (counted_tags id) ≡ id.tagcount
length-counted_tags id w = omega (arith, length-take id.tagcount (tags id), w.within)

-- Two ids over the same channels share a spool, comparing as 0, exactly if `msg_ids_equal` holds.
pub spool_rbtree_compare-msg_ids_equal :
    (a b : MsgId)
    → IsWf a
    → IsWf b
    → a.tagcount ≡ b.tagcount
    → eqb_ℤ (spool_rbtree_compare a b) (pos 0) ≡ msg_ids_equal a b
unfolding spool_rbtree_compare msg_ids_equal
spool_rbtree_compare-msg_ids_equal a b v w e = ground (
  arith,
  compare_padded-tags_equal (counted_tags a) (counted_tags b),
  length-counted_tags a v,
  length-counted_tags b w,
)

counted_tags-IsSingle : (a : MsgId) (s : ℤ) → IsSingle a s → counted_tags a ≡ s ∷ []
counted_tags-IsSingle a s p = ground arith

-- On one-channel ids no assertion of `nchan_compare_msgids` fails, and it gives the order of the
-- spools, which is by second and then by tag.
pub compare_msgids-spool_rbtree_compare :
    (a b : MsgId) (s t : ℤ)
    → IsSingle a s
    → IsSingle b t
    → (compare_msgids a b ≡ some (spool_rbtree_compare a b))
      × (spool_rbtree_compare a b ≡ lex a.time s b.time t)
unfolding spool_rbtree_compare compare_padded
compare_msgids-spool_rbtree_compare a b s t p q = ground (
  arith,
  compare_msgids-eq-lex a b s t p q,
  counted_tags-IsSingle a s p,
  counted_tags-IsSingle b t q,
)
