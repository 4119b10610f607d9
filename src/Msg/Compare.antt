-- ===== src/Msg/Compare.antt =====
-- The orders on message ids: `nchan_compare_msgids` and `nchan_compare_msgid_tags` of
-- util/nchan_msg.c, `spool_rbtree_compare` and `msg_ids_equal` of store/spool.c.
pub mod Order
use nchan.Prelude.{
  Bool, List, Option, assert, false, get_elem?, if◌then◌else◌, leb, length, ltb, not, some, suc,
  take, true, ℕ, [], ◌&&◌, ◌==◌, ◌>>=◌, ◌>>◌, ◌||◌, ◌∷◌,
}
use nchan.Prelude.Int.{eqb_ℤ, leb_ℤ, ltb_ℤ, negsuc, pos, ℤ}
use nchan.Msg.Id.{MsgId, fixed_tags, tags, to_u8}

-- The result of C's three-way comparison of two numbers.
abbrev pub three_way : ℤ → ℤ → ℤ → ℤ
three_way a b equal = if ltb_ℤ a b then negsuc 0 else if ltb_ℤ b a then pos 1 else equal

abbrev pub nonneg_count : List ℤ → ℕ
nonneg_count [] = 0
nonneg_count (t ∷ ts) = if leb_ℤ (pos 0) t then suc (nonneg_count ts) else nonneg_count ts

-- A tag that the first id lacks counts as -1.
tag_or_minus_one : MsgId → ℕ → Option ℤ
tag_or_minus_one id i = if ltb i id.tagcount then get_elem? (tags id) i else some (negsuc 0)

-- `nchan_compare_msgid_tags`; `none` is a failed assertion or a read outside the tags.
unfoldable pub compare_msgid_tags : MsgId → MsgId → Option ℤ
unfolding tag_or_minus_one
compare_msgid_tags id1 id2 = do
  assert (eqb_ℤ id1.time id2.time)
  assert (leb id2.tagcount (length (tags id2)))
  assert (nonneg_count (take id2.tagcount (tags id2)) == 1)
  if eqb_ℤ id1.time (pos 0) && eqb_ℤ id2.time (pos 0) then some (pos 0) else do
    t1 ← tag_or_minus_one id1 (to_u8 id2.tagactive)
    t2 ← get_elem? (tags id2) (to_u8 id2.tagactive)
    some (three_way t1 t2 (pos 0))

-- `nchan_compare_msgids`
unfoldable pub compare_msgids : MsgId → MsgId → Option ℤ
unfolding compare_msgid_tags
compare_msgids id1 id2 = do
  assert (id1.tagcount == id2.tagcount)
  if ltb_ℤ id1.time id2.time
      then some (negsuc 0)
      else if ltb_ℤ id2.time id1.time
      then some (pos 1)
      else if id1.tagcount == 1
      then (do
        t1 ← get_elem? (fixed_tags id1.tag) 0
        t2 ← get_elem? (fixed_tags id2.tag) 0
        some (three_way t1 t2 (pos 0)))
      else compare_msgid_tags id1 id2

-- The loop of `spool_rbtree_compare`: past the end of the shorter array a tag counts as -1.
unfoldable pub compare_padded : List ℤ → List ℤ → ℤ
compare_padded [] [] = pos 0
compare_padded [] (b ∷ bs) = three_way (negsuc 0) b (compare_padded [] bs)
compare_padded (a ∷ as') [] = three_way a (negsuc 0) (compare_padded as' [])
compare_padded (a ∷ as') (b ∷ bs) = three_way a b (compare_padded as' bs)

-- The tags that a loop up to `tagcount` reads.
abbrev pub counted_tags : MsgId → List ℤ
counted_tags id = take id.tagcount (tags id)

-- `spool_rbtree_compare`
unfoldable pub spool_rbtree_compare : MsgId → MsgId → ℤ
spool_rbtree_compare id1 id2 =
    three_way id1.time id2.time (compare_padded (counted_tags id1) (counted_tags id2))

pub tags_equal : List ℤ → List ℤ → Bool
tags_equal [] [] = true
tags_equal [] (b ∷ bs) = false
tags_equal (a ∷ as') [] = false
tags_equal (a ∷ as') (b ∷ bs) = eqb_ℤ a b && tags_equal as' bs

-- `msg_ids_equal`
unfoldable pub msg_ids_equal : MsgId → MsgId → Bool
unfolding tags_equal
msg_ids_equal id1 id2 =
    if not (eqb_ℤ id1.time id2.time) || not (id1.tagcount == id2.tagcount)
    then false
    else tags_equal (counted_tags id1) (counted_tags id2)
