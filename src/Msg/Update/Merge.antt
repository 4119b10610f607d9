-- ===== src/Msg/Update/Merge.antt =====
-- What `nchan_update_multi_msgid` leaves in the id.
use nchan.Msg.Id.{IsWf, MsgId, allocd_tags, fixed_multitag_max, tags}
use nchan.Prelude.{
  Bool, Bool-cases, List, ap, arith, drop, false, if◌then◌else◌, inl, inr, length, ltb, ngx_ok,
  refl, some, subst, suc, take, take-append, take-take, true, zero, ℕ, [], ◌&&◌, ◌++◌, ◌+◌, ◌==◌,
  ◌∙◌, ◌∷◌, ◌≡◌, ◌≢◌, ◌≤◌, ◌⊎◌,
}
use nchan.Prelude.Int.{eqb_ℤ, negsuc, pos, ℤ, ◌<ℤ◌}
use nchan.Msg.Compare.Order.{length-counted_tags}
use nchan.Msg.Compare.{compare_padded, counted_tags, spool_rbtree_compare, three_way}
use nchan.Msg.Update.{copy_msg_id, grow_tags, merge_tags, update_multi_msgid, with_tags}

-- Each new tag is -1, which stands for no change, or greater than the old one.
abbrev pub Advances : List ℤ → List ℤ → Type 0
Advances [] [] = Unit {0}
Advances [] (w ∷ ws) = ⊥
Advances (o ∷ os) [] = ⊥
Advances (o ∷ os) (w ∷ ws) = ((w ≡ negsuc 0) ⊎ (o <ℤ w)) × Advances os ws

abbrev pub advanced : List ℤ → List ℤ → List ℤ
advanced [] ws = []
advanced (o ∷ os) [] = o ∷ os
advanced (o ∷ os) (w ∷ ws) = (if eqb_ℤ w (negsuc 0) then o else w) ∷ advanced os ws

abbrev pub unchanged : List ℤ → Bool
unchanged [] = true
unchanged (w ∷ ws) = eqb_ℤ w (negsuc 0) && unchanged ws

merge_tags-advanced :
    (n i : ℕ) (active : ℤ) (os ws : List ℤ)
    → n ≤ length os
    → n ≤ length ws
    → Advances (take n os) (take n ws)
    → merge_tags n i active os ws ≡ some (advanced (take n os) (take n ws) ++ drop n os)
unfolding merge_tags
merge_tags-advanced zero i active os ws h k a = refl
merge_tags-advanced (suc n) i active [] ws h k a = absurd (omega arith)
merge_tags-advanced (suc n) i active (o ∷ os) [] h k a = absurd (omega arith)
merge_tags-advanced (suc n) i active (o ∷ os) (w ∷ ws) h k a =
    ground (arith, merge_tags-advanced n (i + 1) active os ws (omega arith) (omega arith) a.1)

compare_padded-advanced :
    (os ws : List ℤ)
    → Advances os ws
    → compare_padded os (advanced os ws) ≡ (if unchanged ws then pos 0 else negsuc 0)
unfolding compare_padded
compare_padded-advanced [] [] a = refl
compare_padded-advanced [] (w ∷ ws) a = absurd a
compare_padded-advanced (o ∷ os) [] a = absurd a
compare_padded-advanced (o ∷ os) (w ∷ ws) a = ground (arith, compare_padded-advanced os ws a.1)

length-advanced : (os ws : List ℤ) → length (advanced os ws) ≡ length os
length-advanced [] ws = refl
length-advanced (o ∷ os) [] = refl
length-advanced (o ∷ os) (w ∷ ws) = ap suc (length-advanced os ws)

-- What the proofs below need to know of the tags of an updated id.
counted-with_tags :
    (id : MsgId) (ts rest : List ℤ)
    → length ts ≡ id.tagcount
    → counted_tags (record id { tag = with_tags id (ts ++ rest) }) ≡ ts
unfolding with_tags
counted-with_tags id ts rest h = ground (arith, take-append ts rest)

-- With memory at hand a copy has the source's second, counts and tags.
copy_msg_id-copies :
    (dst src : MsgId) (largetags : Bool)
    → ((copy_msg_id dst src largetags true).0 ≡ ngx_ok)
      × (counted_tags (copy_msg_id dst src largetags true).1 ≡ counted_tags src)
      × ((copy_msg_id dst src largetags true).1.time ≡ src.time)
      × ((copy_msg_id dst src largetags true).1.tagcount ≡ src.tagcount)
      × ((copy_msg_id dst src largetags true).1.tagactive ≡ src.tagactive)
unfolding copy_msg_id
copy_msg_id-copies dst src largetags = ground (arith, take-take src.tagcount (allocd_tags src.tag))

-- The updated id, where the times are equal.
merged_id : MsgId → MsgId → MsgId
merged_id old new = record old {
  tag =
      with_tags old
        (advanced (counted_tags old) (counted_tags new) ++ drop new.tagcount (tags old));
  tagactive = new.tagactive;
}

-- With memory at hand the array grows, and the second stays.
grow_tags-some :
    (overlap : List ℤ) (old : MsgId) (n : ℕ)
    → (grown : MsgId) × (grow_tags overlap true old n ≡ some grown) × (grown.time ≡ old.time)
unfolding grow_tags
grow_tags-some overlap old n = elim (Bool-cases (ltb fixed_multitag_max n && ltb old.tagcount n)) [
  | inl grows ↦ rw grows (_, refl, refl)
  | inr stays ↦ rw stays (old, refl, refl)
]

grow_tags-same :
    (overlap : List ℤ) (memory : Bool) (old : MsgId) (n : ℕ)
    → n ≤ old.tagcount
    → grow_tags overlap memory old n ≡ some old
unfolding grow_tags
grow_tags-same overlap memory old n h = ground arith

module _ (overlap : List ℤ) (memory : Bool) (old new : MsgId) where
  -- Within one second the loop runs on the tags as they are.
  update_multi_msgid-merged :
      IsWf old
      → IsWf new
      → new.tagcount ≢ 1
      → old.tagcount ≡ new.tagcount
      → old.time ≡ new.time
      → Advances (counted_tags old) (counted_tags new)
      → update_multi_msgid overlap memory old new ≡ some (merged_id old new)
  unfolding update_multi_msgid merged_id
  update_multi_msgid-merged v w many same now a = ground (
    arith,
    grow_tags-same overlap memory old new.tagcount (omega arith),
    v.within,
    w.within,
    merge_tags-advanced new.tagcount 0 new.tagactive (tags old) (tags new) (rw (← same) v.within)
        w.within (subst (λ n. Advances (take n (tags old)) (counted_tags new)) same a),
  )

  -- An id over several channels is updated with one of the same second and as many tags, both with
  -- arrays that hold their tags, when each new tag is -1 or greater than the old one. Then no assertion
  -- fails, the tags that are not -1 are taken over and the others kept, and the id is later in the order
  -- of the spools, unless every new tag is -1: then it is the same id.
  pub update_multi_msgid-Advances :
      IsWf old
      → IsWf new
      → new.tagcount ≢ 1
      → old.tagcount ≡ new.tagcount
      → old.time ≡ new.time
      → Advances (counted_tags old) (counted_tags new)
      → (id : MsgId) × (update_multi_msgid overlap memory old new ≡ some id)
        × (counted_tags id ≡ advanced (counted_tags old) (counted_tags new))
        × (id.time ≡ new.time)
        × (id.tagcount ≡ new.tagcount)
        × (id.tagactive ≡ new.tagactive)
        × (spool_rbtree_compare old id ≡ (if unchanged (counted_tags new) then pos 0 else negsuc 0))
  unfolding spool_rbtree_compare merged_id with_tags
  update_multi_msgid-Advances v w many same now a = (
    merged_id old new,
    update_multi_msgid-merged v w many same now a,
    tags_of,
    now,
    same,
    refl,
    later,
  )
    where
      tags_of : counted_tags (merged_id old new) ≡ advanced (counted_tags old) (counted_tags new)
      tags_of =
          counted-with_tags (record old { tagactive = new.tagactive })
            (advanced (counted_tags old) (counted_tags new)) (drop new.tagcount (tags old))
            (length-advanced (counted_tags old) (counted_tags new) ∙ length-counted_tags old v)

      later :
          three_way old.time old.time
            (compare_padded (counted_tags old) (counted_tags (merged_id old new)))
          ≡ (if unchanged (counted_tags new) then pos 0 else negsuc 0)
      later =
          rw tags_of
            (ground (arith, compare_padded-advanced (counted_tags old) (counted_tags new) a))

  -- Where memory is granted, an update with an id of another second, over several channels and with an
  -- array that holds its tags, copies the new id, whatever the old one held.
  pub update_multi_msgid-copies :
      IsWf new
      → new.tagcount ≢ 1
      → old.time ≢ new.time
      → memory ≡ true
      → (id : MsgId) × (update_multi_msgid overlap memory old new ≡ some id)
        × (counted_tags id ≡ counted_tags new)
        × (id.time ≡ new.time)
        × (id.tagcount ≡ new.tagcount)
        × (id.tagactive ≡ new.tagactive)
  unfolding update_multi_msgid
  update_multi_msgid-copies w many moved mem =
      let (grown, e, same) = grow_tags-some overlap old new.tagcount in
      (
        (copy_msg_id grown new false true).1,
        rw mem (rw (ℕ_neq many) (rw e (rw (other grown same) refl))),
        (copy_msg_id-copies grown new false).1,
        (copy_msg_id-copies grown new false).2,
        (copy_msg_id-copies grown new false).3,
        (copy_msg_id-copies grown new false).4,
      )
    where
      ℕ_neq : new.tagcount ≢ 1 → (new.tagcount == 1) ≡ false
      ℕ_neq h = ground arith

      other : (grown : MsgId) → grown.time ≡ old.time → eqb_ℤ grown.time new.time ≡ false
      other grown same = ground arith
