-- ===== src/Msg/Tests.antt =====
-- Uses of the theorems on message ids at concrete ids.
use nchan.Prelude.{ap, arith, inl, inr, ngx_ok, refl, some, true, ℕ, [], ◌↔◌, ◌∷◌, ◌≡◌}
use nchan.Prelude.Int.{negsuc, pos, pos_part, ℤ}
use nchan.Msg.Id.{IsWf, MsgId, fixed}
use nchan.Msg.Compare.{compare_msgids, compare_padded, counted_tags, spool_rbtree_compare}
use nchan.Msg.Compare.Order.{
  Lexicographic, compare_msgids-spool_rbtree_compare, key, spool_rbtree_compare-Lexicographic,
}
use nchan.Msg.Update.{update_multi_msgid, verify_msg_id}
use nchan.Msg.Update.Merge.{update_multi_msgid-Advances, update_multi_msgid-copies}
use nchan.Msg.Update.Verify.{verify_msg_id-update_multi_msgid}
use nchan.Msg.Extract.{extract_from_multi_msgid}
use nchan.Msg.Extract.Newer.{Unseen, extract_from_multi_msgid-newer}

abbrev single : ℕ → ℤ → MsgId
single t g = record { time = pos t; tag = fixed (g ∷ []); tagactive = pos 0; tagcount = 1 }

abbrev double : ℕ → ℤ → ℤ → MsgId
double t g h = record { time = pos t; tag = fixed (g ∷ h ∷ []); tagactive = pos 0; tagcount = 2 }

abbrev minus_one : ℤ
minus_one = negsuc 0

double-IsWf : (t : ℕ) (g h : ℤ) → IsWf (double t g h)
double-IsWf t g h = record { within = omega arith; bounded = omega arith }

spool_rbtree_compare-Lexicographic_example :
    Lexicographic (key (single 10 (pos 1))) (key (double 10 (pos 1) (pos 0))) (negsuc 0)
unfolding spool_rbtree_compare compare_padded
spool_rbtree_compare-Lexicographic_example =
    spool_rbtree_compare-Lexicographic (single 10 (pos 1)) (double 10 (pos 1) (pos 0))

compare_msgids-spool_rbtree_compare_example :
    (compare_msgids (single 10 (pos 1)) (single 10 (pos 2))
      ≡ some (spool_rbtree_compare (single 10 (pos 1)) (single 10 (pos 2))))
    × (spool_rbtree_compare (single 10 (pos 1)) (single 10 (pos 2)) ≡ minus_one)
compare_msgids-spool_rbtree_compare_example =
    compare_msgids-spool_rbtree_compare (single 10 (pos 1)) (single 10 (pos 2)) (pos 1) (pos 2)
      (record { one = refl; only = refl }) (record { one = refl; only = refl })

update_multi_msgid-Advances_example :
    (id : MsgId) × (update_multi_msgid [] true
        (double 10 (pos 1) (pos 4))
        (double 10 (pos 2) minus_one)
      ≡ some id)
    × (counted_tags id ≡ pos 2 ∷ pos 4 ∷ [])
    × (id.time ≡ pos 10)
    × (id.tagcount ≡ 2)
    × (id.tagactive ≡ pos 0)
    × (spool_rbtree_compare (double 10 (pos 1) (pos 4)) id ≡ minus_one)
update_multi_msgid-Advances_example =
    update_multi_msgid-Advances [] true (double 10 (pos 1) (pos 4)) (double 10 (pos 2) minus_one)
      (double-IsWf 10 (pos 1) (pos 4)) (double-IsWf 10 (pos 2) minus_one) (λ e. omega arith) refl
      refl (inr (omega arith), (inl refl, tt))

update_multi_msgid-copies_example :
    (id : MsgId) × (update_multi_msgid [] true
        (double 10 (pos 1) (pos 4))
        (double 12 (pos 0) minus_one)
      ≡ some id)
    × (counted_tags id ≡ pos 0 ∷ minus_one ∷ [])
    × (id.time ≡ pos 12)
    × (id.tagcount ≡ 2)
    × (id.tagactive ≡ pos 0)
update_multi_msgid-copies_example =
    update_multi_msgid-copies [] true (double 10 (pos 1) (pos 4)) (double 12 (pos 0) minus_one)
      (double-IsWf 12 (pos 0) minus_one) (λ e. omega arith) (λ e. omega (arith, ap pos_part e)) refl

verify_msg_id-update_multi_msgid_example :
    (id : MsgId) × (update_multi_msgid [] true
        (double 10 (pos 1) (pos 4))
        (double 10 (pos 2) minus_one)
      ≡ some id)
    × (verify_msg_id id (double 10 (pos 2) minus_one) (double 10 (pos 3) minus_one) ≡ some ngx_ok)
verify_msg_id-update_multi_msgid_example =
    verify_msg_id-update_multi_msgid [] (double 10 (pos 1) (pos 4)) (double 10 (pos 2) minus_one)
      (double 10 (pos 3) minus_one) (double-IsWf 10 (pos 1) (pos 4))
      (double-IsWf 10 (pos 2) minus_one) (omega arith)
      (inr (refl, refl, (inr (omega arith), (inl refl, tt))))

extract_from_multi_msgid-newer_example :
    (x : MsgId) × (extract_from_multi_msgid (double 10 (pos 2) minus_one) 1 (single 0 (pos 0))
      ≡ some (ngx_ok, x))
    × ((compare_msgids (single 10 (pos 0)) x ≡ some (pos 1))
        ↔ Unseen (pos 10) minus_one (pos 10) (pos 0))
extract_from_multi_msgid-newer_example =
    extract_from_multi_msgid-newer (double 10 (pos 2) minus_one) 1 (single 0 (pos 0))
      (single 10 (pos 0)) minus_one (pos 0) (double-IsWf 10 (pos 2) minus_one) (omega arith)
      (omega arith) refl (record { one = refl; only = refl }) (omega arith) (omega arith)
