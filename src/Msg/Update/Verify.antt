-- ===== src/Msg/Update/Verify.antt =====
-- No message is reported as missed that follows the one before it.
use nchan.Msg.Id.{IsWf, MsgId, tags}
use nchan.Msg.Compare.{counted_tags}
use native.Mathlib.Decide.{ℕ_discrete}
use nchan.Prelude.{
  List, ap, arith, get_elem?-some, inl, inr, length, ngx_ok, refl, some, subst, suc, sym, take,
  true, zero, ℕ, [], ◌<◌, ◌∙◌, ◌∷◌, ◌≡◌, ◌≢◌, ◌≤◌, ◌⊎◌,
}
use nchan.Prelude.Int.{ℤ}
use nchan.Msg.Update.{tags_agree, update_multi_msgid, verify_msg_id}
use nchan.Msg.Update.Merge.{
  Advances, advanced, update_multi_msgid-Advances, update_multi_msgid-copies,
}

tags_agree_self : (n : ℕ) (ts : List ℤ) → n ≤ length ts → tags_agree n ts ts ≡ some true
unfolding tags_agree
tags_agree_self zero ts h = refl
tags_agree_self (suc n) [] h = absurd (omega arith)
tags_agree_self (suc n) (t ∷ ts) h = ground (arith, tags_agree_self n ts (omega arith))

tags_agree-take : (n : ℕ) (xs ys : List ℤ) → tags_agree n xs ys ≡ tags_agree n (take n xs) ys
unfolding tags_agree
tags_agree-take zero xs ys = refl
tags_agree-take (suc n) [] ys = refl
tags_agree-take (suc n) (x ∷ xs) [] = refl
tags_agree-take (suc n) (x ∷ xs) (y ∷ ys) = rw (tags_agree-take n xs ys)

tags_agree-advanced :
    (n : ℕ) (os ws : List ℤ)
    → n ≤ length os
    → n ≤ length ws
    → tags_agree n (advanced (take n os) (take n ws)) ws ≡ some true
unfolding tags_agree
tags_agree-advanced zero os ws h k = refl
tags_agree-advanced (suc n) [] ws h k = absurd (omega arith)
tags_agree-advanced (suc n) (o ∷ os) [] h k = absurd (omega arith)
tags_agree-advanced (suc n) (o ∷ os) (w ∷ ws) h k =
    ground (arith, tags_agree-advanced n os ws (omega arith) (omega arith))

-- Both ids lie in one second, or the new one follows in another.
abbrev pub Follows : MsgId → MsgId → Type 0
Follows old new =
    (old.time ≢ new.time)
    ⊎ ((old.time ≡ new.time)
        × (old.tagcount ≡ new.tagcount)
        × Advances (counted_tags old) (counted_tags new))

verify-many :
    (id new msg : MsgId)
    → id.time ≡ new.time
    → id.tagcount ≢ 1
    → tags_agree id.tagcount (tags id) (tags new) ≡ some true
    → verify_msg_id id new msg ≡ some ngx_ok
unfolding verify_msg_id
verify-many id new msg t many agree = ground arith

-- What is left of the tags of a longer array does not matter.
counted-agree :
    (id new : MsgId) (ts : List ℤ)
    → counted_tags id ≡ ts
    → tags_agree id.tagcount ts (tags new) ≡ some true
    → tags_agree id.tagcount (tags id) (tags new) ≡ some true
counted-agree id new ts e h =
    tags_agree-take id.tagcount (tags id) (tags new)
    ∙ ap (λ xs. tags_agree id.tagcount xs (tags new)) e
    ∙ h

verify_self :
    (new msg : MsgId) → IsWf new → 0 < new.tagcount → verify_msg_id new new msg ≡ some ngx_ok
unfolding verify_msg_id
verify_self new msg w h =
    let first = get_elem?-some (tags new) 0 (omega (arith, w.within)) in
    ground (arith, first.1, tags_agree_self new.tagcount (tags new) w.within)

module _ (overlap : List ℤ) (old new msg : MsgId) where
  copied-verified :
      IsWf new
      → 0 < new.tagcount
      → new.tagcount ≢ 1
      → old.time ≢ new.time
      → (id : MsgId) × (update_multi_msgid overlap true old new ≡ some id)
        × (verify_msg_id id new msg ≡ some ngx_ok)
  copied-verified w h many moved =
      let (id, e, ts, t, c, a) = update_multi_msgid-copies overlap true old new w many moved refl in
      (
        id,
        e,
        verify-many id new msg t (rw c many) (
            counted-agree id new (counted_tags new) ts (
              rw c (
                sym (tags_agree-take new.tagcount (tags new) (tags new))
                ∙ tags_agree_self new.tagcount (tags new) w.within))),
      )

  merged-verified :
      IsWf old
      → IsWf new
      → new.tagcount ≢ 1
      → old.time ≡ new.time
      → old.tagcount ≡ new.tagcount
      → Advances (counted_tags old) (counted_tags new)
      → (id : MsgId) × (update_multi_msgid overlap true old new ≡ some id)
        × (verify_msg_id id new msg ≡ some ngx_ok)
  merged-verified v w many now same adv =
      let (id, e, ts, t, c, a, later) =
        update_multi_msgid-Advances overlap true old new v w many same now adv in
      (
        id,
        e,
        verify-many id new msg t (rw c many) (
            counted-agree id new (advanced (counted_tags old) (counted_tags new)) ts (
              rw c (
                subst
                  (λ n.
                    tags_agree new.tagcount (advanced (take n (tags old)) (counted_tags new))
                      (tags new)
                    ≡ some true)
                  (sym same)
                  (tags_agree-advanced new.tagcount (tags old) (tags new) (rw (← same) v.within)
                    w.within)))),
      )

  -- A subscriber whose last id was updated by a message accepts the message that names it as the one
  -- before, so that no message is reported as missed without cause. The update may go into another
  -- second, or within one second over ids that advance; a fault occurs in neither function. Memory
  -- for the tags is at hand.
  pub verify_msg_id-update_multi_msgid :
      IsWf old
      → IsWf new
      → 0 < new.tagcount
      → Follows old new
      → (id : MsgId) × (update_multi_msgid overlap true old new ≡ some id)
        × (verify_msg_id id new msg ≡ some ngx_ok)
  unfolding update_multi_msgid
  verify_msg_id-update_multi_msgid v w h f = elim (ℕ_discrete new.tagcount 1) [
    | yes one ↦ (new, ground arith, verify_self new msg w h)
    | no many ↦ elim f [
      | inl moved ↦ copied-verified w h many moved
      | inr within ↦ merged-verified v w many within.0 within.1 within.2
    ]
  ]
