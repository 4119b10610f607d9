-- ===== src/Msg/Tag/Joined.antt =====
-- Scanning tags that are joined by commas, and what is left of a printed id without its last byte.
use nchan.Msg.Id.{MsgId, tags}
use nchan.Prelude.{
  Bool, Bool-cases, List, ap, append-nil, append_assoc, arith, drop, false, inl, inr, leb, leb→le,
  length, length-append, lt→ltb, not, refl, some, suc, sym, take, take-append, true, zero, ℕ, [],
  ◌&&◌, ◌++◌, ◌+◌, ◌<◌, ◌∙◌, ◌∷◌, ◌≡◌, ◌≢◌, ◌≤◌,
}
use nchan.Prelude.Int.{eqb_ℤ, eqb_ℤ_iff, leb_ℤ, negsuc, pos, ℤ}
use nchan.Msg.Tag.{
  Scanned, cut_last, minus_one, print_tag, print_tags, scan_byte, scan_tags, signed,
  with_parsed_tags, write_tag,
}
use nchan.Msg.Tag.Scan.{
  activated, after_tag, before_tag, brackets, magnitude, scan_tags-print_tag_at, state,
}

-- Tags that the assertions of `msgtag_to_strptr` allow, from the index `i`, when the tag at `act` is
-- the active one.
abbrev pub Printable : ℕ → ℕ → List ℤ → Type 0
Printable act i [] = Unit
Printable act i (t ∷ ts) =
    (leb_ℤ (negsuc 1) t ≡ true)
    × (magnitude t ≤ 32767)
    × (act ≡ i → t ≢ minus_one)
    × Printable act (suc i) ts

-- The tags with a comma after each, and with commas between them.
abbrev with_commas : ℕ → ℕ → List ℤ → List ℕ
with_commas act i [] = []
with_commas act i (t ∷ ts) =
    print_tag (eqb_ℤ (pos act) (pos i)) t ++ b',' ∷ with_commas act (suc i) ts

abbrev pub joined : ℕ → ℕ → List ℤ → List ℕ
joined act i [] = []
joined act i (t ∷ []) = print_tag (eqb_ℤ (pos act) (pos i)) t
joined act i (t ∷ u ∷ ts) =
    print_tag (eqb_ℤ (pos act) (pos i)) t ++ b',' ∷ joined act (suc i) (u ∷ ts)

assertion_holds :
    (act i : ℕ) (t : ℤ)
    → (act ≡ i → t ≢ minus_one)
    → not (eqb_ℤ t minus_one && eqb_ℤ (pos act) (pos i)) ≡ true
assertion_holds act i t h = elim (Bool-cases (eqb_ℤ t minus_one)) [
  | inl lone ↦ elim (Bool-cases (eqb_ℤ (pos act) (pos i))) [
    | inl here ↦ absurd (h (ground arith) ((eqb_ℤ_iff t minus_one).0 lone))
    | inr away ↦ rw (lone, away) refl
  ]
  | inr other ↦ rw other refl
]

pub print_tags-with_commas :
    (act i : ℕ) (ts : List ℤ)
    → Printable act i ts
    → print_tags (pos act) i ts ≡ some (with_commas act i ts)
unfolding print_tags
print_tags-with_commas act i [] p = refl
print_tags-with_commas act i (t ∷ ts) (low, small, shown, p) =
    rw (low, assertion_holds act i t shown, print_tags-with_commas act (suc i) ts p) refl

pub with_commas-joined :
    (act i : ℕ) (t : ℤ) (ts : List ℤ)
    → with_commas act i (t ∷ ts) ≡ joined act i (t ∷ ts) ++ b',' ∷ []
with_commas-joined act i t [] = refl
with_commas-joined act i t (u ∷ ts) = rw (append_assoc, with_commas-joined act (suc i) u ts) refl

pub cut_last-append : (ys : List ℕ) (c : ℕ) → cut_last (ys ++ c ∷ []) ≡ some ys
cut_last-append [] c = refl
cut_last-append (y ∷ ys) c = rw size (ap (λ l. some (y ∷ l)) (take-append ys (c ∷ [])))
  where
    size : length (ys ++ c ∷ []) ≡ suc (length ys)
    size = omega (arith, length-append ys (c ∷ []))

after_comma :
    (act : ℕ) (out : List ℤ) (t : ℤ) (s : List ℕ) (negative : Bool) (v : ℕ)
    → length out < 255
    → signed negative (pos v) ≡ t
    → scan_tags (b',' ∷ s) (after_tag act out negative v)
      ≡ scan_tags s (before_tag act (out ++ t ∷ []))
unfolding scan_tags scan_byte
after_comma act out t s negative v room sign = rw (lt→ltb (length out) 255 room) (
    ap (scan_tags s) (λ i.
      state (out ++ sign i ∷ []) false 0 (brackets act (size i)) (brackets act (size i))
        (activated act (size i))))
  where
    size : suc (length out) ≡ length (out ++ t ∷ [])
    size = omega (arith, length-append out (t ∷ []))

pub scan_end : (st : Scanned) → length st.written < 255 → scan_tags [] st ≡ some (write_tag st)
unfolding scan_tags
scan_end st room = rw (lt→ltb (length st.written) 255 room) refl

pub scan_tags-joined :
    (act i : ℕ) (out : List ℤ) (t : ℤ) (ts : List ℤ)
    → i ≡ length out
    → i + suc (length ts) ≤ 255
    → Printable act i (t ∷ ts)
    → (st : Scanned) × (scan_tags (joined act i (t ∷ ts)) (before_tag act out) ≡ some st)
      × (st.written ≡ out ++ t ∷ ts)
      × (st.active ≡ activated act (i + suc (length ts)))
scan_tags-joined act i out t [] e room (low, small, shown, p) =
    let (negative, v, reads, sign) =
      scan_tags-print_tag_at act i out t [] e (omega arith) small shown in
    (
      write_tag (after_tag act out negative v),
      ap (λ s. scan_tags s (before_tag act out)) (sym (append-nil _))
          ∙ reads
          ∙ scan_end (after_tag act out negative v) (omega arith),
      ap (λ z. out ++ z ∷ []) sign,
      ap (activated act) (omega arith),
    )
scan_tags-joined act i out t (u ∷ ts) e room (low, small, shown, p) =
    let (negative, v, reads, sign) =
      scan_tags-print_tag_at act i out t (b',' ∷ joined act (suc i) (u ∷ ts)) e (omega arith) small
        shown in
    let (st, rest, ws, active) =
      scan_tags-joined act (suc i) (out ++ t ∷ []) u ts (omega (arith, length-append out (t ∷ [])))
        (omega arith) p in
    (
      st,
      reads
          ∙ after_comma act out t (joined act (suc i) (u ∷ ts)) negative v (omega arith) sign
          ∙ rest,
      ws ∙ append_assoc out (t ∷ []) (u ∷ ts),
      active ∙ ap (activated act) (omega arith),
    )

take-take_le : (n m : ℕ) (xs : List ℤ) → n ≤ m → take n (take m xs) ≡ take n xs
take-take_le zero m xs h = refl
take-take_le (suc n) zero xs h = absurd (omega arith)
take-take_le (suc n) (suc m) [] h = refl
take-take_le (suc n) (suc m) (x ∷ xs) h = ap (λ l. x ∷ l) (take-take_le n m xs (omega arith))

pub tags-with_parsed_tags :
    (old : List ℤ) (mid : MsgId) (a : ℤ) (ts : List ℤ)
    → take (length ts) (tags (with_parsed_tags old mid a ts)) ≡ ts
tags-with_parsed_tags old mid a ts = elim (Bool-cases (leb (length ts) 4)) [
  | inl few ↦ rw few (
      take-take_le (length ts) 4 (ts ++ drop (length ts) old) (leb→le (length ts) 4 few)
      ∙ take-append ts (drop (length ts) old))
  | inr many ↦ rw many (take-append ts (drop (length ts) old))
]
