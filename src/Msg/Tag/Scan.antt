-- ===== src/Msg/Tag/Scan.antt =====
-- What the loop of `nchan_parse_msg_tag` makes of a printed tag.
use nchan.Prelude.{
  Bool, Bool-cases, List, Option, ap, append_assoc, arith, false, if◌then◌else◌, inl, inr, leb,
  length, ltb, lt→ltb, none, refl, some, subst, suc, sym, true, zero, ℕ, ◌%◌, ◌&&◌, ◌*◌, ◌++◌, ◌+◌,
  ◌-◌, ◌/◌, ◌<◌, ◌==◌, ◌∙◌, ◌∷◌, ◌≡◌, ◌≢◌, ◌≤◌,
}
use nchan.Prelude.Int.{eqb_ℤ, eqb_ℤ_iff, negsuc, pos, to_i16, ℤ, ◌-ℤ◌}
use nchan.Msg.Tag.{Scanned, decimal, digits, minus_one, print_tag, scan_byte, scan_tags, signed}

abbrev pub state : List ℤ → Bool → ℕ → ℕ → ℕ → Option ℕ → Scanned
state out negative val opened closed active = record {
  written = out;
  negative = negative;
  val = pos val;
  opened = opened;
  closed = closed;
  active = active;
}

-- A byte that the loop takes while there is room in the array.
scan_more :
    (c : ℕ) (s : List ℕ) (st st' : Scanned)
    → length st.written < 255
    → scan_byte c st ≡ some st'
    → scan_tags (c ∷ s) st ≡ scan_tags s st'
unfolding scan_tags
scan_more c s st st' room e = rw (lt→ltb (length st.written) 255 room, e) refl

digit_byte :
    (out : List ℤ) (negative : Bool) (v o k : ℕ) (a : Option ℕ) (d m : ℕ)
    → d < 10
    → m ≡ 10 * v + d
    → m ≤ 32767
    → scan_byte (48 + d) (state out negative v o k a) ≡ some (state out negative m o k a)
unfolding scan_byte
digit_byte out negative v o k a d m h e small =
    rw (no_dash, in_range) (ap (λ z. some (record (state out negative v o k a) { val = z })) value)
  where
    no_dash : (48 + d == 45) ≡ false
    no_dash = ground arith

    in_range : (leb 48 (48 + d) && leb (48 + d) 57) ≡ true
    in_range = ground arith

    value : to_i16 (pos (10 * v + (48 + d - 48))) ≡ pos m
    value = ground arith

-- The digits of a number are read behind what was read before.
pub scan_tags-digits :
    (rounds n : ℕ) (rest : List ℕ) (out : List ℤ) (negative : Bool) (o k : ℕ) (a : Option ℕ)
    → length out < 255
    → n < rounds
    → n ≤ 32767
    → scan_tags (digits rounds n ++ rest) (state out negative 0 o k a)
      ≡ scan_tags rest (state out negative n o k a)
unfolding digits
scan_tags-digits zero n rest out negative o k a room enough small = absurd (omega arith)
scan_tags-digits (suc rounds) n rest out negative o k a room enough small =
    elim (Bool-cases (ltb n 10)) [
      | inl one ↦ rw one (
          scan_more (48 + n) rest (state out negative 0 o k a) (state out negative n o k a) room
            (digit_byte out negative 0 o k a n n (ground arith) (omega arith) small))
      | inr more ↦
          rw (more, append_assoc)
            (scan_tags-digits rounds (n / 10) ((48 + n % 10) ∷ rest) out negative o k a room
                (ground arith) (omega arith)
              ∙ scan_more (48 + n % 10) rest (state out negative (n / 10) o k a)
                  (state out negative n o k a) room
                  (digit_byte out negative (n / 10) o k a (n % 10) n (omega arith) (omega arith)
                    small))
    ]

-- What the loop has read of a tag, with its sign; 0 stands for the -1 that is a lone dash.
abbrev pub is_negative : ℤ → Bool
is_negative (pos n) = false
is_negative (negsuc n) = true

abbrev pub magnitude : ℤ → ℕ
magnitude (pos n) = n
magnitude (negsuc n) = suc n

pub scan_tags-decimal :
    (t : ℤ) (rest : List ℕ) (out : List ℤ) (o k : ℕ) (a : Option ℕ)
    → length out < 255
    → magnitude t ≤ 32767
    → scan_tags (decimal t ++ rest) (state out false 0 o k a)
      ≡ scan_tags rest (state out (is_negative t) (magnitude t) o k a)
unfolding decimal
scan_tags-decimal (pos n) rest out o k a room small =
    scan_tags-digits (suc n) n rest out false o k a room (omega arith) small
scan_tags-decimal (negsuc n) rest out o k a room small =
    scan_more b'-' (digits (suc (suc n)) (suc n) ++ rest) (state out false 0 o k a)
      (state out true 0 o k a) room (dash out o k a)
    ∙ scan_tags-digits (suc (suc n)) (suc n) rest out true o k a room (omega arith) small
  where
    dash :
        (out : List ℤ) (o k : ℕ) (a : Option ℕ)
        → scan_byte b'-' (state out false 0 o k a) ≡ some (state out true 0 o k a)
    dash out o k a = unfold scan_byte in refl

-- Where the loop stands between tags, when the tag at `act` is the active one.
abbrev pub brackets : ℕ → ℕ → ℕ
brackets act i = if ltb act i then 1 else 0

abbrev pub activated : ℕ → ℕ → Option ℕ
activated act i = if ltb act i then some act else none

abbrev pub before_tag : ℕ → List ℤ → Scanned
before_tag act out =
    state out false 0 (brackets act (length out)) (brackets act (length out))
      (activated act (length out))

-- After the tag `t`, before the comma.
abbrev pub after_tag : ℕ → List ℤ → Bool → ℕ → Scanned
after_tag act out negative val =
    state out negative val (brackets act (suc (length out))) (brackets act (suc (length out)))
      (activated act (suc (length out)))

pub signed-magnitude :
    (t : ℤ) → magnitude t ≤ 32767 → signed (is_negative t) (pos (magnitude t)) ≡ t
unfolding ◌-ℤ◌
signed-magnitude (pos n) h = ground arith
signed-magnitude (negsuc n) h = ground arith

open_byte :
    (act : ℕ) (out : List ℤ)
    → act ≡ length out
    → scan_byte b'[' (before_tag act out) ≡ some (state out false 0 1 0 (some (length out)))
unfolding scan_byte
open_byte act out e = ground arith

close_byte :
    (act : ℕ) (out : List ℤ) (negative : Bool) (v : ℕ)
    → act ≡ length out
    → scan_byte b']' (state out negative v 1 0 (some (length out)))
      ≡ some (after_tag act out negative v)
unfolding scan_byte
close_byte act out negative v e = ground arith

not_here :
    (act : ℕ) (out : List ℤ) (negative : Bool) (v : ℕ)
    → act ≢ length out
    → state out negative v
        (brackets act (length out))
        (brackets act (length out))
        (activated act (length out))
      ≡ after_tag act out negative v
not_here act out negative v h = rw same refl
  where
    same : ltb act (length out) ≡ ltb act (suc (length out))
    same = ground arith

scan_tags-print_tag :
    (act : ℕ) (out : List ℤ) (t : ℤ) (rest : List ℕ)
    → length out < 255
    → magnitude t ≤ 32767
    → (act ≡ length out → t ≢ minus_one)
    → (negative : Bool) × (v : ℕ) × (scan_tags
          (print_tag (eqb_ℤ (pos act) (pos (length out))) t ++ rest)
          (before_tag act out)
        ≡ scan_tags rest (after_tag act out negative v))
      × (signed negative (pos v) ≡ t)
unfolding print_tag
scan_tags-print_tag act out t rest room small h = elim (Bool-cases (eqb_ℤ t minus_one)) [
  | inl lone ↦ rw lone (
    true,
    0,
    scan_more b'-' rest (before_tag act out)
          (state out true 0 (brackets act (length out)) (brackets act (length out))
            (activated act (length out)))
          room (unfold scan_byte in refl)
        ∙ ap (scan_tags rest) (not_here act out true 0 (λ e. h e ((eqb_ℤ_iff t minus_one).0 lone))),
    sym ((eqb_ℤ_iff t minus_one).0 lone),
  )
  | inr written ↦ rw written (elim (Bool-cases (eqb_ℤ (pos act) (pos (length out)))) [
    | inl active ↦
        rw (active, append_assoc)
          (
            is_negative t,
            magnitude t,
            scan_more b'[' (decimal t ++ b']' ∷ rest) (before_tag act out)
                  (state out false 0 1 0 (some (length out))) room
                  (open_byte act out (ground arith))
                ∙ scan_tags-decimal t (b']' ∷ rest) out 1 0 (some (length out)) room small
                ∙ scan_more b']' rest
                    (state out (is_negative t) (magnitude t) 1 0 (some (length out)))
                    (after_tag act out (is_negative t) (magnitude t)) room
                    (close_byte act out (is_negative t) (magnitude t) (ground arith)),
            signed-magnitude t small,
          )
    | inr inactive ↦ rw inactive (
      is_negative t,
      magnitude t,
      scan_tags-decimal t rest out (brackets act (length out)) (brackets act (length out))
            (activated act (length out)) room small
          ∙ ap (scan_tags rest) (not_here act out (is_negative t) (magnitude t) (ground arith)),
      signed-magnitude t small,
    )
  ])
]

-- The same at the index `i` of the loop that printed the tag.
pub scan_tags-print_tag_at :
    (act i : ℕ) (out : List ℤ) (t : ℤ) (rest : List ℕ)
    → i ≡ length out
    → length out < 255
    → magnitude t ≤ 32767
    → (act ≡ i → t ≢ minus_one)
    → (negative : Bool) × (v : ℕ) × (scan_tags
          (print_tag (eqb_ℤ (pos act) (pos i)) t ++ rest)
          (before_tag act out)
        ≡ scan_tags rest (after_tag act out negative v))
      × (signed negative (pos v) ≡ t)
scan_tags-print_tag_at act i out t rest e room small h =
    subst
      (λ j.
        (negative : Bool) × (v : ℕ) × (scan_tags (print_tag (eqb_ℤ (pos act) (pos j)) t ++ rest)
            (before_tag act out)
          ≡ scan_tags rest (after_tag act out negative v))
        × (signed negative (pos v) ≡ t))
      (sym e) (scan_tags-print_tag act out t rest room small (λ q. h (q ∙ sym e)))
