-- ===== src/Msg/Tag/RoundTrip.antt =====
-- What `msgtag_to_strptr` prints, `nchan_parse_msg_tag` reads back.
use nchan.Msg.Tag.Joined.{
  Printable, cut_last-append, joined, print_tags-with_commas, scan_end, scan_tags-joined,
  tags-with_parsed_tags, with_commas-joined,
}
use nchan.Msg.Id.{IsWf, MsgId, tags}
use nchan.Prelude.{
  Bool-cases, List, ap, append-nil, ap₂, arith, get_elem?, inl, inr, leb, length, length-take,
  ngx_ok, none, refl, some, subst, suc, sym, take, true, zero, ℕ, [], ◌-◌, ◌<◌, ◌==◌, ◌>>=◌, ◌∙◌,
  ◌∷◌, ◌≡◌, ◌≤◌, ◌⊎◌,
}
use nchan.Prelude.Int.{pos, ℤ}
use nchan.Msg.Tag.{
  Scanned, activate, cut_last, decimal, filled_tags, finish, msgtag_to_strptr, parse_msg_tag,
  print_tags, scan_start, scan_tags, with_parsed_tags, write_tag,
}
use nchan.Msg.Tag.Scan.{
  before_tag, is_negative, magnitude, scan_tags-decimal, signed-magnitude, state,
}

-- What the theorem asks of an id.
pub record IsPrintable (act : ℕ) (id : MsgId) : Type 0 where
  pub wf : IsWf id
  pub some_tag : 1 ≤ id.tagcount
  pub active : id.tagactive ≡ pos act
  pub within : act < id.tagcount
  pub printable : Printable act 0 (take id.tagcount (tags id))

-- The id that has been read has the tags of the other, and the second that was there before.
pub record IsReadBack (mid id id' : MsgId) : Type 0 where
  pub counted : id'.tagcount ≡ id.tagcount
  pub active : id'.tagactive ≡ id.tagactive
  pub same_tags : take id'.tagcount (tags id') ≡ take id.tagcount (tags id)
  pub second : id'.time ≡ mid.time

-- A text that is read as the tags `ts` with the active one at `act`.
abbrev Prints : ℕ → List ℤ → List ℕ → Type 0
Prints act ts s =
    (st : Scanned) × (scan_tags s scan_start ≡ some st)
    × (st.written ≡ ts)
    × ((st.active ≡ some act) ⊎ ((st.active ≡ none) × (length ts ≡ 1) × (act ≡ 0)))

le→leb : (a b : ℕ) → a ≤ b → leb a b ≡ true
le→leb a b h = ground arith

filled_tags-enough :
    (expected : ℕ) (ts : List ℤ)
    → expected ≤ length ts
    → length ts ≤ 255
    → filled_tags expected ts ≡ some ts
filled_tags-enough expected ts h few =
    rw (le→leb expected 255 (omega arith), none_missing) (ap some (append-nil ts))
  where
    none_missing : expected - length ts ≡ 0
    none_missing = omega arith

parse_msg_tag-Prints :
    (old : List ℤ) (expected act : ℕ) (ts : List ℤ) (s : List ℕ) (mid : MsgId)
    → expected ≤ length ts
    → length ts ≤ 255
    → Prints act ts s
    → parse_msg_tag old expected (some s) mid ≡ some (ngx_ok, with_parsed_tags old mid (pos act) ts)
unfolding parse_msg_tag activate
parse_msg_tag-Prints old expected act ts s mid h few (st, scanned, written, inl active) =
    ap (finish old expected mid) scanned
    ∙ ap₂ (activate old expected mid) written active
    ∙ rw (filled_tags-enough expected ts h few) refl
parse_msg_tag-Prints old expected act ts s mid h few
      (st, scanned, written, inr (active, one, first)) =
    ap (finish old expected mid) scanned
    ∙ ap₂ (activate old expected mid) written active
    ∙ rw (filled_tags-enough expected ts h few, one, first) refl

first_only :
    (act n : ℕ) (l : List ℤ)
    → n ≡ 1
    → n ≤ length l
    → Printable act 0 (take n l)
    → (t : ℤ) × (get_elem? l 0 ≡ some t) × (take n l ≡ t ∷ []) × (magnitude t ≤ 32767)
first_only act zero l one h p = absurd (omega arith)
first_only act (suc n) [] one h p = absurd (omega arith)
first_only act (suc zero) (t ∷ l) one h (low, small, shown, p) = (t, refl, refl, small)
first_only act (suc (suc n)) (t ∷ l) one h p = absurd (omega arith)

decimal-Prints : (t : ℤ) → magnitude t ≤ 32767 → Prints 0 (t ∷ []) (decimal t)
decimal-Prints t small = (
  write_tag (state [] (is_negative t) (magnitude t) 0 0 none),
  ap (λ s. scan_tags s scan_start) (sym (append-nil _))
      ∙ scan_tags-decimal t [] [] 0 0 none (omega arith) small
      ∙ scan_end (state [] (is_negative t) (magnitude t) 0 0 none) (omega arith),
  ap (λ z. z ∷ []) (signed-magnitude t small),
  inr (refl, refl, refl),
)

joined-Prints :
    (act : ℕ) (ts : List ℤ)
    → length ts ≤ 255
    → act < length ts
    → Printable act 0 ts
    → (s : List ℕ) × ((print_tags (pos act) 0 ts >>= cut_last) ≡ some s) × Prints act ts s
joined-Prints act [] few within p = absurd (omega arith)
joined-Prints act (t ∷ ts) few within p =
    let (st, scanned, written, active) = scan_tags-joined act 0 [] t ts refl (omega arith) p in
    (
      joined act 0 (t ∷ ts),
      rw (print_tags-with_commas act 0 (t ∷ ts) p, with_commas-joined act 0 t ts)
          (cut_last-append (joined act 0 (t ∷ ts)) b','),
      (
        st,
        ap (scan_tags (joined act 0 (t ∷ ts))) at_start ∙ scanned,
        written,
        inl (active ∙ ground arith),
      ),
    )
  where
    at_start : scan_start ≡ before_tag act []
    at_start = ground arith

msgtag_to_strptr-Prints :
    (id : MsgId) (act : ℕ)
    → IsPrintable act id
    → (s : List ℕ) × (msgtag_to_strptr id ≡ some s) × Prints act (take id.tagcount (tags id)) s
unfolding msgtag_to_strptr
msgtag_to_strptr-Prints id act p = elim (Bool-cases (id.tagcount == 1)) [
  | inl single ↦
      let (t, there, only, small) =
        first_only act id.tagcount (tags id) (ground arith) p.wf.within p.printable in
      rw (single, there, only)
        (
          decimal t,
          refl,
          subst (λ a. Prints a (t ∷ []) (decimal t)) (ground arith) (decimal-Prints t small),
        )
  | inr several ↦
      rw (several, p.active, le→leb id.tagcount (length (tags id)) p.wf.within)
        (joined-Prints act (take id.tagcount (tags id))
          (omega (arith, length-take id.tagcount (tags id)))
          (omega (arith, length-take id.tagcount (tags id))) p.printable)
]

-- An id with at least one tag, in which each tag is at most 32767 and at least -2 and the active one is not -1, is
-- printed, and the text is read without an error, with room for as many channels or fewer, as an id with the same tags, as
-- many of them and the same active one, whatever the static array held before.
pub parse_msg_tag-msgtag_to_strptr :
    (old : List ℤ) (expected act : ℕ) (id mid : MsgId)
    → IsPrintable act id
    → expected ≤ id.tagcount
    → (s : List ℕ) × (id' : MsgId) × (msgtag_to_strptr id ≡ some s)
      × (parse_msg_tag old expected (some s) mid ≡ some (ngx_ok, id'))
      × IsReadBack mid id id'
parse_msg_tag-msgtag_to_strptr old expected act id mid p h =
    let (s, printed, reads) = msgtag_to_strptr-Prints id act p in
    let ts = take id.tagcount (tags id) in
    let size : length ts ≡ id.tagcount =
      omega (arith, length-take id.tagcount (tags id), p.wf.within) in
    (
      s,
      with_parsed_tags old mid (pos act) ts,
      printed,
      parse_msg_tag-Prints old expected act ts s mid (omega arith) (omega arith) reads,
      record {
        counted = size;
        active = sym p.active;
        same_tags = tags-with_parsed_tags old mid (pos act) ts;
        second = refl;
      },
    )
