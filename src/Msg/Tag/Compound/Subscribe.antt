-- ===== src/Msg/Tag/Compound/Subscribe.antt =====
-- What a subscriber gets that sends an id back.
use nchan.Msg.Tag.RoundTrip.{IsPrintable, IsReadBack, parse_msg_tag-msgtag_to_strptr}
use nchan.Prelude.{
  All, All-append, Bool-cases, List, Option-cases, ap, ap₂, arith, drop, false, if◌then◌else◌, inl,
  inr, length, ltb, none, refl, some, suc, sym, take-append, zero, ℕ, [], ◌%◌, ◌++◌, ◌+◌, ◌/◌, ◌<◌,
  ◌==◌, ◌>>=◌, ◌^◌, ◌∙◌, ◌∷◌, ◌≡◌, ◌≢◌, ◌≤◌, ◌⊎◌,
}
use nchan.Prelude.Int.{leb_ℤ, negsuc, pos, ℤ}
use nchan.Msg.Id.{MsgId}
use nchan.Msg.Tag.{activate, decimal, digits, msgid_to_str, msgtag_to_strptr, parse_msg_tag}
use nchan.Msg.Tag.Compound.{
  Nginx, Request, at_split, dated, default_id, from_etag, from_headers, parse_compound_msgid,
  subscriber_get_msg_id, unless_declined, unless_error, with_time,
}

abbrev pub Lacks : ℕ → List ℕ → Type 0
Lacks c = All (λ x. (x == c) ≡ false)

-- What is used of nginx: `ngx_atoi` reads digits and nothing else, up to NGX_MAX_INT_T_VALUE, and
-- `ngx_strlchr` finds the first place of a character.
pub record NginxLaws (nginx : Nginx) : Type 0 where
  pub atoi_digits : (n : ℕ) → n < 2 ^ 63 → nginx.atoi (decimal (pos n)) ≡ some n
  pub atoi_sign : (s : List ℕ) → nginx.atoi (b'-' ∷ s) ≡ none
  pub strlchr_first :
      (s t : List ℕ) (c : ℕ) → Lacks c s → nginx.strlchr (s ++ c ∷ t) c ≡ some (length s)

Lacks-digits : (rounds n : ℕ) → Lacks b':' (digits rounds n)
unfolding digits
Lacks-digits zero n = tt
Lacks-digits (suc rounds) n = elim (Bool-cases (ltb n 10)) [
  | inl one ↦ rw one (ground arith, tt)
  | inr more ↦ rw more (
      All-append (λ x. (x == b':') ≡ false) (digits rounds (n / 10)) ((48 + n % 10) ∷ [])
        (Lacks-digits rounds (n / 10)) (ground arith, tt))
]

Lacks-decimal : (t : ℤ) → Lacks b':' (decimal t)
unfolding decimal
Lacks-decimal (pos n) = Lacks-digits (suc n) n
Lacks-decimal (negsuc n) = (refl, Lacks-digits (suc (suc n)) (suc n))

drop-append : (s t : List ℕ) (c : ℕ) → drop (suc (length s)) (s ++ c ∷ t) ≡ t
drop-append [] t c = refl
drop-append (x ∷ s) t c = drop-append s t c

after_1970 : (n : ℕ) → leb_ℤ (pos (suc n)) (pos 0) ≡ false
after_1970 n = ground arith

module _ (nginx : Nginx) (laws : NginxLaws nginx) where
  negative : (n : ℕ) → nginx.atoi (decimal (negsuc n)) ≡ none
  unfolding decimal
  negative n = laws.atoi_sign (digits (suc (suc n)) (suc n))

  -- The text before the first colon is read as the time.
  parse_compound_msgid-colon :
      (old : List ℤ) (expected : ℕ) (s t : List ℕ) (id : MsgId)
      → Lacks b':' s
      → parse_compound_msgid nginx old expected (s ++ b':' ∷ t) id
        ≡ with_time old expected t id (nginx.atoi s)
  unfolding parse_compound_msgid
  parse_compound_msgid-colon old expected s t id lacks =
      ap (at_split nginx old expected (s ++ b':' ∷ t) id) (laws.strlchr_first s t b':' lacks)
      ∙ ap₂ (λ a b. with_time old expected a id (nginx.atoi b)) (drop-append s t b':')
          (take-append s (b':' ∷ t))

  -- An id is printed, and a subscriber that sends the text back in its If-None-Match, at a location that reads ids
  -- from there or in a request without a date, gets an id of the same second with the same tags and the same active
  -- one, whatever was left in the static variables, if: the id has a tag and no more than the 255 that an id may have;
  -- its tags are from -2 to 32767; its active one is among them and is not -1; its second is from 0 to before 2^63;
  -- and the request is for no more channels than the id has tags.
  pub subscriber_get_msg_id-msgid_to_str :
      (old : List ℤ) (act n : ℕ) (id left : MsgId) (r : Request)
      → IsPrintable act id
      → id.time ≡ pos n
      → n < 2 ^ 63
      → r.channel_id_count ≤ id.tagcount
      → dated r ≡ none
      → r.if_none_match ≡ msgid_to_str id
      → (id' : MsgId) × (subscriber_get_msg_id nginx old left r ≡ some (some id'))
        × IsReadBack id id id'
  unfolding subscriber_get_msg_id msgid_to_str
  subscriber_get_msg_id-msgid_to_str old act n id left r p second late few undated etag =
      let (s, id', printed, reads, same) =
        parse_msg_tag-msgtag_to_strptr old r.channel_id_count act id (record left { time = pos n })
          p few in
      (
        id',
        ap (from_headers nginx old left r) undated
            ∙ ap (from_etag nginx old left r)
                (etag ∙ ap (λ o. o >>= λ t. some (decimal id.time ++ b':' ∷ t)) printed)
            ∙ ap (λ o. unless_declined o (λ x. some (some (default_id r.first_message))))
                (parse_compound_msgid-colon old r.channel_id_count (decimal id.time) s left
                    (Lacks-decimal id.time)
                  ∙ ap (with_time old r.channel_id_count s left)
                      (ap (λ t. nginx.atoi (decimal t)) second ∙ laws.atoi_digits n late)
                  ∙ reads),
        record {
          counted = same.counted;
          active = same.active;
          same_tags = same.same_tags;
          second = same.second ∙ sym second;
        },
      )

  -- The text of an id of a special second, which is negative for the newest and the n-th message, is refused; and so is
  -- a request with a date after 1970 but without an If-None-Match, although without any tags the code sets the active
  -- tag to none and means to go on.
  pub subscriber_get_msg_id-refuses :
      (old : List ℤ) (n : ℕ) (id left : MsgId) (r : Request)
      → ((id.time ≡ negsuc n)
          × (dated r ≡ none)
          × (r.if_none_match ≡ msgid_to_str id)
          × (msgid_to_str id ≢ none))
        ⊎ ((dated r ≡ some (pos (suc n))) × (r.if_none_match ≡ none))
      → subscriber_get_msg_id nginx old left r ≡ some none
  unfolding subscriber_get_msg_id msgid_to_str
  subscriber_get_msg_id-refuses old n id left r (inl (second, undated, etag, printed)) =
      elim (Option-cases (msgtag_to_strptr id)) [
        | inl fault ↦ absurd (printed (rw fault refl))
        | inr (s, shown) ↦
            ap (from_headers nginx old left r) undated
            ∙ ap (from_etag nginx old left r)
                (etag ∙ ap (λ o. o >>= λ t. some (decimal id.time ++ b':' ∷ t)) shown)
            ∙ ap (λ o. unless_declined o (λ x. some (some (default_id r.first_message))))
                (parse_compound_msgid-colon old r.channel_id_count (decimal id.time) s left
                    (Lacks-decimal id.time)
                  ∙ ap (with_time old r.channel_id_count s left)
                      (ap (λ t. nginx.atoi (decimal t)) second ∙ negative n))
      ]
  subscriber_get_msg_id-refuses old n id left r (inr (dates, etag)) =
      ap (from_headers nginx old left r) dates
      ∙ ap
          (λ b.
            if b
            then some (some (default_id r.first_message))
            else unless_error (
                parse_msg_tag old r.channel_id_count r.if_none_match
                  (record left { time = pos (suc n) })))
          (after_1970 n)
      ∙ ap
          (λ e.
            unless_error
              (parse_msg_tag old r.channel_id_count e (record left { time = pos (suc n) })))
          etag
      ∙ unfold parse_msg_tag activate in refl
