-- ===== src/Msg/Tag/Tests.antt =====
-- Printing and reading of concrete ids, and uses of the theorems, with versions of the functions of
-- nginx.
use nchan.Prelude.{
  Bool-cases, List, Option, ap, append-nil, append_assoc, arith, false, if◌then◌else◌, inl, inr,
  leb, length, length-append, ltb, ngx_ok, none, refl, some, suc, sym, true, zero, ℕ, [], ◌%◌, ◌&&◌,
  ◌*◌, ◌++◌, ◌+◌, ◌-◌, ◌/◌, ◌<◌, ◌==◌, ◌>>=◌, ◌∙◌, ◌∷◌, ◌≡◌, ◌≢◌,
}
use nchan.Prelude.Int.{negsuc, pos}
use nchan.Msg.Id.{MsgId, fixed}
use nchan.Msg.Tag.{decimal, digits, minus_one, msgid_to_str, msgtag_to_strptr, parse_msg_tag}
use nchan.Msg.Tag.RoundTrip.{IsPrintable, IsReadBack, parse_msg_tag-msgtag_to_strptr}
use nchan.Msg.Tag.Compound.{Nginx, Request, subscriber_get_msg_id}
use nchan.Msg.Tag.Compound.Subscribe.{
  Lacks, NginxLaws, subscriber_get_msg_id-msgid_to_str, subscriber_get_msg_id-refuses,
}

read : ℕ → List ℕ → Option ℕ
read acc [] = some acc
read acc (c ∷ s) =
    let rest = read (10 * acc + (c - 48)) s in if leb 48 c && leb c 57 then rest else none

abbrev index : ℕ → List ℕ → Option ℕ
index c [] = none
index c (x ∷ s) = if x == c then some 0 else index c s >>= λ i. some (suc i)

nginx : Nginx
unfolding read
nginx = record {
  atoi = λ s. if leb 1 (length s) then read 0 s else none;
  strlchr = λ s c. index c s;
}

read-digit :
    (acc d n : ℕ) (s : List ℕ) → d < 10 → n ≡ 10 * acc + d → read acc ((48 + d) ∷ s) ≡ read n s
unfolding read
read-digit acc d n s h e = rw digit (ap (λ m. read m s) (omega arith))
  where
    digit : (leb 48 (48 + d) && leb (48 + d) 57) ≡ true
    digit = ground arith

read-digits : (rounds n : ℕ) (s : List ℕ) → n < rounds → read 0 (digits rounds n ++ s) ≡ read n s
unfolding digits
read-digits zero n s h = absurd (omega arith)
read-digits (suc rounds) n s h = elim (Bool-cases (ltb n 10)) [
  | inl one ↦ rw one (read-digit 0 n n s (ground arith) (omega arith))
  | inr more ↦
      rw (more, append_assoc)
        (read-digits rounds (n / 10) ((48 + n % 10) ∷ s) (ground arith)
          ∙ read-digit (n / 10) (n % 10) n s (omega arith) (omega arith))
]

length-digits : (rounds n : ℕ) → n < rounds → leb 1 (length (digits rounds n)) ≡ true
unfolding digits
length-digits zero n h = absurd (omega arith)
length-digits (suc rounds) n h = elim (Bool-cases (ltb n 10)) [
  | inl one ↦ rw one refl
  | inr more ↦ rw (more, length-append (digits rounds (n / 10)) ((48 + n % 10) ∷ [])) (ground arith)
]

index-first : (s t : List ℕ) (c : ℕ) → Lacks c s → index c (s ++ c ∷ t) ≡ some (length s)
index-first [] t c h = rw (same c) refl
  where
    same : (c : ℕ) → (c == c) ≡ true
    same c = ground arith
index-first (x ∷ s) t c (other, h) = rw (other, index-first s t c h) refl

nginx-NginxLaws : NginxLaws nginx
unfolding nginx decimal read
nginx-NginxLaws = record {
  atoi_digits = λ n late.
      rw (length-digits (suc n) n (omega arith)) (
        ap (read 0) (sym (append-nil (digits (suc n) n))) ∙ read-digits (suc n) n [] (omega arith));
  atoi_sign = λ s. ground arith;
  strlchr_first = index-first;
}

-- 20:-,[7],0
abbrev three_tags : MsgId
three_tags = record {
  time = pos 20;
  tag = fixed (minus_one ∷ pos 7 ∷ pos 0 ∷ []);
  tagactive = pos 1;
  tagcount = 3;
}

abbrev printed : List ℕ
printed = 50 ∷ 48 ∷ 58 ∷ 45 ∷ 44 ∷ 91 ∷ 55 ∷ 93 ∷ 44 ∷ 48 ∷ []

three_tags-printed : msgid_to_str three_tags ≡ some printed
unfolding msgid_to_str
three_tags-printed = refl

abbrev left : MsgId
left = record { time = pos 0; tag = fixed []; tagactive = pos 0; tagcount = 0 }

pos-ne-negsuc : (n m : ℕ) → pos n ≢ negsuc m
pos-ne-negsuc n m e = cc

three_tags-IsPrintable : IsPrintable 1 three_tags
three_tags-IsPrintable = record {
  wf = record { within = omega arith; bounded = omega arith };
  some_tag = omega arith;
  active = refl;
  within = omega arith;
  printable = (
    refl,
    omega arith,
    λ e. absurd (omega arith),
    (refl, omega arith, λ e. pos-ne-negsuc 7 0, (refl, omega arith, λ e. pos-ne-negsuc 0 0, tt)),
  );
}

parse_msg_tag-msgtag_to_strptr_example :
    (s : List ℕ) × (id' : MsgId) × (msgtag_to_strptr three_tags ≡ some s)
    × (parse_msg_tag [] 3 (some s) left ≡ some (ngx_ok, id'))
    × IsReadBack left three_tags id'
parse_msg_tag-msgtag_to_strptr_example =
    parse_msg_tag-msgtag_to_strptr [] 3 1 three_tags left three_tags-IsPrintable (omega arith)

abbrev request : Option (List ℕ) → Request
request etag = record {
  msg_in_etag_only = true;
  if_modified_since = none;
  if_none_match = etag;
  last_message_id = [];
  channel_id_count = 3;
  first_message = pos 1;
}

subscriber_get_msg_id-msgid_to_str_example :
    (id' : MsgId) × (subscriber_get_msg_id nginx [] left (request (some printed)) ≡ some (some id'))
    × IsReadBack three_tags three_tags id'
unfolding msgid_to_str
subscriber_get_msg_id-msgid_to_str_example =
    subscriber_get_msg_id-msgid_to_str nginx nginx-NginxLaws [] 1 20 three_tags left
      (request (some printed)) three_tags-IsPrintable refl (omega arith) (omega arith) refl refl

abbrev dated_request : Request
dated_request = record (request none) {
  msg_in_etag_only = false;
  if_modified_since = some (pos 20);
}

subscriber_get_msg_id-refuses_example :
    subscriber_get_msg_id nginx [] left dated_request ≡ some none
subscriber_get_msg_id-refuses_example =
    subscriber_get_msg_id-refuses nginx nginx-NginxLaws [] 19 three_tags left dated_request
      (inr (refl, refl))
