-- ===== src/Msg/Tag.antt =====
-- The text of a message id: `msgtag_to_strptr` and `msgid_to_str` of util/nchan_output.c, and
-- `nchan_parse_msg_tag` and `nchan_parse_compound_msgid` of util/nchan_msg.c. Texts are lists of bytes.
pub mod Scan
pub mod Joined
pub mod RoundTrip
pub mod Compound
mod Tests
use nchan.Prelude.{
  Bool, List, Option, Rc, assert, drop, false, get_elem?, if◌then◌else◌, leb, length, ltb,
  ngx_error, ngx_ok, none, not, replicate, some, suc, take, true, zero, ℕ, [], ◌%◌, ◌&&◌, ◌*◌, ◌++◌,
  ◌+◌, ◌-◌, ◌/◌, ◌==◌, ◌>>=◌, ◌>>◌, ◌||◌, ◌∷◌,
}
use nchan.Prelude.Int.{eqb_ℤ, leb_ℤ, negsuc, pos, to_i16, ℤ, ◌+ℤ◌, ◌-ℤ◌}
use nchan.Msg.Id.{MsgId, allocd, fixed, fixed_multitag_max, multitag_max, tags}

-- `sprintf` of `%i` and `%li`: one digit for each round; a number has fewer digits than `suc` of it.
pub digits : ℕ → ℕ → List ℕ
digits zero n = []
digits (suc rounds) n =
    let more = digits rounds (n / 10) ++ (48 + n % 10) ∷ [] in
    if ltb n 10 then (48 + n) ∷ [] else more

pub decimal : ℤ → List ℕ
unfolding digits
decimal (pos n) = digits (suc n) n
decimal (negsuc n) = b'-' ∷ digits (suc (suc n)) (suc n)

abbrev pub minus_one : ℤ
minus_one = negsuc 0

-- One round of the loop of `msgtag_to_strptr`, up to the comma.
pub print_tag : Bool → ℤ → List ℕ
unfolding decimal
print_tag active t =
    if eqb_ℤ t minus_one
    then b'-' ∷ []
    else if active
    then b'[' ∷ (decimal t ++ b']' ∷ [])
    else decimal t

-- The loop, from the index `i`, with its assertions.
pub print_tags : ℤ → ℕ → List ℤ → Option (List ℕ)
unfolding print_tag
print_tags tagactive i [] = some []
print_tags tagactive i (t ∷ ts) = do
  assert (leb_ℤ (negsuc 1) t)
  assert (not (eqb_ℤ t minus_one && eqb_ℤ tagactive (pos i)))
  rest ← print_tags tagactive (suc i) ts
  some (print_tag (eqb_ℤ tagactive (pos i)) t ++ b',' ∷ rest)

-- `cur[-1]='\0'`: the last comma is cut off; without any the write is before the buffer.
abbrev pub cut_last : List ℕ → Option (List ℕ)
cut_last [] = none
cut_last (c ∷ cs) = some (take (length cs) (c ∷ cs))

-- `msgtag_to_strptr`. A tag outside the array is not read.
pub msgtag_to_strptr : MsgId → Option (List ℕ)
unfolding print_tags decimal
msgtag_to_strptr id =
    if id.tagcount == 1
    then get_elem? (tags id) 0 >>= (λ t. some (decimal t))
    else if leb id.tagcount (length (tags id))
    then print_tags id.tagactive 0 (take id.tagcount (tags id)) >>= cut_last
    else none

-- `msgid_to_str`
pub msgid_to_str : MsgId → Option (List ℕ)
unfolding msgtag_to_strptr decimal
msgid_to_str id = msgtag_to_strptr id >>= λ s. some (decimal id.time ++ b':' ∷ s)

-- The variables of `nchan_parse_msg_tag`: `i` is the number of tags `written`, and
-- `active` is `tagactive`, with `none` for NGX_ERROR.
pub record Scanned : Type 0 where
  pub written : List ℤ
  pub negative : Bool
  pub val : ℤ
  pub opened : ℕ
  pub closed : ℕ
  pub active : Option ℕ

-- `10 * val + digit`, in `int`
abbrev pub ten_times_plus : ℤ → ℕ → ℤ
ten_times_plus (pos n) digit = pos (10 * n + digit)
ten_times_plus (negsuc n) digit = negsuc (10 * n + 9) +ℤ pos digit

-- `(val == 0 && sign == -1) ? -1 : val * sign`, into an `int16_t`
abbrev pub signed : Bool → ℤ → ℤ
signed negative val =
    if eqb_ℤ val (pos 0) && negative
    then minus_one
    else if negative
    then to_i16 (pos 0 -ℤ val)
    else val

abbrev pub write_tag : Scanned → Scanned
write_tag st = record st { written = st.written ++ signed st.negative st.val ∷ [] }

-- What the loop does with one byte; `none` is `return NGX_ERROR`.
pub scan_byte : ℕ → Scanned → Option Scanned
scan_byte c st =
    if c == b'-'
    then some (record st { negative = true })
    else if leb b'0' c && leb c b'9'
    then some (record st { val = to_i16 (ten_times_plus st.val (c - b'0')) })
    else if c == b'['
    then if ltb 1 (suc st.opened)
      then none
      else some (record st { opened = suc st.opened; active = some (length st.written) })
    else if c == b']'
    then if ltb 1 (suc st.closed) || not (st.opened == suc st.closed)
      then none
      else some (record st { closed = suc st.closed })
    else if c == b','
    then some (record (write_tag st) { negative = false; val = pos 0 })
    else some st

-- The loop, from `cur` to `last`.
pub scan_tags : List ℕ → Scanned → Option Scanned
unfolding scan_byte
scan_tags [] st = some (if ltb (length st.written) multitag_max then write_tag st else st)
scan_tags (c ∷ s) st =
    if ltb (length st.written) multitag_max then scan_byte c st >>= scan_tags s else some st

abbrev pub scan_start : Scanned
scan_start = record {
  written = [];
  negative = false;
  val = pos 0;
  opened = 0;
  closed = 0;
  active = none;
}

-- The tags that are missing are -1. `none` is a write behind the array.
abbrev pub filled_tags : ℕ → List ℤ → Option (List ℤ)
filled_tags expected ts =
    if leb expected multitag_max
    then some (ts ++ replicate (expected - length ts) minus_one)
    else if leb expected (length ts)
    then some ts
    else none

-- The end of the function: the tags go into the id; `old` is what the static array held before.
abbrev pub with_parsed_tags : List ℤ → MsgId → ℤ → List ℤ → MsgId
with_parsed_tags old mid tagactive ts =
    let array = ts ++ drop (length ts) old in
    record mid {
      tagactive = tagactive;
      tagcount = length ts;
      tag =
          if leb (length ts) fixed_multitag_max
          then fixed (take fixed_multitag_max array)
          else allocd array;
    }

-- What follows the loop, from the tags and `tagactive`; `none` is a write behind the array.
pub activate : List ℤ → ℕ → MsgId → List ℤ → Option ℕ → Option (Rc × MsgId)
activate old expected mid written (some a) =
    filled_tags expected written >>= λ ts. some (ngx_ok, with_parsed_tags old mid (pos a) ts)
activate old expected mid written none =
    if length written == 1
    then filled_tags expected written >>= (λ ts. some (ngx_ok, with_parsed_tags old mid (pos 0) ts))
    else if length written == 0
    then some (ngx_error, record mid { tagactive = minus_one })
    else some (ngx_error, mid)

abbrev pub finish : List ℤ → ℕ → MsgId → Option Scanned → Option (Rc × MsgId)
finish old expected mid none = some (ngx_error, mid)
finish old expected mid (some st) = activate old expected mid st.written st.active

-- `nchan_parse_msg_tag` of a text, or of a null pointer.
pub parse_msg_tag : List ℤ → ℕ → Option (List ℕ) → MsgId → Option (Rc × MsgId)
unfolding scan_tags activate
parse_msg_tag old expected none mid = finish old expected mid (some scan_start)
parse_msg_tag old expected (some text) mid = finish old expected mid (scan_tags text scan_start)
