-- ===== src/Msg/Tag/Compound.antt =====
-- The id that a subscriber asks from, util/nchan_msg.c: `nchan_parse_compound_msgid`, `set_default_id`
-- and `nchan_subscriber_get_msg_id`. `ngx_atoi` and `ngx_strlchr` are nginx's, and arguments here.
pub mod Subscribe
use nchan.Prelude.{
  Bool, List, Option, Rc, drop, if◌then◌else◌, ngx_declined, ngx_error, ngx_ok, none, some, suc,
  take, ℕ, [], ◌∷◌,
}
use nchan.Prelude.Int.{eqb_ℤ, leb_ℤ, pos, to_i16, ℤ}
use nchan.Msg.Id.{MsgId, fixed, newest_msgid_time, nth_msgid_time, oldest_msgid_time}
use nchan.Msg.Tag.{parse_msg_tag}

-- `ngx_atoi`, with `none` for NGX_ERROR, and `ngx_strlchr`, with the place of the character or `none`.
pub record Nginx : Type 0 where
  pub atoi : List ℕ → Option ℕ
  pub strlchr : List ℕ → ℕ → Option ℕ

-- With the time that was read before the split, and the text behind it.
abbrev pub with_time : List ℤ → ℕ → List ℕ → MsgId → Option ℕ → Option (Rc × MsgId)
with_time old expected text id none = some (ngx_error, id)
with_time old expected text id (some time) =
    parse_msg_tag old expected (some text) (record id { time = pos time })

-- `if(split)`
abbrev pub at_split : Nginx → List ℤ → ℕ → List ℕ → MsgId → Option ℕ → Option (Rc × MsgId)
at_split nginx old expected text id none = some (ngx_declined, id)
at_split nginx old expected text id (some place) =
    with_time old expected (drop (suc place) text) id (nginx.atoi (take place text))

-- `nchan_parse_compound_msgid`
pub parse_compound_msgid : Nginx → List ℤ → ℕ → List ℕ → MsgId → Option (Rc × MsgId)
parse_compound_msgid nginx old expected text id =
    at_split nginx old expected text id (nginx.strlchr text b':')

-- NCHAN_OLDEST_MSGID, NCHAN_NEWEST_MSGID and NCHAN_NTH_MSGID, with the first tag.
abbrev pub special_id : ℤ → ℤ → MsgId
special_id time t = record {
  time = time;
  tag = fixed (t ∷ pos 0 ∷ pos 0 ∷ pos 0 ∷ []);
  tagactive = pos 0;
  tagcount = 1;
}

-- `set_default_id`, from `cf->subscriber_first_message`
pub default_id : ℤ → MsgId
default_id first_message =
    if eqb_ℤ first_message (pos 1)
    then special_id oldest_msgid_time (pos 0)
    else if eqb_ℤ first_message (pos 0)
    then special_id newest_msgid_time (pos 0)
    else special_id nth_msgid_time (to_i16 first_message)

-- What `nchan_subscriber_get_msg_id` reads of a request and its location: `if_modified_since` is the
-- time of the header as nginx parses it, and `last_message_id` what the values evaluate and decode
-- to, with `none` where that fails.
pub record Request : Type 0 where
  pub msg_in_etag_only : Bool
  pub if_modified_since : Option ℤ
  pub if_none_match : Option (List ℕ)
  pub last_message_id : List (Option (List ℕ))
  pub channel_id_count : ℕ
  pub first_message : ℤ

-- The id that is returned, or a null pointer; the outer `none` is a fault.
abbrev Found : Type 0
Found = Option (Option MsgId)

-- The return value of a parser that has to succeed, and of one that may also decline.
abbrev pub unless_error : Option (Rc × MsgId) → Found
unless_error none = none
unless_error (some (ngx_error, id)) = some none
unless_error (some (rc, id)) = some (some id)

abbrev pub unless_declined : Option (Rc × MsgId) → (MsgId → Found) → Found
unless_declined none more = none
unless_declined (some (ngx_ok, id)) more = some (some id)
unless_declined (some (ngx_error, id)) more = some none
unless_declined (some (rc, id)) more = more id

-- The loop over `last_message_id`.
pub first_alternative : Nginx → List ℤ → ℕ → MsgId → List (Option (List ℕ)) → MsgId → Found
unfolding parse_compound_msgid
first_alternative nginx old expected default [] id = some (some default)
first_alternative nginx old expected default (none ∷ texts) id =
    first_alternative nginx old expected default texts id
first_alternative nginx old expected default (some [] ∷ texts) id =
    first_alternative nginx old expected default texts id
first_alternative nginx old expected default (some (c ∷ text) ∷ texts) id =
    unless_declined (parse_compound_msgid nginx old expected (c ∷ text) id)
      (first_alternative nginx old expected default texts)

abbrev pub dated : Request → Option ℤ
dated r = if r.msg_in_etag_only then none else r.if_modified_since

abbrev pub from_etag : Nginx → List ℤ → MsgId → Request → Option (List ℕ) → Found
from_etag nginx old id r none =
    first_alternative nginx old r.channel_id_count (default_id r.first_message) r.last_message_id id
from_etag nginx old id r (some text) =
    unless_declined (parse_compound_msgid nginx old r.channel_id_count text id)
      (λ left. some (some (default_id r.first_message)))

abbrev pub from_headers : Nginx → List ℤ → MsgId → Request → Option ℤ → Found
from_headers nginx old id r none = from_etag nginx old id r r.if_none_match
from_headers nginx old id r (some time) =
    if leb_ℤ time (pos 0)
    then some (some (default_id r.first_message))
    else unless_error
        (parse_msg_tag old r.channel_id_count r.if_none_match (record id { time = time }))

-- `nchan_subscriber_get_msg_id`, with the static id as the last call left it.
pub subscriber_get_msg_id : Nginx → List ℤ → MsgId → Request → Found
unfolding first_alternative parse_compound_msgid default_id
subscriber_get_msg_id nginx old id r = from_headers nginx old id r (dated r)
