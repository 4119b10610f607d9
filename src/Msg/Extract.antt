-- ===== src/Msg/Extract.antt =====
-- Between the ids of one channel and those of a multiplexed subscription in util/nchan_msg.c.
pub mod Newer
use nchan.Prelude.{
  Bool, List, Option, Rc, assert, drop, get_elem?, if◌then◌else◌, leb, ltb, ngx_error, ngx_ok, some,
  suc, zero, ℕ, [], ◌%◌, ◌&&◌, ◌+◌, ◌==◌, ◌>>=◌, ◌>>◌, ◌||◌, ◌∷◌,
}
use nchan.Prelude.Int.{eqb_ℤ, leb_ℤ, ltb_ℤ, negsuc, pos, ℤ, ◌-ℤ◌}
use nchan.Msg.Id.{
  MsgId, Multitag, allocd, allocd_tags, fixed, fixed_multitag_max, fixed_tags, newest_msgid_time,
  nth_msgid_time, oldest_msgid_time, tags,
}

-- `id->tag.fixed[0] = t`
abbrev pub set_fixed_0 : Multitag → ℤ → Multitag
set_fixed_0 (fixed l) t = fixed (t ∷ drop 1 l)
set_fixed_0 (allocd l) t = fixed (t ∷ [])

-- What each branch of `nchan_extract_from_multi_msgid` leaves in `*dst`.
extracted : MsgId → ℤ → ℤ → MsgId
extracted dst time t = record {
  time = time;
  tag = set_fixed_0 dst.tag t;
  tagactive = pos 0;
  tagcount = 1;
}

-- `nchan_extract_from_multi_msgid`; `none` is a read outside the tags.
pub extract_from_multi_msgid : MsgId → ℕ → MsgId → Option (Rc × MsgId)
unfolding extracted
extract_from_multi_msgid src n dst =
    let count = src.tagcount % 256 in
    if eqb_ℤ src.time oldest_msgid_time || eqb_ℤ src.time newest_msgid_time
    then some (ngx_ok, extracted dst src.time (pos 0))
    else if eqb_ℤ src.time nth_msgid_time
    then (do t ← get_elem? (fixed_tags src.tag) 0; some (ngx_ok, extracted dst src.time t))
    else if leb count n
    then some (ngx_error, dst)
    else (do
      t ←
          get_elem?
            (if leb count fixed_multitag_max then fixed_tags src.tag else allocd_tags src.tag) n
      some (
        ngx_ok,
        (if eqb_ℤ t (negsuc 0)
            then extracted dst (src.time -ℤ pos 1) (pos 32767)
            else extracted dst src.time t),
      ))

-- The loop of `nchan_expand_msg_id_multi_tag`: `n` rounds are left, from index `i`.
filled : ℕ → ℕ → ℕ → ℤ → ℤ → List ℤ → List ℤ
filled zero i out_n v fill ts = ts
filled (suc n) i out_n v fill [] = []
filled (suc n) i out_n v fill (t ∷ ts) =
    (if i == out_n then v else fill) ∷ filled n (i + 1) out_n v fill ts

-- `nchan_expand_msg_id_multi_tag`; `none` is a failed assertion or a read outside the tags.
pub expand_msg_id_multi_tag : MsgId → ℕ → ℕ → ℤ → Option MsgId
unfolding filled
expand_msg_id_multi_tag id in_n out_n fill = do
  assert (ltb in_n id.tagcount && ltb out_n id.tagcount)
  v ← get_elem? (tags id) in_n
  some (record id {
    tag =
        if leb id.tagcount fixed_multitag_max
        then fixed (filled id.tagcount 0 out_n v fill (fixed_tags id.tag))
        else allocd (filled id.tagcount 0 out_n v fill (allocd_tags id.tag));
  })

-- `nchan_msgid_tagcount_match`
msgid_tagcount_match : MsgId → ℕ → Bool
msgid_tagcount_match id count =
    if eqb_ℤ id.time oldest_msgid_time
      || eqb_ℤ id.time newest_msgid_time
      || eqb_ℤ id.time nth_msgid_time
    then id.tagcount == 1 && eqb_ℤ id.tagactive (pos 0)
    else id.tagcount == count && leb_ℤ (pos 0) id.tagactive && ltb_ℤ id.tagactive (pos count)
