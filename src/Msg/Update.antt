-- ===== src/Msg/Update.antt =====
-- Moving an id on in util/nchan_msg.c: `nchan_copy_msg_id`, `nchan_update_multi_msgid` and
-- `verify_msg_id`, with `update_subscriber_last_msg_id`, which calls them.
pub mod Merge
pub mod Verify
use nchan.Prelude.{
  Bool, List, Option, Rc, assert, false, get_elem?, if◌then◌else◌, leb, ltb, ngx_error, ngx_ok,
  none, not, replicate, some, suc, take, true, zero, ℕ, [], ◌&&◌, ◌++◌, ◌+◌, ◌-◌, ◌==◌, ◌>>=◌, ◌>>◌,
  ◌||◌, ◌∷◌,
}
use nchan.Prelude.Int.{eqb_ℤ, ltb_ℤ, negsuc, pos, ℤ}
use nchan.Msg.Id.{MsgId, Multitag, allocd, allocd_tags, fixed, fixed_multitag_max, tags}

-- `nchan_copy_msg_id`. `largetags` says whether the caller gives an array for the tags, and `memory`
-- whether `ngx_alloc` would give one. The result is the status and the new `*dst`.
unfoldable pub copy_msg_id : MsgId → MsgId → Bool → Bool → Rc × MsgId
copy_msg_id dst src largetags memory =
    let freed = ltb fixed_multitag_max dst.tagcount && not (dst.tagcount == src.tagcount) in
    let dst_n = if freed then fixed_multitag_max else dst.tagcount in
    let moved = record dst {
      time = src.time;
      tagactive = src.tagactive;
      tagcount = src.tagcount;
    } in
    let copied = record moved { tag = allocd (take src.tagcount (allocd_tags src.tag)) } in
    if leb src.tagcount fixed_multitag_max
    then (ngx_ok, record moved { tag = src.tag })
    else if dst_n == src.tagcount || largetags || memory
    then (ngx_ok, copied)
    else (ngx_error, moved)

-- The loop of `nchan_update_multi_msgid` over the tags: `n` rounds are left, from index `i`.
merge_tags : ℕ → ℕ → ℤ → List ℤ → List ℤ → Option (List ℤ)
merge_tags zero i active olds news = some olds
merge_tags (suc n) i active (o ∷ olds) (w ∷ news) = do
  assert (not (eqb_ℤ active (pos i)) || eqb_ℤ w (negsuc 0) || eqb_ℤ o (negsuc 0) || ltb_ℤ o w)
  rest ← merge_tags n (i + 1) active olds news
  some ((if eqb_ℤ w (negsuc 0) then o else w) ∷ rest)
merge_tags (suc n) i active [] news = none
merge_tags (suc n) i active (o ∷ olds) [] = none

-- The first part of `nchan_update_multi_msgid`: a larger array for the old id, which is written to also
-- where no memory is granted: a fault. The pointer to it is stored over the fixed tags before these are
-- read; `overlap` is what its bytes read as.
grow_tags : List ℤ → Bool → MsgId → ℕ → Option MsgId
grow_tags overlap memory oldid newcount =
    if ltb fixed_multitag_max newcount && ltb oldid.tagcount newcount
    then if memory
      then some (record oldid {
        tag = allocd (kept ++ replicate (newcount - oldid.tagcount) (negsuc 0));
        tagcount = newcount;
      })
      else none
    else some oldid
  where
    kept : List ℤ
    kept =
        take oldid.tagcount
          (if ltb fixed_multitag_max oldid.tagcount then allocd_tags oldid.tag else overlap)

with_tags : MsgId → List ℤ → Multitag
with_tags id ts = if leb id.tagcount fixed_multitag_max then fixed ts else allocd ts

-- `nchan_update_multi_msgid`, which gives the new `*oldid`; `none` is a failed assertion or a read
-- outside the tags.
unfoldable pub update_multi_msgid : List ℤ → Bool → MsgId → MsgId → Option MsgId
unfolding merge_tags grow_tags with_tags
update_multi_msgid overlap memory oldid newid = if newid.tagcount == 1 then some newid else (do
  grown ← grow_tags overlap memory oldid newid.tagcount
  if not (eqb_ℤ grown.time newid.time) then some (copy_msg_id grown newid false memory).1 else (do
    assert (newid.tagcount == oldid.tagcount)
    merged ← merge_tags newid.tagcount 0 newid.tagactive (tags oldid) (tags newid)
    some (record oldid { tag = with_tags oldid merged; tagactive = newid.tagactive })))

-- The first loop of `verify_msg_id`: which tag is not -1.
pub data Scan : Type 0 where
  several : Scan
  one_at : Option ℕ → Scan

is_some : Option ℕ → Bool
is_some none = false
is_some (some i) = true

only_tag : ℕ → Option ℕ → List ℤ → Scan
unfolding is_some
only_tag j found [] = one_at found
only_tag j found (t ∷ ts) =
    let next = only_tag (j + 1) (if eqb_ℤ t (negsuc 0) then found else some j) ts in
    if not (eqb_ℤ t (negsuc 0)) && is_some found then several else next

-- The second loop, over the first `n` tags of both ids.
tags_agree : ℕ → List ℤ → List ℤ → Option Bool
tags_agree zero ts1 ts2 = some true
tags_agree (suc n) (t1 ∷ ts1) (t2 ∷ ts2) =
    let next = tags_agree n ts1 ts2 in
    if not (eqb_ℤ t2 (negsuc 0)) && not (eqb_ℤ t1 t2) then some false else next
tags_agree (suc n) [] ts2 = none
tags_agree (suc n) (t1 ∷ ts1) [] = none

abbrev status_of : Bool → Rc
status_of b = if b then ngx_ok else ngx_error

-- Different seconds: `verify_msg_id` accepts only the first message of a second of one channel.
verify_scan : Scan → List ℤ → Option Rc
verify_scan several msgidtags = some ngx_error
verify_scan (one_at none) msgidtags = none
verify_scan (one_at (some i)) msgidtags = do
  t ← get_elem? msgidtags i
  some (status_of (eqb_ℤ t (pos 0)))

-- `verify_msg_id`; `none` is a read outside the tags, as at index -1 if all of them are -1.
unfoldable pub verify_msg_id : MsgId → MsgId → MsgId → Option Rc
unfolding only_tag tags_agree verify_scan
verify_msg_id id1 id2 msgid =
    if ltb_ℤ (pos 0) id1.time && ltb_ℤ (pos 0) id2.time
    then if not (eqb_ℤ id1.time id2.time)
      then if ltb 1 id2.tagcount
        then verify_scan (only_tag 0 none (take id2.tagcount (tags id2))) (tags msgid)
        else some ngx_error
      else if id1.tagcount == 1
      then (do
        t1 ← get_elem? (tags id1) 0
        t2 ← get_elem? (tags id2) 0
        some (status_of (eqb_ℤ t1 t2)))
      else (do agree ← tags_agree id1.tagcount (tags id1) (tags id2); some (status_of agree))
    else some ngx_ok

-- `update_subscriber_last_msg_id`, as far as it changes the subscriber: a message that does not
-- follow the last one is logged (`true`) and delivered all the same.
unfoldable pub update_subscriber_last_msg_id :
    List ℤ → Bool → MsgId → Option (MsgId × MsgId) → Option (MsgId × Bool)
update_subscriber_last_msg_id overlap memory last_msgid none = some (last_msgid, false)
update_subscriber_last_msg_id overlap memory last_msgid (some (prev_id, id)) = do
  rc ← verify_msg_id last_msgid prev_id id
  last' ← update_multi_msgid overlap memory last_msgid id
  some (last', elim rc [ ngx_error ↦ true | _ ↦ false ])
