-- ===== src/Util/ChannelId.antt =====
-- Channel ids, util/nchan_channel_id.c, with the parts of store/memory/memstore.c that read the ids
-- of multiplexed channels. A string is the list of its bytes.
pub mod RoundTrip
pub mod SplitId
pub mod Gather
use nchan.Prelude.{
  Bool, List, Option, drop, false, if◌then◌else◌, leb, length, ltb, none, some, suc, true, zero, ℕ,
  [], ◌&&◌, ◌++◌, ◌+◌, ◌==◌, ◌>>=◌, ◌∷◌,
}

-- NCHAN_MULTI_SEP_CHR, '/' and 'm'
abbrev pub sep_chr : ℕ
sep_chr = 0

abbrev pub slash : ℕ
slash = 47

abbrev pub letter_m : ℕ
letter_m = 109

-- `validate_id`
unfoldable pub validate_id : ℕ → List ℕ → Bool
validate_id max_channel_id_length id = leb (length id) max_channel_id_length

-- `nchan_channel_id_is_multi`
pub channel_id_is_multi : List ℕ → Bool
channel_id_is_multi (a ∷ b ∷ c ∷ id) = a == letter_m && b == slash && c == sep_chr
channel_id_is_multi id = false

-- `ngx_strncmp(cur, delim, delim_sz) == 0`, where there are at least as many bytes; the delimiter
-- comes from the configuration and holds no null byte.
abbrev pub starts_with : List ℕ → List ℕ → Bool
starts_with [] s = true
starts_with (d ∷ delim) [] = false
starts_with (d ∷ delim) (c ∷ s) = if d == c then starts_with delim s else false

-- `nchan_strsplit` (util/nchan_util.c): the bytes up to the pointer that it returns, and those from the pointer
-- that it leaves in `*s1`; `none` is a null pointer. `before` are the bytes that were passed.
unfoldable pub strsplit : List ℕ → List ℕ → List ℕ → Option (List ℕ × List ℕ)
strsplit delim before [] = if length delim == 0 then some (before, []) else none
strsplit delim before (c ∷ s) =
    let rest = strsplit delim (before ++ c ∷ []) s in
    if ltb (length delim) (length (c ∷ s))
    then if starts_with delim (c ∷ s) then some (before, drop (length delim) (c ∷ s)) else rest
    else if length (c ∷ s) == length delim
    then some (before ++ c ∷ s, [])
    else none

-- NCHAN_MULTITAG_MAX
abbrev pub multitag_max : ℕ
multitag_max = 255

-- The loop over the parts of one id, after the ids `out`; `none` is NGX_DECLINED. There are fewer parts than the given rounds.
unfoldable pub split_id : ℕ → List ℕ → List ℕ → List (List ℕ) → Option (List (List ℕ))
unfolding strsplit
split_id zero delim s out = some out
split_id (suc rounds) delim s out = elim (strsplit delim [] s) [
  | none ↦ some out
  | some (part, more) ↦
      let rest = split_id rounds delim more (out ++ part ∷ []) in
      if leb multitag_max (length out) then none else rest
]

-- The ids with the parts of one value after them; `none` is NGX_DECLINED.
unfoldable pub value_parts : List ℕ → List ℕ → List (List ℕ) → Option (List (List ℕ))
unfolding split_id
value_parts delim v out =
    if ltb 0 (length delim)
    then split_id (length v + 1) delim v out
    else if leb multitag_max (length out)
    then none
    else some (out ++ v ∷ [])

-- The first loop of `nchan_process_multi_channel_id`, over the values of the configured ids: the ids
-- put into `id`; `none` is NGX_DECLINED.
unfoldable pub gather : ℕ → List ℕ → List (List ℕ) → List (List ℕ) → Option (List (List ℕ))
unfolding value_parts validate_id
gather max_len delim [] out = some out
gather max_len delim (v ∷ values) out =
    let rest = value_parts delim v out >>= gather max_len delim values in
    if ltb (length out) multitag_max then if validate_id max_len v then rest else none else some out

-- The size that the first loop and what follows it compute.
abbrev pub size_of : ℕ → List (List ℕ) → ℕ
size_of grouplen [] = 0
size_of grouplen (id ∷ ids) = length id + 1 + grouplen + size_of grouplen ids

pub channel_id_size : ℕ → List (List ℕ) → ℕ
channel_id_size grouplen ids =
    size_of grouplen ids + (if ltb 1 (length ids) then 3 + length ids else 0)

-- The second loop, with what it writes after each id.
pub write_ids : List ℕ → List ℕ → List (List ℕ) → List ℕ
write_ids group end [] = []
write_ids group end (id ∷ ids) = (group ++ slash ∷ id) ++ (end ++ write_ids group end ids)

-- The bytes written to `id_out->data`.
pub channel_id : List ℕ → List (List ℕ) → List ℕ
unfolding write_ids
channel_id group ids =
    if ltb 1 (length ids)
    then letter_m ∷ slash ∷ sep_chr ∷ write_ids group (sep_chr ∷ []) ids
    else write_ids group [] ids

-- `nchan_process_multi_channel_id`, with the memory that it asks for granted: the size it allocates and the bytes it writes.
process_multi_channel_id : ℕ → List ℕ → List ℕ → List (List ℕ) → Option (ℕ × List ℕ)
unfolding gather channel_id_size channel_id
process_multi_channel_id max_len delim group values = do
  ids ← gather max_len delim values []
  some (channel_id_size (length group) ids, channel_id group ids)

-- The loop of `parse_multi_id`: what stands before each separator; `cur` are the bytes since the last.
pub split_at_seps : List ℕ → List ℕ → List (List ℕ)
split_at_seps cur [] = []
split_at_seps cur (c ∷ cs) =
    let rest = split_at_seps [] cs in
    let more = split_at_seps (cur ++ c ∷ []) cs in if c == sep_chr then cur ∷ rest else more

-- `parse_multi_id`: the ids, none for an id that is not multiplexed
pub parse_multi_id : List ℕ → List (List ℕ)
unfolding split_at_seps
parse_multi_id id = if channel_id_is_multi id then split_at_seps [] (drop 3 id) else []

-- The loop of `count_channel_id`.
pub count_seps : List ℕ → ℕ
count_seps [] = 0
count_seps (c ∷ cs) = if c == sep_chr then suc (count_seps cs) else count_seps cs

-- `count_channel_id`
pub count_channel_id : List ℕ → ℕ
unfolding count_seps
count_channel_id id = if channel_id_is_multi id then count_seps (drop 3 id) else 1

-- `memchr(cur, '/', len)`: the bytes before it; `none` is the failed assertion.
pub group_before : List ℕ → Option (List ℕ)
group_before [] = none
group_before (c ∷ cs) =
    let rest = group_before cs in if c == slash then some [] else rest >>= λ g. some (c ∷ g)

-- `nchan_get_group_from_channel_id`
pub get_group_from_channel_id : List ℕ → Option (List ℕ)
unfolding group_before
get_group_from_channel_id id = group_before (if channel_id_is_multi id then drop 3 id else id)
