-- ===== src/Util/ChannelId/RoundTrip.antt =====
-- The ids that are built fit the memory asked for, and are read back.
use nchan.Prelude.{
  All, All-append, Bool, Bool-cases, List, ap, append-nil, append_assoc, arith, false, inl, inr,
  length, length-append, ltb, lt→ltb, map, refl, some, suc, sym, true, ℕ, [], ◌&&◌, ◌*◌, ◌++◌, ◌+◌,
  ◌<◌, ◌==◌, ◌∙◌, ◌∷◌, ◌≡◌, ◌≢◌,
}
use nchan.Util.ChannelId.{
  channel_id, channel_id_is_multi, channel_id_size, count_channel_id, count_seps,
  get_group_from_channel_id, group_before, letter_m, parse_multi_id, sep_chr, size_of, slash,
  split_at_seps, write_ids,
}

-- "group/<channel-id>"
abbrev pub single_id : List ℕ → List ℕ → List ℕ
single_id group id = group ++ slash ∷ id

abbrev pub Lacks : ℕ → List ℕ → Type 0
Lacks c s = All (λ d. d ≢ c) s

length-write_ids :
    (group end : List ℕ) (ids : List (List ℕ))
    → length (write_ids group end ids) ≡ size_of (length group) ids + length ids * length end
unfolding write_ids
length-write_ids group end [] = omega arith
length-write_ids group end (id ∷ ids) = grind (
  arith,
  length-append (group ++ slash ∷ id) (end ++ write_ids group end ids),
  length-append group (slash ∷ id),
  length-append end (write_ids group end ids),
  length-write_ids group end ids,
)

-- What is written for the ids is exactly as long as the memory that was asked for.
pub length-channel_id :
    (group : List ℕ) (ids : List (List ℕ))
    → length (channel_id group ids) ≡ channel_id_size (length group) ids
unfolding channel_id channel_id_size
length-channel_id group ids = elim (Bool-cases (ltb 1 (length ids))) [
  | inl multi ↦ rw multi (omega (arith, length-write_ids group (sep_chr ∷ []) ids))
  | inr one ↦ rw one (omega (arith, length-write_ids group [] ids))
]

unequal : (c : ℕ) → c ≢ sep_chr → (c == sep_chr) ≡ false
unequal c h = ground arith

split_at_seps-part :
    (cur p rest : List ℕ)
    → Lacks sep_chr p
    → split_at_seps cur (p ++ sep_chr ∷ rest) ≡ (cur ++ p) ∷ split_at_seps [] rest
unfolding split_at_seps
split_at_seps-part cur [] rest n = ap (λ c. c ∷ split_at_seps [] rest) (sym (append-nil cur))
split_at_seps-part cur (c ∷ p) rest n =
    let other : (c == sep_chr) ≡ false = unequal c n.0 in
    rw other (
      split_at_seps-part (cur ++ c ∷ []) p rest n.1
      ∙ ap (λ k. k ∷ split_at_seps [] rest) (append_assoc cur (c ∷ []) p))

single-Lacks :
    (c : ℕ) (group id : List ℕ)
    → Lacks c group
    → c ≢ slash
    → Lacks c id
    → Lacks c (single_id group id)
single-Lacks c group id g n i = All-append (λ d. d ≢ c) group (slash ∷ id) g ((λ e. n (sym e)), i)

abbrev pub AllLack : ℕ → List (List ℕ) → Type 0
AllLack c ids = All (Lacks c) ids

split_at_seps-write_ids :
    (group : List ℕ) (ids : List (List ℕ))
    → Lacks sep_chr group
    → AllLack sep_chr ids
    → split_at_seps [] (write_ids group (sep_chr ∷ []) ids) ≡ map (single_id group) ids
unfolding write_ids split_at_seps
split_at_seps-write_ids group [] g n = refl
split_at_seps-write_ids group (id ∷ ids) g n =
    split_at_seps-part [] (single_id group id) (write_ids group (sep_chr ∷ []) ids)
      (single-Lacks sep_chr group id g (λ e. omega arith) n.0)
    ∙ ap (λ r. single_id group id ∷ r) (split_at_seps-write_ids group ids g n.1)

count_seps-part :
    (p rest : List ℕ) → Lacks sep_chr p → count_seps (p ++ sep_chr ∷ rest) ≡ suc (count_seps rest)
unfolding count_seps
count_seps-part [] rest n = refl
count_seps-part (c ∷ p) rest n = rw (unequal c n.0) (count_seps-part p rest n.1)

count_seps-write_ids :
    (group : List ℕ) (ids : List (List ℕ))
    → Lacks sep_chr group
    → AllLack sep_chr ids
    → count_seps (write_ids group (sep_chr ∷ []) ids) ≡ length ids
unfolding write_ids count_seps
count_seps-write_ids group [] g n = refl
count_seps-write_ids group (id ∷ ids) g n =
    count_seps-part (single_id group id) (write_ids group (sep_chr ∷ []) ids)
      (single-Lacks sep_chr group id g (λ e. omega arith) n.0)
    ∙ ap suc (count_seps-write_ids group ids g n.1)

-- The id of a multiplexed channel, of two or more ids, is split into the ids of its channels, in order, and their count
-- is right, if no id and no group has the separator in it.
pub parse_multi_id-channel_id :
    (group : List ℕ) (ids : List (List ℕ))
    → 1 < length ids
    → Lacks sep_chr group
    → AllLack sep_chr ids
    → (parse_multi_id (channel_id group ids) ≡ map (single_id group) ids)
      × (count_channel_id (channel_id group ids) ≡ length ids)
unfolding channel_id parse_multi_id count_channel_id channel_id_is_multi
parse_multi_id-channel_id group ids many g n =
    rw (lt→ltb 1 (length ids) many)
      (split_at_seps-write_ids group ids g n, count_seps-write_ids group ids g n)

not_multi : (s : List ℕ) → Lacks sep_chr s → channel_id_is_multi s ≡ false
unfolding channel_id_is_multi
not_multi [] n = refl
not_multi (a ∷ []) n = refl
not_multi (a ∷ b ∷ []) n = refl
not_multi (a ∷ b ∷ c ∷ s) n = by_third (a == letter_m) (b == slash) c n.1.1.0
  where
    by_third : (x y : Bool) (c : ℕ) → c ≢ sep_chr → (x && y && c == sep_chr) ≡ false
    by_third x y c h = ground arith

channel_id-one : (group id : List ℕ) → channel_id group (id ∷ []) ≡ single_id group id
unfolding channel_id write_ids
channel_id-one group id = append-nil (single_id group id)

-- The id of one channel is not taken for that of a multiplexed one.
count_channel_id-one :
    (group id : List ℕ)
    → Lacks sep_chr group
    → Lacks sep_chr id
    → (parse_multi_id (channel_id group (id ∷ [])) ≡ [])
      × (count_channel_id (channel_id group (id ∷ [])) ≡ 1)
unfolding parse_multi_id count_channel_id
count_channel_id-one group id g n =
    rw
      (
        channel_id-one group id,
        not_multi (single_id group id) (single-Lacks sep_chr group id g (λ e. omega arith) n),
      )
      (refl, refl)

channel_id-many :
    (group id x : List ℕ) (ids : List (List ℕ))
    → channel_id group (id ∷ x ∷ ids)
      ≡ letter_m ∷ slash ∷ sep_chr ∷ write_ids group (sep_chr ∷ []) (id ∷ x ∷ ids)
unfolding channel_id
channel_id-many group id x ids =
    let many : ltb 1 (suc (suc (length ids))) ≡ true = ground arith in rw many refl

group_before-slash :
    (group rest : List ℕ) → Lacks slash group → group_before (group ++ slash ∷ rest) ≡ some group
unfolding group_before
group_before-slash [] rest n = refl
group_before-slash (c ∷ group) rest n = rw (unequal c n.0, group_before-slash group rest n.1) refl
  where
    unequal : (c : ℕ) → c ≢ slash → (c == slash) ≡ false
    unequal c h = ground arith

-- The group of a channel id that was built from one id or more is read back, and the assertion that there is a slash holds,
-- if the separator byte is neither in the group nor in any of the ids, and there is no slash in the group. The ids may have
-- slashes.
pub get_group_from_channel_id-channel_id :
    (group id : List ℕ) (ids : List (List ℕ))
    → Lacks sep_chr group
    → AllLack sep_chr (id ∷ ids)
    → Lacks slash group
    → get_group_from_channel_id (channel_id group (id ∷ ids)) ≡ some group
unfolding get_group_from_channel_id channel_id_is_multi write_ids
get_group_from_channel_id-channel_id group id [] g n s =
    rw
      (
        channel_id-one group id,
        not_multi (single_id group id) (single-Lacks sep_chr group id g (λ e. omega arith) n.0),
      )
      (group_before-slash group id s)
get_group_from_channel_id-channel_id group id (x ∷ ids) g n s =
    rw (channel_id-many group id x ids) (
      ap group_before
        (append_assoc group (slash ∷ id) (sep_chr ∷ write_ids group (sep_chr ∷ []) (x ∷ ids)))
      ∙ group_before-slash group (id ++ sep_chr ∷ write_ids group (sep_chr ∷ []) (x ∷ ids)) s)
