-- ===== src/Msg/Id.antt =====
-- `nchan_msg_id_t`: a second and a tag for each channel that a subscriber is multiplexed over.
use nchan.Prelude.{List, if◌then◌else◌, leb, length, ℕ, [], ◌%◌, ◌-◌, ◌≤◌}
use nchan.Prelude.Int.{negsuc, pos, ℤ}

-- NCHAN_FIXED_MULTITAG_MAX and NCHAN_MULTITAG_MAX
abbrev pub fixed_multitag_max : ℕ
fixed_multitag_max = 4

abbrev pub multitag_max : ℕ
multitag_max = 255

-- `union nchan_msg_multitag`, with the member that was written last.
pub data Multitag : Type 0 where
  fixed : List ℤ → Multitag
  allocd : List ℤ → Multitag

pub record MsgId : Type 0 where
  pub time : ℤ
  pub tag : Multitag
  pub tagactive : ℤ
  pub tagcount : ℕ

-- Reading the member that was not written last yields no array.
abbrev pub fixed_tags : Multitag → List ℤ
fixed_tags (fixed l) = l
fixed_tags (allocd l) = []

abbrev pub allocd_tags : Multitag → List ℤ
allocd_tags (fixed l) = []
allocd_tags (allocd l) = l

-- `id->tagcount <= NCHAN_FIXED_MULTITAG_MAX ? id->tag.fixed : id->tag.allocd`
abbrev pub tags : MsgId → List ℤ
tags id = if leb id.tagcount fixed_multitag_max then fixed_tags id.tag else allocd_tags id.tag

-- The special times.
abbrev pub oldest_msgid_time : ℤ
oldest_msgid_time = pos 0

abbrev pub newest_msgid_time : ℤ
newest_msgid_time = negsuc 0

abbrev pub nth_msgid_time : ℤ
nth_msgid_time = negsuc 1

-- A conversion to `uint8_t`.
abbrev pub to_u8 : ℤ → ℕ
to_u8 (pos n) = n % 256
to_u8 (negsuc n) = 255 - n % 256

-- The array that the count selects was written, and holds at least that many tags.
pub record IsWf (id : MsgId) : Type 0 where
  pub within : id.tagcount ≤ length (tags id)
  pub bounded : id.tagcount ≤ multitag_max
