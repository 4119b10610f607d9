-- ===== src/Msg/Extract/Newer.antt =====
-- Which messages of a channel are newer than the id that is extracted for it.
use nchan.Msg.Compare.{compare_msgids}
use nchan.Msg.Compare.Order.{IsSingle, compare_msgids-eq-lex, lex}
use nchan.Prelude.{
  Bool-cases, List, arith, get_elem?, if◌then◌else◌, inl, inr, leb, length, ngx_ok, refl, some, suc,
  zero, ℕ, [], ◌%◌, ◌+◌, ◌<◌, ◌==◌, ◌↔◌, ◌∙◌, ◌∷◌, ◌≡◌, ◌≤◌, ◌⊎◌,
}
use nchan.Prelude.Int.{eqb_ℤ, negsuc, pos, ℤ, -ℤ_parts, ◌-ℤ◌, ◌<ℤ◌, ◌≤ℤ◌}
use nchan.Msg.Id.{IsWf, MsgId, allocd, allocd_tags, fixed, fixed_multitag_max, fixed_tags, tags}
use nchan.Msg.Extract.{expand_msg_id_multi_tag, extract_from_multi_msgid, extracted, filled}

-- A message of a channel is newer than what a multiplexed id has seen of the channel.
abbrev pub Unseen : ℤ → ℤ → ℤ → ℤ → Type 0
Unseen time t m_time s = (time <ℤ m_time) ⊎ ((m_time ≡ time) × ((t ≡ negsuc 0) ⊎ (t <ℤ s)))

extracted-IsSingle : (dst : MsgId) (time t : ℤ) → IsSingle (extracted dst time t) t
unfolding extracted
extracted-IsSingle dst time t = record { one = refl; only = ground arith }

-- The id that the code extracts, as a function of what it saw last.
abbrev seen_as : MsgId → MsgId → ℤ → MsgId
seen_as src dst t =
    if eqb_ℤ t (negsuc 0)
    then extracted dst (src.time -ℤ pos 1) (pos 32767)
    else extracted dst src.time t

extract_from_multi_msgid-ok :
    (src : MsgId) (n : ℕ) (dst : MsgId) (t : ℤ)
    → IsWf src
    → pos 0 <ℤ src.time
    → n < src.tagcount
    → get_elem? (tags src) n ≡ some t
    → extract_from_multi_msgid src n dst ≡ some (ngx_ok, seen_as src dst t)
unfolding extract_from_multi_msgid
extract_from_multi_msgid-ok src n dst t w regular h e =
    let c : src.tagcount % 256 ≡ src.tagcount = omega (arith, w.bounded) in ground (arith, c)

lex-seen_as :
    (src dst : MsgId) (t m_time s : ℤ)
    → pos 0 ≤ℤ s
    → s ≤ℤ pos 32767
    → (lex m_time s (seen_as src dst t).time (if eqb_ℤ t (negsuc 0) then pos 32767 else t) ≡ pos 1)
      ↔ Unseen src.time t m_time s
unfolding extracted
lex-seen_as src dst t m_time s h k = ground (arith, -ℤ_parts src.time (pos 1))

seen_tag : ℤ → ℤ
seen_tag t = if eqb_ℤ t (negsuc 0) then pos 32767 else t

seen_as-IsSingle : (src dst : MsgId) (t : ℤ) → IsSingle (seen_as src dst t) (seen_tag t)
unfolding seen_tag
seen_as-IsSingle src dst t = elim (Bool-cases (eqb_ℤ t (negsuc 0))) [
  | inl e ↦ rw e (extracted-IsSingle dst (src.time -ℤ pos 1) (pos 32767))
  | inr e ↦ rw e (extracted-IsSingle dst src.time t)
]

-- No loss and no repeat across multiplexing: for each channel of a multiplexed id an id is extracted,
-- and a message of that channel compares as newer than it exactly if the multiplexed id has not seen
-- it, that is, if it is of a later second, or of the same second with a tag above the channel's or
-- where the channel's tag is -1. Tags of messages are taken to be between 0 and 32767.
pub extract_from_multi_msgid-newer :
    (src : MsgId) (n : ℕ) (dst m : MsgId) (t s : ℤ)
    → IsWf src
    → pos 0 <ℤ src.time
    → n < src.tagcount
    → get_elem? (tags src) n ≡ some t
    → IsSingle m s
    → pos 0 ≤ℤ s
    → s ≤ℤ pos 32767
    → (x : MsgId) × (extract_from_multi_msgid src n dst ≡ some (ngx_ok, x))
      × ((compare_msgids m x ≡ some (pos 1)) ↔ Unseen src.time t m.time s)
unfolding seen_tag
extract_from_multi_msgid-newer src n dst m t s w regular h e p lo hi = (
  seen_as src dst t,
  extract_from_multi_msgid-ok src n dst t w regular h e,
  rw (compare_msgids-eq-lex m (seen_as src dst t) s (seen_tag t) p (seen_as-IsSingle src dst t))
      (ground (arith, lex-seen_as src dst t m.time s lo hi)),
)

get_elem?-filled :
    (n i out_n : ℕ) (v fill : ℤ) (ts : List ℤ) (k : ℕ)
    → k < n
    → n ≤ length ts
    → get_elem? (filled n i out_n v fill ts) k ≡ some (if (i + k) == out_n then v else fill)
unfolding filled
get_elem?-filled zero i out_n v fill ts k h l = absurd (omega arith)
get_elem?-filled (suc n) i out_n v fill [] k h l = absurd (omega arith)
get_elem?-filled (suc n) i out_n v fill (t ∷ ts) zero h l = ground arith
get_elem?-filled (suc n) i out_n v fill (t ∷ ts) (suc k) h l =
    ground (arith, get_elem?-filled n (i + 1) out_n v fill ts k (omega arith) (omega arith))

length-filled :
    (n i out_n : ℕ) (v fill : ℤ) (ts : List ℤ)
    → length (filled n i out_n v fill ts) ≡ length ts ⊎ (length ts < n)
unfolding filled
length-filled zero i out_n v fill ts = inl refl
length-filled (suc n) i out_n v fill [] = inr (omega arith)
length-filled (suc n) i out_n v fill (t ∷ ts) =
    ground (arith, length-filled n (i + 1) out_n v fill ts)

expanded : MsgId → ℕ → ℤ → ℤ → MsgId
expanded id out_n v fill = record id {
  tag =
      if leb id.tagcount fixed_multitag_max
      then fixed (filled id.tagcount 0 out_n v fill (fixed_tags id.tag))
      else allocd (filled id.tagcount 0 out_n v fill (allocd_tags id.tag));
}

tags-expanded :
    (id : MsgId) (out_n : ℕ) (v fill : ℤ)
    → tags (expanded id out_n v fill) ≡ filled id.tagcount 0 out_n v fill (tags id)
unfolding expanded
tags-expanded id out_n v fill = ground arith

expanded-IsWf : (id : MsgId) (out_n : ℕ) (v fill : ℤ) → IsWf id → IsWf (expanded id out_n v fill)
unfolding expanded
expanded-IsWf id out_n v fill w = record {
  within =
      rw (tags-expanded id out_n v fill)
        (ground (arith, w.within, length-filled id.tagcount 0 out_n v fill (tags id)));
  bounded = w.bounded;
}

-- Spreading the tag of one channel over a multiplexed id: the tag arrives at the wanted channel, every
-- other channel holds the filler, and the id stays well formed.
pub expand_msg_id_multi_tag-fills :
    (id : MsgId) (in_n out_n : ℕ) (v fill : ℤ)
    → IsWf id
    → in_n < id.tagcount
    → out_n < id.tagcount
    → get_elem? (tags id) in_n ≡ some v
    → (x : MsgId) × (expand_msg_id_multi_tag id in_n out_n fill ≡ some x)
      × IsWf x
      × (x.time ≡ id.time)
      × ((k : ℕ) → k < id.tagcount → get_elem? (tags x) k ≡ some (if k == out_n then v else fill))
unfolding expand_msg_id_multi_tag expanded
expand_msg_id_multi_tag-fills id in_n out_n v fill w hi ho e = (
  expanded id out_n v fill,
  ground arith,
  expanded-IsWf id out_n v fill w,
  refl,
  λ k h.
      rw (tags-expanded id out_n v fill)
        (get_elem?-filled id.tagcount 0 out_n v fill (tags id) k h w.within ∙ ground arith),
)
