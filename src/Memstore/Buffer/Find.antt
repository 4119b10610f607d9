-- ===== src/Memstore/Buffer/Find.antt =====
-- Which message `chanhead_find_next_message` gives, and that asking again and again delivers each
-- newer message once.
pub mod Deliver
use nchan.Msg.Id.{MsgId, oldest_msgid_time}
use mathlib.Core.List.{reverse, reverse-append, reverse-cons}
use nchan.Prelude.{
  All, All-reverse, Bool-cases, List, Option, ap, append_assoc, arith, false, if◌then◌else◌, inl,
  inr, none, not, refl, some, true, [], ◌++◌, ◌||◌, ◌∙◌, ◌∷◌, ◌≡◌,
}
use nchan.Prelude.Int.{eqb_ℤ, pos, ℤ, ◌≤ℤ◌}
use nchan.Memstore.Message.{Message, fixed_0}
use nchan.Memstore.Buffer.{
  at_or_after, find_back, find_in_buffer, first_before, found_or_expected, msg_expected,
  msg_notfound,
}

-- The message is newer than the id.
abbrev pub IsAfter : ℤ → ℤ → Message → Type 0
IsAfter t g m = first_before t g m ≡ true

-- Each message is older than all that follow it.
abbrev pub IsSorted : List Message → Type 0
IsSorted [] = Unit {0}
IsSorted (m ∷ ms) = All (IsAfter m.id.time (fixed_0 m.id.tag)) ms × IsSorted ms

-- The oldest of the newer messages.
abbrev pub next_after : ℤ → ℤ → List Message → Option Message
next_after t g [] = none
next_after t g (m ∷ ms) = if first_before t g m then some m else next_after t g ms

not-after : (t g : ℤ) (m : Message) → at_or_after t g m ≡ not (first_before t g m)
not-after t g m = ground arith

pub IsAfter-trans :
    (t g : ℤ) (m x : Message)
    → IsAfter t g m
    → IsAfter m.id.time (fixed_0 m.id.tag) x
    → IsAfter t g x
IsAfter-trans t g m x h k = ground arith

All-IsAfter :
    (t g : ℤ) (m : Message) (ms : List Message)
    → IsAfter t g m
    → All (IsAfter m.id.time (fixed_0 m.id.tag)) ms
    → All (IsAfter t g) ms
All-IsAfter t g m [] h a = tt
All-IsAfter t g m (x ∷ ms) h a = (IsAfter-trans t g m x h a.0, All-IsAfter t g m ms h a.1)

abbrev head_or : List Message → Option Message → Option Message
head_or [] next = next
head_or (m ∷ ms) next = some m

find_back-step :
    (t g : ℤ) (c : Message) (cs : List Message) (next : Option Message)
    → first_before t g c ≡ true
    → find_back t g (c ∷ cs) next ≡ find_back t g cs (some c)
unfolding find_back
find_back-step t g c cs next h = ground (arith, not-after t g c)

-- The walk passes over newer messages, and stops at the first that is not newer.
find_back-newer :
    (t g : ℤ) (hs rest : List Message) (next : Option Message)
    → All (IsAfter t g) hs
    → find_back t g (reverse hs ++ rest) next ≡ find_back t g rest (head_or hs next)
find_back-newer t g [] rest next a = refl
find_back-newer t g (h ∷ hs) rest next a =
    ap (λ l. find_back t g (l ++ rest) next) (reverse-cons h hs)
    ∙ ap (λ l. find_back t g l next) (append_assoc (reverse hs) (h ∷ []) rest)
    ∙ find_back-newer t g hs (h ∷ rest) next a.1
    ∙ find_back-step t g h rest (head_or hs next) a.0

find_back-older :
    (t g : ℤ) (c : Message) (cs : List Message) (next : Option Message)
    → first_before t g c ≡ false
    → find_back t g (c ∷ cs) next ≡ found_or_expected next
unfolding find_back
find_back-older t g c cs next h = ground (arith, not-after t g c)

-- A sorted buffer is what is not newer, and then what is newer.
split-IsAfter :
    (t g : ℤ) (ms : List Message)
    → IsSorted ms
    → (lows : List Message) × (highs : List Message) × (ms ≡ lows ++ highs)
      × All (λ m. first_before t g m ≡ false) lows
      × All (IsAfter t g) highs
      × (head_or highs none ≡ next_after t g ms)
split-IsAfter t g [] s = ([], [], refl, tt, tt, refl)
split-IsAfter t g (m ∷ ms) s = elim (Bool-cases (first_before t g m)) [
  | inl after ↦ ([], m ∷ ms, refl, tt, (after, All-IsAfter t g m ms after s.0), rw after)
  | inr before ↦
      let (lows, highs, e, a, b, h) = split-IsAfter t g ms s.1 in
      (m ∷ lows, highs, ap (λ l. m ∷ l) e, (before, a), b, rw before h)
]

find_back-reverse :
    (t g : ℤ) (l : Message) (ls : List Message) (next : Option Message)
    → All (λ m. first_before t g m ≡ false) (l ∷ ls)
    → find_back t g (reverse (l ∷ ls)) next ≡ found_or_expected next
find_back-reverse t g l ls next a =
    rw (reverse-cons l ls)
      (nonempty (reverse ls) (All-reverse (λ m. first_before t g m ≡ false) ls a.1))
  where
    nonempty :
        (rs : List Message)
        → All (λ m. first_before t g m ≡ false) rs
        → find_back t g (rs ++ l ∷ []) next ≡ found_or_expected next
    nonempty [] h = find_back-older t g l [] next a.0
    nonempty (r ∷ rs) h = find_back-older t g r (rs ++ l ∷ []) next h.0

-- The backward walk from the last message of a sorted buffer finds what a forward search does, if
-- the first message is not newer than the id.
find_back-next_after :
    (t g : ℤ) (m : Message) (ms : List Message)
    → IsSorted (m ∷ ms)
    → first_before t g m ≡ false
    → find_back t g (reverse (m ∷ ms)) none ≡ found_or_expected (next_after t g (m ∷ ms))
find_back-next_after t g m ms s before =
    let (lows, highs, e, a, b, h) = split-IsAfter t g ms s.1 in
    let skip : next_after t g ms ≡ next_after t g (m ∷ ms) = rw before refl in
    ap (λ l. find_back t g (reverse (m ∷ l)) none) e
    ∙ ap (λ l. find_back t g l none) (reverse-append (m ∷ lows) highs)
    ∙ find_back-newer t g highs (reverse (m ∷ lows)) none b
    ∙ find_back-reverse t g m lows (head_or highs none) (before, a)
    ∙ ap found_or_expected (h ∙ skip)

-- An id that names a second, and not one of the special places in the buffer.
pub record IsRegular (id : MsgId) : Type 0 where
  pub one : id.tagcount ≡ 1
  pub plain : pos 0 ≤ℤ id.time

-- In a sorted buffer that is not empty a subscriber at a regular id gets the oldest message that is
-- newer than the id, or, if there is none, the answer that a message is to be expected. It is never
-- told that there was no such place, and no assertion fails.
pub find_in_buffer-next_after :
    (max : ℤ) (m : Message) (ms : List Message) (id : MsgId)
    → IsSorted (m ∷ ms)
    → m.id.tagcount ≡ 1
    → IsRegular id
    → find_in_buffer max (m ∷ ms) id
      ≡ some (found_or_expected (next_after id.time (fixed_0 id.tag) (m ∷ ms)))
unfolding find_in_buffer
find_in_buffer-next_after max m ms id s one r =
    ground (arith, r.one, r.plain, find_back-next_after id.time (fixed_0 id.tag) m ms s)

-- Nothing is buffered.
pub find_in_buffer-empty :
    (max : ℤ) (id : MsgId)
    → find_in_buffer max [] id
      ≡ some (
          if eqb_ℤ id.time oldest_msgid_time || eqb_ℤ max (pos 0)
          then (msg_expected, none)
          else (msg_notfound, none))
unfolding find_in_buffer
find_in_buffer-empty max id =
    elim (Bool-cases (eqb_ℤ id.time oldest_msgid_time || eqb_ℤ max (pos 0))) [
      | inl e ↦ rw e refl
      | inr e ↦ rw e refl
    ]
