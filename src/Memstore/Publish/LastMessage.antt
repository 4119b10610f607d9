-- ===== src/Memstore/Publish/LastMessage.antt =====
-- The last message of a buffer, and what a search that ends there finds.
use nchan.Prelude.{
  All, Bool-cases, List, ap, arith, drop, drop-append_le, false, inl, inr, length, length-append,
  refl, some, suc, zero, [], ◌++◌, ◌-◌, ◌∙◌, ◌∷◌, ◌≡◌,
}
use nchan.Prelude.Int.{eqb_ℤ, ltb_ℤ, negsuc, pos, ℤ}
use nchan.Msg.Id.{MsgId}
use nchan.Memstore.Message.{Message, fixed_0}
use nchan.Memstore.Buffer.{find_in_buffer, first_before, found_or_expected, msg_found}
use nchan.Memstore.Buffer.Collected.{newest, unexpired}
use nchan.Memstore.Buffer.Find.{IsAfter, IsRegular, IsSorted, find_in_buffer-next_after, next_after}
use nchan.Memstore.Buffer.Find.Deliver.{AllRegular, newer_self}
use nchan.Memstore.Publish.{last}
use nchan.Memstore.Publish.Order.{All-drop, All-unexpired}

pub last-append : (ms : List Message) (x : Message) → last (ms ++ x ∷ []) ≡ some x
last-append [] x = refl
last-append (m ∷ []) x = refl
last-append (m ∷ y ∷ ms) x = last-append (y ∷ ms) x

pub last-split :
    (ms : List Message) (l : Message)
    → last ms ≡ some l
    → (pre : List Message) × (ms ≡ pre ++ l ∷ [])
last-split [] l e = cc
last-split (m ∷ []) l e = ([], ground arith)
last-split (m ∷ y ∷ ms) l e = let (pre, h) = last-split (y ∷ ms) l e in (m ∷ pre, ap (λ k. m ∷ k) h)

unexpired-append :
    (now : ℤ) (ms : List Message) (x : Message)
    → ltb_ℤ x.expires now ≡ false
    → unexpired now (ms ++ x ∷ []) ≡ unexpired now ms ++ x ∷ []
unexpired-append now [] x h = rw h refl
unexpired-append now (m ∷ ms) x h = elim (Bool-cases (ltb_ℤ m.expires now)) [
  | inl old ↦ rw old (unexpired-append now ms x h)
  | inr fresh ↦ rw fresh refl
]

-- What a collection keeps before a last message that it keeps.
abbrev pub kept_before : ℤ → ℤ → List Message → List Message
kept_before (pos n) now pre = unexpired now (drop (suc (length pre) - n) pre)
kept_before (negsuc n) now pre = unexpired now pre

pub All-kept_before :
    (P : Message → Type 0) (max now : ℤ) (pre : List Message)
    → All P pre
    → All P (kept_before max now pre)
All-kept_before P (pos n) now pre a =
    All-unexpired P now _ (All-drop P (suc (length pre) - n) pre a)
All-kept_before P (negsuc n) now pre a = All-unexpired P now pre a

pub kept-append :
    (max now : ℤ) (pre : List Message) (x : Message)
    → eqb_ℤ max (pos 0) ≡ false
    → ltb_ℤ x.expires now ≡ false
    → unexpired now (newest max (pre ++ x ∷ [])) ≡ kept_before max now pre ++ x ∷ []
kept-append (pos zero) now pre x h k = cc
kept-append (pos (suc n)) now pre x h k =
    let count : length (pre ++ x ∷ []) - suc n ≡ suc (length pre) - suc n =
      omega (arith, length-append pre (x ∷ [])) in
    ap (λ d. unexpired now (drop d (pre ++ x ∷ []))) count
    ∙ ap (unexpired now) (drop-append_le (suc (length pre) - suc n) pre (x ∷ []) (omega arith))
    ∙ unexpired-append now (drop (suc (length pre) - suc n) pre) x k
kept-append (negsuc n) now pre x h k = unexpired-append now pre x k

pub All-last :
    (P : Message → Type 0) (pre : List Message) (l : Message) → All P (pre ++ l ∷ []) → P l
All-last P [] l a = a.0
All-last P (m ∷ pre) l a = All-last P pre l a.1

pub before-last :
    (pre : List Message) (l : Message)
    → IsSorted (pre ++ l ∷ [])
    → All (λ y. first_before l.id.time (fixed_0 l.id.tag) y ≡ false) (pre ++ l ∷ [])
before-last [] l s = (newer_self l, tt)
before-last (m ∷ pre) l s =
    (earlier m l (All-last (IsAfter m.id.time (fixed_0 m.id.tag)) pre l s.0), before-last pre l s.1)
  where
    earlier :
        (m l : Message)
        → IsAfter m.id.time (fixed_0 m.id.tag) l
        → first_before l.id.time (fixed_0 l.id.tag) m ≡ false
    earlier m l h = ground arith

next_after-last :
    (t g : ℤ) (pre : List Message) (x : Message)
    → All (λ y. first_before t g y ≡ false) pre
    → IsAfter t g x
    → next_after t g (pre ++ x ∷ []) ≡ some x
next_after-last t g [] x a h = rw h refl
next_after-last t g (m ∷ pre) x a h = rw a.0 (next_after-last t g pre x a.1 h)

pub find-last :
    (max : ℤ) (pre : List Message) (x : Message) (id : MsgId)
    → IsSorted (pre ++ x ∷ [])
    → AllRegular (pre ++ x ∷ [])
    → IsRegular id
    → All (λ y. first_before id.time (fixed_0 id.tag) y ≡ false) pre
    → IsAfter id.time (fixed_0 id.tag) x
    → find_in_buffer max (pre ++ x ∷ []) id ≡ some (msg_found, some x)
find-last max [] x id s r reg a h =
    find_in_buffer-next_after max x [] id s r.0.one reg
    ∙ ap (λ o. some (found_or_expected o)) (next_after-last id.time (fixed_0 id.tag) [] x a h)
find-last max (m ∷ pre) x id s r reg a h =
    find_in_buffer-next_after max m (pre ++ x ∷ []) id s r.0.one reg
    ∙ ap (λ o. some (found_or_expected o))
        (next_after-last id.time (fixed_0 id.tag) (m ∷ pre) x a h)
