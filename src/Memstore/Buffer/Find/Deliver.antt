-- ===== src/Memstore/Buffer/Find/Deliver.antt =====
-- Asking for the next message with the id of the last one.
use nchan.Prelude.{
  All, Bool-cases, List, Option, Option-cases, ap, arith, false, if◌then◌else◌, inl, inr, length,
  none, refl, some, subst, suc, sym, true, zero, ℕ, [], ◌+◌, ◌<◌, ◌∙◌, ◌∷◌, ◌≡◌, ◌≤◌,
}
use nchan.Prelude.Int.{ℤ}
use nchan.Msg.Id.{MsgId}
use nchan.Memstore.Message.{Message, fixed_0}
use nchan.Memstore.Buffer.{
  MsgStatus, find_in_buffer, first_before, found_or_expected, msg_expected, msg_found,
}
use nchan.Memstore.Buffer.Find.{
  All-IsAfter, IsAfter, IsRegular, IsSorted, find_in_buffer-next_after, next_after,
}

-- A subscriber that takes what it is given and goes on from there, at most `n` times.
pub follow : (MsgId → Option (MsgStatus × Option Message)) → ℕ → MsgId → List Message
follow ask zero id = []
follow ask (suc n) id = elim (ask id) [
  | none ↦ []
  | some (status, none) ↦ []
  | some (status, some m) ↦ m ∷ follow ask n m.id
]

follow-done :
    (ask : MsgId → Option (MsgStatus × Option Message)) (n : ℕ) (id : MsgId)
    → ask id ≡ some (msg_expected, none)
    → follow ask (suc n) id ≡ []
unfolding follow
follow-done ask n id e = rw (e, follow) refl

follow-more :
    (ask : MsgId → Option (MsgStatus × Option Message)) (n : ℕ) (id : MsgId) (m : Message)
    → ask id ≡ some (msg_found, some m)
    → follow ask (suc n) id ≡ m ∷ follow ask n m.id
unfolding follow
follow-more ask n id m e = rw (e, follow) refl

-- All the messages that are newer than the id.
abbrev pub newer : ℤ → ℤ → List Message → List Message
newer t g [] = []
newer t g (m ∷ ms) = if first_before t g m then m ∷ newer t g ms else newer t g ms

newer-All : (t g : ℤ) (ms : List Message) → All (IsAfter t g) ms → newer t g ms ≡ ms
newer-All t g [] a = refl
newer-All t g (m ∷ ms) a = rw a.0 (ap (λ l. m ∷ l) (newer-All t g ms a.1))

newer-none : (t g : ℤ) (ms : List Message) → next_after t g ms ≡ none → newer t g ms ≡ []
newer-none t g [] e = refl
newer-none t g (m ∷ ms) e = ground (arith, newer-none t g ms)

next_after-IsAfter :
    (t g : ℤ) (ms : List Message) (x : Message) → next_after t g ms ≡ some x → IsAfter t g x
next_after-IsAfter t g [] x e = cc
next_after-IsAfter t g (m ∷ ms) x e = ground (arith, next_after-IsAfter t g ms x)

pub newer_self : (x : Message) → first_before x.id.time (fixed_0 x.id.tag) x ≡ false
newer_self x = ground arith

IsAfter-not :
    (t g : ℤ) (m x : Message)
    → first_before t g m ≡ false
    → IsAfter t g x
    → first_before x.id.time (fixed_0 x.id.tag) m ≡ false
IsAfter-not t g m x h k = ground arith

-- The newer messages are the next one and those that are newer than it.
newer-next :
    (t g : ℤ) (ms : List Message) (x : Message)
    → IsSorted ms
    → next_after t g ms ≡ some x
    → newer t g ms ≡ x ∷ newer x.id.time (fixed_0 x.id.tag) ms
newer-next t g [] x s e = cc
newer-next t g (m ∷ ms) x s e = elim (Bool-cases (first_before t g m)) [
  | inl after ↦ ground (
    arith,
    newer_self m,
    newer-All t g ms (All-IsAfter t g m ms after s.0),
    newer-All m.id.time (fixed_0 m.id.tag) ms s.0,
  )
  | inr before ↦
      ground
        (arith, newer-next t g ms x s.1, next_after-IsAfter t g ms x, IsAfter-not t g m x before)
]

-- Every message of the buffer has an id of one channel and of an ordinary second.
abbrev pub AllRegular : List Message → Type 0
AllRegular = All (λ m. IsRegular m.id)

next_after-IsRegular :
    (t g : ℤ) (ms : List Message) (x : Message)
    → AllRegular ms
    → next_after t g ms ≡ some x
    → IsRegular x.id
next_after-IsRegular t g [] x r e = cc
next_after-IsRegular t g (m ∷ ms) x r e = elim (Bool-cases (first_before t g m)) [
  | inl after ↦ subst (λ y. IsRegular y.id) (first-eq after) r.0
  | inr before ↦ next_after-IsRegular t g ms x r.1 (ground arith)
]
  where
    first-eq : first_before t g m ≡ true → m ≡ x
    first-eq after = ground arith

length-newer-le : (t g : ℤ) (ms : List Message) → length (newer t g ms) ≤ length ms
length-newer-le t g [] = omega arith
length-newer-le t g (m ∷ ms) = ground (arith, length-newer-le t g ms)

module _ (max : ℤ) (first : Message) (more : List Message) where
  abbrev whole : List Message
  whole = first ∷ more

  follow-newer_fuel :
      (n : ℕ) (id : MsgId)
      → IsSorted whole
      → AllRegular whole
      → IsRegular id
      → length (newer id.time (fixed_0 id.tag) whole) < n
      → follow (find_in_buffer max whole) n id ≡ newer id.time (fixed_0 id.tag) whole
  follow-newer_fuel zero id s r reg h = absurd (omega arith)
  follow-newer_fuel (suc n) id s r reg h =
      elim (Option-cases (next_after id.time (fixed_0 id.tag) whole)) [
        | inl e ↦
            follow-done (find_in_buffer max whole) n id (
              find_in_buffer-next_after max first more id s r.0.one reg
              ∙ ap (λ o. some (found_or_expected o)) e)
            ∙ sym (newer-none id.time (fixed_0 id.tag) whole e)
        | inr (x, e) ↦
            let rest = newer-next id.time (fixed_0 id.tag) whole x s e in
            follow-more (find_in_buffer max whole) n id x (
              find_in_buffer-next_after max first more id s r.0.one reg
              ∙ ap (λ o. some (found_or_expected o)) e)
            ∙ ap (λ l. x ∷ l)
                (follow-newer_fuel n x.id s r
                  (next_after-IsRegular id.time (fixed_0 id.tag) whole x r e)
                  (omega (arith, ap length rest)))
            ∙ sym rest
      ]

  -- No loss and no repeat: over a sorted buffer, a subscriber that asks for the next message, takes it,
  -- and asks again with its id, receives every message newer than the id it began with, each once and
  -- in order, and nothing else. It asks once more than the buffer has messages.
  pub follow-newer :
      (id : MsgId)
      → IsSorted whole
      → AllRegular whole
      → IsRegular id
      → follow (find_in_buffer max whole) (length whole + 1) id
        ≡ newer id.time (fixed_0 id.tag) whole
  follow-newer id s r reg =
      follow-newer_fuel (length whole + 1) id s r reg
        (omega (arith, length-newer-le id.time (fixed_0 id.tag) whole))
