-- ===== src/Memstore/Publish/Order.antt =====
-- Publishing keeps the buffer in the order of the ids, and counted.
use nchan.Prelude.{
  All, All-append, Bool, Bool-cases, List, ap, arith, drop, false, inl, inr, length, length-append,
  refl, some, subst, suc, sym, true, zero, ℕ, [], ◌++◌, ◌-◌, ◌==◌, ◌∙◌, ◌∷◌, ◌≡◌,
}
use nchan.Prelude.Int.{
  eqb_ℤ, int_laws, ltb_ℤ, negsuc, pos, to_i16, to_i16-small, ℤ, ◌+ℤ◌, ◌<ℤ◌, ◌≤ℤ◌,
}
use nchan.Msg.Id.{Multitag, allocd, fixed}
use nchan.Msg.Extract.{set_fixed_0}
use nchan.Memstore.Message.{Message, fixed_0}
use nchan.Memstore.Buffer.{Chanhead, memstore_chanhead_messages_gc}
use nchan.Memstore.Buffer.Find.{IsAfter, IsAfter-trans, IsSorted}
use nchan.Memstore.Buffer.Find.Deliver.{AllRegular}
use nchan.Memstore.Buffer.Collected.{newest, unexpired}
use nchan.Memstore.Buffer.Gc.{memstore_gc-Collected}
use nchan.Memstore.Publish.{PublishConf, last, pushed, stamped, tag_after, time_or_now}

-- The messages are no later than the second `t`, and another message can follow each of them in it.
abbrev pub IsBehind : ℤ → Message → Type 0
IsBehind t m = (m.id.time ≤ℤ t) × (pos 0 ≤ℤ fixed_0 m.id.tag) × (fixed_0 m.id.tag <ℤ pos 32767)

-- The buffer is in the order of the ids, each of one channel and an ordinary second, and counted.
pub record IsOrdered (ch : Chanhead) : Type 0 where
  pub sorted : IsSorted ch.messages
  pub regular : AllRegular ch.messages
  pub counted : ch.stored_message_count ≡ length ch.messages

module _ (P : Message → Type 0) where
  pub All-drop : (n : ℕ) (ms : List Message) → All P ms → All P (drop n ms)
  All-drop zero ms a = a
  All-drop (suc n) [] a = tt
  All-drop (suc n) (m ∷ ms) a = All-drop n ms a.1

  pub All-unexpired : (now : ℤ) (ms : List Message) → All P ms → All P (unexpired now ms)
  All-unexpired now [] a = tt
  All-unexpired now (m ∷ ms) a = elim (Bool-cases (ltb_ℤ m.expires now)) [
    | inl old ↦ rw old (All-unexpired now ms a.1)
    | inr fresh ↦ rw fresh a
  ]

  pub All-kept :
      (max now : ℤ) (ms : List Message) → All P ms → All P (unexpired now (newest max ms))
  All-kept (pos n) now ms a = All-unexpired now _ (All-drop (length ms - n) ms a)
  All-kept (negsuc n) now ms a = All-unexpired now ms a

IsSorted-drop : (n : ℕ) (ms : List Message) → IsSorted ms → IsSorted (drop n ms)
IsSorted-drop zero ms s = s
IsSorted-drop (suc n) [] s = tt
IsSorted-drop (suc n) (m ∷ ms) s = IsSorted-drop n ms s.1

IsSorted-unexpired : (now : ℤ) (ms : List Message) → IsSorted ms → IsSorted (unexpired now ms)
IsSorted-unexpired now [] s = tt
IsSorted-unexpired now (m ∷ ms) s = elim (Bool-cases (ltb_ℤ m.expires now)) [
  | inl old ↦ rw old (IsSorted-unexpired now ms s.1)
  | inr fresh ↦ rw fresh s
]

IsSorted-kept :
    (max now : ℤ) (ms : List Message) → IsSorted ms → IsSorted (unexpired now (newest max ms))
IsSorted-kept (pos n) now ms s = IsSorted-unexpired now _ (IsSorted-drop (length ms - n) ms s)
IsSorted-kept (negsuc n) now ms s = IsSorted-unexpired now ms s

-- A collection keeps the invariant.
pub gc-IsOrdered :
    (now : ℤ) (ch : Chanhead)
    → ch.owner ≡ ch.slot
    → IsOrdered ch
    → IsOrdered (memstore_chanhead_messages_gc now ch)
gc-IsOrdered now ch own wf =
    let c = memstore_gc-Collected now ch own wf.counted in
    record {
      sorted = rw c.messages (IsSorted-kept ch.max_messages now ch.messages wf.sorted);
      regular = rw c.messages (All-kept _ ch.max_messages now ch.messages wf.regular);
      counted = c.counted ∙ sym (ap length c.messages);
    }

-- A message that is newer than the last of a sorted buffer is newer than all of it.
IsAfter-last :
    (m' x : Message) (ms : List Message) (l : Message)
    → last (x ∷ ms) ≡ some l
    → IsSorted (x ∷ ms)
    → IsAfter l.id.time (fixed_0 l.id.tag) m'
    → All (λ y. IsAfter y.id.time (fixed_0 y.id.tag) m') (x ∷ ms)
IsAfter-last m' x [] l e s h = (ground arith, tt)
IsAfter-last m' x (y ∷ ms) l e s h =
    let rest = IsAfter-last m' y ms l e s.1 h in
    (IsAfter-trans x.id.time (fixed_0 x.id.tag) y m' s.0.0 rest.0, rest)

IsSorted-append :
    (m' : Message) (ms : List Message)
    → IsSorted ms
    → All (λ y. IsAfter y.id.time (fixed_0 y.id.tag) m') ms
    → IsSorted (ms ++ m' ∷ [])
IsSorted-append m' [] s a = (tt, tt)
IsSorted-append m' (m ∷ ms) s a =
    (All-append _ ms (m' ∷ []) s.0 (a.0, tt), IsSorted-append m' ms s.1 a.1)

fixed_0-set : (tag : Multitag) (t : ℤ) → fixed_0 (set_fixed_0 tag t) ≡ t
fixed_0-set (fixed l) t = refl
fixed_0-set (allocd l) t = refl

tag-next : (t : ℤ) → pos 0 ≤ℤ t → t <ℤ pos 32767 → to_i16 (t +ℤ pos 1) ≡ t +ℤ pos 1
tag-next t h k = to_i16-small (t +ℤ pos 1) (omega int_laws) (omega int_laws)

IsAfter-same :
    (l m' : Message)
    → eqb_ℤ l.id.time m'.id.time ≡ true
    → fixed_0 l.id.tag <ℤ fixed_0 m'.id.tag
    → IsAfter l.id.time (fixed_0 l.id.tag) m'
IsAfter-same l m' e h = ground arith

IsAfter-later :
    (l m' : Message)
    → eqb_ℤ l.id.time m'.id.time ≡ false
    → l.id.time ≤ℤ m'.id.time
    → IsAfter l.id.time (fixed_0 l.id.tag) m'
IsAfter-later l m' e h = ground arith

tag_after-same :
    (redis : Bool) (l : Message) (t : ℤ) (tag : Multitag)
    → eqb_ℤ l.id.time t ≡ true
    → IsBehind t l
    → fixed_0 (tag_after redis (some l) t tag) ≡ fixed_0 l.id.tag +ℤ pos 1
tag_after-same redis l t tag e b = rw e (fixed_0-set tag _) ∙ tag-next (fixed_0 l.id.tag) b.1 b.2

module _ (now : ℤ) (redis : Bool) (m : Message) where
  abbrev t : ℤ
  t = time_or_now now m.id.time

  -- A message pushed no earlier than the last one is newer than it.
  pub stamped-IsAfter :
      (l : Message)
      → IsBehind t l
      → IsAfter l.id.time (fixed_0 l.id.tag) (stamped now redis (some l) m)
  unfolding stamped
  stamped-IsAfter l b = elim (Bool-cases (eqb_ℤ l.id.time t)) [
    | inl same ↦ IsAfter-same l (stamped now redis (some l) m) same (
        subst (λ g. fixed_0 l.id.tag <ℤ g) (sym (tag_after-same redis l t m.id.tag same b))
          (omega int_laws))
    | inr later ↦ IsAfter-later l (stamped now redis (some l) m) later b.0
  ]

abbrev pub time_of : PublishConf → Message → ℤ
time_of conf m = time_or_now conf.now m.id.time

-- The location does not store in Redis across servers, the message has one tag and no time or one after the epoch,
-- the clock is after the epoch, the channel has its shared data if this is its owner, and the buffer has no message from after the time of the new one.
pub record CanPublish (conf : PublishConf) (ch : Chanhead) (m : Message) : Type 0 where
  pub one : m.id.tagcount ≡ 1
  pub local : conf.redis_distributed ≡ false
  pub clock : pos 0 <ℤ conf.now
  pub not_negative : pos 0 ≤ℤ m.id.time
  pub owner_shared : (ch.slot == ch.owner) ≡ true → ch.shared ≡ true
  pub behind : All (IsBehind (time_of conf m)) ch.messages

pub last-some :
    (P : Message → Type 0) (x : Message) (ms : List Message)
    → All P (x ∷ ms)
    → (l : Message) × (last (x ∷ ms) ≡ some l) × P l
last-some P x [] a = (x, refl, a.0)
last-some P x (y ∷ ms) a = last-some P y ms a.1

pub time-positive :
    (conf : PublishConf) (ch : Chanhead) (m : Message)
    → CanPublish conf ch m
    → pos 0 <ℤ time_of conf m
time-positive conf ch m can = ground (arith, can.clock, can.not_negative)

module _ (now : ℤ) (redis : Bool) (m : Message) where
  stamped-All :
      (ms : List Message)
      → IsSorted ms
      → All (IsBehind (time_or_now now m.id.time)) ms
      → All (λ y. IsAfter y.id.time (fixed_0 y.id.tag) (stamped now redis (last ms) m)) ms
  stamped-All [] s b = tt
  stamped-All (x ∷ ms) s b =
      let (l, e, bl) = last-some (IsBehind (time_or_now now m.id.time)) x ms b in
      IsAfter-last (stamped now redis (last (x ∷ ms)) m) x ms l e s (
        subst (λ o. IsAfter l.id.time (fixed_0 l.id.tag) (stamped now redis o m)) (sym e)
          (stamped-IsAfter now redis m l bl))

  pub pushed-IsOrdered :
      (ch : Chanhead)
      → IsOrdered ch
      → All (IsBehind (time_or_now now m.id.time)) ch.messages
      → m.id.tagcount ≡ 1
      → pos 0 ≤ℤ time_or_now now m.id.time
      → IsOrdered (pushed (stamped now redis (last ch.messages) m) ch)
  unfolding pushed stamped
  pushed-IsOrdered ch wf b one plain = record {
    sorted = IsSorted-append _ ch.messages wf.sorted (stamped-All ch.messages wf.sorted b);
    regular =
        All-append _ ch.messages (_ ∷ []) wf.regular (record { one = one; plain = plain }, tt);
    counted = omega (
      arith,
      wf.counted,
      length-append ch.messages (stamped now redis (last ch.messages) m ∷ []),
    );
  }

pub own_pushed :
    (m : Message) (ch : Chanhead) → ch.owner ≡ ch.slot → (pushed m ch).owner ≡ (pushed m ch).slot
unfolding pushed
own_pushed m ch own = own
