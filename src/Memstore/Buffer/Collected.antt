-- ===== src/Memstore/Buffer/Collected.antt =====
-- What a collection leaves of a buffer and of the counts, and what the excess of messages takes
-- away.
use native.Mathlib.Decide.{dec_lt}
use nchan.Prelude.{
  List, Option, ap, append-nil, append_assoc, arith, drop, if◌then◌else◌, length, length-append,
  none, refl, some, suc, sym, take, ℕ, [], ◌++◌, ◌+◌, ◌-◌, ◌<◌, ◌∙◌, ◌∷◌, ◌≡◌, ◌≤◌,
}
use nchan.Prelude.Int.{int_laws, ltb_ℤ, negsuc, pos, ℤ, ◌-ℤ◌}
use nchan.Memstore.Message.{Message}
use nchan.Memstore.Buffer.{Chanhead, chanhead_delete_first, gc_excess, group_add}

abbrev pub newest : ℤ → List Message → List Message
newest (pos n) ms = drop (length ms - n) ms
newest (negsuc n) ms = ms

abbrev pub unexpired : ℤ → List Message → List Message
unexpired now [] = []
unexpired now (m ∷ ms) = if ltb_ℤ m.expires now then unexpired now ms else m ∷ ms

abbrev pub group_less : ℕ → Option ℤ → Option ℤ
group_less n none = none
group_less n (some count) = some (count -ℤ pos n)

-- From the channel `ch` the messages `dropped` were deleted, and `kept` are left.
pub record Collected (ch : Chanhead) (dropped kept : List Message) (ch' : Chanhead) : Type 0 where
  pub messages : ch'.messages ≡ kept
  pub counted : ch'.stored_message_count ≡ length kept
  pub released : ch'.released ≡ ch.released ++ dropped
  pub grouped : ch'.groupnode ≡ group_less (length dropped) ch.groupnode
  pub owner : ch'.owner ≡ ch.owner
  pub slot : ch'.slot ≡ ch.slot
  pub max_messages : ch'.max_messages ≡ ch.max_messages
  pub total : ch'.total_message_count ≡ ch.total_message_count
  pub latest : ch'.latest_msgid ≡ ch.latest_msgid
  pub redis : ch'.redis_distributed ≡ ch.redis_distributed

group_less-zero : (g : Option ℤ) → g ≡ group_less 0 g
group_less-zero none = refl
group_less-zero (some c) = ap some (omega int_laws)

group_less-suc :
    (n : ℕ) (g : Option ℤ) → group_less n (group_add (negsuc 0) g) ≡ group_less (suc n) g
group_less-suc n none = refl
group_less-suc n (some c) = ap some (omega int_laws)

pub Collected-none :
    (ch : Chanhead) (kept : List Message)
    → ch.messages ≡ kept
    → ch.stored_message_count ≡ length kept
    → Collected ch [] kept ch
Collected-none ch kept e c = record {
  messages = e;
  counted = c;
  released = sym (append-nil ch.released);
  grouped = group_less-zero ch.groupnode;
  owner = refl;
  slot = refl;
  max_messages = refl;
  total = refl;
  latest = refl;
  redis = refl;
}

pub Collected-delete :
    (m : Message) (next dropped kept : List Message) (ch ch' : Chanhead)
    → Collected (chanhead_delete_first m next ch) dropped kept ch'
    → Collected ch (m ∷ dropped) kept ch'
unfolding chanhead_delete_first
Collected-delete m next dropped kept ch ch' c = record {
  messages = c.messages;
  counted = c.counted;
  released = c.released ∙ append_assoc ch.released (m ∷ []) dropped;
  grouped = c.grouped ∙ group_less-suc (length dropped) ch.groupnode;
  owner = c.owner;
  slot = c.slot;
  max_messages = c.max_messages;
  total = c.total;
  latest = c.latest;
  redis = c.redis;
}

group_less-add :
    (m n k : ℕ) (g : Option ℤ) → k ≡ m + n → group_less n (group_less m g) ≡ group_less k g
group_less-add m n k none e = refl
group_less-add m n k (some c) e = ap some (omega int_laws)

pub Collected-trans :
    (d1 d2 k1 k2 : List Message) (a b c : Chanhead)
    → Collected a d1 k1 b
    → Collected b d2 k2 c
    → Collected a (d1 ++ d2) k2 c
Collected-trans d1 d2 k1 k2 a b c p q = record {
  messages = q.messages;
  counted = q.counted;
  released = q.released ∙ ap (λ r. r ++ d2) p.released ∙ append_assoc a.released d1 d2;
  grouped =
      q.grouped
      ∙ ap (group_less (length d2)) p.grouped
      ∙ group_less-add (length d1) (length d2) (length (d1 ++ d2)) a.groupnode
          (length-append d1 d2);
  owner = q.owner ∙ p.owner;
  slot = q.slot ∙ p.slot;
  max_messages = q.max_messages ∙ p.max_messages;
  total = q.total ∙ p.total;
  latest = q.latest ∙ p.latest;
  redis = q.redis ∙ p.redis;
}

gc_excess-more :
    (m : Message) (ms : List Message) (n : ℕ) (ch : Chanhead)
    → n < ch.stored_message_count
    → gc_excess (m ∷ ms) (pos n) ch ≡ gc_excess ms (pos n) (chanhead_delete_first m ms ch)
unfolding gc_excess
gc_excess-more m ms n ch h = ground arith

gc_excess-done :
    (m : Message) (ms : List Message) (n : ℕ) (ch : Chanhead)
    → ch.stored_message_count ≤ n
    → gc_excess (m ∷ ms) (pos n) ch ≡ (m ∷ ms, ch)
unfolding gc_excess
gc_excess-done m ms n ch h = ground arith

-- The first loop drops what exceeds the limit, from the oldest on.
pub gc_excess-Collected :
    (ms : List Message) (n : ℕ) (ch : Chanhead)
    → ch.messages ≡ ms
    → ch.stored_message_count ≡ length ms
    → ((gc_excess ms (pos n) ch).0 ≡ drop (length ms - n) ms)
      × Collected ch (take (length ms - n) ms) (drop (length ms - n) ms) (gc_excess ms (pos n) ch).1
unfolding gc_excess chanhead_delete_first
gc_excess-Collected [] n ch e c =
    let z : 0 - n ≡ 0 = omega arith in rw z (refl, Collected-none ch [] e c)
gc_excess-Collected (m ∷ ms) n ch e c = elim (dec_lt n (suc (length ms))) [
  | yes more ↦
      let z : suc (length ms) - n ≡ suc (length ms - n) = omega arith in
      let rest = gc_excess-Collected ms n (chanhead_delete_first m ms ch) refl (omega arith) in
      rw (z, gc_excess-more m ms n ch (omega arith)) (rest.0, Collected-delete m ms _ _ ch _ rest.1)
  | no done ↦
      let z : suc (length ms) - n ≡ 0 = omega arith in
      rw (z, gc_excess-done m ms n ch (omega arith)) (refl, Collected-none ch (m ∷ ms) e c)
]
