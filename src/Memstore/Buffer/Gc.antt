-- ===== src/Memstore/Buffer/Gc.antt =====
-- What a collection keeps: at most `max_messages` of the newest messages, from the first that has not
-- expired on.
use nchan.Memstore.Buffer.Collected.{
  Collected, Collected-delete, Collected-none, Collected-trans, gc_excess-Collected, newest,
  unexpired,
}
use nchan.Prelude.{
  Bool-cases, List, ap, append_assoc, arith, drop, if◌then◌else◌, inl, inr, length, length-drop,
  refl, sym, take, take-append-drop, ℕ, [], ◌++◌, ◌-◌, ◌∙◌, ◌∷◌, ◌≡◌, ◌≤◌,
}
use nchan.Prelude.Int.{ltb_ℤ, negsuc, pos, ℤ, ◌≤ℤ◌}
use nchan.Memstore.Message.{Message}
use nchan.Memstore.Buffer.{
  Chanhead, chanhead_delete_first, chanhead_messages_gc_custom, gc_excess, gc_expired,
  memstore_chanhead_messages_gc,
}

-- The second loop drops the messages that have expired, up to the first that has not.
abbrev pub expired_prefix : ℤ → List Message → List Message
expired_prefix now [] = []
expired_prefix now (m ∷ ms) = if ltb_ℤ m.expires now then m ∷ expired_prefix now ms else []

gc_expired-Collected :
    (ms : List Message) (now : ℤ) (ch : Chanhead)
    → ch.messages ≡ ms
    → ch.stored_message_count ≡ length ms
    → Collected ch (expired_prefix now ms) (unexpired now ms) (gc_expired ms now ch)
unfolding gc_expired chanhead_delete_first
gc_expired-Collected [] now ch e c = Collected-none ch [] e c
gc_expired-Collected (m ∷ ms) now ch e c = elim (Bool-cases (ltb_ℤ m.expires now)) [
  | inl old ↦ rw old (
      Collected-delete m ms _ _ ch _
        (gc_expired-Collected ms now (chanhead_delete_first m ms ch) refl (omega arith)))
  | inr fresh ↦ rw fresh (Collected-none ch (m ∷ ms) e c)
]

abbrev pub dropped_by : ℤ → ℤ → List Message → List Message
dropped_by (pos n) now ms = take (length ms - n) ms ++ expired_prefix now (drop (length ms - n) ms)
dropped_by (negsuc n) now ms = expired_prefix now ms

gc_custom-own :
    (max now : ℤ) (ch : Chanhead)
    → ch.owner ≡ ch.slot
    → chanhead_messages_gc_custom max now ch
      ≡ gc_expired (gc_excess ch.messages max ch).0 now (gc_excess ch.messages max ch).1
unfolding chanhead_messages_gc_custom
gc_custom-own max now ch own = ground arith

gc_excess-unlimited :
    (ms : List Message) (n : ℕ) (ch : Chanhead) → gc_excess ms (negsuc n) ch ≡ (ms, ch)
unfolding gc_excess
gc_excess-unlimited [] n ch = refl
gc_excess-unlimited (m ∷ ms) n ch = ground arith

gc-Collected :
    (max now : ℤ) (ch : Chanhead)
    → ch.owner ≡ ch.slot
    → ch.stored_message_count ≡ length ch.messages
    → Collected ch
        (dropped_by max now ch.messages)
        (unexpired now (newest max ch.messages))
        (chanhead_messages_gc_custom max now ch)
gc-Collected (pos n) now ch own c =
    let (cur, first) = gc_excess-Collected ch.messages n ch refl c in
    rw (gc_custom-own (pos n) now ch own, cur)
      (Collected-trans _ _ _ _ ch _ _ first
        (gc_expired-Collected _ now _ first.messages first.counted))
gc-Collected (negsuc n) now ch own c =
    rw (gc_custom-own (negsuc n) now ch own, gc_excess-unlimited ch.messages n ch)
      (gc_expired-Collected ch.messages now ch refl c)

pub memstore_gc-Collected :
    (now : ℤ) (ch : Chanhead)
    → ch.owner ≡ ch.slot
    → ch.stored_message_count ≡ length ch.messages
    → Collected ch
        (dropped_by ch.max_messages now ch.messages)
        (unexpired now (newest ch.max_messages ch.messages))
        (memstore_chanhead_messages_gc now ch)
unfolding memstore_chanhead_messages_gc
memstore_gc-Collected now ch own c = gc-Collected ch.max_messages now ch own c

expired_prefix-unexpired :
    (now : ℤ) (ms : List Message) → expired_prefix now ms ++ unexpired now ms ≡ ms
expired_prefix-unexpired now [] = refl
expired_prefix-unexpired now (m ∷ ms) = ground (arith, expired_prefix-unexpired now ms)

dropped_by-append :
    (max now : ℤ) (ms : List Message) → dropped_by max now ms ++ unexpired now (newest max ms) ≡ ms
dropped_by-append (pos n) now ms =
    let k = length ms - n in
    append_assoc (take k ms) (expired_prefix now (drop k ms)) (unexpired now (drop k ms))
    ∙ ap (◌++◌ (take k ms)) (expired_prefix-unexpired now (drop k ms))
    ∙ take-append-drop k ms
dropped_by-append (negsuc n) now ms = expired_prefix-unexpired now ms

length-unexpired-le : (now : ℤ) (ms : List Message) → length (unexpired now ms) ≤ length ms
length-unexpired-le now [] = omega arith
length-unexpired-le now (m ∷ ms) = ground (arith, length-unexpired-le now ms)

abbrev pub FirstFresh : ℤ → List Message → Type 0
FirstFresh now [] = Unit {0}
FirstFresh now (m ∷ ms) = now ≤ℤ m.expires

unexpired-FirstFresh : (now : ℤ) (ms : List Message) → FirstFresh now (unexpired now ms)
unexpired-FirstFresh now [] = tt
unexpired-FirstFresh now (m ∷ ms) = ground (arith, unexpired-FirstFresh now ms)

-- A collection on the owner's channel, whose count is right, splits the buffer: it gives the older
-- messages to the reaper in order, takes them off the counts of the channel and its group, and keeps
-- the newer ones. The kept buffer is what is left of the newest `n` messages, without the expired ones before the first that has not expired; so it is within the
-- limit `n`, and its first message has not expired.
pub gc_custom-splits :
    (max now : ℤ) (ch : Chanhead) (n : ℕ)
    → ch.owner ≡ ch.slot
    → ch.stored_message_count ≡ length ch.messages
    → max ≡ pos n
    → (dropped : List Message) × (ch.messages
        ≡ dropped ++ (chanhead_messages_gc_custom max now ch).messages)
      × Collected ch dropped
          (unexpired now (newest max ch.messages))
          (chanhead_messages_gc_custom max now ch)
      × (length (chanhead_messages_gc_custom max now ch).messages ≤ n)
      × FirstFresh now (chanhead_messages_gc_custom max now ch).messages
gc_custom-splits max now ch n own c e =
    let done = gc-Collected max now ch own c in
    (
      dropped_by max now ch.messages,
      rw done.messages (sym (dropped_by-append max now ch.messages)),
      done,
      rw (done.messages, e)
          (omega (
            arith,
            length-unexpired-le now (drop (length ch.messages - n) ch.messages),
            length-drop (length ch.messages - n) ch.messages,
          )),
      rw done.messages (unexpired-FirstFresh now (newest max ch.messages)),
    )
