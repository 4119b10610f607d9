-- ===== src/Memstore/Publish/Delivery.antt =====
-- A published message is what a subscriber that has the last message gets next.
use nchan.Memstore.Publish.LastMessage.{
  All-kept_before, All-last, before-last, find-last, kept-append, kept_before, last-append,
  last-split,
}
use nchan.Memstore.Publish.Total.{
  collected, collected-Collected, collected-IsBehind, collected-IsOrdered, collected-own, filled,
  filled-content, filled-tagcount, filled-time, publish-owner, push-eq, stamped-differs,
}
use nchan.Prelude.{
  All, Bool, List, Option, ap, arith, false, ngx_ok, refl, some, subst, sym, true, [], ◌++◌, ◌==◌,
  ◌>>=◌, ◌∙◌, ◌∷◌, ◌≡◌,
}
use nchan.Prelude.Int.{eqb_ℤ, ltb_ℤ, pos, ℤ, ◌<ℤ◌}
use nchan.Memstore.Message.{Message, fixed_0}
use nchan.Memstore.Buffer.{
  Chanhead, find_in_buffer, first_before, memstore_chanhead_messages_gc, msg_found,
}
use nchan.Memstore.Buffer.Collected.{newest, unexpired}
use nchan.Memstore.Buffer.Gc.{memstore_gc-Collected}
use nchan.Memstore.Buffer.Find.{IsRegular, IsSorted}
use nchan.Memstore.Buffer.Find.Deliver.{AllRegular}
use nchan.Memstore.Publish.{
  PublishConf, chanhead_publish_message_generic, chanhead_push_message, differs_from_prev, hand_on,
  hand_on_pushed, last, last_status, publish_owned, published, pushed, set_latest, stamped,
}
use nchan.Memstore.Publish.Order.{
  CanPublish, IsBehind, IsOrdered, gc-IsOrdered, pushed-IsOrdered, stamped-IsAfter, time-positive,
  time_of,
}

hand_on_ok :
    (m : Message) (ch : Chanhead)
    → differs_from_prev m ≡ true
    → hand_on_pushed ((ngx_ok, m), ch) ≡ some (published m, set_latest m ch)
unfolding hand_on_pushed hand_on
hand_on_ok m ch d = rw d refl

owned-push :
    (conf : PublishConf) (ch : Chanhead) (m : Message)
    → eqb_ℤ ch.max_messages (pos 0) ≡ false
    → publish_owned conf true ch m ≡ chanhead_push_message conf.now ch m >>= hand_on_pushed
unfolding publish_owned
owned-push conf ch m h = rw h refl

set_latest-messages :
    (m : Message) (ch : Chanhead)
    → ((set_latest m ch).messages ≡ ch.messages)
      × ((set_latest m ch).max_messages ≡ ch.max_messages)
unfolding set_latest
set_latest-messages m ch = (refl, refl)

last_status-append : (ms : List Message) (x : Message) → last_status (ms ++ x ∷ []) ≡ ngx_ok
last_status-append [] x = refl
last_status-append (m ∷ ms) x = refl

stamped-same :
    (now : ℤ) (redis : Bool) (l : Option Message) (m : Message)
    → ((stamped now redis l m).expires ≡ m.expires) × ((stamped now redis l m).content ≡ m.content)
unfolding stamped
stamped-same now redis l m = (refl, refl)

module _ (conf : PublishConf) (ch : Chanhead) (m l : Message)
    (kept : eqb_ℤ ch.max_messages (pos 0) ≡ false) where
  abbrev m' : Message
  m' = stamped conf.now ch.redis_distributed (some l) m

  -- What the buffered branch leaves, when neither the last message nor the new one has expired.
  owned-delivers :
      (pre : List Message)
      → ch.owner ≡ ch.slot
      → IsOrdered ch
      → ch.messages ≡ pre ++ l ∷ []
      → m.id.tagcount ≡ 1
      → pos 0 <ℤ time_of conf m
      → All (IsBehind (time_of conf m)) ch.messages
      → ltb_ℤ m.expires conf.now ≡ false
      → (ch' : Chanhead) × (publish_owned conf true ch m ≡ some (published m', ch'))
        × (last ch'.messages ≡ some m')
        × (find_in_buffer ch'.max_messages ch'.messages l.id ≡ some (msg_found, some m'))
  unfolding pushed
  owned-delivers pre own wf e one p b fresh =
      let whole : stamped conf.now ch.redis_distributed (last ch.messages) m ≡ m' =
        ap (λ o. stamped conf.now ch.redis_distributed o m) (ap last e ∙ last-append pre l) in
      let ch' = memstore_chanhead_messages_gc conf.now (pushed m' ch) in
      let ordered : IsOrdered (pushed m' ch) =
        subst (λ x. IsOrdered (pushed x ch)) whole
          (pushed-IsOrdered conf.now ch.redis_distributed m ch wf b one (omega arith)) in
      let after =
        subst (λ x. differs_from_prev x ≡ true) whole
          (stamped-differs conf.now ch.redis_distributed m ch.messages p wf.sorted b) in
      let fresh' : ltb_ℤ m'.expires conf.now ≡ false =
        ap (λ t. ltb_ℤ t conf.now) (stamped-same conf.now ch.redis_distributed (some l) m).0
        ∙ fresh in
      let final = gc-IsOrdered conf.now (pushed m' ch) own ordered in
      let shape : ch'.messages ≡ kept_before ch.max_messages conf.now (pre ++ l ∷ []) ++ m' ∷ [] =
        (memstore_gc-Collected conf.now (pushed m' ch) own ordered.counted).messages
        ∙ ap (λ ms. unexpired conf.now (newest ch.max_messages (ms ++ m' ∷ []))) e
        ∙ kept-append ch.max_messages conf.now (pre ++ l ∷ []) m' kept fresh' in
      let behind : IsBehind (time_of conf m) l =
        All-last (IsBehind (time_of conf m)) pre l (subst (All (IsBehind (time_of conf m))) e b) in
      let regular = All-last (λ x. IsRegular x.id) pre l (subst AllRegular e wf.regular) in
      (
        set_latest m' ch',
        owned-push conf ch m kept
            ∙ ap (λ r. r >>= hand_on_pushed) (push-eq conf.now ch m one)
            ∙ ap
                (λ x. hand_on_pushed (
                  (last_status (memstore_chanhead_messages_gc conf.now (pushed x ch)).messages, x),
                  memstore_chanhead_messages_gc conf.now (pushed x ch),
                ))
                whole
            ∙ ap (λ rc. hand_on_pushed ((rc, m'), ch'))
                (ap last_status shape ∙ last_status-append _ m')
            ∙ hand_on_ok m' ch' after,
        ap last ((set_latest-messages m' ch').0 ∙ shape)
            ∙ last-append (kept_before ch.max_messages conf.now (pre ++ l ∷ [])) m',
        ap (λ ms. find_in_buffer (set_latest m' ch').max_messages ms l.id)
              ((set_latest-messages m' ch').0 ∙ shape)
            ∙ find-last (set_latest m' ch').max_messages
                (kept_before ch.max_messages conf.now (pre ++ l ∷ [])) m' l.id
                (subst IsSorted shape final.sorted) (subst AllRegular shape final.regular) regular
                (All-kept_before (λ y. first_before l.id.time (fixed_0 l.id.tag) y ≡ false)
                  ch.max_messages conf.now (pre ++ l ∷ [])
                  (before-last pre l (subst IsSorted e wf.sorted)))
                (stamped-IsAfter conf.now ch.redis_distributed m l behind),
      )

-- Publishing, on the owner, which has the shared data of the channel, and without a distributed Redis store, a message of one channel to a channel
-- that buffers messages and has a buffer that is in order: at a positive second, when the message has no
-- negative second, no message of the buffer is later than the second that it has or is given, each of
-- them has a tag from 0 to 32766, neither the last message `l` nor the new one (by the time it is given) has
-- expired, and its memory is granted, the message is published, it is the last of the buffer, and it is
-- what a subscriber with the id of `l` gets next.
pub publish-delivers :
    (conf : PublishConf) (ch : Chanhead) (m l : Message)
    → ch.owner ≡ ch.slot
    → IsOrdered ch
    → CanPublish conf ch m
    → eqb_ℤ conf.max_messages (pos 0) ≡ false
    → last ch.messages ≡ some l
    → ltb_ℤ l.expires conf.now ≡ false
    → ltb_ℤ (filled conf m).expires conf.now ≡ false
    → (m' : Message) × (ch' : Chanhead) × (chanhead_publish_message_generic conf true ch m
        ≡ some (published m', ch'))
      × (m'.content ≡ m.content)
      × (last ch'.messages ≡ some m')
      × (find_in_buffer ch'.max_messages ch'.messages l.id ≡ some (msg_found, some m'))
publish-delivers conf ch m l own wf can kept e old fresh =
    let (pre, split) = last-split ch.messages l e in
    let p = time-positive conf ch m can in
    let c = collected-Collected conf ch m own wf in
    let here : (ch.slot == ch.owner) ≡ true = ground arith in
    let (ch', done, is_last, found) =
      owned-delivers conf (collected conf ch) (filled conf m) l
        (ap (λ n. eqb_ℤ n (pos 0)) c.max_messages ∙ kept)
        (kept_before conf.max_messages conf.now pre) (collected-own conf ch m own wf)
        (collected-IsOrdered conf ch m own wf)
        (c.messages
          ∙ ap (λ ms. unexpired conf.now (newest conf.max_messages ms)) split
          ∙ kept-append conf.max_messages conf.now pre l kept old)
        (filled-tagcount conf m ∙ can.one) (subst (λ t. pos 0 <ℤ t) (sym (filled-time conf m)) p)
        (collected-IsBehind conf ch m own wf can) fresh in
    (
      _,
      ch',
      publish-owner conf true ch m can here ∙ done,
      (stamped-same conf.now (collected conf ch).redis_distributed (some l) (filled conf m)).1
          ∙ filled-content conf m,
      is_last,
      found,
    )
