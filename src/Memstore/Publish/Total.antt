-- ===== src/Memstore/Publish/Total.antt =====
-- Publishing to a channel whose buffer is in order: no assertion fails, and the buffer stays in order.
use nchan.Memstore.Buffer.Collected.{Collected, newest, unexpired}
use nchan.Memstore.Buffer.Gc.{dropped_by, memstore_gc-Collected}
use nchan.Prelude.{
  All, Bool, Bool-cases, List, Rc, arith, false, if◌then◌else◌, inl, inr, ngx_abort, ngx_again,
  ngx_declined, ngx_done, ngx_error, ngx_ok, not, refl, some, subst, sym, true, [], ◌==◌, ◌||◌, ◌∙◌,
  ◌∷◌, ◌≡◌,
}
use nchan.Prelude.Int.{eqb_ℤ, pos, ℤ, ◌<ℤ◌}
use nchan.Msg.Id.{MsgId}
use nchan.Memstore.Message.{Message, fixed_0}
use nchan.Memstore.Buffer.{Chanhead, memstore_chanhead_messages_gc}
use nchan.Memstore.Buffer.Find.{IsAfter, IsSorted}
use nchan.Memstore.Publish.{
  Outcome, PublishConf, chanhead_publish_message_generic, chanhead_push_message, differs_from_prev,
  fill_message_timedata, forwarded, hand_on, hand_on_pushed, insufficient_storage,
  internal_server_error, last, last_status, no_prev_id, publish_owned, published, pushed,
  set_latest, stamped, time_or_now, unbuffered,
}
use nchan.Memstore.Publish.Order.{
  All-kept, CanPublish, IsBehind, IsOrdered, gc-IsOrdered, last-some, own_pushed, pushed-IsOrdered,
  stamped-IsAfter, time-positive, time_of,
}

differs-after :
    (l m : Message)
    → m.prev_id ≡ l.id
    → IsAfter l.id.time (fixed_0 l.id.tag) m
    → differs_from_prev m ≡ true
differs-after l m e h = rw e (by_order l.id.time (fixed_0 l.id.tag) m h)
  where
    by_order :
        (t g : ℤ) (m : Message)
        → IsAfter t g m
        → (not (eqb_ℤ m.id.time t) || not (eqb_ℤ (fixed_0 m.id.tag) g)) ≡ true
    by_order t g m h = ground arith

-- The assertion before a pushed message is handed on holds.
pub stamped-differs :
    (now : ℤ) (redis : Bool) (m : Message) (ms : List Message)
    → pos 0 <ℤ time_or_now now m.id.time
    → IsSorted ms
    → All (IsBehind (time_or_now now m.id.time)) ms
    → differs_from_prev (stamped now redis (last ms) m) ≡ true
unfolding stamped no_prev_id
stamped-differs now redis m [] p s b = ground arith
stamped-differs now redis m (x ∷ ms) p s b =
    let (l, e, bl) = last-some (IsBehind (time_or_now now m.id.time)) x ms b in
    subst (λ o. differs_from_prev (stamped now redis o m) ≡ true) (sym e)
      (differs-after l (stamped now redis (some l) m) refl (stamped-IsAfter now redis m l bl))

pub push-eq :
    (now : ℤ) (ch : Chanhead) (m : Message)
    → m.id.tagcount ≡ 1
    → chanhead_push_message now ch m
      ≡ some (
        (
          last_status
              (memstore_chanhead_messages_gc now
                (pushed (stamped now ch.redis_distributed (last ch.messages) m) ch)).messages,
          stamped now ch.redis_distributed (last ch.messages) m,
        ),
        memstore_chanhead_messages_gc now
            (pushed (stamped now ch.redis_distributed (last ch.messages) m) ch),
      )
unfolding chanhead_push_message
push-eq now ch m one = rw one refl

hand_on-IsOrdered :
    (m : Message) (ch : Chanhead)
    → differs_from_prev m ≡ true
    → IsOrdered ch
    → (hand_on m ch ≡ some (published m, set_latest m ch)) × IsOrdered (set_latest m ch)
unfolding hand_on set_latest
hand_on-IsOrdered m ch d wf =
    (rw d refl, record { sorted = wf.sorted; regular = wf.regular; counted = wf.counted })

hand_on_pushed-IsOrdered :
    (rc : Rc) (m : Message) (ch : Chanhead)
    → differs_from_prev m ≡ true
    → IsOrdered ch
    → (o : Outcome) × (ch' : Chanhead) × (hand_on_pushed ((rc, m), ch) ≡ some (o, ch'))
      × IsOrdered ch'
unfolding hand_on_pushed
hand_on_pushed-IsOrdered ngx_ok m ch d wf =
    let (e, wf') = hand_on-IsOrdered m ch d wf in (published m, set_latest m ch, e, wf')
hand_on_pushed-IsOrdered ngx_error m ch d wf = (internal_server_error, ch, refl, wf)
hand_on_pushed-IsOrdered ngx_again m ch d wf = (internal_server_error, ch, refl, wf)
hand_on_pushed-IsOrdered ngx_declined m ch d wf = (internal_server_error, ch, refl, wf)
hand_on_pushed-IsOrdered ngx_abort m ch d wf = (internal_server_error, ch, refl, wf)
hand_on_pushed-IsOrdered ngx_done m ch d wf = (internal_server_error, ch, refl, wf)

unbuffered-differs :
    (now : ℤ) (latest : MsgId) (m : Message)
    → pos 0 <ℤ m.id.time
    → differs_from_prev (unbuffered now latest m) ≡ true
unfolding unbuffered no_prev_id
unbuffered-differs now latest m p = elim (Bool-cases (eqb_ℤ latest.time m.id.time)) [
  | inl same ↦ rw same (ground arith)
  | inr other ↦ rw other (ground arith)
]

owned-IsOrdered :
    (conf : PublishConf) (memory : Bool) (ch : Chanhead) (m : Message)
    → ch.owner ≡ ch.slot
    → IsOrdered ch
    → m.id.tagcount ≡ 1
    → pos 0 <ℤ m.id.time
    → pos 0 <ℤ time_of conf m
    → All (IsBehind (time_of conf m)) ch.messages
    → (o : Outcome) × (ch' : Chanhead) × (publish_owned conf memory ch m ≡ some (o, ch'))
      × IsOrdered ch'
unfolding publish_owned
owned-IsOrdered conf false ch m own wf one p q b = (internal_server_error, ch, refl, wf)
owned-IsOrdered conf true ch m own wf one p q b =
    elim (Bool-cases (eqb_ℤ ch.max_messages (pos 0))) [
      | inl zero_max ↦
          let (e, wf') =
            hand_on-IsOrdered (unbuffered conf.now ch.latest_msgid m) ch
              (unbuffered-differs conf.now ch.latest_msgid m p) wf in
          rw zero_max (published _, _, e, wf')
      | inr kept ↦
          let m' = stamped conf.now ch.redis_distributed (last ch.messages) m in
          let ch' = memstore_chanhead_messages_gc conf.now (pushed m' ch) in
          rw (kept, push-eq conf.now ch m one)
            (hand_on_pushed-IsOrdered (last_status ch'.messages) m' ch'
              (stamped-differs conf.now ch.redis_distributed m ch.messages q wf.sorted b)
              (gc-IsOrdered conf.now (pushed m' ch) (own_pushed m' ch own)
                (pushed-IsOrdered conf.now ch.redis_distributed m ch wf b one (omega arith))))
    ]

-- The channel that `chanhead_publish_message_generic` goes on with, and the message.
abbrev pub collected : PublishConf → Chanhead → Chanhead
collected conf ch =
    memstore_chanhead_messages_gc conf.now (record ch { max_messages = conf.max_messages })

abbrev pub filled : PublishConf → Message → Message
filled conf m = fill_message_timedata conf.now conf.message_timeout m

time_or_now-twice : (now t : ℤ) → time_or_now now (time_or_now now t) ≡ time_or_now now t
time_or_now-twice now t = ground arith

pub filled-time : (conf : PublishConf) (m : Message) → time_of conf (filled conf m) ≡ time_of conf m
unfolding fill_message_timedata
filled-time conf m = time_or_now-twice conf.now m.id.time

pub filled-content : (conf : PublishConf) (m : Message) → (filled conf m).content ≡ m.content
unfolding fill_message_timedata
filled-content conf m = refl

filled-positive :
    (conf : PublishConf) (m : Message) → pos 0 <ℤ time_of conf m → pos 0 <ℤ (filled conf m).id.time
unfolding fill_message_timedata
filled-positive conf m h = h

pub filled-tagcount :
    (conf : PublishConf) (m : Message) → (filled conf m).id.tagcount ≡ m.id.tagcount
unfolding fill_message_timedata
filled-tagcount conf m = refl

module _ (conf : PublishConf) (ch : Chanhead) (m : Message) (own : ch.owner ≡ ch.slot)
    (wf : IsOrdered ch) where
  pub collected-Collected :
      Collected
        (record ch { max_messages = conf.max_messages })
        (dropped_by conf.max_messages conf.now ch.messages)
        (unexpired conf.now (newest conf.max_messages ch.messages))
        (collected conf ch)
  collected-Collected =
      memstore_gc-Collected conf.now (record ch { max_messages = conf.max_messages }) own wf.counted

  pub collected-own : (collected conf ch).owner ≡ (collected conf ch).slot
  collected-own = collected-Collected.owner ∙ own ∙ sym collected-Collected.slot

  pub collected-IsOrdered : IsOrdered (collected conf ch)
  collected-IsOrdered =
      gc-IsOrdered conf.now (record ch { max_messages = conf.max_messages }) own
        (record { sorted = wf.sorted; regular = wf.regular; counted = wf.counted })

  pub collected-IsBehind :
      CanPublish conf ch m
      → All (IsBehind (time_of conf (filled conf m))) (collected conf ch).messages
  collected-IsBehind can =
      rw (filled-time conf m, collected-Collected.messages)
        (All-kept (IsBehind (time_of conf m)) conf.max_messages conf.now ch.messages can.behind)

module _ (conf : PublishConf) (memory : Bool) (ch : Chanhead) (m : Message)
    (can : CanPublish conf ch m) where
  pub publish-owner :
      (ch.slot == ch.owner) ≡ true
      → chanhead_publish_message_generic conf memory ch m
        ≡ publish_owned conf memory (collected conf ch) (filled conf m)
  unfolding chanhead_publish_message_generic
  publish-owner here = simp (can.one, can.local, here, can.owner_shared here) refl

  publish-other :
      (ch.slot == ch.owner) ≡ false
      → chanhead_publish_message_generic conf memory ch m
        ≡ some ((if memory then forwarded m else insufficient_storage), ch)
  unfolding chanhead_publish_message_generic
  publish-other here = simp (can.one, can.local, here) refl

-- For a buffer that is in order, publishing a message that may be published never fails an assertion,
-- whatever the outcome is (the message is published or forwarded, or an error is returned, as with no
-- memory), and leaves the buffer in order and counted. It may be published if it is of one channel, has no
-- negative second and comes at a positive one, without a distributed Redis store, to a channel that has its
-- shared data if this is its owner, and no message of the buffer is later than the second that it has or is
-- given or has a tag that is not from 0 to 32766.
pub publish-IsOrdered :
    (conf : PublishConf) (memory : Bool) (ch : Chanhead) (m : Message)
    → IsOrdered ch
    → CanPublish conf ch m
    → (o : Outcome) × (ch' : Chanhead) × (chanhead_publish_message_generic conf memory ch m
        ≡ some (o, ch'))
      × IsOrdered ch'
publish-IsOrdered conf memory ch m wf can = elim (Bool-cases (ch.slot == ch.owner)) [
  | inl here ↦
      let own : ch.owner ≡ ch.slot = ground arith in
      let p = time-positive conf ch m can in
      rw (publish-owner conf memory ch m can here) (
        owned-IsOrdered conf memory (collected conf ch) (filled conf m)
          (collected-own conf ch m own wf) (collected-IsOrdered conf ch m own wf)
          (filled-tagcount conf m ∙ can.one) (filled-positive conf m p)
          (subst (λ t. pos 0 <ℤ t) (sym (filled-time conf m)) p)
          (collected-IsBehind conf ch m own wf can))
  | inr other ↦ (_, ch, publish-other conf memory ch m can other, wf)
]
