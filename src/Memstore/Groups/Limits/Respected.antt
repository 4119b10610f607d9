-- ===== src/Memstore/Groups/Limits/Respected.antt =====
-- What passes the checks of store/memory/memstore.c keeps a group within its limits.
use nchan.Prelude.{
  Bool, List, Option, arith, false, if◌then◌else◌, ltb, none, not, refl, some, subst, true, ℕ, [],
  ◌&&◌, ◌*◌, ◌||◌, ◌∷◌, ◌≡◌,
}
use nchan.Prelude.Int.{eqb_ℤ, leb_ℤ, ltb_ℤ, pos, ℤ, +ℤ_parts, ◌+ℤ◌}
use nchan.Memstore.Groups.{
  Group, add_channel, add_message, apply, group_add_channel_internal, group_add_message_internal,
  times,
}
use nchan.Memstore.Groups.Limits.{
  Limits, Publication, PublishCall, Reason, Stores, answer_of, cb_forbidden,
  cb_insufficient_storage, cb_internal_server_error, channels_reached, check_channels,
  file_bytes_reached, group_publish_accounting_channelcheck, group_publish_accounting_check,
  messages_reached, publish_message, publish_now, refused_message, shmem_bytes_reached,
}

-- No limit, or a count that is not above it.
abbrev pub within : ℤ → ℤ → Bool
within limit count = eqb_ℤ limit (pos 0) || leb_ℤ count limit

pub record WithinLimits (limit : Limits) (g : Group) : Type 0 where
  pub channels : within limit.channels g.channels ≡ true
  pub subscribers : within limit.subscribers g.subscribers ≡ true
  pub messages : within limit.messages g.messages ≡ true
  pub shmem_bytes : within limit.messages_shmem_bytes g.messages_shmem_bytes ≡ true
  pub file_bytes : within limit.messages_file_bytes g.messages_file_bytes ≡ true

abbrev pub publishes : List PublishCall → Bool
publishes [] = false
publishes (publish_message ∷ cs) = true
publishes (cb_forbidden r ∷ cs) = publishes cs
publishes (cb_internal_server_error ∷ cs) = publishes cs
publishes (cb_insufficient_storage ∷ cs) = publishes cs

pub within-suc :
    (limit count : ℤ)
    → (eqb_ℤ limit (pos 0) || ltb_ℤ count limit) ≡ true
    → within limit (count +ℤ pos 1) ≡ true
within-suc limit count h = let parts = +ℤ_parts count (pos 1) in ground arith

-- The group after a message was added to it, of a file or not, and before it the channel where there was none.
abbrev pub after_publishing : Publication → Bool → Stores → Group → Group
after_publishing p in_file stores g =
    apply (add_message (pos 1) p.msg_sz (if in_file then p.buf_size else 0))
      (if stores.chanhead || stores.found then g else apply (add_channel (pos 1) false true) g)

tests-none :
    (m a b c d : Bool)
    → (if not m
        then some messages_reached
        else if not a && not b
        then some shmem_bytes_reached
        else if not c && not d
        then some file_bytes_reached
        else none)
      ≡ none
    → (m ≡ true) × ((a || b) ≡ true) × ((c || d) ≡ true)
tests-none m a b c d h = ground arith

refused_message-none :
    (limit : Limits) (g : Group) (p : Publication)
    → refused_message limit g p ≡ none
    → ((eqb_ℤ limit.messages (pos 0) || ltb_ℤ g.messages limit.messages) ≡ true)
      × (within limit.messages_shmem_bytes (g.messages_shmem_bytes +ℤ pos (p.n * p.msg_sz)) ≡ true)
      × (within limit.messages_file_bytes (g.messages_file_bytes +ℤ pos p.buf_size) ≡ true)
unfolding refused_message
refused_message-none limit g p h =
    tests-none (eqb_ℤ limit.messages (pos 0) || ltb_ℤ g.messages limit.messages)
      (eqb_ℤ limit.messages_shmem_bytes (pos 0))
      (leb_ℤ (g.messages_shmem_bytes +ℤ pos (p.n * p.msg_sz)) limit.messages_shmem_bytes)
      (eqb_ℤ limit.messages_file_bytes (pos 0))
      (leb_ℤ (g.messages_file_bytes +ℤ pos p.buf_size) limit.messages_file_bytes) h

channel_tests :
    (z e ch f le lt d : Bool)
    → le ≡ not lt
    → publishes (
        if not z
        then if e
          then if not ch
            then if f then publish_message ∷ [] else cb_forbidden channels_reached ∷ []
            else if d
            then publish_message ∷ cb_insufficient_storage ∷ []
            else publish_message ∷ []
          else if le
          then cb_forbidden channels_reached ∷ []
          else if d
          then publish_message ∷ cb_insufficient_storage ∷ []
          else publish_message ∷ []
        else if d
        then publish_message ∷ cb_insufficient_storage ∷ []
        else publish_message ∷ [])
      ≡ true
    → (ch || f) ≡ false
    → (z || lt) ≡ true
channel_tests z e ch f le lt d neg h new = ground arith

check_channels-new :
    (limit : Limits) (g : Group) (stores : Stores)
    → publishes (check_channels limit g stores) ≡ true
    → (stores.chanhead || stores.found) ≡ false
    → (eqb_ℤ limit.channels (pos 0) || ltb_ℤ g.channels limit.channels) ≡ true
unfolding check_channels group_publish_accounting_channelcheck publish_now
check_channels-new limit g stores h new =
    channel_tests (eqb_ℤ limit.channels (pos 0)) (eqb_ℤ (g.channels +ℤ pos 1) limit.channels)
      stores.chanhead stores.found (leb_ℤ limit.channels g.channels)
      (ltb_ℤ g.channels limit.channels) stores.declined (ground arith) h new

within-if :
    (limit a b : ℤ) (c : Bool)
    → within limit a ≡ true
    → within limit b ≡ true
    → within limit (if c then a else b) ≡ true
within-if limit a b true p q = p
within-if limit a b false p q = q

within-file :
    (limit count : ℤ) (size : ℕ) (in_file : Bool)
    → within limit (count +ℤ pos size) ≡ true
    → within limit count ≡ true
    → within limit (
        if ltb 0 (if in_file then size else 0)
        then count +ℤ times (pos 1) (if in_file then size else 0)
        else count)
      ≡ true
within-file limit count size true p q =
    within-if limit (count +ℤ pos (1 * size)) count (ltb 0 size)
      (subst (λ k. within limit (count +ℤ pos k) ≡ true) (omega arith) p) q
within-file limit count size false p q = q

answer_of-publishes :
    (o : Option Reason) (calls : List PublishCall)
    → publishes (answer_of o calls) ≡ true
    → (o ≡ none) × (publishes calls ≡ true)
answer_of-publishes none calls h = (refl, h)
answer_of-publishes (some err) calls h = ground arith

-- When the check of a group that is within its limits publishes a message to one channel, the group is within all its
-- limits also after the message was counted, with its file where it has one, and with the channel where there was none.
pub group_publish_accounting_check-WithinLimits :
    (limit : Limits) (g : Group) (p : Publication) (stores : Stores) (in_file : Bool)
    → p.n ≡ 1
    → WithinLimits limit g
    → publishes (group_publish_accounting_check limit (some g) p stores) ≡ true
    → WithinLimits limit (after_publishing p in_file stores g)
unfolding group_publish_accounting_check apply group_add_message_internal group_add_channel_internal
group_publish_accounting_check-WithinLimits limit g p stores in_file one wf h =
    let (passed, sent) =
      answer_of-publishes (refused_message limit g p) (check_channels limit g stores) h in
    let (m, s, f) = refused_message-none limit g p passed in
    after (stores.chanhead || stores.found) m
      (subst
        (λ k.
          within limit.messages_shmem_bytes (g.messages_shmem_bytes +ℤ pos (k * p.msg_sz)) ≡ true)
        one s)
      f (check_channels-new limit g stores sent)
  where
    after :
        (old : Bool)
        → ((eqb_ℤ limit.messages (pos 0) || ltb_ℤ g.messages limit.messages) ≡ true)
        → (within limit.messages_shmem_bytes (g.messages_shmem_bytes +ℤ pos (1 * p.msg_sz)) ≡ true)
        → (within limit.messages_file_bytes (g.messages_file_bytes +ℤ pos p.buf_size) ≡ true)
        → (old ≡ false → (eqb_ℤ limit.channels (pos 0) || ltb_ℤ g.channels limit.channels) ≡ true)
        → WithinLimits limit (
            apply
              (add_message (pos 1) p.msg_sz (if in_file then p.buf_size else 0))
              (if old then g else apply (add_channel (pos 1) false true) g))
    after true m s f new = record {
      channels = wf.channels;
      subscribers = wf.subscribers;
      messages = within-suc limit.messages g.messages m;
      shmem_bytes = s;
      file_bytes =
          within-file limit.messages_file_bytes g.messages_file_bytes p.buf_size in_file f
            wf.file_bytes;
    }
    after false m s f new = record {
      channels = within-suc limit.channels g.channels (new refl);
      subscribers = wf.subscribers;
      messages = within-suc limit.messages g.messages m;
      shmem_bytes = s;
      file_bytes =
          within-file limit.messages_file_bytes g.messages_file_bytes p.buf_size in_file f
            wf.file_bytes;
    }
