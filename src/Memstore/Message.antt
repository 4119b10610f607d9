-- ===== src/Memstore/Message.antt =====
-- What store/memory/memstore.c reads and writes of a message (`nchan_msg_t` of nchan_types.h), and
-- when a stored message may be freed.
pub mod Lifetime
use nchan.Prelude.{
  Bool, Option, Rc, assert, false, if◌then◌else◌, ngx_declined, ngx_ok, not, some, true, ℕ, [],
  ◌&&◌, ◌>>◌, ◌∷◌,
}
use nchan.Prelude.Int.{eqb_ℤ, leb_ℤ, ltb_ℤ, negsuc, pos, ℤ, ◌+ℤ◌, ◌-ℤ◌}
use nchan.Msg.Id.{MsgId, Multitag, allocd, fixed}

-- The content of the message is its number, and its size in shared memory and in a file.
pub record Message : Type 0 where
  pub content : ℕ
  pub id : MsgId
  pub prev_id : MsgId
  pub expires : ℤ
  pub refcount : ℤ
  pub mem_size : ℕ
  pub file_size : ℕ

-- MSG_REFCOUNT_INVALID
abbrev pub refcount_invalid : ℤ
refcount_invalid = negsuc 8999

-- `id.tag.fixed[0]`, where the fixed tags were written.
abbrev pub fixed_0 : Multitag → ℤ
fixed_0 (fixed (t ∷ ts)) = t
fixed_0 (fixed []) = pos 0
fixed_0 (allocd ts) = pos 0

-- `msg_refcount_valid`
msg_refcount_valid : Message → Bool
msg_refcount_valid m = leb_ℤ (pos 0) m.refcount

-- `msg_refcount_invalidate_if_zero`: whether it did, and the message.
pub msg_refcount_invalidate_if_zero : Message → Bool × Message
msg_refcount_invalidate_if_zero m =
    if eqb_ℤ m.refcount (pos 0)
    then (true, record m { refcount = refcount_invalid })
    else (false, m)

-- `msg_reserve` of a message without a parent, with the assertion.
pub msg_reserve : Message → Option Message
msg_reserve m = do
  assert (leb_ℤ (pos 0) (m.refcount +ℤ pos 1))
  some (record m { refcount = m.refcount +ℤ pos 1 })

-- `msg_release` of a message without a parent, with the assertion.
pub msg_release : Message → Option Message
msg_release m = do
  assert (ltb_ℤ (pos 0) m.refcount)
  some (record m { refcount = m.refcount -ℤ pos 1 })

-- `nchan_memstore_store_msg_ready_to_reap_generic`: NGX_OK or NGX_DECLINED, and the message.
pub store_msg_ready_to_reap_generic : ℤ → Bool → Bool → Message → Rc × Message
unfolding msg_refcount_invalidate_if_zero
store_msg_ready_to_reap_generic now respect_expire force m =
    if not force
    then if respect_expire && ltb_ℤ now m.expires
      then (ngx_declined, m)
      else (let (zero_count, m') = msg_refcount_invalidate_if_zero m in
          if zero_count then (ngx_ok, m') else (ngx_declined, m'))
    else (ngx_ok, record m { refcount = refcount_invalid })
