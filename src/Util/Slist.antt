-- ===== src/Util/Slist.antt =====
-- util/nchan_slist.c: a doubly linked list through link fields of the elements.
pub mod Correct
pub mod Ends
pub mod Transfer
use nchan.Prelude.{
  Bool, Option, assert, false, if◌then◌else◌, none, not, some, true, ℕ, ◌&&◌, ◌+◌, ◌-◌, ◌==◌, ◌>>=◌,
  ◌>>◌,
}
use nchan.Util.Links.{Links, is_null, points_to, set_next, set_next_of, set_prev, set_prev_of}

-- `nchan_slist_t`; the link fields at its offsets are those of the `Links` beside it.
pub record Slist : Type 0 where
  pub head : Option ℕ
  pub tail : Option ℕ
  pub n : ℕ

-- `n--` on `ngx_uint_t`
abbrev pub decrement : ℕ → ℕ
decrement n = if n == 0 then 18446744073709551615 else n - 1

-- `nchan_slist_reset`
slist_reset : Slist → Slist
slist_reset list = record { head = none; tail = none; n = 0 }

unfoldable pub append_links : Option ℕ → ℕ → Links → Links
append_links none el h = set_prev el none h
append_links (some tail) el h = set_next tail (some el) (set_prev el (some tail) h)

pub prepend_links : Option ℕ → ℕ → Links → Links
prepend_links none el h = set_next el none h
prepend_links (some head) el h = set_prev head (some el) (set_next el (some head) h)

-- `nchan_slist_append`
unfoldable pub slist_append : ℕ → Links × Slist → Links × Slist
unfolding append_links
slist_append el (h, list) = (
  set_next el none (append_links list.tail el h),
  record {
    head = if is_null list.head then some el else list.head;
    tail = some el;
    n = list.n + 1;
  },
)

-- `nchan_slist_prepend`
pub slist_prepend : ℕ → Links × Slist → Links × Slist
unfolding prepend_links
slist_prepend el (h, list) = (
  set_prev el none (prepend_links list.head el h),
  record {
    head = some el;
    tail = if is_null list.tail then some el else list.tail;
    n = list.n + 1;
  },
)

-- `nchan_slist_remove`
pub slist_remove : ℕ → Links × Slist → Links × Slist
slist_remove el (h, list) =
    let el_prev = h.prev el in
    let el_next = h.next el in
    (
      set_next el none
          (set_prev el none (set_prev_of el_next el_prev (set_next_of el_prev el_next h))),
      record {
        head = if points_to list.head el then el_next else list.head;
        tail = if points_to list.tail el then el_prev else list.tail;
        n = decrement list.n;
      },
    )

-- The writes of `nchan_slist_transfer`, from the last element of `dst` and the first and the last of
-- `src`. The pointer that the source calls `dst_tail_next_ptr` is the next link of the last element of `src`.
transfer_links : Option ℕ → Option ℕ → Option ℕ → Links → Option Links
transfer_links dst_tail none src_tail h = none
transfer_links none (some src_head) src_tail h = some (set_prev src_head none h)
transfer_links (some t) (some src_head) none h = none
transfer_links (some t) (some src_head) (some src_tail) h =
    some (set_next src_tail (some src_head) (set_prev src_head (some t) h))

-- `nchan_slist_transfer`, with the same offsets in both: the links, `*dst` and `*src`. `none` is a
-- failed assertion or a null pointer.
pub slist_transfer : Links → Slist → Slist → Option (Links × Slist × Slist)
unfolding transfer_links
slist_transfer h dst src =
    if src.n == 0
    then (do assert (is_null src.head && is_null src.tail); some (h, dst, src))
    else transfer_links dst.tail src.head src.tail h >>= λ h'. some (
      h',
      record {
        head = if is_null dst.head then src.head else dst.head;
        tail = src.tail;
        n = dst.n + src.n;
      },
      record { head = none; tail = none; n = 0 },
    )

-- `if(el) nchan_slist_remove(list, el)`
remove_if_any : Option ℕ → Links × Slist → Option ℕ × (Links × Slist)
unfolding slist_remove
remove_if_any none s = (none, s)
remove_if_any (some el) s = (some el, slist_remove el s)

-- `nchan_slist_shift`
pub slist_shift : Links × Slist → Option ℕ × (Links × Slist)
unfolding remove_if_any
slist_shift s = remove_if_any s.1.head s

-- `nchan_slist_pop`
pub slist_pop : Links × Slist → Option ℕ × (Links × Slist)
unfolding remove_if_any
slist_pop s = remove_if_any s.1.tail s

-- `nchan_slist_is_empty`, with its assertions
pub slist_is_empty : Slist → Option Bool
slist_is_empty list =
    if list.n == 0
    then (do assert (is_null list.head && is_null list.tail); some true)
    else (do assert (not (is_null list.head) && not (is_null list.tail)); some false)
