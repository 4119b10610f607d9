-- ===== src/Util/LinkedList.antt =====
-- util/nchan_list.c: a doubly linked list that allocates its elements. The number of an element is the
-- address that the allocator gives.
pub mod Correct
use nchan.Prelude.{
  Bool, List, Option, false, if◌then◌else◌, none, some, suc, zero, ℕ, [], ◌+◌, ◌||◌, ◌∷◌,
}
use nchan.Util.Links.{Links, is_null, points_to, set_next, set_next_of, set_prev, set_prev_of}
use nchan.Util.Slist.{decrement}

-- `nchan_list_t`, without the sizes; `pooled` is whether it has a pool.
pub record LinkedList : Type 0 where
  pub head : Option ℕ
  pub tail : Option ℕ
  pub n : ℕ
  pub pooled : Bool

-- `nchan_list_pool_init`
unfoldable pub list_pool_init : LinkedList
list_pool_init = record { head = none; tail = none; n = 0; pooled = false }

-- `nchan_list_append_sized`, when the allocator gives `el`
pub list_append_sized : ℕ → Bool → Links × LinkedList → Links × LinkedList
list_append_sized el pool_sz (h, list) = (
  set_next el none (set_prev el list.tail (set_next_of list.tail (some el) h)),
  record {
    head = if is_null list.head then some el else list.head;
    tail = some el;
    n = list.n + 1;
    pooled = list.pooled || pool_sz;
  },
)

-- `nchan_list_prepend_sized`. Where there is no tail, the source sets the head again.
pub list_prepend_sized : ℕ → Links × LinkedList → Links × LinkedList
list_prepend_sized el (h, list) = (
  set_next el list.head (set_prev el none (set_prev_of list.head (some el) h)),
  record { head = some el; tail = list.tail; n = list.n + 1; pooled = list.pooled },
)

-- `nchan_list_remove`; the element is freed.
pub list_remove : ℕ → Links × LinkedList → Links × LinkedList
list_remove el (h, list) =
    let h1 = set_next_of (h.prev el) (h.next el) h in
    let h2 = set_prev_of (h1.next el) (h1.prev el) h1 in
    (
      h2,
      record {
        head = if points_to list.head el then h2.next el else list.head;
        tail = if points_to list.tail el then h2.prev el else list.tail;
        n = decrement list.n;
        pooled = list.pooled;
      },
    )

-- The loop of `nchan_list_traverse_and_empty`, for a callback that does not write the links: the
-- elements that it is called with, for at most the given number of rounds.
pub traverse : ℕ → Links → Option ℕ → List ℕ
traverse zero h el = []
traverse (suc rounds) h none = []
traverse (suc rounds) h (some el) = el ∷ traverse rounds h (h.next el)

-- `nchan_list_traverse_and_empty`: the elements visited, and the list, which is emptied first. There
-- are at most `n` rounds that have an element.
pub list_traverse_and_empty : Links × LinkedList → List ℕ × LinkedList
list_traverse_and_empty (h, list) =
    (traverse (list.n + 1) h list.head, record { head = none; tail = none; n = 0; pooled = false })
