-- ===== src/Util/TimeQueue.antt =====
-- The queue of times in pages, util/nchan_timequeue.c. The pages from `first` to `last` and those on
-- `standby`, which only the functions here link, are sequences.
pub mod Slices
pub mod Correct
pub mod Fifo
pub mod Dequeue
mod Tests
use nchan.Prelude.{
  Bool, List, Option, false, get_elem?, if◌then◌else◌, leb, none, not, set, some, suc, true, ℕ, [],
  ◌%◌, ◌&&◌, ◌++◌, ◌==◌, ◌>>=◌, ◌^◌, ◌∷◌,
}
use nchan.Prelude.Int.{eqb_ℤ, ℤ}

-- `nchan_timequeue_time_t`
pub record Item : Type 0 where
  pub time_start : ℕ
  pub tag : ℤ

-- `nchan_timequeue_page_t`, with `items_per_page` slots.
pub record Page : Type 0 where
  pub start : ℕ
  pub end : ℕ
  pub slots : List Item

-- `nchan_timequeue_t`: `front` are the pages from `first` up to `last`, without it.
pub record TimeQueue : Type 0 where
  pub items_per_page : ℕ
  pub anytag : ℤ
  pub front : List Page
  pub last : Page
  pub standby : List Page

-- `timequeue_page_reset`
abbrev pub page_reset : Page → Page
page_reset p = record p { start = 0; end = 0 }

-- `timequeue_page_alloc`: nothing without memory, and else a page with what the memory holds.
abbrev pub page_alloc : Option (List Item) → Option Page
page_alloc none = none
page_alloc (some slots) = some (record { start = 0; end = 0; slots = slots })

abbrev pub link : TimeQueue → Page → TimeQueue
link pq nextpage = record pq { front = pq.front ++ pq.last ∷ []; last = nextpage }

abbrev pub link_alloc : TimeQueue → Option Page → Option TimeQueue
link_alloc pq none = none
link_alloc pq (some nextpage) = some (link pq nextpage)

abbrev pub next_page : Option (List Item) → TimeQueue → List Page → Option TimeQueue
next_page memory pq [] = link_alloc pq (page_alloc memory)
next_page memory pq (nextpage ∷ standby) = some (link (record pq { standby = standby }) nextpage)

-- `timequeue_page_enqueue`
pub page_enqueue : Option (List Item) → TimeQueue → Option TimeQueue
page_enqueue memory pq = next_page memory pq pq.standby

-- `timequeue_get_nonfull_page`: the queue with that page as its last.
pub get_nonfull_page : Option (List Item) → TimeQueue → Option TimeQueue
unfolding page_enqueue
get_nonfull_page memory pq =
    if leb pq.items_per_page pq.last.end then page_enqueue memory pq else some pq

abbrev pub put : Item → TimeQueue → TimeQueue
put item pq = record pq {
  last = record (pq.last) {
    slots = set pq.last.slots pq.last.end item;
    end = suc pq.last.end % 2 ^ 16;
  };
}

abbrev pub put_on : TimeQueue → Item → Option TimeQueue → Bool × TimeQueue
put_on pq item none = (false, pq)
put_on pq item (some pq') = (true, put item pq')

-- `nchan_timequeue_queue` at the time `now`: whether it did, and the queue.
pub timequeue_queue : Option (List Item) → ℕ → ℤ → TimeQueue → Bool × TimeQueue
unfolding get_nonfull_page
timequeue_queue memory now tag pq =
    put_on pq (record { time_start = now; tag = tag }) (get_nonfull_page memory pq)

abbrev pub first : List Page → Page → Page
first [] last = last
first (p ∷ ps) last = p

abbrev pub started : Page → Page
started p = record p { start = suc p.start % 2 ^ 16 }

-- `page->start++`, on the first page, and the page is reset when nothing is left on it.
abbrev pub advance : TimeQueue → List Page → TimeQueue
advance pq [] =
    if leb pq.last.end (started pq.last).start
    then record pq { last = page_reset (started pq.last) }
    else record pq { last = started pq.last }
advance pq (p ∷ ps) =
    if leb p.end (started p).start
    then record pq { front = ps; standby = page_reset (started p) ∷ pq.standby }
    else record pq { front = started p ∷ ps }

-- `nchan_timequeue_dequeue`: whether it did, what was written to `dequeued`, and the queue. `none`
-- is a read outside the slots.
pub timequeue_dequeue : ℤ → TimeQueue → Option (Bool × Item × TimeQueue)
timequeue_dequeue expected_tag pq =
    let page = first pq.front pq.last in
    if page.start == page.end && page.start == 0
    then some (false, record { time_start = 0; tag = pq.anytag }, pq)
    else (do
      item ← get_elem? page.slots page.start
      some (
          if not (eqb_ℤ expected_tag item.tag) && not (eqb_ℤ expected_tag pq.anytag)
          then (false, item, pq)
          else (true, item, advance pq pq.front)))

-- `nchan_timequeue_init`
pub timequeue_init : ℕ → ℤ → Option (List Item) → Option TimeQueue
timequeue_init items_per_page anytag memory = elim (page_alloc memory) [
  | none ↦ none
  | some p ↦ some (record {
    items_per_page = items_per_page;
    anytag = anytag;
    front = [];
    last = p;
    standby = [];
  })
]
