-- ===== src/Util/TimeQueue/Correct.antt =====
-- The pages of a time queue hold a sequence, and queueing puts an item at its end.
use nchan.Prelude.Int.{ℤ}
use nchan.Prelude.{
  All, All-append, Bool-cases, List, Option, ap, append-nil, append_assoc, arith, inl, inr, leb,
  leb→le, length, length-set, refl, set, some, subst, suc, sym, true, ℕ, [], ◌%◌, ◌++◌, ◌<◌, ◌^◌,
  ◌∙◌, ◌∷◌, ◌≡◌, ◌≤◌, ◌⊎◌,
}
use nchan.Util.TimeQueue.{
  Item, Page, TimeQueue, get_nonfull_page, link, link_alloc, next_page, page_alloc, page_enqueue,
  put, put_on, timequeue_queue,
}
use nchan.Util.TimeQueue.Slices.{slice, slice-empty, slice-push}

abbrev pub items : Page → List Item
items p = slice p.start p.end p.slots

abbrev pub items_of : List Page → List Item
items_of [] = []
items_of (p ∷ ps) = items p ++ items_of ps

abbrev pub contents : TimeQueue → List Item
contents pq = items_of pq.front ++ items pq.last

-- A page between the first and the last, the last one, and one on standby.
abbrev pub IsFilled : ℕ → Page → Type 0
IsFilled n p = (p.start < p.end) × (p.end ≤ n) × (length p.slots ≡ n)

abbrev pub IsLast : ℕ → Page → Type 0
IsLast n p =
    ((p.start < p.end) ⊎ ((p.start ≡ 0) × (p.end ≡ 0))) × (p.end ≤ n) × (length p.slots ≡ n)

abbrev pub IsReset : ℕ → Page → Type 0
IsReset n p = (p.start ≡ 0) × (p.end ≡ 0) × (length p.slots ≡ n)

pub record IsValid (pq : TimeQueue) : Type 0 where
  pub sized : (1 ≤ pq.items_per_page) × (pq.items_per_page ≤ 65535)
  pub front : All (IsFilled pq.items_per_page) pq.front
  pub last : IsLast pq.items_per_page pq.last
  pub standby : All (IsReset pq.items_per_page) pq.standby

items_of-append : (ps : List Page) (p : Page) → items_of (ps ++ p ∷ []) ≡ items_of ps ++ items p
items_of-append [] p = append-nil (items p)
items_of-append (q ∷ ps) p =
    ap (λ l. items q ++ l) (items_of-append ps p)
    ∙ sym (append_assoc (items q) (items_of ps) (items p))

-- The last page has room for one more.
record HasRoom (n : ℕ) (p : Page) : Type 0 where
  ordered : p.start ≤ p.end
  room : p.end < n
  size : length p.slots ≡ n

items-IsReset : (n : ℕ) (p : Page) → IsReset n p → items p ≡ []
items-IsReset n p (start, end, size) = slice-empty p.slots p.start p.end (omega arith)

-- The contents of the queue, with the limits that each of its pages keeps.
pub record IsQueue (pq pq' : TimeQueue) (xs : List Item) : Type 0 where
  pub same : pq'.items_per_page ≡ pq.items_per_page
  pub tag : pq'.anytag ≡ pq.anytag
  pub valid : IsValid pq'
  pub holds : contents pq' ≡ xs

put-IsQueue :
    (pq : TimeQueue) (x : Item)
    → (1 ≤ pq.items_per_page) × (pq.items_per_page ≤ 65535)
    → All (IsFilled pq.items_per_page) pq.front
    → HasRoom pq.items_per_page pq.last
    → All (IsReset pq.items_per_page) pq.standby
    → IsQueue pq (put x pq) (contents pq ++ x ∷ [])
put-IsQueue pq x sized front has standby = record {
  same = refl;
  tag = refl;
  valid = record {
    sized = sized;
    front = front;
    last = (
      inl (omega (arith, unwrapped, has.ordered)),
      omega (arith, unwrapped, has.room),
      length-set pq.last.slots pq.last.end x ∙ has.size,
    );
    standby = standby;
  };
  holds =
      ap (λ l. items_of pq.front ++ l)
        (ap (λ e. slice pq.last.start e (set pq.last.slots pq.last.end x)) unwrapped
          ∙ slice-push pq.last.slots pq.last.start pq.last.end x has.ordered
              (omega (arith, has.room, has.size)))
      ∙ sym (append_assoc (items_of pq.front) (items pq.last) (x ∷ []));
}
  where
    unwrapped : suc pq.last.end % 2 ^ 16 ≡ suc pq.last.end
    unwrapped = omega (arith, has.room, sized.1)

-- The queue has its page on standby, or memory for one with all its slots.
abbrev pub CanGrow : Option (List Item) → TimeQueue → Type 0
CanGrow memory pq =
    ((p : Page) × (ps : List Page) × (pq.standby ≡ p ∷ ps))
    ⊎ ((slots : List Item) × (memory ≡ some slots) × (length slots ≡ pq.items_per_page))

link-IsQueue :
    (pq : TimeQueue) (p : Page) (standby : List Page) (x : Item)
    → IsValid pq
    → pq.items_per_page ≤ pq.last.end
    → IsReset pq.items_per_page p
    → All (IsReset pq.items_per_page) standby
    → IsQueue pq (put x (link (record pq { standby = standby }) p)) (contents pq ++ x ∷ [])
link-IsQueue pq p standby x wf full reset rest =
    let grown =
      put-IsQueue (link (record pq { standby = standby }) p) x wf.sized
        (All-append (IsFilled pq.items_per_page) pq.front (pq.last ∷ []) wf.front (filled, tt))
        (record { ordered = omega arith; room = omega (arith, wf.sized.0); size = reset.2 }) rest in
    record {
      same = refl;
      tag = refl;
      valid = grown.valid;
      holds =
          grown.holds
          ∙ ap (λ l. l ++ x ∷ [])
              (ap (λ l. items_of (pq.front ++ pq.last ∷ []) ++ l)
                  (items-IsReset pq.items_per_page p reset)
                ∙ append-nil (items_of (pq.front ++ pq.last ∷ []))
                ∙ items_of-append pq.front pq.last);
    }
  where
    filled : IsFilled pq.items_per_page pq.last
    filled = (ground (arith, wf.last.0, wf.sized.0), wf.last.1, wf.last.2)

grow :
    (memory : Option (List Item)) (pq : TimeQueue) (x : Item)
    → IsValid pq
    → pq.items_per_page ≤ pq.last.end
    → CanGrow memory pq
    → (pq' : TimeQueue) × (page_enqueue memory pq ≡ some pq')
      × IsQueue pq (put x pq') (contents pq ++ x ∷ [])
unfolding page_enqueue
grow memory pq x wf full (inl (p, ps, e)) =
    let resets = subst (All (IsReset pq.items_per_page)) e wf.standby in
    (
      link (record pq { standby = ps }) p,
      ap (next_page memory pq) e,
      link-IsQueue pq p ps x wf full resets.0 resets.1,
    )
grow memory pq x wf full (inr (slots, e, size)) = at_standby pq.standby refl
  where
    at_standby :
        (ps : List Page)
        → pq.standby ≡ ps
        → (pq' : TimeQueue) × (next_page memory pq ps ≡ some pq')
          × IsQueue pq (put x pq') (contents pq ++ x ∷ [])
    at_standby [] none_left = (
      link pq (record { start = 0; end = 0; slots = slots }),
      ap (λ m. link_alloc pq (page_alloc m)) e,
      link-IsQueue pq (record { start = 0; end = 0; slots = slots }) pq.standby x wf full
          (refl, refl, size) wf.standby,
    )
    at_standby (p ∷ ps) more =
        let resets = subst (All (IsReset pq.items_per_page)) more wf.standby in
        (
          link (record pq { standby = ps }) p,
          refl,
          link-IsQueue pq p ps x wf full resets.0 resets.1,
        )

-- With a page on standby or memory for one, an item is put behind those that are held.
pub timequeue_queue-IsQueue :
    (memory : Option (List Item)) (now : ℕ) (tag : ℤ) (pq : TimeQueue)
    → IsValid pq
    → CanGrow memory pq
    → (pq' : TimeQueue) × (timequeue_queue memory now tag pq ≡ (true, pq'))
      × IsQueue pq pq' (contents pq ++ record { time_start = now; tag = tag } ∷ [])
unfolding timequeue_queue get_nonfull_page
timequeue_queue-IsQueue memory now tag pq wf can =
    let item : Item = record { time_start = now; tag = tag } in
    elim (Bool-cases (leb pq.items_per_page pq.last.end)) [
      | inl full ↦
          (let (pq', enqueued, queue) = grow memory pq item wf (leb→le _ _ full) can in
            (put item pq', rw full (ap (put_on pq item) enqueued), queue))
      | inr room ↦ (
        put item pq,
        rw room refl,
        put-IsQueue pq item wf.sized wf.front
            (record { ordered = ground (arith, wf.last.0); room = ground arith; size = wf.last.2 })
            wf.standby,
      )
    ]
