-- ===== src/Util/Reaper/Waiting.antt =====
-- Adding a thing to the reaper and withdrawing it.
use nchan.Prelude.{
  Bool, List, Option, ap, arith, false, if◌then◌else◌, length-append, ltb, lt→ltb, none, refl, some,
  subst, sym, true, ℕ, [], ◌++◌, ◌∙◌, ◌∷◌, ◌≡◌,
}
use nchan.Util.Links.{Links, set_next, set_next_of, set_prev, set_prev_of}
use nchan.Util.Links.Segment.{
  IsSegment, NotIn, assign_self, first_or, last_or, last_or-append, set_next-IsSegment,
  set_prev-IsSegment,
}
use nchan.Util.Links.Edit.{IsSegment-append, IsSegment-unlink, Nodup-split}
use nchan.Util.Slist.Correct.{
  Holds, Nodup-append, Nodup-remove, NotIn-append, NotIn-flip, is_null-first, new_head, new_tail,
}
use nchan.Util.Reaper.{Reaper, reaper_add, reaper_withdraw}
use nchan.Util.Reaper.Sweep.{waiting}

-- A thing that is ready is reaped at once and the list stays; another one is put at its end, and nothing is reaped.
pub reaper_add-Holds :
    (is_ready : Bool) (thing : ℕ) (h : Links) (rp : Reaper) (xs : List ℕ)
    → Holds (waiting (h, rp)) xs
    → NotIn thing xs
    → Holds
        (waiting (reaper_add is_ready thing (h, rp)))
        (if is_ready then xs else xs ++ thing ∷ [])
      × ((reaper_add is_ready thing (h, rp)).1.reaped
          ≡ (if is_ready then rp.reaped ++ thing ∷ [] else rp.reaped))
unfolding reaper_add
reaper_add-Holds true thing h rp xs r n = (
  record {
    head = r.head;
    tail = r.tail;
    counted = r.counted;
    linked = r.linked;
    distinct = r.distinct;
  },
  refl,
)
reaper_add-Holds false thing h rp xs r n = (
  record {
    head = rw r.head (is_null-first xs thing);
    tail = sym (last_or-append xs (thing ∷ []) none);
    counted = omega (arith, r.counted, length-append xs (thing ∷ []));
    linked =
        subst (λ k. IsSegment (set_next thing none k) none (xs ++ thing ∷ []) none)
          (sym (swap (last_or xs none))
            ∙ ap (λ t. set_prev thing t (set_next_of t (some thing) h)) (sym r.tail))
          (IsSegment-append h xs thing none r.linked r.distinct n);
    distinct = Nodup-append xs (thing ∷ []) r.distinct (tt, tt) (NotIn-flip thing xs n);
  },
  refl,
)
  where
    swap :
        (t : Option ℕ)
        → set_prev thing t (set_next_of t (some thing) h)
          ≡ set_next_of t (some thing) (set_prev thing t h)
    swap none = refl
    swap (some t) = refl

-- A thing that waits can be withdrawn from anywhere in the list: the assertion holds, its links are cleared, and
-- nothing is reaped.
pub reaper_withdraw-Holds :
    (h : Links) (rp : Reaper) (ls : List ℕ) (thing : ℕ) (rs : List ℕ)
    → Holds (waiting (h, rp)) (ls ++ thing ∷ rs)
    → (s' : Links × Reaper) × (reaper_withdraw thing (h, rp) ≡ some s')
      × Holds (waiting s') (ls ++ rs)
      × (s'.0.prev thing ≡ none)
      × (s'.0.next thing ≡ none)
      × (s'.1.reaped ≡ rp.reaped)
unfolding reaper_withdraw
reaper_withdraw-Holds h rp ls thing rs r =
    let (before, after, joined) = IsSegment-unlink h ls thing rs r.linked r.distinct in
    let (dl, dr, nl, nr, apart) = Nodup-split ls thing rs r.distinct in
    let away = NotIn-append thing ls rs nl nr in
    let h2 =
      set_prev_of (first_or rs none) (last_or ls none)
        (set_next_of (last_or ls none) (first_or rs none) h) in
    let positive : ltb 0 rp.count ≡ true =
      lt→ltb 0 rp.count (omega (arith, r.counted, length-append ls (thing ∷ rs))) in
    rw (before, after, positive)
      (
        _,
        refl,
        record {
          head = rw r.head (new_head ls thing rs nl);
          tail = rw r.tail (new_tail ls thing rs nr);
          counted = omega (arith, r.counted, length-append ls (thing ∷ rs), length-append ls rs);
          linked =
              set_prev-IsSegment (set_next thing none h2) thing none none (ls ++ rs) none away
                (set_next-IsSegment h2 thing none none (ls ++ rs) none away joined);
          distinct = Nodup-remove ls thing rs r.distinct;
        },
        assign_self h2.prev thing none,
        assign_self h2.next thing none,
        refl,
      )
