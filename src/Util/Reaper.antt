-- ===== src/Util/Reaper.antt =====
-- util/nchan_reaper.c: things that wait in a linked list until they are ready to be reaped.
pub mod Sweep
pub mod Waiting
use nchan.Prelude.{
  Bool, List, Option, assert, if◌then◌else◌, leb, ltb, none, not, some, suc, true, zero, ℕ, [],
  ◌&&◌, ◌++◌, ◌+◌, ◌-◌, ◌==◌, ◌>>=◌, ◌>>◌, ◌∷◌,
}
use nchan.Util.Links.{Links, is_null, points_to, set_next, set_next_of, set_prev, set_prev_of}

-- `nchan_reaper_strategy_t`
pub data Strategy : Type 0 where
  rescan rotate keep_place : Strategy

-- `nchan_reaper_t`. `reaped` lists the things that `reap` was called with, in order.
pub record Reaper : Type 0 where
  pub count : ℕ
  pub first : Option ℕ
  pub last : Option ℕ
  pub strategy : Strategy
  pub position : Option ℕ
  pub reaped : List ℕ

-- `nchan_reaper_start`
reaper_start : Reaper
reaper_start = record {
  count = 0;
  first = none;
  last = none;
  strategy = rescan;
  position = none;
  reaped = [];
}

-- `rp->strategy == KEEP_PLACE && rp->position == thing ? next : rp->position`
abbrev pub moved_position : Strategy → Option ℕ → ℕ → Option ℕ → Option ℕ
moved_position keep_place position thing next = if points_to position thing then next else position
moved_position strategy position thing next = position

-- `nchan_reaper_add`, with what `ready(thing, 0)` answers
pub reaper_add : Bool → ℕ → Links × Reaper → Links × Reaper
reaper_add is_ready thing (h, rp) =
    if is_ready then (h, record rp { reaped = rp.reaped ++ thing ∷ [] }) else (
      set_next thing none (set_prev thing rp.last (set_next_of rp.last (some thing) h)),
      record rp {
        first = if is_null rp.first then some thing else rp.first;
        last = some thing;
        count = rp.count + 1;
      },
    )

-- `nchan_reaper_withdraw`, with its assertion
pub reaper_withdraw : ℕ → Links × Reaper → Option (Links × Reaper)
reaper_withdraw thing (h, rp) =
    let prev = h.prev thing in
    let next = h.next thing in
    assert (ltb 0 rp.count)
    >> some (
      set_prev thing none (set_next thing none (set_prev_of next prev (set_next_of prev next h))),
      record rp {
        first = if points_to rp.first thing then next else rp.first;
        last = if points_to rp.last thing then prev else rp.last;
        count = rp.count - 1;
        position = moved_position rp.strategy rp.position thing next;
      },
    )

-- `assert(prev != next)`, if both are not null
abbrev pub differ : Option ℕ → Option ℕ → Bool
differ (some p) (some q) = not (p == q)
differ (some p) none = true
differ none q = true

-- `reap_ready_thing`, with its assertions
pub reap_ready_thing : ℕ → Option ℕ → Links × Reaper → Option (Links × Reaper)
reap_ready_thing cur next (h, rp) =
    let prev = h.prev cur in
    assert
      (differ prev next && not (points_to prev cur) && not (points_to next cur) && ltb 0 rp.count)
    >> some (
      set_prev_of next prev (set_next_of prev next h),
      record rp {
        first = if points_to rp.first cur then next else rp.first;
        last = if points_to rp.last cur then prev else rp.last;
        position = moved_position rp.strategy rp.position cur next;
        count = rp.count - 1;
        reaped = rp.reaped ++ cur ∷ [];
      },
    )

-- The loop of `its_reaping_time`, for at most the given number of things, with the answers of `ready`.
pub reaping_loop : (ℕ → Bool) → ℕ → ℕ → Option ℕ → ℕ → Links × Reaper → Option (Links × Reaper)
unfolding reap_ready_thing
reaping_loop ready max_notready zero cur notready s = none
reaping_loop ready max_notready (suc rounds) none notready s = some s
reaping_loop ready max_notready (suc rounds) (some cur) notready s =
    let next = s.0.next cur in
    let after_reaping =
      reap_ready_thing cur next s >>= reaping_loop ready max_notready rounds next notready in
    let after_skipping =
      reaping_loop ready max_notready rounds next
        (if ltb 0 max_notready then notready + 1 else notready) s in
    if leb notready max_notready
    then if ready cur then after_reaping else after_skipping
    else some s

-- `its_reaping_time`. `max_notready` is `max_notready_ratio * count`, as an int; the list holds `count` things.
pub its_reaping_time : (ℕ → Bool) → ℕ → Links × Reaper → Option (Links × Reaper)
unfolding reaping_loop
its_reaping_time ready max_notready s =
    reaping_loop ready max_notready (s.1.count + 1) s.1.first 0 s
