-- ===== src/Memstore/Groups/Limits/Admitted.antt =====
-- Which subscribers the checks of store/memory/memstore.c admit, and how that compares with what
-- may be published.
use nchan.Prelude.{
  Bool, List, arith, false, if◌then◌else◌, not, refl, some, true, [], ◌&&◌, ◌++◌, ◌||◌, ◌∷◌, ◌≡◌,
}
use nchan.Prelude.Int.{eqb_ℤ, ltb_ℤ, pos, ◌+ℤ◌}
use nchan.Memstore.Groups.{Group}
use nchan.Memstore.Groups.Limits.{
  Limits, Stores, SubscribeCall, continue_authorized, continue_unauthorized, free_data,
  group_subscribe_accounting_check, group_subscribe_channel_limit_check,
  group_subscribe_channel_limit_reached, release_chanhead, release_if, release_subscriber,
  respond_forbidden, spooler_add,
}
use nchan.Memstore.Groups.Limits.Respected.{within, within-suc}

-- Whether the subscriber goes on to the channel, and whether it is added to it.
abbrev pub authorizes : List SubscribeCall → Bool
authorizes [] = false
authorizes (continue_authorized ∷ cs) = true
authorizes (continue_unauthorized ∷ cs) = authorizes cs
authorizes (spooler_add ∷ cs) = authorizes cs
authorizes (respond_forbidden ∷ cs) = authorizes cs
authorizes (release_subscriber ∷ cs) = authorizes cs
authorizes (release_chanhead ∷ cs) = authorizes cs
authorizes (free_data ∷ cs) = authorizes cs

abbrev pub adds : List SubscribeCall → Bool
adds [] = false
adds (spooler_add ∷ cs) = true
adds (continue_authorized ∷ cs) = adds cs
adds (continue_unauthorized ∷ cs) = adds cs
adds (respond_forbidden ∷ cs) = adds cs
adds (release_subscriber ∷ cs) = adds cs
adds (release_chanhead ∷ cs) = adds cs
adds (free_data ∷ cs) = adds cs

add_tests :
    (ok ready alive reserved : Bool)
    → adds (
        (if ready && alive then if ok then spooler_add ∷ [] else respond_forbidden ∷ [] else [])
        ++ (if reserved then release_subscriber ∷ [] else [])
        ++ release_chanhead ∷ free_data ∷ [])
      ≡ true
    → ok ≡ true
add_tests true ready alive reserved h = refl
add_tests false true true true h = ground arith
add_tests false true true false h = ground arith
add_tests false true false true h = ground arith
add_tests false true false false h = ground arith
add_tests false false alive true h = ground arith
add_tests false false alive false h = ground arith

authorize_tests :
    (ok none_left alive reserved : Bool)
    → authorizes (
        if alive
        then if ok
          then continue_authorized ∷ []
          else if none_left
          then group_subscribe_channel_limit_reached alive reserved false
          else continue_unauthorized ∷ []
        else (if reserved then release_subscriber ∷ [] else []) ++ free_data ∷ [])
      ≡ true
    → ok ≡ true
unfolding group_subscribe_channel_limit_reached release_if
authorize_tests true none_left alive reserved h = refl
authorize_tests false true true true h = ground arith
authorize_tests false true true false h = ground arith
authorize_tests false false true reserved h = ground arith
authorize_tests false none_left false true h = ground arith
authorize_tests false none_left false false h = ground arith

-- A subscriber is added to its channel only where the group's subscribers, with one more, are within
-- their limit.
pub group_subscribe-within :
    (limit : Limits) (g : Group) (ready alive reserved : Bool)
    → adds (group_subscribe_accounting_check limit (some g) ready alive reserved) ≡ true
    → within limit.subscribers (g.subscribers +ℤ pos 1) ≡ true
unfolding group_subscribe_accounting_check release_if
group_subscribe-within limit g ready alive reserved h = within-suc limit.subscribers g.subscribers (
    add_tests (eqb_ℤ limit.subscribers (pos 0) || ltb_ℤ g.subscribers limit.subscribers) ready alive
      reserved h)

-- A subscriber whose channel was not found is let on only where the group's channels, with one more,
-- are within their limit.
pub group_subscribe-authorized_within :
    (limit : Limits) (g : Group) (alive reserved : Bool)
    → authorizes (group_subscribe_channel_limit_check limit (some g) alive reserved false) ≡ true
    → within limit.channels (g.channels +ℤ pos 1) ≡ true
unfolding group_subscribe_channel_limit_check release_if
group_subscribe-authorized_within limit g alive reserved h = within-suc limit.channels g.channels (
    authorize_tests (eqb_ℤ limit.channels (pos 0) || ltb_ℤ g.channels limit.channels)
      (not (eqb_ℤ limit.channels (pos 0)) && eqb_ℤ g.channels limit.channels) alive reserved h)

abbrev pub channel_exists : Bool → Bool → Stores
channel_exists exists declined = record { chanhead = exists; found = exists; declined = declined }
