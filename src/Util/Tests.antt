-- ===== src/Util/Tests.antt =====
-- Runs of the lists, the reaper and the channel ids, and uses of their theorems.
use nchan.Prelude.{
  Bool, List, arith, false, if◌then◌else◌, length, none, refl, some, ℕ, [], ◌%◌, ◌==◌, ◌∷◌, ◌≡◌,
  ◌≢◌, ◌≤◌,
}
use nchan.Util.Links.{Links}
use nchan.Util.Links.Segment.{IsSegment, Nodup, NotIn}
use nchan.Util.Slist.{Slist, slist_remove, slist_transfer}
use nchan.Util.Slist.Correct.{Holds, slist_remove-Holds}
use nchan.Util.Slist.Transfer.{slist_transfer-loses}
use nchan.Util.LinkedList.{LinkedList, list_pool_init, list_traverse_and_empty}
use nchan.Util.LinkedList.Correct.{
  Loses, as_slist, list_prepend_sized-Loses, list_traverse_and_empty-Holds,
}
use nchan.Util.Reaper.{Reaper, its_reaping_time, reaper_withdraw, rescan}
use nchan.Util.Reaper.Sweep.{its_reaping_time-sweep, waiting}
use nchan.Util.Reaper.Waiting.{reaper_withdraw-Holds}
use nchan.Util.ChannelId.{
  channel_id, count_channel_id, gather, get_group_from_channel_id, parse_multi_id, split_id,
  strsplit, validate_id, value_parts,
}
use nchan.Util.ChannelId.RoundTrip.{get_group_from_channel_id-channel_id, parse_multi_id-channel_id}
use nchan.Util.ChannelId.SplitId.{split_id-short}
use nchan.Util.ChannelId.Gather.{gather-bounded}

-- Elements 1, 2 and 3 in a row, and 7 by itself.
abbrev links : Links
links = record {
  prev = λ x. if x == 2 then some 1 else if x == 3 then some 2 else none;
  next = λ x. if x == 1 then some 2 else if x == 2 then some 3 else none;
}

abbrev three : Slist
three = record { head = some 1; tail = some 3; n = 3 }

abbrev seven : Slist
seven = record { head = some 7; tail = some 7; n = 1 }

abbrev nothing : Slist
nothing = record { head = none; tail = none; n = 0 }

ne : {n m : ℕ} → (n == m) ≡ false → n ≢ m
ne h e = ground arith

distinct_three : Nodup (1 ∷ 2 ∷ 3 ∷ [])
distinct_three = ((ne refl, (ne refl, tt)), ((ne refl, tt), (tt, tt)))

three-Holds : Holds (links, three) (1 ∷ 2 ∷ 3 ∷ [])
three-Holds = record {
  head = refl;
  tail = refl;
  counted = refl;
  linked = (refl, refl, (refl, refl, (refl, refl, tt)));
  distinct = distinct_three;
}

seven-Holds : Holds (links, seven) (7 ∷ [])
seven-Holds = record {
  head = refl;
  tail = refl;
  counted = refl;
  linked = (refl, refl, tt);
  distinct = (tt, tt);
}

nothing-Holds : Holds (links, nothing) []
nothing-Holds = record { head = refl; tail = refl; counted = refl; linked = tt; distinct = tt }

absent : NotIn 7 (1 ∷ 2 ∷ 3 ∷ [])
absent = (ne refl, (ne refl, (ne refl, tt)))

slist_remove-Holds_example :
    Holds (slist_remove 2 (links, three)) (1 ∷ 3 ∷ [])
    × ((slist_remove 2 (links, three)).0.prev 2 ≡ none)
    × ((slist_remove 2 (links, three)).0.next 2 ≡ none)
slist_remove-Holds_example = slist_remove-Holds links three (1 ∷ []) 2 (3 ∷ []) three-Holds

slist_transfer-loses_example :
    (h' : Links) × (dst' : Slist) × (src' : Slist) × (slist_transfer links three seven
      ≡ some (h', dst', src'))
    × (dst'.head ≡ some 1)
    × IsSegment h' none (1 ∷ 2 ∷ 3 ∷ []) none
    × (dst'.n ≡ 4)
    × (dst'.tail ≡ some 7)
slist_transfer-loses_example =
    slist_transfer-loses links three seven 1 (2 ∷ 3 ∷ []) 7 [] three-Holds seven-Holds
      ((ne refl, (ne refl, (ne refl, tt))), tt)

abbrev linked : LinkedList
linked = record { head = some 1; tail = some 3; n = 3; pooled = false }

linked-Holds : Holds (as_slist (links, linked)) (1 ∷ 2 ∷ 3 ∷ [])
linked-Holds = three-Holds

list_traverse_and_empty-Holds_example :
    ((list_traverse_and_empty (links, linked)).0 ≡ 1 ∷ 2 ∷ 3 ∷ [])
    × Holds (as_slist (links, (list_traverse_and_empty (links, linked)).1)) []
list_traverse_and_empty-Holds_example =
    list_traverse_and_empty-Holds links linked (1 ∷ 2 ∷ 3 ∷ []) linked-Holds

list_pool_init-Holds : Holds (as_slist (links, list_pool_init)) []
unfolding list_pool_init
list_pool_init-Holds = nothing-Holds

list_prepend_sized-Loses_example : Loses 7 8 false links list_pool_init
list_prepend_sized-Loses_example =
    list_prepend_sized-Loses 7 8 false links list_pool_init list_pool_init-Holds (ne refl)

abbrev reaper : Reaper
reaper = record {
  count = 3;
  first = some 1;
  last = some 3;
  strategy = rescan;
  position = none;
  reaped = [];
}

abbrev odd : ℕ → Bool
odd x = x % 2 == 1

its_reaping_time-sweep_example :
    (s' : Links × Reaper) × (its_reaping_time odd 0 (links, reaper) ≡ some s')
    × Holds (waiting s') (2 ∷ [])
    × (s'.1.reaped ≡ 1 ∷ 3 ∷ [])
its_reaping_time-sweep_example =
    its_reaping_time-sweep odd 0 links reaper (1 ∷ 2 ∷ 3 ∷ []) three-Holds

reaper_withdraw-Holds_example :
    (s' : Links × Reaper) × (reaper_withdraw 2 (links, reaper) ≡ some s')
    × Holds (waiting s') (1 ∷ 3 ∷ [])
    × (s'.0.prev 2 ≡ none)
    × (s'.0.next 2 ≡ none)
    × (s'.1.reaped ≡ [])
reaper_withdraw-Holds_example = reaper_withdraw-Holds links reaper (1 ∷ []) 2 (3 ∷ []) three-Holds

-- The group "g" and the ids "a" and "b".
abbrev two_ids : List (List ℕ)
two_ids = (97 ∷ []) ∷ (98 ∷ []) ∷ []

parse_multi_id-channel_id_example :
    (parse_multi_id (channel_id (103 ∷ []) two_ids)
      ≡ (103 ∷ 47 ∷ 97 ∷ []) ∷ (103 ∷ 47 ∷ 98 ∷ []) ∷ [])
    × (count_channel_id (channel_id (103 ∷ []) two_ids) ≡ 2)
parse_multi_id-channel_id_example =
    parse_multi_id-channel_id (103 ∷ []) two_ids (omega arith) (ne refl, tt)
      ((ne refl, tt), ((ne refl, tt), tt))

get_group_from_channel_id-channel_id_example :
    get_group_from_channel_id (channel_id (103 ∷ []) two_ids) ≡ some (103 ∷ [])
get_group_from_channel_id-channel_id_example =
    get_group_from_channel_id-channel_id (103 ∷ []) (97 ∷ []) ((98 ∷ []) ∷ []) (ne refl, tt)
      ((ne refl, tt), ((ne refl, tt), tt)) (ne refl, tt)

-- The delimiter is ", ".
split_id-short_example : split_id 2 (44 ∷ 32 ∷ []) (97 ∷ []) [] ≡ some []
split_id-short_example = split_id-short 1 (44 ∷ 32 ∷ []) (97 ∷ []) [] (omega arith)

two_gathered : gather 10 (44 ∷ []) ((97 ∷ 44 ∷ 98 ∷ []) ∷ []) [] ≡ some two_ids
unfolding gather value_parts split_id strsplit validate_id
two_gathered = refl

gather-bounded_example : length two_ids ≤ 255
gather-bounded_example =
    gather-bounded 10 (44 ∷ []) ((97 ∷ 44 ∷ 98 ∷ []) ∷ []) [] two_ids (omega arith) two_gathered
