-- ===== src/Memstore/Groups/Limits/Tests.antt =====
-- Runs of the checks of a group's limits, and uses of their theorems.
use nchan.Prelude.{false, refl, some, true, ℕ, ◌≡◌}
use nchan.Prelude.Int.{pos, ◌+ℤ◌}
use nchan.Memstore.Groups.{Group}
use nchan.Memstore.Groups.Limits.{
  Limits, Publication, Stores, group_publish_accounting_check, group_subscribe_accounting_check,
  group_subscribe_channel_limit_check,
}
use nchan.Memstore.Groups.Limits.Respected.{
  WithinLimits, after_publishing, group_publish_accounting_check-WithinLimits, within,
}
use nchan.Memstore.Groups.Limits.Admitted.{
  adds, authorizes, group_subscribe-authorized_within, group_subscribe-within,
}

abbrev three_channels : Limits
three_channels = record {
  channels = pos 3;
  subscribers = pos 5;
  messages = pos 10;
  messages_shmem_bytes = pos 100;
  messages_file_bytes = pos 0;
}

abbrev group_of : ℕ → Group
group_of n = record {
  channels = pos n;
  multiplexed_channels = pos 0;
  messages = pos 9;
  messages_shmem_bytes = pos 80;
  messages_file_bytes = pos 0;
  subscribers = pos 4;
}

abbrev publication : Publication
publication = record { n = 1; msg_sz = 20; buf_size = 7 }

abbrev nowhere : Stores
nowhere = record { chanhead = false; found = false; declined = false }

group_of_1-WithinLimits : WithinLimits three_channels (group_of 1)
group_of_1-WithinLimits = record {
  channels = refl;
  subscribers = refl;
  messages = refl;
  shmem_bytes = refl;
  file_bytes = refl;
}

group_publish_accounting_check-WithinLimits_example :
    WithinLimits three_channels (after_publishing publication true nowhere (group_of 1))
unfolding group_publish_accounting_check ◌+ℤ◌
group_publish_accounting_check-WithinLimits_example =
    group_publish_accounting_check-WithinLimits three_channels (group_of 1) publication nowhere true
      refl group_of_1-WithinLimits refl

five_subscribers-added :
    adds (group_subscribe_accounting_check three_channels (some (group_of 1)) true true true) ≡ true
unfolding group_subscribe_accounting_check group_subscribe_channel_limit_check
five_subscribers-added = refl

group_subscribe-within_example : within (pos 5) (pos 4 +ℤ pos 1) ≡ true
group_subscribe-within_example =
    group_subscribe-within three_channels (group_of 1) true true true five_subscribers-added

two_channels-authorized :
    authorizes
      (group_subscribe_channel_limit_check three_channels (some (group_of 1)) true true false)
    ≡ true
unfolding group_subscribe_channel_limit_check
two_channels-authorized = refl

group_subscribe-authorized_within_example : within (pos 3) (pos 1 +ℤ pos 1) ≡ true
group_subscribe-authorized_within_example =
    group_subscribe-authorized_within three_channels (group_of 1) true true two_channels-authorized
