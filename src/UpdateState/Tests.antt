-- ===== src/UpdateState/Tests.antt =====
-- A run of the update bookkeeping.
use mbrc_plugin.Base.{◌≡◌, refl, some, none}
use mbrc_plugin.UpdateState.{UpdateState, wait}

abbrev failed_twice : UpdateState
failed_twice = record {
  last_check = some 1_000;
  etag = none;
  skipped_version = none;
  consecutive_failures = 2;
}

half_an_hour : wait 24 failed_twice ≡ 1_800
unfolding wait
half_an_hour = refl
