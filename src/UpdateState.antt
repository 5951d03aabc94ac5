-- ===== src/UpdateState.antt =====
-- The record of what the updater did (packages/mbrc-release/src/state.rs): when the next check is
-- due. A moment is a number of seconds; one that does not read back is an absent one. The file that
-- the record is kept in is not modelled.
pub mod Due
mod Tests
use mbrc_plugin.Base.{
  ℕ, ◌+◌, ◌-◌, ◌*◌, ◌^◌, min, String, Bool, true, false, Option, none, some, ltb, leb,
  if◌then◌else◌, ◌==◌, nat_eq, string_eq, or,
}

pub record UpdateState : Type 0 where
  pub last_check : Option ℕ
  pub etag : Option String
  pub skipped_version : Option String
  pub consecutive_failures : ℕ

abbrev pub default_state : UpdateState
default_state = record {
  last_check = none;
  etag = none;
  skipped_version = none;
  consecutive_failures = 0;
}

abbrev pub first_retry_minutes : ℕ
first_retry_minutes = 15

abbrev pub max_retry_doublings : ℕ
max_retry_doublings = 6

-- In seconds.
unfoldable pub wait : (interval_hours : ℕ) → UpdateState → ℕ
wait interval_hours s =
    let interval = interval_hours * 3600 in
    let doublings = min (s.consecutive_failures - 1) max_retry_doublings in
    let backoff = first_retry_minutes * 2 ^ doublings * 60 in
    if s.consecutive_failures == 0 then interval else min backoff interval

unfoldable pub is_due : (now interval_hours : ℕ) → UpdateState → Bool
unfolding wait
is_due now interval_hours s = elim s.last_check [
  | none ↦ true
  | some last ↦ if ltb now last then true else leb (wait interval_hours s) (now - last)
]

unfoldable pub is_skipped : (version : String) → UpdateState → Bool
is_skipped version s = elim s.skipped_version [ none ↦ false | some v ↦ v == version ]

unfoldable pub record_check : (now : ℕ) → (etag : Option String) → UpdateState → UpdateState
record_check now etag s = record s { last_check = some now; etag = or etag s.etag }

-- `saturating_add` on 32 bits.
unfoldable pub record_failure : (now : ℕ) → UpdateState → UpdateState
record_failure now s = record s {
  last_check = some now;
  consecutive_failures = min (s.consecutive_failures + 1) 4_294_967_295;
}

unfoldable pub clear_failures : UpdateState → UpdateState
clear_failures s = record s { consecutive_failures = 0 }
