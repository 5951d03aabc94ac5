-- ===== src/V4.antt =====
-- What a legacy client's `data` means (the value coercions of
-- packages/mbrc-core/src/server/commands/mod.rs and the parsers of wire/v4.rs), with the modes of
-- protocol/messages.rs and the platforms of protocol/mod.rs.
pub mod Host
pub mod Handlers
pub mod Dispatch
pub mod Judged
pub mod Sample
mod Tests
use Prim.Native.Char.{code}
use Prim.Native.String
use mbrc_plugin.Base.{
  ℕ, ◌+◌, String, Bool, true, false, not, ◌&&◌, ◌||◌, Option, none, some, List, [], ◌∷◌, leb,
  nat_beq, if◌then◌else◌, ◌==◌, string_eq, unwrap_or, or, is_some, ◌>>=◌,
}
use mbrc_plugin.Base.Int.{ℤ, is_zero, parse_i64}
use mbrc_plugin.Json.{Json, Kind, boolean, number, string, as_str}
use mbrc_plugin.Pairing.Label.{trim_start, trim_end}
use mbrc_plugin.Permissions.{QueueType, last, next, play_now, add_and_play}

pub data ShuffleMode : Type 0 where
  off shuffle auto_dj : ShuffleMode

pub data RepeatMode : Type 0 where
  undefined no_repeat all one : RepeatMode

pub data LastfmStatus : Type 0 where
  normal love ban : LastfmStatus

pub data Platform : Type 0 where
  android ios unknown : Platform

-- `to_ascii_lowercase`, as the code points of the result.
unfoldable pub lower_codes : String → List ℕ
lower_codes String.[] = []
lower_codes (String.◌∷◌ c s) =
    let rest = lower_codes s in
    (if leb 65 (code c) && leb (code c) 90 then code c + 32 else code c) ∷ rest

abbrev pub same_codes : List ℕ → List ℕ → Bool
same_codes [] [] = true
same_codes (x ∷ xs) (y ∷ ys) = nat_beq x y && same_codes xs ys
same_codes _ _ = false

-- `eq_ignore_ascii_case`
unfoldable pub same_ignoring_case : String → String → Bool
unfolding lower_codes
same_ignoring_case s t = same_codes (lower_codes s) (lower_codes t)

abbrev pub trim : String → String
trim s = trim_end (trim_start s)

unfoldable pub platform_from_name : Option String → Platform
unfolding same_ignoring_case
platform_from_name none = unknown
platform_from_name (some name) =
    if same_ignoring_case name "android"
    then android
    else if same_ignoring_case name "ios"
    then ios
    else unknown

unfoldable pub parse_repeat : String → Option RepeatMode
parse_repeat s =
    if s == "None"
    then some no_repeat
    else if s == "All"
    then some all
    else if s == "One"
    then some one
    else none

unfoldable pub parse_lfm : String → Option LastfmStatus
unfolding same_ignoring_case
parse_lfm s =
    if same_ignoring_case s "love"
    then some love
    else if same_ignoring_case s "ban"
    then some ban
    else none

unfoldable pub parse_queue_type : String → QueueType
parse_queue_type s =
    if s == "last"
    then last
    else if s == "now"
    then play_now
    else if s == "add-all"
    then add_and_play
    else next

-- `"true" | "1"`, `"false" | "0"`
unfoldable pub parse_flag : String → Option Bool
unfolding same_ignoring_case
parse_flag s =
    if same_ignoring_case s "true" || same_ignoring_case s "1"
    then some true
    else if same_ignoring_case s "false" || same_ignoring_case s "0"
    then some false
    else none

abbrev pub nonzero : Option ℤ → Option Bool
nonzero none = none
nonzero (some i) = some (not (is_zero i))

module _ (J : Json) where
  open J use {Value, kind, int, show}

  unfoldable pub as_set_string : Value → Option String
  as_set_string v = elim (kind v) [ string s ↦ some s | number n ↦ some (show v) | _ ↦ none ]

  unfoldable pub as_int_lenient : Value → Option ℤ
  as_int_lenient v = or (int v) (as_str J v >>= λ s. parse_i64 (trim s))

  unfoldable pub as_bool_lenient : Value → Option Bool
  unfolding parse_flag
  as_bool_lenient v = elim (kind v) [
    | boolean b ↦ some b
    | number n ↦ nonzero (int v)
    | string s ↦ parse_flag (trim s)
    | _ ↦ none
  ]
