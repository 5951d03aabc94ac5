-- ===== src/V4/Handlers.antt =====
-- The legacy handlers that can change something, and the dispatch of every context
-- (packages/mbrc-core/src/server/commands/player.rs, track.rs, nowplaying_list.rs, library.rs,
-- playlists.rs and mod.rs). A handler that only reads is part of the parameter `query`. A reply keeps
-- its values as data, with the spellings of wire/v4.rs.
use mbrc_plugin.Base.{
  ℕ, String, Bool, true, false, not, Option, none, some, List, [], ◌∷◌, if◌then◌else◌, ◌==◌,
  string_eq, unwrap_or, ◌||◌,
}
use mbrc_plugin.Base.Int.{ℤ, to_i32}
use mbrc_plugin.Json.{Json, as_str}
use mbrc_plugin.V4.{
  ShuffleMode, off, shuffle, auto_dj, RepeatMode, undefined, no_repeat, all, one, LastfmStatus,
  normal, love, ban, parse_repeat, parse_lfm, as_set_string, as_int_lenient, as_bool_lenient,
  same_ignoring_case,
}
use mbrc_plugin.V4.Host.{
  HostCall, set_volume, set_mute, set_shuffle, set_auto_dj, set_scrobble, set_repeat, set_rating,
  set_lfm_rating, switch_output, OutputDevices, Host, M, pure, call, read, ◌>>=◌, ◌>>◌, PlayerState,
}

abbrev pub shuffle_str : ShuffleMode → String
shuffle_str off = "off"
shuffle_str shuffle = "shuffle"
shuffle_str auto_dj = "autodj"

abbrev pub repeat_str : RepeatMode → String
repeat_str undefined = "Undefined"
repeat_str no_repeat = "None"
repeat_str all = "All"
repeat_str one = "One"

abbrev pub lfm_str : LastfmStatus → String
lfm_str normal = "Normal"
lfm_str love = "Love"
lfm_str ban = "Ban"

-- What a reply carries; `value` is what a query answers, and `unsupported` the message that names
-- the version a client asked for.
pub data Body (Q : Type 0) : Type 0 where
  truth : Bool → Body Q
  number : ℤ → Body Q
  text : String → Body Q
  devices : OutputDevices → Body Q
  succeeded_at : List ℤ → Body Q
  code_200 : Body Q
  unsupported : ℕ → Body Q
  value : Q → Body Q

abbrev pub Replies : Type 0 → Type 0
Replies Q = List (String × Body Q)

-- The repeat mode that a toggle asks for.
abbrev pub repeat_after : RepeatMode → RepeatMode
repeat_after no_repeat = all
repeat_after all = one
repeat_after _ = no_repeat

abbrev pub lfm_after : LastfmStatus → LastfmStatus
lfm_after normal = love
lfm_after _ = normal

module _ (J : Json) (H : Host) where
  open J use {Value, field, kind}

  abbrev pub Handler : Type 0
  Handler = M H.World (Replies Value)

  abbrev pub one_reply : String → Body Value → Handler
  one_reply context b = pure ((context, b) ∷ [])

  -- A call, then `true`.
  abbrev pub acked : String → HostCall → Handler
  acked context c = do call H c; one_reply context (truth true)

  -- `if let Some(x) = … { call }`
  abbrev pub call_if : Option HostCall → M H.World (Unit {0})
  call_if none = pure tt
  call_if (some c) = call H c

  abbrev pub is_text : String → Value → Bool
  is_text t v = elim (as_str J v) [ none ↦ false | some s ↦ s == t ]

  abbrev pub volume_call : Option ℤ → Option HostCall
  volume_call none = none
  volume_call (some i) = some (set_volume (to_i32 i))

  unfoldable pub volume : Value → Handler
  volume v = do
    call_if (volume_call (as_int_lenient J v))
    s ← read H.player_state
    one_reply "playervolume" (number s.volume)

  -- The part that `mute` and `scrobble` share: a toggle of the flag read from the player, or a set.
  abbrev pub toggle_or_set : (PlayerState → Bool) → (Bool → HostCall) → Value → M H.World (Unit {0})
  toggle_or_set flag set v =
      if is_text "toggle" v
      then (do s ← read H.player_state; call H (set (not (flag s))))
      else call_if (elim (as_bool_lenient J v) [ none ↦ none | some b ↦ some (set b) ])

  unfoldable pub mute : Value → Handler
  mute v = do
    toggle_or_set (λ s. s.mute) set_mute v
    s ← read H.player_state
    one_reply "playermute" (truth s.mute)

  unfoldable pub scrobble : Value → Handler
  scrobble v = do
    toggle_or_set (λ s. s.scrobble) set_scrobble v
    s ← read H.player_state
    one_reply "scrobbler" (truth s.scrobble)

  abbrev pub cycle_shuffle : ShuffleMode → M H.World (Unit {0})
  cycle_shuffle off = call H (set_shuffle true)
  cycle_shuffle shuffle = call H (set_auto_dj true)
  cycle_shuffle auto_dj = call H (set_auto_dj false)

  abbrev pub set_shuffle_mode : Value → M H.World (Unit {0})
  set_shuffle_mode v =
      if is_text "toggle" v
      then (do s ← read H.player_state; cycle_shuffle s.shuffle)
      else if is_text "autodj" v
      then (do call H (set_shuffle true); call H (set_auto_dj true))
      else if is_text "shuffle" v
      then (do call H (set_auto_dj false); call H (set_shuffle true))
      else if is_text "off" v
      then (do call H (set_shuffle false); call H (set_auto_dj false))
      else pure tt

  unfoldable pub shuffle_mode : Value → Handler
  shuffle_mode v = do
    set_shuffle_mode v
    s ← read H.player_state
    one_reply "playershuffle" (text (shuffle_str s.shuffle))

  abbrev pub repeat_call : Option RepeatMode → Option HostCall
  repeat_call none = none
  repeat_call (some mode) = some (set_repeat mode)

  abbrev pub set_repeat_mode : Option String → M H.World (Unit {0})
  set_repeat_mode none = pure tt
  set_repeat_mode (some mode) =
      if mode == "toggle"
      then (do s ← read H.player_state; call H (set_repeat (repeat_after s.repeat)))
      else call_if (repeat_call (parse_repeat mode))

  unfoldable pub repeat_mode : Value → Handler
  repeat_mode v = do
    set_repeat_mode (as_str J v)
    s ← read H.player_state
    one_reply "playerrepeat" (text (repeat_str s.repeat))

  abbrev pub switch_output_to : String → M H.World OutputDevices
  switch_output_to device = do
    found ← read H.output_devices
    if (device == "") || (device == found.active)
        then pure found
        else (do call H (switch_output device); read H.output_devices)

  unfoldable pub output_switch : Value → Handler
  output_switch v = do
    found ← switch_output_to (unwrap_or (as_str J v) "")
    one_reply "playeroutput" (devices found)

  abbrev pub rating_of : Option String → M H.World String
  rating_of none = read H.now_rating
  rating_of (some r) = do call H (set_rating r); read H.rating

  unfoldable pub rating : Value → Handler
  rating v = do r ← rating_of (as_set_string J v); one_reply "nowplayingrating" (text r)

  abbrev pub lfm_call : Option LastfmStatus → Option HostCall
  lfm_call none = none
  lfm_call (some status) = some (set_lfm_rating status)

  abbrev pub set_lfm : String → M H.World (Unit {0})
  set_lfm action =
      if same_ignoring_case action "toggle"
      then (do status ← read H.lfm_rating; call H (set_lfm_rating (lfm_after status)))
      else call_if (lfm_call (parse_lfm action))

  abbrev pub lfm_of : Option String → M H.World LastfmStatus
  lfm_of none = read H.now_lfm
  lfm_of (some action) = do set_lfm action; read H.lfm_rating

  unfoldable pub lfm_rating : Value → Handler
  lfm_rating v = do
    status ← lfm_of (as_str J v)
    one_reply "nowplayinglfmrating" (text (lfm_str status))
