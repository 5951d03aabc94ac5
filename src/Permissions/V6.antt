-- ===== src/Permissions/V6.antt =====
-- The action a V6 request performs: packages/mbrc-core/src/server/permissions/v6.rs, with
-- `parse_queue_type` of server/commands_v6/nowplaying_list.rs.
use mbrc_plugin.Base.{
  ℕ, String, Bool, Option, none, some, List, [], ◌∷◌, any, length, ◌==◌, string_eq, if◌then◌else◌,
  unwrap_or, ◌>>=◌,
}
use mbrc_plugin.Json.{Json, null, string, as_array, Kind}
use mbrc_plugin.Permissions.{
  QueueType, last, next, play_now, add_and_play, playback, queue_replace, queue_edit, volume, modes,
  library_edit, playlist_edit, output, Action, read, change, queue_action,
}

-- One arm of the match on the op's name.
unfoldable pub one_of : List String → String → Bool
one_of names op = any (λ n. n == op) names

abbrev pub playback_ops : List String
playback_ops =
    "player_play" ∷ "player_pause" ∷ "player_play_pause" ∷ "player_stop" ∷ "player_next"
    ∷ "player_previous" ∷ "now_playing_seek" ∷ "now_playing_list_play" ∷ "now_playing_list_search"
    ∷ []

abbrev pub edit_ops : List String
edit_ops = "now_playing_list_remove" ∷ "now_playing_list_move" ∷ "now_playing_list_clear" ∷ []

abbrev pub mode_ops : List String
mode_ops =
    "player_set_shuffle" ∷ "player_set_repeat" ∷ "player_set_stop_after_current"
    ∷ "player_set_scrobbling" ∷ []

abbrev pub library_ops : List String
library_ops = "now_playing_set_rating" ∷ "now_playing_set_lfm" ∷ "now_playing_set_tag" ∷ []

abbrev pub playlist_ops : List String
playlist_ops =
    "playlist_create" ∷ "playlist_delete" ∷ "playlist_add_tracks" ∷ "playlist_remove_tracks"
    ∷ "playlist_move_tracks" ∷ "playlist_set_tracks" ∷ []

abbrev pub read_ops : List String
read_ops =
    "handshake" ∷ "ping" ∷ "pair" ∷ "player_status" ∷ "player_output" ∷ "system_info" ∷ "track_get"
    ∷ "cover_get" ∷ "library_genres" ∷ "library_artists" ∷ "library_albums" ∷ "library_tracks"
    ∷ "library_radio" ∷ "library_changes" ∷ "playlist_list" ∷ "playlist_tracks"
    ∷ "now_playing_state" ∷ "now_playing_details" ∷ "now_playing_position" ∷ "now_playing_lyrics"
    ∷ "now_playing_list" ∷ "podcast_subscriptions" ∷ "podcast_subscription" ∷ "podcast_episodes"
    ∷ "podcast_episode" ∷ "media_sources" ∷ "media_albums" ∷ "media_tracks" ∷ "tag_fields"
    ∷ "tag_values" ∷ "now_playing_tags" ∷ []

-- `none` stands for the `invalid_field` error.
unfoldable pub parse_queue_type : String → Option QueueType
parse_queue_type mode =
    if mode == "next"
    then some next
    else if mode == "last"
    then some last
    else if mode == "now"
    then some play_now
    else if mode == "add_all"
    then some add_and_play
    else none

-- The match on the field `mode`, by its kind.
abbrev pub kind_mode : {V : Type 0} → Kind V → String → Option String
kind_mode null default = some default
kind_mode (string mode) default = some mode
kind_mode _ default = none

module _ (J : Json) where
  open J use {Value, kind, field}

  abbrev pub mode_of : Option Value → String → Option String
  mode_of none default = some default
  mode_of (some v) default = kind_mode (kind v) default

  unfoldable pub placement : Value → String → QueueType
  unfolding parse_queue_type
  placement v default = elim (mode_of (field v "mode") default) [
    | none ↦ play_now
    | some mode ↦ unwrap_or (parse_queue_type mode) play_now
  ]

  -- `data.get("paths").and_then(Value::as_array).map(Vec::len)`
  abbrev pub path_count : Value → Option ℕ
  path_count v = elim (field v "paths" >>= as_array J) [ none ↦ none | some ps ↦ some (length ps) ]

  unfoldable pub action : String → Value → Option Action
  action op v =
      if one_of playback_ops op
      then some (change playback)
      else if op == "now_playing_queue"
      then some (queue_action (placement v "next") (path_count v))
      else if one_of ("library_queue" ∷ "media_queue" ∷ []) op
      then some (queue_action (placement v "last") none)
      else if op == "podcast_episode_play"
      then some (queue_action (placement v "now") (some 1))
      else if one_of ("library_play_all" ∷ "playlist_play" ∷ []) op
      then some (change queue_replace)
      else if one_of edit_ops op
      then some (change queue_edit)
      else if one_of ("player_set_volume" ∷ "player_set_mute" ∷ []) op
      then some (change volume)
      else if one_of mode_ops op
      then some (change modes)
      else if one_of library_ops op
      then some (change library_edit)
      else if one_of playlist_ops op
      then some (change playlist_edit)
      else if op == "player_set_output"
      then some (change output)
      else if one_of read_ops op
      then some read
      else none
