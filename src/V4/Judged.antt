-- ===== src/V4/Judged.antt =====
-- The calls that a legacy request makes, against the action that Party Mode judges it by.
pub mod Contexts
use mbrc_plugin.Base.{
  ℕ, suc, String, Bool, true, false, not, ◌||◌, ◌≡◌, ◌≢◌, refl, Option, none, some, List, [], ◌∷◌,
  arith, All, any, if◌then◌else◌, ◌==◌, string_eq, unwrap_or, is_some, or, length, ◌>>=◌ as ◌>>?◌,
}
use mbrc_plugin.Base.Int.{ℤ}
use mbrc_plugin.Json.{Json, as_str, as_array}
use mbrc_plugin.Permissions.{
  Capability, playback, queue_replace, queue_edit, modes, library_edit, output, Action, change,
  QueueType, for_queue, queue_action,
}
use mbrc_plugin.Permissions
use mbrc_plugin.Permissions.V4.{
  set_if, text_is, sets_shuffle, toggles, names, queued_paths, count_texts,
}
use mbrc_plugin.V4.{
  ShuffleMode, RepeatMode, LastfmStatus, Platform, parse_repeat, parse_lfm, parse_queue_type,
  same_ignoring_case, as_set_string, as_int_lenient, as_bool_lenient,
}
use mbrc_plugin.V4.Host.{
  HostCall, play, pause, play_pause, stop, next, previous, set_volume, set_position, play_list_item,
  remove_list_item, set_mute, set_shuffle, set_auto_dj, set_scrobble, play_all, set_repeat,
  set_rating, search_list, switch_output, play_playlist, set_lfm_rating, set_tag, move_list_item,
  queue, Host, Ran, PlayerState,
}
use mbrc_plugin.V4.Handlers.{
  Handler, volume, mute, scrobble, shuffle_mode, repeat_mode, output_switch, rating, lfm_rating,
  acked, toggle_or_set, set_shuffle_mode,
}
use mbrc_plugin.V4.Dispatch.{
  Queries, position, current_position, tag_change, index_of, play_item, remove, move_track,
  search_tracks, queue_files, play_library, play_list, answer, texts, queued_files, queue_type_of,
}

-- The capability that a call on MusicBee takes.
abbrev pub call_capability : HostCall → Capability
call_capability play = playback
call_capability pause = playback
call_capability play_pause = playback
call_capability stop = playback
call_capability next = playback
call_capability previous = playback
call_capability (set_volume i) = Permissions.volume
call_capability (set_position i) = playback
call_capability (play_list_item i) = playback
call_capability (remove_list_item i) = queue_edit
call_capability (set_mute b) = Permissions.volume
call_capability (set_shuffle b) = modes
call_capability (set_auto_dj b) = modes
call_capability (set_scrobble b) = modes
call_capability (play_all b) = queue_replace
call_capability (set_repeat r) = modes
call_capability (set_rating s) = library_edit
call_capability (search_list s) = playback
call_capability (switch_output s) = output
call_capability (play_playlist s) = queue_replace
call_capability (set_lfm_rating l) = library_edit
call_capability (set_tag t s) = library_edit
call_capability (move_list_item i j) = queue_edit
call_capability (queue t files p) = for_queue t

-- How many files a call adds to the queue.
abbrev pub adds : HostCall → Option ℕ
adds (queue t files p) = some (length files)
adds _ = none

-- The action covers the call: a read covers none, a change those of its capability that queue
-- nothing, and a queueing of so many tracks a call that adds just as many.
abbrev pub Covers : Action → HostCall → Type 0
Covers Action.read c = ⊥
Covers (change k) c = (call_capability c ≡ k) × (adds c ≡ none)
Covers (Action.queue k tracks) c = (call_capability c ≡ k) × (adds c ≡ tracks)

module _ (J : Json) (H : Host) where
  open J use {Value, field}

  abbrev pub MakesOnly : Action → Handler J H → Type 0
  MakesOnly a h = (w : H.World) → All (Covers a) (h w).calls

  volume-MakesOnly :
      (v : Value)
      → MakesOnly (set_if (is_some (as_int_lenient J v)) Permissions.volume) (volume J H v)
  unfolding volume
  volume-MakesOnly v w = ground arith

  mute-MakesOnly :
      (v : Value)
      → MakesOnly
          (set_if (toggles J v || is_some (as_bool_lenient J v)) Permissions.volume)
          (mute J H v)
  unfolding mute
  mute-MakesOnly v w = ground arith

  scrobble-MakesOnly :
      (v : Value)
      → MakesOnly (set_if (toggles J v || is_some (as_bool_lenient J v)) modes) (scrobble J H v)
  unfolding scrobble
  scrobble-MakesOnly v w = ground arith

  shuffle_mode-MakesOnly :
      (v : Value) → MakesOnly (set_if (text_is J sets_shuffle v) modes) (shuffle_mode J H v)
  unfolding shuffle_mode
  shuffle_mode-MakesOnly v w = ground arith

  repeat_mode-MakesOnly :
      (v : Value)
      → MakesOnly
          (set_if (text_is J (λ t. (t == "toggle") || is_some (parse_repeat t)) v) modes)
          (repeat_mode J H v)
  unfolding repeat_mode
  repeat_mode-MakesOnly v w = ground arith

  output_switch-MakesOnly : (v : Value) → MakesOnly (change output) (output_switch J H v)
  unfolding output_switch
  output_switch-MakesOnly v w = ground arith

  rating-MakesOnly :
      (v : Value) → MakesOnly (set_if (is_some (as_set_string J v)) library_edit) (rating J H v)
  unfolding rating
  rating-MakesOnly v w = ground arith

  lfm_rating-MakesOnly :
      (v : Value)
      → MakesOnly
          (set_if
            (text_is J (λ t. same_ignoring_case t "toggle" || is_some (parse_lfm t)) v)
            library_edit)
          (lfm_rating J H v)
  unfolding lfm_rating
  lfm_rating-MakesOnly v w = ground arith

  acked-MakesOnly :
      (k : Capability) (context : String) (c : HostCall)
      → call_capability c ≡ k
      → adds c ≡ none
      → MakesOnly (change k) (acked J H context c)
  acked-MakesOnly k context c e none_added w = ground arith

module _ (J : Json) where
  open J use {Value}

  count_texts-eq : (vs : List Value) → count_texts J vs ≡ length (texts J vs)
  count_texts-eq [] = refl
  count_texts-eq (v ∷ vs) = ground (arith, count_texts-eq vs)

  count_or_none :
      (o : Option (List Value))
      → elim o [ none ↦ 0 | some vs ↦ count_texts J vs ] ≡ length (texts J (unwrap_or o []))
  count_or_none none = refl
  count_or_none (some vs) = count_texts-eq vs

module _ (J : Json) (H : Host) (Qs : Queries J H) where
  open J use {Value, field}

  position-MakesOnly :
      (v : Value)
      → MakesOnly J H (set_if (is_some (as_int_lenient J v)) playback) (position J H Qs v)
  unfolding position
  position-MakesOnly v w = ground arith

  current_position-MakesOnly : MakesOnly J H Action.read (current_position J H Qs)
  unfolding current_position
  current_position-MakesOnly w = ground arith

  tag_change-MakesOnly : (v : Value) → MakesOnly J H (change library_edit) (tag_change J H Qs v)
  unfolding tag_change
  tag_change-MakesOnly v w = ground arith

  play_item-MakesOnly :
      (platform : Platform) (v : Value)
      → MakesOnly J H (change playback) (play_item J H Qs platform v)
  unfolding play_item
  play_item-MakesOnly platform v w = ground arith

  remove-MakesOnly : (v : Value) → MakesOnly J H (change queue_edit) (remove J H Qs v)
  unfolding remove
  remove-MakesOnly v w = ground arith

  move_track-MakesOnly : (v : Value) → MakesOnly J H (change queue_edit) (move_track J H Qs v)
  unfolding move_track
  move_track-MakesOnly v w = ground arith

  search_tracks-MakesOnly : (v : Value) → MakesOnly J H (change playback) (search_tracks J H Qs v)
  unfolding search_tracks
  search_tracks-MakesOnly v w = ground arith

  play_library-MakesOnly :
      (v : Value) → MakesOnly J H (change queue_replace) (play_library J H Qs v)
  unfolding play_library
  play_library-MakesOnly v w = ground arith

  play_list-MakesOnly : (v : Value) → MakesOnly J H (change queue_replace) (play_list J H Qs v)
  unfolding play_list
  play_list-MakesOnly v w = ground arith

  answer-MakesOnly :
      (context : String) (v : Value) → MakesOnly J H Action.read (answer J H Qs context v)
  unfolding answer
  answer-MakesOnly context v w = ground arith

  queued_paths-eq : (v : Value) → queued_paths J v ≡ length (queued_files J H Qs v)
  unfolding queued_paths
  queued_paths-eq v = count_or_none J (field v "data" >>? as_array J)

  queue_files-MakesOnly :
      (v : Value)
      → MakesOnly J H
          (queue_action (queue_type_of J H Qs v) (some (queued_paths J v)))
          (queue_files J H Qs v)
  unfolding queue_files queue_action
  queue_files-MakesOnly v w = ground (arith, queued_paths-eq v)
