-- ===== src/CommandsV6/Playlists/Edits.antt =====
-- The writes to playlists, and what they check first
-- (packages/mbrc-core/src/server/commands_v6/playlist.rs).
use mbrc_plugin.Base.{
  ◌-◌, String, Bool, true, false, ◌||◌, ◌⊎◌, inl, inr, Option, none, some, List, [], ◌∷◌, length,
  if◌then◌else◌, ◌==◌, string_eq, nat_eq, unwrap_or, is_some, any,
}
use mbrc_plugin.Json.{Json}
use mbrc_plugin.Json.Build.{JsonBuild}
use mbrc_plugin.Pairing.Label.{is_empty, trim_start, trim_end}
use mbrc_plugin.Wire.V6.{invalid_field, missing_field, stale_list, unavailable}
use mbrc_plugin.CommandsV6.{
  OpResult, done, fails, ◌>>>◌, failure, req_i64, req_str, req_str_array, opt_str, opt_bool,
}
use mbrc_plugin.CommandsV6.NowPlayingList.{or_internal, orders_highest_first}
use mbrc_plugin.CommandsV6.NowPlayingList.Slots.{without}
use mbrc_plugin.CommandsV6.Playlists.Folder.{has_reserved, is_folder_under_root}
use mbrc_plugin.CommandsV6.Playlists.{
  PlaylistFiles, PlaylistHost, Wrote, answers, append_to_playlist, check_in_range, check_to,
  editable, highest_of, is_nonblank, known_files, moved_to, set_playlist_files, unless_failed,
  unless_fails,
}

module _ (J : Json) (B : JsonBuild J) (H : PlaylistHost) (version_of : List String → String)
    (scope_paths : J.Value → H.World → OpResult (List String)) where
  open J use {Value, field}
  open H use {World, playlist_files, now_playing_list_paths, call, create_playlist}

  abbrev pub if_current : PlaylistFiles → Option String → OpResult PlaylistFiles
  if_current f none = done f
  if_current f (some expected) =
      if expected == version_of f.paths
      then done f
      else fails stale_list "the playlist changed; re-read it and retry" none

  abbrev pub if_editable : Value → PlaylistFiles → OpResult PlaylistFiles
  if_editable v f =
      if editable f.kind
      then opt_str J v "version" >>> if_current f
      else fails unavailable "this playlist is not a list of tracks that can be edited" none

  unfoldable pub editable_files : Value → String → World → OpResult PlaylistFiles
  editable_files v url w = known_files J B H url w >>> if_editable v

  -- The version after a write, read back.
  abbrev pub written_version : String → World → OpResult Value
  written_version url w =
      or_internal (playlist_files url w) >>> (λ f. done (B.text (version_of f.paths)))

  abbrev pub names_scope : Value → OpResult Bool
  names_scope v =
      if any (λ name. is_some (field v name)) ("genre" ∷ "artist" ∷ "album" ∷ [])
      then done true
      else opt_str J v "query" >>> (λ q. done (is_nonblank q))

  abbrev pub tracks_by :
      (by_paths by_scope by_queue : Bool) → Value → World → OpResult (Option (List String))
  tracks_by false false false v w = done none
  tracks_by true false false v w = req_str_array J v "paths" >>> (λ ps. done (some ps))
  tracks_by false true false v w = scope_paths v w >>> (λ ps. done (some ps))
  tracks_by false false true v w = or_internal (now_playing_list_paths w) >>> (λ ps. done (some ps))
  tracks_by _ _ _ v w =
      fails invalid_field "name the tracks one way: paths, a library scope, or now_playing" none

  unfoldable pub named_tracks : Value → World → OpResult (Option (List String))
  named_tracks v w = names_scope v >>> (λ by_scope.
      opt_bool J v "now_playing"
      >>> (λ q. tracks_by (is_some (field v "paths")) by_scope (unwrap_or q false) v w))

  abbrev pub some_tracks : Option (List String) → OpResult (List String)
  some_tracks none =
      fails missing_field "name the tracks: paths, a library scope, or now_playing" (some "paths")
  some_tracks (some ps) = done ps

  unfoldable pub required_tracks : Value → World → OpResult (List String)
  required_tracks v w = named_tracks v w >>> some_tracks

  abbrev pub made : (String ⊎ String) × World → Wrote J B H
  made (inl e, w) = answers J B H (failure e) w
  made (inr url, w) =
      answers J B H
        (or_internal (playlist_files url w) >>> (λ f. done (
          B.object_of (
            ("url", B.text url)
            ∷ ("name", B.text f.name)
            ∷ ("version", B.text (version_of f.paths))
            ∷ []))))
        w

  abbrev pub check_name : String → OpResult String
  check_name name =
      if is_empty name || has_reserved name
      then fails invalid_field "name must not be blank or contain < > : \" / \\ | ? *" (some "name")
      else done name

  abbrev pub check_folder : String → OpResult String
  check_folder folder =
      if is_folder_under_root folder
      then done folder
      else fails invalid_field "folder must be a relative path under the playlists root"
          (some "folder")

  unfoldable pub create : Value → World → Wrote J B H
  create v w =
      unless_fails J B H (req_str J v "name" >>> (λ s. check_name (trim_end (trim_start s)))) w
        (λ name.
          unless_fails J B H (opt_str J v "folder" >>> (λ f. check_folder (unwrap_or f ""))) w
            (λ folder.
              unless_fails J B H (named_tracks v w) w
                (λ ps. made (create_playlist folder name (unwrap_or ps []) w))))

  -- The answer of a write: the version, read back, and what was written.
  abbrev pub written : List (String × Value) → String → World → Wrote J B H
  written rest url w =
      answers J B H (written_version url w >>> (λ n. done (B.object_of (("version", n) ∷ rest)))) w

  -- No call is made for no tracks.
  abbrev pub append : String → List String → World → Wrote J B H
  append url [] w = written (("added", B.num 0) ∷ []) url w
  append url (p ∷ ps) w =
      unless_failed J B H (call (append_to_playlist url (p ∷ ps)) w)
        (written (("added", B.num (length (p ∷ ps))) ∷ []) url)

  unfoldable pub add_tracks : Value → World → Wrote J B H
  add_tracks v w = unless_fails J B H (req_str J v "url") w (λ url.
      unless_fails J B H (editable_files v url w) w
        (λ f. unless_fails J B H (required_tracks v w) w (λ ps. append url ps w)))

  unfoldable pub remove_tracks : Value → World → Wrote J B H
  remove_tracks v w = unless_fails J B H (req_str J v "url") w (λ url.
      unless_fails J B H (orders_highest_first J v "orders") w (λ os.
        unless_fails J B H (editable_files v url w) w (λ f.
          unless_fails J B H (check_in_range J B H (highest_of os) (length f.paths) "orders") w
            (λ _.
              unless_failed J B H (call (set_playlist_files url (without os 0 f.paths)) w)
                (written (("removed", B.num (length os)) ∷ []) url)))))

  unfoldable pub move_tracks : Value → World → Wrote J B H
  move_tracks v w = unless_fails J B H (req_str J v "url") w (λ url.
      unless_fails J B H (orders_highest_first J v "from_orders") w (λ from.
        unless_fails J B H (req_i64 J v "to_order") w (λ to.
          unless_fails J B H (editable_files v url w) w (λ f.
            unless_fails J B H
              (check_in_range J B H (highest_of from) (length f.paths) "from_orders") w
              (λ _.
                unless_fails J B H (check_to J B H (length f.paths - length from) (length from) to)
                  w
                  (λ n.
                    unless_failed J B H (call (set_playlist_files url (moved_to f.paths from n)) w)
                      (written [] url)))))))

  unfoldable pub set_tracks : Value → World → Wrote J B H
  set_tracks v w = unless_fails J B H (req_str J v "url") w (λ url.
      unless_fails J B H (editable_files v url w) w (λ f.
        unless_fails J B H (required_tracks v w) w
          (λ ps. unless_failed J B H (call (set_playlist_files url ps) w) (written [] url))))
