-- ===== src/CommandsV6/Playlists.antt =====
-- The V6 operations that change playlists, and the one that plays one
-- (packages/mbrc-core/src/server/commands_v6/playlist.rs). MusicBee is a parameter: a world of any
-- type, the contents of a playlist, and the calls that change one. So are the fingerprint of a list
-- of paths, and `scope_paths`, which resolves a library scope. `playlists` and `playlist_tracks` only
-- read and are not modelled.
pub mod Folder
pub mod Edits
pub mod Moves
pub mod Writes
mod Tests
use Prim.Native.String
use mbrc_plugin.Base.{
  ℕ, suc, ◌-◌, String, Bool, true, false, not, ◌&&◌, ◌||◌, ◌⊎◌, inl, inr, Option, none, some, List,
  [], ◌∷◌, ◌++◌, leb, length, take, drop, if◌then◌else◌, ◌==◌, string_eq, nat_eq, unwrap_or,
  is_some, any,
}
use mbrc_plugin.Base.Int.{ℤ, pos, negsuc}
use mbrc_plugin.Base.Sorting.{member}
use mbrc_plugin.Json.{Json}
use mbrc_plugin.Json.Build.{JsonBuild}
use mbrc_plugin.Pairing.Label.{is_empty, trim_start, trim_end}
use mbrc_plugin.Wire.V6.{invalid_field, missing_field, stale_list, not_found, unavailable}
use mbrc_plugin.CommandsV6.{
  OpResult, done, fails, ◌>>>◌, failure, req_i64, req_str, req_str_array, opt_str, opt_bool,
}
use mbrc_plugin.CommandsV6.NowPlayingList.{or_internal, orders_highest_first}
use mbrc_plugin.CommandsV6.NowPlayingList.Slots.{without}
use mbrc_plugin.CommandsV6.Playlists.Folder.{has_reserved, is_folder_under_root}

-- What the host answers of a playlist; `kind` is its format.
pub record PlaylistFiles : Type 0 where
  pub name : String
  pub kind : String
  pub paths : List String

pub data PlaylistCall : Type 0 where
  play_playlist : (url : String) → PlaylistCall
  append_to_playlist : (url : String) → List String → PlaylistCall
  set_playlist_files : (url : String) → List String → PlaylistCall
  delete_playlist : (url : String) → PlaylistCall

pub record PlaylistHost : Type 1 where
  pub World : Type 0
  pub playlist_files : String → World → String ⊎ PlaylistFiles
  pub now_playing_list_paths : World → String ⊎ List String
  -- An error, or none.
  pub call : PlaylistCall → World → Option String × World
  -- The url of the playlist that is made.
  pub create_playlist : (folder name : String) → List String → World → (String ⊎ String) × World

abbrev pub known : String → Bool
known kind = not (kind == "Unknown" || kind == "")

abbrev pub editable : String → Bool
editable kind = not (kind == "Auto" || kind == "Radio") && known kind

abbrev pub is_blank : String → Bool
is_blank s = is_empty (trim_end (trim_start s))

abbrev pub is_nonblank : Option String → Bool
is_nonblank none = false
is_nonblank (some s) = not (is_blank s)

abbrev pub highest_of : List ℕ → ℕ
highest_of [] = 0
highest_of (o ∷ os) = o

-- The entries at `os`, where the first entry has the index `i`.
unfoldable pub only : List ℕ → (i : ℕ) → List String → List String
only os i [] = []
only os i (x ∷ xs) = let rest = only os (suc i) xs in if member i os then x ∷ rest else rest

-- `to` is at most the number of entries that stay, or `split_off` would panic.
unfoldable pub moved_to : List String → (from : List ℕ) → (to : ℕ) → List String
unfolding only
moved_to paths from to =
    let rest = without from 0 paths in take to rest ++ (only from 0 paths ++ drop to rest)

module _ (J : Json) (B : JsonBuild J) (H : PlaylistHost) where
  open J use {Value, field}
  open H use {World, playlist_files, now_playing_list_paths, call, create_playlist}

  pub record Wrote : Type 0 where
    pub answer : OpResult Value
    pub world : World

  abbrev pub answers : OpResult Value → World → Wrote
  answers r w = record { answer = r; world = w }

  -- The `?` operator in a handler.
  abbrev pub unless_fails : {A : Type 0} → OpResult A → World → (A → Wrote) → Wrote
  unless_fails (fails code message at) w k = answers (fails code message at) w
  unless_fails (done x) w k = k x

  abbrev pub unless_failed : Option String × World → (World → Wrote) → Wrote
  unless_failed (none, w) k = k w
  unless_failed (some e, w) k = answers (failure e) w

  abbrev pub if_known : PlaylistFiles → OpResult PlaylistFiles
  if_known f =
      if known f.kind then done f else fails not_found "no playlist at this url" (some "url")

  unfoldable pub known_files : String → World → OpResult PlaylistFiles
  known_files url w = or_internal (playlist_files url w) >>> if_known

  abbrev pub empty : Value
  empty = B.object_of []

  unfoldable pub play : Value → World → Wrote
  play v w =
      unless_fails (req_str J v "url") w
        (λ url. unless_failed (call (play_playlist url) w) (λ w'. answers (done empty) w'))

  unfoldable pub delete : Value → World → Wrote
  delete v w = unless_fails (req_str J v "url") w (λ url.
      unless_fails (known_files url w) w
        (λ f. unless_failed (call (delete_playlist url) w) (λ w'. answers (done empty) w')))

  abbrev pub shown : ℕ → String
  shown n = J.show (B.num n)

  -- An order past the end of a playlist of `len` tracks is refused.
  abbrev pub check_in_range : (highest len : ℕ) → (name : String) → OpResult Unit
  check_in_range highest len name =
      if leb len highest
      then fails invalid_field
          (String.◌++◌ "order " (
            String.◌++◌ (shown highest)
              (String.◌++◌ " is past the end of a " (String.◌++◌ (shown len) "-track playlist"))))
          (some name)
      else done tt

  abbrev pub out_of_room : (room count : ℕ) → OpResult ℕ
  out_of_room room count =
      fails invalid_field
        (String.◌++◌ "to_order must be 0..=" (
          String.◌++◌ (shown room)
            (String.◌++◌ " when moving " (String.◌++◌ (shown count) " tracks"))))
        (some "to_order")

  abbrev pub check_to : (room count : ℕ) → ℤ → OpResult ℕ
  check_to room count (pos to) = if leb to room then done to else out_of_room room count
  check_to room count (negsuc n) = out_of_room room count
