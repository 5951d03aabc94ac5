-- ===== src/CommandsV6/Playlists/Tests.antt =====
-- Runs of the playlist operations at concrete inputs, and their theorems there.
use mbrc_plugin.Base.{
  String, true, false, ◌≡◌, refl, ◌++◌, ◌≤◌, inr, Option, none, List, [], ◌∷◌, length, take, drop,
  arith, any,
}
use mbrc_plugin.Base.Sorting.{member, sort}
use mbrc_plugin.Json.Tree.{
  Tree, tree_json, tree_build, fields, from_list, items, from_items, count, word,
}
use mbrc_plugin.CommandsV6.{OpResult, done, req_str, req_i64, opt_str}
use mbrc_plugin.CommandsV6.NowPlayingList.{orders_of, orders_highest_first, repeats}
use mbrc_plugin.CommandsV6.NowPlayingList.Slots.{without}
use mbrc_plugin.CommandsV6.Playlists.{
  PlaylistHost, PlaylistCall, set_playlist_files, known_files, only, moved_to,
}
use mbrc_plugin.CommandsV6.Playlists.Edits.{editable_files, move_tracks}
use mbrc_plugin.CommandsV6.Playlists.Folder.{
  is_folder_under_root, split, has_reserved, resolve, walk, has_colon, is_padded_parent, IsInside,
  is_folder_under_root-IsInside,
}
use mbrc_plugin.CommandsV6.Playlists.Moves.{moved_to_lem}
use mbrc_plugin.CommandsV6.Playlists.Writes.{moving, edit, IsChecked, edit-IsChecked}
use mbrc_plugin.Pairing.Label.{trim_start, trim_end}

accepted : is_folder_under_root "Rock /Live" ≡ true
unfolding is_folder_under_root split has_reserved trim_start trim_end
accepted = refl

outside : is_folder_under_root "Rock/../.." ≡ false
unfolding is_folder_under_root split has_reserved trim_start trim_end
outside = refl

on_a_drive : is_folder_under_root "C:/Music" ≡ false
unfolding is_folder_under_root split has_reserved trim_start trim_end
on_a_drive = refl

-- What lies outside, and the spaces at the end of a name that Windows drops.
leads_out :
    (resolve "Rock/../.." ("Playlists" ∷ "D:" ∷ []) ≡ "D:" ∷ [])
    × (resolve "C:/Music" ("Playlists" ∷ "D:" ∷ []) ≡ "Music" ∷ "C:" ∷ [])
    × (resolve ".. " ("Playlists" ∷ "D:" ∷ []) ≡ "D:" ∷ [])
unfolding resolve walk split has_colon trim_end
leads_out = (refl, refl, refl)

-- `..` followed by a space is accepted as a name.
padded : is_folder_under_root ".. " ≡ true
unfolding is_folder_under_root split has_reserved trim_start trim_end
padded = refl

live_unpadded : any is_padded_parent (split "Rock /Live") ≡ false
unfolding split trim_end
live_unpadded = refl

is_folder_under_root-IsInside_example :
    IsInside ("Playlists" ∷ "D:" ∷ []) (resolve "Rock /Live" ("Playlists" ∷ "D:" ∷ []))
is_folder_under_root-IsInside_example =
    is_folder_under_root-IsInside "Rock /Live" ("Playlists" ∷ "D:" ∷ []) accepted live_unpadded

abbrev songs : List String
songs = "a" ∷ "b" ∷ "c" ∷ "d" ∷ []

moved_run : moved_to songs (3 ∷ 0 ∷ []) 1 ≡ "b" ∷ "a" ∷ "d" ∷ "c" ∷ []
unfolding moved_to without only member
moved_run = refl

room : 1 ≤ length (without (3 ∷ 0 ∷ []) 0 songs)
unfolding without member
room = omega arith

moved_to_lem_example :
    let moved = only (3 ∷ 0 ∷ []) 0 songs in
    (take (length moved) (drop 1 (moved_to songs (3 ∷ 0 ∷ []) 1)) ≡ moved)
    × (take 1 (moved_to songs (3 ∷ 0 ∷ []) 1)
          ++ drop (length moved) (drop 1 (moved_to songs (3 ∷ 0 ∷ []) 1))
        ≡ without (3 ∷ 0 ∷ []) 0 songs)
    × (length (moved_to songs (3 ∷ 0 ∷ []) 1) ≡ length songs)
moved_to_lem_example = moved_to_lem songs (3 ∷ 0 ∷ []) 1 room

abbrev obey : PlaylistCall → List String → Option String × List String
obey (set_playlist_files url ps) w = (none, ps)
obey _ w = (none, w)

-- A host with one playlist.
abbrev host : PlaylistHost
host = record {
  World = List String;
  playlist_files = λ url w. inr (record { name = "mix"; kind = "M3u"; paths = w });
  now_playing_list_paths = λ w. inr [];
  call = obey;
  create_playlist = λ folder name ps w. (inr name, w);
}

abbrev first_of : List String → String
first_of [] = ""
first_of (p ∷ ps) = p

abbrev no_scope : Tree → List String → OpResult (List String)
no_scope v w = done []

abbrev move_a : Tree
move_a = fields (
    from_list (
      ("url", word "mix")
      ∷ ("from_orders", items (from_items (count 0 ∷ [])))
      ∷ ("to_order", count 3)
      ∷ ("version", word "a")
      ∷ []))

moved_last :
    (move_tracks tree_json tree_build host first_of no_scope move_a songs).world
    ≡ "b" ∷ "c" ∷ "d" ∷ "a" ∷ []
unfolding move_tracks req_str req_i64 opt_str orders_highest_first orders_of repeats editable_files
    known_files moved_to without only member sort
moved_last = refl

edit-IsChecked_example :
    IsChecked tree_json tree_build host first_of no_scope move_a songs
      (edit tree_json tree_build host first_of no_scope moving move_a songs)
edit-IsChecked_example =
    edit-IsChecked tree_json tree_build host first_of no_scope moving move_a songs
