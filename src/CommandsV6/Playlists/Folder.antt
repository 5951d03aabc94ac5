-- ===== src/CommandsV6/Playlists/Folder.antt =====
-- `is_folder_under_root` (packages/mbrc-core/src/server/commands_v6/playlist.rs): the folder that a
-- new playlist is filed in, and where a path that is joined to the playlists' root leads.
use Prim.Native.Char.{Char, code}
use Prim.Native.String.{String, [], ◌∷◌}
use mbrc_plugin.Base.{
  ℕ, Bool, true, false, not, ◌&&◌, ◌||◌, ◌≡◌, refl, sym, ◌∙◌, List, ◌++◌, leb, if◌then◌else◌, ◌==◌,
  string_eq, nat_eq, all, any, arith, Bool-cases, inl, inr,
}
use mbrc_plugin.Base
use mathlib.Core.List.{append_assoc}
use mbrc_plugin.Pairing.Label.{is_empty, trim_start, trim_end}

-- `<`, `>`, `:`, `"`, `/`, `\`, `|`, `?` and `*`.
abbrev pub is_reserved : ℕ → Bool
is_reserved c =
    c == 60 || c == 62 || c == 58 || c == 34 || c == 47 || c == 92 || c == 124 || c == 63 || c == 42

abbrev pub is_separator : ℕ → Bool
is_separator c = c == 47 || c == 92

unfoldable pub has_reserved : String → Bool
has_reserved [] = false
has_reserved (c ∷ s) = is_reserved (code c) || has_reserved s

abbrev pub extend_first : Char → List String → List String
extend_first c Base.[] = Base.◌∷◌ (c ∷ []) Base.[]
extend_first c (Base.◌∷◌ s rest) = Base.◌∷◌ (c ∷ s) rest

-- `split` at the separators: one segment more than there are separators.
unfoldable pub split : String → List String
split [] = Base.◌∷◌ [] Base.[]
split (c ∷ s) =
    let rest = split s in if is_separator (code c) then Base.◌∷◌ [] rest else extend_first c rest

abbrev pub starts_with_separator : String → Bool
starts_with_separator [] = false
starts_with_separator (c ∷ s) = is_separator (code c)

abbrev pub is_plain : String → Bool
is_plain segment =
    not (is_empty (trim_end (trim_start segment)))
    && (not (segment == ".") && (not (segment == "..") && not (has_reserved segment)))

unfoldable pub is_folder_under_root : String → Bool
is_folder_under_root folder =
    if is_empty folder
    then true
    else if starts_with_separator folder
    then false
    else all is_plain (split folder)

-- How Windows reads a path that is joined to a folder, whose names are listed from the inside out
-- and end with the drive. A path that starts with a separator starts over at the top; a name with a
-- `:` names a drive, at whose top the path goes on; `..` leads to the parent, and `.` or nothing
-- stays. Trailing white space is not part of a name.
unfoldable pub has_colon : String → Bool
has_colon [] = false
has_colon (c ∷ s) = code c == 58 || has_colon s

abbrev parent : List String → List String
parent Base.[] = Base.[]
parent (Base.◌∷◌ s at) = at

abbrev pub enter : String → List String → List String
enter name at =
    if has_colon name
    then Base.◌∷◌ name Base.[]
    else if name == ".."
    then parent at
    else if is_empty name || name == "."
    then at
    else Base.◌∷◌ name at

unfoldable pub walk : List String → List String → List String
walk Base.[] at = at
walk (Base.◌∷◌ s rest) at = walk rest (enter (trim_end s) at)

unfoldable pub resolve : String → List String → List String
resolve path root = walk (split path) (if starts_with_separator path then Base.[] else root)

-- The path at hand lies inside `root`, or is it.
abbrev pub IsInside : List String → List String → Type 0
IsInside root at = (inside : List String) × (at ≡ inside ++ root)

-- A name that is `..` once its trailing white space is dropped, and not before.
abbrev pub is_padded_parent : String → Bool
is_padded_parent name = trim_end name == ".." && not (name == "..")

has_colon-trim_end : (s : String) → has_reserved s ≡ false → has_colon (trim_end s) ≡ false
unfolding has_colon has_reserved trim_end
has_colon-trim_end [] h = refl
has_colon-trim_end (c ∷ s) h = ground (arith, has_colon-trim_end s)

-- A name that is no drive and not `..` stays, or leads one folder down.
enter-IsInside :
    (name : String) (at : List String)
    → has_colon name ≡ false
    → (name == "..") ≡ false
    → IsInside at (enter name at)
enter-IsInside name at drive up = elim (Bool-cases (is_empty name || name == ".")) [
  | inl stays ↦ rw (drive, up, stays) (Base.[], refl)
  | inr down ↦ rw (drive, up, down) (Base.◌∷◌ name Base.[], refl)
]

IsInside-trans : (a b c : List String) → IsInside a b → IsInside b c → IsInside a c
IsInside-trans a b c (xs, e) (ys, f) = (ys ++ xs, rw (f, e) (sym (append_assoc ys xs a)))

walk-IsInside :
    (ss at : List String)
    → all is_plain ss ≡ true
    → any is_padded_parent ss ≡ false
    → IsInside at (walk ss at)
unfolding walk
walk-IsInside Base.[] at h t = (Base.[], refl)
walk-IsInside (Base.◌∷◌ s ss) at h t =
    let down = enter (trim_end s) at in
    IsInside-trans at down (walk ss down)
      (enter-IsInside (trim_end s) at (has_colon-trim_end s (ground arith)) (ground arith))
      (walk-IsInside ss down (ground arith) (ground arith))

resolve_empty : (root : List String) → resolve [] root ≡ root
unfolding resolve walk split has_colon trim_end
resolve_empty root = refl

-- A folder that is accepted leads from whatever root it is joined to into that root, so no drive, no
-- absolute path and no `..` in it leads out, where none of its names is `..` followed by white space.
pub is_folder_under_root-IsInside :
    (folder : String) (root : List String)
    → is_folder_under_root folder ≡ true
    → any is_padded_parent (split folder) ≡ false
    → IsInside root (resolve folder root)
unfolding is_folder_under_root resolve
is_folder_under_root-IsInside [] root h t = (Base.[], resolve_empty root)
is_folder_under_root-IsInside (c ∷ s) root h t =
    let relative : starts_with_separator (c ∷ s) ≡ false = ground arith in
    rw relative (walk-IsInside (split (c ∷ s)) root (ground arith) t)
