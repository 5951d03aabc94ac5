-- ===== src/LibraryChanges.antt =====
-- The library change log behind V6 `library_changes` (packages/mbrc-core/src/library_changes.rs).
-- The tables `track_changes` and `change_log` are parameters with the laws of a redb table; the
-- keys of `META` that the log owns are the other fields of the state, where an absent key is the
-- zero that `meta_u64` reads. A committed transaction is one step; storage errors, a disabled store
-- and the 2^64th generation are not modelled. A fresh epoch is an argument, since it is random.
pub mod Diff
pub mod Record
pub mod Read
pub mod Sync
mod Tests
use mbrc_plugin.Base.{
  ℕ, ◌+◌, ◌-◌, String, Bool, true, false, not, ◌&&◌, ◌||◌, Option, none, some, List, [], ◌∷◌, ◌++◌,
  ltb, leb, length, take, last, map, is_some, if◌then◌else◌, ◌==◌, string_eq, nat_eq,
}
use mbrc_plugin.Base.Order.{StrictOrder, text_order, pair_order, pair_eq, pair_less}
use mbrc_plugin.Base.Sorting.{sort, dedup, member}
use mbrc_plugin.Base.Dict.{Dict}
use mbrc_plugin.Store.Ordered.{OrderedTables, range}

abbrev pub max_tombstones : ℕ
max_tombstones = 10_000

pub record Cursor : Type 0 where
  pub epoch : String
  pub generation : ℕ

pub record Continuation : Type 0 where
  pub epoch : String
  pub since : Option ℕ
  pub until : ℕ
  pub total : ℕ
  pub generation : ℕ
  pub src : String

pub record Change : Type 0 where
  pub generation : ℕ
  pub src : String
  pub live : Bool

pub data ChangePage : Type 0 where
  resync : (head : Cursor) → ChangePage
  changes : (head : Cursor) (total : ℕ) → List Change → (next : Option Continuation) → ChangePage

pub data ReadFrom : Type 0 where
  start : ReadFrom
  since : Cursor → ReadFrom
  resume : Continuation → ReadFrom

-- A row of `track_changes`: the generation of the path's latest change, and whether it is in the
-- library.
abbrev pub Filed : Type 0
Filed = ℕ × Bool

abbrev pub is_live : Option Filed → Bool
is_live none = false
is_live (some (g, l)) = l

-- The listed paths below `path`, and the others: the `while let` of `diff`.
unfoldable pub take_below : String → List String → List String × List String
take_below path [] = ([], [])
take_below path (p ∷ ps) =
    let (below, rest) = take_below path ps in
    if text_order.less p path then (p ∷ below, rest) else ([], p ∷ ps)

-- `peek().is_some_and(|p| p == path)`
abbrev pub starts_at : String → List String → Bool
starts_at path [] = false
starts_at path (p ∷ ps) = p == path

abbrev pub skip_if : Bool → List String → List String
skip_if false ps = ps
skip_if true [] = []
skip_if true (p ∷ ps) = ps

-- The merge of the ordered log with the sorted list: the paths added, and those removed.
unfoldable pub merge : Dict String Filed → List String → List String × List String
merge [] listed = (listed, [])
merge ((path, (g, live)) ∷ known) listed =
    let (below, rest) = take_below path listed in
    let still = starts_at path rest in
    let (added, removed) = merge known (skip_if still rest) in
    (
      below ++ (if still && not live then path ∷ added else added),
      if not still && live then path ∷ removed else removed,
    )

unfoldable pub diff : Dict String Filed → List String → List String × List String
diff known paths = let (added, removed) = merge known (dedup (sort paths)) in (sort added, removed)

-- The oldest tombstones in the log's order, until `count` of them are found.
unfoldable pub oldest_tombstones : ℕ → Dict (ℕ × String) Bool → List (ℕ × String)
oldest_tombstones count [] = []
oldest_tombstones count ((key, true) ∷ rows) = oldest_tombstones count rows
oldest_tombstones count ((key, false) ∷ rows) =
    let rest = oldest_tombstones (count - 1) rows in if leb count 1 then key ∷ [] else key ∷ rest

-- `saturating_sub(1)` for a tombstone that is filed again, and 1 more for a new one.
abbrev pub tombstones_after : Option Filed → Bool → ℕ → ℕ
tombstones_after none live n = if live then n else n + 1
tombstones_after (some (g, was_live)) live n =
    let kept = if was_live then n else n - 1 in if live then kept else kept + 1

abbrev pub in_library_after : Bool → Bool → ℕ → ℕ
in_library_after false true n = n + 1
in_library_after true false n = n - 1
in_library_after _ _ n = n

abbrev pub is_empty : List String → Bool
is_empty [] = true
is_empty (p ∷ ps) = false

-- The rows that a read from after `since` up to `until` serves; a read from the start leaves
-- deletes out.
abbrev pub starts_after : Option ℕ → ℕ × String → Bool
starts_after none key = true
starts_after (some g) key = ltb g key.0

abbrev pub serves : Option ℕ → Bool → Bool
serves none live = live
serves (some g) live = true

unfoldable pub served : Option ℕ → Dict (ℕ × String) Bool → List Change
served from [] = []
served from (((g, p), live) ∷ rows) =
    let rest = served from rows in
    if serves from live then record { generation = g; src = p; live = live } ∷ rest else rest

-- `None` before the log's first pass.
abbrev pub since_of : ReadFrom → Option ℕ
since_of start = none
since_of (since c) = some c.generation
since_of (resume c) = c.since

abbrev pub until_of : ReadFrom → ℕ → ℕ
until_of (resume c) generation = c.until
until_of _ generation = generation

abbrev pub is_foreign : ReadFrom → String → ℕ → Bool
is_foreign start epoch generation = false
is_foreign (since c) epoch generation = not (c.epoch == epoch)
is_foreign (resume c) epoch generation = not (c.epoch == epoch) || ltb generation c.until

abbrev pub is_unanswerable : Option ℕ → ℕ → ℕ → Bool
is_unanswerable none floor generation = false
is_unanswerable (some s) floor generation = ltb s floor || ltb generation s

-- The range's bounds: above the last change served, or from the generation after `since`.
abbrev pub above_lower : ReadFrom → ℕ × String → Bool
above_lower (resume c) key = pair_less (c.generation, c.src) key
above_lower from key = starts_after (since_of from) key

abbrev pub within : ReadFrom → ℕ → ℕ × String → Bool
within from until key = above_lower from key && leb key.0 until

abbrev pub total_of : ReadFrom → ℕ → ℕ → ℕ
total_of start in_library counted = in_library
total_of (since c) in_library counted = counted
total_of (resume c) in_library counted = c.total

abbrev pub continue_at : String → Option ℕ → ℕ → ℕ → Option Change → Option Continuation
continue_at epoch from until total none = none
continue_at epoch from until total (some c) = some (record {
  epoch = epoch;
  since = from;
  until = until;
  total = total;
  generation = c.generation;
  src = c.src;
})

module _ (K : OrderedTables String Filed) (L : OrderedTables (ℕ × String) Bool) where
  pub record ChangeLog : Type 0 where
    pub epoch : Option String
    pub generation : ℕ
    pub floor : ℕ
    pub tombstones : ℕ
    pub in_library : ℕ
    pub known : K.Table
    pub log : L.Table

  abbrev pub empty_log : ChangeLog
  empty_log = record {
    epoch = none;
    generation = 0;
    floor = 0;
    tombstones = 0;
    in_library = 0;
    known = K.new;
    log = L.new;
  }

  -- Whether the last listing filed `path` as in the music library.
  unfoldable pub live_in : ChangeLog → String → Bool
  live_in s path = is_live (K.get path s.known)

  unfoldable pub head : ChangeLog → Option Cursor
  head s = elim s.epoch [
    | none ↦ none
    | some e ↦ some (record { epoch = e; generation = s.generation })
  ]

  unfoldable pub live_among : List String → ChangeLog → List String
  unfolding live_in
  live_among [] s = []
  live_among (p ∷ ps) s = let rest = live_among ps s in if live_in s p then p ∷ rest else rest

  -- The updated paths that are in the library and were not just added.
  unfoldable pub edited_among : List String → List String → ChangeLog → List String
  unfolding live_in
  edited_among added [] s = []
  edited_among added (p ∷ ps) s =
      let rest = edited_among added ps s in
      if live_in s p && not (member p added) then p ∷ rest else rest

  abbrev pub without_old : String → Option Filed → L.Table → L.Table
  without_old path none log = log
  without_old path (some (g, l)) log = L.remove (g, path) log

  -- One round of the loop over the filings.
  unfoldable pub file_change : ℕ → String → Bool → ChangeLog → ChangeLog
  file_change next path live s =
      let was = K.get path s.known in
      record s {
        tombstones = tombstones_after was live s.tombstones;
        in_library = in_library_after (is_live was) live s.in_library;
        known = K.insert path (next, live) s.known;
        log = L.insert (next, path) live (without_old path was s.log);
      }

  unfoldable pub file_all : ℕ → Bool → List String → ChangeLog → ChangeLog
  file_all next live [] s = s
  file_all next live (p ∷ ps) s = file_all next live ps (file_change next p live s)

  unfoldable pub forget : List (ℕ × String) → ChangeLog → ChangeLog
  forget [] s = s
  forget ((g, p) ∷ keys) s =
      forget keys (record s { known = K.remove p s.known; log = L.remove (g, p) s.log })

  -- Drops the oldest tombstones past the bound; the newest generation dropped is the new floor.
  unfoldable pub trim : ChangeLog → ChangeLog
  trim s =
      if ltb max_tombstones s.tombstones
      then (let keys = oldest_tombstones (s.tombstones - max_tombstones) (L.rows s.log) in
          let s' = forget keys s in
          record s' {
            tombstones = max_tombstones;
            floor = elim (last keys) [ none ↦ s'.floor | some (g, p) ↦ g ];
          })
      else s

  abbrev pub changed_paths : Option (List String) → ChangeLog → List String × List String
  changed_paths none s = ([], [])
  changed_paths (some paths) s = diff (K.rows s.known) paths

  -- The pass itself, once the log has an epoch.
  unfoldable pub record_pass : Option (List String) → List String → ChangeLog → Option ℕ × ChangeLog
  record_pass paths updated s =
      let (added, removed) = changed_paths paths s in
      let edited = dedup (sort (edited_among added updated s)) in
      let next = s.generation + 1 in
      let filed =
        trim
          (file_all next false removed (file_all next true edited (file_all next true added s))) in
      if is_empty added && (is_empty removed && is_empty edited)
      then (none, s)
      else (some next, record filed { generation = next })

  unfoldable pub record_in :
      (new_epoch : String) → Option (List String) → List String → ChangeLog → Option ℕ × ChangeLog
  record_in new_epoch paths updated s = elim s.epoch [
    | some e ↦ record_pass paths updated s
    | none ↦
        if is_some paths
        then record_pass paths updated (record s { epoch = some new_epoch })
        else (none, s)
  ]

  unfoldable pub reset : ChangeLog → ChangeLog
  reset s = empty_log

  -- At a limit of 0 the source would panic on a full page; every caller passes 1 or more.
  unfoldable pub read : ReadFrom → (limit : ℕ) → ChangeLog → Option ChangePage
  unfolding head
  read from limit s = elim (head s) [
    | none ↦ none
    | some h ↦
        (let until = until_of from s.generation in
          let rows = range (within from until) (L.rows s.log) in
          let all = served (since_of from) rows in
          let page = take limit all in
          let total = total_of from s.in_library (length rows) in
          let more = ltb limit (length all) in
          let next =
            if more then continue_at h.epoch (since_of from) until total (last page) else none in
          if is_foreign from h.epoch s.generation
            || is_unanswerable (since_of from) s.floor s.generation
          then some (resync h)
          else some (changes (record { epoch = h.epoch; generation = until }) total page next))
  ]
