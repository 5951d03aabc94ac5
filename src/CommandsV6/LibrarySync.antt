-- ===== src/CommandsV6/LibrarySync.antt =====
-- `library_changes` (packages/mbrc-core/src/server/commands_v6/library_sync.rs): the page of the
-- change log that a request asks for, as JSON. The tracks of a page's paths come from `describe`,
-- which stands for `track::tags_for_paths` with the rendering of each track: a list of paths with
-- the JSON of their tracks, or the host's error.
pub mod Requests
pub mod Pages
use Prim.Native.String
use mbrc_plugin.Base.{
  ℕ, String, Bool, true, false, Option, none, some, List, [], ◌∷◌, if◌then◌else◌, ◌==◌, string_eq,
}
use mbrc_plugin.Base.Dict
use mbrc_plugin.Base.Dict.{Dict}
use mbrc_plugin.Json.{Json, Kind, null, object, string, number, as_u64}
use mbrc_plugin.Json.Build.{JsonBuild}
use mbrc_plugin.Wire.V6.{unavailable}
use mbrc_plugin.Store.Ordered.{OrderedTables}
use mbrc_plugin.LibraryChanges
use mbrc_plugin.LibraryChanges.{
  Filed, ChangeLog, Change, Cursor, Continuation, ChangePage, resync, changes, ReadFrom, start,
  since, resume,
}
use mbrc_plugin.CommandsV6.{
  OpResult, done, fails, ◌>>>◌, missing, wrong, or_wrong, clamp_or, opt_i64,
}
use mbrc_plugin.Base.Order.{text_order, pair_order, pair_eq}

abbrev pub default_limit : ℕ
default_limit = 1000

abbrev pub max_limit : ℕ
max_limit = 5000

abbrev pub read_from : Option Continuation → Option Cursor → ReadFrom
read_from (some after) s = resume after
read_from none (some s) = since s
read_from none none = start

abbrev pub qualified : String → String → String
qualified parent name = String.◌++◌ parent (String.◌++◌ "." name)

unfoldable pub live_paths : List Change → List String
live_paths [] = []
live_paths (c ∷ cs) = if c.live then c.src ∷ live_paths cs else live_paths cs

-- Collects the described tracks; the last of a path stands.
unfoldable pub collect : {V : Type 0} → Dict String V → List (String × V) → Dict String V
unfolding Dict.insert
collect m [] = m
collect m ((path, track) ∷ rest) = collect (Dict.insert path track m) rest

module _ (J : Json) (B : JsonBuild J) where
  open J use {Value, kind, field}
  open B use {nothing, flag, num, text, list_of, object_of}

  abbrev pub text_of : String → Kind Value → OpResult String
  text_of name (string s) = done s
  text_of name _ = wrong name " must be a string"

  abbrev pub number_of : String → Kind Value → OpResult ℕ
  number_of name (number n) = or_wrong name " must be a non-negative integer" n
  number_of name _ = wrong name " must be a non-negative integer"

  abbrev pub object_of_kind : String → Value → Kind Value → OpResult (Option Value)
  object_of_kind name v null = done none
  object_of_kind name v object = done (some v)
  object_of_kind name v _ = wrong name " must be an object"

  abbrev pub object_at : String → Option Value → OpResult (Option Value)
  object_at name none = done none
  object_at name (some v) = object_of_kind name v (kind v)

  unfoldable pub object_arg : Value → String → OpResult (Option Value)
  object_arg v name = object_at name (field v name)

  abbrev pub str_at : String → Option Value → OpResult String
  str_at name none = missing name
  str_at name (some v) = text_of name (kind v)

  abbrev pub u64_at : String → Option Value → OpResult ℕ
  u64_at name none = missing name
  u64_at name (some v) = number_of name (kind v)

  unfoldable pub field_str : Value → String → String → OpResult String
  field_str v parent name = str_at (qualified parent name) (field v name)

  unfoldable pub field_u64 : Value → String → String → OpResult ℕ
  field_u64 v parent name = u64_at (qualified parent name) (field v name)

  abbrev pub cursor_of : Option Value → OpResult (Option Cursor)
  cursor_of none = done none
  cursor_of (some v) = field_str v "since" "epoch" >>> (λ e.
      field_u64 v "since" "generation"
      >>> (λ g. done (some (record { epoch = e; generation = g }))))

  unfoldable pub cursor_arg : Value → OpResult (Option Cursor)
  cursor_arg v = object_arg v "since" >>> cursor_of

  abbrev pub since_kind : Value → Kind Value → OpResult (Option ℕ)
  since_kind after null = done none
  since_kind after _ = field_u64 after "after" "since" >>> (λ n. done (some n))

  abbrev pub since_at : Value → Option Value → OpResult (Option ℕ)
  since_at after none = done none
  since_at after (some v) = since_kind after (kind v)

  abbrev pub continuation_of : Option Value → OpResult (Option Continuation)
  continuation_of none = done none
  continuation_of (some v) = since_at v (field v "since") >>> (λ s.
      field_str v "after" "epoch" >>> (λ e. field_u64 v "after" "until" >>> (λ u.
        field_u64 v "after" "total" >>> (λ t. field_u64 v "after" "generation" >>> (λ g.
          field_str v "after" "src" >>> (λ p. done (
            some (record {
              epoch = e;
              since = s;
              until = u;
              total = t;
              generation = g;
              src = p;
            }))))))))

  unfoldable pub continuation_arg : Value → OpResult (Option Continuation)
  continuation_arg v = object_arg v "after" >>> continuation_of

  abbrev pub num_or_null : Option ℕ → Value
  num_or_null none = nothing
  num_or_null (some n) = num n

  unfoldable pub continuation_json : Continuation → Value
  continuation_json c = object_of (
      ("epoch", text c.epoch)
      ∷ ("since", num_or_null c.since)
      ∷ ("until", num c.until)
      ∷ ("total", num c.total)
      ∷ ("generation", num c.generation)
      ∷ ("src", text c.src)
      ∷ [])

  abbrev pub next_json : Option Continuation → Value
  next_json none = nothing
  next_json (some c) = continuation_json c

  abbrev pub upsert : Option Value → List Value → List Value
  upsert none rest = rest
  upsert (some track) rest = object_of (("change", text "upsert") ∷ ("track", track) ∷ []) ∷ rest

  abbrev pub delete : String → Value
  delete path = object_of (("change", text "delete") ∷ ("src", text path) ∷ [])

  -- The items of a page; a path that is not described is left out.
  unfoldable pub items_of : (String → Option Value) → List Change → List Value
  items_of by_path [] = []
  items_of by_path (c ∷ cs) =
      let rest = items_of by_path cs in
      if c.live then upsert (by_path c.src) rest else delete c.src ∷ rest

  unfoldable pub page_object :
      Cursor → (resync : Bool) → (total : ℕ) → List Value → (next : Value) → Value
  page_object head again total items next = object_of (
      ("epoch", text head.epoch)
      ∷ ("generation", num head.generation)
      ∷ ("resync", flag again)
      ∷ ("total", num total)
      ∷ ("items", list_of items)
      ∷ ("next", next)
      ∷ [])

  module _ (describe : List String → OpResult (List (String × Value))) where
    unfoldable pub items : List Change → OpResult (List Value)
    unfolding items_of
    items cs =
        describe (live_paths cs)
        >>> (λ tracks. done (items_of (λ path. Dict.get path (collect [] tracks)) cs))

    abbrev pub page_json : Option ChangePage → OpResult Value
    page_json none =
        fails unavailable "the library index is being built; retry on library_changed" none
    page_json (some (resync head)) = done (page_object head true 0 [] nothing)
    page_json (some (changes head total cs next)) =
        items cs >>> (λ vs. done (page_object head false total vs (next_json next)))

  module _ (K : OrderedTables String Filed) (L : OrderedTables (ℕ × String) Bool) where
    -- The cache of metadata, as far as the operation reads it.
    pub record Index : Type 0 where
      pub is_validated : Bool
      pub log : ChangeLog K L

    abbrev pub read_index : ReadFrom → ℕ → Option Index → Option ChangePage
    read_index from limit none = none
    read_index from limit (some i) =
        let page = LibraryChanges.read K L from limit i.log in if i.is_validated then page else none

    -- `library_changes`
    unfoldable pub changes_op :
        (describe : List String → OpResult (List (String × Value)))
        → Value
        → Option Index
        → OpResult Value
    changes_op describe v index = cursor_arg v >>> (λ s. continuation_arg v >>> (λ after.
        opt_i64 J v "limit" >>> (λ limit.
          page_json describe
            (read_index (read_from after s) (clamp_or 1 max_limit default_limit limit) index))))
