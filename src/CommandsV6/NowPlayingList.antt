-- ===== src/CommandsV6/NowPlayingList.antt =====
-- The operations on the now-playing list that change it
-- (packages/mbrc-core/src/server/commands_v6/nowplaying_list.rs). MusicBee is a parameter: a world
-- of any type, whose list of paths can be read, and calls that it answers with an error or none. The
-- version is that of the cache of what is playing, `none` without one. `now_playing_list` only reads
-- and is not modelled.
pub mod Slots
pub mod Removal
pub mod Versions
use Prim.Native.String
use mbrc_plugin.Base.{
  ℕ, ◌+◌, String, Bool, true, false, not, ◌&&◌, ◌||◌, ◌⊎◌, inl, inr, Option, none, some, List, [],
  ◌∷◌, ltb, leb, length, if◌then◌else◌, ◌==◌, string_eq, nat_eq, unwrap_or, ◌>>=◌,
}
use mbrc_plugin.Base.Int.{ℤ, pos, negsuc}
use mbrc_plugin.Base.Order.{StrictOrder, descending}
use mbrc_plugin.Base.Sorting.{sort}
use mbrc_plugin.Json.{Json, Kind, array, as_str}
use mbrc_plugin.Json.Build.{JsonBuild}
use mbrc_plugin.Wire.V6.{invalid_field, stale_list}
use mbrc_plugin.Permissions.{QueueType}
use mbrc_plugin.Permissions.V6.{parse_queue_type}
use mbrc_plugin.CommandsV6.{
  OpResult, done, fails, ◌>>>◌, missing, wrong, failure, or_wrong, max_i32, i32_saturating, req_i64,
  req_str, req_str_array, opt_i64,
}

-- What the handlers ask of the host.
pub data QueueCall : Type 0 where
  play_list_item : (index : ℤ) → QueueCall
  remove_list_item : (index : ℤ) → QueueCall
  move_list_item : (from to : ℤ) → QueueCall
  clear_list : QueueCall
  search_list : (query : String) → QueueCall
  queue : QueueType → List String → (play : String) → QueueCall

pub record QueueHost : Type 1 where
  pub World : Type 0
  -- `now_playing_list_paths`, with its error on the left.
  pub paths : World → String ⊎ List String
  pub call : QueueCall → World → Option String × World

abbrev pub or_internal : {A : Type 0} → String ⊎ A → OpResult A
or_internal (inl e) = failure e
or_internal (inr x) = done x

abbrev pub same_int : ℤ → ℤ → Bool
same_int (pos m) (pos n) = m == n
same_int (negsuc m) (negsuc n) = m == n
same_int _ _ = false

-- The version a page is served with, 0 without a cache.
abbrev pub list_version : Option ℕ → ℕ
list_version version = unwrap_or version 0

abbrev pub bump_version : Option ℕ → Option ℕ
bump_version none = none
bump_version (some n) = some (n + 1)

abbrev pub unless_stale : Option ℤ → Option ℕ → OpResult Unit
unless_stale none version = done tt
unless_stale (some expected) version =
    if same_int expected (pos (list_version version))
    then done tt
    else fails stale_list "the now-playing list changed; re-read it and retry" none

-- `windows(2).any` of the sorted orders.
unfoldable pub repeats : List ℕ → Bool
repeats [] = false
repeats (o ∷ []) = false
repeats (o ∷ p ∷ os) = (o == p) || repeats (p ∷ os)

abbrev pub order_of : ℤ → Option ℕ
order_of (negsuc n) = none
order_of (pos n) = if leb n max_i32 then some n else none

abbrev pub unless_repeated : String → List ℕ → OpResult (List ℕ)
unless_repeated name os = if repeats os then wrong name " must not repeat" else done os

module _ (J : Json) where
  open J use {Value, kind, field, int}

  unfoldable pub check_version : Value → Option ℕ → OpResult Unit
  check_version v version = opt_i64 J v "version" >>> (λ expected. unless_stale expected version)

  unfoldable pub orders_of : String → List Value → OpResult (List ℕ)
  orders_of name [] = done []
  orders_of name (v ∷ vs) =
      or_wrong name " must hold non-negative integers" (int v >>= order_of)
      >>> (λ o. orders_of name vs >>> (λ os. done (o ∷ os)))

  abbrev pub orders_in : String → Kind Value → OpResult (List ℕ)
  orders_in name (array []) = wrong name " must be a non-empty array"
  orders_in name (array (v ∷ vs)) = orders_of name (v ∷ vs)
  orders_in name _ = wrong name " must be a non-empty array"

  abbrev pub orders_at : String → Option Value → OpResult (List ℕ)
  orders_at name none = missing name
  orders_at name (some v) = orders_in name (kind v)

  unfoldable pub orders_highest_first : Value → String → OpResult (List ℕ)
  orders_highest_first v name =
      orders_at name (field v name) >>> (λ os. unless_repeated name (sort ⦃o = descending⦄ os))

module _ (J : Json) (B : JsonBuild J) (H : QueueHost) where
  open J use {Value, kind, field}
  open H use {World, paths, call}

  pub record Step : Type 0 where
    pub answer : OpResult Value
    pub version : Option ℕ
    pub world : World

  abbrev pub answers : OpResult Value → Option ℕ → World → Step
  answers r version w = record { answer = r; version = version; world = w }

  abbrev pub empty : Value
  empty = B.object_of []

  -- The `?` operator in a handler.
  abbrev pub unless_fails : {A : Type 0} → OpResult A → Option ℕ → World → (A → Step) → Step
  unless_fails (fails code message at) version w k = answers (fails code message at) version w
  unless_fails (done x) version w k = k x

  abbrev pub mutated : Option String × World → Option ℕ → Step
  mutated (none, w) version = answers (done empty) (bump_version version) w
  mutated (some e, w) version = answers (failure e) version w

  abbrev pub guarded : Value → QueueCall → Option ℕ → World → Step
  guarded v c version w =
      unless_fails (check_version J v version) version w (λ _. mutated (call c w) version)

  unfoldable pub play : Value → Option ℕ → World → Step
  play v version w =
      unless_fails (req_i64 J v "order") version w
        (λ o. guarded v (play_list_item (i32_saturating o)) version w)

  unfoldable pub move_item : Value → Option ℕ → World → Step
  move_item v version w = unless_fails (req_i64 J v "from") version w (λ from.
      unless_fails (req_i64 J v "to") version w
        (λ to. guarded v (move_list_item (i32_saturating from) (i32_saturating to)) version w))

  unfoldable pub clear : Value → Option ℕ → World → Step
  clear v version w = guarded v clear_list version w

  -- `try_for_each`: stops at the first failure.
  abbrev pub unless_failed :
      Option String × World → (World → Option String × World) → Option String × World
  unless_failed (none, w) k = k w
  unless_failed (some e, w) k = (some e, w)

  unfoldable pub remove_all : List ℕ → World → Option String × World
  remove_all [] w = (none, w)
  remove_all (o ∷ os) w = unless_failed (call (remove_list_item (pos o)) w) (remove_all os)

  -- The version moves even when a removal fails.
  abbrev pub removed : Option String × World → Option ℕ → Step
  removed (none, w) version = answers (done empty) (bump_version version) w
  removed (some e, w) version = answers (failure e) (bump_version version) w

  abbrev pub past_end : (highest len : ℕ) → OpResult Value
  past_end highest len =
      fails invalid_field
        (String.◌++◌ "order " (
          String.◌++◌ (J.show (B.num highest)) (
            String.◌++◌ " is past the end of a "
              (String.◌++◌ (J.show (B.num len)) "-track queue"))))
        (some "orders")

  -- The orders are not empty once they are read.
  abbrev pub remove_within : List ℕ → (len : ℕ) → Option ℕ → World → Step
  remove_within [] len version w = removed (none, w) version
  remove_within (o ∷ os) len version w =
      let all = removed (remove_all (o ∷ os) w) version in
      if leb len o then answers (past_end o len) version w else all

  unfoldable pub remove : Value → Option ℕ → World → Step
  remove v version w = unless_fails (orders_highest_first J v "orders") version w (λ os.
      unless_fails (check_version J v version) version w (λ _.
        unless_fails (or_internal (paths w)) version w
          (λ ps. remove_within os (length ps) version w)))

  abbrev pub called : Option String × World → Option ℕ → Step
  called (none, w) version = answers (done empty) version w
  called (some e, w) version = answers (failure e) version w

  unfoldable pub search : Value → Option ℕ → World → Step
  search v version w =
      unless_fails (req_str J v "query") version w (λ q. called (call (search_list q) w) version)

  abbrev pub text_or : String → Option Value → String
  text_or other v = unwrap_or (v >>= as_str J) other

  abbrev pub placement : String → OpResult QueueType
  placement mode = elim (parse_queue_type mode) [
    | none ↦ fails invalid_field (String.◌++◌ "unknown queue mode: " mode) none
    | some t ↦ done t
  ]

  unfoldable pub queue_files : Value → Option ℕ → World → Step
  queue_files v version w = unless_fails (req_str_array J v "paths") version w (λ files.
      unless_fails (placement (text_or "next" (field v "mode"))) version w
        (λ t. called (call (queue t files (text_or "" (field v "play"))) w) version))

  -- The operations of the list that change it; `none` is an operation of another part, or the one
  -- that reads.
  unfoldable pub dispatch : (op : String) → Value → Option ℕ → World → Option Step
  dispatch op v version w =
      if op == "now_playing_list_play"
      then some (play v version w)
      else if op == "now_playing_list_remove"
      then some (remove v version w)
      else if op == "now_playing_list_move"
      then some (move_item v version w)
      else if op == "now_playing_list_clear"
      then some (clear v version w)
      else if op == "now_playing_list_search"
      then some (search v version w)
      else if op == "now_playing_queue"
      then some (queue_files v version w)
      else none
