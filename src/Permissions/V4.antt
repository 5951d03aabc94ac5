-- ===== src/Permissions/V4.antt =====
-- The action a legacy request performs: packages/mbrc-core/src/server/permissions/v4.rs.
use mbrc_plugin.Base.{
  ℕ, suc, String, Bool, false, ◌||◌, Option, none, some, List, [], ◌∷◌, any, if◌then◌else◌, ◌==◌,
  string_eq, unwrap_or, is_some, ◌>>=◌,
}
use mbrc_plugin.Json.{Json, as_str, as_array}
use mbrc_plugin.V4.{
  parse_repeat, parse_lfm, parse_queue_type, same_ignoring_case, as_set_string, as_int_lenient,
  as_bool_lenient,
}
use mbrc_plugin.Permissions.{
  Capability, playback, queue_replace, queue_edit, volume, modes, library_edit, output, Action,
  read, change, queue_action,
}

abbrev pub get_or_set : List String
get_or_set =
    "playervolume" ∷ "playermute" ∷ "scrobbler" ∷ "playershuffle" ∷ "playerrepeat"
    ∷ "nowplayingposition" ∷ "nowplayingrating" ∷ "nowplayinglfmrating" ∷ []

-- An arm of the match on the context.
unfoldable pub names : List String → String → Bool
names contexts context = any (λ c. c == context) contexts

abbrev pub playback_contexts : List String
playback_contexts =
    "playerplay" ∷ "playerpause" ∷ "playerplaypause" ∷ "playerstop" ∷ "playernext"
    ∷ "playerprevious" ∷ "nowplayinglistplay" ∷ "nowplayinglistsearch" ∷ []

abbrev pub read_contexts : List String
read_contexts =
    "playerstatus" ∷ "playeroutput" ∷ "nowplayingtrack" ∷ "nowplayingdetails" ∷ "nowplayingcover"
    ∷ "nowplayinglyrics" ∷ "nowplayingcurrentposition" ∷ "nowplayinglist" ∷ "browsegenres"
    ∷ "browseartists" ∷ "browsealbums" ∷ "browsetracks" ∷ "librarygenreartists"
    ∷ "libraryartistalbums" ∷ "libraryalbumtracks" ∷ "libraryalbumcover"
    ∷ "librarycovercachebuildstatus" ∷ "radiostations" ∷ "playlistlist" ∷ "pluginversion" ∷ "init"
    ∷ []

-- `matches!(text, Some("toggle" | "autodj" | "shuffle" | "off"))`
abbrev pub sets_shuffle : String → Bool
sets_shuffle t = (t == "toggle") || ((t == "autodj") || ((t == "shuffle") || (t == "off")))

abbrev pub set_if : Bool → Capability → Action
set_if sets c = if sets then change c else read

module _ (J : Json) where
  open J use {Value, field}

  abbrev pub text_is : (String → Bool) → Value → Bool
  text_is p v = elim (as_str J v) [ none ↦ false | some t ↦ p t ]

  abbrev pub toggles : Value → Bool
  toggles v = text_is (λ t. t == "toggle") v

  abbrev pub count_texts : List Value → ℕ
  count_texts [] = 0
  count_texts (v ∷ vs) =
      let rest = count_texts vs in if is_some (as_str J v) then suc rest else rest

  -- How many paths a `nowplayingqueue` request would queue.
  unfoldable pub queued_paths : Value → ℕ
  queued_paths v = elim (field v "data" >>= as_array J) [
    | none ↦ 0
    | some items ↦ count_texts items
  ]

  unfoldable pub action : String → Value → Option Action
  unfolding queued_paths
  action context v =
      if names playback_contexts context
      then some (change playback)
      else if context == "nowplayingposition"
      then some (set_if (is_some (as_int_lenient J v)) playback)
      else if context == "nowplayingqueue"
      then some (
          queue_action (parse_queue_type (unwrap_or (field v "queue" >>= as_str J) "next"))
            (some (queued_paths v)))
      else if names ("libraryplayall" ∷ "playlistplay" ∷ []) context
      then some (change queue_replace)
      else if names ("nowplayinglistremove" ∷ "nowplayinglistmove" ∷ []) context
      then some (change queue_edit)
      else if context == "playervolume"
      then some (set_if (is_some (as_int_lenient J v)) volume)
      else if context == "playermute"
      then some (set_if (toggles v || is_some (as_bool_lenient J v)) volume)
      else if context == "scrobbler"
      then some (set_if (toggles v || is_some (as_bool_lenient J v)) modes)
      else if context == "playershuffle"
      then some (set_if (text_is sets_shuffle v) modes)
      else if context == "playerrepeat"
      then some (set_if (text_is (λ t. (t == "toggle") || is_some (parse_repeat t)) v) modes)
      else if context == "nowplayingrating"
      then some (set_if (is_some (as_set_string J v)) library_edit)
      else if context == "nowplayinglfmrating"
      then some (
          set_if (text_is (λ t. same_ignoring_case t "toggle" || is_some (parse_lfm t)) v)
            library_edit)
      else if context == "nowplayingtagchange"
      then some (change library_edit)
      else if context == "playeroutputswitch"
      then some (change output)
      else if names read_contexts context
      then some read
      else none
