-- ===== src/V4/Dispatch.antt =====
-- The dispatch of every legacy context (`dispatch` of
-- packages/mbrc-core/src/server/commands/mod.rs), with the handlers that go by a list item, a path or
-- a playlist (nowplaying_list.rs, library.rs, playlists.rs) and those of the playing track (track.rs).
use mbrc_plugin.Base.{
  zero, suc, ◌+◌, String, Bool, false, Option, none, some, List, [], ◌∷◌, if◌then◌else◌, ◌==◌,
  string_eq, unwrap_or, or, any, ◌>>=◌ as ◌>>?◌,
}
use mbrc_plugin.Base.Int.{ℤ, pos, negsuc, to_i32}
use mbrc_plugin.Json.{Json, as_str, as_array}
use mbrc_plugin.Permissions.{QueueType}
use mbrc_plugin.V4.{
  Platform, android, parse_queue_type, as_set_string, as_int_lenient, as_bool_lenient,
}
use mbrc_plugin.V4.Host.{
  HostCall, play, pause, play_pause, stop, next, previous, set_position, set_tag, play_list_item,
  remove_list_item, move_list_item, search_list, queue, play_all, play_playlist, Host, pure, fail,
  call, read, ◌>>=◌, ◌>>◌,
}
use mbrc_plugin.V4.Handlers.{
  succeeded_at, code_200, value, Replies, Handler, one_reply, acked, call_if, volume, mute,
  scrobble, shuffle_mode, repeat_mode, output_switch, rating, lfm_rating,
}

-- `index -= 1` for Android, on an i32.
abbrev pub less_one : ℤ → ℤ
less_one (pos zero) = negsuc 0
less_one (pos (suc n)) = pos n
less_one (negsuc n) = to_i32 (negsuc (n + 1))

abbrev pub from_platform : Platform → ℤ → ℤ
from_platform android i = less_one i
from_platform _ i = i

-- What the handlers that change nothing answer.
pub record Queries (J : Json) (H : Host) : Type 0 where
  pub playback : H.World → Option J.Value
  pub details : H.World → Option J.Value
  pub query : String → J.Value → H.World → Option (List (String × J.Value))

-- The contexts that `dispatch` knows and that only read.
abbrev pub query_contexts : List String
query_contexts =
    "playerstatus" ∷ "playeroutput" ∷ "nowplayingtrack" ∷ "nowplayingdetails" ∷ "nowplayingcover"
    ∷ "nowplayinglyrics" ∷ "nowplayinglist" ∷ "browsegenres" ∷ "browseartists" ∷ "browsealbums"
    ∷ "browsetracks" ∷ "librarygenreartists" ∷ "libraryartistalbums" ∷ "libraryalbumtracks"
    ∷ "libraryalbumcover" ∷ "librarycovercachebuildstatus" ∷ "radiostations" ∷ "playlistlist"
    ∷ "pluginversion" ∷ "init" ∷ []

module _ (J : Json) where
  open J use {Value}

  -- The texts of an array.
  abbrev pub texts : List Value → List String
  texts [] = []
  texts (v ∷ vs) = let rest = texts vs in elim (as_str J v) [ none ↦ rest | some s ↦ s ∷ rest ]

module _ (J : Json) (H : Host) (Qs : Queries J H) where
  open J use {Value, field, kind}

  abbrev pub position_call : Option ℤ → Option HostCall
  position_call none = none
  position_call (some ms) = some (set_position (to_i32 ms))

  unfoldable pub current_position : Handler J H
  current_position = do at ← read Qs.playback; one_reply J H "nowplayingposition" (value at)

  unfoldable pub position : Value → Handler J H
  unfolding current_position
  position v = do call_if J H (position_call (as_int_lenient J v)); current_position

  abbrev pub text_at : String → Value → String
  text_at k v = unwrap_or (field v k >>? as_str J) ""

  abbrev pub int_at : String → Value → ℤ
  int_at k v = to_i32 (unwrap_or (field v k >>? as_int_lenient J) (pos 0))

  unfoldable pub tag_change : Value → Handler J H
  tag_change v = if text_at "tag" v == "" then fail else (do
    call H (set_tag (text_at "tag" v) (text_at "value" v))
    d ← read Qs.details
    one_reply J H "nowplayingdetails" (value d))

  unfoldable pub index_of : Value → ℤ
  index_of v =
      to_i32 (unwrap_or (or (as_int_lenient J v) (field v "index" >>? as_int_lenient J)) (pos 0))

  unfoldable pub play_item : Platform → Value → Handler J H
  unfolding index_of
  play_item platform v =
      acked J H "nowplayinglistplay" (play_list_item (from_platform platform (index_of v)))

  unfoldable pub remove : Value → Handler J H
  unfolding index_of
  remove v = do
    call H (remove_list_item (index_of v))
    one_reply J H "nowplayinglistremove" (succeeded_at (index_of v ∷ []))

  unfoldable pub move_track : Value → Handler J H
  move_track v = do
    call H (move_list_item (int_at "from" v) (int_at "to" v))
    one_reply J H "nowplayinglistmove" (succeeded_at (int_at "from" v ∷ int_at "to" v ∷ []))

  unfoldable pub search_tracks : Value → Handler J H
  search_tracks v =
      acked J H "nowplayinglistsearch" (search_list (unwrap_or (as_set_string J v) ""))

  abbrev pub queued_files : Value → List String
  queued_files v = texts J (unwrap_or (field v "data" >>? as_array J) [])

  abbrev pub queue_type_of : Value → QueueType
  queue_type_of v = parse_queue_type (unwrap_or (field v "queue" >>? as_str J) "next")

  unfoldable pub queue_files : Value → Handler J H
  queue_files v = do
    call H (queue (queue_type_of v) (queued_files v) (text_at "play" v))
    one_reply J H "nowplayingqueue" code_200

  unfoldable pub play_library : Value → Handler J H
  play_library v = acked J H "libraryplayall" (play_all (unwrap_or (as_bool_lenient J v) false))

  unfoldable pub play_list : Value → Handler J H
  play_list v = acked J H "playlistplay" (play_playlist (unwrap_or (as_str J v) ""))

  abbrev pub as_replies : List (String × Value) → Replies Value
  as_replies [] = []
  as_replies ((context, v) ∷ rest) = (context, value v) ∷ as_replies rest

  unfoldable pub answer : String → Value → Handler J H
  answer context v = do replies ← read (Qs.query context v); pure (as_replies replies)

  -- `none` where no handler is registered for the context.
  unfoldable pub dispatch :
      (accepts_current_position : Bool) → Platform → String → Value → Option (Handler J H)
  dispatch v5 platform context v =
      if context == "playerplay"
      then some (acked J H "playerplay" play)
      else if context == "playerpause"
      then some (acked J H "playerpause" pause)
      else if context == "playerplaypause"
      then some (acked J H "playerplaypause" play_pause)
      else if context == "playerstop"
      then some (acked J H "playerstop" stop)
      else if context == "playernext"
      then some (acked J H "playernext" next)
      else if context == "playerprevious"
      then some (acked J H "playerprevious" previous)
      else if context == "playervolume"
      then some (volume J H v)
      else if context == "playermute"
      then some (mute J H v)
      else if context == "playershuffle"
      then some (shuffle_mode J H v)
      else if context == "playerrepeat"
      then some (repeat_mode J H v)
      else if context == "scrobbler"
      then some (scrobble J H v)
      else if context == "playeroutputswitch"
      then some (output_switch J H v)
      else if context == "nowplayingposition"
      then some (position v)
      else if context == "nowplayingrating"
      then some (rating J H v)
      else if context == "nowplayinglfmrating"
      then some (lfm_rating J H v)
      else if context == "nowplayingtagchange"
      then some (tag_change v)
      else if context == "nowplayingcurrentposition"
      then (if v5 then some current_position else none)
      else if context == "nowplayinglistplay"
      then some (play_item platform v)
      else if context == "nowplayinglistremove"
      then some (remove v)
      else if context == "nowplayinglistmove"
      then some (move_track v)
      else if context == "nowplayinglistsearch"
      then some (search_tracks v)
      else if context == "nowplayingqueue"
      then some (queue_files v)
      else if context == "libraryplayall"
      then some (play_library v)
      else if context == "playlistplay"
      then some (play_list v)
      else if any (λ c. c == context) query_contexts
      then some (answer context v)
      else none
