-- ===== src/V4/Judged/Contexts.antt =====
-- Every legacy context, against the map of actions.
use mathlib.Core.Path.{subst}
use text.Mathlib.TextEquality.{eq_iff}
use mbrc_plugin.Base.{
  String, Bool, true, false, ◌≡◌, refl, sym, Option, none, some, List, [], ◌∷◌, arith, All, any,
  if◌then◌else◌, ◌==◌, string_eq, ◌⊎◌, inl, inr, Bool-cases,
}
use mbrc_plugin.Json.{Json}
use mbrc_plugin.Permissions.{Action}
use mbrc_plugin.Permissions.V4.{action, names}
use mbrc_plugin.V4.{Platform}
use mbrc_plugin.V4.Host.{Host}
use mbrc_plugin.V4.Handlers.{Handler}
use mbrc_plugin.V4.Dispatch.{Queries, dispatch, current_position, query_contexts}
use mbrc_plugin.V4.Judged.{
  MakesOnly, volume-MakesOnly, mute-MakesOnly, scrobble-MakesOnly, shuffle_mode-MakesOnly,
  repeat_mode-MakesOnly, output_switch-MakesOnly, rating-MakesOnly, lfm_rating-MakesOnly,
  acked-MakesOnly, position-MakesOnly, current_position-MakesOnly, tag_change-MakesOnly,
  play_item-MakesOnly, remove-MakesOnly, move_track-MakesOnly, search_tracks-MakesOnly,
  play_library-MakesOnly, play_list-MakesOnly, answer-MakesOnly, queue_files-MakesOnly,
}

abbrev pub acting_contexts : List String
acting_contexts =
    "playerplay" ∷ "playerpause" ∷ "playerplaypause" ∷ "playerstop" ∷ "playernext"
    ∷ "playerprevious" ∷ "playervolume" ∷ "playermute" ∷ "playershuffle" ∷ "playerrepeat"
    ∷ "scrobbler" ∷ "playeroutputswitch" ∷ "nowplayingposition" ∷ "nowplayingrating"
    ∷ "nowplayinglfmrating" ∷ "nowplayingtagchange" ∷ "nowplayingcurrentposition"
    ∷ "nowplayinglistplay" ∷ "nowplayinglistremove" ∷ "nowplayinglistmove" ∷ "nowplayinglistsearch"
    ∷ "nowplayingqueue" ∷ "libraryplayall" ∷ "playlistplay" ∷ []

infixr 4 ◌&◌
abbrev ◌&◌ : {P R : Type 0} → P → R → P × R
p & r = (p, r)

-- A text is one of the list, or differs from each.
pub one_of_or_none :
    (P : String → Type 0) (contexts : List String) (context : String)
    → All P contexts
    → P context ⊎ All (λ c. (context == c) ≡ false) contexts
one_of_or_none P [] context h = inr tt
one_of_or_none P (c ∷ contexts) context (h, hs) = elim (Bool-cases (context == c)) [
  | inl same ↦ inl (subst P (sym ((eq_iff context c).0 same)) h)
  | inr differs ↦ elim (one_of_or_none P contexts context hs) [
    | inl p ↦ inl p
    | inr rest ↦ inr (differs, rest)
  ]
]

pub any-false :
    (contexts : List String) (context : String)
    → All (λ c. (context == c) ≡ false) contexts
    → any (λ c. c == context) contexts ≡ false
any-false [] context h = refl
any-false (c ∷ contexts) context (h, hs) =
    ground (arith, any-false contexts context hs, eq_iff context c, eq_iff c context)

no_query :
    (context : String)
    → All (λ c. (context == c) ≡ false) query_contexts
    → any (λ c. c == context) query_contexts ≡ false
no_query context h = any-false query_contexts context h

module _ (J : Json) (H : Host) (Qs : Queries J H) (v5 : Bool) (platform : Platform) where
  open J use {Value}

  -- A handler is judged by an action that covers its calls.
  abbrev pub IsJudged : Option Action → Option (Handler J H) → Type 0
  IsJudged a none = Unit
  IsJudged none (some h) = ⊥
  IsJudged (some a) (some h) = MakesOnly J H a h

  abbrev pub Judges : Value → String → Type 0
  Judges v context = IsJudged (action J context v) (dispatch J H Qs v5 platform context v)

  current-IsJudged :
      (b : Bool) → IsJudged (some Action.read) (if b then some (current_position J H Qs) else none)
  current-IsJudged true = current_position-MakesOnly J H Qs
  current-IsJudged false = tt

  acting_judged : (v : Value) → All (Judges v) acting_contexts
  unfolding action dispatch names
  acting_judged v =
      acked-MakesOnly J H _ "playerplay" _ refl refl
      & acked-MakesOnly J H _ "playerpause" _ refl refl
      & acked-MakesOnly J H _ "playerplaypause" _ refl refl
      & acked-MakesOnly J H _ "playerstop" _ refl refl
      & acked-MakesOnly J H _ "playernext" _ refl refl
      & acked-MakesOnly J H _ "playerprevious" _ refl refl
      & volume-MakesOnly J H v
      & mute-MakesOnly J H v
      & shuffle_mode-MakesOnly J H v
      & repeat_mode-MakesOnly J H v
      & scrobble-MakesOnly J H v
      & output_switch-MakesOnly J H v
      & position-MakesOnly J H Qs v
      & rating-MakesOnly J H v
      & lfm_rating-MakesOnly J H v
      & tag_change-MakesOnly J H Qs v
      & current-IsJudged v5
      & play_item-MakesOnly J H Qs platform v
      & remove-MakesOnly J H Qs v
      & move_track-MakesOnly J H Qs v
      & search_tracks-MakesOnly J H Qs v
      & queue_files-MakesOnly J H Qs v
      & play_library-MakesOnly J H Qs v
      & play_list-MakesOnly J H Qs v
      & tt

  query_judged : (v : Value) → All (Judges v) query_contexts
  unfolding action dispatch names
  query_judged v =
      let reads = λ (context : String). answer-MakesOnly J H Qs context v in
      reads _
      & reads _
      & reads _
      & reads _
      & reads _
      & reads _
      & reads _
      & reads _
      & reads _
      & reads _
      & reads _
      & reads _
      & reads _
      & reads _
      & reads _
      & reads _
      & reads _
      & reads _
      & reads _
      & reads _
      & tt

  -- A context that is no acting one and no query has no handler.
  dispatch-none :
      (context : String) (v : Value)
      → All (λ c. (context == c) ≡ false) acting_contexts
      → any (λ c. c == context) query_contexts ≡ false
      → dispatch J H Qs v5 platform context v ≡ none
  unfolding dispatch
  dispatch-none context v h k = ground arith

  none-IsJudged : (a : Option Action) → IsJudged a none
  none-IsJudged none = tt
  none-IsJudged (some a) = tt

  -- Every context that a legacy client can send either has no handler, or an action in the map that
  -- covers each call on MusicBee that its handler makes: a request that is judged a read makes none,
  -- a change only calls of its capability, and a queueing adds just as many tracks as it was judged
  -- by.
  pub dispatch-Judges : (context : String) (v : Value) → Judges v context
  dispatch-Judges context v =
      elim (one_of_or_none (Judges v) acting_contexts context (acting_judged v)) [
        | inl judged ↦ judged
        | inr other ↦ elim (one_of_or_none (Judges v) query_contexts context (query_judged v)) [
          | inl judged ↦ judged
          | inr unknown ↦
              subst (IsJudged (action J context v))
                (sym (dispatch-none context v other (no_query context unknown)))
                (none-IsJudged (action J context v))
        ]
      ]
