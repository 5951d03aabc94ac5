-- ===== src/CommandsV6/LibrarySync/Pages.antt =====
-- A client that calls `library_changes`, and calls it again with the `next` of each reply as `after`
-- until that is null.
use mbrc_plugin.Base.{
  ℕ, zero, suc, String, Bool, true, false, ◌≡◌, refl, sym, ap, ◌∙◌, Option, none, some, List, [],
  ◌∷◌, ◌++◌, Bool-cases, inl, inr, if◌then◌else◌, string_eq, arith, unwrap_or, ◌>>=◌, ltb,
}
use mbrc_plugin.Base.Dict
use mbrc_plugin.Base.Dict.{Dict}
use mbrc_plugin.Base.Int.{ℤ, pos, negsuc}
use mbrc_plugin.Base.Order.{text_order, pair_order, pair_eq}
use mbrc_plugin.Base.Sorting.{member}
use mbrc_plugin.Json.{Json, Kind, null, object, as_array}
use mbrc_plugin.Json.Build.{JsonBuild}
use mbrc_plugin.Store.Ordered.{OrderedTables}
use mbrc_plugin.LibraryChanges
use mbrc_plugin.LibraryChanges.{
  Filed, ChangeLog, Change, Cursor, Continuation, ChangePage, resync, changes, ReadFrom, start,
  since, resume,
}
use mbrc_plugin.LibraryChanges.Read.Pages.{
  prepend, follow, read_all, whole, IsAnswerable, enough, read_all-enough,
}
use mbrc_plugin.CommandsV6.{OpResult, done, fails, clamp, clamp_or, as_bool}
use mbrc_plugin.CommandsV6.LibrarySync.{
  default_limit, max_limit, live_paths, collect, continuation_json, items_of, upsert, items,
  page_object, page_json, Index, changes_op,
}
use mbrc_plugin.CommandsV6.LibrarySync.Requests.{
  limit_of, request, request-cursor_arg, request-continuation_arg, request-opt_i64, read_from_lem,
}

upsert-append :
    (J : Json) (B : JsonBuild J) (o : Option J.Value) (vs ws : List J.Value)
    → upsert J B o (vs ++ ws) ≡ upsert J B o vs ++ ws
upsert-append J B none vs ws = refl
upsert-append J B (some v) vs ws = refl

items_of-append :
    (J : Json) (B : JsonBuild J) (t : String → Option J.Value) (cs ds : List Change)
    → items_of J B t (cs ++ ds) ≡ items_of J B t cs ++ items_of J B t ds
unfolding items_of
items_of-append J B t [] ds = refl
items_of-append J B t (c ∷ cs) ds = elim (Bool-cases c.live) [
  | inl l ↦ rw (l, items_of-append J B t cs ds) (upsert-append J B (t c.src) _ _)
  | inr l ↦ rw (l, items_of-append J B t cs ds)
]

clamp_pos : (z : ℤ) → (n : ℕ) × (clamp 1 max_limit z ≡ suc n)
unfolding clamp
clamp_pos (negsuc n) = (0, refl)
clamp_pos (pos zero) = (0, refl)
clamp_pos (pos (suc n)) = elim (Bool-cases (ltb max_limit (suc n))) [
  | inl big ↦ (4999, ground arith)
  | inr small ↦ (n, ground arith)
]

clamp_or_pos : (z : Option ℤ) → (n : ℕ) × (clamp_or 1 max_limit default_limit z ≡ suc n)
clamp_or_pos none = clamp_pos (pos default_limit)
clamp_or_pos (some z) = clamp_pos z

module _ (J : Json) (B : JsonBuild J) where
  open J use {Value, kind, field}
  open B use {nothing, object_of}

  -- What a client reads from a reply: whether to start over, the items, and the `next`.
  abbrev items_in : Option Value → List Value
  items_in none = []
  items_in (some v) = unwrap_or (as_array J v) []

  abbrev unless_nothing : Value → Kind Value → Option Value
  unless_nothing v null = none
  unless_nothing v _ = some v

  abbrev next_in : Option Value → Option Value
  next_in none = none
  next_in (some v) = unless_nothing v (kind v)

  abbrev pub joined : List Value → Option (List Value) → Option (List Value)
  joined vs none = none
  joined vs (some ws) = some (vs ++ ws)

  abbrev received : List Value → Option Value → (Value → Option (List Value)) → Option (List Value)
  received vs none k = some vs
  received vs (some next) k = joined vs (k next)

  abbrev pub answered : OpResult Value → (Value → Option (List Value)) → Option (List Value)
  answered (fails code message at) k = none
  answered (done v) k =
      let rest = received (items_in (field v "items")) (next_in (field v "next")) k in
      if unwrap_or (field v "resync" >>= as_bool J) false then none else rest

  abbrev wire_items : (String → Option Value) → Option (List Change) → Option (List Value)
  wire_items t none = none
  wire_items t (some cs) = some (items_of J B t cs)

  joined-wire_items :
      (t : String → Option Value) (cs : List Change) (o : Option (List Change))
      → joined (items_of J B t cs) (wire_items t o) ≡ wire_items t (prepend cs o)
  joined-wire_items t cs none = refl
  joined-wire_items t cs (some ds) = ap (λ vs. some vs) (sym (items_of-append J B t cs ds))

  -- The host describes the live paths that it is asked for as `t` does.
  abbrev pub Describes :
      (describe : List String → OpResult (List (String × Value))) → (String → Option Value) → Type 0
  Describes describe t =
      (ps : List String)
      → (tracks : List (String × Value)) × (describe ps ≡ done tracks)
        × ((p : String) → member p ps ≡ true → Dict.get p (collect [] tracks) ≡ t p)

  items_of_agree :
      (t u : String → Option Value) (cs : List Change)
      → ((p : String) → member p (live_paths cs) ≡ true → t p ≡ u p)
      → items_of J B t cs ≡ items_of J B u cs
  unfolding items_of live_paths member
  items_of_agree t u [] h = refl
  items_of_agree t u (c ∷ cs) h = elim (Bool-cases c.live) [
    | inl l ↦
        let ih = items_of_agree t u cs (λ p m. h p (ground arith)) in
        rw (l, ih, h c.src (ground (arith, string_eq.same_iff c.src c.src)))
    | inr l ↦ rw (l, items_of_agree t u cs (λ p m. h p (ground arith)))
  ]

  items_lem :
      (describe : List String → OpResult (List (String × Value))) (t : String → Option Value)
      (cs : List Change)
      → Describes describe t
      → items J B describe cs ≡ done (items_of J B t cs)
  unfolding items
  items_lem describe t cs d =
      let (tracks, e, same) = d (live_paths cs) in
      rw e (ap (λ vs. done vs) (items_of_agree (λ p. Dict.get p (collect [] tracks)) t cs same))

  as_bool-flag : (b : Bool) → as_bool J (B.flag b) ≡ some b
  as_bool-flag b = rw (B.kind-flag b, as_bool)

  as_array-list_of : (vs : List Value) → as_array J (B.list_of vs) ≡ some vs
  as_array-list_of vs = rw (B.kind-list_of vs, as_array)

  answered-page_object :
      (head : Cursor) (again : Bool) (total : ℕ) (vs : List Value) (next : Value)
      (k : Value → Option (List Value))
      → answered (done (page_object J B head again total vs next)) k
        ≡ (if again then none else received vs (unless_nothing next (kind next)) k)
  unfolding page_object Dict.get
  answered-page_object head again total vs next k =
      simp (B.field-object_of, as_bool-flag, as_array-list_of)

  kind-continuation_json : (c : Continuation) → kind (continuation_json J B c) ≡ object
  unfolding continuation_json
  kind-continuation_json c = B.kind-object_of _

  answered-page_json :
      (describe : List String → OpResult (List (String × Value))) (t : String → Option Value)
      (k : Value → Option (List Value)) (k' : Continuation → Option (List Change))
      (page : Option ChangePage)
      → Describes describe t
      → ((c : Continuation) → k (continuation_json J B c) ≡ wire_items t (k' c))
      → answered (page_json J B describe page) k ≡ wire_items t (follow page k')
  answered-page_json describe t k k' none d same = refl
  answered-page_json describe t k k' (some (resync head)) d same =
      answered-page_object head true 0 [] nothing k
  answered-page_json describe t k k' (some (changes head total cs none)) d same = rw (
    items_lem describe t cs d,
    answered-page_object head false total (items_of J B t cs) nothing k,
    B.kind-nothing,
  )
  answered-page_json describe t k k' (some (changes head total cs (some c))) d same =
      rw
        (
          items_lem describe t cs d,
          answered-page_object head false total (items_of J B t cs) (continuation_json J B c) k,
          kind-continuation_json c,
          same c,
        )
        (joined-wire_items t cs (k' c))

  module _ (K : OrderedTables String Filed) (L : OrderedTables (ℕ × String) Bool) where
    unfoldable pub sync_all :
        (fuel : ℕ)
        → (describe : List String → OpResult (List (String × Value))) → (limit : Value)
        → (call : Value) → Option (Index J B K L)
        → Option (List Value)
    sync_all zero describe limit v index = none
    sync_all (suc n) describe limit v index =
        answered (changes_op J B K L describe v index) (λ next.
          sync_all n describe limit (object_of (("limit", limit) ∷ ("after", next) ∷ [])) index)

    abbrev size_of : (limit : Value) → ℤ → ℕ
    size_of limit z = clamp_or 1 max_limit default_limit (limit_of z (kind limit))

    size_of_pos : (limit : Value) (z : ℤ) → (n : ℕ) × (size_of limit z ≡ suc n)
    size_of_pos limit z = clamp_or_pos (limit_of z (kind limit))

    changes_op-request :
        (describe : List String → OpResult (List (String × Value))) (from : ReadFrom)
        (limit : Value) (z : ℤ) (log : ChangeLog K L)
        → J.int limit ≡ some z
        → changes_op J B K L describe
            (request J B from limit)
            (some (record { is_validated = true; log = log }))
          ≡ page_json J B describe (LibraryChanges.read K L from (size_of limit z) log)
    unfolding changes_op
    changes_op-request describe from limit z log e = rw (
      request-cursor_arg J B from limit,
      request-continuation_arg J B from limit,
      request-opt_i64 J B from limit z e,
      read_from_lem J B from,
    )

    sync_all-read_all :
        (n : ℕ) (describe : List String → OpResult (List (String × Value)))
        (t : String → Option Value) (from : ReadFrom) (limit : Value) (z : ℤ) (log : ChangeLog K L)
        → Describes describe t
        → J.int limit ≡ some z
        → sync_all n describe limit
            (request J B from limit)
            (some (record { is_validated = true; log = log }))
          ≡ wire_items t (read_all K L n from (size_of limit z) log)
    unfolding sync_all read_all
    sync_all-read_all zero describe t from limit z log d e = refl
    sync_all-read_all (suc n) describe t from limit z log d e =
        rw (changes_op-request describe from limit z log e) (
          answered-page_json describe t _ _ (LibraryChanges.read K L from (size_of limit z) log) d
            (λ c. sync_all-read_all n describe t (resume c) limit z log d e))

    -- A client that asks for pages of any size, and passes each `next` back, comes to an end with
    -- the items of all that the change log has after the client's cursor, in order, for a cursor
    -- that the log can answer and a validated index. An item carries the track as the host
    -- describes it.
    pub sync_all-whole :
        (describe : List String → OpResult (List (String × Value))) (t : String → Option Value)
        (from : ReadFrom) (limit : Value) (z : ℤ) (e : String) (log : ChangeLog K L)
        → Describes describe t
        → J.int limit ≡ some z
        → IsAnswerable K L from e log
        → sync_all
            (enough K L log)
            describe
            limit
            (request J B from limit)
            (some (record { is_validated = true; log = log }))
          ≡ some (items_of J B t (whole K L from log))
    sync_all-whole describe t from limit z e log d i a =
        let (n, size) = size_of_pos limit z in
        sync_all-read_all (enough K L log) describe t from limit z log d i
        ∙ rw (size, read_all-enough K L from n e log a)
