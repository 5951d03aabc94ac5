-- ===== src/CommandsV6/LibrarySync/Requests.antt =====
-- The data with which a client calls `library_changes`, and what the operation reads from it.
use mbrc_plugin.Base.{
  ◌≡◌, refl, sym, ap, Option, none, some, [], ◌∷◌, Option-cases, inl, inr, string_eq,
}
use mbrc_plugin.Base.Dict
use mbrc_plugin.Base.Dict.{Dict}
use mbrc_plugin.Base.Int.{ℤ}
use mbrc_plugin.Base.Order.{text_order, pair_order, pair_eq}
use mbrc_plugin.Json.{Json, Kind, null, object, string, array, number, boolean}
use mbrc_plugin.Json.Build.{JsonBuild}
use mbrc_plugin.LibraryChanges.{Cursor, Continuation, ReadFrom, start, since, resume}
use mbrc_plugin.CommandsV6.{done, opt_i64, unless_null}
use mbrc_plugin.CommandsV6.LibrarySync.{
  read_from, cursor_arg, continuation_arg, continuation_of, object_arg, field_str, field_u64,
  continuation_json,
}

abbrev pub limit_of : {V : Type 0} → ℤ → Kind V → Option ℤ
limit_of z null = none
limit_of z _ = some z

unless_null-done : {V : Type 0} (z : ℤ) (k : Kind V) → unless_null k (done z) ≡ done (limit_of z k)
unless_null-done z null = refl
unless_null-done z (boolean b) = refl
unless_null-done z (number n) = refl
unless_null-done z (string s) = refl
unless_null-done z (array vs) = refl
unless_null-done z object = refl

module _ (J : Json) (B : JsonBuild J) where
  open J use {Value, kind, field}
  open B use {nothing, num, text, object_of}

  abbrev cursor_json : Cursor → Value
  cursor_json c = object_of (("epoch", text c.epoch) ∷ ("generation", num c.generation) ∷ [])

  abbrev pub cursor_in : ReadFrom → Option Cursor
  cursor_in (since c) = some c
  cursor_in _ = none

  abbrev pub continuation_in : ReadFrom → Option Continuation
  continuation_in (resume c) = some c
  continuation_in _ = none

  -- The data of a client's call, which asks for pages of `limit`.
  abbrev pub request : ReadFrom → (limit : Value) → Value
  request start limit = object_of (("limit", limit) ∷ [])
  request (since c) limit = object_of (("limit", limit) ∷ ("since", cursor_json c) ∷ [])
  request (resume c) limit = object_of (("limit", limit) ∷ ("after", continuation_json J B c) ∷ [])

  continuation_of-continuation_json :
      (c : Continuation) → continuation_of J B (some (continuation_json J B c)) ≡ done (some c)
  unfolding field_str field_u64 continuation_json Dict.get
  continuation_of-continuation_json c = elim (Option-cases c.since) [
    | inl e ↦
        simp (e, B.field-object_of, B.kind-text, B.kind-num, B.kind-nothing)
          (ap (λ o. done (some (record c { since = o }))) (sym e))
    | inr (n, e) ↦
        simp (e, B.field-object_of, B.kind-text, B.kind-num)
          (ap (λ o. done (some (record c { since = o }))) (sym e))
  ]

  -- A continuation that a client passes back is read as the one that was served.
  pub continuation_arg-continuation_json :
      (v : Value) (c : Continuation)
      → field v "after" ≡ some (continuation_json J B c)
      → continuation_arg J B v ≡ done (some c)
  unfolding continuation_arg object_arg continuation_json
  continuation_arg-continuation_json v c e =
      rw (e, B.kind-object_of) (continuation_of-continuation_json c)

  pub request-cursor_arg :
      (from : ReadFrom) (limit : Value)
      → cursor_arg J B (request from limit) ≡ done (cursor_in from)
  unfolding cursor_arg object_arg field_str field_u64 Dict.get
  request-cursor_arg start limit = simp (B.field-object_of)
  request-cursor_arg (since c) limit =
      simp (B.field-object_of, B.kind-object_of, B.kind-text, B.kind-num)
  request-cursor_arg (resume c) limit = simp (B.field-object_of)

  pub request-continuation_arg :
      (from : ReadFrom) (limit : Value)
      → continuation_arg J B (request from limit) ≡ done (continuation_in from)
  unfolding Dict.get continuation_arg object_arg
  request-continuation_arg start limit = simp (B.field-object_of)
  request-continuation_arg (since c) limit = simp (B.field-object_of)
  request-continuation_arg (resume c) limit =
      continuation_arg-continuation_json (request (resume c) limit) c (B.field-object_of _ "after")

  request_limit :
      (from : ReadFrom) (limit : Value) → field (request from limit) "limit" ≡ some limit
  unfolding Dict.get
  request_limit start limit = B.field-object_of _ "limit"
  request_limit (since c) limit = B.field-object_of _ "limit"
  request_limit (resume c) limit = B.field-object_of _ "limit"

  pub request-opt_i64 :
      (from : ReadFrom) (limit : Value) (z : ℤ)
      → J.int limit ≡ some z
      → opt_i64 J (request from limit) "limit" ≡ done (limit_of z (kind limit))
  unfolding opt_i64
  request-opt_i64 from limit z e =
      rw (request_limit from limit, e) (unless_null-done z (kind limit))

  pub read_from_lem : (from : ReadFrom) → read_from (continuation_in from) (cursor_in from) ≡ from
  read_from_lem start = refl
  read_from_lem (since c) = refl
  read_from_lem (resume c) = refl
