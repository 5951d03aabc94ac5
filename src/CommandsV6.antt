-- ===== src/CommandsV6.antt =====
-- What the handlers of V6 operations share (packages/mbrc-core/src/server/commands_v6/mod.rs): the
-- result of a handler, and the readers of required and of optional fields and of page bounds. The
-- handlers modelled are that of `library_changes` (LibrarySync), those that change the now-playing list
-- (NowPlayingList) and those that change playlists (Playlists).
pub mod Args
pub mod LibrarySync
pub mod NowPlayingList
pub mod Playlists
mod Tests
use Prim.Native.String
use mbrc_plugin.Base.{
  ℕ, ◌-◌, ◌^◌, String, Bool, Option, none, some, List, [], ◌∷◌, ltb, if◌then◌else◌,
}
use mbrc_plugin.Base.Int.{ℤ, pos, negsuc}
use mbrc_plugin.Json.{Json, Kind, null, boolean, number, string, array, object, as_str, as_bool}
use mbrc_plugin.Wire.V6.{ErrorCode, missing_field, invalid_field, internal}

-- `Result<A, V6Error>`: the code, the message and the field at fault.
pub data OpResult (A : Type 0) : Type 0 where
  done : A → OpResult A
  fails : ErrorCode → String → Option String → OpResult A

-- The `?` operator.
infixl 5 ◌>>>◌
abbrev pub ◌>>>◌ : {A B : Type 0} → OpResult A → (A → OpResult B) → OpResult B
done x >>> f = f x
fails code message at >>> f = fails code message at

abbrev pub missing : {A : Type 0} → String → OpResult A
missing name = fails missing_field (String.◌++◌ "missing required field: " name) (some name)

abbrev pub wrong : {A : Type 0} → String → (must_be : String) → OpResult A
wrong name must_be = fails invalid_field (String.◌++◌ name must_be) (some name)

-- `ok_or_else` with the error of a field.
abbrev pub or_wrong : {A : Type 0} → String → String → Option A → OpResult A
or_wrong name must_be none = wrong name must_be
or_wrong name must_be (some x) = done x

abbrev pub required : {A V : Type 0} → String → Option V → (V → OpResult A) → OpResult A
required name none read = missing name
required name (some v) read = read v

-- A null reads as an absent field.
abbrev pub unless_null : {A V : Type 0} → Kind V → OpResult A → OpResult (Option A)
unless_null null read = done none
unless_null _ read = read >>> (λ x. done (some x))

abbrev pub failure : {A : Type 0} → String → OpResult A
failure e = fails internal e none

abbrev pub default_page_limit : ℕ
default_page_limit = 1000

abbrev pub max_i32 : ℕ
max_i32 = 2 ^ 31 - 1

-- `v.clamp(low, high)` of an `i64` to bounds that are not negative.
unfoldable pub clamp : ℕ → ℕ → ℤ → ℕ
clamp low high (negsuc n) = low
clamp low high (pos n) = if ltb n low then low else if ltb high n then high else n

unfoldable pub i32_saturating : ℤ → ℤ
i32_saturating (pos n) = if ltb max_i32 n then pos max_i32 else pos n
i32_saturating (negsuc n) = if ltb max_i32 n then negsuc max_i32 else negsuc n

abbrev pub clamp_or : ℕ → ℕ → (absent : ℕ) → Option ℤ → ℕ
clamp_or low high absent none = clamp low high (pos absent)
clamp_or low high absent (some z) = clamp low high z

module _ (J : Json) where
  open J use {Value, kind, field, int}

  unfoldable pub req_i64 : Value → String → OpResult ℤ
  req_i64 v name = required name (field v name) (λ x. or_wrong name " must be an integer" (int x))

  unfoldable pub req_bool : Value → String → OpResult Bool
  req_bool v name =
      required name (field v name) (λ x. or_wrong name " must be a boolean" (as_bool J x))

  unfoldable pub req_str : Value → String → OpResult String
  req_str v name =
      required name (field v name) (λ x. or_wrong name " must be a string" (as_str J x))

  unfoldable pub texts_of : String → List Value → OpResult (List String)
  texts_of name [] = done []
  texts_of name (v ∷ vs) =
      or_wrong name " must be an array of strings" (as_str J v)
      >>> (λ s. texts_of name vs >>> (λ ss. done (s ∷ ss)))

  abbrev pub texts_in : String → Kind Value → OpResult (List String)
  texts_in name (array vs) = texts_of name vs
  texts_in name _ = wrong name " must be an array"

  unfoldable pub req_str_array : Value → String → OpResult (List String)
  req_str_array v name = required name (field v name) (λ x. texts_in name (kind x))

  abbrev pub optional : {A : Type 0} → Option Value → (Value → OpResult A) → OpResult (Option A)
  optional none read = done none
  optional (some x) read = unless_null (kind x) (read x)

  unfoldable pub opt_i64 : Value → String → OpResult (Option ℤ)
  opt_i64 v name = optional (field v name) (λ x. or_wrong name " must be an integer" (int x))

  unfoldable pub opt_str : Value → String → OpResult (Option String)
  opt_str v name = optional (field v name) (λ x. or_wrong name " must be a string" (as_str J x))

  unfoldable pub opt_bool : Value → String → OpResult (Option Bool)
  opt_bool v name = optional (field v name) (λ x. or_wrong name " must be a boolean" (as_bool J x))

  -- The offset and the limit of a page.
  unfoldable pub page_args : Value → OpResult (ℕ × ℕ)
  page_args v = opt_i64 v "offset" >>> (λ offset. opt_i64 v "limit" >>> (λ limit.
      done (clamp_or 0 max_i32 0 offset, clamp_or 0 max_i32 default_page_limit limit)))
