-- ===== src/Json/Sample.antt =====
-- Small concrete JSON values, which show that the interface can be met: an association list of
-- scalars, and an array of texts.
use mbrc_plugin.Base.{
  ℕ, String, Bool, Option, none, some, List, [], ◌∷◌, map, ◌==◌, string_eq, if◌then◌else◌,
}
use mbrc_plugin.Base.Int.{ℤ, pos}
use mbrc_plugin.Json.{Json, Kind, null, boolean, number, string, array, object}

pub data Scalar : Type 0 where
  nothing : Scalar
  flag : Bool → Scalar
  count : ℕ → Scalar
  word : String → Scalar
  words : List String → Scalar

pub data Sample : Type 0 where
  scalar : Scalar → Sample
  fields : List (String × Scalar) → Sample

abbrev pub sample_kind : Sample → Kind Sample
sample_kind (scalar nothing) = null
sample_kind (scalar (flag b)) = boolean b
sample_kind (scalar (count n)) = number (some n)
sample_kind (scalar (word s)) = string s
sample_kind (scalar (words ws)) = array (map (λ w. scalar (word w)) ws)
sample_kind (fields fs) = object

abbrev pub lookup : String → List (String × Scalar) → Option Sample
lookup k [] = none
lookup k ((j, v) ∷ fs) = if j == k then some (scalar v) else lookup k fs

abbrev pub sample_field : Sample → String → Option Sample
sample_field (scalar v) k = none
sample_field (fields fs) k = lookup k fs

abbrev pub sample_int : Sample → Option ℤ
sample_int (scalar (count n)) = some (pos n)
sample_int _ = none

abbrev pub sample_json : Json
sample_json = record {
  Value = Sample;
  kind = sample_kind;
  field = sample_field;
  int = sample_int;
  show = λ v. "";
}
