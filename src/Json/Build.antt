-- ===== src/Json/Build.antt =====
-- What the program uses of the `json!` macro: values built from parts, and what is read back from
-- them. The keys of an object that the program builds are distinct.
use mbrc_plugin.Base.{ℕ, String, Bool, ◌≡◌, some, string_eq, none, List}
use mbrc_plugin.Base.Dict
use mbrc_plugin.Base.Dict.{Dict}
use mbrc_plugin.Json.{Json, null, boolean, number, string, array, object}

pub record JsonBuild (J : Json) : Type 0 where
  pub nothing : J.Value
  pub flag : Bool → J.Value
  pub num : ℕ → J.Value
  pub text : String → J.Value
  pub list_of : List J.Value → J.Value
  pub object_of : Dict String J.Value → J.Value
  pub kind-nothing : J.kind nothing ≡ null
  pub int-nothing : J.int nothing ≡ none
  pub kind-flag : (b : Bool) → J.kind (flag b) ≡ boolean b
  pub kind-num : (n : ℕ) → J.kind (num n) ≡ number (some n)
  pub kind-text : (s : String) → J.kind (text s) ≡ string s
  pub kind-list_of : (vs : List J.Value) → J.kind (list_of vs) ≡ array vs
  pub kind-object_of : (fs : Dict String J.Value) → J.kind (object_of fs) ≡ object
  pub field-object_of :
      (fs : Dict String J.Value) (k : String) → J.field (object_of fs) k ≡ Dict.get k fs
