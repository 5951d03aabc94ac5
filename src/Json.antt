-- ===== src/Json.antt =====
-- What the program uses of `serde_json::Value`, which is not in the repository: the value's kind,
-- and the lookup of a key. A value is a parameter of every definition that reads one.
pub mod Build
pub mod Sample
pub mod Tree
use mbrc_plugin.Base.Int.{ℤ}
use mbrc_plugin.Base.{ℕ, String, Bool, Option, none, some, List}

-- The variants of `Value`, with the payloads that the program reads; `number` carries `as_u64`.
pub data Kind (V : Type 0) : Type 0 where
  null : Kind V
  boolean : Bool → Kind V
  number : Option ℕ → Kind V
  string : String → Kind V
  array : List V → Kind V
  object : Kind V

pub record Json : Type 1 where
  pub Value : Type 0
  pub kind : Value → Kind Value
  -- `Value::get` of a key: `none` on a missing key and on what is no object.
  pub field : Value → String → Option Value
  -- `Value::as_i64`, and the text of a value, which is read of a number only.
  pub int : Value → Option ℤ
  pub show : Value → String

module _ (J : Json) where
  open J use {Value, kind}

  abbrev pub as_str : Value → Option String
  as_str v = elim (kind v) [ string s ↦ some s | _ ↦ none ]

  abbrev pub as_u64 : Value → Option ℕ
  as_u64 v = elim (kind v) [ number n ↦ n | _ ↦ none ]

  abbrev pub as_bool : Value → Option Bool
  as_bool v = elim (kind v) [ boolean b ↦ some b | _ ↦ none ]

  abbrev pub as_array : Value → Option (List Value)
  as_array v = elim (kind v) [ array vs ↦ some vs | _ ↦ none ]
