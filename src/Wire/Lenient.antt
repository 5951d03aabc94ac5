-- ===== src/Wire/Lenient.antt =====
-- Lines of legacy clients that are not quite JSON (`parse_lenient` and its two repairs in
-- packages/mbrc-wire/src/lib.rs). `serde_json::from_str` is a parameter.
use mbrc_plugin.Base.{
  Bool, true, ◌&&◌, ◌||◌, Option, none, some, leb, nat_beq, if◌then◌else◌, or, ◌>>=◌, ◌==◌,
  string_eq,
}
use mbrc_plugin.Base.Text.{strip_prefix}
use mbrc_plugin.Pairing.Label.{trim_start, is_whitespace, is_empty}
use mbrc_plugin.Json.{Json, as_str}
use Prim.Native.Char.{Char, code}
use Prim.Native.String.{String, [], ◌∷◌, ◌++◌}

abbrev pub is_backslash : Char → Bool
is_backslash c = nat_beq (code c) 92

abbrev pub is_apostrophe : Char → Bool
is_apostrophe c = nat_beq (code c) 39

-- `\'` becomes `'`; `\\` is passed over whole.
unfoldable pub sanitize_ios_quotes : String → String
sanitize_ios_quotes [] = []
sanitize_ios_quotes (c ∷ []) = c ∷ []
sanitize_ios_quotes (c ∷ d ∷ s) =
    let past_both = sanitize_ios_quotes s in
    let past_one = sanitize_ios_quotes (d ∷ s) in
    if is_backslash c && is_backslash d
    then c ∷ d ∷ past_both
    else if is_backslash c && is_apostrophe d
    then d ∷ past_both
    else c ∷ past_one

abbrev pub data_key : String
data_key = "\"data\":"

-- `find`: what stands before the first occurrence, and what after it.
unfoldable pub split_at : String → String → Option (String × String)
split_at key [] = elim (strip_prefix key []) [ none ↦ none | some rest ↦ some ([], rest) ]
split_at key (c ∷ s) =
    let later = split_at key s in
    elim (strip_prefix key (c ∷ s)) [
      | some rest ↦ some ([], rest)
      | none ↦ elim later [ none ↦ none | some (before, rest) ↦ some (c ∷ before, rest) ]
    ]

-- The white space that `trim_start` removes.
unfoldable pub leading : String → String
leading [] = []
leading (c ∷ s) = let rest = leading s in if is_whitespace (code c) then c ∷ rest else []

abbrev pub is_digit_char : Char → Bool
is_digit_char c = leb 48 (code c) && leb (code c) 57

abbrev pub is_identifier : Char → Bool
is_identifier c =
    is_digit_char c
    || ((leb 65 (code c) && leb (code c) 90)
        || ((leb 97 (code c) && leb (code c) 122) || nat_beq (code c) 95))

unfoldable pub take_identifier : String → String
take_identifier [] = []
take_identifier (c ∷ s) = let rest = take_identifier s in if is_identifier c then c ∷ rest else []

unfoldable pub drop_identifier : String → String
drop_identifier [] = []
drop_identifier (c ∷ s) = let rest = drop_identifier s in if is_identifier c then rest else c ∷ s

-- `"`, `{`, `[`, `-` or a digit: how a JSON value may begin.
abbrev pub starts_value : String → Bool
starts_value [] = true
starts_value (c ∷ s) =
    nat_beq (code c) 34
    || (nat_beq (code c) 123 || (nat_beq (code c) 91 || (nat_beq (code c) 45 || is_digit_char c)))

abbrev pub is_literal : String → Bool
is_literal token = (token == "true") || ((token == "false") || (token == "null"))

abbrev pub quote_token : (before white token rest : String) → Option String
quote_token before white token rest =
    if is_empty token || is_literal token
    then none
    else some (before ++ (data_key ++ (white ++ ("\"" ++ (token ++ ("\"" ++ rest))))))

-- The rest of the line after the key `data`.
abbrev pub quote_bare : (before after : String) → Option String
quote_bare before after =
    let from_token = trim_start after in
    if starts_value from_token
    then none
    else quote_token before (leading after) (take_identifier from_token)
        (drop_identifier from_token)

unfoldable pub sanitize_ios_bare_data : String → Option String
unfolding split_at leading take_identifier drop_identifier
sanitize_ios_bare_data s = elim (split_at data_key s) [
  | none ↦ none
  | some (before, after) ↦ quote_bare before after
]

module _ (J : Json) (from_str : String → Option J.Value) where
  unfoldable pub parse_lenient : String → Option J.Value
  unfolding sanitize_ios_quotes sanitize_ios_bare_data
  parse_lenient line =
      let quoted = sanitize_ios_quotes line in
      or (from_str line) (or (from_str quoted) (sanitize_ios_bare_data quoted >>= from_str))

  -- `parse_context`
  unfoldable pub parse_context : String → Option String
  unfolding parse_lenient
  parse_context line = parse_lenient line >>= λ v. J.field v "context" >>= as_str J
