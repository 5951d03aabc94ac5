-- ===== src/Pairing/Label.antt =====
-- The label that a browser is shown by (`clamp_label` of packages/mbrc-core/src/web/auth.rs).
use mbrc_plugin.Base.{
  ℕ, zero, suc, ◌+◌, ◌≤◌, Bool, true, false, ◌&&◌, ◌||◌, ◌≡◌, refl, arith, leb, ltb, if◌then◌else◌,
  ◌==◌, nat_eq, Bool-cases, inl, inr,
}
use Prim.Native.Char.{code}
use Prim.Native.String.{String, [], ◌∷◌}

abbrev pub max_label : ℕ
max_label = 64

-- `char::is_control`
abbrev pub is_control : ℕ → Bool
is_control c = ltb c 32 || (leb 127 c && leb c 159)

-- `char::is_whitespace`
abbrev pub is_whitespace : ℕ → Bool
is_whitespace c =
    (leb 9 c && leb c 13)
    || ((c == 32)
        || ((c == 133)
            || ((c == 160)
                || ((c == 5_760)
                    || ((leb 8_192 c && leb c 8_202)
                        || ((c == 8_232)
                            || ((c == 8_233)
                                || ((c == 8_239) || ((c == 8_287) || (c == 12_288))))))))))

abbrev pub is_empty : String → Bool
is_empty [] = true
is_empty (c ∷ s) = false

unfoldable pub trim_start : String → String
trim_start [] = []
trim_start (c ∷ s) = let rest = trim_start s in if is_whitespace (code c) then rest else c ∷ s

unfoldable pub trim_end : String → String
trim_end [] = []
trim_end (c ∷ s) =
    let rest = trim_end s in if is_empty rest && is_whitespace (code c) then [] else c ∷ rest

unfoldable pub without_control : String → String
without_control [] = []
without_control (c ∷ s) =
    let rest = without_control s in if is_control (code c) then rest else c ∷ rest

unfoldable pub take_chars : ℕ → String → String
take_chars zero s = []
take_chars (suc n) [] = []
take_chars (suc n) (c ∷ s) = c ∷ take_chars n s

unfoldable pub clamp_label : String → String
clamp_label label =
    let trimmed = take_chars max_label (without_control (trim_end (trim_start label))) in
    if is_empty trimmed then "browser" else trimmed

abbrev pub count_chars : String → ℕ
count_chars [] = 0
count_chars (c ∷ s) = count_chars s + 1

count-take_chars : (n : ℕ) (s : String) → count_chars (take_chars n s) ≤ n
unfolding take_chars
count-take_chars zero s = omega arith
count-take_chars (suc n) [] = omega arith
count-take_chars (suc n) (c ∷ s) = omega (arith, count-take_chars n s)

-- A label is never empty, and never longer than 64 characters.
pub clamp_label-bounds :
    (label : String)
    → (is_empty (clamp_label label) ≡ false) × (count_chars (clamp_label label) ≤ 64)
unfolding clamp_label
clamp_label-bounds label =
    let trimmed : String = take_chars max_label (without_control (trim_end (trim_start label))) in
    elim (Bool-cases (is_empty trimmed)) [
      | inl empty ↦ rw empty (refl, omega arith)
      | inr full ↦
          rw full (full, count-take_chars 64 (without_control (trim_end (trim_start label))))
    ]
