-- ===== src/Base/Int.antt =====
-- `i64` and `i32`: signed integers, the cast that wraps, and `str::parse::<i64>`.
use mbrc_plugin.Base.Tests.{leb, ltb, if◌then◌else◌}
use Prim.Native.Char.{code}
use Prim.Native.Nat.{ℕ, zero, suc, ◌+◌, ◌-◌, ◌*◌, ◌%◌, ◌^◌}
use Prim.Native.String.{String, [], ◌∷◌}
use mathlib.Core.Bool.{Bool, true, false, ◌&&◌}
use mathlib.Core.Option.{Option, none, some}

-- `negsuc n` is -(n + 1).
pub data ℤ : Type 0 where
  pos : ℕ → ℤ
  negsuc : ℕ → ℤ

abbrev pub is_zero : ℤ → Bool
is_zero (pos zero) = true
is_zero _ = false

abbrev pub opposite : ℕ → ℤ
opposite zero = pos 0
opposite (suc n) = negsuc n

-- The 32 low bits, read as a signed number.
abbrev pub signed_32 : ℕ → ℤ
signed_32 bits = if ltb bits (2 ^ 31) then pos bits else negsuc (2 ^ 32 - 1 - bits)

-- `v as i32`
unfoldable pub to_i32 : ℤ → ℤ
to_i32 (pos n) = signed_32 (n % 2 ^ 32)
to_i32 (negsuc n) = signed_32 (2 ^ 32 - 1 - n % 2 ^ 32)

abbrev pub is_digit : ℕ → Bool
is_digit c = leb 48 c && leb c 57

-- The value of a text of digits, after those read so far.
unfoldable pub digits_from : ℕ → String → Option ℕ
digits_from acc [] = some acc
digits_from acc (c ∷ s) =
    let rest = digits_from (acc * 10 + (code c - 48)) s in if is_digit (code c) then rest else none

unfoldable pub digits : String → Option ℕ
unfolding digits_from
digits [] = none
digits (c ∷ s) = digits_from 0 (c ∷ s)

abbrev pub within_i64 : Option ℕ → Option ℤ
within_i64 none = none
within_i64 (some n) = if ltb n (2 ^ 63) then some (pos n) else none

abbrev pub minus_within_i64 : Option ℕ → Option ℤ
minus_within_i64 none = none
minus_within_i64 (some n) = if leb n (2 ^ 63) then some (opposite n) else none

unfoldable pub parse_i64 : String → Option ℤ
unfolding digits
parse_i64 [] = none
parse_i64 (c ∷ s) =
    if leb 45 (code c) && leb (code c) 45
    then minus_within_i64 (digits s)
    else if leb 43 (code c) && leb (code c) 43
    then within_i64 (digits s)
    else within_i64 (digits (c ∷ s))
