-- ===== src/Base/Bits.antt =====
-- When `|` and `^` of two numbers are 0.
use Prim.Native.Nat.{
  ℕ, zero, suc, ◌/◌, ◌%◌, ◌≤◌, max, digits, differ, bit_or, bit_xor, bit_or-bitwise,
  bit_xor-bitwise,
}
use mathlib.Core.Path.{◌≡◌, refl, sym, ◌∙◌}
use native.Mathlib.Omega.{arith}

differ-zero : (a b : ℕ) → differ a b ≡ 0 → a ≡ b
differ-zero zero b e = ground (arith, e)
differ-zero (suc a) zero e = ground (arith, e)
differ-zero (suc a) (suc b) e = ground (arith, differ-zero a b e)

differ_self : (a : ℕ) → differ a a ≡ 0
differ_self zero = refl
differ_self (suc a) = differ_self a

xor_digits : (n a b : ℕ) → a ≤ n → digits (λ x. x) differ n a b ≡ 0 → a ≡ b
xor_digits zero a b h e = ground (arith, e)
xor_digits (suc n) zero b h e = ground (arith, e)
xor_digits (suc n) (suc a) b h e =
    let high = xor_digits n (suc a / 2) (b / 2) (omega arith) (omega (arith, e)) in
    let low = differ-zero (suc a % 2) (b % 2) (omega (arith, e)) in omega (arith, high, low)

xor_same : (n a : ℕ) → a ≤ n → digits (λ x. x) differ n a a ≡ 0
xor_same zero a h = ground (arith)
xor_same (suc n) zero h = refl
xor_same (suc n) (suc a) h =
    omega (arith, xor_same n (suc a / 2) (omega arith), differ_self (suc a % 2))

pub bit_xor-zero : (a b : ℕ) → bit_xor a b ≡ 0 → a ≡ b
bit_xor-zero a b e = xor_digits a a b (omega arith) (sym (bit_xor-bitwise a b) ∙ e)

pub bit_xor_self : (a : ℕ) → bit_xor a a ≡ 0
bit_xor_self a = bit_xor-bitwise a a ∙ xor_same a a (omega arith)

or_digits : (n a b : ℕ) → a ≤ n → digits (λ x. x) max n a b ≡ 0 → (a ≡ 0) × (b ≡ 0)
or_digits zero a b h e = (ground (arith), ground (arith, e))
or_digits (suc n) zero b h e = (refl, e)
or_digits (suc n) (suc a) b h e =
    let high = or_digits n (suc a / 2) (b / 2) (omega arith) (omega (arith, e)) in
    (omega (arith, e, high.0, high.1), omega (arith, e, high.0, high.1))

pub bit_or-zero : (a b : ℕ) → bit_or a b ≡ 0 → (a ≡ 0) × (b ≡ 0)
bit_or-zero a b e = or_digits a a b (omega arith) (sym (bit_or-bitwise a b) ∙ e)

pub bit_or-zero_zero : bit_or 0 0 ≡ 0
bit_or-zero_zero = refl
