-- ===== src/Base/Order.antt =====
-- Strict total orders on keys: of texts, and of pairs by the first part and then the second.
use mbrc_plugin.Base.Tests.{ltb, nat_beq}
use mbrc_plugin.Base.Equality.{Eq, ◌==◌, nat_eq, string_eq}
use mbrc_plugin.Base.TextOrder.{less as text_less, less_irrefl, less_trans, less_total}
use Prim.Native.Nat.{ℕ}
use Prim.Native.String.{String}
use mathlib.Core.Path.{◌≡◌}
use mathlib.Core.Logic.{◌↔◌}
use mathlib.Core.Bool.{Bool, true, false, ◌&&◌, ◌||◌}
use native.Mathlib.Omega.{arith}

pub record StrictOrder (K : Type 0) : Type 0 where
  pub less : K → K → Bool
  pub irrefl : (a : K) → less a a ≡ false
  pub trans : (a b c : K) → less a b ≡ true → less b c ≡ true → less a c ≡ true
  pub total : (a b : K) → less a b ≡ false → less b a ≡ false → a ≡ b

instance abbrev pub text_order : StrictOrder String
text_order = record {
  less = text_less;
  irrefl = less_irrefl;
  trans = less_trans;
  total = less_total;
}

pub more_trans : (a b c : ℕ) → ltb b a ≡ true → ltb c b ≡ true → ltb c a ≡ true
more_trans a b c x y = ground arith

pub more_total : (a b : ℕ) → ltb b a ≡ false → ltb a b ≡ false → a ≡ b
more_total a b x y = ground arith

pub more_irrefl : (a : ℕ) → ltb a a ≡ false
more_irrefl a = ground arith

-- `b.cmp(a)`: the highest first. No instance, since the numbers have their usual order too.
abbrev pub descending : StrictOrder ℕ
descending = record {
  less = λ a b. ltb b a;
  irrefl = more_irrefl;
  trans = more_trans;
  total = more_total;
}

-- `(u64, &str)`, compared by the number first.
abbrev pub pair_less : ℕ × String → ℕ × String → Bool
pair_less (g, p) (h, q) = ltb g h || (nat_beq g h && text_less p q)

pub pair_irrefl : (a : ℕ × String) → pair_less a a ≡ false
pair_irrefl (g, p) = ground (arith, less_irrefl p)

pub pair_trans :
    (a b c : ℕ × String) → pair_less a b ≡ true → pair_less b c ≡ true → pair_less a c ≡ true
pair_trans (g, p) (h, q) (i, r) x y = ground (arith, less_trans p q r)

pub pair_total : (a b : ℕ × String) → pair_less a b ≡ false → pair_less b a ≡ false → a ≡ b
pair_total (g, p) (h, q) x y = ground (arith, less_total p q)

instance abbrev pub pair_order : StrictOrder (ℕ × String)
pair_order = record {
  less = pair_less;
  irrefl = pair_irrefl;
  trans = pair_trans;
  total = pair_total;
}

abbrev pub pair_same : ℕ × String → ℕ × String → Bool
pair_same (g, p) (h, q) = (g == h) && (p == q)

pub pair_same_iff : (a b : ℕ × String) → (pair_same a b ≡ true) ↔ (a ≡ b)
pair_same_iff (g, p) (h, q) = ground (arith, string_eq.same_iff p q)

instance abbrev pub pair_eq : Eq (ℕ × String)
pair_eq = record { same = pair_same; same_iff = pair_same_iff }
