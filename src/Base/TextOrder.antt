-- ===== src/Base/TextOrder.antt =====
-- The order of `str`: byte by byte in UTF-8, which is by code points.
use Prim.Native.Nat.{Ordering}
use Prim.Native.String.{String, [], ◌∷◌, compare}
use Prim.Native.String.compare
use text.Mathlib.TextEquality.{path_by_compare}
use mathlib.Core.Path.{◌≡◌}
use mathlib.Core.Bool.{Bool, true, false}
use native.Mathlib.Omega.{arith}

unfoldable pub less : String → String → Bool
less s t = elim (compare s t) [ Ordering.lt ↦ true | _ ↦ false ]

abbrev flip : Ordering → Ordering
flip Ordering.lt = Ordering.gt
flip Ordering.eq = Ordering.eq
flip Ordering.gt = Ordering.lt

flip-compare : (s t : String) → compare t s ≡ flip (compare s t)
flip-compare [] [] = simp compare.nil-nil
flip-compare [] (d ∷ t) = simp (compare.nil-cons d t, compare.cons-nil d t)
flip-compare (c ∷ s) [] = simp (compare.nil-cons c s, compare.cons-nil c s)
flip-compare (c ∷ s) (d ∷ t) =
    rw (compare.cons-cons d c t s, compare.cons-cons c d s t) (ground (arith, flip-compare s t))

compare_trans :
    (r s t : String)
    → compare r s ≡ Ordering.lt
    → compare s t ≡ Ordering.lt
    → compare r t ≡ Ordering.lt
compare_trans [] [] [] h k = h
compare_trans [] (d ∷ s) [] h k = cc (compare.cons-nil d s)
compare_trans [] s (d ∷ t) h k = compare.nil-cons d t
compare_trans (c ∷ r) [] t h k = cc (compare.cons-nil c r)
compare_trans (c ∷ r) (d ∷ s) [] h k = cc (compare.cons-nil d s)
compare_trans (c ∷ r) (d ∷ s) (e ∷ t) h k =
    rw (compare.cons-cons c e r t)
      (ground (arith, compare_trans r s t, compare.cons-cons c d r s, compare.cons-cons d e s t))

pub less_irrefl : (s : String) → less s s ≡ false
unfolding less
less_irrefl s = ground (arith, flip-compare s s)

pub less_trans : (r s t : String) → less r s ≡ true → less s t ≡ true → less r t ≡ true
unfolding less
less_trans r s t h k = ground (arith, compare_trans r s t)

pub less_total : (s t : String) → less s t ≡ false → less t s ≡ false → s ≡ t
unfolding less
less_total s t h k = path_by_compare s t (ground (arith, flip-compare s t))
