-- ===== src/Base/Text.antt =====
-- `str::strip_prefix` and `starts_with` on texts, character by character.
use Prim.Native.Char.{code}
use Prim.Native.String.{String, [], ◌∷◌, ◌++◌}
use mathlib.Core.Path.{◌≡◌, refl}
use mathlib.Core.Option.{Option, none, some}
use native.Mathlib.Omega.{arith}
use text.Mathlib.TextEquality.{Char-path}
use text.Mathlib.TextLemmas.{nil-append, cons-append}
use mbrc_plugin.Base.Tests.{nat_beq, nat_beq_iff, if◌then◌else◌, Bool-cases}
use mathlib.Core.Logic.{inl, inr}

unfoldable pub strip_prefix : String → String → Option String
strip_prefix [] s = some s
strip_prefix (c ∷ p) [] = none
strip_prefix (c ∷ p) (d ∷ s) = if nat_beq (code c) (code d) then strip_prefix p s else none

pub strip_prefix-append : (p s : String) → strip_prefix p (p ++ s) ≡ some s
unfolding strip_prefix
strip_prefix-append [] s = rw nil-append
strip_prefix-append (c ∷ p) s =
    rw (cons-append, (nat_beq_iff (code c) (code c)).1 refl, strip_prefix) (strip_prefix-append p s)

pub append-strip_prefix : (p s r : String) → strip_prefix p s ≡ some r → p ++ r ≡ s
unfolding strip_prefix
append-strip_prefix [] s r h = rw nil-append (ground arith)
append-strip_prefix (c ∷ p) [] r h = cc
append-strip_prefix (c ∷ p) (d ∷ s) r h = elim (Bool-cases (nat_beq (code c) (code d))) [
  | inl same ↦
      let heads : c ≡ d = Char-path c d ((nat_beq_iff _ _).0 same) in
      rw (cons-append, append-strip_prefix p s r (rw (same, strip_prefix) at h), heads)
  | inr differ ↦ cc (rw (differ, strip_prefix) at h)
]
