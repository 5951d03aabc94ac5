-- ===== src/Base/Utf8.antt =====
-- `str::as_bytes` and `str::len`: a text in UTF-8.
use mbrc_plugin.Base.Tests.{ltb, if◌then◌else◌}
use Prim.Native.Char.{code}
use Prim.Native.Nat.{ℕ, ◌+◌, ◌/◌, ◌%◌}
use Prim.Native.String
use mathlib.Core.List.{List, [], ◌∷◌}

-- The bytes of one code point.
unfoldable pub encode : ℕ → List ℕ → List ℕ
encode c rest =
    if ltb c 0x80
    then c ∷ rest
    else if ltb c 0x800
    then (0xC0 + c / 64) ∷ (0x80 + c % 64) ∷ rest
    else if ltb c 0x10000
    then (0xE0 + c / 4_096) ∷ (0x80 + c / 64 % 64) ∷ (0x80 + c % 64) ∷ rest
    else (0xF0 + c / 262_144)
      ∷ (0x80 + c / 4_096 % 64)
      ∷ (0x80 + c / 64 % 64)
      ∷ (0x80 + c % 64)
      ∷ rest

unfoldable pub utf8 : String.String → List ℕ
unfolding encode
utf8 String.[] = []
utf8 (String.◌∷◌ c s) = encode (code c) (utf8 s)
