-- ===== src/CommandsV6/Args.antt =====
-- The page bounds that a request asks for.
use mbrc_plugin.Base.{ℕ, ◌≤◌, ◌≡◌, Option, none, some, arith}
use mbrc_plugin.Base.Int.{ℤ, pos, negsuc, to_i32}
use mbrc_plugin.Json.{Json}
use mbrc_plugin.CommandsV6.{
  OpResult, done, fails, ◌>>>◌, max_i32, clamp, clamp_or, default_page_limit, opt_i64, page_args,
}
use mathlib.Core.Path.{subst}

to_i32_fits : (n : ℕ) → n ≤ max_i32 → to_i32 (pos n) ≡ pos n
unfolding to_i32
to_i32_fits n h = ground arith

clamp_fits : (high : ℕ) (z : ℤ) → clamp 0 high z ≤ high
unfolding clamp
clamp_fits high (pos n) = ground arith
clamp_fits high (negsuc n) = ground arith

clamp_or_fits : (absent : ℕ) (z : Option ℤ) → clamp_or 0 max_i32 absent z ≤ max_i32
clamp_or_fits absent none = clamp_fits max_i32 (pos absent)
clamp_or_fits absent (some z) = clamp_fits max_i32 z

abbrev Fits : OpResult (ℕ × ℕ) → Type 0
Fits (done (o, l)) = (to_i32 (pos o) ≡ pos o) × (to_i32 (pos l) ≡ pos l)
Fits (fails code message at) = Unit

bounds-Fits :
    (offset limit : OpResult (Option ℤ))
    → Fits (
        offset >>> (λ o.
          limit >>> (λ l. done (clamp_or 0 max_i32 0 o, clamp_or 0 max_i32 default_page_limit l))))
bounds-Fits (fails code message at) limit = tt
bounds-Fits (done o) (fails code message at) = tt
bounds-Fits (done o) (done l) =
    (to_i32_fits _ (clamp_or_fits 0 o), to_i32_fits _ (clamp_or_fits default_page_limit l))

module _ (J : Json) where
  -- The offset and the limit that a request is served with pass through the cast to 32 bits as they
  -- are, whatever numbers the request asks for.
  pub page_args-to_i32 :
      (v : J.Value) (offset limit : ℕ)
      → page_args J v ≡ done (offset, limit)
      → (to_i32 (pos offset) ≡ pos offset) × (to_i32 (pos limit) ≡ pos limit)
  unfolding page_args
  page_args-to_i32 v offset limit e =
      subst Fits e (bounds-Fits (opt_i64 J v "offset") (opt_i64 J v "limit"))
