-- ===== src/Base/Dict/Rows.antt =====
-- Association lists with distinct keys: the rows of a table, and a map built from them.
use mbrc_plugin.Base.Tests.{or, if◌then◌else◌, ◌>>=◌}
use mbrc_plugin.Base.Equality.{Eq}
use mbrc_plugin.Base.Dict.{Dict, get, insert, remove, get-insert, get-remove}
use mathlib.Core.Path.{◌≡◌, refl}
use mathlib.Core.Bool.{Bool}
use mathlib.Core.Option.{Option, none, some}
use mathlib.Core.List.{[], ◌∷◌}
use native.Mathlib.Omega.{arith}

module _ {ℓ κ} {K : Type ℓ} {V : Type κ} ⦃e : Eq K⦄ where
  abbrev pub Distinct : Dict K V → Type κ
  Distinct [] = Unit
  Distinct ((k, v) ∷ m) = (get k m ≡ none) × Distinct m

  pub insert-Distinct : (k : K) (v : V) (m : Dict K V) → Distinct m → Distinct (insert k v m)
  unfolding insert get
  insert-Distinct k v [] h = (refl, tt)
  insert-Distinct k v ((j, w) ∷ m) (fresh, h) =
      ground (arith, e.same_iff j k, e.same_iff k j, insert-Distinct k v m h, get-insert j k v m)

  pub remove-Distinct : (k : K) (m : Dict K V) → Distinct m → Distinct (remove k m)
  unfolding remove get
  remove-Distinct k [] h = tt
  remove-Distinct k ((j, w) ∷ m) (fresh, h) =
      ground (arith, remove-Distinct k m h, get-remove j k m)

  -- `map.extend(rows)`
  unfoldable pub extend : Dict K V → Dict K V → Dict K V
  extend [] m = m
  extend ((k, v) ∷ rows) m = extend rows (insert k v m)

  pub get-extend :
      (j : K) (rows m : Dict K V)
      → Distinct rows
      → get j (extend rows m) ≡ or (get j rows) (get j m)
  unfolding extend get
  get-extend j [] m h = refl
  get-extend j ((k, v) ∷ rows) m (fresh, h) =
      ground (arith, get-extend j rows (insert k v m) h, get-insert j k v m, e.same_iff k j)

  -- `map.retain(|k, _| p(k))`
  unfoldable pub retain : (K → Bool) → Dict K V → Dict K V
  retain p [] = []
  retain p ((k, v) ∷ m) = let rest = retain p m in if p k then (k, v) ∷ rest else rest

  pub get-retain :
      (p : K → Bool) (j : K) (m : Dict K V) → get j (retain p m) ≡ (if p j then get j m else none)
  unfolding get retain
  get-retain p j [] = ground arith
  get-retain p j ((k, v) ∷ m) = ground (arith, get-retain p j m, e.same_iff k j)

module _ {ℓ κ μ} {K : Type ℓ} {V : Type κ} {W : Type μ} ⦃e : Eq K⦄ where
  -- Rows read back through a parser; a row that does not parse is left out.
  unfoldable pub parsed : (V → Option W) → Dict K V → Dict K W
  parsed f [] = []
  parsed f ((k, v) ∷ m) =
      let rest = parsed f m in elim (f v) [ none ↦ rest | some w ↦ (k, w) ∷ rest ]

  pub get-parsed :
      (f : V → Option W) (j : K) (m : Dict K V) → Distinct m → get j (parsed f m) ≡ (get j m >>= f)
  unfolding get parsed
  get-parsed f j [] h = refl
  get-parsed f j ((k, v) ∷ m) (fresh, h) = ground (arith, get-parsed f j m h, e.same_iff k j)

  pub parsed-Distinct : (f : V → Option W) (m : Dict K V) → Distinct m → Distinct (parsed f m)
  unfolding parsed get
  parsed-Distinct f [] h = tt
  parsed-Distinct f ((k, v) ∷ m) (fresh, h) =
      ground (arith, parsed-Distinct f m h, get-parsed f k m h)
