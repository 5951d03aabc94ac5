-- ===== src/Store/Ordered.antt =====
-- Tables whose `iter` and `range` walk the keys in ascending order, as a redb table does.
pub mod Memory
use mbrc_plugin.Base.{
  Bool, true, ◌≡◌, ◌≢◌, arith, Option, none, some, List, [], ◌∷◌, if◌then◌else◌, Eq, ◌==◌,
}
use mbrc_plugin.Base.Order.{StrictOrder}
use mbrc_plugin.Base.Dict
use mbrc_plugin.Base.Dict.{Dict}
use mbrc_plugin.Store.{Tables}

module _ {K V : Type 0} ⦃o : StrictOrder K⦄ where
  abbrev pub KeysAbove : K → Dict K V → Type 0
  KeysAbove k [] = Unit
  KeysAbove k ((j, v) ∷ m) = (o.less k j ≡ true) × KeysAbove k m

  abbrev pub HasAscendingKeys : Dict K V → Type 0
  HasAscendingKeys [] = Unit
  HasAscendingKeys ((j, v) ∷ m) = KeysAbove j m × HasAscendingKeys m

  -- `table.range(…)`: the rows whose keys lie in the range, in order.
  unfoldable pub range : (K → Bool) → Dict K V → Dict K V
  range within [] = []
  range within ((k, v) ∷ m) = let rest = range within m in if within k then (k, v) ∷ rest else rest

module _ {K V : Type 0} ⦃e : Eq K⦄ ⦃o : StrictOrder K⦄ where
  pub KeysAbove-get :
      (k j : K) (v : V) (m : Dict K V) → KeysAbove k m → Dict.get j m ≡ some v → o.less k j ≡ true
  unfolding Dict.get
  KeysAbove-get k j v [] h g = cc
  KeysAbove-get k j v ((i, w) ∷ m) h g = ground (arith, KeysAbove-get k j v m h.1, e.same_iff i j)

  -- The key of a row comes once.
  pub KeysAbove-fresh : (k : K) (v : V) (m : Dict K V) → KeysAbove k m → Dict.get k m ≢ some v
  KeysAbove-fresh k v m h g = ground (arith, KeysAbove-get k k v m h g, o.irrefl k)

pub record OrderedTables (K V : Type 0) ⦃e : Eq K⦄ ⦃o : StrictOrder K⦄ : Type 1 where
  pub tables : Tables K V
  pub open tables use *
  pub rows_ascend : (t : Table) → HasAscendingKeys (rows t)
