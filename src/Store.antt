-- ===== src/Store.antt =====
-- The tables of `redb`, which is not in the repository, as packages/mbrc-core/src/store uses them:
-- a table is a parameter of the definitions that read and write one, with the documented laws of
-- `get`, `insert`, `remove` and `iter`. A write transaction that commits is a function from tables
-- to tables; storage errors are not modelled.
pub mod Memory
pub mod Ordered
use mbrc_plugin.Base.{◌≡◌, Option, none, some, if◌then◌else◌, Eq, ◌==◌}
use mbrc_plugin.Base.Dict
use mbrc_plugin.Base.Dict.{Dict}
use mbrc_plugin.Base.Dict.Rows.{Distinct}

pub record Tables (K V : Type 0) ⦃e : Eq K⦄ : Type 1 where
  pub Table : Type 0
  pub new : Table
  pub get : K → Table → Option V
  pub insert : K → V → Table → Table
  pub remove : K → Table → Table
  pub rows : Table → Dict K V
  pub get-new : (k : K) → get k new ≡ none
  pub get-insert :
      (j k : K) (v : V) (t : Table) → get j (insert k v t) ≡ (if k == j then some v else get j t)
  pub get-remove : (j k : K) (t : Table) → get j (remove k t) ≡ (if k == j then none else get j t)
  pub get-rows : (k : K) (t : Table) → Dict.get k (rows t) ≡ get k t
  pub rows-Distinct : (t : Table) → Distinct (rows t)
