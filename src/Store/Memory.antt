-- ===== src/Store/Memory.antt =====
-- A table in memory, which shows that the laws of a table can be met.
use mbrc_plugin.Base.{refl, [], Eq}
use mbrc_plugin.Base.Dict
use mbrc_plugin.Base.Dict.{Dict}
use mbrc_plugin.Base.Dict.Rows.{Distinct, insert-Distinct, remove-Distinct}
use mbrc_plugin.Store.{Tables}

abbrev pub memory : (K V : Type 0) ⦃e : Eq K⦄ → Tables K V
unfolding Dict.get
memory K V = record {
  Table = (d : Dict K V) × Distinct d;
  new = ([], tt);
  get = λ k t. Dict.get k t.0;
  insert = λ k v t. (Dict.insert k v t.0, insert-Distinct k v t.0 t.1);
  remove = λ k t. (Dict.remove k t.0, remove-Distinct k t.0 t.1);
  rows = λ t. t.0;
  get-new = λ k. refl;
  get-insert = λ j k v t. Dict.get-insert j k v t.0;
  get-remove = λ j k t. Dict.get-remove j k t.0;
  get-rows = λ k t. refl;
  rows-Distinct = λ t. t.1;
}
