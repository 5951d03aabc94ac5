-- ===== src/Store/Ordered/Memory.antt =====
-- An ordered table in memory, which shows that the laws of an ordered table can be met.
use mbrc_plugin.Base.{◌≡◌, refl, true, none, some, [], ◌∷◌, arith, if◌then◌else◌, Eq, ◌==◌}
use mbrc_plugin.Base.Order.{StrictOrder}
use mbrc_plugin.Base.Dict
use mbrc_plugin.Base.Dict.{Dict}
use mbrc_plugin.Base.Dict.Rows.{Distinct}
use mbrc_plugin.Store.Ordered.{KeysAbove, HasAscendingKeys, OrderedTables}

module _ {K V : Type 0} ⦃e : Eq K⦄ ⦃o : StrictOrder K⦄ where
  unfoldable pub put : K → V → Dict K V → Dict K V
  put k v [] = (k, v) ∷ []
  put k v ((j, w) ∷ m) =
      let rest = put k v m in
      if j == k then (k, v) ∷ m else if o.less k j then (k, v) ∷ (j, w) ∷ m else (j, w) ∷ rest

  pub get-put :
      (j k : K) (v : V) (m : Dict K V)
      → Dict.get j (put k v m) ≡ (if k == j then some v else Dict.get j m)
  unfolding Dict.get put
  get-put j k v [] = refl
  get-put j k v ((i, w) ∷ m) =
      ground (arith, get-put j k v m, e.same_iff i k, e.same_iff i j, e.same_iff k j)

  KeysAbove-trans : (j k : K) (m : Dict K V) → o.less j k ≡ true → KeysAbove k m → KeysAbove j m
  KeysAbove-trans j k [] l h = tt
  KeysAbove-trans j k ((i, w) ∷ m) l h = (o.trans j k i l h.0, KeysAbove-trans j k m l h.1)

  KeysAbove-put :
      (j k : K) (v : V) (m : Dict K V) → o.less j k ≡ true → KeysAbove j m → KeysAbove j (put k v m)
  unfolding put
  KeysAbove-put j k v [] l h = (l, tt)
  KeysAbove-put j k v ((i, w) ∷ m) l h = ground (arith, KeysAbove-put j k v m l h.1)

  pub put-ascends :
      (k : K) (v : V) (m : Dict K V) → HasAscendingKeys m → HasAscendingKeys (put k v m)
  unfolding put
  put-ascends k v [] h = (tt, tt)
  put-ascends k v ((j, w) ∷ m) h = ground (
    arith,
    put-ascends k v m h.1,
    KeysAbove-put j k v m,
    KeysAbove-trans k j m,
    e.same_iff j k,
    o.total j k,
  )

  KeysAbove-remove : (j k : K) (m : Dict K V) → KeysAbove j m → KeysAbove j (Dict.remove k m)
  unfolding Dict.remove
  KeysAbove-remove j k [] h = tt
  KeysAbove-remove j k ((i, w) ∷ m) h = ground (arith, KeysAbove-remove j k m h.1)

  pub remove-ascends :
      (k : K) (m : Dict K V) → HasAscendingKeys m → HasAscendingKeys (Dict.remove k m)
  unfolding Dict.remove
  remove-ascends k [] h = tt
  remove-ascends k ((j, w) ∷ m) h =
      ground (arith, remove-ascends k m h.1, KeysAbove-remove j k m h.0)

  KeysAbove-get : (k : K) (m : Dict K V) → KeysAbove k m → Dict.get k m ≡ none
  unfolding Dict.get
  KeysAbove-get k [] h = refl
  KeysAbove-get k ((j, w) ∷ m) h = ground (arith, KeysAbove-get k m h.1, e.same_iff j k, o.irrefl k)

  pub ascending-Distinct : (m : Dict K V) → HasAscendingKeys m → Distinct m
  ascending-Distinct [] h = tt
  ascending-Distinct ((j, w) ∷ m) h = (KeysAbove-get j m h.0, ascending-Distinct m h.1)

pub get-empty : {K V : Type 0} ⦃e : Eq K⦄ (k : K) → Dict.get {V = V} k [] ≡ none
unfolding Dict.get
get-empty k = refl

unfoldable pub ordered_memory : (K V : Type 0) ⦃e : Eq K⦄ ⦃o : StrictOrder K⦄ → OrderedTables K V
ordered_memory K V = record {
  tables = record {
    Table = (d : Dict K V) × HasAscendingKeys d;
    new = ([], tt);
    get = λ k t. Dict.get k t.0;
    insert = λ k v t. (put k v t.0, put-ascends k v t.0 t.1);
    remove = λ k t. (Dict.remove k t.0, remove-ascends k t.0 t.1);
    rows = λ t. t.0;
    get-new = get-empty;
    get-insert = λ j k v t. get-put j k v t.0;
    get-remove = λ j k t. Dict.get-remove j k t.0;
    get-rows = λ k t. refl;
    rows-Distinct = λ t. ascending-Distinct t.0 t.1;
  };
  rows_ascend = λ t. t.1;
}
