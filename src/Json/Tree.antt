-- ===== src/Json/Tree.antt =====
-- JSON values as trees, which show that the interfaces of Json and Json/Build can be met, and on
-- which tests run.
use mbrc_plugin.Base.{
  ℕ, String, Bool, ◌≡◌, refl, ap, arith, Option, none, some, List, [], ◌∷◌, ◌==◌, string_eq,
  if◌then◌else◌,
}
use mbrc_plugin.Base.Dict
use mbrc_plugin.Base.Dict.{Dict}
use mbrc_plugin.Base.Int.{ℤ, pos}
use mbrc_plugin.Json.{Json, Kind, null, boolean, number, string, array, object}
use mbrc_plugin.Json.Build.{JsonBuild}

mutual
  pub data Tree : Type 0 where
    nothing : Tree
    flag : Bool → Tree
    count : ℕ → Tree
    word : String → Tree
    items : Trees → Tree
    fields : Fields → Tree

  pub data Trees : Type 0 where
    nil : Trees
    cons : Tree → Trees → Trees

  pub data Fields : Type 0 where
    end : Fields
    entry : String → Tree → Fields → Fields

abbrev pub to_list : Trees → List Tree
to_list nil = []
to_list (cons t ts) = t ∷ to_list ts

abbrev pub tree_kind : Tree → Kind Tree
tree_kind nothing = null
tree_kind (flag b) = boolean b
tree_kind (count n) = number (some n)
tree_kind (word s) = string s
tree_kind (items ts) = array (to_list ts)
tree_kind (fields fs) = object

abbrev pub lookup : String → Fields → Option Tree
lookup k end = none
lookup k (entry j t fs) = if j == k then some t else lookup k fs

abbrev pub tree_field : Tree → String → Option Tree
tree_field (fields fs) k = lookup k fs
tree_field _ k = none

abbrev pub from_list : Dict String Tree → Fields
from_list [] = end
from_list ((k, t) ∷ fs) = entry k t (from_list fs)

pub lookup-from_list :
    (fs : Dict String Tree) (k : String) → lookup k (from_list fs) ≡ Dict.get k fs
unfolding Dict.get
lookup-from_list [] k = refl
lookup-from_list ((j, t) ∷ fs) k = ground (arith, lookup-from_list fs k)

abbrev pub from_items : List Tree → Trees
from_items [] = nil
from_items (t ∷ ts) = cons t (from_items ts)

pub to_list-from_items : (ts : List Tree) → to_list (from_items ts) ≡ ts
to_list-from_items [] = refl
to_list-from_items (t ∷ ts) = ap (λ us. t ∷ us) (to_list-from_items ts)

abbrev pub tree_int : Tree → Option ℤ
tree_int (count n) = some (pos n)
tree_int _ = none

abbrev pub tree_json : Json
tree_json = record {
  Value = Tree;
  kind = tree_kind;
  field = tree_field;
  int = tree_int;
  show = λ t. "5";
}

abbrev pub tree_build : JsonBuild tree_json
tree_build = record {
  nothing = nothing;
  flag = flag;
  num = count;
  text = word;
  list_of = λ ts. items (from_items ts);
  object_of = λ fs. fields (from_list fs);
  kind-nothing = refl;
  int-nothing = refl;
  kind-flag = λ b. refl;
  kind-num = λ n. refl;
  kind-text = λ s. refl;
  kind-list_of = λ ts. ap (λ us. array us) (to_list-from_items ts);
  kind-object_of = λ fs. refl;
  field-object_of = lookup-from_list;
}
