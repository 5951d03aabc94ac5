-- ===== src/Clients/Removal.antt =====
-- What a table holds after a list of ids was removed, and how many ids a table can hold.
use mbrc_plugin.Base.{
  ◌≤◌, suc, String, true, false, ◌≡◌, refl, none, some, List, [], ◌∷◌, arith, if◌then◌else◌, ◌==◌,
  string_eq, length,
}
use mbrc_plugin.Base.Dict
use mbrc_plugin.Base.Dict.{Dict}
use mbrc_plugin.Base.Dict.Rows.{Distinct}
use mbrc_plugin.Base.Sorting.{member}
use mbrc_plugin.Store.{Tables}
use mbrc_plugin.Clients.{RecordCodec, remove_all}

-- The list without the first `k`.
erase : String → List String → List String
erase k [] = []
erase k (j ∷ js) = if j == k then js else j ∷ erase k js

length-erase :
    (k : String) (ks : List String) → member k ks ≡ true → suc (length (erase k ks)) ≡ length ks
unfolding erase member
length-erase k [] h = cc
length-erase k (j ∷ js) h = ground (arith, length-erase k js)

member-erase_ne :
    (j k : String) (ks : List String)
    → (k == j) ≡ false
    → member j ks ≡ true
    → member j (erase k ks) ≡ true
unfolding erase member
member-erase_ne j k [] n h = cc
member-erase_ne j k (i ∷ is) n h = ground (
  arith,
  member-erase_ne j k is n,
  string_eq.same_iff i k,
  string_eq.same_iff i j,
  string_eq.same_iff k j,
)

-- Rows with distinct keys are no more than the entries of a list that has them all.
pub length-le_of_members {κ} :
    {V : Type κ} (m : Dict String V) (ks : List String)
    → Distinct m
    → ((k : String) (v : V) → Dict.get k m ≡ some v → member k ks ≡ true)
    → length m ≤ length ks
unfolding Dict.get
length-le_of_members [] ks d h = omega arith
length-le_of_members ((k, v) ∷ m) ks (fresh, d) h =
    let held : member k ks ≡ true = h k v (ground (arith, string_eq.same_iff k k)) in
    omega (
      arith,
      length-erase k ks held,
      length-le_of_members m (erase k ks) d (λ j w g.
          member-erase_ne j k ks (ground (arith, string_eq.same_iff k j))
            (h j w (ground (arith, string_eq.same_iff k j)))),
    )

module _ {Stored : Type 0} (K : RecordCodec Stored) (T : Tables String Stored) where
  pub get-remove_all :
      (id : String) (gone : List String) (t : T.Table)
      → T.get id (remove_all K T gone t) ≡ (if member id gone then none else T.get id t)
  unfolding remove_all member
  get-remove_all id [] t = refl
  get-remove_all id (k ∷ gone) t =
      ground (arith, get-remove_all id gone (T.remove k t), T.get-remove id k t)
