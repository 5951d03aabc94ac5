-- ===== src/LibraryChanges/Record/Trim.antt =====
-- Forgetting the oldest tombstones: which rows go, and that the floor covers them.
use mbrc_plugin.Base.{
  ℕ, String, Bool, true, false, ◌≡◌, Option, none, some, List, [], ◌∷◌, ◌==◌, refl, arith, ◌⊎◌,
  if◌then◌else◌, string_eq, nat_eq, ◌≤◌, ◌-◌, last, leb, All, Bool-cases, Option-cases, inl, inr,
  ltb,
}
use mbrc_plugin.Base.Dict
use mbrc_plugin.Base.Dict.{Dict}
use mbrc_plugin.Base.Sorting.{member}
use mbrc_plugin.Store.Ordered.{KeysAbove, HasAscendingKeys, KeysAbove-get, KeysAbove-fresh}
use mbrc_plugin.Base.Order.{pair_eq, pair_order, text_order, pair_same_iff}
use mbrc_plugin.LibraryChanges.{
  Filed, ChangeLog, oldest_tombstones, forget, trim, max_tombstones, OrderedTables,
}
use mbrc_plugin.LibraryChanges.Record.{
  TablesAgree, WithinBounds, OnlyTombstone, forget-TablesAgree, names, known-forget, floor-forget,
}

-- The generation of the last key, where there is one.
abbrev AtMostLast : Option (ℕ × String) → ℕ → Type 0
AtMostLast none g = ⊥
AtMostLast (some (h, p)) g = g ≤ h

abbrev AtLeastLast : Option (ℕ × String) → ℕ → Type 0
AtLeastLast none g = ⊥
AtLeastLast (some (h, p)) g = h ≤ g

below_gen :
    (k j : ℕ × String) (m : Dict (ℕ × String) Bool) (l : Bool)
    → KeysAbove k m
    → Dict.get j m ≡ some l
    → k.0 ≤ j.0
below_gen k j m l a e = ground (arith, KeysAbove-get k j l m a e)

-- Every key found is a tombstone of the table.
oldest-get :
    (n : ℕ) (m : Dict (ℕ × String) Bool) (k : ℕ × String)
    → HasAscendingKeys m
    → member k (oldest_tombstones n m) ≡ true
    → Dict.get k m ≡ some false
unfolding oldest_tombstones member Dict.get
oldest-get n [] k a e = cc
oldest-get n ((j, true) ∷ m) k a e =
    ground (arith, oldest-get n m k a.1 e, KeysAbove-fresh j false m a.0, pair_same_iff j k)
oldest-get n ((j, false) ∷ m) k a e = ground (arith, oldest-get (n - 1) m k a.1)

most_cons :
    (j k : ℕ × String) (ks : List (ℕ × String))
    → ((i : ℕ × String) → member i ks ≡ true → (j.0 ≤ i.0) × AtMostLast (last ks) i.0)
    → member k (j ∷ ks) ≡ true
    → AtMostLast (last (j ∷ ks)) k.0
unfolding member
most_cons j k [] h e = ground (arith, pair_same_iff j k)
most_cons j k (i ∷ ks) h e = ground (arith, pair_same_iff j k, h i, h k, pair_same_iff i i)

most_if :
    (c : Bool) (j k : ℕ × String) (ks : List (ℕ × String))
    → ((i : ℕ × String) → member i ks ≡ true → (j.0 ≤ i.0) × AtMostLast (last ks) i.0)
    → member k (if c then j ∷ [] else j ∷ ks) ≡ true
    → AtMostLast (last (if c then j ∷ [] else j ∷ ks)) k.0
unfolding member
most_if true j k ks h e = ground (arith, pair_same_iff j k)
most_if false j k ks h e = most_cons j k ks h e

least_cons :
    (j k : ℕ × String) (ks : List (ℕ × String))
    → (member k ks ≡ true) ⊎ AtLeastLast (last ks) k.0
    → (member k (j ∷ ks) ≡ true) ⊎ AtLeastLast (last (j ∷ ks)) k.0
unfolding member
least_cons j k [] h = ground arith
least_cons j k (i ∷ ks) h = ground arith

-- No key found is past the last.
oldest-le :
    (n : ℕ) (m : Dict (ℕ × String) Bool) (k : ℕ × String)
    → HasAscendingKeys m
    → member k (oldest_tombstones n m) ≡ true
    → AtMostLast (last (oldest_tombstones n m)) k.0
unfolding oldest_tombstones member
oldest-le n [] k a e = cc
oldest-le n ((j, true) ∷ m) k a e = oldest-le n m k a.1 e
oldest-le n ((j, false) ∷ m) k a e =
    most_if (leb n 1) j k (oldest_tombstones (n - 1) m)
      (λ i f.
        (below_gen j i m false a.0 (oldest-get (n - 1) m i a.1 f), oldest-le (n - 1) m i a.1 f))
      e

-- A tombstone that is not found lies at the last key or past it.
oldest-ge :
    (n : ℕ) (m : Dict (ℕ × String) Bool) (k : ℕ × String)
    → HasAscendingKeys m
    → Dict.get k m ≡ some false
    → (member k (oldest_tombstones n m) ≡ true) ⊎ AtLeastLast (last (oldest_tombstones n m)) k.0
unfolding oldest_tombstones member Dict.get
oldest-ge n [] k a e = cc
oldest-ge n ((j, true) ∷ m) k a e = ground (arith, oldest-ge n m k a.1)
oldest-ge n ((j, false) ∷ m) k a e = ground (
  arith,
  oldest-ge (n - 1) m k a.1,
  least_cons j k (oldest_tombstones (n - 1) m),
  least_cons j k [],
  pair_same_iff j k,
  below_gen j k m false a.0,
)

named_member :
    (p : String) (ks : List (ℕ × String)) → names p ks ≡ true → (g : ℕ) × (member (g, p) ks ≡ true)
unfolding member
named_member p [] e = cc
named_member p ((g, q) ∷ ks) e = elim (Bool-cases (q == p)) [
  | inl same ↦ (g, ground (arith, string_eq.same_iff q p))
  | inr differ ↦ (let (h, m) = named_member p ks (ground arith) in (h, ground (arith)))
]

member_named :
    (p : String) (g : ℕ) (ks : List (ℕ × String)) → member (g, p) ks ≡ true → names p ks ≡ true
unfolding member
member_named p g [] e = cc
member_named p g ((h, q) ∷ ks) e = ground (arith, member_named p g ks)

All-of_member :
    (P : ℕ × String → Type 0) (ks : List (ℕ × String))
    → ((k : ℕ × String) → member k ks ≡ true → P k)
    → All P ks
unfolding member
All-of_member P [] h = tt
All-of_member P (k ∷ ks) h =
    (h k (ground (arith, pair_same_iff k k)), All-of_member P ks (λ j m. h j (ground arith)))

last-member : (k : ℕ × String) (ks : List (ℕ × String)) → last ks ≡ some k → member k ks ≡ true
unfolding member
last-member k [] e = cc
last-member k (j ∷ []) e = ground (arith, pair_same_iff j k)
last-member k (j ∷ i ∷ ks) e = ground (arith, last-member k (i ∷ ks) e)

module _ (K : OrderedTables String Filed) (L : OrderedTables (ℕ × String) Bool) where
  -- What dropping rows may change: a path keeps its filing, or its tombstone goes, which lies at
  -- the new floor or below.
  abbrev pub ForgetsOnly : ChangeLog K L → ChangeLog K L → String → Type 0
  ForgetsOnly s s' p =
      (K.get p s'.known ≡ K.get p s.known)
      ⊎ ((K.get p s'.known ≡ none) × (g : ℕ) × (K.get p s.known ≡ some (g, false)) × (g ≤ s'.floor))

  abbrev cut : List (ℕ × String) → ChangeLog K L → ChangeLog K L
  cut keys s =
      let s' = forget K L keys s in
      record s' {
        tombstones = max_tombstones;
        floor = elim (last keys) [ none ↦ s'.floor | some (g, p) ↦ g ];
      }

  module _ (n count : ℕ) (s : ChangeLog K L) (agree : TablesAgree K L s)
      (bounds : WithinBounds K L n s) where
    abbrev keys : List (ℕ × String)
    keys = oldest_tombstones count (L.rows s.log)

    key_known : (g : ℕ) (p : String) → member (g, p) keys ≡ true → K.get p s.known ≡ some (g, false)
    key_known g p m = ground (
      arith,
      oldest-get count (L.rows s.log) (g, p) (L.rows_ascend s.log) m,
      L.get-rows (g, p) s.log,
      agree p g false,
    )

    keys-OnlyTombstone : All (OnlyTombstone K L s) keys
    keys-OnlyTombstone =
        All-of_member (OnlyTombstone K L s) keys (λ k m h l e. ground (arith, key_known k.0 k.1 m))

    floor_cases :
        (last keys ≡ none)
        ⊎ ((k : ℕ × String) × (last keys ≡ some k) × (K.get k.1 s.known ≡ some (k.0, false)))
    floor_cases = elim (Option-cases (last keys)) [
      | inl nothing ↦ inl nothing
      | inr (k, e) ↦ inr (k, e, key_known k.0 k.1 (last-member k keys e))
    ]

    cut-ForgetsOnly : (p : String) → ForgetsOnly s (cut keys s) p
    cut-ForgetsOnly p = elim (Bool-cases (names p keys)) [
      | inl named ↦
          (let (g, m) = named_member p keys named in
            inr (
              ground (arith, known-forget K L keys s p),
              g,
              key_known g p m,
              ground (
                arith,
                oldest-le count (L.rows s.log) (g, p) (L.rows_ascend s.log) m,
                floor-forget K L keys s,
              ),
            ))
      | inr kept ↦ inl (ground (arith, known-forget K L keys s p))
    ]

    cut-floor : s.floor ≤ (cut keys s).floor
    cut-floor = elim floor_cases [
      | inl nothing ↦ ground (arith, floor-forget K L keys s)
      | inr (k, e, f) ↦ ground (arith, bounds.2 k.1 k.0 f)
    ]

    cut_floor_le : (cut keys s).floor ≤ n
    cut_floor_le = elim floor_cases [
      | inl nothing ↦ ground (arith, floor-forget K L keys s, bounds.0)
      | inr (k, e, f) ↦ ground (arith, bounds.1 k.1 k.0 false f)
    ]

    floor_covers :
        (p : String) (g : ℕ)
        → K.get p (forget K L keys s).known ≡ some (g, false)
        → (cut keys s).floor ≤ g
    floor_covers p g e = ground (
      arith,
      known-forget K L keys s p,
      agree p g false,
      L.get-rows (g, p) s.log,
      oldest-ge count (L.rows s.log) (g, p) (L.rows_ascend s.log),
      member_named p g keys,
    )

    cut-WithinBounds : WithinBounds K L n (cut keys s)
    cut-WithinBounds = (
      cut_floor_le,
      λ p g l e. ground (arith, known-forget K L keys s p, bounds.1 p g l),
      floor_covers,
    )

  -- The bound on tombstones costs only deletes that the floor then covers, and keeps the log whole.
  pub trim_lem :
      (n : ℕ) (s : ChangeLog K L)
      → TablesAgree K L s
      → WithinBounds K L n s
      → TablesAgree K L (trim K L s)
        × WithinBounds K L n (trim K L s)
        × (s.floor ≤ (trim K L s).floor)
        × ((p : String) → ForgetsOnly s (trim K L s) p)
  unfolding trim
  trim_lem n s a b = elim (Bool-cases (ltb max_tombstones s.tombstones)) [
    | inl over ↦
        let count = s.tombstones - max_tombstones in
        rw (over, trim)
          (
            forget-TablesAgree K L (keys n count s a b) s (keys-OnlyTombstone n count s a b) a,
            cut-WithinBounds n count s a b,
            cut-floor n count s a b,
            cut-ForgetsOnly n count s a b,
          )
    | inr under ↦ rw (under, trim) (a, b, omega arith, λ p. inl refl)
  ]
