-- ===== src/Base/Sorting.antt =====
-- `sort_unstable` and `dedup` on a list of distinct-or-equal keys, and membership in the results.
use mbrc_plugin.Base.Tests.{if◌then◌else◌, Bool-cases}
use mbrc_plugin.Base.Equality.{Eq, ◌==◌}
use mbrc_plugin.Base.Order.{StrictOrder}
use mathlib.Core.Path.{◌≡◌, refl}
use mathlib.Core.Bool.{Bool, true, false, ◌||◌}
use mathlib.Core.Logic.{inl, inr}
use mathlib.Core.List.{List, [], ◌∷◌, ◌++◌}
use native.Mathlib.Omega.{arith}

module _ {K : Type 0} ⦃e : Eq K⦄ where
  unfoldable pub member : K → List K → Bool
  member k [] = false
  member k (j ∷ js) = (j == k) || member k js

  -- `Vec::dedup`: runs of equal neighbours become one entry.
  unfoldable pub dedup : List K → List K
  dedup [] = []
  dedup (j ∷ []) = j ∷ []
  dedup (j ∷ k ∷ ks) = let rest = dedup (k ∷ ks) in if j == k then rest else j ∷ rest

  pub member-append : (k : K) (xs ys : List K) → member k (xs ++ ys) ≡ (member k xs || member k ys)
  unfolding member
  member-append k [] ys = refl
  member-append k (x ∷ xs) ys = ground (arith, member-append k xs ys)

  pub member-dedup : (k : K) (xs : List K) → member k (dedup xs) ≡ member k xs
  unfolding member dedup
  member-dedup k [] = refl
  member-dedup k (x ∷ []) = refl
  member-dedup k (x ∷ y ∷ ys) =
      ground (arith, member-dedup k (y ∷ ys), e.same_iff x y, e.same_iff x k, e.same_iff y k)

module _ {K : Type 0} ⦃e : Eq K⦄ ⦃o : StrictOrder K⦄ where
  insert_sorted : K → List K → List K
  insert_sorted k [] = k ∷ []
  insert_sorted k (j ∷ js) = if o.less j k then j ∷ insert_sorted k js else k ∷ j ∷ js

  unfoldable pub sort : List K → List K
  unfolding insert_sorted
  sort [] = []
  sort (k ∷ ks) = insert_sorted k (sort ks)

  member-insert_sorted :
      (k j : K) (xs : List K) → member k (insert_sorted j xs) ≡ ((j == k) || member k xs)
  unfolding member insert_sorted
  member-insert_sorted k j [] = refl
  member-insert_sorted k j (x ∷ xs) = ground (arith, member-insert_sorted k j xs)

  pub member-sort : (k : K) (xs : List K) → member k (sort xs) ≡ member k xs
  unfolding member sort
  member-sort k [] = refl
  member-sort k (x ∷ xs) = ground (arith, member-sort k xs, member-insert_sorted k x (sort xs))

  -- Every entry lies strictly above `k`.
  abbrev pub Above : K → List K → Type 0
  Above k [] = Unit
  Above k (x ∷ xs) = (o.less k x ≡ true) × Above k xs

  -- Strictly ascending.
  abbrev pub IsAscending : List K → Type 0
  IsAscending [] = Unit
  IsAscending (x ∷ xs) = Above x xs × IsAscending xs

  pub Above-member : (k j : K) (xs : List K) → Above k xs → member j xs ≡ true → o.less k j ≡ true
  unfolding member
  Above-member k j [] h m = cc
  Above-member k j (x ∷ xs) h m = ground (arith, e.same_iff x j, Above-member k j xs h.1)

  pub Above-trans : (j k : K) (xs : List K) → o.less j k ≡ true → Above k xs → Above j xs
  Above-trans j k [] l h = tt
  Above-trans j k (x ∷ xs) l h = (o.trans j k x l h.0, Above-trans j k xs l h.1)

  Above-of_member :
      (k : K) (xs : List K) → ((j : K) → member j xs ≡ true → o.less k j ≡ true) → Above k xs
  unfolding member
  Above-of_member k [] h = tt
  Above-of_member k (x ∷ xs) h =
      (h x (ground (arith, e.same_iff x x)), Above-of_member k xs (λ j m. h j (ground arith)))

  -- No entry lies below `k`.
  abbrev AtLeast : K → List K → Type 0
  AtLeast k [] = Unit
  AtLeast k (x ∷ xs) = (o.less x k ≡ false) × AtLeast k xs

  -- Ascending, with equal entries allowed: what `sort` returns and `dedup` makes strict.
  abbrev IsWeak : List K → Type 0
  IsWeak [] = Unit
  IsWeak (x ∷ xs) = AtLeast x xs × IsWeak xs

  less_asym : (a b : K) → o.less a b ≡ true → o.less b a ≡ false
  less_asym a b h = ground (arith, o.trans a b a h, o.irrefl a)

  -- `a ≤ b` and `b ≤ c` give `a ≤ c`.
  le_trans : (a b c : K) → o.less b a ≡ false → o.less c b ≡ false → o.less c a ≡ false
  le_trans a b c h k = ground (arith, o.total a b, o.trans c a b)

  lt_of_lt-le : (a b c : K) → o.less a b ≡ true → o.less c b ≡ false → o.less a c ≡ true
  lt_of_lt-le a b c h k = ground (arith, o.total b c, o.trans a b c)

  AtLeast-insert_sorted :
      (j k : K) (xs : List K) → o.less k j ≡ false → AtLeast j xs → AtLeast j (insert_sorted k xs)
  unfolding insert_sorted
  AtLeast-insert_sorted j k [] h a = (h, tt)
  AtLeast-insert_sorted j k (x ∷ xs) h a = ground (arith, AtLeast-insert_sorted j k xs h a.1)

  AtLeast-trans : (j k : K) (xs : List K) → o.less k j ≡ false → AtLeast k xs → AtLeast j xs
  AtLeast-trans j k [] h a = tt
  AtLeast-trans j k (x ∷ xs) h a = (le_trans j k x h a.0, AtLeast-trans j k xs h a.1)

  IsWeak-insert_sorted : (k : K) (xs : List K) → IsWeak xs → IsWeak (insert_sorted k xs)
  unfolding insert_sorted
  IsWeak-insert_sorted k [] h = (tt, tt)
  IsWeak-insert_sorted k (x ∷ xs) h = ground (
    arith,
    IsWeak-insert_sorted k xs h.1,
    less_asym x k,
    AtLeast-insert_sorted x k xs,
    AtLeast-trans k x xs,
  )

  IsWeak-sort : (xs : List K) → IsWeak (sort xs)
  unfolding sort
  IsWeak-sort [] = tt
  IsWeak-sort (x ∷ xs) = IsWeak-insert_sorted x (sort xs) (IsWeak-sort xs)

  AtLeast-member : (k j : K) (xs : List K) → AtLeast k xs → member j xs ≡ true → o.less j k ≡ false
  unfolding member
  AtLeast-member k j [] h m = cc
  AtLeast-member k j (x ∷ xs) h m = ground (arith, e.same_iff x j, AtLeast-member k j xs h.1)

  below_weak :
      (x y j : K) (ys : List K)
      → (x == y) ≡ false
      → o.less y x ≡ false
      → AtLeast y ys
      → member j (y ∷ ys) ≡ true
      → o.less x j ≡ true
  unfolding member
  below_weak x y j ys n h a m = ground (
    arith,
    e.same_iff x y,
    e.same_iff y j,
    o.total x y,
    AtLeast-member y j ys a,
    lt_of_lt-le x y j,
  )

  dedup-IsAscending : (xs : List K) → IsWeak xs → IsAscending (dedup xs)
  unfolding dedup
  dedup-IsAscending [] h = tt
  dedup-IsAscending (x ∷ []) h = (tt, tt)
  dedup-IsAscending (x ∷ y ∷ ys) h = elim (Bool-cases (x == y)) [
    | inl same ↦ rw (same, dedup) (dedup-IsAscending (y ∷ ys) h.1)
    | inr differ ↦
        rw (differ, dedup)
          (
            Above-of_member x (dedup (y ∷ ys))
                (λ j m. below_weak x y j ys differ h.0.0 h.1.0 (rw member-dedup at m)),
            dedup-IsAscending (y ∷ ys) h.1,
          )
  ]

  pub dedup-sort-IsAscending : (xs : List K) → IsAscending (dedup (sort xs))
  dedup-sort-IsAscending xs = dedup-IsAscending (sort xs) (IsWeak-sort xs)
