-- ===== src/Clients/Pruned.antt =====
-- What `prune` leaves of the table: the pinned rows, and of the others those of late, up to a bound.
use mbrc_plugin.Base.{
  ℕ, ◌≤◌, ◌+◌, ◌-◌, zero, suc, String, Bool, true, false, not, ◌||◌, ◌≡◌, refl, none, some, List,
  [], ◌∷◌, arith, if◌then◌else◌, ◌==◌, string_eq, length, take, drop, ltb, suc,
}
use mbrc_plugin.Base.Dict
use mbrc_plugin.Base.Dict.{Dict}
use mbrc_plugin.Base.Dict.Rows.{Distinct, retain, get-retain}
use mbrc_plugin.Base.Sorting.{member}
use mbrc_plugin.Store.{Tables}
use mbrc_plugin.Clients.{
  RecordCodec, remove_all, prune, live_rows, expired_ids, overflowing, ids, sort_by_seen,
  insert_by_seen, max_identities,
}
use mbrc_plugin.Clients.Removal.{get-remove_all, length-le_of_members}

retain-Distinct :
    {V : Type 0} (p : String → Bool) (m : Dict String V) → Distinct m → Distinct (retain p m)
unfolding retain
retain-Distinct p [] d = tt
retain-Distinct p ((k, v) ∷ m) (fresh, d) = ground (arith, retain-Distinct p m d, get-retain p k m)

length-insert_by_seen :
    (id : String) (at : ℕ) (rows : List (String × ℕ))
    → length (insert_by_seen (id, at) rows) ≡ length rows + 1
unfolding insert_by_seen
length-insert_by_seen id at [] = omega arith
length-insert_by_seen id at ((j, seen) ∷ rows) = ground (arith, length-insert_by_seen id at rows)

length-sort_by_seen : (rows : List (String × ℕ)) → length (sort_by_seen rows) ≡ length rows
unfolding sort_by_seen
length-sort_by_seen [] = refl
length-sort_by_seen ((id, at) ∷ rows) =
    omega (arith, length-insert_by_seen id at (sort_by_seen rows), length-sort_by_seen rows)

member-insert_by_seen :
    (k id : String) (at : ℕ) (rows : List (String × ℕ))
    → member k (ids (insert_by_seen (id, at) rows)) ≡ ((id == k) || member k (ids rows))
unfolding insert_by_seen member
member-insert_by_seen k id at [] = refl
member-insert_by_seen k id at ((j, seen) ∷ rows) =
    ground (arith, member-insert_by_seen k id at rows)

member-sort_by_seen :
    (k : String) (rows : List (String × ℕ))
    → member k (ids (sort_by_seen rows)) ≡ member k (ids rows)
unfolding sort_by_seen member
member-sort_by_seen k [] = refl
member-sort_by_seen k ((id, at) ∷ rows) =
    ground (arith, member-insert_by_seen k id at (sort_by_seen rows), member-sort_by_seen k rows)

member-take-drop :
    (k : String) (n : ℕ) (rows : List (String × ℕ))
    → member k (ids rows) ≡ (member k (ids (take n rows)) || member k (ids (drop n rows)))
unfolding member
member-take-drop k zero rows = refl
member-take-drop k (suc n) [] = refl
member-take-drop k (suc n) ((j, at) ∷ rows) = ground (arith, member-take-drop k n rows)

length-ids-drop : (n : ℕ) (rows : List (String × ℕ)) → length (ids (drop n rows)) ≡ length rows - n
length-ids-drop zero [] = refl
length-ids-drop zero ((j, at) ∷ rows) = omega (arith, length-ids-drop zero rows)
length-ids-drop (suc n) [] = omega arith
length-ids-drop (suc n) ((j, at) ∷ rows) = omega (arith, length-ids-drop n rows)

-- What `overflowing` leaves of the live rows.
staying : List (String × ℕ) → List String
staying live =
    if ltb max_identities (length live)
    then ids (drop (length live - max_identities) (sort_by_seen live))
    else ids live

staying_bound : (live : List (String × ℕ)) → length (staying live) ≤ max_identities
unfolding staying
staying_bound live = ground (
  arith,
  length-ids-drop (length live - max_identities) (sort_by_seen live),
  length-sort_by_seen live,
  length-ids-drop 0 live,
)

staying_or_overflowing :
    (k : String) (live : List (String × ℕ))
    → member k (ids live) ≡ true
    → member k (overflowing live) ≡ false
    → member k (staying live) ≡ true
unfolding staying overflowing member
staying_or_overflowing k live h o = ground (
  arith,
  member-take-drop k (length live - max_identities) (sort_by_seen live),
  member-sort_by_seen k live,
)

module _ {Stored : Type 0} (K : RecordCodec Stored) where
  not_expired-live :
      (pinned : List String) (now : ℕ) (k : String) (v : Stored) (rows : Dict String Stored)
      → member k pinned ≡ false
      → Dict.get k rows ≡ some v
      → member k (expired_ids K pinned now rows) ≡ false
      → member k (ids (live_rows K pinned now rows)) ≡ true
  unfolding Dict.get expired_ids live_rows member
  not_expired-live pinned now k v [] u g e = cc
  not_expired-live pinned now k v ((j, w) ∷ rows) u g e =
      ground (arith, string_eq.same_iff j k, not_expired-live pinned now k v rows u)

  -- A pinned id is in neither list.
  pinned-live_rows :
      (pinned : List String) (now : ℕ) (k : String) (rows : Dict String Stored)
      → member k pinned ≡ true
      → (member k (ids (live_rows K pinned now rows)) ≡ false)
        × (member k (expired_ids K pinned now rows) ≡ false)
  unfolding expired_ids live_rows member
  pinned-live_rows pinned now k [] h = (refl, refl)
  pinned-live_rows pinned now k ((j, w) ∷ rows) h =
      ground (arith, string_eq.same_iff j k, pinned-live_rows pinned now k rows h)

  pinned-overflowing :
      (k : String) (live : List (String × ℕ))
      → member k (ids live) ≡ false
      → member k (overflowing live) ≡ false
  unfolding overflowing member
  pinned-overflowing k live h = ground (
    arith,
    member-take-drop k (length live - max_identities) (sort_by_seen live),
    member-sort_by_seen k live,
  )

  module _ (T : Tables String Stored) where
    open T use {Table, get, rows, get-rows, rows-Distinct}

    pub get-prune :
        (pinned : List String) (now : ℕ) (k : String) (t : Table)
        → get k (prune K T pinned now t) ≡ (
            if member k (overflowing (live_rows K pinned now (rows t)))
            then none
            else if member k (expired_ids K pinned now (rows t))
            then none
            else get k t)
    unfolding prune
    get-prune pinned now k t = ground (
      arith,
      get-remove_all K T k (overflowing (live_rows K pinned now (rows t)))
          (remove_all K T (expired_ids K pinned now (rows t)) t),
      get-remove_all K T k (expired_ids K pinned now (rows t)) t,
    )

    -- The row of a pinned id is kept, whatever its age and however full the table.
    pub get-prune_pinned :
        (pinned : List String) (now : ℕ) (k : String) (t : Table)
        → member k pinned ≡ true
        → get k (prune K T pinned now t) ≡ get k t
    get-prune_pinned pinned now k t h = ground (
      arith,
      get-prune pinned now k t,
      pinned-live_rows pinned now k (rows t) h,
      pinned-overflowing k (live_rows K pinned now (rows t)),
    )

    kept-staying :
        (pinned : List String) (now : ℕ) (t : Table) (k : String) (v : Stored)
        → Dict.get k (retain (λ id. not (member id pinned)) (rows (prune K T pinned now t)))
          ≡ some v
        → member k (staying (live_rows K pinned now (rows t))) ≡ true
    kept-staying pinned now t k v g = ground (
      arith,
      get-retain (λ id. not (member id pinned)) k (rows (prune K T pinned now t)),
      get-rows k (prune K T pinned now t),
      get-prune pinned now k t,
      get-rows k t,
      not_expired-live pinned now k v (rows t),
      staying_or_overflowing k (live_rows K pinned now (rows t)),
    )

    -- However many identities peers invent, no more than 200 are kept that are not pinned.
    pub prune_bound :
        (pinned : List String) (now : ℕ) (t : Table)
        → length (retain (λ id. not (member id pinned)) (rows (prune K T pinned now t))) ≤ 200
    prune_bound pinned now t = omega (
      arith,
      staying_bound (live_rows K pinned now (rows t)),
      length-le_of_members (retain (λ id. not (member id pinned)) (rows (prune K T pinned now t)))
          (staying (live_rows K pinned now (rows t)))
          (retain-Distinct (λ id. not (member id pinned)) (rows (prune K T pinned now t))
            (rows-Distinct (prune K T pinned now t)))
          (λ k v g. kept-staying pinned now t k v g),
    )
