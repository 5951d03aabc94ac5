-- ===== src/CommandsV6/NowPlayingList/Removal.antt =====
-- Batches of removals from the now-playing list (`remove` of
-- packages/mbrc-core/src/server/commands_v6/nowplaying_list.rs).
use mbrc_plugin.Base.{
  ℕ, suc, ◌≤◌, String, false, ◌≡◌, refl, sym, ap, ◌∙◌, ◌⊎◌, inl, inr, Option, none, some, List, [],
  ◌∷◌, leb, length, string_eq, nat_eq, arith, Bool-cases, true,
}
use mathlib.Core.Path.{subst}
use mbrc_plugin.Base.Order.{descending}
use mbrc_plugin.Base.Sorting.{
  sort, member, dedup, IsAscending, Above-trans, dedup-sort-IsAscending, member-sort,
}
use mbrc_plugin.Json.{Json}
use mbrc_plugin.Json.Build.{JsonBuild}
use mbrc_plugin.CommandsV6.{OpResult, done, fails, ◌>>>◌, failure}
use mbrc_plugin.CommandsV6.NowPlayingList.{
  QueueHost, orders_at, unless_repeated, repeats, orders_highest_first, check_version, or_internal,
  remove_all, remove, bump_version, Step, empty, unless_fails, removed, remove_within,
}
use mbrc_plugin.CommandsV6.NowPlayingList.Slots.{
  without, RemovesSlots, IsCutShort, IsStopped, without_none, remove_all-IsStopped,
}

dedup_of_repeats : (os : List ℕ) → repeats os ≡ false → dedup os ≡ os
unfolding repeats dedup
dedup_of_repeats [] h = refl
dedup_of_repeats (o ∷ []) h = refl
dedup_of_repeats (o ∷ p ∷ os) h = ground (arith, dedup_of_repeats (p ∷ os))

module _ (J : Json) (B : JsonBuild J) (H : QueueHost) where
  -- The slots that a request names, in its order.
  abbrev pub asked : J.Value → List ℕ
  asked v = elim (orders_at J "orders" (J.field v "orders")) [
    | done os ↦ os
    | fails code message at ↦ []
  ]

  -- The orders that are read descend, and are those asked for.
  abbrev Ordered : J.Value → OpResult (List ℕ) → Type 0
  Ordered v (fails code message at) = Unit
  Ordered v (done os) =
      IsAscending ⦃o = descending⦄ os × ((i : ℕ) → member i os ≡ member i (asked v))

  repeats-IsAscending :
      (os : List ℕ)
      → repeats (sort ⦃o = descending⦄ os) ≡ false
      → IsAscending ⦃o = descending⦄ (sort ⦃o = descending⦄ os)
  repeats-IsAscending os h =
      subst (λ xs. IsAscending ⦃o = descending⦄ xs) (dedup_of_repeats (sort ⦃o = descending⦄ os) h)
        (dedup-sort-IsAscending ⦃o = descending⦄ os)

  unless_repeated_lem :
      (v : J.Value) (os : List ℕ)
      → asked v ≡ os
      → Ordered v (unless_repeated "orders" (sort ⦃o = descending⦄ os))
  unless_repeated_lem v os e = elim (Bool-cases (repeats (sort ⦃o = descending⦄ os))) [
    | inl h ↦ rw (h, unless_repeated) tt
    | inr h ↦
        rw (h, unless_repeated)
          (
            repeats-IsAscending os h,
            λ i. member-sort ⦃o = descending⦄ i os ∙ ap (λ xs. member i xs) (sym e),
          )
  ]

  read_in :
      (v : J.Value) (r : OpResult (List ℕ))
      → orders_at J "orders" (J.field v "orders") ≡ r
      → Ordered v (r >>> (λ os. unless_repeated "orders" (sort ⦃o = descending⦄ os)))
  read_in v (fails code message at) e = tt
  read_in v (done os) e = unless_repeated_lem v os (rw (e, asked))

  orders_highest_first-Ordered : (v : J.Value) → Ordered v (orders_highest_first J v "orders")
  unfolding orders_highest_first
  orders_highest_first-Ordered v = read_in v (orders_at J "orders" (J.field v "orders")) refl

  without_agree :
      (os us : List ℕ) (i : ℕ) (xs : List String)
      → ((j : ℕ) → member j os ≡ member j us)
      → without os i xs ≡ without us i xs
  unfolding without
  without_agree os us i [] h = refl
  without_agree os us i (x ∷ xs) h = rw (h i, without_agree os us (suc i) xs h)

  abbrev pub IsFailure : {A : Type 0} → OpResult A → Type 0
  IsFailure (done v) = ⊥
  IsFailure (fails code message at) = Unit

  -- Why a removal is not begun: the orders do not read, the list has another version than the one
  -- the request names, the host does not list the queue, or a slot that is named is past its end.
  pub data IsRefused (v : J.Value) (version : Option ℕ) (w : H.World) : Type 0 where
    unreadable : IsFailure (orders_highest_first J v "orders") → IsRefused v version w
    outdated : IsFailure (check_version J v version) → IsRefused v version w
    unlisted : (e : String) → H.paths w ≡ inl e → IsRefused v version w
    past_its_end :
        (ps : List String) (i : ℕ)
        → H.paths w ≡ inr ps
        → member i (asked v) ≡ true
        → length ps ≤ i
        → IsRefused v version w

  -- Where a removal that was begun has left the queue `ps`: the slots that the request names are gone
  -- and no others; or the host refused one of them, and exactly those above it are gone.
  abbrev pub IsBegun : J.Value → List String → Step J B H → Type 0
  IsBegun v ps s =
      ((s.answer ≡ done (empty J B H)) × (H.paths s.world ≡ inr (without (asked v) 0 ps)))
      ⊎ ((e : String) × (os : List ℕ) × (s.answer ≡ failure e)
          × IsAscending ⦃o = descending⦄ os
          × ((i : ℕ) → member i os ≡ member i (asked v))
          × IsCutShort J B H os ps e s.world)

  -- The removal was refused and nothing has changed, or it was begun, and the version has moved.
  abbrev pub Removes : J.Value → Option ℕ → H.World → Step J B H → Type 0
  Removes v version w s =
      ((s.world ≡ w) × (s.version ≡ version) × IsFailure s.answer × IsRefused v version w)
      ⊎ ((s.version ≡ bump_version version)
          × ((ps : List String) × (H.paths w ≡ inr ps) × IsBegun v ps s))

  removed-Removes :
      (v : J.Value) (os : List ℕ) (ps : List String) (version : Option ℕ) (w : H.World)
      (r : Option String × H.World)
      → H.paths w ≡ inr ps
      → IsAscending ⦃o = descending⦄ os
      → ((i : ℕ) → member i os ≡ member i (asked v))
      → IsStopped J B H os ps r
      → Removes v version w (removed J B H r version)
  removed-Removes v os ps version w (none, w') p asc same h = inr (
    refl,
    (
      ps,
      p,
      inl (refl, h ∙ ap (λ (xs : List String). inr xs) (without_agree os (asked v) 0 ps same)),
    ),
  )
  removed-Removes v os ps version w (some e, w') p asc same h =
      inr (refl, (ps, p, inr (e, os, refl, asc, same, h)))

  member_first : (o : ℕ) (os : List ℕ) → member o (o ∷ os) ≡ true
  unfolding member
  member_first o os = ground (arith, nat_eq.same_iff o o)

  remove_within-Removes :
      (v : J.Value) (os : List ℕ) (ps : List String) (version : Option ℕ) (w : H.World)
      → RemovesSlots H
      → H.paths w ≡ inr ps
      → Ordered v (done os)
      → Removes v version w (remove_within J B H os (length ps) version w)
  remove_within-Removes v [] ps version w r p (asc, same) =
      removed-Removes v [] ps version w (none, w) p asc same
        (p ∙ ap (λ (xs : List String). inr xs) (sym (without_none J B H ps)))
  remove_within-Removes v (o ∷ os) ps version w r p ((b, asc), same) =
      elim (Bool-cases (leb (length ps) o)) [
        | inl past ↦
            rw (past, remove_within)
              (inl (
                refl,
                refl,
                tt,
                past_its_end ps o p (sym (same o) ∙ member_first o os) (ground arith),
              ))
        | inr fits ↦
            let fit = Above-trans ⦃o = descending⦄ (length ps) o os (ground arith) b in
            rw (fits, remove_within)
              (removed-Removes v (o ∷ os) ps version w (remove_all J B H (o ∷ os) w) p (b, asc) same
                (remove_all-IsStopped J B H (o ∷ os) ps w r p (b, asc) (ground arith, fit)))
      ]

  checked-Removes :
      (v : J.Value) (orders : OpResult (List ℕ)) (fresh : OpResult Unit) (r : String ⊎ List String)
      (version : Option ℕ) (w : H.World)
      → RemovesSlots H
      → Ordered v orders
      → orders_highest_first J v "orders" ≡ orders
      → check_version J v version ≡ fresh
      → H.paths w ≡ r
      → Removes v version w (
          unless_fails J B H orders version w (λ os. unless_fails J B H fresh version w (λ _.
            unless_fails J B H
              (or_internal r)
              version
              w
              (λ ps. remove_within J B H os (length ps) version w))))
  checked-Removes v (fails c m at) fresh r version w h o eo ef e =
      inl (refl, refl, tt, unreadable (rw eo tt))
  checked-Removes v (done os) (fails c m at) r version w h o eo ef e =
      inl (refl, refl, tt, outdated (rw ef tt))
  checked-Removes v (done os) (done u) (inl x) version w h o eo ef e =
      inl (refl, refl, tt, unlisted x e)
  checked-Removes v (done os) (done u) (inr ps) version w h o eo ef e =
      remove_within-Removes v os ps version w h e o

  -- Whatever slots a request names, in whatever order, on a host that empties the slot of a removal
  -- that it does not refuse: the request fails and has changed nothing, since its orders do not read,
  -- its version is not the list's, the queue is not listed or a slot is past its end; or the version
  -- has moved, and
  -- either the entries that the request does not name are left, in their order, or the host refused
  -- one of the removals. Its error is then the answer, and exactly the named slots above the refused
  -- one were emptied before it; what the refused call itself does is the host's.
  pub remove-Removes :
      (v : J.Value) (version : Option ℕ) (w : H.World)
      → RemovesSlots H
      → Removes v version w (remove J B H v version w)
  unfolding remove
  remove-Removes v version w r =
      checked-Removes v (orders_highest_first J v "orders") (check_version J v version) (H.paths w)
        version w r (orders_highest_first-Ordered v) refl refl refl
