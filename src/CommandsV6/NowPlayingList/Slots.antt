-- ===== src/CommandsV6/NowPlayingList/Slots.antt =====
-- Emptying the slots of the queue one by one, the highest first, as `remove` of
-- packages/mbrc-core/src/server/commands_v6/nowplaying_list.rs does.
use mbrc_plugin.Base.{
  ℕ, zero, suc, ◌+◌, ◌≤◌, ◌<◌, String, false, ◌≡◌, refl, sym, ap, ◌∙◌, inr, Option, none, some,
  List, [], ◌∷◌, length, if◌then◌else◌, string_eq, nat_eq, arith, ◌++◌,
}
use mathlib.Core.Path.{subst}
use mbrc_plugin.Base.Int.{pos}
use mbrc_plugin.Base.Order.{descending}
use mbrc_plugin.Base.Sorting.{member, Above, IsAscending, Above-trans}
use mbrc_plugin.Json.{Json}
use mbrc_plugin.Json.Build.{JsonBuild}
use mbrc_plugin.CommandsV6.NowPlayingList.{QueueHost, remove_list_item, remove_all, unless_failed}

-- The list without the entry at an index, as it is past the end.
abbrev pub remove_at : ℕ → List String → List String
remove_at i [] = []
remove_at zero (x ∷ xs) = xs
remove_at (suc i) (x ∷ xs) = x ∷ remove_at i xs

-- The list without the entries at `os`, where its first entry has the index `i`.
unfoldable pub without : List ℕ → (i : ℕ) → List String → List String
without os i [] = []
without os i (x ∷ xs) = let rest = without os (suc i) xs in if member i os then rest else x ∷ rest

abbrev pub Below : ℕ → List ℕ → Type 0
Below i os = Above ⦃o = descending⦄ i os

not_member-Below : (i j : ℕ) (os : List ℕ) → Below i os → i ≤ j → member j os ≡ false
unfolding member
not_member-Below i j [] b h = refl
not_member-Below i j (o ∷ os) (l, b) h = ground (arith, not_member-Below i j os b h)

Below-le : (i j : ℕ) (os : List ℕ) → i ≤ j → Below i os → Below j os
Below-le i j [] h b = tt
Below-le i j (o ∷ os) h (l, b) = (ground arith, Below-le i j os h b)

without-Below :
    (os : List ℕ) (i j : ℕ) (xs : List String) → Below i os → i ≤ j → without os j xs ≡ xs
unfolding without
without-Below os i j [] b h = refl
without-Below os i j (x ∷ xs) b h =
    rw (not_member-Below i j os b h, without-Below os i (suc j) xs b (omega arith))

-- Taking the highest slot first leaves the others where they are.
without-remove_at :
    (d i o : ℕ) (os : List ℕ) (xs : List String)
    → o ≡ i + d
    → Below o os
    → without (o ∷ os) i xs ≡ without os i (remove_at d xs)
unfolding without member
without-remove_at d i o os [] e b = refl
without-remove_at zero i o os (x ∷ xs) e b =
    let above = Above-trans ⦃o = descending⦄ (suc i) o os (ground arith) b in
    ground (
      arith,
      without-Below (o ∷ os) (suc i) (suc i) xs (ground arith, above),
      without-Below os o i xs b,
    )
without-remove_at (suc d) i o os (x ∷ xs) e b =
    ground (arith, without-remove_at d (suc i) o os xs (ground arith) b)

length-remove_at :
    (i : ℕ) (xs : List String) → i < length xs → suc (length (remove_at i xs)) ≡ length xs
length-remove_at i [] h = ground arith
length-remove_at zero (x ∷ xs) h = refl
length-remove_at (suc i) (x ∷ xs) h = ground (arith, length-remove_at i xs)

-- A removal that the host does not refuse empties the slot that it names. Nothing is said of one
-- that the host refuses.
abbrev pub RemovesSlots : QueueHost → Type 0
RemovesSlots H =
    (i : ℕ) (ps : List String) (w : H.World)
    → H.paths w ≡ inr ps
    → i < length ps
    → (H.call (remove_list_item (pos i)) w).0 ≡ none
    → H.paths (H.call (remove_list_item (pos i)) w).1 ≡ inr (remove_at i ps)

module _ (J : Json) (B : JsonBuild J) (H : QueueHost) where
  -- The host has refused to empty the slot `o`, with the error `e`: the slots above it that are to be
  -- emptied were, and those below it were not yet tried.
  pub record IsCutShort (os : List ℕ) (ps : List String) (e : String) (w : H.World) : Type 0 where
    pub gone : List ℕ
    pub o : ℕ
    pub left : List ℕ
    pub before : H.World
    pub split : os ≡ gone ++ o ∷ left
    pub emptied : H.paths before ≡ inr (without gone 0 ps)
    pub refusal : H.call (remove_list_item (pos o)) before ≡ (some e, w)

  -- What removing the slots `os`, the highest first, comes to.
  abbrev pub IsStopped : List ℕ → List String → Option String × H.World → Type 0
  IsStopped os ps (none, w) = H.paths w ≡ inr (without os 0 ps)
  IsStopped os ps (some e, w) = IsCutShort os ps e w

  Below-prefix : (i : ℕ) (xs ys : List ℕ) → Below i (xs ++ ys) → Below i xs
  Below-prefix i [] ys b = tt
  Below-prefix i (x ∷ xs) ys (l, b) = (l, Below-prefix i xs ys b)

  IsStopped-after :
      (o : ℕ) (os : List ℕ) (ps : List String) (r : Option String × H.World)
      → Below o os
      → IsStopped os (remove_at o ps) r
      → IsStopped (o ∷ os) ps r
  IsStopped-after o os ps (none, w) b h = rw (without-remove_at o 0 o os ps (ground arith) b) h
  IsStopped-after o os ps (some e, w) b h =
      let above =
        Below-prefix o h.gone (h.o ∷ h.left) (subst (λ (xs : List ℕ). Below o xs) h.split b) in
      record {
        gone = o ∷ h.gone;
        o = h.o;
        left = h.left;
        before = h.before;
        split = ap (λ (xs : List ℕ). o ∷ xs) h.split;
        emptied = rw (without-remove_at o 0 o h.gone ps (ground arith) above) h.emptied;
        refusal = h.refusal;
      }

  pub without_none : (ps : List String) → without [] 0 ps ≡ ps
  without_none ps = without-Below [] 0 0 ps tt (ground arith)

  removing-IsStopped :
      (o : ℕ) (os : List ℕ) (ps : List String) (w : H.World) (r : Option String × H.World)
      → Below o os
      → H.paths w ≡ inr ps
      → H.call (remove_list_item (pos o)) w ≡ r
      → (r.0 ≡ none → IsStopped os (remove_at o ps) (remove_all J B H os r.1))
      → IsStopped (o ∷ os) ps (unless_failed J B H r (remove_all J B H os))
  removing-IsStopped o os ps w (some e, w') b p c ih = record {
    gone = [];
    o = o;
    left = os;
    before = w;
    split = refl;
    emptied = p ∙ ap (λ (xs : List String). inr xs) (sym (without_none ps));
    refusal = c;
  }
  removing-IsStopped o os ps w (none, w') b p c ih =
      IsStopped-after o os ps (remove_all J B H os w') b (ih refl)

  -- Removals from the highest slot down.
  pub remove_all-IsStopped :
      (os : List ℕ) (ps : List String) (w : H.World)
      → RemovesSlots H
      → H.paths w ≡ inr ps
      → IsAscending ⦃o = descending⦄ os
      → Below (length ps) os
      → IsStopped os ps (remove_all J B H os w)
  unfolding remove_all
  remove_all-IsStopped [] ps w h p asc fit =
      p ∙ ap (λ (xs : List String). inr xs) (sym (without_none ps))
  remove_all-IsStopped (o ∷ os) ps w h p (b, asc) (l, fit) =
      let w' = (H.call (remove_list_item (pos o)) w).1 in
      removing-IsStopped o os ps w (H.call (remove_list_item (pos o)) w) b p refl (λ fine.
        remove_all-IsStopped os (remove_at o ps) w' h (h o ps w p (ground arith) fine) asc
          (Below-le o (length (remove_at o ps)) os (ground (arith, length-remove_at o ps)) b))
