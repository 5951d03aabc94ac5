-- ===== src/LibraryChanges/Record/Tracking.antt =====
-- A client's copy of the library, taken at one generation, while the log moves on.
use mbrc_plugin.Base.{
  ℕ, String, Bool, true, false, ◌≡◌, ◌⊎◌, refl, Option, none, some, List, [], ◌∷◌, arith, string_eq,
  ◌≤◌, ◌+◌, inl, inr, ltb,
}
use mbrc_plugin.Store.Ordered.{OrderedTables}
use mbrc_plugin.Base.Order.{pair_eq, pair_order, text_order}
use mbrc_plugin.LibraryChanges.{
  Filed, ChangeLog, is_live, live_in, changed_paths, record_pass, record_in,
}
use mbrc_plugin.LibraryChanges.Record.Library.{
  IsConsistent, passed, passed-ForgetsOnly, known-filings,
}
use mbrc_plugin.LibraryChanges.Record.History.{
  record_pass_lem, record_in_cases, edits_of, record_in-IsConsistent,
}

-- The path's latest change is newer than `g`.
abbrev pub is_news : ℕ → Option Filed → Bool
is_news g none = false
is_news g (some (h, l)) = ltb g h

module _ (K : OrderedTables String Filed) (L : OrderedTables (ℕ × String) Bool) where
  -- The copy `c`, taken at generation `g`, is out of date only on paths that have news since, as
  -- long as the floor has not passed it.
  abbrev pub Tracks : (String → Bool) → ℕ → ChangeLog K L → Type 0
  Tracks c g s =
      (g ≤ s.generation)
      × ((p : String)
          → s.floor ≤ g
          → (is_news g (K.get p s.known) ≡ true) ⊎ (c p ≡ is_live (K.get p s.known)))

  passed-Tracks :
      (c : String → Bool) (g : ℕ) (added removed edited : List String) (s : ChangeLog K L)
      → IsConsistent K L s
      → Tracks c g s
      → Tracks c g (passed K L added removed edited s)
  passed-Tracks c g added removed edited s h (older, t) = (
    ground (arith, older),
    λ p low. ground (
      arith,
      (passed-ForgetsOnly K L added removed edited s h).0,
      (passed-ForgetsOnly K L added removed edited s h).1 p,
      known-filings K L (s.generation + 1) added removed edited s p,
      t p,
    ),
  )

  record_pass-Tracks :
      (c : String → Bool) (g : ℕ) (paths : Option (List String)) (updated : List String)
      (s : ChangeLog K L)
      → IsConsistent K L s
      → Tracks c g s
      → Tracks c g (record_pass K L paths updated s).1
  record_pass-Tracks c g paths updated s h t = elim (record_pass_lem K L paths updated s) [
    | inl (a, r, e) ↦ rw e t
    | inr e ↦ rw e (
        passed-Tracks c g (changed_paths K L paths s).0 (changed_paths K L paths s).1
          (edits_of K L paths updated s) s h t)
  ]

  record_in-Tracks :
      (c : String → Bool) (g : ℕ) (e : String) (paths : Option (List String))
      (updated : List String) (s : ChangeLog K L)
      → IsConsistent K L s
      → Tracks c g s
      → Tracks c g (record_in K L e paths updated s).1
  record_in-Tracks c g e paths updated s h t = elim (record_in_cases K L e paths updated s) [
    | inl none_yet ↦ rw none_yet t
    | inr (name, eq) ↦
        rw eq (record_pass-Tracks c g paths updated (record s { epoch = some name }) h t)
  ]

  -- Index passes, with no reset between them.
  unfoldable pub record_all :
      List (String × Option (List String) × List String) → ChangeLog K L → ChangeLog K L
  record_all [] s = s
  record_all ((e, paths, updated) ∷ ps) s = record_all ps (record_in K L e paths updated s).1

  pub record_all-Tracks :
      (c : String → Bool) (g : ℕ) (ps : List (String × Option (List String) × List String))
      (s : ChangeLog K L)
      → IsConsistent K L s
      → Tracks c g s
      → IsConsistent K L (record_all ps s) × Tracks c g (record_all ps s)
  unfolding record_all
  record_all-Tracks c g [] s h t = (h, t)
  record_all-Tracks c g ((e, paths, updated) ∷ ps) s h t =
      record_all-Tracks c g ps (record_in K L e paths updated s).1
        (record_in-IsConsistent K L e paths updated s h)
        (record_in-Tracks c g e paths updated s h t)

  -- A copy of the live paths tracks the log from where it was taken.
  pub copy-Tracks : (s : ChangeLog K L) → Tracks (live_in K L s) s.generation s
  unfolding live_in
  copy-Tracks s = (omega arith, λ p low. inr refl)
