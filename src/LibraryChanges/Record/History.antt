-- ===== src/LibraryChanges/Record/History.antt =====
-- The log after any sequence of index passes and resets.
use mbrc_plugin.Base.{
  ap, ◌∙◌, ℕ, String, Bool, true, ◌&&◌, ◌≡◌, Option, none, some, List, [], ◌∷◌, arith, string_eq,
  ◌+◌, Bool-cases, Option-cases, inl, inr, ◌⊎◌,
}
use mbrc_plugin.Base.Sorting.{member, sort, dedup}
use mbrc_plugin.Store.Ordered.{OrderedTables}
use mbrc_plugin.Base.Order.{pair_eq, pair_order, text_order}
use mbrc_plugin.LibraryChanges.{
  Filed, ChangeLog, live_in, edited_among, changed_paths, record_pass, record_in, is_empty, reset,
  empty_log,
}
use mbrc_plugin.LibraryChanges.Diff.{diff_exact}
use mbrc_plugin.LibraryChanges.Record.Library.{
  IsConsistent, passed, passed-IsConsistent, live-passed_diff, live-passed_edits, is_empty-member,
}

-- What happens to a log: an index pass, with the epoch it would start, or a reset.
pub data LogStep : Type 0 where
  passing : (new_epoch : String) → Option (List String) → List String → LogStep
  resetting : LogStep

module _ (K : OrderedTables String Filed) (L : OrderedTables (ℕ × String) Bool) where
  unfoldable pub step : LogStep → ChangeLog K L → ChangeLog K L
  step (passing e paths updated) s = (record_in K L e paths updated s).1
  step resetting s = reset K L s

  unfoldable pub run : List LogStep → ChangeLog K L → ChangeLog K L
  run [] s = s
  run (c ∷ cs) s = run cs (step c s)

  abbrev pub edits_of : Option (List String) → List String → ChangeLog K L → List String
  edits_of paths updated s = dedup (sort (edited_among K L (changed_paths K L paths s).0 updated s))

  -- Either nothing moved, or the pass is filed as the next generation.
  pub record_pass_lem :
      (paths : Option (List String)) (updated : List String) (s : ChangeLog K L)
      → let changed = changed_paths K L paths s in
        let edited = edits_of paths updated s in
        ((is_empty changed.0 ≡ true)
          × (is_empty changed.1 ≡ true)
          × (record_pass K L paths updated s ≡ (none, s)))
        ⊎ (record_pass K L paths updated s
            ≡ (some (s.generation + 1), passed K L changed.0 changed.1 edited s))
  unfolding record_pass
  record_pass_lem paths updated s =
      let changed = changed_paths K L paths s in
      let edited = edits_of paths updated s in
      elim (Bool-cases (is_empty changed.0 && (is_empty changed.1 && is_empty edited))) [
        | inl quiet ↦ inl (ground arith, ground arith, rw quiet)
        | inr moved ↦ inr (rw moved)
      ]

  record_pass-IsConsistent :
      (paths : Option (List String)) (updated : List String) (s : ChangeLog K L)
      → IsConsistent K L s
      → IsConsistent K L (record_pass K L paths updated s).1
  record_pass-IsConsistent paths updated s c = elim (record_pass_lem paths updated s) [
    | inl (a, r, e) ↦ rw e c
    | inr e ↦ rw e (
        passed-IsConsistent K L (changed_paths K L paths s).0 (changed_paths K L paths s).1
          (edits_of paths updated s) s c)
  ]

  record_pass-listing :
      (ps updated : List String) (s : ChangeLog K L) (p : String)
      → IsConsistent K L s
      → live_in K L (record_pass K L (some ps) updated s).1 p ≡ member p ps
  unfolding live_in
  record_pass-listing ps updated s p c = elim (record_pass_lem (some ps) updated s) [
    | inl (a, r, e) ↦ rw e (
        ground (
          arith,
          is_empty-member p (changed_paths K L (some ps) s).0 a,
          is_empty-member p (changed_paths K L (some ps) s).1 r,
          diff_exact (K.rows s.known) ps p (K.rows_ascend s.known),
          K.get-rows p s.known,
        ))
    | inr e ↦ rw e (live-passed_diff K L ps updated s p c)
  ]

  record_pass-edits :
      (updated : List String) (s : ChangeLog K L) (p : String)
      → IsConsistent K L s
      → live_in K L (record_pass K L none updated s).1 p ≡ live_in K L s p
  record_pass-edits updated s p c = elim (record_pass_lem none updated s) [
    | inl (a, r, e) ↦ rw e
    | inr e ↦ rw e (live-passed_edits K L updated s p c)
  ]

  empty_log-IsConsistent : IsConsistent K L (empty_log K L)
  empty_log-IsConsistent = (
    λ p g l. ground (arith, K.get-new p, L.get-new (g, p)),
    (omega arith, λ p g l e. ground (arith, K.get-new p), λ p g e. ground (arith, K.get-new p)),
  )

  record_in_started :
      (e : String) (ps updated : List String) (s : ChangeLog K L) (old : String)
      → s.epoch ≡ some old
      → record_in K L e (some ps) updated s
        ≡ record_pass K L (some ps) updated (record s { epoch = some old })
  unfolding record_in
  record_in_started e ps updated s old h = rw h

  record_in_fresh :
      (e : String) (ps updated : List String) (s : ChangeLog K L)
      → s.epoch ≡ none
      → record_in K L e (some ps) updated s
        ≡ record_pass K L (some ps) updated (record s { epoch = some e })
  unfolding record_in
  record_in_fresh e ps updated s h = rw h

  -- A pass is recorded in the epoch of the log, or in a new one; or the log was never started.
  pub record_in_cases :
      (e : String) (paths : Option (List String)) (updated : List String) (s : ChangeLog K L)
      → (record_in K L e paths updated s ≡ (none, s))
        ⊎ ((name : String) × (record_in K L e paths updated s
              ≡ record_pass K L paths updated (record s { epoch = some name })))
  unfolding record_in
  record_in_cases e none updated s = elim (Option-cases s.epoch) [
    | inr (old, h) ↦ inr (old, rw h)
    | inl fresh ↦ inl (rw fresh)
  ]
  record_in_cases e (some ps) updated s = elim (Option-cases s.epoch) [
    | inr (old, h) ↦ inr (old, rw h)
    | inl fresh ↦ inr (e, rw fresh)
  ]

  pub record_in-IsConsistent :
      (e : String) (paths : Option (List String)) (updated : List String) (s : ChangeLog K L)
      → IsConsistent K L s
      → IsConsistent K L (record_in K L e paths updated s).1
  record_in-IsConsistent e paths updated s c = elim (record_in_cases e paths updated s) [
    | inl none_yet ↦ rw none_yet c
    | inr (name, h) ↦
        rw h (record_pass-IsConsistent paths updated (record s { epoch = some name }) c)
  ]

  step-IsConsistent :
      (c : LogStep) (s : ChangeLog K L) → IsConsistent K L s → IsConsistent K L (step c s)
  unfolding step reset
  step-IsConsistent (passing e paths updated) s c = record_in-IsConsistent e paths updated s c
  step-IsConsistent resetting s c = empty_log-IsConsistent

  pub run-IsConsistent :
      (cs : List LogStep) (s : ChangeLog K L) → IsConsistent K L s → IsConsistent K L (run cs s)
  unfolding run
  run-IsConsistent [] s h = h
  run-IsConsistent (c ∷ cs) s h = run-IsConsistent cs (step c s) (step-IsConsistent c s h)

  pub reached : (cs : List LogStep) → IsConsistent K L (run cs (empty_log K L))
  reached cs = run-IsConsistent cs (empty_log K L) empty_log-IsConsistent

  listing :
      (e : String) (ps updated : List String) (s : ChangeLog K L) (p : String)
      → IsConsistent K L s
      → live_in K L (record_in K L e (some ps) updated s).1 p ≡ member p ps
  listing e ps updated s p c =
      let pass =
        λ (name : String). record_pass-listing ps updated (record s { epoch = some name }) p c in
      elim (Option-cases s.epoch) [
        | inr (old, h) ↦
            ap (λ (r : Option ℕ × ChangeLog K L). live_in K L r.1 p)
              (record_in_started e ps updated s old h)
            ∙ pass old
        | inl fresh ↦
            ap (λ (r : Option ℕ × ChangeLog K L). live_in K L r.1 p)
              (record_in_fresh e ps updated s fresh)
            ∙ pass e
      ]

  -- Whatever passes and resets came before, and whatever deletes the bound on tombstones makes the
  -- log forget, after a pass that lists the library exactly the listed paths are filed as in it.
  pub record_in-listing :
      (cs : List LogStep) (e : String) (ps updated : List String) (p : String)
      → live_in K L (record_in K L e (some ps) updated (run cs (empty_log K L))).1 p ≡ member p ps
  record_in-listing cs e ps updated p = listing e ps updated (run cs (empty_log K L)) p (reached cs)

  edits :
      (e : String) (updated : List String) (s : ChangeLog K L) (p : String)
      → IsConsistent K L s
      → live_in K L (record_in K L e none updated s).1 p ≡ live_in K L s p
  unfolding live_in
  edits e updated s p c = elim (record_in_cases e none updated s) [
    | inl none_yet ↦ rw none_yet
    | inr (name, h) ↦ rw h (record_pass-edits updated (record s { epoch = some name }) p c)
  ]

  -- A pass that does not list the library, whatever it edits, neither adds to the library that the
  -- log holds nor removes from it.
  pub record_in-edits :
      (cs : List LogStep) (e : String) (updated : List String) (p : String)
      → live_in K L (record_in K L e none updated (run cs (empty_log K L))).1 p
        ≡ live_in K L (run cs (empty_log K L)) p
  record_in-edits cs e updated p = edits e updated (run cs (empty_log K L)) p (reached cs)
