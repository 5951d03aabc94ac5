-- ===== src/LibraryChanges/Record/Epoch.antt =====
-- An index pass stays in the epoch of the log.
use mbrc_plugin.Base.{
  ◌+◌, ℕ, String, Bool, true, false, ◌≡◌, refl, Option, some, List, [], ◌∷◌, ◌∙◌, Bool-cases, inl,
  inr, string_eq, ltb, ◌-◌,
}
use mbrc_plugin.Store.Ordered.{OrderedTables}
use mbrc_plugin.Base.Order.{pair_eq, pair_order, text_order}
use mbrc_plugin.LibraryChanges.{
  Filed, ChangeLog, changed_paths, record_pass, record_in, file_all, file_change, forget, trim,
  max_tombstones, oldest_tombstones,
}
use mbrc_plugin.LibraryChanges.Record.Library.{passed, filings}
use mbrc_plugin.LibraryChanges.Record.History.{record_pass_lem, edits_of}
use mbrc_plugin.LibraryChanges.Record.Tracking.{record_all}

module _ (K : OrderedTables String Filed) (L : OrderedTables (ℕ × String) Bool) where
  epoch-file_all :
      (n : ℕ) (l : Bool) (ps : List String) (s : ChangeLog K L)
      → (file_all K L n l ps s).epoch ≡ s.epoch
  unfolding file_all file_change
  epoch-file_all n l [] s = refl
  epoch-file_all n l (p ∷ ps) s = epoch-file_all n l ps (file_change K L n p l s)

  epoch-forget : (ks : List (ℕ × String)) (s : ChangeLog K L) → (forget K L ks s).epoch ≡ s.epoch
  unfolding forget
  epoch-forget [] s = refl
  epoch-forget ((g, p) ∷ ks) s =
      epoch-forget ks (record s { known = K.remove p s.known; log = L.remove (g, p) s.log })

  epoch-trim : (s : ChangeLog K L) → (trim K L s).epoch ≡ s.epoch
  unfolding trim
  epoch-trim s = elim (Bool-cases (ltb max_tombstones s.tombstones)) [
    | inl over ↦
        rw over (epoch-forget (oldest_tombstones (s.tombstones - max_tombstones) (L.rows s.log)) s)
    | inr under ↦ rw under
  ]

  epoch-passed :
      (added removed edited : List String) (s : ChangeLog K L)
      → (passed K L added removed edited s).epoch ≡ s.epoch
  epoch-passed added removed edited s =
      let n = s.generation + 1 in
      let s₁ = file_all K L n true added s in
      let s₂ = file_all K L n true edited s₁ in
      epoch-trim (filings K L n added removed edited s)
      ∙ epoch-file_all n false removed s₂
      ∙ epoch-file_all n true edited s₁
      ∙ epoch-file_all n true added s

  epoch-record_pass :
      (paths : Option (List String)) (updated : List String) (s : ChangeLog K L)
      → (record_pass K L paths updated s).1.epoch ≡ s.epoch
  epoch-record_pass paths updated s = elim (record_pass_lem K L paths updated s) [
    | inl (a, r, e) ↦ rw e
    | inr e ↦ rw e (
        epoch-passed (changed_paths K L paths s).0 (changed_paths K L paths s).1
          (edits_of K L paths updated s) s)
  ]

  epoch-record_in :
      (e name : String) (paths : Option (List String)) (updated : List String) (s : ChangeLog K L)
      → s.epoch ≡ some name
      → (record_in K L e paths updated s).1.epoch ≡ some name
  unfolding record_in
  epoch-record_in e name paths updated s h =
      rw h (epoch-record_pass paths updated (record s { epoch = some name }))

  pub epoch-record_all :
      (name : String) (ps : List (String × Option (List String) × List String)) (s : ChangeLog K L)
      → s.epoch ≡ some name
      → (record_all K L ps s).epoch ≡ some name
  unfolding record_all
  epoch-record_all name [] s h = h
  epoch-record_all name ((e, paths, updated) ∷ ps) s h =
      epoch-record_all name ps (record_in K L e paths updated s).1
        (epoch-record_in e name paths updated s h)
