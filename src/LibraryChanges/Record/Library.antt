-- ===== src/LibraryChanges/Record/Library.antt =====
-- One index pass: the log then holds the library as the pass listed it.
use mbrc_plugin.Base.{
  ℕ, String, Bool, true, false, not, ◌&&◌, ◌||◌, ◌≡◌, refl, some, List, [], ◌∷◌, arith,
  if◌then◌else◌, string_eq, ◌≤◌, ◌+◌,
}
use mbrc_plugin.Base.Sorting.{member, sort, dedup, member-sort, member-dedup}
use mbrc_plugin.Store.Ordered.{OrderedTables}
use mbrc_plugin.Base.Order.{pair_eq, pair_order, text_order}
use mbrc_plugin.LibraryChanges.{
  Filed, ChangeLog, trim, live_in, edited_among, changed_paths, file_all, is_empty,
}
use mbrc_plugin.LibraryChanges.Diff.{diff_exact}
use mbrc_plugin.LibraryChanges.Record.{
  TablesAgree, WithinBounds, file_all-TablesAgree, file_all-WithinBounds, known-file_all,
  floor-file_all,
}
use mbrc_plugin.LibraryChanges.Record.Trim.{ForgetsOnly, trim_lem}

pub is_empty-member : (p : String) (ps : List String) → is_empty ps ≡ true → member p ps ≡ false
unfolding member
is_empty-member p [] h = refl
is_empty-member p (q ∷ ps) h = cc

module _ (K : OrderedTables String Filed) (L : OrderedTables (ℕ × String) Bool) where
  abbrev pub IsConsistent : ChangeLog K L → Type 0
  IsConsistent s = TablesAgree K L s × WithinBounds K L s.generation s

  pub member-edited_among :
      (added ps : List String) (s : ChangeLog K L) (p : String)
      → member p (edited_among K L added ps s)
        ≡ (member p ps && (live_in K L s p && not (member p added)))
  unfolding edited_among member
  member-edited_among added [] s p = refl
  member-edited_among added (q ∷ ps) s p =
      ground (arith, member-edited_among added ps s p, string_eq.same_iff q p)

  -- The paths of one pass that are filed, before the bound on tombstones is applied.
  abbrev pub filings : ℕ → List String → List String → List String → ChangeLog K L → ChangeLog K L
  filings n added removed edited s =
      file_all K L n false removed (file_all K L n true edited (file_all K L n true added s))

  pub known-filings :
      (n : ℕ) (added removed edited : List String) (s : ChangeLog K L) (p : String)
      → K.get p (filings n added removed edited s).known ≡ (
          if member p removed
          then some (n, false)
          else if member p edited
          then some (n, true)
          else if member p added
          then some (n, true)
          else K.get p s.known)
  known-filings n added removed edited s p = ground (
    arith,
    known-file_all K L n false removed (file_all K L n true edited (file_all K L n true added s)) p,
    known-file_all K L n true edited (file_all K L n true added s) p,
    known-file_all K L n true added s p,
  )

  above :
      (s : ChangeLog K L) → WithinBounds K L s.generation s → WithinBounds K L (s.generation + 1) s
  above s b = (ground (arith, b.0), λ p g l e. ground (arith, b.1 p g l e), b.2)

  filings_lem :
      (added removed edited : List String) (s : ChangeLog K L)
      → IsConsistent s
      → TablesAgree K L (filings (s.generation + 1) added removed edited s)
        × WithinBounds K L (s.generation + 1) (filings (s.generation + 1) added removed edited s)
  filings_lem added removed edited s (a, b) =
      let n = s.generation + 1 in
      let s₁ = file_all K L n true added s in
      let s₂ = file_all K L n true edited s₁ in
      (
        file_all-TablesAgree K L n false removed s₂
            (file_all-TablesAgree K L n true edited s₁ (file_all-TablesAgree K L n true added s a)),
        file_all-WithinBounds K L n false removed s₂ (
            file_all-WithinBounds K L n true edited s₁
              (file_all-WithinBounds K L n true added s (above s b))),
      )

  -- The filed pass after the bound on tombstones.
  abbrev pub passed : List String → List String → List String → ChangeLog K L → ChangeLog K L
  passed added removed edited s =
      record (trim K L (filings (s.generation + 1) added removed edited s)) {
        generation = s.generation + 1;
      }

  pub passed-IsConsistent :
      (added removed edited : List String) (s : ChangeLog K L)
      → IsConsistent s
      → IsConsistent (passed added removed edited s)
  passed-IsConsistent added removed edited s c =
      let n = s.generation + 1 in
      let (a, b) = filings_lem added removed edited s c in
      let trimmed = trim_lem K L n (filings n added removed edited s) a b in (trimmed.0, trimmed.1)

  pub passed-ForgetsOnly :
      (added removed edited : List String) (s : ChangeLog K L)
      → IsConsistent s
      → (s.floor ≤ (passed added removed edited s).floor)
        × ((p : String)
            → ForgetsOnly K L
                (filings (s.generation + 1) added removed edited s)
                (passed added removed edited s)
                p)
  passed-ForgetsOnly added removed edited s c =
      let n = s.generation + 1 in
      let (a, b) = filings_lem added removed edited s c in
      let trimmed = trim_lem K L n (filings n added removed edited s) a b in
      (
        ground (
          arith,
          trimmed.2,
          floor-file_all K L n false removed
              (file_all K L n true edited (file_all K L n true added s)),
          floor-file_all K L n true edited (file_all K L n true added s),
          floor-file_all K L n true added s,
        ),
        trimmed.3,
      )

  live-passed :
      (added removed edited : List String) (s : ChangeLog K L) (p : String)
      → IsConsistent s
      → live_in K L (passed added removed edited s) p
        ≡ (not (member p removed) && (member p edited || (member p added || live_in K L s p)))
  unfolding live_in
  live-passed added removed edited s p c = ground (
    arith,
    (passed-ForgetsOnly added removed edited s c).1 p,
    known-filings (s.generation + 1) added removed edited s p,
  )

  pub live-passed_diff :
      (ps updated : List String) (s : ChangeLog K L) (p : String)
      → IsConsistent s
      → let changed = changed_paths K L (some ps) s in
        let edited = dedup (sort (edited_among K L changed.0 updated s)) in
        live_in K L (passed changed.0 changed.1 edited s) p ≡ member p ps
  unfolding live_in
  live-passed_diff ps updated s p c =
      let changed = changed_paths K L (some ps) s in
      let among = edited_among K L changed.0 updated s in
      ground (
        arith,
        live-passed changed.0 changed.1 (dedup (sort among)) s p c,
        member-dedup p (sort among),
        member-sort p among,
        member-edited_among changed.0 updated s p,
        diff_exact (K.rows s.known) ps p (K.rows_ascend s.known),
        K.get-rows p s.known,
      )

  pub live-passed_edits :
      (updated : List String) (s : ChangeLog K L) (p : String)
      → IsConsistent s
      → live_in K L (passed [] [] (dedup (sort (edited_among K L [] updated s))) s) p
        ≡ live_in K L s p
  unfolding member
  live-passed_edits updated s p c =
      let among = edited_among K L [] updated s in
      ground (
        arith,
        live-passed [] [] (dedup (sort among)) s p c,
        member-dedup p (sort among),
        member-sort p among,
        member-edited_among [] updated s p,
      )
