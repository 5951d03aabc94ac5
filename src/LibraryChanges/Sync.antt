-- ===== src/LibraryChanges/Sync.antt =====
-- A client that keeps a copy of the library and reads what changed since it was taken.
use mbrc_plugin.Base.{
  suc, ℕ, String, Bool, true, false, ◌&&◌, ◌≡◌, ◌↔◌, refl, Option, none, some, List, [], ◌∷◌, arith,
  ◌≤◌, if◌then◌else◌, ◌==◌, string_eq, Option-cases, inl, inr, ap, ◌∙◌,
}
use mbrc_plugin.Base.Dict
use mbrc_plugin.Base.Dict.{Dict}
use mbrc_plugin.Store.Ordered.{OrderedTables, range, HasAscendingKeys, KeysAbove-fresh}
use mbrc_plugin.Base.Order.{pair_eq, pair_order, text_order}
use mbrc_plugin.LibraryChanges.{
  empty_log, Filed, ChangeLog, Change, Cursor, start, since, served, serves, live_in, within,
}
use mbrc_plugin.LibraryChanges.Read.{served_cons, change_of}
use mbrc_plugin.LibraryChanges.Read.Pages.{whole, read_all, read_all-enough, enough}
use mbrc_plugin.LibraryChanges.Record.History.{LogStep, run, reached}
use mbrc_plugin.LibraryChanges.Record.{TablesAgree}
use mbrc_plugin.LibraryChanges.Record.Epoch.{epoch-record_all}
use mbrc_plugin.LibraryChanges.Record.Library.{IsConsistent}
use mbrc_plugin.LibraryChanges.Record.Tracking.{Tracks, record_all, record_all-Tracks, copy-Tracks}

-- What a client's copy of the library holds after the changes, in order.
abbrev pub follow_changes : List Change → (String → Bool) → String → Bool
follow_changes [] copy = copy
follow_changes (c ∷ cs) copy =
    follow_changes cs (λ path. if c.src == path then c.live else copy path)

abbrev after_row : Bool → Option Bool → Bool → Bool
after_row w none was = was
after_row w (some l) was = if w then l else was

-- A path with at most one row, whose key is `(g, p)`.
abbrev OnlyAt : ℕ → String → Dict (ℕ × String) Bool → Type 0
OnlyAt g p m = (h : ℕ) (l : Bool) → Dict.get (h, p) m ≡ some l → h ≡ g

OnlyAt-tail :
    (g : ℕ) (p : String) (k : ℕ × String) (v : Bool) (m : Dict (ℕ × String) Bool)
    → OnlyAt g p ((k, v) ∷ m)
    → OnlyAt g p m
unfolding Dict.get
OnlyAt-tail g p (i, q) v m o h l e = ground (arith, o h l, o h v)

follow_if :
    (c : Bool) (d : Change) (cs : List Change) (copy : String → Bool) (p : String)
    → follow_changes (if c then d ∷ cs else cs) copy p ≡ (
        if c
        then follow_changes cs (λ path. if d.src == path then d.live else copy path) p
        else follow_changes cs copy p)
follow_if true d cs copy p = refl
follow_if false d cs copy p = refl

follow_cons :
    (from : Option ℕ) (w : ℕ × String → Bool) (h : ℕ) (q : String) (l : Bool)
    (m : Dict (ℕ × String) Bool) (copy : String → Bool) (p : String)
    → follow_changes (served from (range w (((h, q), l) ∷ m))) copy p ≡ (
        if w (h, q) && serves from l
        then follow_changes (served from (range w m)) (λ path. if q == path then l else copy path) p
        else follow_changes (served from (range w m)) copy p)
follow_cons from w h q l m copy p =
    ap (λ (cs : List Change). follow_changes cs copy p) (served_cons from w (h, q) l m)
    ∙ follow_if (w (h, q) && serves from l) (change_of (h, q) l) (served from (range w m)) copy p

follow-served :
    (from : Option ℕ) (w : ℕ × String → Bool) (g : ℕ) (p : String) (m : Dict (ℕ × String) Bool)
    (copy : String → Bool)
    → HasAscendingKeys m
    → OnlyAt g p m
    → follow_changes (served from (range w m)) copy p ≡ (elim (Dict.get (g, p) m) [
      | none ↦ copy p
      | some l ↦ if w (g, p) && serves from l then l else copy p
    ])
unfolding Dict.get
follow-served from w g p [] copy a o = unfold served range in refl
follow-served from w g p (((h, q), l) ∷ m) copy a o =
    let ih =
      λ (c : String → Bool). follow-served from w g p m c a.1 (OnlyAt-tail g p (h, q) l m o) in
    ground (
      arith,
      follow_cons from w h q l m copy p,
      ih copy,
      ih (λ path. if q == path then l else copy path),
      o h l,
      KeysAbove-fresh (h, q) true m a.0,
      KeysAbove-fresh (h, q) false m a.0,
      string_eq.same_iff q p,
    )

module _ (K : OrderedTables String Filed) (L : OrderedTables (ℕ × String) Bool) where
  abbrev after_filing : (ℕ → Bool → Bool) → Option Filed → Bool → Bool
  after_filing w none was = was
  after_filing w (some (g, l)) was = if w g l then l else was

  filed_rows :
      (s : ChangeLog K L) (g : ℕ) (p : String) (l : Bool)
      → TablesAgree K L s
      → (Dict.get (g, p) (L.rows s.log) ≡ some l) ↔ (K.get p s.known ≡ some (g, l))
  filed_rows s g p l a = rw L.get-rows (a p g l)

  unfiled_row :
      (s : ChangeLog K L) (g : ℕ) (p : String)
      → TablesAgree K L s
      → K.get p s.known ≡ none
      → Dict.get (g, p) (L.rows s.log) ≡ none
  unfiled_row s g p a e = elim (Option-cases (Dict.get (g, p) (L.rows s.log))) [
    | inl nothing ↦ nothing
    | inr (l, f) ↦ ground (arith, (filed_rows s g p l a).0 f)
  ]

  follow-range :
      (from : Option ℕ) (w : ℕ × String → Bool) (s : ChangeLog K L) (copy : String → Bool)
      (p : String)
      → TablesAgree K L s
      → follow_changes (served from (range w (L.rows s.log))) copy p
        ≡ after_filing (λ g l. w (g, p) && serves from l) (K.get p s.known) (copy p)
  follow-range from w s copy p a =
      let rows = L.rows s.log in
      elim (Option-cases (K.get p s.known)) [
        | inl nothing ↦ rw nothing (
            ground (
              arith,
              follow-served from w 0 p rows copy (L.rows_ascend s.log)
                  (λ h l e. ground (arith, (filed_rows s h p l a).0 e)),
              unfiled_row s 0 p a nothing,
            ))
        | inr ((g, l), e) ↦ rw e (
            ground (
              arith,
              follow-served from w g p rows copy (L.rows_ascend s.log)
                  (λ h m f. ground (arith, (filed_rows s h p m a).0 f)),
              (filed_rows s g p l a).1 e,
            ))
      ]

  -- From the start: the library, built from nothing.
  follow-start :
      (s : ChangeLog K L) (p : String)
      → IsConsistent K L s
      → follow_changes (whole K L start s) (λ path. false) p ≡ live_in K L s p
  unfolding live_in
  follow-start s p (a, b) = elim (Option-cases (K.get p s.known)) [
    | inl nothing ↦
        rw nothing
          (ground (arith, follow-range none (within start s.generation) s (λ path. false) p a))
    | inr ((g, l), e) ↦ rw e (
        ground
          (arith, follow-range none (within start s.generation) s (λ path. false) p a, b.1 p g l e))
  ]

  follow-since :
      (c : Cursor) (copy : String → Bool) (s : ChangeLog K L) (p : String)
      → IsConsistent K L s
      → s.floor ≤ c.generation
      → Tracks K L copy c.generation s
      → follow_changes (whole K L (since c) s) copy p ≡ live_in K L s p
  unfolding live_in
  follow-since c copy s p (a, b) low t = elim (Option-cases (K.get p s.known)) [
    | inl nothing ↦ rw nothing (
        ground (
          arith,
          follow-range (some c.generation) (within (since c) s.generation) s copy p a,
          t.1 p low,
        ))
    | inr ((g, l), e) ↦ rw e (
        ground (
          arith,
          follow-range (some c.generation) (within (since c) s.generation) s copy p a,
          b.1 p g l e,
          t.1 p low,
        ))
  ]

  -- A client that reads from the start, on pages of any size, comes to an end and holds exactly
  -- the library that the log holds.
  pub read_all-start :
      (cs : List LogStep) (e : String) (limit : ℕ)
      → (run K L cs (empty_log K L)).epoch ≡ some e
      → let s = run K L cs (empty_log K L) in
        (changes : List Change) × (read_all K L (enough K L s) start (suc limit) s ≡ some changes)
        × ((p : String) → follow_changes changes (λ path. false) p ≡ live_in K L s p)
  read_all-start cs e limit h =
      let s = run K L cs (empty_log K L) in
      (
        whole K L start s,
        read_all-enough K L start limit e s (h, refl, refl),
        λ p. follow-start s p (reached K L cs),
      )

  -- A client whose copy of the library was right at some point of the log's history reads what
  -- changed since, on pages of any size, after any index passes that followed with no reset. Unless
  -- a delete that it has not seen may have been forgotten (the floor has passed its cursor), it
  -- comes to an end and its copy is then again exactly the library that the log holds.
  pub read_all-since :
      (cs : List LogStep) (passes : List (String × Option (List String) × List String)) (e : String)
      (limit : ℕ)
      → (run K L cs (empty_log K L)).epoch ≡ some e
      → (record_all K L passes (run K L cs (empty_log K L))).floor
        ≤ (run K L cs (empty_log K L)).generation
      → let taken = run K L cs (empty_log K L) in
        let s = record_all K L passes taken in
        let cursor : Cursor = record { epoch = e; generation = taken.generation } in
        (changes : List Change) × (read_all K L (enough K L s) (since cursor) (suc limit) s
          ≡ some changes)
        × ((p : String) → follow_changes changes (live_in K L taken) p ≡ live_in K L s p)
  read_all-since cs passes e limit h low =
      let taken = run K L cs (empty_log K L) in
      let s = record_all K L passes taken in
      let cursor : Cursor = record { epoch = e; generation = taken.generation } in
      let (consistent, tracks) =
        record_all-Tracks K L (live_in K L taken) taken.generation passes taken (reached K L cs)
          (copy-Tracks K L taken) in
      (
        whole K L (since cursor) s,
        read_all-enough K L (since cursor) limit e s (
          epoch-record_all K L e passes taken h,
          ground (arith, string_eq.same_iff e e),
          ground (arith, tracks.0, low),
        ),
        λ p. follow-since cursor (live_in K L taken) s p consistent low tracks,
      )
