-- ===== src/LibraryChanges/Record.antt =====
-- What filing and forgetting do to the two tables of the log, which stay two views of one map.
pub mod Trim
pub mod Library
pub mod History
pub mod Tracking
pub mod Epoch
use mbrc_plugin.Base.{
  ℕ, String, Bool, true, false, ◌≡◌, ◌↔◌, Option, none, some, List, [], ◌∷◌, ◌||◌, arith,
  if◌then◌else◌, ◌==◌, string_eq, nat_eq, ◌<◌, ◌≤◌, ◌+◌, refl,
}
use mbrc_plugin.Base.Sorting.{member}
use mbrc_plugin.Base.{All}
use mbrc_plugin.Store.Ordered.{OrderedTables}
use mbrc_plugin.Base.Order.{pair_eq, pair_order, text_order}
use mbrc_plugin.LibraryChanges.{
  Filed, ChangeLog, is_live, live_in, file_change, file_all, forget, without_old,
}

-- Whether a key of the list is one of the path `p`.
abbrev pub names : String → List (ℕ × String) → Bool
names p [] = false
names p ((g, q) ∷ ks) = (q == p) || names p ks

module _ (K : OrderedTables String Filed) (L : OrderedTables (ℕ × String) Bool) where
  -- The two tables hold the same filings.
  abbrev pub TablesAgree : ChangeLog K L → Type 0
  TablesAgree s =
      (p : String) (g : ℕ) (l : Bool)
      → (L.get (g, p) s.log ≡ some l) ↔ (K.get p s.known ≡ some (g, l))

  -- No filing is newer than `n`, and every tombstone is at the floor or above.
  abbrev pub WithinBounds : ℕ → ChangeLog K L → Type 0
  WithinBounds n s =
      (s.floor ≤ n)
      × ((p : String) (g : ℕ) (l : Bool) → K.get p s.known ≡ some (g, l) → g ≤ n)
      × ((p : String) (g : ℕ) → K.get p s.known ≡ some (g, false) → s.floor ≤ g)

  known-file_change :
      (n : ℕ) (p : String) (l : Bool) (s : ChangeLog K L) (q : String)
      → K.get q (file_change K L n p l s).known ≡ (if p == q then some (n, l) else K.get q s.known)
  unfolding file_change
  known-file_change n p l s q = K.get-insert q p (n, l) s.known

  log-without_old :
      (p : String) (was : Option Filed) (s : ChangeLog K L) (g : ℕ) (q : String)
      → L.get (g, q) (without_old K L p was s.log) ≡ elim was [
        | none ↦ L.get (g, q) s.log
        | some f ↦
            if f.0 == g then (if p == q then none else L.get (g, q) s.log) else L.get (g, q) s.log
      ]
  log-without_old p none s g q = refl
  log-without_old p (some (h, m)) s g q = ground (arith, L.get-remove (g, q) (h, p) s.log)

  log-file_change :
      (n : ℕ) (p : String) (l : Bool) (s : ChangeLog K L) (g : ℕ) (q : String)
      → L.get (g, q) (file_change K L n p l s).log ≡ (
          if n == g
          then (if p == q then some l else L.get (g, q) (without_old K L p (K.get p s.known) s.log))
          else L.get (g, q) (without_old K L p (K.get p s.known) s.log))
  unfolding file_change
  log-file_change n p l s g q =
      ground (arith, L.get-insert (g, q) (n, p) l (without_old K L p (K.get p s.known) s.log))

  file_change-TablesAgree :
      (n : ℕ) (p : String) (l : Bool) (s : ChangeLog K L)
      → TablesAgree s
      → TablesAgree (file_change K L n p l s)
  file_change-TablesAgree n p l s a q g m = ground (
    arith,
    known-file_change n p l s q,
    log-file_change n p l s g q,
    log-without_old p (K.get p s.known) s g q,
    a q g m,
    string_eq.same_iff p q,
  )

  pub file_all-TablesAgree :
      (n : ℕ) (l : Bool) (ps : List String) (s : ChangeLog K L)
      → TablesAgree s
      → TablesAgree (file_all K L n l ps s)
  unfolding file_all
  file_all-TablesAgree n l [] s a = a
  file_all-TablesAgree n l (p ∷ ps) s a =
      file_all-TablesAgree n l ps (file_change K L n p l s) (file_change-TablesAgree n p l s a)

  pub known-file_all :
      (n : ℕ) (l : Bool) (ps : List String) (s : ChangeLog K L) (q : String)
      → K.get q (file_all K L n l ps s).known
        ≡ (if member q ps then some (n, l) else K.get q s.known)
  unfolding file_all member
  known-file_all n l [] s q = refl
  known-file_all n l (p ∷ ps) s q =
      ground (arith, known-file_all n l ps (file_change K L n p l s) q, known-file_change n p l s q)

  -- A key whose path is filed nowhere else than as this tombstone.
  abbrev pub OnlyTombstone : ChangeLog K L → ℕ × String → Type 0
  OnlyTombstone s (g, p) =
      (h : ℕ) (l : Bool) → K.get p s.known ≡ some (h, l) → (h ≡ g) × (l ≡ false)

  abbrev drop_key : ℕ × String → ChangeLog K L → ChangeLog K L
  drop_key (g, p) s = record s { known = K.remove p s.known; log = L.remove (g, p) s.log }

  drop_key-TablesAgree :
      (k : ℕ × String) (s : ChangeLog K L)
      → OnlyTombstone s k
      → TablesAgree s
      → TablesAgree (drop_key k s)
  drop_key-TablesAgree (g, p) s o a q h l = ground (
    arith,
    K.get-remove q p s.known,
    L.get-remove (h, q) (g, p) s.log,
    a q h l,
    o h l,
    string_eq.same_iff p q,
  )

  drop_key-OnlyTombstone :
      (k : ℕ × String) (s : ChangeLog K L) (ks : List (ℕ × String))
      → All (OnlyTombstone s) ks
      → All (OnlyTombstone (drop_key k s)) ks
  drop_key-OnlyTombstone k s [] o = tt
  drop_key-OnlyTombstone (g, p) s ((h, q) ∷ ks) o = (
    λ i l e. ground (arith, K.get-remove q p s.known, o.0 i l),
    drop_key-OnlyTombstone (g, p) s ks o.1,
  )

  pub forget-TablesAgree :
      (ks : List (ℕ × String)) (s : ChangeLog K L)
      → All (OnlyTombstone s) ks
      → TablesAgree s
      → TablesAgree (forget K L ks s)
  unfolding forget
  forget-TablesAgree [] s o a = a
  forget-TablesAgree ((g, p) ∷ ks) s o a =
      forget-TablesAgree ks (drop_key (g, p) s) (drop_key-OnlyTombstone (g, p) s ks o.1)
        (drop_key-TablesAgree (g, p) s o.0 a)

  pub known-forget :
      (ks : List (ℕ × String)) (s : ChangeLog K L) (p : String)
      → K.get p (forget K L ks s).known ≡ (if names p ks then none else K.get p s.known)
  unfolding forget
  known-forget [] s p = refl
  known-forget ((g, q) ∷ ks) s p =
      ground (arith, known-forget ks (drop_key (g, q) s) p, K.get-remove p q s.known)

  pub floor-file_all :
      (n : ℕ) (l : Bool) (ps : List String) (s : ChangeLog K L)
      → (file_all K L n l ps s).floor ≡ s.floor
  unfolding file_all file_change
  floor-file_all n l [] s = refl
  floor-file_all n l (p ∷ ps) s = floor-file_all n l ps (file_change K L n p l s)

  pub file_all-WithinBounds :
      (n : ℕ) (l : Bool) (ps : List String) (s : ChangeLog K L)
      → WithinBounds n s
      → WithinBounds n (file_all K L n l ps s)
  file_all-WithinBounds n l ps s (low, high, dead) = (
    ground (arith, floor-file_all n l ps s),
    λ p g m e. ground (arith, known-file_all n l ps s p, high p g m),
    λ p g e. ground (arith, known-file_all n l ps s p, dead p g, floor-file_all n l ps s),
  )

  pub floor-forget :
      (ks : List (ℕ × String)) (s : ChangeLog K L) → (forget K L ks s).floor ≡ s.floor
  unfolding forget
  floor-forget [] s = refl
  floor-forget ((g, p) ∷ ks) s = floor-forget ks (drop_key (g, p) s)
