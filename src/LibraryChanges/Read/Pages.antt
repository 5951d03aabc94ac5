-- ===== src/LibraryChanges/Read/Pages.antt =====
-- A client that follows `next` until there is none.
use mbrc_plugin.Base.{
  not, ◌||◌, ◌==◌, ap, ℕ, zero, suc, String, Bool, true, false, not, ◌||◌, ◌≡◌, refl, Option, none,
  some, List, [], ◌∷◌, ◌++◌, arith, ◌==◌, string_eq, ◌≤◌, ◌<◌, Bool-cases, inl, inr, ltb, take,
  drop, last, length, take-drop,
}
use mbrc_plugin.Base.Dict.{Dict}
use mbrc_plugin.Store.Ordered.{OrderedTables, range}
use mbrc_plugin.Base.Order.{pair_eq, pair_order, text_order}
use mbrc_plugin.LibraryChanges.{
  start, since, Cursor, total_of, Filed, ChangeLog, Change, Continuation, ChangePage, changes,
  resync, ReadFrom, start, since, resume, served, since_of, until_of, within, read, head,
  is_foreign, is_unanswerable,
}
use mbrc_plugin.LibraryChanges.Read.{resumed}

abbrev pub prepend : List Change → Option (List Change) → Option (List Change)
prepend cs none = none
prepend cs (some ds) = some (cs ++ ds)

abbrev pub follow : Option ChangePage → (Continuation → Option (List Change)) → Option (List Change)
follow none k = none
follow (some (resync h)) k = none
follow (some (changes h total cs none)) k = some cs
follow (some (changes h total cs (some c))) k = prepend cs (k c)

length-served :
    (o : Option ℕ) (w : ℕ × String → Bool) (m : Dict (ℕ × String) Bool)
    → length (served o (range w m)) ≤ length m
unfolding served range
length-served o w [] = omega arith
length-served o w ((k, l) ∷ m) = ground (arith, length-served o w m)

take_all : (n : ℕ) (cs : List Change) → length cs ≤ n → take n cs ≡ cs
take_all zero [] h = refl
take_all (suc n) [] h = refl
take_all zero (c ∷ cs) h = ground arith
take_all (suc n) (c ∷ cs) h = ground (arith, take_all n cs)

length-drop : (n : ℕ) (cs : List Change) → suc n < length cs → length (drop (suc n) cs) < length cs
length-drop zero [] h = ground arith
length-drop zero (c ∷ cs) h = ground arith
length-drop (suc n) [] h = ground arith
length-drop (suc n) (c ∷ cs) h = ground (arith, length-drop n cs)

last-take :
    (n : ℕ) (cs : List Change)
    → suc n < length cs
    → (c : Change) × (last (take (suc n) cs) ≡ some c)
last-take n [] h = ground arith
last-take zero (c ∷ cs) h = (c, refl)
last-take (suc n) (c ∷ []) h = (c, refl)
last-take (suc n) (c ∷ d ∷ cs) h = last-take n (d ∷ cs) (ground arith)

next_own :
    (from : ReadFrom) (e d : String) (g : ℕ)
    → is_foreign from e g ≡ false
    → (not (d == d) || ltb g (until_of from g)) ≡ false
next_own start e d g f = ground (arith, string_eq.same_iff d d)
next_own (since c) e d g f = ground (arith, string_eq.same_iff d d)
next_own (resume c) e d g f = ground (arith, string_eq.same_iff d d)

module _ (K : OrderedTables String Filed) (L : OrderedTables (ℕ × String) Bool) where
  unfoldable pub read_all :
      (fuel : ℕ) → ReadFrom → (limit : ℕ) → ChangeLog K L → Option (List Change)
  read_all zero from limit s = none
  read_all (suc n) from limit s =
      follow (read K L from limit s) (λ c. read_all n (resume c) limit s)

  -- All that the read serves, on however many pages.
  abbrev pub whole : ReadFrom → ChangeLog K L → List Change
  whole from s =
      served (since_of from) (range (within from (until_of from s.generation)) (L.rows s.log))

  abbrev pub IsAnswerable : ReadFrom → String → ChangeLog K L → Type 0
  IsAnswerable from e s =
      (s.epoch ≡ some e)
      × (is_foreign from e s.generation ≡ false)
      × (is_unanswerable (since_of from) s.floor s.generation ≡ false)

  abbrev end_of : ReadFrom → String → ChangeLog K L → Cursor
  end_of from e s = record { epoch = e; generation = until_of from s.generation }

  abbrev count_of : ReadFrom → ChangeLog K L → ℕ
  count_of from s =
      total_of from s.in_library
        (length (range (within from (until_of from s.generation)) (L.rows s.log)))

  abbrev page_of : ReadFrom → ℕ → String → ChangeLog K L → Option Continuation → ChangePage
  page_of from limit e s next =
      changes (end_of from e s) (count_of from s) (take limit (whole from s)) next

  abbrev next_of : ReadFrom → String → ChangeLog K L → Change → Continuation
  next_of from e s c = record {
    epoch = e;
    since = since_of from;
    until = until_of from s.generation;
    total = count_of from s;
    generation = c.generation;
    src = c.src;
  }

  read_fits :
      (from : ReadFrom) (limit : ℕ) (e : String) (s : ChangeLog K L)
      → IsAnswerable from e s
      → ltb limit (length (whole from s)) ≡ false
      → read K L from limit s ≡ some (page_of from limit e s none)
  unfolding read head
  read_fits from limit e s (ep, f, u) more = rw (ep, f, u, more)

  read_more :
      (from : ReadFrom) (limit : ℕ) (e : String) (s : ChangeLog K L) (c : Change)
      → IsAnswerable from e s
      → ltb limit (length (whole from s)) ≡ true
      → last (take limit (whole from s)) ≡ some c
      → read K L from limit s ≡ some (page_of from limit e s (some (next_of from e s c)))
  unfolding read head
  read_more from limit e s c (ep, f, u) more l = rw (ep, f, u, more, l)

  next-IsAnswerable :
      (from : ReadFrom) (e : String) (s : ChangeLog K L) (c : Change)
      → IsAnswerable from e s
      → IsAnswerable (resume (next_of from e s c)) e s
  next-IsAnswerable from e s c (ep, f, u) = (ep, next_own from e e s.generation f, u)

  -- Reading goes on until everything is read, with one page for each change at the most.
  pub read_all_lem :
      (n : ℕ) (from : ReadFrom) (limit : ℕ) (e : String) (s : ChangeLog K L)
      → IsAnswerable from e s
      → length (whole from s) < n
      → read_all n from (suc limit) s ≡ some (whole from s)
  unfolding read_all
  read_all_lem zero from limit e s a h = ground arith
  read_all_lem (suc n) from limit e s a h =
      elim (Bool-cases (ltb (suc limit) (length (whole from s)))) [
        | inl more ↦
            let (c, l) = last-take limit (whole from s) (ground arith) in
            let rest : whole (resume (next_of from e s c)) s ≡ drop (suc limit) (whole from s) =
              resumed from (until_of from s.generation) limit (L.rows s.log) c (L.rows_ascend s.log)
                l in
            let ih =
              read_all_lem n (resume (next_of from e s c)) limit e s
                (next-IsAnswerable from e s c a)
                (rw rest (ground (arith, length-drop limit (whole from s)))) in
            rw (
              read_more from (suc limit) e s c a more l,
              ih,
              rest,
              take-drop (suc limit) (whole from s),
            )
        | inr fits ↦ rw (read_fits from (suc limit) e s a fits) (
            ap (λ (cs : List Change). some cs) (take_all (suc limit) (whole from s) (ground arith)))
      ]

  abbrev pub enough : ChangeLog K L → ℕ
  enough s = suc (length (L.rows s.log))

  -- A client that follows `next` from a cursor that can be answered comes to an end, and has then
  -- read exactly what one unbounded page would serve, each change once and in order.
  pub read_all-enough :
      (from : ReadFrom) (limit : ℕ) (e : String) (s : ChangeLog K L)
      → IsAnswerable from e s
      → read_all (enough s) from (suc limit) s ≡ some (whole from s)
  read_all-enough from limit e s a = read_all_lem (enough s) from limit e s a (
      ground (
        arith,
        length-served (since_of from) (within from (until_of from s.generation)) (L.rows s.log),
      ))
