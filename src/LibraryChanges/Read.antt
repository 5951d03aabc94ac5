-- ===== src/LibraryChanges/Read.antt =====
-- Pages of one read: each continues where the one before ended, and together they are the whole.
pub mod Pages
use mathlib.Core.Path.{subst}
use mbrc_plugin.Base.{
  ◌∙◌, sym, some_inj, ℕ, zero, suc, String, Bool, true, ◌&&◌, ◌≡◌, refl, Option, some, List, [],
  ◌∷◌, arith, if◌then◌else◌, string_eq, Bool-cases, inl, inr, leb, take, drop, last, All,
}
use mbrc_plugin.Base.Dict.{Dict}
use mbrc_plugin.Store.Ordered.{KeysAbove, HasAscendingKeys, range}
use mbrc_plugin.Base.Order.{pair_eq, pair_order, text_order, pair_less, pair_irrefl, pair_trans}
use mbrc_plugin.LibraryChanges.{
  Change, ReadFrom, start, since, resume, served, serves, since_of, above_lower, within,
}

abbrev pub key_of : Change → ℕ × String
key_of c = (c.generation, c.src)

-- The range of a read that goes on after `key`.
abbrev pub after : ℕ × String → ℕ → ℕ × String → Bool
after key until k = pair_less key k && leb k.0 until

up_closed :
    (from : ReadFrom) (k j : ℕ × String)
    → above_lower from k ≡ true
    → pair_less k j ≡ true
    → above_lower from j ≡ true
up_closed start k j h l = refl
up_closed (since c) (g, p) (i, q) h l = ground arith
up_closed (resume c) k j h l = pair_trans (c.generation, c.src) k j h l

-- Past a key in the range, only the upper bound counts.
range-after :
    (from : ReadFrom) (until : ℕ) (k : ℕ × String) (m : Dict (ℕ × String) Bool)
    → above_lower from k ≡ true
    → KeysAbove k m
    → range (after k until) m ≡ range (within from until) m
unfolding range
range-after from until k [] h a = refl
range-after from until k ((j, l) ∷ m) h a =
    ground (arith, range-after from until k m h a.1, up_closed from k j h a.0)

served_above :
    (o : Option ℕ) (w : ℕ × String → Bool) (k : ℕ × String) (m : Dict (ℕ × String) Bool)
    → KeysAbove k m
    → All (λ (c : Change). pair_less k (key_of c) ≡ true) (served o (range w m))
unfolding served range
served_above o w k [] a = tt
served_above o w k (((g, p), l) ∷ m) a = ground (arith, served_above o w k m a.1)

All-last_take :
    (P : Change → Type 0) (n : ℕ) (cs : List Change) (c : Change)
    → All P cs
    → last (take n cs) ≡ some c
    → P c
All-last_take P zero cs c a e = cc
All-last_take P (suc n) [] c a e = cc
All-last_take P (suc zero) (d ∷ cs) c a e = subst P (some_inj e) a.0
All-last_take P (suc (suc n)) (d ∷ []) c a e = subst P (some_inj e) a.0
All-last_take P (suc (suc n)) (d ∷ f ∷ cs) c a e = All-last_take P (suc n) (f ∷ cs) c a.1 e

abbrev pub change_of : ℕ × String → Bool → Change
change_of (g, p) l = record { generation = g; src = p; live = l }

pub served_cons :
    (o : Option ℕ) (w : ℕ × String → Bool) (k : ℕ × String) (l : Bool) (m : Dict (ℕ × String) Bool)
    → served o (range w ((k, l) ∷ m))
      ≡ (if w k && serves o l then change_of k l ∷ served o (range w m) else served o (range w m))
unfolding served range
served_cons o w k l m = ground arith

resumed_cons :
    (n : ℕ) (d c : Change) (cs left : List Change)
    → (d ≡ c → left ≡ cs)
    → ((i : ℕ) → last (take (suc i) cs) ≡ some c → left ≡ drop (suc i) cs)
    → last (take (suc n) (d ∷ cs)) ≡ some c
    → left ≡ drop (suc n) (d ∷ cs)
resumed_cons zero d c cs left h t e = h (some_inj e)
resumed_cons (suc n) d c [] left h t e = h (some_inj e)
resumed_cons (suc n) d c (f ∷ cs) left h t e = t n e

-- A row below `c` is not read again.
skip_row :
    (o : Option ℕ) (w : ℕ × String → Bool) (until i : ℕ) (k : ℕ × String) (l : Bool)
    (m : Dict (ℕ × String) Bool) (c : Change)
    → KeysAbove k m
    → last (take i (served o (range w m))) ≡ some c
    → served o (range (after (key_of c) until) ((k, l) ∷ m))
      ≡ served o (range (after (key_of c) until) m)
skip_row o w until i k l m c a h =
    let below : pair_less k (key_of c) ≡ true =
      All-last_take (λ (d : Change). pair_less k (key_of d) ≡ true) i (served o (range w m)) c
        (served_above o w k m a) h in
    ground (
      arith,
      served_cons o (after (key_of c) until) k l m,
      pair_trans k (key_of c) k below,
      pair_irrefl k,
    )

-- The row of `c` itself is not read again, and all that follow it are.
at_row :
    (from : ReadFrom) (until : ℕ) (k : ℕ × String) (l : Bool) (m : Dict (ℕ × String) Bool)
    → within from until k ≡ true
    → KeysAbove k m
    → served (since_of from) (range (after k until) ((k, l) ∷ m))
      ≡ served (since_of from) (range (within from until) m)
at_row from until k l m w a = ground (
  arith,
  served_cons (since_of from) (after k until) k l m,
  pair_irrefl k,
  range-after from until k m (ground arith) a,
)

resumed-nil :
    (o : Option ℕ) (w v : ℕ × String → Bool) (n : ℕ)
    → served o (range v []) ≡ drop (suc n) (served o (range w []))
unfolding served range
resumed-nil o w v n = refl

key_of-change_of : (k : ℕ × String) (l : Bool) → key_of (change_of k l) ≡ k
key_of-change_of k l = refl

-- Over ascending rows, what a read serves after the change `c` that ended its page is exactly what
-- the page left over.
pub resumed :
    (from : ReadFrom) (until n : ℕ) (m : Dict (ℕ × String) Bool) (c : Change)
    → HasAscendingKeys m
    → last (take (suc n) (served (since_of from) (range (within from until) m))) ≡ some c
    → served (since_of from) (range (after (key_of c) until) m)
      ≡ drop (suc n) (served (since_of from) (range (within from until) m))
resumed from until n [] c a e =
    resumed-nil (since_of from) (within from until) (after (key_of c) until) n
resumed from until n ((k, l) ∷ m) c a e =
    let o : Option ℕ = since_of from in
    let w : ℕ × String → Bool = within from until in
    let past : (i : ℕ)
        → last (take (suc i) (served o (range w m))) ≡ some c
        → served o (range (after (key_of c) until) ((k, l) ∷ m))
          ≡ drop (suc i) (served o (range w m)) =
      λ i h. skip_row o w until (suc i) k l m c a.0 h ∙ resumed from until i m c a.1 h in
    elim (Bool-cases (w k && serves o l)) [
      | inl here ↦
          rw (served_cons o w k l m, here)
            (resumed_cons n (change_of k l) c (served o (range w m))
              (served o (range (after (key_of c) until) ((k, l) ∷ m)))
              (λ same.
                rw (sym same, key_of-change_of k l) (at_row from until k l m (ground arith) a.0))
              past (rw (served_cons o w k l m, here) at e))
      | inr skipped ↦
          rw (served_cons o w k l m, skipped) (past n (rw (served_cons o w k l m, skipped) at e))
    ]
