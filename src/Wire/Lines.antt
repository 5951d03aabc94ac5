-- ===== src/Wire/Lines.antt =====
-- What the frames of a byte string are, byte by byte, and how they compose.
use mbrc_plugin.Base.{
  ℕ, zero, suc, ◌+◌, Bool, false, ◌≡◌, refl, Option, none, some, List, [], ◌∷◌, ◌++◌, arith, take,
  drop, if◌then◌else◌, ◌==◌, nat_eq, inl, inr, Bool-cases, Option-cases,
}
use mbrc_plugin.Wire.{newline, position}

-- The whole lines and the part after the last newline.
abbrev pub cons_line : ℕ → List (List ℕ) × List ℕ → List (List ℕ) × List ℕ
cons_line b ([], rest) = ([], b ∷ rest)
cons_line b (l ∷ ls, rest) = ((b ∷ l) ∷ ls, rest)

abbrev end_line : List (List ℕ) × List ℕ → List (List ℕ) × List ℕ
end_line (ls, rest) = ([] ∷ ls, rest)

unfoldable pub lines : List ℕ → List (List ℕ) × List ℕ
lines [] = ([], [])
lines (b ∷ bs) = let below = lines bs in if b == newline then end_line below else cons_line b below

abbrev pub then_lines : List (List ℕ) → List (List ℕ) × List ℕ → List (List ℕ) × List ℕ
then_lines ls (ms, rest) = (ls ++ ms, rest)

cons_then :
    (b : ℕ) (ls : List (List ℕ)) (rest bs : List ℕ)
    → (b == newline) ≡ false
    → cons_line b (then_lines ls (lines (rest ++ bs)))
      ≡ then_lines (cons_line b (ls, rest)).0 (lines ((cons_line b (ls, rest)).1 ++ bs))
unfolding lines
cons_then b [] rest bs n = rw n refl
cons_then b (l ∷ ls) rest bs n = refl

-- The lines of two parts are those of the first, then those of what it left over with the second.
pub lines-append :
    (cs bs : List ℕ) → lines (cs ++ bs) ≡ then_lines (lines cs).0 (lines ((lines cs).1 ++ bs))
unfolding lines
lines-append [] bs = refl
lines-append (c ∷ cs) bs = elim (Bool-cases (c == newline)) [
  | inl ends ↦ rw (ends, lines-append cs bs) refl
  | inr goes ↦ rw (goes, lines-append cs bs) (cons_then c (lines cs).0 (lines cs).1 bs goes)
]

found_after :
    (c : Bool) (o : Option ℕ) (j : ℕ)
    → c ≡ false
    → (if c then some 0 else elim o [ none ↦ none | some i ↦ some (i + 1) ]) ≡ some (suc j)
    → o ≡ some j
found_after c none j n e = ground (arith, n, e)
found_after c (some i) j n e = ground (arith, n, e)

suc_add : (j : ℕ) → suc j + 1 ≡ suc (j + 1)
suc_add j = omega arith

pub lines-position :
    (bs : List ℕ) (i : ℕ)
    → position bs ≡ some i
    → lines bs ≡ (take i bs ∷ (lines (drop (i + 1) bs)).0, (lines (drop (i + 1) bs)).1)
unfolding lines position
lines-position [] i e = cc
lines-position (b ∷ bs) zero e = elim (Bool-cases (b == newline)) [
  | inl ends ↦ rw ends refl
  | inr goes ↦ elim (Option-cases (position bs)) [
    | inl nothing ↦ ground (arith, e, goes, nothing)
    | inr (j, found) ↦ ground (arith, e, goes, found)
  ]
]
lines-position (b ∷ bs) (suc j) e = elim (Bool-cases (b == newline)) [
  | inl ends ↦ ground (arith, e, ends)
  | inr goes ↦
      let found : position bs ≡ some j = found_after (b == newline) (position bs) j goes e in
      rw (goes, lines-position bs j found, suc_add j)
]

pub lines-none : (bs : List ℕ) → position bs ≡ none → lines bs ≡ ([], bs)
unfolding lines position
lines-none [] e = refl
lines-none (b ∷ bs) e = ground (arith, lines-none bs)

rest_cons :
    (b : ℕ) (below : List (List ℕ) × List ℕ)
    → (b == newline) ≡ false
    → position below.1 ≡ none
    → position (cons_line b below).1 ≡ none
unfolding position
rest_cons b ([], rest) n e = ground (arith, n, e)
rest_cons b (l ∷ ls, rest) n e = e

pub position-rest : (bs : List ℕ) → position (lines bs).1 ≡ none
unfolding lines position
position-rest [] = refl
position-rest (b ∷ bs) = elim (Bool-cases (b == newline)) [
  | inl ends ↦ rw ends (position-rest bs)
  | inr goes ↦ rw goes (rest_cons b (lines bs) goes (position-rest bs))
]
