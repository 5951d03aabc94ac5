-- ===== src/Pairing/Guesses.antt =====
-- How many wrong codes one code survives, from every address together.
use mbrc_plugin.Base.{
  ℕ, ◌+◌, ◌-◌, ◌≤◌, Bool, true, false, ◌≡◌, none, some, List, [], ◌∷◌, arith, leb, if◌then◌else◌,
  nat_eq, inl, inr, Bool-cases, Option-cases, ◌<◌,
}
use mbrc_plugin.Permissions.{Role}
use mbrc_plugin.Registry.{IpAddr, ip_eq}
use mbrc_plugin.Pairing.{
  Pairing, LiveCode, Taken, refused, wrong_code, live_code, take_code_at, wrong_try, new_code_for,
  max_wrong_per_code,
}

-- A code that is offered, with where from and when.
pub record Attempt : Type 0 where
  pub offered : List ℕ
  pub from : IpAddr
  pub now : ℕ

unfoldable pub attempt_all : List Attempt → Pairing → List Taken
attempt_all [] s = []
attempt_all (a ∷ tries) s =
    let (taken, s') = take_code_at a.offered a.from a.now s in taken ∷ attempt_all tries s'

abbrev pub is_wrong : Taken → Bool
is_wrong (refused wrong_code) = true
is_wrong _ = false

abbrev pub count_wrong : List Taken → ℕ
count_wrong [] = 0
count_wrong (t ∷ ts) = if is_wrong t then count_wrong ts + 1 else count_wrong ts

-- The wrong codes that the live code still survives, the one that kills it included.
abbrev budget : Pairing → ℕ
budget s = elim s.code [ none ↦ 0 | some live ↦ max_wrong_per_code - live.wrong ]

abbrev IsAlive : Pairing → Type 0
IsAlive s = elim s.code [ none ↦ Unit | some live ↦ live.wrong < max_wrong_per_code ]

wrong_try_lem :
    (live : LiveCode) (from : IpAddr) (now : ℕ) (s : Pairing)
    → s.code ≡ some live
    → live.wrong < max_wrong_per_code
    → (budget (wrong_try live from now s) + 1 ≤ budget s) × IsAlive (wrong_try live from now s)
unfolding wrong_try
wrong_try_lem live from now s e h = elim (Bool-cases (leb max_wrong_per_code (live.wrong + 1))) [
  | inl dies ↦ ground (arith, dies, e, h)
  | inr lives ↦ ground (arith, lives, e, h)
]

take_code_at_lem :
    (offered : List ℕ) (from : IpAddr) (now : ℕ) (s : Pairing)
    → IsAlive s
    → ((if is_wrong (take_code_at offered from now s).0
          then budget (take_code_at offered from now s).1 + 1
          else budget (take_code_at offered from now s).1)
        ≤ budget s)
      × IsAlive (take_code_at offered from now s).1
unfolding take_code_at live_code
take_code_at_lem offered from now s h = elim (Option-cases s.code) [
  | inl nothing ↦ ground (arith, h, nothing)
  | inr (live, found) ↦ ground (arith, h, found, wrong_try_lem live from now s found)
]

count_wrong_lem :
    (tries : List Attempt) (s : Pairing) → IsAlive s → count_wrong (attempt_all tries s) ≤ budget s
unfolding attempt_all
count_wrong_lem [] s h = omega arith
count_wrong_lem (a ∷ tries) s h =
    let once = take_code_at_lem a.offered a.from a.now s h in
    ground (arith, once.0, count_wrong_lem tries (take_code_at a.offered a.from a.now s).1 once.1)

-- After a new code is shown, and until the next, at most ten wrong codes are compared with it,
-- however many addresses offer them and whenever.
pub attempt_all-new_code_for :
    (digits : List ℕ) (role : Role) (now : ℕ) (s : Pairing) (tries : List Attempt)
    → count_wrong (attempt_all tries (new_code_for digits role now s)) ≤ 10
unfolding new_code_for
attempt_all-new_code_for digits role now s tries =
    count_wrong_lem tries (new_code_for digits role now s) (omega arith)
