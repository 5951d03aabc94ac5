-- ===== src/Pairing/Codes.antt =====
-- The comparison of codes, and the one use of each.
use mbrc_plugin.Base.{
  ◌<◌, ℕ, ◌-◌, true, ◌≡◌, ◌≢◌, ◌↔◌, refl, none, some, List, [], ◌∷◌, arith, length, ltb, ◌==◌,
  nat_eq, inl, inr, Bool-cases, Option-cases,
}
use Prim.Native.Nat.{bit_or, bit_xor}
use mbrc_plugin.Base.Bits.{bit_xor-zero, bit_xor_self, bit_or-zero, bit_or-zero_zero}
use mbrc_plugin.Permissions.{Role}
use mbrc_plugin.Registry.{IpAddr, ip_eq}
use mbrc_plugin.Pairing.{
  Pairing, LiveCode, granted, code_ttl, live_code, fold_differences, constant_time_eq, blocked_for,
  take_code_at,
}

fold_equal : (xs : List ℕ) → fold_differences 0 xs xs ≡ 0
unfolding fold_differences
fold_equal [] = refl
fold_equal (x ∷ xs) = rw (bit_xor_self x, bit_or-zero_zero) (fold_equal xs)

fold_zero :
    (acc : ℕ) (xs ys : List ℕ)
    → length xs ≡ length ys
    → fold_differences acc xs ys ≡ 0
    → (acc ≡ 0) × (xs ≡ ys)
unfolding fold_differences
fold_zero acc [] [] h e = (e, refl)
fold_zero acc [] (y ∷ ys) h e = ground (arith, h)
fold_zero acc (x ∷ xs) [] h e = ground (arith, h)
fold_zero acc (x ∷ xs) (y ∷ ys) h e =
    let rest = fold_zero (bit_or acc (bit_xor x y)) xs ys (ground (arith, h)) e in
    let parts = bit_or-zero acc (bit_xor x y) rest.0 in
    (parts.0, rw (bit_xor-zero x y parts.1, rest.1) refl)

-- The comparison that looks at every byte accepts exactly the code itself.
pub constant_time_eq_iff : (a b : List ℕ) → (constant_time_eq a b ≡ true) ↔ (a ≡ b)
unfolding constant_time_eq
constant_time_eq_iff a b = (
  λ e. elim (Bool-cases (length a == length b)) [
    | inl same ↦ (fold_zero 0 a b ((nat_eq.same_iff _ _).0 same) (ground (arith, e, same))).1
    | inr differ ↦ ground (arith, e, differ)
  ],
  λ e. rw e (ground (arith, fold_equal b)),
)

live_code_lem :
    (now : ℕ) (s : Pairing) (live : LiveCode)
    → live_code now s ≡ some live
    → (s.code ≡ some live) × (ltb (now - live.issued) code_ttl ≡ true)
unfolding live_code
live_code_lem now s live e = ground arith

granted_lem :
    (offered : List ℕ) (from : IpAddr) (now : ℕ) (s : Pairing) (r : Role)
    → (take_code_at offered from now s).0 ≡ granted r
    → (blocked_for from now s ≡ none)
      × (live : LiveCode) × (live_code now s ≡ some live)
      × (constant_time_eq live.code offered ≡ true)
      × (live.role ≡ r)
      × ((take_code_at offered from now s).1.code ≡ none)
unfolding take_code_at
granted_lem offered from now s r e = elim (Option-cases (live_code now s)) [
  | inl nothing ↦ ground (arith, e, nothing)
  | inr (live, found) ↦ (
    ground (arith, e),
    live,
    found,
    ground (arith, e, found),
    ground (arith, e, found),
    ground (arith, e, found),
  )
]

-- A code is granted only from an address that need not wait, only if it is the live code itself
-- inside its window, and with that code's role; whatever is offered next, by anyone at any time,
-- is not granted until there is a new code.
pub take_code_at-granted :
    (offered : List ℕ) (from : IpAddr) (now : ℕ) (s : Pairing) (r : Role)
    → (take_code_at offered from now s).0 ≡ granted r
    → (blocked_for from now s ≡ none)
      × ((live : LiveCode) × (s.code ≡ some live)
          × (live.code ≡ offered)
          × (live.role ≡ r)
          × (now - live.issued < code_ttl))
      × ((offered' : List ℕ) (from' : IpAddr) (now' : ℕ) (r' : Role)
          → (take_code_at offered' from' now' (take_code_at offered from now s).1).0 ≢ granted r')
take_code_at-granted offered from now s r e =
    let (free, live, found, same, role, gone) = granted_lem offered from now s r e in
    let (held, fresh) = live_code_lem now s live found in
    (
      free,
      (live, held, (constant_time_eq_iff live.code offered).0 same, role, ground (arith, fresh)),
      λ offered' from' now' r' again.
          let next = granted_lem offered' from' now' (take_code_at offered from now s).1 r' again in
          let (held', fresh') =
            live_code_lem now' (take_code_at offered from now s).1 next.1 next.2 in
          ground (arith, gone, held'),
    )
