-- ===== src/Pairing.antt =====
-- Pairing codes and the wrong codes held against an address (packages/mbrc-core/src/web/auth.rs).
-- An `Instant` or a `Duration` is a number of milliseconds, and the clock is an argument, as it is
-- of `take_code_at`; the digits of a new code are an argument too, since they are random. A code is
-- the bytes of its text. The counts of wrong codes do not reach 2^32, since an address waits 5 s or
-- more for each.
pub mod Codes
pub mod Guesses
pub mod Waits
pub mod Label
pub mod Browsers
mod Tests
use mbrc_plugin.Base.{
  ℕ, ◌+◌, ◌-◌, ◌*◌, ◌^◌, min, Bool, true, false, not, ◌&&◌, Option, none, some, List, [], ◌∷◌, ltb,
  leb, length, if◌then◌else◌, ◌==◌, nat_eq, unwrap_or,
}
use Prim.Native.Nat.{bit_or, bit_xor}
use mbrc_plugin.Base.Dict
use mbrc_plugin.Base.Dict.{Dict}
use mbrc_plugin.Permissions.{Role, host}
use mbrc_plugin.Registry.{IpAddr, ip_eq}

abbrev pub code_ttl : ℕ
code_ttl = 120_000

abbrev pub free_wrong_codes : ℕ
free_wrong_codes = 3

abbrev pub first_backoff : ℕ
first_backoff = 5_000

abbrev pub max_backoff : ℕ
max_backoff = 300_000

abbrev pub max_wrong_per_code : ℕ
max_wrong_per_code = 10

abbrev pub max_tracked_addresses : ℕ
max_tracked_addresses = 1024

pub data PairingRefused : Type 0 where
  no_code : PairingRefused
  wrong_code : PairingRefused
  backoff : (wait : ℕ) → PairingRefused

-- `Result<Role, PairingRefused>`
pub data Taken : Type 0 where
  granted : Role → Taken
  refused : PairingRefused → Taken

pub record Strikes : Type 0 where
  pub wrong : ℕ
  pub blocked_until : Option ℕ

pub record LiveCode : Type 0 where
  pub code : List ℕ
  pub issued : ℕ
  pub role : Role
  pub wrong : ℕ

pub record Pairing : Type 0 where
  pub code : Option LiveCode
  pub voided : Bool
  pub strikes : Dict IpAddr Strikes

abbrev pub new_pairing : Pairing
new_pairing = record { code = none; voided = false; strikes = [] }

unfoldable pub new_code_for : (random_digits : List ℕ) → Role → (now : ℕ) → Pairing → Pairing
new_code_for digits role now s = record s {
  code = some (record { code = digits; issued = now; role = role; wrong = 0 });
  voided = false;
}

unfoldable pub new_code : (random_digits : List ℕ) → (now : ℕ) → Pairing → Pairing
unfolding new_code_for
new_code digits now s = new_code_for digits host now s

-- The code, if it is still inside its window.
unfoldable pub live_code : (now : ℕ) → Pairing → Option LiveCode
live_code now s = elim s.code [
  | none ↦ none
  | some live ↦ if ltb (now - live.issued) code_ttl then some live else none
]

unfoldable pub current_code_role : (now : ℕ) → Pairing → Option Role
unfolding live_code
current_code_role now s = elim (live_code now s) [ none ↦ none | some live ↦ some live.role ]

unfoldable pub current_code : (now : ℕ) → Pairing → Option (List ℕ)
unfolding live_code
current_code now s = elim (live_code now s) [ none ↦ none | some live ↦ some live.code ]

-- `fold(0, |acc, (x, y)| acc | (x ^ y))` over the zipped bytes.
unfoldable pub fold_differences : ℕ → List ℕ → List ℕ → ℕ
fold_differences acc [] bs = acc
fold_differences acc (x ∷ xs) [] = acc
fold_differences acc (x ∷ xs) (y ∷ ys) = fold_differences (bit_or acc (bit_xor x y)) xs ys

unfoldable pub constant_time_eq : List ℕ → List ℕ → Bool
constant_time_eq a b = if length a == length b then fold_differences 0 a b == 0 else false

-- `saturating_pow` and `saturating_mul` written out; the product is below 2^64 seconds.
unfoldable pub backoff_after : (over : ℕ) → ℕ
backoff_after over = min (first_backoff * min (2 ^ over) 4_294_967_295) max_backoff

abbrev pub is_blocked : (now : ℕ) → Strikes → Bool
is_blocked now s = elim s.blocked_until [ none ↦ false | some until ↦ ltb now until ]

-- `retain`
unfoldable pub keep_blocked : (now : ℕ) → Dict IpAddr Strikes → Dict IpAddr Strikes
keep_blocked now [] = []
keep_blocked now ((ip, s) ∷ rows) =
    let rest = keep_blocked now rows in if is_blocked now s then (ip, s) ∷ rest else rest

unfoldable pub make_room : (from : IpAddr) (now : ℕ) → Dict IpAddr Strikes → Dict IpAddr Strikes
make_room from now strikes =
    let kept = keep_blocked now strikes in
    if leb max_tracked_addresses (length strikes) && not (Dict.contains from strikes)
    then (if leb max_tracked_addresses (length kept) then [] else kept)
    else strikes

-- The strikes of an address after one more wrong code.
abbrev pub struck : (now : ℕ) → Option Strikes → Strikes
struck now o =
    let old = unwrap_or o (record { wrong = 0; blocked_until = none }) in
    record {
      wrong = old.wrong + 1;
      blocked_until =
          if leb free_wrong_codes (old.wrong + 1)
          then some (now + backoff_after (old.wrong + 1 - free_wrong_codes))
          else old.blocked_until;
    }

unfoldable pub strike : (from : IpAddr) (now : ℕ) → Dict IpAddr Strikes → Dict IpAddr Strikes
unfolding make_room
strike from now strikes =
    let room = make_room from now strikes in Dict.insert from (struck now (Dict.get from room)) room

abbrev pub blocked_for : (from : IpAddr) (now : ℕ) → Pairing → Option ℕ
blocked_for from now s = elim (Dict.get from s.strikes) [
  | none ↦ none
  | some k ↦ elim k.blocked_until [
    | none ↦ none
    | some until ↦ if ltb now until then some (until - now) else none
  ]
]

-- A wrong code counts against the live code, which dies of its tenth, and against the address.
unfoldable pub wrong_try : LiveCode → (from : IpAddr) (now : ℕ) → Pairing → Pairing
wrong_try live from now s =
    let dies = leb max_wrong_per_code (live.wrong + 1) in
    record {
      code = if dies then none else some (record live { wrong = live.wrong + 1 });
      voided = if dies then true else s.voided;
      strikes = strike from now s.strikes;
    }

unfoldable pub take_code_at :
    (offered : List ℕ) (from : IpAddr) (now : ℕ) → Pairing → Taken × Pairing
take_code_at offered from now s = elim (blocked_for from now s) [
  | some wait ↦ (refused (backoff wait), s)
  | none ↦ elim (live_code now s) [
    | none ↦ (refused no_code, s)
    | some live ↦
        if constant_time_eq live.code offered
        then (granted live.role, record s { code = none; strikes = Dict.remove from s.strikes })
        else (refused wrong_code, wrong_try live from now s)
  ]
]
