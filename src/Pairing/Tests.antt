-- ===== src/Pairing/Tests.antt =====
-- Runs of the pairing state, and its theorems at concrete inputs.
use mbrc_plugin.Base.{
  ℕ, ◌+◌, ◌-◌, ◌≤◌, ◌<◌, ◌≡◌, ◌≢◌, refl, none, some, List, [], ◌∷◌, arith, nat_eq,
}
use mbrc_plugin.Base.Dict
use mbrc_plugin.Permissions.{Role, guest}
use mbrc_plugin.Registry.{IpAddr, v4, ip_eq}
use mbrc_plugin.Pairing.{
  Pairing, LiveCode, Strikes, granted, refused, wrong_code, backoff, new_pairing, new_code_for,
  live_code, fold_differences, constant_time_eq, blocked_for, take_code_at, wrong_try, strike,
  make_room, backoff_after, free_wrong_codes, code_ttl,
}
use mbrc_plugin.Pairing.Codes.{take_code_at-granted}
use mbrc_plugin.Pairing.Guesses.{Attempt, attempt_all, count_wrong, attempt_all-new_code_for}
use mbrc_plugin.Pairing.Waits.{take_code_at-waits, after_all}

abbrev digits : List ℕ
digits = 49 ∷ 50 ∷ 51 ∷ 52 ∷ 53 ∷ 54 ∷ []

abbrev wrong_digits : List ℕ
wrong_digits = 49 ∷ 50 ∷ 51 ∷ 52 ∷ 53 ∷ 55 ∷ []

abbrev phone : IpAddr
phone = v4 3_232_235_781

abbrev shown : Pairing
shown = new_code_for digits guest 1_000 new_pairing

abbrev guess : ℕ → Attempt
guess t = record { offered = wrong_digits; from = phone; now = t }

abbrev guesses : List Attempt
guesses = guess 2_000 ∷ guess 3_000 ∷ []

abbrev twice_wrong : Pairing
twice_wrong = after_all guesses shown

right_code : (take_code_at digits phone 60_000 shown).0 ≡ granted guest
unfolding take_code_at new_code_for live_code constant_time_eq fold_differences Dict.get
right_code = refl

take_code_at-granted_example :
    (blocked_for phone 60_000 shown ≡ none)
    × ((live : LiveCode) × (shown.code ≡ some live)
        × (live.code ≡ digits)
        × (live.role ≡ guest)
        × (60_000 - live.issued < code_ttl))
    × ((offered' : List ℕ) (from' : IpAddr) (now' : ℕ) (r' : Role)
        → (take_code_at offered' from' now' (take_code_at digits phone 60_000 shown).1).0
          ≢ granted r')
take_code_at-granted_example = take_code_at-granted digits phone 60_000 shown guest right_code

attempt_all-new_code_for_example :
    count_wrong (attempt_all guesses (new_code_for digits guest 1_000 new_pairing)) ≤ 10
attempt_all-new_code_for_example = attempt_all-new_code_for digits guest 1_000 new_pairing guesses

two_counted : count_wrong (attempt_all guesses shown) ≡ 2
unfolding attempt_all take_code_at new_code_for live_code constant_time_eq fold_differences Dict.get
    Dict.insert wrong_try strike make_room Dict.contains
two_counted = refl

third_wrong : (take_code_at wrong_digits phone 4_000 twice_wrong).0 ≡ refused wrong_code
unfolding after_all take_code_at new_code_for live_code constant_time_eq fold_differences Dict.get
    Dict.insert wrong_try strike make_room Dict.contains
third_wrong = refl

abbrev two : Strikes
two = record { wrong = 2; blocked_until = none }

has_two : Dict.get phone twice_wrong.strikes ≡ some two
unfolding after_all take_code_at new_code_for live_code constant_time_eq fold_differences Dict.get
    Dict.insert wrong_try strike make_room Dict.contains
has_two = refl

still_early : 8_999 < 4_000 + backoff_after (two.wrong + 1 - free_wrong_codes)
unfolding backoff_after
still_early = omega arith

take_code_at-waits_example :
    take_code_at digits phone 8_999 (take_code_at wrong_digits phone 4_000 twice_wrong).1 ≡ (
      refused (backoff (4_000 + backoff_after (two.wrong + 1 - free_wrong_codes) - 8_999)),
      (take_code_at wrong_digits phone 4_000 twice_wrong).1,
    )
take_code_at-waits_example =
    take_code_at-waits wrong_digits digits phone 4_000 8_999 two twice_wrong third_wrong has_two
      (omega arith) still_early
