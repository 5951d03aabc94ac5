-- ===== src/Pairing/Waits.antt =====
-- The wait of an address that sent wrong codes, and how many addresses are remembered.
use mbrc_plugin.Base.{
  ℕ, zero, suc, ◌+◌, ◌-◌, ◌^◌, ◌≤◌, ◌<◌, true, ◌≡◌, ◌⊎◌, refl, some, List, [], ◌∷◌, arith, leb,
  length, nat_eq, inl, inr, Bool-cases, Option-cases,
}
use mbrc_plugin.Base.Dict
use mbrc_plugin.Base.Dict.{Dict, length-insert, length-remove-le}
use mbrc_plugin.Registry.{IpAddr, ip_eq}
use mbrc_plugin.Pairing.Guesses.{Attempt}
use mbrc_plugin.Pairing.{
  Pairing, LiveCode, Strikes, refused, wrong_code, backoff, live_code, blocked_for, keep_blocked,
  make_room, struck, strike, backoff_after, take_code_at, wrong_try, max_tracked_addresses,
  free_wrong_codes, first_backoff, max_backoff,
}

-- The state that the attempts leave.
unfoldable pub after_all : List Attempt → Pairing → Pairing
after_all [] s = s
after_all (a ∷ tries) s = after_all tries (take_code_at a.offered a.from a.now s).1

one_le_pow : (n : ℕ) → 1 ≤ 2 ^ n
one_le_pow zero = omega arith
one_le_pow (suc n) = omega (arith, one_le_pow n)

-- A wait is never shorter than five seconds nor longer than five minutes.
pub backoff_after-bounds :
    (over : ℕ) → (first_backoff ≤ backoff_after over) × (backoff_after over ≤ max_backoff)
unfolding backoff_after
backoff_after-bounds over = (omega (arith, one_le_pow over), omega arith)

length-keep_blocked :
    (now : ℕ) (rows : Dict IpAddr Strikes) → length (keep_blocked now rows) ≤ length rows
unfolding keep_blocked
length-keep_blocked now [] = omega arith
length-keep_blocked now ((ip, s) ∷ rows) = ground (arith, length-keep_blocked now rows)

make_room_lem :
    (from : IpAddr) (now : ℕ) (rows : Dict IpAddr Strikes)
    → length rows ≤ max_tracked_addresses
    → (length (make_room from now rows) ≤ max_tracked_addresses)
      × ((Dict.contains from (make_room from now rows) ≡ true)
          ⊎ (length (make_room from now rows) < max_tracked_addresses))
unfolding make_room
make_room_lem from now rows h = elim (Bool-cases (leb max_tracked_addresses (length rows))) [
  | inl full ↦ elim (Bool-cases (Dict.contains from rows)) [
    | inl known ↦ rw (full, known) (ground arith, inl known)
    | inr fresh ↦
        rw (full, fresh)
          (elim (Bool-cases (leb max_tracked_addresses (length (keep_blocked now rows)))) [
            | inl still ↦ rw still (omega arith, inr (omega arith))
            | inr room ↦ rw room (ground (arith, room), inr (ground (arith, room)))
          ])
  ]
  | inr room ↦ rw room (ground arith, inr (ground (arith, room)))
]

length-strike :
    (from : IpAddr) (now : ℕ) (rows : Dict IpAddr Strikes)
    → length rows ≤ max_tracked_addresses
    → length (strike from now rows) ≤ max_tracked_addresses
unfolding strike
length-strike from now rows h =
    let room = make_room from now rows in
    ground (
      arith,
      make_room_lem from now rows h,
      length-insert from (struck now (Dict.get from room)) room,
    )

-- The strikes of the address that sent the wrong code, after it was counted.
get-strike :
    (from : IpAddr) (now : ℕ) (rows : Dict IpAddr Strikes)
    → Dict.get from (strike from now rows)
      ≡ some (struck now (Dict.get from (make_room from now rows)))
unfolding strike
get-strike from now rows =
    let room = make_room from now rows in
    Dict.get-insert_self from (struck now (Dict.get from room)) room

-- An address that still waits, or is still remembered, keeps its strikes when others go.
known_room :
    (from : IpAddr) (now : ℕ) (rows : Dict IpAddr Strikes) (k : Strikes)
    → Dict.get from rows ≡ some k
    → Dict.get from (make_room from now rows) ≡ some k
unfolding make_room
known_room from now rows k e = ground (arith, e, Dict.contains-eq-false from rows)

strikes-wrong_try :
    (live : LiveCode) (from : IpAddr) (now : ℕ) (s : Pairing)
    → (wrong_try live from now s).strikes ≡ strike from now s.strikes
unfolding wrong_try
strikes-wrong_try live from now s = refl

wrong_strikes :
    (offered : List ℕ) (from : IpAddr) (now : ℕ) (s : Pairing)
    → (take_code_at offered from now s).0 ≡ refused wrong_code
    → (take_code_at offered from now s).1.strikes ≡ strike from now s.strikes
unfolding take_code_at
wrong_strikes offered from now s e = elim (Option-cases (live_code now s)) [
  | inl nothing ↦ ground (arith, e, nothing)
  | inr (live, found) ↦ ground (arith, e, found, strikes-wrong_try live from now s)
]

blocked_take :
    (offered : List ℕ) (from : IpAddr) (now wait : ℕ) (s : Pairing)
    → blocked_for from now s ≡ some wait
    → take_code_at offered from now s ≡ (refused (backoff wait), s)
unfolding take_code_at
blocked_take offered from now wait s e = ground (arith, e)

blocked_lem :
    (from : IpAddr) (now until : ℕ) (k : Strikes) (s : Pairing)
    → Dict.get from s.strikes ≡ some k
    → k.blocked_until ≡ some until
    → now < until
    → blocked_for from now s ≡ some (until - now)
blocked_lem from now until k s e b h = ground (arith, e, b, h)

-- An address whose strikes are remembered and that sends its third wrong code, or a later one,
-- waits for the time of `backoff_after`: until then whatever it offers is refused with what is
-- left of the wait, and nothing is counted or changed, so the right code is not tried either.
pub take_code_at-waits :
    (offered offered' : List ℕ) (from : IpAddr) (now now' : ℕ) (k : Strikes) (s : Pairing)
    → (take_code_at offered from now s).0 ≡ refused wrong_code
    → Dict.get from s.strikes ≡ some k
    → free_wrong_codes ≤ k.wrong + 1
    → now' < now + backoff_after (k.wrong + 1 - free_wrong_codes)
    → take_code_at offered' from now' (take_code_at offered from now s).1 ≡ (
      refused (backoff (now + backoff_after (k.wrong + 1 - free_wrong_codes) - now')),
      (take_code_at offered from now s).1,
    )
take_code_at-waits offered offered' from now now' k s e got third early =
    let s' = (take_code_at offered from now s).1 in
    let until = now + backoff_after (k.wrong + 1 - free_wrong_codes) in
    let struck_now : Dict.get from s'.strikes ≡ some (struck now (some k)) = ground (
      arith,
      wrong_strikes offered from now s e,
      get-strike from now s.strikes,
      known_room from now s.strikes k got,
    ) in
    blocked_take offered' from now' (until - now') s' (
      blocked_lem from now' until (struck now (some k)) s' struck_now (ground (arith, third)) early)

take-IsBounded :
    (offered : List ℕ) (from : IpAddr) (now : ℕ) (s : Pairing)
    → length s.strikes ≤ max_tracked_addresses
    → length (take_code_at offered from now s).1.strikes ≤ max_tracked_addresses
unfolding take_code_at
take-IsBounded offered from now s h = elim (Option-cases (live_code now s)) [
  | inl nothing ↦ ground (arith, h, nothing)
  | inr (live, found) ↦ ground (
    arith,
    h,
    found,
    strikes-wrong_try live from now s,
    length-strike from now s.strikes h,
    length-remove-le from s.strikes,
  )
]

-- If no more than 1024 addresses are remembered, no more are after any attempts, whatever is
-- offered from wherever.
pub length-after_all :
    (tries : List Attempt) (s : Pairing)
    → length s.strikes ≤ max_tracked_addresses
    → length (after_all tries s).strikes ≤ max_tracked_addresses
unfolding after_all
length-after_all [] s h = h
length-after_all (a ∷ tries) s h =
    length-after_all tries (take_code_at a.offered a.from a.now s).1
      (take-IsBounded a.offered a.from a.now s h)
