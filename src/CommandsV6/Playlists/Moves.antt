-- ===== src/CommandsV6/Playlists/Moves.antt =====
-- Where a move puts the entries of a playlist.
use mbrc_plugin.Base.{
  ℕ, suc, ◌+◌, ◌≤◌, String, ◌≡◌, refl, ap, ◌∙◌, List, [], ◌∷◌, ◌++◌, length, take, drop,
  length-take, length-append, take-drop, take-append, drop-append, arith, Bool-cases, inl, inr,
  nat_eq,
}
use mbrc_plugin.Base.Sorting.{member}
use mbrc_plugin.CommandsV6.NowPlayingList.Slots.{without}
use mbrc_plugin.CommandsV6.Playlists.{only, moved_to}

length-only :
    (os : List ℕ) (i : ℕ) (xs : List String)
    → length (only os i xs) + length (without os i xs) ≡ length xs
unfolding only without
length-only os i [] = refl
length-only os i (x ∷ xs) = elim (Bool-cases (member i os)) [
  | inl h ↦ rw h (ground (arith, length-only os (suc i) xs))
  | inr h ↦ rw h (ground (arith, length-only os (suc i) xs))
]

take_at : (n : ℕ) (xs ys : List String) → length xs ≡ n → take n (xs ++ ys) ≡ xs
take_at n xs ys e = rw (← e) (take-append xs ys)

drop_at : (n : ℕ) (xs ys : List String) → length xs ≡ n → drop n (xs ++ ys) ≡ ys
drop_at n xs ys e = rw (← e) (drop-append xs ys)

-- A move to a slot that the entries which stay leave room for puts the entries that it names there,
-- in a row and in their own order, and leaves the others in theirs. None is lost or added.
pub moved_to_lem :
    (paths : List String) (from : List ℕ) (to : ℕ)
    → to ≤ length (without from 0 paths)
    → let count = length (only from 0 paths) in
      (take count (drop to (moved_to paths from to)) ≡ only from 0 paths)
      × (take to (moved_to paths from to) ++ drop count (drop to (moved_to paths from to))
          ≡ without from 0 paths)
      × (length (moved_to paths from to) ≡ length paths)
unfolding moved_to
moved_to_lem paths from to h =
    let rest = without from 0 paths in
    let moved = only from 0 paths in
    let front : length (take to rest) ≡ to = length-take to rest ∙ ground arith in
    let back = drop_at to (take to rest) (moved ++ drop to rest) front in
    (
      rw back (take-append moved (drop to rest)),
      rw
          (
            back,
            take_at to (take to rest) (moved ++ drop to rest) front,
            drop-append moved (drop to rest),
          )
          (take-drop to rest),
      omega (
        arith,
        length-append (take to rest) (moved ++ drop to rest),
        length-append moved (drop to rest),
        length-append (take to rest) (drop to rest),
        ap (λ (xs : List String). length xs) (take-drop to rest),
        length-only from 0 paths,
      ),
    )
