-- ===== src/Wire/Frames.antt =====
-- A reader gets the same frames however the network cuts the bytes up.
use mbrc_plugin.Base.{
  ℕ, zero, suc, ◌+◌, ◌≤◌, ◌<◌, String, true, ◌≡◌, refl, Option, none, some, List, [], ◌∷◌, ◌++◌,
  arith, ltb, length, take, drop, length-append, if◌then◌else◌, nat_eq, inl, inr, Bool-cases,
  Option-cases, ◌∙◌,
}
use mbrc_plugin.Wire.{position, trim_cr, FrameAccumulator, push_bytes, next_frame}
use mbrc_plugin.Wire.Lines.{lines, lines-position, lines-none, position-rest}

-- Bytes that were scanned hold no newline, so the search may start behind them.
position-drop :
    (n : ℕ) (bs : List ℕ)
    → position (take n bs) ≡ none
    → position bs ≡ (elim (position (drop n bs)) [ none ↦ none | some i ↦ some (n + i) ])
unfolding position
position-drop zero bs e = ground arith
position-drop (suc n) [] e = refl
position-drop (suc n) (b ∷ bs) e = ground (arith, position-drop n bs)

take-length_self : (bs : List ℕ) → take (length bs) bs ≡ bs
take-length_self [] = refl
take-length_self (b ∷ bs) = ground (arith, take-length_self bs)

take-append : (n : ℕ) (bs cs : List ℕ) → n ≤ length bs → take n (bs ++ cs) ≡ take n bs
take-append zero bs cs h = refl
take-append (suc n) [] cs h = ground (arith, h)
take-append (suc n) (b ∷ bs) cs h = ground (arith, take-append n bs cs)

length-drop-le : (n : ℕ) (bs : List ℕ) → length (drop n bs) ≤ length bs
length-drop-le zero bs = omega arith
length-drop-le (suc n) [] = omega arith
length-drop-le (suc n) (b ∷ bs) = ground (arith, length-drop-le n bs)

add_one : (i : ℕ) → i + 1 ≡ suc i
add_one i = omega arith

length-drop-lt : (i : ℕ) (bs : List ℕ) → position bs ≡ some i → length (drop (i + 1) bs) < length bs
unfolding position
length-drop-lt i [] e = cc
length-drop-lt i (b ∷ bs) e = rw (add_one i) (ground (arith, length-drop-le i bs))

abbrev pub Scanned : FrameAccumulator → Type 0
Scanned s = (position (take s.scanned s.acc) ≡ none) × (s.scanned ≤ length s.acc)

-- What is left of the buffer once its frames are popped.
abbrev pub settle : List ℕ → FrameAccumulator → FrameAccumulator
settle rest s =
    if ltb s.max_frame (length rest)
    then record s { acc = []; scanned = 0; overflow = true }
    else record s { acc = rest; scanned = length rest }

pushed-Scanned :
    (s : FrameAccumulator) (chunk : List ℕ)
    → Scanned s
    → Scanned (record s { acc = s.acc ++ chunk })
pushed-Scanned s chunk (c, h) =
    (rw (take-append s.scanned s.acc chunk h) c, ground (arith, h, length-append s.acc chunk))

pub settled-Scanned : (bs : List ℕ) (s : FrameAccumulator) → Scanned (settle (lines bs).1 s)
unfolding position
settled-Scanned bs s = elim (Bool-cases (ltb s.max_frame (length (lines bs).1))) [
  | inl over ↦ rw over (refl, omega arith)
  | inr under ↦ rw under (rw (take-length_self (lines bs).1) (position-rest bs), omega arith)
]

module _ (decode : List ℕ → String) where
  -- `while let Some(frame) = next_frame()`
  unfoldable pub pop_all : (fuel : ℕ) → FrameAccumulator → List String × FrameAccumulator
  pop_all zero s = ([], s)
  pop_all (suc n) s =
      let (popped, s') = next_frame decode s in
      let (frames, s'') = pop_all n s' in
      elim popped [ none ↦ ([], s') | some frame ↦ (frame ∷ frames, s'') ]

  abbrev pub frames_of : List (List ℕ) → List String
  frames_of [] = []
  frames_of (l ∷ ls) = decode (trim_cr l) ∷ frames_of ls

  abbrev continue : (n : ℕ) → Option String × FrameAccumulator → List String × FrameAccumulator
  continue n (none, s) = ([], s)
  continue n (some frame, s) = (frame ∷ (pop_all n s).0, (pop_all n s).1)

  pop_all-suc :
      (n : ℕ) (s : FrameAccumulator) (r : Option String × FrameAccumulator)
      → next_frame decode s ≡ r
      → pop_all (suc n) s ≡ continue n r
  unfolding pop_all
  pop_all-suc n s (none, s') e = ground (arith, e)
  pop_all-suc n s (some frame, s') e = ground (arith, e)

  next_none :
      (s : FrameAccumulator)
      → position (drop s.scanned s.acc) ≡ none
      → next_frame decode s ≡ (none, settle s.acc s)
  unfolding next_frame
  next_none s e = elim (Bool-cases (ltb s.max_frame (length s.acc))) [
    | inl over ↦ ground (arith, e, over)
    | inr under ↦ ground (arith, e, under)
  ]

  next_some :
      (s : FrameAccumulator) (i : ℕ)
      → position (drop s.scanned s.acc) ≡ some i
      → next_frame decode s ≡ (
        some (decode (trim_cr (take (s.scanned + i) s.acc))),
        record s { acc = drop (s.scanned + i + 1) s.acc; scanned = 0 },
      )
  unfolding next_frame
  next_some s i e = ground (arith, e)

  -- With fuel for every byte, all whole lines come out in order, and what follows them stays.
  pop_all_lem :
      (n : ℕ) (s : FrameAccumulator)
      → Scanned s
      → length s.acc < n
      → pop_all n s ≡ (frames_of (lines s.acc).0, settle (lines s.acc).1 s)
  pop_all_lem zero s c h = ground arith
  pop_all_lem (suc n) s c h = elim (Option-cases (position (drop s.scanned s.acc))) [
    | inl nothing ↦
        let whole : position s.acc ≡ none =
          ground (arith, position-drop s.scanned s.acc c.0, nothing) in
        pop_all-suc n s (none, settle s.acc s) (next_none s nothing)
        ∙ rw (lines-none s.acc whole) refl
    | inr (i, found) ↦
        let at : position s.acc ≡ some (s.scanned + i) =
          ground (arith, position-drop s.scanned s.acc c.0, found) in
        let s' : FrameAccumulator = record s {
          acc = drop (s.scanned + i + 1) s.acc;
          scanned = 0;
        } in
        let ih =
          pop_all_lem n s' (unfold position in (refl, omega arith))
            (ground (arith, h, length-drop-lt (s.scanned + i) s.acc at)) in
        pop_all-suc n s (some (decode (trim_cr (take (s.scanned + i) s.acc))), s')
          (next_some s i found)
        ∙ rw (lines-position s.acc (s.scanned + i) at, ih) refl
  ]

  -- What a reader does with one read of the socket.
  abbrev pub feed : List ℕ → FrameAccumulator → List String × FrameAccumulator
  feed chunk s = let s' = push_bytes chunk s in pop_all (suc (length s'.acc)) s'

  unfoldable pub feed_all : List (List ℕ) → FrameAccumulator → List String × FrameAccumulator
  feed_all [] s = ([], s)
  feed_all (chunk ∷ chunks) s =
      let (frames, s') = feed chunk s in
      let (more, s'') = feed_all chunks s' in (frames ++ more, s'')

  pub feed_lem :
      (chunk : List ℕ) (s : FrameAccumulator)
      → Scanned s
      → feed chunk s ≡ (frames_of (lines (s.acc ++ chunk)).0, settle (lines (s.acc ++ chunk)).1 s)
  unfolding push_bytes
  feed_lem chunk s c =
      pop_all_lem (suc (length (s.acc ++ chunk))) (record s { acc = s.acc ++ chunk })
        (pushed-Scanned s chunk c) (omega arith)
