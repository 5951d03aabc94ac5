-- ===== src/Wire/Chunks.antt =====
-- Any cut of the same bytes into reads gives the same frames.
use mbrc_plugin.Base.{
  ℕ, String, true, false, ◌≡◌, refl, none, List, [], ◌∷◌, ◌++◌, arith, ltb, length, nat_eq, inl,
  inr, Bool-cases, ap, sym, ◌∙◌,
}
use mbrc_plugin.Wire.{position, FrameAccumulator, with_max_frame_bytes}
use mbrc_plugin.Wire.Lines.{lines, lines-append, lines-none, position-rest}
use mbrc_plugin.Wire.Frames.{Scanned, settle, frames_of, feed_all, feed_lem, settled-Scanned}

abbrev pub concat : List (List ℕ) → List ℕ
concat [] = []
concat (c ∷ cs) = c ++ concat cs

append_assoc : (as' bs cs : List ℕ) → (as' ++ bs) ++ cs ≡ as' ++ (bs ++ cs)
append_assoc [] bs cs = refl
append_assoc (a ∷ rest) bs cs = ground (arith, append_assoc rest bs cs)

append-nil : (bs : List ℕ) → bs ++ [] ≡ bs
append-nil [] = refl
append-nil (b ∷ bs) = ground (arith, append-nil bs)

module _ (decode : List ℕ → String) where
  frames_of-append :
      (ls ms : List (List ℕ))
      → frames_of decode (ls ++ ms) ≡ frames_of decode ls ++ frames_of decode ms
  frames_of-append [] ms = refl
  frames_of-append (l ∷ ls) ms = ground (arith, frames_of-append ls ms)

  latched :
      (chunks : List (List ℕ)) (s : FrameAccumulator)
      → Scanned s
      → s.overflow ≡ true
      → (feed_all decode chunks s).1.overflow ≡ true
  unfolding feed_all
  latched [] s c h = h
  latched (chunk ∷ chunks) s c h = rw (feed_lem decode chunk s c) (
      latched chunks (settle (lines (s.acc ++ chunk)).1 s) (settled-Scanned (s.acc ++ chunk) s)
        (ground (arith, h)))

  not_over :
      (chunks : List (List ℕ)) (bs : List ℕ) (s : FrameAccumulator)
      → (feed_all decode chunks (settle (lines bs).1 s)).1.overflow ≡ false
      → ltb s.max_frame (length (lines bs).1) ≡ false
  not_over chunks bs s fine = elim (Bool-cases (ltb s.max_frame (length (lines bs).1))) [
    | inl over ↦
        let closed : (settle (lines bs).1 s).overflow ≡ true = rw over refl in
        ground (arith, fine, latched chunks (settle (lines bs).1 s) (settled-Scanned bs s) closed)
    | inr under ↦ under
  ]

  feed_all_lem :
      (chunks : List (List ℕ)) (s : FrameAccumulator)
      → Scanned s
      → position s.acc ≡ none
      → (feed_all decode chunks s).1.overflow ≡ false
      → (feed_all decode chunks s).0 ≡ frames_of decode (lines (s.acc ++ concat chunks)).0
  unfolding feed_all
  feed_all_lem [] s c p ok = rw (append-nil s.acc, lines-none s.acc p) refl
  feed_all_lem (chunk ∷ chunks) s c p ok =
      let bs = s.acc ++ chunk in
      let rest = (lines bs).1 in
      let fed = feed_lem decode chunk s c in
      let next = settle rest s in
      let fine : (feed_all decode chunks next).1.overflow ≡ false =
        sym
          (ap (λ (r : List String × FrameAccumulator). (feed_all decode chunks r.1).1.overflow) fed)
        ∙ ok in
      let under : ltb s.max_frame (length rest) ≡ false = not_over chunks bs s fine in
      let kept : next.acc ≡ rest = rw under refl in
      let ih = feed_all_lem chunks next (settled-Scanned bs s) (rw kept (position-rest bs)) fine in
      ap (λ (r : List String × FrameAccumulator). r.0 ++ (feed_all decode chunks r.1).0) fed
      ∙ ap (λ (fs : List String). frames_of decode (lines bs).0 ++ fs)
          (ih ∙ ap (λ (acc : List ℕ). frames_of decode (lines (acc ++ concat chunks)).0) kept)
      ∙ sym (frames_of-append (lines bs).0 (lines (rest ++ concat chunks)).0)
      ∙ ap (λ (t : List (List ℕ) × List ℕ). frames_of decode t.0)
          (sym (lines-append bs (concat chunks)))
      ∙ ap (λ (all : List ℕ). frames_of decode (lines all).0)
          (append_assoc s.acc chunk (concat chunks))

  -- However the network cuts the bytes of a connection into reads, the reader gets exactly the
  -- lines of the whole, each once and in order and without its line end, unless a line longer than
  -- the limit made it give the connection up.
  pub feed_all-concat :
      (max_frame : ℕ) (chunks : List (List ℕ))
      → (feed_all decode chunks (with_max_frame_bytes max_frame)).1.overflow ≡ false
      → (feed_all decode chunks (with_max_frame_bytes max_frame)).0
        ≡ frames_of decode (lines (concat chunks)).0
  unfolding with_max_frame_bytes position
  feed_all-concat max_frame chunks ok =
      feed_all_lem chunks (with_max_frame_bytes max_frame) (refl, omega arith) refl ok
