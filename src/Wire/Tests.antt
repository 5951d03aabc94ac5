-- ===== src/Wire/Tests.antt =====
-- Runs of the framing, and its theorems at concrete inputs.
use mbrc_plugin.Base.{ℕ, String, false, ◌≡◌, refl, List, [], ◌∷◌, if◌then◌else◌, ◌==◌, nat_eq}
use mbrc_plugin.Wire.{with_max_frame_bytes, push_bytes, next_frame, position, trim_cr}
use mbrc_plugin.Wire.Lines.{lines}
use mbrc_plugin.Wire.Frames.{frames_of, feed_all, pop_all}
use mbrc_plugin.Wire.Chunks.{concat, feed_all-concat}

-- Enough of a decoder to tell the frames apart.
abbrev letters : List ℕ → String
letters [] = ""
letters (b ∷ bs) = if b == 97 then "a" else "?"

abbrev chunks : List (List ℕ)
chunks = (97 ∷ 98 ∷ 13 ∷ []) ∷ (10 ∷ 99 ∷ []) ∷ (10 ∷ 100 ∷ []) ∷ []

stays_open : (feed_all letters chunks (with_max_frame_bytes 16)).1.overflow ≡ false
unfolding feed_all pop_all push_bytes next_frame position trim_cr with_max_frame_bytes
stays_open = refl

two_frames : (feed_all letters chunks (with_max_frame_bytes 16)).0 ≡ "a" ∷ "?" ∷ []
unfolding feed_all pop_all push_bytes next_frame position trim_cr with_max_frame_bytes
two_frames = refl

feed_all-concat_example :
    (feed_all letters chunks (with_max_frame_bytes 16)).0
    ≡ frames_of letters (lines (concat chunks)).0
feed_all-concat_example = feed_all-concat letters 16 chunks stays_open

abbrev contexts : List String
contexts = "ping" ∷ "player" ∷ "player" ∷ "ping" ∷ []
