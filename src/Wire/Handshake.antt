-- ===== src/Wire/Handshake.antt =====
-- What a client sends back on its own: one `protocol` frame for a connection, and a `pong` for
-- each `ping`.
use mbrc_plugin.Base.{
  ℕ, ◌+◌, String, Bool, true, false, ◌≡◌, refl, Option, some, List, [], ◌∷◌, arith, if◌then◌else◌,
  ◌==◌, string_eq, min,
}
use mbrc_plugin.Wire.{
  Reply, protocol_frame, pong_frame, ClientHandshake, new_handshake, on_incoming,
}

unfoldable pub replies : List String → ClientHandshake → List (Option Reply)
replies [] s = []
replies (context ∷ contexts) s =
    let (reply, s') = on_incoming context s in reply ∷ replies contexts s'

abbrev pub protocols : List (Option Reply) → ℕ
protocols [] = 0
protocols (some (protocol_frame v b) ∷ rs) = protocols rs + 1
protocols (_ ∷ rs) = protocols rs

abbrev pub pongs : List (Option Reply) → ℕ
pongs [] = 0
pongs (some pong_frame ∷ rs) = pongs rs + 1
pongs (_ ∷ rs) = pongs rs

abbrev pub count_context : String → List String → ℕ
count_context c [] = 0
count_context c (d ∷ ds) = if d == c then count_context c ds + 1 else count_context c ds

abbrev due : ClientHandshake → List String → ℕ
due s contexts = if s.player_acked then 0 else min 1 (count_context "player" contexts)

ping_ne : (c : String) → (c == "ping") ≡ true → (c == "player") ≡ false
ping_ne c e = rw ((string_eq.same_iff c "ping").0 e) refl

replies_lem :
    (contexts : List String) (s : ClientHandshake)
    → (protocols (replies contexts s) ≡ due s contexts)
      × (pongs (replies contexts s) ≡ count_context "ping" contexts)
unfolding replies on_incoming
replies_lem [] s = ground arith
replies_lem (c ∷ cs) s =
    ground (arith, replies_lem cs s, replies_lem cs (record s { player_acked = true }), ping_ne c)

-- Over a connection, a client sends its protocol frame once, if the server ever sends its `player`
-- frame, and answers every `ping`.
pub replies_once :
    (contexts : List String) (client_type : String) (version : ℕ) (no_broadcast : Bool)
    → (protocols (replies contexts (new_handshake client_type version no_broadcast))
        ≡ min 1 (count_context "player" contexts))
      × (pongs (replies contexts (new_handshake client_type version no_broadcast))
          ≡ count_context "ping" contexts)
unfolding new_handshake
replies_once contexts client_type version no_broadcast =
    replies_lem contexts (new_handshake client_type version no_broadcast)
