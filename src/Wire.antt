-- ===== src/Wire.antt =====
-- The framing of the wire (packages/mbrc-wire/src/lib.rs): a byte stream is split at `\n`, and one
-- `\r` before it goes. Bytes are numbers, and `decode` stands for `String::from_utf8_lossy`.
pub mod Lines
pub mod V6
pub mod Lenient
pub mod Frames
pub mod Chunks
pub mod Handshake
mod Tests
use mbrc_plugin.Base.{
  ℕ, zero, suc, ◌+◌, String, Bool, true, false, Option, none, some, List, [], ◌∷◌, ◌++◌, ltb,
  length, take, drop, if◌then◌else◌, ◌==◌, nat_eq, ◌*◌, string_eq,
}

abbrev pub newline : ℕ
newline = 10

abbrev pub carriage_return : ℕ
carriage_return = 13

-- `iter().position(|&b| b == b'\\n')`
unfoldable pub position : List ℕ → Option ℕ
position [] = none
position (b ∷ bs) =
    let rest = position bs in
    if b == newline then some 0 else elim rest [ none ↦ none | some i ↦ some (i + 1) ]

-- `if frame.last() == Some(&b'\\r') { frame.pop(); }`
unfoldable pub trim_cr : List ℕ → List ℕ
trim_cr [] = []
trim_cr (b ∷ []) = if b == carriage_return then [] else b ∷ []
trim_cr (b ∷ c ∷ bs) = b ∷ trim_cr (c ∷ bs)

pub record FrameAccumulator : Type 0 where
  pub acc : List ℕ
  pub scanned : ℕ
  pub max_frame : ℕ
  pub overflow : Bool

abbrev pub default_max_frame_bytes : ℕ
default_max_frame_bytes = 16 * 1024 * 1024

unfoldable pub with_max_frame_bytes : ℕ → FrameAccumulator
with_max_frame_bytes max_frame = record {
  acc = [];
  scanned = 0;
  max_frame = max_frame;
  overflow = false;
}

unfoldable pub push_bytes : List ℕ → FrameAccumulator → FrameAccumulator
push_bytes bytes s = record s { acc = s.acc ++ bytes }

module _ (decode : List ℕ → String) where
  unfoldable pub next_frame : FrameAccumulator → Option String × FrameAccumulator
  next_frame s = elim (position (drop s.scanned s.acc)) [
    | some i ↦
        let idx = s.scanned + i in
        (
          some (decode (trim_cr (take idx s.acc))),
          record s { acc = drop (idx + 1) s.acc; scanned = 0 },
        )
    | none ↦
        if ltb s.max_frame (length s.acc)
        then (none, record s { acc = []; scanned = 0; overflow = true })
        else (none, record s { scanned = length s.acc })
  ]

-- `ClientHandshake`, with what it sends back by name.
pub data Reply : Type 0 where
  protocol_frame : (protocol_version : ℕ) (no_broadcast : Bool) → Reply
  pong_frame : Reply

pub record ClientHandshake : Type 0 where
  pub client_type : String
  pub protocol_version : ℕ
  pub no_broadcast : Bool
  pub player_acked : Bool

unfoldable pub new_handshake : String → ℕ → Bool → ClientHandshake
new_handshake client_type version no_broadcast = record {
  client_type = client_type;
  protocol_version = version;
  no_broadcast = no_broadcast;
  player_acked = false;
}

unfoldable pub on_incoming : String → ClientHandshake → Option Reply × ClientHandshake
on_incoming context s =
    if context == "ping"
    then (some pong_frame, s)
    else if context == "player"
    then (if s.player_acked then (none, s) else (
      some (protocol_frame s.protocol_version s.no_broadcast),
      record s { player_acked = true },
    ))
    else (none, s)
