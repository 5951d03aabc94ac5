-- ===== src/Session.antt =====
-- One legacy (V4 and V5) connection (packages/mbrc-core/src/server/session.rs): its state, and what a
-- line does to it, to the Party Mode gate and to MusicBee. A reply is its context and its value,
-- before both are rendered to text. The handlers are those of V4/Dispatch; logging is not modelled.
pub mod Calls
pub mod Protocol
mod Tests
use mbrc_plugin.Base.{
  ℕ, ◌+◌, ◌%◌, min, String, Bool, true, false, not, ◌||◌, ◌≡◌, Option, none, some, List, [], ◌∷◌,
  ◌++◌, ltb, leb, if◌then◌else◌, ◌==◌, string_eq, nat_eq, unwrap_or, or, is_some, any, ◌>>=◌, ◌&&◌,
}
use mbrc_plugin.Base.Int.{ℤ, pos, digits}
use Prim.Native.Char.{code}
use Prim.Native.String
use mbrc_plugin.Json.{Json, Kind, number, string, object, as_str, as_u64, as_bool}
use mbrc_plugin.Json.Build.{JsonBuild}
use mbrc_plugin.Store.{Tables}
use mbrc_plugin.Wire.Lenient.{parse_lenient}
use mbrc_plugin.Permissions.Principal.{Principal, legacy_device, anonymous}
use mbrc_plugin.Permissions.Gate.{PartyMode, Refusal, check}
use mbrc_plugin.Permissions.V4.{action, get_or_set}
use mbrc_plugin.V4.{Platform, platform_from_name, trim}
use mbrc_plugin.V4.Host.{HostCall, Host, Ran}
use mbrc_plugin.V4.Handlers
use mbrc_plugin.V4.Handlers.{Body, Replies, Handler}
use mbrc_plugin.V4.Dispatch.{Queries, dispatch}

abbrev pub max_protocol : ℕ
max_protocol = 5

abbrev pub min_protocol : ℕ
min_protocol = 4

abbrev pub player_name : String
player_name = "MusicBee"

pub data ProtocolVersion : Type 0 where
  v4 v5 : ProtocolVersion

unfoldable pub from_negotiated : ℕ → Option ProtocolVersion
from_negotiated n = if n == 4 then some v4 else if n == 5 then some v5 else none

abbrev pub accepts_current_position : ProtocolVersion → Bool
accepts_current_position v4 = false
accepts_current_position v5 = true

-- The session's counts of frames and of dropped commands do not reach their width.
pub record Session : Type 0 where
  pub platform : Option String
  pub protocol_version : Option ℕ
  pub no_broadcast : Bool
  pub client_id : Option String
  pub frames_in : ℕ
  pub dropped_pre_handshake : ℕ

abbrev pub new_session : Session
new_session = record {
  platform = none;
  protocol_version = none;
  no_broadcast = false;
  client_id = none;
  frames_in = 0;
  dropped_pre_handshake = 0;
}

pub record RegMeta : Type 0 where
  pub client_id : Option String
  pub is_main : Bool
  pub platform : Option String
  pub protocol : ℕ

unfoldable pub reg_meta : Session → Option RegMeta
reg_meta s = s.protocol_version >>= λ p. some (record {
  client_id = s.client_id;
  is_main = not s.no_broadcast;
  platform = s.platform;
  protocol = p;
})

unfoldable pub principal : Session → Principal
principal s = elim s.client_id [ none ↦ anonymous | some id ↦ legacy_device id ]

pub record Handshake : Type 0 where
  pub version : ℕ
  pub no_broadcast : Bool
  pub client_id : Option String

-- `parse::<u8>`: digits after an optional plus sign, up to 255.
abbrev pub within_u8 : Option ℕ → Option ℕ
within_u8 none = none
within_u8 (some n) = if ltb n 256 then some n else none

unfoldable pub parse_u8 : String → Option ℕ
parse_u8 String.[] = none
parse_u8 (String.◌∷◌ c s) =
    if leb 43 (code c) && leb (code c) 43
    then within_u8 (digits s)
    else within_u8 (digits (String.◌∷◌ c s))

abbrev pub nonempty : Option String → Option String
nonempty none = none
nonempty (some s) = if s == "" then none else some s

-- Who a refusal is logged under.
abbrev pub client_name : Session → String
client_name s = unwrap_or (or s.client_id s.platform) "v4"

module _ (J : Json) where
  open J use {Value, kind, field}

  abbrev pub version_only : ℕ → Handshake
  version_only n = record { version = n; no_broadcast = false; client_id = none }

  -- By the kind of the payload. `as u8` keeps the low byte.
  abbrev pub handshake_of : Kind Value → Value → Handshake
  handshake_of (number n) v = version_only (unwrap_or n 0 % 256)
  handshake_of (string s) v = version_only (unwrap_or (parse_u8 (trim s)) 0)
  handshake_of object v = record {
    version = unwrap_or (field v "protocol_version" >>= as_u64 J) 0 % 256;
    no_broadcast = unwrap_or (field v "no_broadcast" >>= as_bool J) false;
    client_id = nonempty (field v "client_id" >>= as_str J);
  }
  handshake_of _ v = version_only 0

  unfoldable pub parse_handshake : Value → Handshake
  unfolding parse_u8
  parse_handshake v = handshake_of (kind v) v

module _ (J : Json) (B : JsonBuild J) (T : Tables String String) (H : Host) (Qs : Queries J H) where
  open J use {Value, kind, field}

  -- What a line leads to. `calls` are the calls on MusicBee.
  pub record Step : Type 0 where
    pub session : Session
    pub gate : Option (PartyMode T)
    pub world : H.World
    pub replies : Replies Value
    pub close : Bool
    pub calls : List HostCall

  -- The connection answers by itself.
  abbrev pub answers :
      Replies Value → (close : Bool) → Session → Option (PartyMode T) → H.World → Step
  answers replies close s g w = record {
    session = s;
    gate = g;
    world = w;
    replies = replies;
    close = close;
    calls = [];
  }

  abbrev pub text_reply : String → String → Replies Value
  text_reply context t = (context, Handlers.text t) ∷ []

  abbrev pub negotiate : Handshake → Session → Option (PartyMode T) → H.World → Step
  negotiate h s g w =
      if ltb h.version min_protocol
      then answers (("notallowed", Handlers.unsupported h.version) ∷ []) true s g w
      else answers (("protocol", Handlers.number (pos (min h.version max_protocol))) ∷ []) false
          (record s {
            protocol_version = some h.version;
            no_broadcast = h.no_broadcast;
            client_id = h.client_id;
          })
          g w

  unfoldable pub handle_protocol : Value → Session → Option (PartyMode T) → H.World → Step
  unfolding parse_handshake
  handle_protocol v s g w = negotiate (parse_handshake J v) s g w

  abbrev pub replies_of : Option (Replies Value) → Replies Value
  replies_of none = []
  replies_of (some replies) = replies

  -- A handler's run, its replies none if it failed.
  abbrev pub run :
      (before : Replies Value)
      → Option (Handler J H)
      → Session
      → Option (PartyMode T)
      → H.World
      → Step
  run before none s g w = answers before false s g w
  run before (some h) s g w =
      let r = h w in
      record {
        session = s;
        gate = g;
        world = r.world;
        replies = before ++ replies_of r.result;
        close = false;
        calls = r.calls;
      }

  abbrev pub handler : ProtocolVersion → Session → String → Value → Option (Handler J H)
  handler version s context v =
      dispatch J H Qs (accepts_current_position version) (platform_from_name s.platform) context v

  -- A refused set is answered like the query of the same context.
  unfoldable pub refuse : ProtocolVersion → String → Session → Option (PartyMode T) → H.World → Step
  refuse version context s g w =
      run (text_reply "commandunavailable" "")
        (if any (λ c. c == context) get_or_set then handler version s context B.nothing else none) s
        g w

  abbrev pub checked :
      Option Refusal × PartyMode T → ProtocolVersion → String → Value → Session → H.World → Step
  checked (some why, g) version context v s w = refuse version context s (some g) w
  checked (none, g) version context v s w = run [] (handler version s context v) s (some g) w

  abbrev pub gated :
      (now_ms : ℕ)
      → Option (PartyMode T)
      → ProtocolVersion
      → String
      → Value
      → Session
      → H.World
      → Step
  gated now_ms none version context v s w = run [] (handler version s context v) s none w
  gated now_ms (some g) version context v s w =
      checked (check T (principal s) context (action J context v) (client_name s) now_ms g) version
        context v s w

  abbrev pub version_of : ℕ → ProtocolVersion
  version_of negotiated = unwrap_or (from_negotiated (min negotiated max_protocol)) v4

  -- Before the handshake is complete a command closes the connection.
  unfoldable pub dispatch_command :
      (now_ms : ℕ) → String → Value → Session → Option (PartyMode T) → H.World → Step
  unfolding refuse
  dispatch_command now_ms context v s g w = elim s.protocol_version [
    | none ↦ answers [] true (record s { dropped_pre_handshake = s.dropped_pre_handshake + 1 }) g w
    | some negotiated ↦ gated now_ms g (version_of negotiated) context v s w
  ]

  abbrev pub introduced : Option String → Session → Session
  introduced none s = s
  introduced (some platform) s = record s { platform = some platform }

  unfoldable pub handle_context :
      (now_ms : ℕ) → String → Value → Session → Option (PartyMode T) → H.World → Step
  unfolding handle_protocol dispatch_command
  handle_context now_ms context v s g w =
      if context == "player"
      then answers (text_reply "player" player_name) false (introduced (as_str J v) s) g w
      else if context == "protocol"
      then handle_protocol v s g w
      else if context == "ping"
      then answers (text_reply "pong" "") false s g w
      else if context == "pong"
      then answers [] false s g w
      else if context == "verifyconnection"
      then answers (text_reply "verifyconnection" "") false s g w
      else if context == ""
      then answers [] false s g w
      else dispatch_command now_ms context v s g w

  abbrev pub counted : Session → Session
  counted s = record s { frames_in = s.frames_in + 1 }

  abbrev pub handle_value :
      (now_ms : ℕ) → Option Value → Session → Option (PartyMode T) → H.World → Step
  handle_value now_ms none s g w = answers [] false s g w
  handle_value now_ms (some v) s g w =
      handle_context now_ms (unwrap_or (field v "context" >>= as_str J) "")
        (unwrap_or (field v "data") B.nothing) s g w

  unfoldable pub handle_frame :
      (from_str : String → Option Value) (now_ms : ℕ)
      → String
      → Session
      → Option (PartyMode T)
      → H.World
      → Step
  unfolding handle_context parse_lenient
  handle_frame from_str now_ms line s g w =
      handle_value now_ms (parse_lenient J from_str line) (counted s) g w
