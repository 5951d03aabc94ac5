-- ===== src/SessionV6.antt =====
-- One V6 connection (packages/mbrc-core/src/server/session_v6.rs): its state, and what a frame does
-- to it and to what the connections share. `handle_frame` takes the JSON value that the line reads
-- as, if any, and returns the reply frames as data, before they are rendered to text; a message is
-- the text or the value that it is formatted from. The handlers behind `commands_v6::dispatch` are a
-- parameter, a function on a world of any type; so are SHA-1 and the text of an address. The clocks
-- and a random token come with each frame. The list of capabilities in the handshake's reply is the
-- same for everyone and left out; logging is not modelled.
pub mod Handle
pub mod Dispatch
pub mod Replies
pub mod Worlds
pub mod Handshake
pub mod Apps
pub mod Paired
mod Tests
use Prim.Native.String
use mbrc_plugin.Base.{
  ℕ, ◌+◌, String, Bool, true, false, not, ◌&&◌, ◌||◌, Option, none, some, List, [], ◌∷◌, leb,
  length, if◌then◌else◌, ◌==◌, string_eq, nat_eq, unwrap_or, or, is_some, ◌>>=◌,
}
use mbrc_plugin.Base.Utf8.{utf8}
use mbrc_plugin.Json.{Json, Kind, string, as_str, as_u64, as_bool}
use mbrc_plugin.Json.Build.{JsonBuild}
use mbrc_plugin.Store.{Tables}
use mbrc_plugin.Wire.V6.{
  ClientType, client_type_as_str, client_type_parse, ErrorCode, malformed_frame,
  unsupported_version, missing_field, invalid_field, unknown_op, unauthorized, not_allowed,
  forbidden, invalid_token, unavailable, RequestError, malformed, absent, invalid,
  request_error_code, request_error_id, IncomingRequest, Parsed, ok, err, parse_request,
  op_handshake, protocol_version,
}
use mbrc_plugin.Registry.{IpAddr}
use mbrc_plugin.Pairing.{Pairing, PairingRefused, Taken, granted, refused, take_code_at}
use mbrc_plugin.Permissions.{Role}
use mbrc_plugin.Permissions.Principal.{Principal, app, browser, anonymous}
use mbrc_plugin.Permissions.V6.{action}
use mbrc_plugin.Permissions.Gate.{
  PartyMode, Permissions, Message, Refusal, permissions, check, assign_role, unassign_role,
}
use mbrc_plugin.CommandsV6.{OpResult, done, fails}
use mbrc_plugin.Clients
use mbrc_plugin.Clients.{
  RecordCodec, Identity, Introduction, identify, verifies, max_client_id_len, pinned_from,
}

-- What an error message is made from.
pub data Notice : Type 0 where
  said : String → Notice
  from_gate : Message → Notice
  from_pairing : PairingRefused → Notice

-- The handshake's reply.
pub record Welcome : Type 0 where
  pub server_id : Option String
  pub server_name : Option String
  pub client_token : Option String
  pub told : Option Permissions

pub data Payload (V : Type 0) : Type 0 where
  value : V → Payload V
  welcome : Welcome → Payload V
  paired : Role → Payload V

pub data Frame (V : Type 0) : Type 0 where
  response : (id : ℕ) → Payload V → Frame V
  failed : (id : ℕ) → ErrorCode → Notice → (field : Option String) → Frame V

pub record Outcome (V : Type 0) : Type 0 where
  pub replies : List (Frame V)
  pub close : Bool

abbrev pub reply : {V : Type 0} → Frame V → Outcome V
reply f = record { replies = f ∷ []; close = false }

abbrev pub reply_and_close : {V : Type 0} → Frame V → Outcome V
reply_and_close f = record { replies = f ∷ []; close = true }

pub record ServerIdentity : Type 0 where
  pub id : Option String
  pub name : String

-- `peer` is the address in `pairing`, whose other half the connections share.
pub record V6Session : Type 0 where
  pub handshaked : Bool
  pub client_id : String
  pub client_type : Option ClientType
  pub no_broadcast : Bool
  pub frames_in : ℕ
  pub principal : Option Principal
  pub peer : Option IpAddr
  pub told : Option Permissions
  pub server : Option ServerIdentity

abbrev pub new_session : V6Session
new_session = record {
  handshaked = false;
  client_id = "";
  client_type = none;
  no_broadcast = false;
  frames_in = 0;
  principal = none;
  peer = none;
  told = none;
  server = none;
}

-- `reg_meta`: the client id, whether it is a main connection, its platform and its protocol.
pub record RegMeta : Type 0 where
  pub client_id : Option String
  pub is_main : Bool
  pub platform : Option String
  pub protocol : ℕ

unfoldable pub reg_meta : V6Session → Option RegMeta
reg_meta s =
    if s.handshaked
    then some (record {
      client_id = some s.client_id;
      is_main = not s.no_broadcast;
      platform = elim s.client_type [ none ↦ none | some c ↦ some (client_type_as_str c) ];
      protocol = protocol_version;
    })
    else none

unfoldable pub permissions_watch : V6Session → Option (Principal × Permissions)
permissions_watch s = s.principal >>= λ p. s.told >>= λ t. some (p, t)

-- The frame, and whether a rejected envelope is fatal.
abbrev pub rejection : {V : Type 0} → RequestError → Frame V
rejection malformed = failed 0 malformed_frame (said "frame is not a JSON object") none
rejection (absent id field) =
    failed id missing_field (said (String.◌++◌ "missing required field: " field)) (some field)
rejection (invalid id field) =
    failed id invalid_field (said (String.◌++◌ "invalid field: " field)) (some field)

unfoldable pub reject : {V : Type 0} → RequestError → V6Session → Outcome V
reject e s = if s.handshaked then reply (rejection e) else reply_and_close (rejection e)

unfoldable pub reject_handshake : {V : Type 0} → ErrorCode → String → Outcome V
reject_handshake unsupported_version field = reply_and_close (
    failed 0 unsupported_version
      (said (String.◌++◌ "unsupported " (String.◌++◌ field "; this server speaks 6"))) (some field))
reject_handshake missing_field field =
    reply_and_close
      (failed 0 missing_field (said (String.◌++◌ "missing required field: " field)) (some field))
reject_handshake invalid_token field = reply_and_close (
    failed 0 invalid_token
      (said (
        String.◌++◌ field
          " does not match the one issued for this client_id;                  generate a new client_id and handshake again"))
      (some field))
reject_handshake code field =
    reply_and_close (failed 0 code (said (String.◌++◌ "invalid field: " field)) (some field))

pub data Checked (A : Type 0) : Type 0 where
  good : A → Checked A
  bad : ErrorCode → Checked A

-- What comes with a frame: the clocks, and the token that a first contact would be issued.
pub record Moment : Type 0 where
  pub unix_ms : ℕ
  pub instant : ℕ
  pub fresh_token : String

abbrev pub op_frame : {V : Type 0} → ℕ → (op : String) → Option (OpResult V) → Frame V
op_frame id op none = failed id unknown_op (said (String.◌++◌ "unknown op: " op)) none
op_frame id op (some (done v)) = response id (value v)
op_frame id op (some (fails code message at)) = failed id code (said message) at
