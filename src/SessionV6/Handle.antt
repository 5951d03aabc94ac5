-- ===== src/SessionV6/Handle.antt =====
-- The handshake of a V6 connection (packages/mbrc-core/src/server/session_v6.rs), and what the
-- connections share.
use mbrc_plugin.Base.{
  String, Bool, true, false, Option, none, some, List, leb, length, if◌then◌else◌, ◌==◌, string_eq,
  nat_eq, unwrap_or, or, ◌>>=◌,
}
use mbrc_plugin.Base.Utf8.{utf8}
use mbrc_plugin.Json.{Json, string, as_str, as_u64, as_bool}
use mbrc_plugin.Json.Build.{JsonBuild}
use mbrc_plugin.Store.{Tables}
use mbrc_plugin.Wire.V6.{
  ClientType, client_type_as_str, client_type_parse, ErrorCode, unsupported_version, missing_field,
  invalid_field, invalid_token, protocol_version,
}
use mbrc_plugin.Registry.{IpAddr}
use mbrc_plugin.Pairing.{Pairing}
use mbrc_plugin.Permissions.Principal.{Principal, app, anonymous}
use mbrc_plugin.Permissions.Gate.{PartyMode, Permissions, permissions, unassign_role}
use mbrc_plugin.Clients
use mbrc_plugin.Clients.{RecordCodec, Identity, Introduction, identify, verifies, pinned_apps}
use mbrc_plugin.SessionV6.{
  welcome, response, Outcome, reply, V6Session, reject_handshake, Checked, good, bad, Moment,
}
use mbrc_plugin.CommandsV6.{OpResult}
use mbrc_plugin.Store.Ordered.{HasAscendingKeys}
use mbrc_plugin.Base.Order.{text_order}

-- Everything the model is about and does not read: the JSON library, the tables, the record
-- encoding, SHA-1, the text of an address, and the handlers with the world they act on.
pub record Environment : Type 1 where
  pub json : Json
  pub build : JsonBuild json
  pub roles : Tables String String
  pub roles_ascend : (t : roles.Table) → HasAscendingKeys (roles.rows t)
  pub Stored : Type 0
  pub codec : RecordCodec Stored
  pub identities : Tables String Stored
  pub hash : String → String
  pub show_ip : IpAddr → String
  pub World : Type 0
  pub dispatch : String → json.Value → World → Option (OpResult json.Value) × World

module _ (E : Environment) where
  open E use {json, build, roles, codec, identities, hash, show_ip, World, dispatch}
  open json use {Value, kind, field}

  -- What the connections share. `clients` is absent in tests, and without a table where the
  -- database is not active. `party_roles` is the table of roles of that database as it stands where
  -- no gate has it attached; a gate that has holds it itself.
  pub record Shared : Type 0 where
    pub gate : Option (PartyMode roles)
    pub party_roles : roles.Table
    pub pairing : Option Pairing
    pub clients : Option (Option identities.Table)
    pub world : World

  pub record Step : Type 0 where
    pub session : V6Session
    pub shared : Shared
    pub outcome : Outcome Value

  -- The apps with a role, from the table of roles in the same database.
  abbrev pub pinned_now : Option (PartyMode roles) → roles.Table → List String
  pinned_now none stored = pinned_apps roles stored
  pinned_now (some g) stored = pinned_apps roles (unwrap_or g.roles.db stored)

  abbrev pub check_version : Option Value → Option ErrorCode
  check_version none = some missing_field
  check_version (some v) = elim (as_u64 json v) [
    | none ↦ some invalid_field
    | some n ↦ if n == protocol_version then none else some unsupported_version
  ]

  abbrev pub check_client_id : Option Value → Checked String
  check_client_id none = bad missing_field
  check_client_id (some v) = elim (kind v) [
    | string s ↦
        if s == ""
        then bad invalid_field
        else if leb (length (utf8 s)) Clients.max_client_id_len
        then good s
        else bad invalid_field
    | _ ↦ bad invalid_field
  ]

  abbrev pub check_client_type : Option Value → Checked ClientType
  check_client_type none = bad missing_field
  check_client_type (some v) = elim (kind v) [
    | string s ↦ elim (client_type_parse s) [ none ↦ bad invalid_field | some c ↦ good c ]
    | _ ↦ bad invalid_field
  ]

  -- Who the connection is, unless the transport knew.
  abbrev pub settled : (proven : Bool) → String → V6Session → Principal
  settled proven id s = unwrap_or s.principal (if proven then app id else anonymous)

  -- A first contact starts without a role.
  abbrev pub drop_role :
      (issued : Option String) → String → Option (PartyMode roles) → Option (PartyMode roles)
  drop_role none id gate = gate
  drop_role (some token) id none = none
  drop_role (some token) id (some g) = some (unassign_role roles (app id) g)

  abbrev pub told_by : Principal → Option (PartyMode roles) → Option Permissions
  told_by p none = none
  told_by p (some g) = some (permissions roles p g)

  -- The session after an accepted handshake, and the reply.
  unfoldable pub accept :
      (issued : Option String) (proven : Bool)
      → String
      → ClientType
      → (no_broadcast : Bool) → V6Session
      → Shared
      → Step
  accept issued proven id ct no_broadcast s sh =
      let p = settled proven id s in
      let gate' = drop_role issued id sh.gate in
      let told' = told_by p gate' in
      record {
        session = record s {
          handshaked = true;
          client_id = id;
          client_type = some ct;
          no_broadcast = no_broadcast;
          principal = some p;
          told = or told' s.told;
        };
        shared = record sh { gate = gate' };
        outcome = reply (
            response 0 (
              welcome (record {
                server_id = s.server >>= λ server. server.id;
                server_name = s.server >>= λ server. some server.name;
                client_token = issued;
                told = told';
              })));
      }

  abbrev pub introduction : Value → ClientType → V6Session → Introduction
  introduction v ct s = record {
    name = field v "client_name" >>= as_str json;
    client_type = client_type_as_str ct;
    address = s.peer >>= λ ip. some (show_ip ip);
  }

  abbrev pub with_clients : Shared → Option identities.Table → Shared
  with_clients sh table = record sh { clients = some table }

  -- What follows the answer of `identify`.
  abbrev pub answered :
      Identity
      → (proven : Bool) → String
      → ClientType
      → (no_broadcast : Bool) → V6Session
      → Shared
      → Step
  answered Clients.refused proven id ct nb s sh = record {
    session = s;
    shared = sh;
    outcome = reject_handshake invalid_token "client_token";
  }
  answered (Clients.issued token) proven id ct nb s sh = accept (some token) proven id ct nb s sh
  answered Clients.known proven id ct nb s sh = accept none proven id ct nb s sh

  -- The answer of `identify` and the table after it.
  abbrev pub identified :
      String
      → ClientType
      → Value
      → Moment
      → V6Session
      → Shared
      → Option identities.Table
      → Identity × Option identities.Table
  identified id ct v m s sh table =
      identify codec identities hash m.fresh_token (pinned_now sh.gate sh.party_roles) m.unix_ms id
        (field v "client_token" >>= as_str json) (introduction v ct s) table

  -- The check of the identity, once the three required fields are read.
  abbrev pub settle_with :
      Option (Option identities.Table)
      → String
      → ClientType
      → (no_broadcast : Bool) → Value
      → Moment
      → V6Session
      → Shared
      → Step
  settle_with none id ct nb v m s sh = accept none false id ct nb s sh
  settle_with (some table) id ct nb v m s sh =
      let (answer, table') = identified id ct v m s sh table in
      answered answer (verifies codec identities table) id ct nb s (with_clients sh table')

  unfoldable pub settle : String → ClientType → Value → (m : Moment) → V6Session → Shared → Step
  unfolding accept
  settle id ct v m s sh =
      let nb = unwrap_or (field v "no_broadcast" >>= as_bool json) false in
      settle_with sh.clients id ct nb v m s sh

  abbrev pub rejected : ErrorCode → String → V6Session → Shared → Step
  rejected code at s sh = record { session = s; shared = sh; outcome = reject_handshake code at }

  -- The three required fields in the order they are looked at.
  abbrev pub checked_handshake :
      Option ErrorCode
      → Checked String
      → Checked ClientType
      → Value
      → Moment
      → V6Session
      → Shared
      → Step
  checked_handshake (some code) id ct v m s sh = rejected code "protocol_version" s sh
  checked_handshake none (bad code) ct v m s sh = rejected code "client_id" s sh
  checked_handshake none (good id) (bad code) v m s sh = rejected code "client_type" s sh
  checked_handshake none (good id) (good ct) v m s sh = settle id ct v m s sh

  unfoldable pub handle_handshake : Value → Moment → V6Session → Shared → Step
  unfolding settle
  handle_handshake v m s sh =
      checked_handshake (check_version (field v "protocol_version"))
        (check_client_id (field v "client_id")) (check_client_type (field v "client_type")) v m s sh
