-- ===== src/SessionV6/Tests.antt =====
-- Runs of a V6 connection, and the theorems about it at concrete inputs.
use mbrc_plugin.Base.{ℕ, ◌+◌, String, true, false, ◌≡◌, refl, none, some, [], ◌∷◌, string_eq, ◌⊎◌}
use mbrc_plugin.Base.Dict
use mbrc_plugin.Base.Utf8.{utf8}
use mbrc_plugin.Json.Tree.{Tree, nothing, word, count, fields, entry, end, tree_json, tree_build}
use mbrc_plugin.Store.Memory.{memory}
use mbrc_plugin.Registry.{v4}
use mbrc_plugin.Pairing.{new_pairing, take_code_at, live_code, constant_time_eq, fold_differences}
use mbrc_plugin.Permissions.{dj, guest}
use mbrc_plugin.Permissions.Principal.{app, key}
use mbrc_plugin.Permissions.Roles.{role_of}
use mbrc_plugin.Permissions.Gate.{PartyMode, new_gate}
use mbrc_plugin.Clients.{ClientRecord, identify, identify_in, known_record}
use mbrc_plugin.Wire.V6.{
  request, response_ok, error_frame, parse_request, parse_response, IncomingRequest, ok, success,
  failure, not_found, client_type_parse, error_code_as_str,
}
use mbrc_plugin.Wire.V6.Envelope.{parse_request-request, parse_response-response}
use mbrc_plugin.SessionV6.{V6Session, new_session, Moment, response, paired}
use mbrc_plugin.SessionV6.Handle.{Environment, Shared, accept}
use mbrc_plugin.SessionV6.Dispatch.{handle_frame, dispatch_op, counted}
use mbrc_plugin.SessionV6.Replies.{AnswersOnce, answer_id, handle_frame-AnswersOnce}
use mbrc_plugin.SessionV6.Worlds.{RanFor, AsksAsGuest, handle_frame-world, handle_frame-guest}
use mbrc_plugin.SessionV6.Handshake.{handle_frame-fixed, handle_frame-DoesNothing}
use mbrc_plugin.SessionV6.Apps.{Proves, handle_frame-app}
use mbrc_plugin.SessionV6.Paired.{IsGranted, dispatch_op-paired}
use mbrc_plugin.CommandsV6.{done}
use mbrc_plugin.Store.Ordered.Memory.{ordered_memory}
use mbrc_plugin.Base.Order.{text_order}

abbrev env : Environment
env = record {
  json = tree_json;
  build = tree_build;
  roles = (ordered_memory String String).tables;
  roles_ascend = (ordered_memory String String).rows_ascend;
  Stored = ClientRecord;
  codec = record { encode = λ r. r; decode = λ r. some r; decode-encode = λ r. refl };
  identities = memory String ClientRecord;
  hash = λ s. s;
  show_ip = λ ip. "10.0.0.2";
  World = ℕ;
  dispatch = λ op v w. (some (done nothing), w + 1);
}

abbrev party : PartyMode env.roles
party = record (new_gate env.roles) { enabled = true }

-- A server in Party Mode that shows the code "12" for a DJ.
abbrev server : Shared env
server = record {
  gate = some party;
  party_roles = env.roles.new;
  pairing = some (record new_pairing {
    code = some (record { code = 49 ∷ 50 ∷ []; issued = 0; role = dj; wrong = 0 });
  });
  clients = some (some env.identities.new);
  world = 0;
}

abbrev now : Moment
now = record { unix_ms = 7; instant = 7; fresh_token = "t" }

abbrev hello : Tree
hello = fields (
    entry "id" (count 0) (
      entry "kind" (word "request") (
        entry "op" (word "handshake") (
          entry "data"
            (fields (
              entry "protocol_version" (count 6)
                (entry "client_id" (word "a") (entry "client_type" (word "cli") end))))
            end))))

abbrev asks : String → Tree → Tree
asks op v = fields (
    entry "id" (count 3)
      (entry "kind" (word "request") (entry "op" (word op) (entry "data" v end))))

abbrev app_session : V6Session
app_session = record new_session {
  handshaked = true;
  client_id = "a";
  principal = some (app "a");
  peer = some (v4 3);
}

handshake_completes :
    (handle_frame env (some hello) now new_session server).session.principal ≡ some (app "a")
unfolding handle_frame parse_request accept identify identify_in known_record Dict.get
    client_type_parse utf8
handshake_completes = refl

handshake_issues : (handle_frame env (some hello) now new_session server).session.handshaked ≡ true
unfolding handle_frame parse_request accept identify identify_in known_record Dict.get
    client_type_parse utf8
handshake_issues = refl

parse_request-request_example :
    parse_request tree_json tree_build (some (request tree_json tree_build 4 "ping" nothing))
    ≡ ok (record { id = 4; op = "ping"; payload = nothing })
parse_request-request_example = parse_request-request tree_json tree_build 4 "ping" nothing

parse_response-response_example :
    (parse_response tree_json tree_build (some (response_ok tree_json tree_build 4 (word "x")))
      ≡ some (record { id = 4; result = success (word "x") }))
    × (parse_response tree_json tree_build
          (some (error_frame tree_json tree_build 4 not_found "gone" none))
        ≡ some (record {
          id = 4;
          result =
              failure
                (record { code = error_code_as_str not_found; message = "gone"; field = none });
        }))
parse_response-response_example =
    parse_response-response tree_json tree_build 4 (word "x") not_found "gone" none

handle_frame-AnswersOnce_example :
    AnswersOnce env
      (answer_id (parse_request tree_json tree_build (some hello)) false)
      (handle_frame env (some hello) now new_session server)
handle_frame-AnswersOnce_example = handle_frame-AnswersOnce env (some hello) now new_session server

handle_frame-world_example :
    ((handle_frame env (some (asks "player_next" nothing)) now app_session server).shared.world ≡ 0)
    ⊎ RanFor env
        (parse_request tree_json tree_build (some (asks "player_next" nothing)))
        now
        (counted env app_session)
        server
        (handle_frame env (some (asks "player_next" nothing)) now app_session server).shared
handle_frame-world_example =
    handle_frame-world env (some (asks "player_next" nothing)) now app_session server

guest_by_default : role_of env.roles (app "a") party.roles ≡ guest
unfolding role_of key Dict.get
guest_by_default = refl

handle_frame-guest_example :
    ((handle_frame env (some (asks "player_next" nothing)) now app_session server).shared.world ≡ 0)
    ⊎ AsksAsGuest env (parse_request tree_json tree_build (some (asks "player_next" nothing)))
handle_frame-guest_example =
    handle_frame-guest env (some (asks "player_next" nothing)) now app_session party server refl
      refl guest_by_default

handle_frame-fixed_example :
    (handle_frame env (some hello) now app_session server).session ≡ counted env app_session
handle_frame-fixed_example = handle_frame-fixed env (some hello) now app_session server refl

closed_without_handshake :
    (handle_frame env (some (asks "player_next" nothing)) now new_session server).session.handshaked
    ≡ false
unfolding handle_frame parse_request
closed_without_handshake = refl

handle_frame-DoesNothing_example :
    ((handle_frame env (some (asks "player_next" nothing)) now new_session server).session
      ≡ counted env new_session)
    × ((handle_frame env (some (asks "player_next" nothing)) now new_session server).shared
        ≡ server)
handle_frame-DoesNothing_example =
    handle_frame-DoesNothing env (some (asks "player_next" nothing)) now new_session server
      closed_without_handshake

handle_frame-app_example :
    Proves env
      (parse_request tree_json tree_build (some hello))
      "a"
      server
      (handle_frame env (some hello) now new_session server).shared
handle_frame-app_example =
    handle_frame-app env (some hello) "a" now new_session server refl handshake_completes

abbrev offer : IncomingRequest Tree
offer = record { id = 3; op = "pair"; payload = fields (entry "code" (word "12") end) }

offer_is_granted : (dispatch_op env offer now app_session server).0 ≡ response 3 (paired dj)
unfolding dispatch_op take_code_at live_code constant_time_eq fold_differences Dict.get utf8
offer_is_granted = refl

dispatch_op-paired_example :
    (client : String) × (some (app "a") ≡ some (app client))
    × IsGranted env client dj now app_session server
        (dispatch_op env offer now app_session server).1
dispatch_op-paired_example =
    dispatch_op-paired env offer 3 dj now app_session server offer_is_granted
