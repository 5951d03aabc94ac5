-- ===== src/Session/Tests.antt =====
-- Runs of a legacy connection, and the theorems about it at concrete inputs.
use mbrc_plugin.Base.{
  String, true, ◌≡◌, refl, Option, none, some, [], ◌∷◌, string_eq, ◌==◌, All, if◌then◌else◌,
}
use mbrc_plugin.Base.Dict
use mbrc_plugin.Base.Text.{strip_prefix}
use mbrc_plugin.Json.Tree.{Tree, word, count, fields, entry, end, tree_json, tree_build}
use mbrc_plugin.Store.{Tables}
use mbrc_plugin.Store.Memory.{memory}
use mbrc_plugin.Base.Int.{pos}
use mbrc_plugin.Pairing.Label.{trim_start}
use mbrc_plugin.Permissions.{permits}
use mbrc_plugin.Permissions.Principal.{key}
use mbrc_plugin.Permissions.Roles.{role_of}
use mbrc_plugin.Permissions.Gate.{PartyMode, new_gate, check}
use mbrc_plugin.Permissions.V4.{action, names}
use mbrc_plugin.V4.Sample.{host, queries}
use mbrc_plugin.V4.Handlers.{volume, text, number}
use mbrc_plugin.V4.Dispatch.{dispatch}
use mbrc_plugin.V4.{as_int_lenient}
use mbrc_plugin.Wire.Lenient.{sanitize_ios_quotes, sanitize_ios_bare_data, parse_lenient}
use mbrc_plugin.Session.{Session, new_session, handle_frame, principal}
use mbrc_plugin.Session.Calls.{RoleAllows, handle_frame-RoleAllows}
use mbrc_plugin.Session.Protocol.{run_lines, run_lines-unnegotiated}

quotes_repaired : sanitize_ios_quotes "it\\'s" ≡ "it's"
unfolding sanitize_ios_quotes
quotes_repaired = refl

bare_data_quoted : sanitize_ios_bare_data "{\"data\":status}" ≡ some "{\"data\":\"status\"}"
unfolding sanitize_ios_bare_data strip_prefix trim_start
bare_data_quoted = refl

-- The lines that the tests send: a handshake and a set of the volume.
abbrev lines : String → Option Tree
lines s =
    if s == "protocol"
    then some (fields (entry "context" (word "protocol") (entry "data" (count 4) end)))
    else if s == "volume"
    then some (fields (entry "context" (word "playervolume") (entry "data" (count 50) end)))
    else none

abbrev table : Tables String String
table = memory String String

abbrev party : PartyMode table
party = record (new_gate table) { enabled = true }

abbrev android_session : Session
android_session = record new_session { protocol_version = some 4; client_id = some "a" }

-- A guest that sets the volume is refused, and told the volume.
guest_is_told :
    (handle_frame tree_json tree_build table host queries lines 7 "volume" android_session
      (some party)
      0).replies
    ≡ ("commandunavailable", text "") ∷ ("playervolume", number (pos 30)) ∷ []
unfolding handle_frame parse_lenient check action names as_int_lenient role_of key principal
    Dict.get volume dispatch permits
guest_is_told = refl

handle_frame-RoleAllows_example :
    All
      (RoleAllows (role_of table (principal android_session) party.roles))
      (handle_frame tree_json tree_build table host queries lines 7 "volume" android_session
        (some party)
        0).calls
handle_frame-RoleAllows_example =
    handle_frame-RoleAllows tree_json tree_build table host queries lines 7 "volume" android_session
      party 0 refl

closed_unnegotiated :
    (run_lines tree_json tree_build table host queries lines
      ((1, "volume") ∷ [])
      new_session
      (some party)
      0).session.protocol_version
    ≡ none
unfolding handle_frame parse_lenient
closed_unnegotiated = refl

run_lines-unnegotiated_example :
    ((run_lines tree_json tree_build table host queries lines
        ((1, "volume") ∷ [])
        new_session
        (some party)
        0).calls
      ≡ [])
    × ((run_lines tree_json tree_build table host queries lines
          ((1, "volume") ∷ [])
          new_session
          (some party)
          0).world
        ≡ 0)
    × ((run_lines tree_json tree_build table host queries lines
          ((1, "volume") ∷ [])
          new_session
          (some party)
          0).gate
        ≡ some party)
run_lines-unnegotiated_example =
    run_lines-unnegotiated tree_json tree_build table host queries lines ((1, "volume") ∷ [])
      new_session (some party) 0 closed_unnegotiated
