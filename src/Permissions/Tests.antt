-- ===== src/Permissions/Tests.antt =====
-- Runs of the Party Mode definitions, and the theorems at concrete inputs.
use mbrc_plugin.Base.{
  String, ◌≡◌, ◌≢◌, refl, true, some, none, [], ◌∷◌, arith, string_eq, List, ◌↔◌,
}
use mbrc_plugin.Json.Sample.{Sample, fields, word, words, sample_json}
use mbrc_plugin.Store.{Tables}
use mbrc_plugin.Store.Memory.{memory}
use mbrc_plugin.Permissions.{guest, host, dj, change, playback, permits, queue_action}
use mbrc_plugin.Permissions.Principal.{
  app, browser, legacy_device, anonymous, key, role_parse, role_as_str,
}
use mbrc_plugin.Permissions.Keys.{role_parse_iff}
use mbrc_plugin.Permissions.Roles.{new_roles, role_of, open_roles}
use mbrc_plugin.Permissions.Roles.Restart.{
  role_of-restart, assigning, unassigning_browsers, RoleChange,
}
use mbrc_plugin.Permissions.V6.{action, one_of, placement}
use mbrc_plugin.Permissions.Gate.{
  PartyMode, new_gate, set_enabled, check, permissions, saw_legacy_device,
}
use mbrc_plugin.Permissions.Gate.Bounds.{step, switching, seeing}
use mbrc_plugin.Permissions.Gate.Bounds
use mbrc_plugin.Permissions.Roles.Restart
use mbrc_plugin.Permissions.Gate.Decisions.{check_iff_covers, covers}
use mbrc_plugin.Permissions.Gate.Changes.{permissions-step}

abbrev table : Tables String String
table = memory String String

abbrev party : PartyMode table
party = set_enabled table true (new_gate table)

abbrev append_one : Sample
append_one = fields (("mode", word "last") ∷ ("paths", words ("a.mp3" ∷ [])) ∷ [])

party_is_on : party.enabled ≡ true
unfolding set_enabled
party_is_on = refl

append_passes :
    (check table anonymous "now_playing_queue"
      (action sample_json "now_playing_queue" append_one)
      "phone"
      7
      party).0
    ≡ none
unfolding check action set_enabled permits role_of key one_of queue_action placement
append_passes = refl

skip_is_refused :
    (check table anonymous "player_next" (some (change playback)) "phone" 7 party).0 ≢ none
unfolding check set_enabled permits role_of key
skip_is_refused h = cc

role_parse_iff_example : (role_parse "dj" ≡ some dj) ↔ (role_as_str dj ≡ "dj")
role_parse_iff_example = role_parse_iff "dj" dj

app_ne_legacy : app "x" ≢ legacy_device "x"
app_ne_legacy e = cc

abbrev evening : List RoleChange
evening = assigning (app "a") host ∷ assigning (browser "b") dj ∷ unassigning_browsers ∷ []

role_of-restart_example :
    let s = Restart.run table evening (open_roles table (table.new) (new_roles table)) in
    (t' : table.Table) × (s.db ≡ some t')
    × (role_of table (app "a") (open_roles table t' (new_roles table)) ≡ role_of table (app "a") s)
role_of-restart_example = role_of-restart table (table.new) evening (app "a")

check_iff_covers_example :
    ((check table anonymous "player_next" (some (change playback)) "phone" 7 party).0 ≡ none)
    ↔ (covers (permissions table anonymous party) (change playback) ≡ true)
check_iff_covers_example =
    check_iff_covers table anonymous "player_next" "phone" (change playback) 7 party

anonymous_is_guest : role_of table anonymous party.roles ≡ guest
unfolding role_of key
anonymous_is_guest = refl

run-IsBounded_example :
    Bounds.IsBounded table
      (Bounds.run table (switching true ∷ seeing "x" "10.0.0.1" 5 ∷ []) (new_gate table))
run-IsBounded_example = Bounds.run-IsBounded table (switching true ∷ seeing "x" "10.0.0.1" 5 ∷ [])

permissions-step_example :
    permissions table anonymous (step table (seeing "x" "10.0.0.1" 5) party)
    ≡ permissions table anonymous party
unfolding set_enabled saw_legacy_device step
permissions-step_example =
    permissions-step table (seeing "x" "10.0.0.1" 5) anonymous party (omega arith) refl
