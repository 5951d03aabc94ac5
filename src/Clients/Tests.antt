-- ===== src/Clients/Tests.antt =====
-- Runs of the identity store, and the theorems about it at concrete inputs.
use mbrc_plugin.Base.{ℕ, ◌≤◌, String, not, ◌≡◌, refl, none, some, List, [], ◌∷◌, length, string_eq}
use mbrc_plugin.Base.Dict
use mbrc_plugin.Base.Dict.Rows.{retain, extend, parsed}
use mbrc_plugin.Base.Sorting.{member}
use mbrc_plugin.Base.Text.{strip_prefix}
use mbrc_plugin.Base.TextOrder.{less}
use mbrc_plugin.Store.{Tables}
use mbrc_plugin.Store.Memory.{memory}
use mbrc_plugin.Clients.{
  RecordCodec, ClientRecord, Introduction, refused, issued, identify_in, known_record, prune,
  pinned_from,
}
use mbrc_plugin.Clients.Pruned.{prune_bound}
use mbrc_plugin.Clients.Tokens.{Contact, HeldBy}
use mbrc_plugin.Clients.Kept.{
  Event, arriving, changing, Server, started, answer, run_all, answer-run_all,
}
use mbrc_plugin.Permissions.{dj, guest}
use mbrc_plugin.Permissions.Principal.{app, browser, key}
use mbrc_plugin.Permissions.Roles.{open_roles, assign}
use mbrc_plugin.Permissions.Roles.Restart.{RoleChange, assigning, apply, run}
use mbrc_plugin.Store.Ordered.{OrderedTables}
use mbrc_plugin.Store.Ordered.Memory.{ordered_memory}
use mbrc_plugin.Base.Order.{text_order}

abbrev plain : RecordCodec ClientRecord
plain = record { encode = λ r. r; decode = λ r. some r; decode-encode = λ r. refl }

abbrev table : Tables String ClientRecord
table = memory String ClientRecord

abbrev phone : Introduction
phone = record { name = some "phone"; client_type = "android"; address = none }

abbrev seen_at : ℕ → String → ClientRecord
seen_at at token = record {
  token_hash = token;
  first_seen_ms = at;
  last_seen_ms = at;
  name = "phone";
  client_type = "android";
  address = "";
}

abbrev held : table.Table
held = table.insert "a" (seen_at 1 "t") table.new

-- A first contact is issued the fresh token, and comes back with it.
first_contact : (identify_in plain table (λ s. s) "t" [] 5 "a" none phone table.new).0 ≡ issued "t"
unfolding identify_in known_record Dict.get
first_contact = refl

pinned_apps_of_rows : pinned_from (("app:a", "dj") ∷ ("browser:b", "host") ∷ []) ≡ "a" ∷ []
unfolding pinned_from strip_prefix less
pinned_apps_of_rows = refl

abbrev intruder : Contact
intruder = record {
  fresh_token = "x";
  now = 9;
  client_id = "a";
  token = some "wrong";
  about = phone;
}

held-HeldBy : HeldBy plain table (λ s. s) "a" "t" held
unfolding known_record Dict.get Dict.insert
held-HeldBy = (seen_at 1 "t", refl, refl)

abbrev roles_table : OrderedTables String String
roles_table = ordered_memory String String

-- The host gives the app a role, an intruder comes, and the host gives a role to someone else.
abbrev granted : List RoleChange
granted = assigning (app "a") dj ∷ []

abbrev happened : List Event
happened = arriving intruder ∷ changing (assigning (browser "b") guest) ∷ []

abbrev empty_roles : roles_table.Table
unfolding ordered_memory
empty_roles = ([], tt)

abbrev server : Server plain table (λ s. s) roles_table
server = started plain table (λ s. s) roles_table granted empty_roles held

answer-run_all_example :
    (answer plain table
      (λ s. s)
      roles_table
      empty_roles
      intruder
      (run_all plain table (λ s. s) roles_table empty_roles happened server)).0
    ≡ refused
unfolding ordered_memory Dict.get Dict.insert extend parsed apply run open_roles assign key
answer-run_all_example =
    answer-run_all plain table (λ s. s) roles_table empty_roles granted held "a" "t" happened
      intruder refl held-HeldBy (refl, (refl, refl))

prune_bound_example :
    length (retain (λ id. not (member id [])) (table.rows (prune plain table [] 7 held))) ≤ 200
prune_bound_example = prune_bound plain table [] 7 held
