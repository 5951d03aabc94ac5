-- ===== src/Pairing/Browsers/Tests.antt =====
-- Runs of the paired browsers, and their theorems at concrete inputs.
use mbrc_plugin.Base.{String, ◌≡◌, refl, none, some, List, [], ◌∷◌, if◌then◌else◌, ◌==◌, string_eq}
use mbrc_plugin.Base.Dict
use mbrc_plugin.Store.{Tables}
use mbrc_plugin.Store.Memory.{memory}
use mbrc_plugin.Permissions.{host}
use mbrc_plugin.Registry.{IpAddr, v4, ip_eq}
use mbrc_plugin.Pairing.{new_code_for, take_code_at, live_code, constant_time_eq, fold_differences}
use mbrc_plugin.Pairing.Browsers.{
  BrowserRecord, Browsers, open_store, load, redeem, paired_id, revoke,
}
use mbrc_plugin.Pairing.Browsers.Restart.{RowsNamed}
use mbrc_plugin.Pairing.Browsers.Run.{
  BrowserStep, showing, redeeming, step, run, opened, paired_id-restart, paired_id-revoke,
}

abbrev table : Tables String BrowserRecord
table = memory String BrowserRecord

-- Any function will do for the hash.
abbrev hash : String → String
hash token = if token == "secret" then "id1" else "id2"

abbrev address : IpAddr → String
address ip = "192.168.1.5"

abbrev phone : IpAddr
phone = v4 3_232_235_781

abbrev steps : List BrowserStep
steps =
    showing (49 ∷ 50 ∷ []) host 1_000 ∷ redeeming (49 ∷ 50 ∷ []) "Phone" phone 2_000 7 "secret" ∷ []

abbrev running : Browsers table hash address
running = run table hash address steps (opened table hash address table.new)

is_known : (paired_id table hash address "secret" none 9 running).0 ≡ some "id1"
unfolding run step open_store load redeem paired_id new_code_for take_code_at live_code
    constant_time_eq fold_differences Dict.get Dict.insert
is_known = refl

no_rows : RowsNamed (table.rows table.new)
unfolding Dict.get
no_rows k r e = cc

paired_id-restart_example :
    (t' : table.Table) × (running.db ≡ some t')
    × ((paired_id table hash address "secret" none 9 (opened table hash address t')).0
        ≡ (paired_id table hash address "secret" none 9 running).0)
paired_id-restart_example =
    paired_id-restart table hash address table.new steps "secret" none 9 no_rows

paired_id-revoke_example :
    (paired_id table hash address "secret" none 9 (revoke table hash address "id1" running).1).0 ≡ (
      if "id1" == hash "secret"
      then none
      else (paired_id table hash address "secret" none 9 running).0)
paired_id-revoke_example = paired_id-revoke table hash address "id1" "secret" none 9 running
