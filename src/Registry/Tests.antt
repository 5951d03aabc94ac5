-- ===== src/Registry/Tests.antt =====
-- Runs of the registry, and its theorems at concrete inputs.
use mbrc_plugin.Base.{
  ℕ, ◌+◌, ◌-◌, ◌≤◌, ◌<◌, ◌≡◌, ◌≢◌, ◌⊎◌, refl, some, List, [], ◌∷◌, arith, length, nat_eq, string_eq,
}
use mbrc_plugin.Base.Dict
use mbrc_plugin.Base.Dict.Rows.{Distinct}
use mbrc_plugin.Base.Sorting.{member}
use mbrc_plugin.Registry.{
  IpAddr, v4, ip_eq, subscriber, auxiliary, ConnMeta, ClientEntry, Registry, evicted, rejected,
  admitted, rejected_cap, slots, admit_ip, register, record_conn, new_registry, min_evict_idle_ms,
  evictable, stalest, entry,
}
use mbrc_plugin.Registry.Eviction.{admit_ip-evicted, admit_ip-rejected}
use mbrc_plugin.Registry.Slots.{SocketStep, accepting, closing, socket_run, count, slots-socket_run}
use mbrc_plugin.Registry.Clients.{RegistryStep, registering, admitting, run, step}
use mbrc_plugin.Registry.Clients.Caps.{run-HoldsAtMost, register_superseded}

abbrev phone : IpAddr
phone = v4 3_232_235_781

-- Two sockets of one phone on its two slots: a main that takes broadcasts and a request socket.
abbrev steps : List RegistryStep
steps =
    admitting phone 0
    ∷ registering 1 phone (some "android") subscriber 101 5
    ∷ admitting phone 10
    ∷ registering 2 phone (some "android") auxiliary 102 20
    ∷ []

abbrev full : Registry
full = run steps (new_registry 2 2)

distinct : Distinct full.conns
unfolding run step admit_ip register record_conn new_registry Dict.get Dict.insert member
distinct = (refl, (refl, tt))

evicts_the_request_socket : (admit_ip phone 10_020 full).0 ≡ evicted 2
unfolding run step admit_ip register record_conn new_registry Dict.get Dict.insert evictable stalest
    member
evicts_the_request_socket = refl

keeps_a_busy_socket : (admit_ip phone 10_019 full).0 ≡ rejected
unfolding run step admit_ip register record_conn new_registry Dict.get Dict.insert evictable stalest
    member
keeps_a_busy_socket = refl

admit_ip-evicted_example :
    (m : ConnMeta) × (Dict.get 2 full.conns ≡ some m)
    × (m.ip ≡ phone)
    × (m.role ≡ auxiliary)
    × (min_evict_idle_ms ≤ 10_020 - m.last_active_ms)
    × ((admit_ip phone 10_020 full).1.notified ≡ m.shutdown ∷ full.notified)
    × ((d : ℕ) (n : ConnMeta)
        → Dict.get d full.conns ≡ some n
        → n.ip ≡ phone
        → n.role ≡ auxiliary
        → min_evict_idle_ms ≤ 10_020 - n.last_active_ms
        → m.last_active_ms ≤ n.last_active_ms)
admit_ip-evicted_example = admit_ip-evicted phone 10_020 full 2 distinct evicts_the_request_socket

admit_ip-rejected_example :
    (full.max_conns_per_ip ≤ slots phone full)
    × ((admit_ip phone 10_019 full).1.notified ≡ full.notified)
    × ((d : ℕ) (n : ConnMeta)
        → Dict.get d full.conns ≡ some n
        → n.ip ≡ phone
        → (n.role ≡ subscriber) ⊎ (10_019 - n.last_active_ms < min_evict_idle_ms))
admit_ip-rejected_example = admit_ip-rejected phone 10_019 full distinct keeps_a_busy_socket

abbrev sockets : List SocketStep
sockets = accepting phone 0 ∷ accepting phone 1 ∷ accepting phone 2 ∷ closing phone ∷ []

slots-socket_run_example :
    (slots phone (socket_run sockets ([], new_registry 2 2)).1
      ≡ count phone (socket_run sockets ([], new_registry 2 2)).0)
    × (slots phone (socket_run sockets ([], new_registry 2 2)).1
        ≤ 2 + (socket_run sockets ([], new_registry 2 2)).1.evicted_total)
slots-socket_run_example = slots-socket_run 2 2 sockets phone refl

abbrev android : ClientEntry
android = record { conns = 2 ∷ 1 ∷ []; main = some 1 }

android_entry : Dict.get "android" full.by_client ≡ some android
unfolding run step admit_ip register record_conn new_registry Dict.get Dict.insert member
android_entry = refl

run-HoldsAtMost_example : length android.conns ≤ 2
run-HoldsAtMost_example = run-HoldsAtMost 2 2 steps "android" android refl android_entry

abbrev roomy : Registry
roomy = run steps (new_registry 20 2)

roomy_main : (entry "android" roomy).main ≡ some 1
unfolding run step admit_ip register record_conn new_registry Dict.get Dict.insert member
roomy_main = refl

roomy_handle : Dict.get 1 roomy.shutdown ≡ some 101
unfolding run step admit_ip register record_conn new_registry Dict.get Dict.insert member
roomy_handle = refl

roomy_admits : (register 3 phone (some "android") subscriber 103 30 roomy).0 ≡ admitted
unfolding run step admit_ip register record_conn new_registry Dict.get Dict.insert member
roomy_admits = refl

one_is_not_three : ◌≢◌ {A = ℕ} 1 3
one_is_not_three = ground arith

register_superseded_example :
    ((register 3 phone (some "android") subscriber 103 30 roomy).1.notified ≡ 101 ∷ roomy.notified)
    × ((entry "android" (register 3 phone (some "android") subscriber 103 30 roomy).1).main
        ≡ some 3)
register_superseded_example =
    register_superseded 3 phone "android" 103 30 1 101 roomy roomy_main one_is_not_three
      roomy_handle roomy_admits

full_refuses : (register 3 phone (some "android") subscriber 103 30 full).0 ≡ rejected_cap
unfolding run step admit_ip register record_conn new_registry Dict.get Dict.insert member
full_refuses = refl
