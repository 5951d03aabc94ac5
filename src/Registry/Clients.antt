-- ===== src/Registry/Clients.antt =====
-- The sockets of one client id: the cap on them, and the one main that takes broadcasts.
pub mod Mains
pub mod Caps
use mbrc_plugin.Base.{
  ℕ, String, Bool, true, false, not, ◌&&◌, ◌||◌, ◌≡◌, refl, sym, Option, none, some, List, [], ◌∷◌,
  arith, leb, length, if◌then◌else◌, ◌==◌, nat_eq, string_eq, inl, inr, Option-cases,
}
use mbrc_plugin.Base.Dict
use mbrc_plugin.Base.Dict.{get-insert, get-remove}
use mbrc_plugin.Base.Sorting.{member}
use mbrc_plugin.Registry.{
  IpAddr, ip_eq, is_loopback, Role, is_subscriber, ClientEntry, Registry, set_insert, set_remove,
  entry, record_conn, supersede, register, unregister, leave, is_none_left, admit_ip, touch,
  release_ip,
}

by_client-supersede :
    (conn : ℕ) (o : Option ℕ) (s : Registry) → (supersede conn o s).by_client ≡ s.by_client
by_client-supersede conn none s = refl
by_client-supersede conn (some old) s = ground arith

pub cap-supersede :
    (conn : ℕ) (o : Option ℕ) (s : Registry)
    → (supersede conn o s).max_conns_per_client ≡ s.max_conns_per_client
cap-supersede conn none s = refl
cap-supersede conn (some old) s = ground arith

-- The entry that a registration leaves its client id with.
abbrev pub joined : ℕ → Role → ClientEntry → ClientEntry
joined conn role e = record {
  conns = set_insert conn e.conns;
  main = if is_subscriber role then some conn else e.main;
}

-- What a registration does to the client ids, on every branch.
abbrev pub refuses : IpAddr → String → Registry → Bool
refuses ip client s =
    not (is_loopback ip) && leb s.max_conns_per_client (length (entry client s).conns)

pub register_client :
    (conn : ℕ) (ip : IpAddr) (client : String) (role : Role) (shutdown now : ℕ) (s : Registry)
    (other : String)
    → Dict.get other (register conn ip (some client) role shutdown now s).1.by_client ≡ (
        if client == other
        then (if refuses ip client s
            then some (entry client s)
            else some (joined conn role (entry client s)))
        else Dict.get other s.by_client)
unfolding register record_conn
register_client conn ip client role shutdown now s other = ground (
  arith,
  get-insert other client (entry client s) s.by_client,
  get-insert other client (joined conn role (entry client s)) s.by_client,
  by_client-supersede conn (if is_subscriber role then (entry client s).main else none) (
      record_conn conn ip role now shutdown (record s {
        by_client = Dict.insert client (joined conn role (entry client s)) s.by_client;
      })),
)

pub register_ungrouped :
    (conn : ℕ) (ip : IpAddr) (role : Role) (shutdown now : ℕ) (s : Registry)
    → (register conn ip none role shutdown now s).1.by_client ≡ s.by_client
unfolding register record_conn
register_ungrouped conn ip role shutdown now s = refl

pub unregister_client :
    (conn : ℕ) (client : String) (s : Registry) (other : String)
    → Dict.get other (unregister conn (some client) s).by_client ≡ (
        if client == other
        then elim (Dict.get client s.by_client) [
          | none ↦ none
          | some e ↦ if is_none_left (leave conn e).conns then none else some (leave conn e)
        ]
        else Dict.get other s.by_client)
unfolding unregister
unregister_client conn client s other = elim (Option-cases (Dict.get client s.by_client)) [
  | inl absent ↦ rw absent (ground (arith, absent, string_eq.same_iff client other))
  | inr (e, found) ↦ rw found (
      ground (
        arith,
        get-insert other client (leave conn e) s.by_client,
        get-remove other client s.by_client,
      ))
]

pub unregister_ungrouped :
    (conn : ℕ) (s : Registry) → (unregister conn none s).by_client ≡ s.by_client
unfolding unregister
unregister_ungrouped conn s = refl

-- What the server does to the registry.
pub data RegistryStep : Type 0 where
  admitting : (ip : IpAddr) (now : ℕ) → RegistryStep
  touching : (conn now : ℕ) → RegistryStep
  releasing : (ip : IpAddr) → RegistryStep
  registering : (conn : ℕ) (ip : IpAddr) → Option String → Role → (shutdown now : ℕ) → RegistryStep
  unregistering : (conn : ℕ) → Option String → RegistryStep

-- Whether the step names a client id.
abbrev pub is_client_step : RegistryStep → Bool
is_client_step (registering conn ip (some client) role shutdown now) = true
is_client_step (unregistering conn (some client)) = true
is_client_step _ = false

unfoldable pub step : RegistryStep → Registry → Registry
step (admitting ip now) s = (admit_ip ip now s).1
step (touching conn now) s = touch conn now s
step (releasing ip) s = release_ip ip s
step (registering conn ip client role shutdown now) s =
    (register conn ip client role shutdown now s).1
step (unregistering conn client) s = unregister conn client s

unfoldable pub run : List RegistryStep → Registry → Registry
run [] s = s
run (c ∷ cs) s = run cs (step c s)

-- What else changes leaves the client ids alone.
pub other_client :
    (c : RegistryStep) (s : Registry)
    → is_client_step c ≡ false
    → (step c s).by_client ≡ s.by_client
unfolding step admit_ip touch release_ip register record_conn unregister
other_client (admitting ip now) s h = ground arith
other_client (touching conn now) s h = ground arith
other_client (releasing ip) s h = ground arith
other_client (registering conn ip none role shutdown now) s h = refl
other_client (registering conn ip (some client) role shutdown now) s h = cc
other_client (unregistering conn none) s h = refl
other_client (unregistering conn (some client)) s h = cc

pub cap-step :
    (c : RegistryStep) (s : Registry) → (step c s).max_conns_per_client ≡ s.max_conns_per_client
unfolding step admit_ip touch release_ip register record_conn unregister
cap-step (admitting ip now) s = ground arith
cap-step (touching conn now) s = ground arith
cap-step (releasing ip) s = ground arith
cap-step (registering conn ip none role shutdown now) s = refl
cap-step (registering conn ip (some client) role shutdown now) s = ground (
  arith,
  cap-supersede conn (if is_subscriber role then (entry client s).main else none) (
      record_conn conn ip role now shutdown (record s {
        by_client = Dict.insert client (joined conn role (entry client s)) s.by_client;
      })),
)
cap-step (unregistering conn none) s = refl
cap-step (unregistering conn (some client)) s = ground arith
