-- ===== src/Registry/Clients/Caps.antt =====
-- The cap on the sockets of one client id, and what a registration wakes.
use mbrc_plugin.Base.{
  ℕ, ◌+◌, ◌≤◌, String, Bool, true, false, not, ◌≡◌, ◌≢◌, refl, sym, Option, none, some, List, [],
  ◌∷◌, arith, length, if◌then◌else◌, nat_eq, string_eq, inl, inr, Option-cases, Bool-cases, ◌∙◌,
  all,
}
use mathlib.Core.Path.{subst}
use mbrc_plugin.Base.Dict
use mbrc_plugin.Base.Dict.{get-insert, get-remove}
use mbrc_plugin.Registry.{
  IpAddr, ip_eq, is_loopback, Role, subscriber, is_subscriber, ClientEntry, Registry, admitted,
  rejected_cap, new_registry, set_insert, set_remove, entry, record_conn, supersede, register,
}
use mbrc_plugin.Registry.Clients.{
  joined, refuses, register_client, RegistryStep, registering, unregistering, admitting, touching,
  releasing, step, run, cap-step,
}
use mbrc_plugin.Registry.Clients.Mains.{
  EveryClient, unchanged, register-EveryClient, unregister-EveryClient, new-EveryClient,
}

-- The peers of the step's registration, if it is one, are on other machines.
abbrev pub is_remote : RegistryStep → Bool
is_remote (registering conn ip client role shutdown now) = not (is_loopback ip)
is_remote _ = true

abbrev pub HoldsAtMost : ℕ → ClientEntry → Type 0
HoldsAtMost n e = length e.conns ≤ n

length-set_insert : (c : ℕ) (cs : List ℕ) → length (set_insert c cs) ≤ length cs + 1
length-set_insert c cs = ground arith

length-set_remove : (c : ℕ) (cs : List ℕ) → length (set_remove c cs) ≤ length cs
unfolding set_remove
length-set_remove c [] = omega arith
length-set_remove c (d ∷ ds) = ground (arith, length-set_remove c ds)

entry-HoldsAtMost :
    (n : ℕ) (client : String) (s : Registry)
    → EveryClient (HoldsAtMost n) s
    → HoldsAtMost n (entry client s)
entry-HoldsAtMost n client s h = elim (Option-cases (Dict.get client s.by_client)) [
  | inl absent ↦ rw absent (omega arith)
  | inr (c, got) ↦ rw got (h client c got)
]

step-HoldsAtMost :
    (c : RegistryStep) (s : Registry)
    → is_remote c ≡ true
    → EveryClient (HoldsAtMost s.max_conns_per_client) s
    → EveryClient (HoldsAtMost s.max_conns_per_client) (step c s)
unfolding step
step-HoldsAtMost (registering conn ip (some client) role shutdown now) s r h =
    let n = s.max_conns_per_client in
    register-EveryClient (HoldsAtMost n) conn ip client role shutdown now s
      (entry-HoldsAtMost n client s h)
      (λ free. ground (arith, r, free, length-set_insert conn (entry client s).conns)) h
step-HoldsAtMost (unregistering conn (some client)) s r h =
    let n = s.max_conns_per_client in
    unregister-EveryClient (HoldsAtMost n) conn client s
      (λ e holds. ground (arith, holds, length-set_remove conn e.conns)) h
step-HoldsAtMost (registering conn ip none role shutdown now) s r h =
    unchanged (HoldsAtMost s.max_conns_per_client) (registering conn ip none role shutdown now) s
      refl h
step-HoldsAtMost (unregistering conn none) s r h =
    unchanged (HoldsAtMost s.max_conns_per_client) (unregistering conn none) s refl h
step-HoldsAtMost (admitting ip now) s r h =
    unchanged (HoldsAtMost s.max_conns_per_client) (admitting ip now) s refl h
step-HoldsAtMost (touching conn now) s r h =
    unchanged (HoldsAtMost s.max_conns_per_client) (touching conn now) s refl h
step-HoldsAtMost (releasing ip) s r h =
    unchanged (HoldsAtMost s.max_conns_per_client) (releasing ip) s refl h

run_holds :
    (cs : List RegistryStep) (s : Registry)
    → all is_remote cs ≡ true
    → EveryClient (HoldsAtMost s.max_conns_per_client) s
    → EveryClient (HoldsAtMost s.max_conns_per_client) (run cs s)
unfolding run
run_holds [] s r h = h
run_holds (c ∷ cs) s r h =
    let kept = cap-step c s in
    let now = step-HoldsAtMost c s (ground (arith, r)) h in
    let rest =
      run_holds cs (step c s) (ground (arith, r))
        (subst (λ (n : ℕ). EveryClient (HoldsAtMost n) (step c s)) (sym kept) now) in
    subst (λ (n : ℕ). EveryClient (HoldsAtMost n) (run cs (step c s))) kept rest

-- As long as every peer is on another machine, no client id ever holds more sockets than its cap.
pub run-HoldsAtMost :
    (per_client per_ip : ℕ) (cs : List RegistryStep) (client : String) (e : ClientEntry)
    → all is_remote cs ≡ true
    → Dict.get client (run cs (new_registry per_client per_ip)).by_client ≡ some e
    → length e.conns ≤ per_client
unfolding new_registry
run-HoldsAtMost per_client per_ip cs client e r got =
    run_holds cs (new_registry per_client per_ip) r
      (new-EveryClient (HoldsAtMost per_client) per_client per_ip) client e got

notified-supersede :
    (conn old handle : ℕ) (s : Registry)
    → old ≢ conn
    → Dict.get old s.shutdown ≡ some handle
    → (supersede conn (some old) s).notified ≡ handle ∷ s.notified
notified-supersede conn old handle s n got = ground arith

abbrev with_joined : ℕ → String → Role → Registry → Registry
with_joined conn client role s = record s {
  by_client = Dict.insert client (joined conn role (entry client s)) s.by_client;
}

register_taken :
    (conn : ℕ) (ip : IpAddr) (client : String) (role : Role) (shutdown now : ℕ) (s : Registry)
    → refuses ip client s ≡ false
    → register conn ip (some client) role shutdown now s ≡ (
      admitted,
      supersede conn
          (if is_subscriber role then (entry client s).main else none)
          (record_conn conn ip role now shutdown (with_joined conn client role s)),
    )
unfolding register
register_taken conn ip client role shutdown now s free = rw free

register_rejects :
    (conn : ℕ) (ip : IpAddr) (client : String) (role : Role) (shutdown now : ℕ) (s : Registry)
    → refuses ip client s ≡ true
    → register conn ip (some client) role shutdown now s
      ≡ (rejected_cap, record s { by_client = Dict.insert client (entry client s) s.by_client })
unfolding register
register_rejects conn ip client role shutdown now s full = rw full

main-entry :
    (client : String) (s : Registry) (e : ClientEntry)
    → Dict.get client s.by_client ≡ some e
    → (entry client s).main ≡ e.main
main-entry client s e got = rw got

shutdown-record_conn :
    (conn : ℕ) (ip : IpAddr) (role : Role) (now shutdown old : ℕ) (s : Registry)
    → old ≢ conn
    → Dict.get old (record_conn conn ip role now shutdown s).shutdown ≡ Dict.get old s.shutdown
unfolding record_conn
shutdown-record_conn conn ip role now shutdown old s n =
    ground (arith, get-insert old conn shutdown s.shutdown)

notified-record_conn :
    (conn : ℕ) (ip : IpAddr) (role : Role) (now shutdown : ℕ) (s : Registry)
    → (record_conn conn ip role now shutdown s).notified ≡ s.notified
unfolding record_conn
notified-record_conn conn ip role now shutdown s = refl

-- A subscriber that is admitted takes the place of its client id's main: the main of before,
-- another socket that still has its close signal, is woken, and nothing else is.
pub register_superseded :
    (conn : ℕ) (ip : IpAddr) (client : String) (shutdown now old handle : ℕ) (s : Registry)
    → (entry client s).main ≡ some old
    → old ≢ conn
    → Dict.get old s.shutdown ≡ some handle
    → (register conn ip (some client) subscriber shutdown now s).0 ≡ admitted
    → ((register conn ip (some client) subscriber shutdown now s).1.notified ≡ handle ∷ s.notified)
      × ((entry client (register conn ip (some client) subscriber shutdown now s).1).main
          ≡ some conn)
register_superseded conn ip client shutdown now old handle s main n got ok =
    elim (Bool-cases (refuses ip client s)) [
      | inl full ↦
          ground (arith, ok, register_rejects conn ip client subscriber shutdown now s full)
      | inr free ↦
          let s' =
            record_conn conn ip subscriber now shutdown (with_joined conn client subscriber s) in
          (
            rw (register_taken conn ip client subscriber shutdown now s free, main)
                (ground (
                  arith,
                  notified-supersede conn old handle s' n (
                      shutdown-record_conn conn ip subscriber now shutdown old
                        (with_joined conn client subscriber s) n
                      ∙ got),
                  notified-record_conn conn ip subscriber now shutdown
                      (with_joined conn client subscriber s),
                )),
            main-entry client (register conn ip (some client) subscriber shutdown now s).1
                (joined conn subscriber (entry client s))
                (ground (
                  arith,
                  register_client conn ip client subscriber shutdown now s client,
                  free,
                  string_eq.same_iff client client,
                )),
          )
    ]

register_free :
    (conn : ℕ) (ip : IpAddr) (role : Role) (shutdown now : ℕ) (s : Registry)
    → (register conn ip none role shutdown now s).0 ≡ admitted
unfolding register
register_free conn ip role shutdown now s = refl

-- A registration that is refused leaves every socket and signal as it was, and is refused only for
-- a peer on another machine whose client id has all its sockets.
pub register_refused :
    (conn : ℕ) (ip : IpAddr) (client_id : Option String) (role : Role) (shutdown now : ℕ)
    (s : Registry)
    → (register conn ip client_id role shutdown now s).0 ≡ rejected_cap
    → ((register conn ip client_id role shutdown now s).1.conns ≡ s.conns)
      × ((register conn ip client_id role shutdown now s).1.shutdown ≡ s.shutdown)
      × ((register conn ip client_id role shutdown now s).1.notified ≡ s.notified)
      × (is_loopback ip ≡ false)
      × (client : String) × (client_id ≡ some client)
      × (s.max_conns_per_client ≤ length (entry client s).conns)
register_refused conn ip none role shutdown now s e =
    ground (arith, e, register_free conn ip role shutdown now s)
register_refused conn ip (some client) role shutdown now s e =
    elim (Bool-cases (refuses ip client s)) [
      | inl full ↦
          let same = register_rejects conn ip client role shutdown now s full in
          (rw same, rw same, rw same, ground (arith, full), client, refl, ground (arith, full))
      | inr free ↦ ground (arith, e, register_taken conn ip client role shutdown now s free)
    ]
