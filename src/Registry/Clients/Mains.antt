-- ===== src/Registry/Clients/Mains.antt =====
-- A client id has one main at the most, which is one of its sockets, and a new main supersedes it.
use mbrc_plugin.Base.{
  ◌∙◌, ℕ, String, Bool, true, false, not, ◌&&◌, ◌||◌, ◌≡◌, refl, sym, Option, none, some, List, [],
  ◌∷◌, arith, if◌then◌else◌, ◌==◌, nat_eq, string_eq, inl, inr, Option-cases, Bool-cases, some_inj,
}
use mathlib.Core.Path.{subst}
use mbrc_plugin.Base.Dict
use mbrc_plugin.Base.Dict.{get-insert, get-remove}
use mbrc_plugin.Base.Sorting.{member}
use mbrc_plugin.Registry.{
  IpAddr, ip_eq, Role, ClientEntry, Registry, new_registry, set_insert, set_remove, entry, register,
  unregister, leave, is_none_left,
}
use mbrc_plugin.Registry.Clients.{
  joined, refuses, register_client, unregister_client, RegistryStep, registering, unregistering,
  admitting, touching, releasing, is_client_step, step, run, other_client,
}

-- Every entry of the map satisfies `P`.
abbrev pub EveryClient : (ClientEntry → Type 0) → Registry → Type 0
EveryClient P s = (client : String) (e : ClientEntry) → Dict.get client s.by_client ≡ some e → P e

abbrev pub MainIsHeld : ClientEntry → Type 0
MainIsHeld e = (m : ℕ) → e.main ≡ some m → member m e.conns ≡ true

pub unchanged :
    (P : ClientEntry → Type 0) (c : RegistryStep) (s : Registry)
    → is_client_step c ≡ false
    → EveryClient P s
    → EveryClient P (step c s)
unchanged P c s other h client e got = h client e (rw (sym (other_client c s other)) got)

member-set_insert : (m c : ℕ) (cs : List ℕ) → member m (set_insert c cs) ≡ ((c == m) || member m cs)
unfolding member
member-set_insert m c cs = ground arith

member-set_remove :
    (m c : ℕ) (cs : List ℕ) → member m (set_remove c cs) ≡ (not (c == m) && member m cs)
unfolding set_remove member
member-set_remove m c [] = ground arith
member-set_remove m c (d ∷ ds) = ground (arith, member-set_remove m c ds)

joined-MainIsHeld :
    (conn : ℕ) (role : Role) (e : ClientEntry) → MainIsHeld e → MainIsHeld (joined conn role e)
joined-MainIsHeld conn role e h m eq = ground (arith, h m, member-set_insert m conn e.conns)

leave-MainIsHeld : (conn : ℕ) (e : ClientEntry) → MainIsHeld e → MainIsHeld (leave conn e)
leave-MainIsHeld conn e h m eq = ground (arith, h m, member-set_remove m conn e.conns)

entry-MainIsHeld :
    (client : String) (s : Registry) → EveryClient MainIsHeld s → MainIsHeld (entry client s)
entry-MainIsHeld client s h = elim (Option-cases (Dict.get client s.by_client)) [
  | inl absent ↦ λ m e. ground (arith, absent)
  | inr (c, got) ↦ rw got (h client c got)
]

picked :
    (P : ClientEntry → Type 0) (c r : Bool) (a b e : ClientEntry) (o : Option ClientEntry)
    → (if c then (if r then some a else some b) else o) ≡ some e
    → P a
    → (r ≡ false → P b)
    → (o ≡ some e → P e)
    → P e
picked P true true a b e o eq pa pb po = subst P (some_inj eq) pa
picked P true false a b e o eq pa pb po = subst P (some_inj eq) (pb refl)
picked P false r a b e o eq pa pb po = po eq

left :
    (P : ClientEntry → Type 0) (c : Bool) (conn : ℕ) (e : ClientEntry) (old o : Option ClientEntry)
    → (if c
        then elim old [
          | none ↦ none
          | some x ↦ if is_none_left (leave conn x).conns then none else some (leave conn x)
        ]
        else o)
      ≡ some e
    → ((x : ClientEntry) → old ≡ some x → P (leave conn x))
    → (o ≡ some e → P e)
    → P e
left P true conn e none o eq px po = cc
left P true conn e (some x) o eq px po = elim (Bool-cases (is_none_left (leave conn x).conns)) [
  | inl gone ↦ ground (arith, gone, eq)
  | inr stays ↦ subst P (some_inj (rw stays at eq)) (px x refl)
]
left P false conn e old o eq px po = po eq

-- A property of entries that joining and leaving keep is kept by every step.
pub register-EveryClient :
    (P : ClientEntry → Type 0) (conn : ℕ) (ip : IpAddr) (client : String) (role : Role)
    (shutdown now : ℕ) (s : Registry)
    → P (entry client s)
    → (refuses ip client s ≡ false → P (joined conn role (entry client s)))
    → EveryClient P s
    → EveryClient P (register conn ip (some client) role shutdown now s).1
register-EveryClient P conn ip client role shutdown now s pa pb h other e got =
    picked P (client == other) (refuses ip client s) (entry client s)
      (joined conn role (entry client s)) e (Dict.get other s.by_client)
      (sym (register_client conn ip client role shutdown now s other) ∙ got) pa pb (h other e)

pub unregister-EveryClient :
    (P : ClientEntry → Type 0) (conn : ℕ) (client : String) (s : Registry)
    → ((e : ClientEntry) → P e → P (leave conn e))
    → EveryClient P s
    → EveryClient P (unregister conn (some client) s)
unregister-EveryClient P conn client s pl h other e got =
    left P (client == other) conn e (Dict.get client s.by_client) (Dict.get other s.by_client)
      (sym (unregister_client conn client s other) ∙ got) (λ x g. pl x (h client x g)) (h other e)

step-MainIsHeld :
    (c : RegistryStep) (s : Registry) → EveryClient MainIsHeld s → EveryClient MainIsHeld (step c s)
unfolding step
step-MainIsHeld (registering conn ip (some client) role shutdown now) s h =
    register-EveryClient MainIsHeld conn ip client role shutdown now s (entry-MainIsHeld client s h)
      (λ free. joined-MainIsHeld conn role (entry client s) (entry-MainIsHeld client s h)) h
step-MainIsHeld (unregistering conn (some client)) s h =
    unregister-EveryClient MainIsHeld conn client s (leave-MainIsHeld conn) h
step-MainIsHeld (registering conn ip none role shutdown now) s h =
    unchanged MainIsHeld (registering conn ip none role shutdown now) s refl h
step-MainIsHeld (unregistering conn none) s h =
    unchanged MainIsHeld (unregistering conn none) s refl h
step-MainIsHeld (admitting ip now) s h = unchanged MainIsHeld (admitting ip now) s refl h
step-MainIsHeld (touching conn now) s h = unchanged MainIsHeld (touching conn now) s refl h
step-MainIsHeld (releasing ip) s h = unchanged MainIsHeld (releasing ip) s refl h

run-held :
    (cs : List RegistryStep) (s : Registry)
    → EveryClient MainIsHeld s
    → EveryClient MainIsHeld (run cs s)
unfolding run
run-held [] s h = h
run-held (c ∷ cs) s h = run-held cs (step c s) (step-MainIsHeld c s h)

pub new-EveryClient :
    (P : ClientEntry → Type 0) (per_client per_ip : ℕ)
    → EveryClient P (new_registry per_client per_ip)
unfolding new_registry Dict.get
new-EveryClient P per_client per_ip client e got = cc

-- Whatever the server does, the main of a client id is one of the sockets that it holds.
pub run-MainIsHeld :
    (per_client per_ip : ℕ) (cs : List RegistryStep) (client : String) (e : ClientEntry) (m : ℕ)
    → Dict.get client (run cs (new_registry per_client per_ip)).by_client ≡ some e
    → e.main ≡ some m
    → member m e.conns ≡ true
run-MainIsHeld per_client per_ip cs client e m got main =
    run-held cs (new_registry per_client per_ip) (new-EveryClient MainIsHeld per_client per_ip)
      client e got m main
