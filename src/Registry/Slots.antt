-- ===== src/Registry/Slots.antt =====
-- The slots of an address count its open sockets, from the accept to the close.
use mbrc_plugin.Base.{
  ℕ, ◌+◌, ◌-◌, ◌≤◌, ◌<◌, true, false, ◌≡◌, ◌⊎◌, refl, List, [], ◌∷◌, arith, if◌then◌else◌, ◌==◌,
  nat_eq, inl, inr, Option-cases, Bool-cases, unwrap_or,
}
use mbrc_plugin.Base.Dict
use mbrc_plugin.Base.Dict.{get-insert, get-remove}
use mbrc_plugin.Base.Sorting.{member}
use mbrc_plugin.Registry.{
  IpAddr, ip_eq, ip_same_iff, is_loopback, Registry, IpAdmit, slot, evicted, rejected, slots,
  admit_ip, release_ip, new_registry,
}

-- A socket is accepted, or one that was admitted closes.
pub data SocketStep : Type 0 where
  accepting : (ip : IpAddr) (now : ℕ) → SocketStep
  closing : IpAddr → SocketStep

abbrev pub count : IpAddr → List IpAddr → ℕ
count ip [] = 0
count ip (j ∷ js) = if j == ip then count ip js + 1 else count ip js

abbrev pub close_one : IpAddr → List IpAddr → List IpAddr
close_one ip [] = []
close_one ip (j ∷ js) = if j == ip then js else j ∷ close_one ip js

abbrev pub opened : IpAddr → IpAdmit → List IpAddr → List IpAddr
opened ip rejected socks = socks
opened ip slot socks = ip ∷ socks
opened ip (evicted victim) socks = ip ∷ socks

-- The open sockets' addresses beside the registry.
unfoldable pub socket_step : SocketStep → List IpAddr × Registry → List IpAddr × Registry
socket_step (accepting ip now) (socks, s) =
    (opened ip (admit_ip ip now s).0 socks, (admit_ip ip now s).1)
socket_step (closing ip) (socks, s) =
    if member ip socks then (close_one ip socks, release_ip ip s) else (socks, s)

unfoldable pub socket_run : List SocketStep → List IpAddr × Registry → List IpAddr × Registry
socket_run [] t = t
socket_run (c ∷ cs) t = socket_run cs (socket_step c t)

slots-insert :
    (ip j : IpAddr) (n : ℕ) (s : Registry)
    → unwrap_or (Dict.get j (Dict.insert ip n s.by_ip)) 0 ≡ (if ip == j then n else slots j s)
slots-insert ip j n s = ground (arith, get-insert j ip n s.by_ip)

slots-admit_ip :
    (ip : IpAddr) (now : ℕ) (s : Registry) (j : IpAddr)
    → slots j (admit_ip ip now s).1 ≡ (
        if is_loopback ip then slots j s else elim (admit_ip ip now s).0 [
          | slot ↦ if ip == j then slots j s + 1 else slots j s
          | evicted victim ↦ if ip == j then slots j s + 1 else slots j s
          | rejected ↦ slots j s
        ])
unfolding admit_ip
slots-admit_ip ip now s j = ground (
  arith,
  slots-insert ip j (slots ip s + 1) s,
  slots-insert ip j (slots ip s) s,
  ip_same_iff ip j,
)

slots-release_ip :
    (ip : IpAddr) (s : Registry) (j : IpAddr)
    → slots j (release_ip ip s)
      ≡ (if is_loopback ip then slots j s else if ip == j then slots j s - 1 else slots j s)
unfolding release_ip
slots-release_ip ip s j = elim (Option-cases (Dict.get ip s.by_ip)) [
  | inl absent ↦ rw absent (ground (arith, absent, ip_same_iff ip j))
  | inr (n, found) ↦ rw found (
      ground (arith, found, slots-insert ip j (n - 1) s, get-remove j ip s.by_ip, ip_same_iff ip j))
]

count-close_one :
    (ip j : IpAddr) (socks : List IpAddr)
    → member ip socks ≡ true
    → count j (close_one ip socks) ≡ (if ip == j then count j socks - 1 else count j socks)
unfolding member
count-close_one ip j [] h = cc
count-close_one ip j (k ∷ ks) h =
    ground (arith, count-close_one ip j ks, ip_same_iff k ip, ip_same_iff k j, ip_same_iff ip j)

bound-admit_ip :
    (ip : IpAddr) (now : ℕ) (s : Registry)
    → ((admit_ip ip now s).1.max_conns_per_ip ≡ s.max_conns_per_ip)
      × ((is_loopback ip ≡ true)
          ⊎ ((admit_ip ip now s).0 ≡ rejected)
          ⊎ ((admit_ip ip now s).1.evicted_total ≡ s.evicted_total + 1)
          ⊎ (slots ip s < s.max_conns_per_ip))
      × (s.evicted_total ≤ (admit_ip ip now s).1.evicted_total)
unfolding admit_ip
bound-admit_ip ip now s = ground arith

bound-release_ip :
    (ip : IpAddr) (s : Registry)
    → ((release_ip ip s).max_conns_per_ip ≡ s.max_conns_per_ip)
      × ((release_ip ip s).evicted_total ≡ s.evicted_total)
unfolding release_ip
bound-release_ip ip s = ground arith

-- What holds of the open sockets and the registry after every step, for one address.
abbrev IsCounted : ℕ → IpAddr → List IpAddr × Registry → Type 0
IsCounted cap ip (socks, s) =
    (s.max_conns_per_ip ≡ cap)
    × (slots ip s ≡ count ip socks)
    × (slots ip s ≤ cap + s.evicted_total)

step-IsCounted :
    (c : SocketStep) (cap : ℕ) (ip : IpAddr) (socks : List IpAddr) (s : Registry)
    → is_loopback ip ≡ false
    → IsCounted cap ip (socks, s)
    → IsCounted cap ip (socket_step c (socks, s))
unfolding socket_step
step-IsCounted (accepting j now) cap ip socks s far h =
    ground (arith, h, far, bound-admit_ip j now s, slots-admit_ip j now s ip, ip_same_iff j ip)
step-IsCounted (closing j) cap ip socks s far h = elim (Bool-cases (member j socks)) [
  | inl here ↦ rw here (
      ground (
        arith,
        h,
        far,
        bound-release_ip j s,
        slots-release_ip j s ip,
        count-close_one j ip socks here,
        ip_same_iff j ip,
      ))
  | inr absent ↦ rw absent h
]

run-IsCounted :
    (cs : List SocketStep) (cap : ℕ) (ip : IpAddr) (socks : List IpAddr) (s : Registry)
    → is_loopback ip ≡ false
    → IsCounted cap ip (socks, s)
    → IsCounted cap ip (socket_run cs (socks, s))
unfolding socket_run
run-IsCounted [] cap ip socks s far h = h
run-IsCounted (c ∷ cs) cap ip socks s far h =
    let (socks', s') = socket_step c (socks, s) in
    run-IsCounted cs cap ip socks' s' far (step-IsCounted c cap ip socks s far h)

new-IsCounted :
    (per_client per_ip : ℕ) (ip : IpAddr) → IsCounted per_ip ip ([], new_registry per_client per_ip)
unfolding new_registry Dict.get
new-IsCounted per_client per_ip ip = (refl, refl, omega arith)

-- After any accepts and closes, the slots of an address on another machine are as many as its
-- sockets that were admitted and have not closed, and past the cap by no more than the evictions.
pub slots-socket_run :
    (per_client per_ip : ℕ) (cs : List SocketStep) (ip : IpAddr)
    → is_loopback ip ≡ false
    → (slots ip (socket_run cs ([], new_registry per_client per_ip)).1
        ≡ count ip (socket_run cs ([], new_registry per_client per_ip)).0)
      × (slots ip (socket_run cs ([], new_registry per_client per_ip)).1
          ≤ per_ip + (socket_run cs ([], new_registry per_client per_ip)).1.evicted_total)
slots-socket_run per_client per_ip cs ip far =
    let (a, b, c) =
      run-IsCounted cs per_ip ip [] (new_registry per_client per_ip) far
        (new-IsCounted per_client per_ip ip) in
    (b, c)
