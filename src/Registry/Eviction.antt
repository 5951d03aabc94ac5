-- ===== src/Registry/Eviction.antt =====
-- Whom the cap on one address evicts: the connection that its peer misses least.
use mbrc_plugin.Base.{
  ap, ℕ, ◌-◌, ◌≤◌, ◌<◌, Bool, true, false, ◌≡◌, ◌⊎◌, refl, Option, none, some, [], ◌∷◌, arith,
  if◌then◌else◌, ◌==◌, nat_eq, inl, inr, Bool-cases, some_inj,
}
use mathlib.Core.Path.{subst}
use mbrc_plugin.Base.Dict
use mbrc_plugin.Base.Dict.{Dict}
use mbrc_plugin.Base.Dict.Rows.{Distinct}
use mbrc_plugin.Registry.{
  IpAddr, ip_eq, ip_same_iff, is_loopback, min_evict_idle_ms, Role, subscriber, auxiliary,
  is_subscriber, ConnMeta, Registry, evicted, rejected, slots, can_evict, is_older, stalest,
  conn_of, evictable, wake, admit_ip,
}

abbrev HasStalest : (ConnMeta → Bool) → Dict ℕ ConnMeta → Option (ℕ × ℕ) → Type 0
HasStalest p conns none = (c : ℕ) (m : ConnMeta) → Dict.get c conns ≡ some m → p m ≡ false
HasStalest p conns (some (t, c)) =
    ((m : ConnMeta) × (Dict.get c conns ≡ some m) × (p m ≡ true) × (m.last_active_ms ≡ t))
    × ((d : ℕ) (n : ConnMeta)
        → Dict.get d conns ≡ some n
        → p n ≡ true
        → is_older (n.last_active_ms, d) (t, c) ≡ false)

skip_lem :
    (p : ConnMeta → Bool) (c : ℕ) (m : ConnMeta) (conns : Dict ℕ ConnMeta) (o : Option (ℕ × ℕ))
    → p m ≡ false
    → Dict.get c conns ≡ none
    → HasStalest p conns o
    → HasStalest p ((c, m) ∷ conns) o
unfolding Dict.get
skip_lem p c m conns none misfit fresh h = λ d n e. ground (arith, h d n)
skip_lem p c m conns (some (t, b)) misfit fresh ((n, e, ok, at), least) =
    ((n, ground arith, ok, at), λ d k f. ground (arith, least d k))

-- No connection of the longer list is older than `k`.
least_cons :
    (p : ConnMeta → Bool) (c : ℕ) (m : ConnMeta) (conns : Dict ℕ ConnMeta) (k : ℕ × ℕ)
    → is_older (m.last_active_ms, c) k ≡ false
    → ((d : ℕ) (n : ConnMeta)
        → Dict.get d conns ≡ some n
        → p n ≡ true
        → is_older (n.last_active_ms, d) k ≡ false)
    → (d : ℕ) (n : ConnMeta) → Dict.get d ((c, m) ∷ conns) ≡ some n
    → p n ≡ true
    → is_older (n.last_active_ms, d) k ≡ false
unfolding Dict.get
least_cons p c m conns k newer least d n e ok = elim (Bool-cases (c == d)) [
  | inl same ↦
      (let this : m ≡ n = some_inj (rw same at e) in
        ground (arith, newer, ap (λ (x : ConnMeta). x.last_active_ms) this))
  | inr differ ↦ least d n (rw differ at e) ok
]

abbrev pick : ℕ × ℕ → Option (ℕ × ℕ) → Option (ℕ × ℕ)
pick j none = some j
pick j (some k) = if is_older j k then some j else some k

self_older : (k : ℕ × ℕ) → is_older k k ≡ false
self_older (t, c) = ground arith

pick_lem :
    (p : ConnMeta → Bool) (c : ℕ) (m : ConnMeta) (conns : Dict ℕ ConnMeta) (o : Option (ℕ × ℕ))
    → p m ≡ true
    → Dict.get c conns ≡ none
    → HasStalest p conns o
    → HasStalest p ((c, m) ∷ conns) (pick (m.last_active_ms, c) o)
unfolding Dict.get
pick_lem p c m conns none fits fresh h =
    ((m, ground arith, fits, refl), λ d n e ok. ground (arith, h d n))
pick_lem p c m conns (some (t, b)) fits fresh ((n, e, ok, at), least) =
    elim (Bool-cases (is_older (m.last_active_ms, c) (t, b))) [
      | inl older ↦ rw older (
        (m, ground arith, fits, refl),
        least_cons p c m conns (m.last_active_ms, c) (self_older (m.last_active_ms, c))
            (λ d k f ok'. ground (arith, least d k f ok')),
      )
      | inr newer ↦ rw newer ((n, ground arith, ok, at), least_cons p c m conns (t, b) newer least)
    ]

stalest_lem :
    (p : ConnMeta → Bool) (conns : Dict ℕ ConnMeta)
    → Distinct conns
    → HasStalest p conns (stalest p conns)
unfolding stalest
stalest_lem p [] h = λ c m e. unfold Dict.get in cc
stalest_lem p ((c, m) ∷ conns) (fresh, h) = elim (Bool-cases (p m)) [
  | inl fits ↦ rw fits (pick_lem p c m conns (stalest p conns) fits fresh (stalest_lem p conns h))
  | inr misfit ↦
      rw misfit (skip_lem p c m conns (stalest p conns) misfit fresh (stalest_lem p conns h))
]

auxiliary_lem : (r : Role) → is_subscriber r ≡ false → r ≡ auxiliary
auxiliary_lem subscriber e = cc
auxiliary_lem auxiliary e = refl

subscriber_lem : (r : Role) → is_subscriber r ≡ true → r ≡ subscriber
subscriber_lem subscriber e = refl
subscriber_lem auxiliary e = cc

can_evict_lem :
    (ip : IpAddr) (now : ℕ) (m : ConnMeta)
    → m.ip ≡ ip
    → m.role ≡ auxiliary
    → min_evict_idle_ms ≤ now - m.last_active_ms
    → can_evict ip now m ≡ true
can_evict_lem ip now m i r idle = rw (i, r) (ground (arith, ip_same_iff ip ip))

misfit_lem :
    (ip : IpAddr) (now : ℕ) (m : ConnMeta)
    → m.ip ≡ ip
    → can_evict ip now m ≡ false
    → (m.role ≡ subscriber) ⊎ (now - m.last_active_ms < min_evict_idle_ms)
misfit_lem ip now m i e = elim (Bool-cases (is_subscriber m.role)) [
  | inl sub ↦ inl (subscriber_lem m.role sub)
  | inr aux ↦ inr (ground (arith, e, aux, ip_same_iff m.ip ip, i))
]

admit_full :
    (ip : IpAddr) (now : ℕ) (s : Registry)
    → is_loopback ip ≡ false
    → s.max_conns_per_ip ≤ slots ip s
    → (admit_ip ip now s).0
      ≡ (elim (evictable s ip now) [ none ↦ rejected | some victim ↦ evicted victim ])
unfolding admit_ip
admit_full ip now s far full = ground arith

admit_woken :
    (ip : IpAddr) (now : ℕ) (s : Registry) (v : ℕ)
    → (admit_ip ip now s).0 ≡ evicted v
    → (admit_ip ip now s).1.notified ≡ wake (Dict.get v s.conns) s.notified
unfolding admit_ip
admit_woken ip now s v e = ground arith

admit_quiet :
    (ip : IpAddr) (now : ℕ) (s : Registry)
    → (admit_ip ip now s).0 ≡ rejected
    → ((admit_ip ip now s).1.notified ≡ s.notified)
      × (s.max_conns_per_ip ≤ slots ip s)
      × (is_loopback ip ≡ false)
      × (evictable s ip now ≡ none)
unfolding admit_ip
admit_quiet ip now s e = ground arith

admit_evictable :
    (ip : IpAddr) (now : ℕ) (s : Registry) (v : ℕ)
    → (admit_ip ip now s).0 ≡ evicted v
    → (evictable s ip now ≡ some v) × (s.max_conns_per_ip ≤ slots ip s) × (is_loopback ip ≡ false)
unfolding admit_ip
admit_evictable ip now s v e = ground arith

some_conn : (o : Option (ℕ × ℕ)) (v : ℕ) → conn_of o ≡ some v → (t : ℕ) × (o ≡ some (t, v))
some_conn none v e = cc
some_conn (some (t, c)) v e = (t, ground arith)

none_conn : (o : Option (ℕ × ℕ)) → conn_of o ≡ none → o ≡ none
none_conn none e = refl
none_conn (some (t, c)) e = cc

victim_lem :
    (ip : IpAddr) (now : ℕ) (s : Registry) (v : ℕ)
    → Distinct s.conns
    → evictable s ip now ≡ some v
    → (t : ℕ) × HasStalest (can_evict ip now) s.conns (some (t, v))
unfolding evictable
victim_lem ip now s v h e =
    let (t, k) = some_conn (stalest (can_evict ip now) s.conns) v e in
    (t, subst (HasStalest (can_evict ip now) s.conns) k (stalest_lem (can_evict ip now) s.conns h))

-- With each connection entered once, a full address evicts a connection only if that connection is
-- its own, is no subscriber and has been silent for the idle time, no other such connection has
-- been silent for longer, and it wakes the task of just that connection.
pub admit_ip-evicted :
    (ip : IpAddr) (now : ℕ) (s : Registry) (v : ℕ)
    → Distinct s.conns
    → (admit_ip ip now s).0 ≡ evicted v
    → (m : ConnMeta) × (Dict.get v s.conns ≡ some m)
      × (m.ip ≡ ip)
      × (m.role ≡ auxiliary)
      × (min_evict_idle_ms ≤ now - m.last_active_ms)
      × ((admit_ip ip now s).1.notified ≡ m.shutdown ∷ s.notified)
      × ((d : ℕ) (n : ConnMeta)
          → Dict.get d s.conns ≡ some n
          → n.ip ≡ ip
          → n.role ≡ auxiliary
          → min_evict_idle_ms ≤ now - n.last_active_ms
          → m.last_active_ms ≤ n.last_active_ms)
admit_ip-evicted ip now s v h e =
    let full = admit_evictable ip now s v e in
    let (t, found) = victim_lem ip now s v h full.0 in
    let (m, got, ok, at) = found.0 in
    (
      m,
      got,
      ground (arith, ok, ip_same_iff m.ip ip),
      auxiliary_lem m.role (ground (arith, ok)),
      ground (arith, ok),
      rw (admit_woken ip now s v e, got),
      λ d n f i r idle. ground (arith, found.1 d n f, at, can_evict_lem ip now n i r idle),
    )

-- With each connection entered once, a peer is turned away only if its address holds all its slots
-- and each of its connections is a subscriber or was active within the idle time, and then no task
-- is woken.
pub admit_ip-rejected :
    (ip : IpAddr) (now : ℕ) (s : Registry)
    → Distinct s.conns
    → (admit_ip ip now s).0 ≡ rejected
    → (s.max_conns_per_ip ≤ slots ip s)
      × ((admit_ip ip now s).1.notified ≡ s.notified)
      × ((d : ℕ) (n : ConnMeta)
          → Dict.get d s.conns ≡ some n
          → n.ip ≡ ip
          → (n.role ≡ subscriber) ⊎ (now - n.last_active_ms < min_evict_idle_ms))
unfolding evictable
admit_ip-rejected ip now s h e =
    let quiet = admit_quiet ip now s e in
    let nothing = none_conn (stalest (can_evict ip now) s.conns) quiet.3 in
    let none_fits =
      subst (HasStalest (can_evict ip now) s.conns) nothing
        (stalest_lem (can_evict ip now) s.conns h) in
    (quiet.1, quiet.0, λ d n f i. misfit_lem ip now n i (none_fits d n f))
