-- ===== src/Registry.antt =====
-- The connection registry (packages/mbrc-core/src/server/registry.rs): the slots of each address,
-- the sockets of each client id, and what is evicted or superseded. The state under the lock is a
-- record and an operation that returns it changed; the monotonic clock is an argument. A `Notify`
-- handle is a number, and `notified` lists the handles that were woken, latest first.
pub mod Eviction
pub mod Clients
pub mod Slots
mod Tests
use mbrc_plugin.Base.{
  ℕ, ◌+◌, ◌-◌, ◌/◌, String, Bool, true, false, not, ◌&&◌, ◌||◌, ◌≡◌, ◌↔◌, refl, Option, none, some,
  List, [], ◌∷◌, arith, ltb, leb, length, if◌then◌else◌, Eq, ◌==◌, string_eq, nat_eq, is_some,
  unwrap_or, map,
}
use mbrc_plugin.Base.Dict
use mbrc_plugin.Base.Dict.{Dict}
use mbrc_plugin.Base.Sorting.{member}

-- An address as the number that its bytes spell, in network order.
pub data IpAddr : Type 0 where
  v4 : ℕ → IpAddr
  v6 : ℕ → IpAddr

abbrev ip_same : IpAddr → IpAddr → Bool
ip_same (v4 a) (v4 b) = a == b
ip_same (v6 a) (v6 b) = a == b
ip_same _ _ = false

pub ip_same_iff : (a b : IpAddr) → (ip_same a b ≡ true) ↔ (a ≡ b)
ip_same_iff (v4 a) (v4 b) = ground arith
ip_same_iff (v6 a) (v6 b) = ground arith
ip_same_iff (v4 a) (v6 b) = ground arith
ip_same_iff (v6 a) (v4 b) = ground arith

instance abbrev pub ip_eq : Eq IpAddr
ip_eq = record { same = ip_same; same_iff = ip_same_iff }

-- 127.0.0.0/8 and ::1.
abbrev pub is_loopback : IpAddr → Bool
is_loopback (v4 a) = a / 16_777_216 == 127
is_loopback (v6 a) = a == 1

abbrev pub min_evict_idle_ms : ℕ
min_evict_idle_ms = 10_000

pub data Role : Type 0 where
  subscriber : Role
  auxiliary : Role

abbrev pub is_subscriber : Role → Bool
is_subscriber subscriber = true
is_subscriber auxiliary = false

pub data Admit : Type 0 where
  admitted : Admit
  rejected_cap : Admit

pub data IpAdmit : Type 0 where
  slot : IpAdmit
  evicted : ℕ → IpAdmit
  rejected : IpAdmit

pub record ClientEntry : Type 0 where
  pub conns : List ℕ
  pub main : Option ℕ

pub record ConnMeta : Type 0 where
  pub ip : IpAddr
  pub role : Role
  pub last_active_ms : ℕ
  pub shutdown : ℕ

pub record Registry : Type 0 where
  pub max_conns_per_client : ℕ
  pub max_conns_per_ip : ℕ
  pub by_ip : Dict IpAddr ℕ
  pub by_client : Dict String ClientEntry
  pub shutdown : Dict ℕ ℕ
  pub conns : Dict ℕ ConnMeta
  pub evicted_total : ℕ
  pub rejected_per_ip_total : ℕ
  pub notified : List ℕ

unfoldable pub new_registry : (max_conns_per_client max_conns_per_ip : ℕ) → Registry
new_registry per_client per_ip = record {
  max_conns_per_client = per_client;
  max_conns_per_ip = per_ip;
  by_ip = [];
  by_client = [];
  shutdown = [];
  conns = [];
  evicted_total = 0;
  rejected_per_ip_total = 0;
  notified = [];
}

-- `entry(ip).or_insert(0)`
abbrev pub slots : IpAddr → Registry → ℕ
slots ip s = unwrap_or (Dict.get ip s.by_ip) 0

-- The filter of `evictable`; the subtraction stops at 0, as `saturating_sub` does.
abbrev pub can_evict : IpAddr → ℕ → ConnMeta → Bool
can_evict ip now m =
    (m.ip == ip) && (not (is_subscriber m.role) && leb min_evict_idle_ms (now - m.last_active_ms))

-- The order of the key `(last_active_ms, conn_id)`.
abbrev pub is_older : ℕ × ℕ → ℕ × ℕ → Bool
is_older (t, c) (u, d) = ltb t u || ((t == u) && ltb c d)

-- `filter(…).min_by_key(…)`
unfoldable pub stalest : (ConnMeta → Bool) → Dict ℕ ConnMeta → Option (ℕ × ℕ)
stalest p [] = none
stalest p ((c, m) ∷ conns) =
    let rest = stalest p conns in
    if p m
    then elim rest [
      | none ↦ some (m.last_active_ms, c)
      | some k ↦ if is_older (m.last_active_ms, c) k then some (m.last_active_ms, c) else some k
    ]
    else rest

abbrev pub conn_of : Option (ℕ × ℕ) → Option ℕ
conn_of none = none
conn_of (some (t, c)) = some c

unfoldable pub evictable : Registry → IpAddr → ℕ → Option ℕ
evictable s ip now = conn_of (stalest (can_evict ip now) s.conns)

abbrev pub wake : Option ConnMeta → List ℕ → List ℕ
wake none notified = notified
wake (some m) notified = m.shutdown ∷ notified

unfoldable pub admit_ip : IpAddr → (now : ℕ) → Registry → IpAdmit × Registry
admit_ip ip now s =
    let taken = record s { by_ip = Dict.insert ip (slots ip s + 1) s.by_ip } in
    let counted = record s { by_ip = Dict.insert ip (slots ip s) s.by_ip } in
    if is_loopback ip
    then (slot, s)
    else if ltb (slots ip s) s.max_conns_per_ip
    then (slot, taken)
    else elim (evictable s ip now) [
      | none ↦ (rejected, record counted { rejected_per_ip_total = s.rejected_per_ip_total + 1 })
      | some victim ↦ (
        evicted victim,
        record taken {
          notified = wake (Dict.get victim s.conns) s.notified;
          evicted_total = s.evicted_total + 1;
        },
      )
    ]

unfoldable pub touch : ℕ → (now : ℕ) → Registry → Registry
touch conn now s = elim (Dict.get conn s.conns) [
  | none ↦ s
  | some m ↦ record s { conns = Dict.insert conn (record m { last_active_ms = now }) s.conns }
]

unfoldable pub release_ip : IpAddr → Registry → Registry
release_ip ip s = if is_loopback ip then s else elim (Dict.get ip s.by_ip) [
  | none ↦ s
  | some n ↦ record s {
    by_ip = if n - 1 == 0 then Dict.remove ip s.by_ip else Dict.insert ip (n - 1) s.by_ip;
  }
]

-- `HashSet::insert` and `HashSet::remove`.
abbrev pub set_insert : ℕ → List ℕ → List ℕ
set_insert c cs = if member c cs then cs else c ∷ cs

unfoldable pub set_remove : ℕ → List ℕ → List ℕ
set_remove c [] = []
set_remove c (d ∷ ds) = let rest = set_remove c ds in if d == c then rest else d ∷ rest

-- `entry(client_id).or_default()`
abbrev pub entry : String → Registry → ClientEntry
entry client s = unwrap_or (Dict.get client s.by_client) (record { conns = []; main = none })

unfoldable pub record_conn : ℕ → IpAddr → Role → ℕ → ℕ → Registry → Registry
record_conn conn ip role now shutdown s = record s {
  shutdown = Dict.insert conn shutdown s.shutdown;
  conns =
      Dict.insert conn (record { ip = ip; role = role; last_active_ms = now; shutdown = shutdown })
        s.conns;
}

-- The main of before is woken, unless it is this connection or has no handle.
abbrev pub supersede : ℕ → Option ℕ → Registry → Registry
supersede conn none s = s
supersede conn (some old) s = if old == conn then s else elim (Dict.get old s.shutdown) [
  | none ↦ s
  | some handle ↦ record s { notified = handle ∷ s.notified }
]

unfoldable pub register :
    ℕ
    → IpAddr
    → (client_id : Option String) → Role
    → (shutdown now : ℕ) → Registry
    → Admit × Registry
register conn ip none role shutdown now s = (admitted, record_conn conn ip role now shutdown s)
register conn ip (some client) role shutdown now s =
    let old = entry client s in
    let opened = record s { by_client = Dict.insert client old s.by_client } in
    let joined : ClientEntry = record {
      conns = set_insert conn old.conns;
      main = if is_subscriber role then some conn else old.main;
    } in
    let superseded = if is_subscriber role then old.main else none in
    let s' = record s { by_client = Dict.insert client joined s.by_client } in
    if not (is_loopback ip) && leb s.max_conns_per_client (length old.conns)
    then (rejected_cap, opened)
    else (admitted, supersede conn superseded (record_conn conn ip role now shutdown s'))

abbrev pub is_none_left : List ℕ → Bool
is_none_left [] = true
is_none_left (c ∷ cs) = false

abbrev pub leave : ℕ → ClientEntry → ClientEntry
leave conn e = record {
  conns = set_remove conn e.conns;
  main = elim e.main [ none ↦ none | some m ↦ if m == conn then none else some m ];
}

unfoldable pub unregister : ℕ → (client_id : Option String) → Registry → Registry
unregister conn client_id s =
    let closed = record s {
      shutdown = Dict.remove conn s.shutdown;
      conns = Dict.remove conn s.conns;
    } in
    elim client_id [
      | none ↦ closed
      | some client ↦ elim (Dict.get client s.by_client) [
        | none ↦ closed
        | some e ↦ record closed {
          by_client =
              if is_none_left (leave conn e).conns
              then Dict.remove client s.by_client
              else Dict.insert client (leave conn e) s.by_client;
        }
      ]
    ]
