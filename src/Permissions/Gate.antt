-- ===== src/Permissions/Gate.antt =====
-- The Party Mode gate (packages/mbrc-core/src/server/permissions/gate.rs): the switch, the check
-- that every transport calls, the log of refusals, the counter that wakes the watchers and the
-- Android devices seen. The clock is an argument; a refusal's text is kept as the data that
-- `refusal_message` formats, and the permissions object as its fields before rendering to JSON.
pub mod Bounds
pub mod Decisions
pub mod Changes
use mbrc_plugin.Base.{
  ℕ, ◌+◌, ◌/◌, ◌%◌, ◌^◌, String, Bool, true, false, not, ◌&&◌, ◌||◌, Option, none, some, List, [],
  ◌∷◌, ltb, leb, length, take, if◌then◌else◌, unwrap_or, string_eq,
}
use mbrc_plugin.Base.Dict
use mbrc_plugin.Base.Dict.{Dict}
use mbrc_plugin.Store.{Tables}
use mbrc_plugin.Permissions.{
  Role, host, Capability, Action, read, change, queue, all_capabilities, capabilities, contains,
  max_tracks_per_add, action_capability, permits,
}
use mbrc_plugin.Permissions.Principal.{Principal}
use mbrc_plugin.Permissions.Roles
use mbrc_plugin.Permissions.Roles.{Roles, new_roles, open_roles, role_of, assign, unassign}

abbrev pub max_refusals : ℕ
max_refusals = 50

abbrev pub max_legacy_seen : ℕ
max_legacy_seen = 200

-- `at` is in unix seconds, zero for a device not seen since the start; `from` is its address.
pub record Sighting : Type 0 where
  pub at : ℕ
  pub from : Option String

pub data Message : Type 0 where
  not_available : (op : String) → Message
  at_most_tracks : (max : ℕ) → Message
  needs_permission : (op : String) → Option Capability → Message

pub record Refusal : Type 0 where
  pub unix_ms : ℕ
  pub client : String
  pub op : String
  pub capability : Option Capability
  pub message : Message

unfoldable pub refusal_message : Role → String → Option Action → Message
refusal_message r op none = not_available op
refusal_message r op (some (queue c tracks)) =
    if contains (capabilities r) c
    then at_most_tracks (unwrap_or (max_tracks_per_add r) 0)
    else needs_permission op (some c)
refusal_message r op (some a) = needs_permission op (action_capability a)

-- What a client is told that it may do.
pub record Permissions : Type 0 where
  pub party_mode : Bool
  pub role : Role
  pub allowed : List Capability
  pub max_tracks : Option ℕ

-- The first of the entries seen longest ago, `min_by_key` in iteration order.
unfoldable pub oldest : Dict String Sighting → Option (String × ℕ)
oldest [] = none
oldest ((k, s) ∷ m) = elim (oldest m) [
  | none ↦ some (k, s.at)
  | some (j, at) ↦ if leb s.at at then some (k, s.at) else some (j, at)
]

unfoldable pub make_room : String → Dict String Sighting → Dict String Sighting
make_room id seen =
    if leb max_legacy_seen (length seen) && not (Dict.contains id seen)
    then elim (oldest seen) [ none ↦ seen | some (j, at) ↦ Dict.remove j seen ]
    else seen

-- `devices.entry(id).or_default()` for each id.
unfoldable pub or_default_all : List String → Dict String Sighting → Dict String Sighting
or_default_all [] m = m
or_default_all (id ∷ ids) m =
    or_default_all ids (elim (Dict.get id m) [
      | none ↦ Dict.insert id (record { at = 0; from = none }) m
      | some s ↦ m
    ])

-- Whether the role permits the action; an op that the map does not know passes only for the host.
unfoldable pub permitted : Role → Option Action → Bool
permitted r (some a) = permits r a
permitted host none = true
permitted _ none = false

module _ (T : Tables String String) where
  pub record PartyMode : Type 0 where
    pub enabled : Bool
    pub refusals : List Refusal
    pub roles : Roles T
    pub changes : ℕ
    pub legacy_seen : Dict String Sighting

  abbrev pub new_gate : PartyMode
  new_gate = record {
    enabled = false;
    refusals = [];
    roles = new_roles T;
    changes = 0;
    legacy_seen = [];
  }

  -- `open`: attaches the table of the roles, before any client is told of them.
  abbrev pub open_gate : T.Table → PartyMode → PartyMode
  open_gate t s = record s { roles = open_roles T t s.roles }

  -- `n.wrapping_add(1)` on a u64
  unfoldable pub changed : PartyMode → PartyMode
  changed s = record s { changes = (s.changes + 1) % 2 ^ 64 }

  unfoldable pub set_enabled : Bool → PartyMode → PartyMode
  unfolding changed
  set_enabled true s = if s.enabled then s else changed (record s { enabled = true })
  set_enabled false s = if s.enabled then changed (record s { enabled = false }) else s

  unfoldable pub assign_role : Principal → Role → PartyMode → PartyMode × Bool
  unfolding changed
  assign_role p r s =
      let (roles', assigned) = assign T p r s.roles in
      let s' = record s { roles = roles' } in (if assigned then changed s' else s', assigned)

  unfoldable pub unassign_role : Principal → PartyMode → PartyMode
  unfolding changed
  unassign_role p s = changed (record s { roles = unassign T p s.roles })

  unfoldable pub unassign_browsers : PartyMode → PartyMode
  unfolding changed
  unassign_browsers s = changed (record s { roles = Roles.unassign_browsers T s.roles })

  unfoldable pub permissions : Principal → PartyMode → Permissions
  permissions p s =
      let r = role_of T p s.roles in
      if s.enabled
      then record {
        party_mode = true;
        role = r;
        allowed = capabilities r;
        max_tracks = max_tracks_per_add r;
      }
      else record { party_mode = false; role = host; allowed = all_capabilities; max_tracks = none }

  unfoldable pub saw_legacy_device : String → String → (now_ms : ℕ) → PartyMode → PartyMode
  unfolding make_room
  saw_legacy_device id from now_ms s = record s {
    legacy_seen =
        Dict.insert id (record { at = now_ms / 1000; from = some from })
          (make_room id s.legacy_seen);
  }

  unfoldable pub legacy_devices : PartyMode → Dict String Sighting
  unfolding or_default_all
  legacy_devices s = or_default_all (Roles.legacy_devices T s.roles) s.legacy_seen

  unfoldable pub refusal_of :
      Principal → String → Option Action → (client : String) → (now_ms : ℕ) → PartyMode → Refusal
  unfolding refusal_message
  refusal_of p op action client now_ms s = record {
    unix_ms = now_ms;
    client = client;
    op = op;
    capability = elim action [ none ↦ none | some a ↦ action_capability a ];
    message = refusal_message (role_of T p s.roles) op action;
  }

  -- `none` is `Ok(())`. A refusal is put in front of the log.
  unfoldable pub check :
      Principal
      → String
      → Option Action
      → (client : String) → (now_ms : ℕ) → PartyMode
      → Option Refusal × PartyMode
  unfolding permitted
  check p op action client now_ms s =
      if not s.enabled || permitted (role_of T p s.roles) action
      then (none, s)
      else (let refusal = refusal_of p op action client now_ms s in
          (some refusal, record s { refusals = take max_refusals (refusal ∷ s.refusals) }))

  unfoldable pub clear_refusals : PartyMode → PartyMode
  clear_refusals s = record s { refusals = [] }
