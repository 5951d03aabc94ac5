-- ===== src/Permissions/Roles.antt =====
-- The roles the host has assigned (`Roles` in packages/mbrc-core/src/server/permissions/roles.rs):
-- a map in memory, mirrored in the table `party_roles`. The lock is not modelled: each method is
-- one step.
pub mod Laws
pub mod Restart
use mbrc_plugin.Base.{
  String, Bool, true, false, not, Option, none, some, List, [], ◌∷◌, is_some, ◌>>=◌, unwrap_or,
  if◌then◌else◌, string_eq,
}
use mbrc_plugin.Base.Dict
use mbrc_plugin.Base.Dict.{Dict}
use mbrc_plugin.Base.Dict.Rows.{extend, retain, parsed}
use mbrc_plugin.Base.Text.{strip_prefix}
use mbrc_plugin.Store.{Tables}
use mbrc_plugin.Permissions.{Role, default_role}
use mbrc_plugin.Permissions.Principal.{
  Principal, key, role_as_str, role_parse, browser_prefix, legacy_prefix,
}

-- `key.starts_with(BROWSER_PREFIX)`
abbrev pub is_browser_key : String → Bool
is_browser_key k = is_some (strip_prefix browser_prefix k)

-- The keys of a map that satisfy a test.
unfoldable pub keys_where : (String → Bool) → Dict String Role → List String
keys_where p [] = []
keys_where p ((k, r) ∷ m) = let rest = keys_where p m in if p k then k ∷ rest else rest

-- `filter_map(|key| key.strip_prefix(LEGACY_PREFIX))`
unfoldable pub legacy_ids : Dict String Role → List String
legacy_ids [] = []
legacy_ids ((k, r) ∷ m) =
    let rest = legacy_ids m in
    elim (strip_prefix legacy_prefix k) [ none ↦ rest | some id ↦ id ∷ rest ]

module _ (T : Tables String String) where
  open T use {Table}

  pub record Roles : Type 0 where
    pub assigned : Dict String Role
    pub db : Option Table

  abbrev pub new_roles : Roles
  new_roles = record { assigned = []; db = none }

  -- Writes through to the table, where one is attached.
  abbrev pub persist : (Table → Table) → Option Table → Option Table
  persist f none = none
  persist f (some t) = some (f t)

  unfoldable pub open_roles : Table → Roles → Roles
  open_roles t s = record {
    assigned = extend (parsed role_parse (T.rows t)) s.assigned;
    db = some t;
  }

  unfoldable pub role_of : Principal → Roles → Role
  role_of p s = unwrap_or (key p >>= λ k. Dict.get k s.assigned) default_role

  unfoldable pub assign : Principal → Role → Roles → Roles × Bool
  assign p r s = elim (key p) [
    | none ↦ (s, false)
    | some k ↦ (
      record {
        assigned = Dict.insert k r s.assigned;
        db = persist (T.insert k (role_as_str r)) s.db;
      },
      true,
    )
  ]

  unfoldable pub unassign : Principal → Roles → Roles
  unassign p s = elim (key p) [
    | none ↦ s
    | some k ↦ record { assigned = Dict.remove k s.assigned; db = persist (T.remove k) s.db }
  ]

  unfoldable pub remove_all : List String → Table → Table
  remove_all [] t = t
  remove_all (k ∷ ks) t = remove_all ks (T.remove k t)

  unfoldable pub unassign_browsers : Roles → Roles
  unassign_browsers s = record {
    assigned = retain (λ k. not (is_browser_key k)) s.assigned;
    db = persist (remove_all (keys_where is_browser_key s.assigned)) s.db;
  }

  unfoldable pub legacy_devices : Roles → List String
  legacy_devices s = legacy_ids s.assigned
