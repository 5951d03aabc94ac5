-- ===== src/Permissions/Roles/Laws.antt =====
-- What each change of the roles does to every client's role.
use text.Mathlib.TextEquality.{eq_iff}
use mbrc_plugin.Base.{
  sym, ap, ◌∙◌, String, ◌≡◌, ◌≢◌, refl, some, arith, Option-cases, inl, inr, string_eq,
}
use mbrc_plugin.Base.Dict.{get-insert, get-insert_self, get-remove, get-remove_self}
use mbrc_plugin.Base.Dict.Rows.{get-retain}
use mbrc_plugin.Store.{Tables}
use mbrc_plugin.Permissions.{Role, default_role}
use mbrc_plugin.Permissions.Principal.{Principal, app, browser, legacy_device, anonymous, key}
use mbrc_plugin.Permissions.Keys.{key_injective, prefix_laws}
use mbrc_plugin.Permissions.Roles.{Roles, role_of, assign, unassign, unassign_browsers}

module _ (T : Tables String String) where
  -- The principal that was named has the role that it was given, unless it is anonymous.
  pub role_of-assign_self :
      (p : Principal) (r : Role) (s : Roles T) → p ≢ anonymous → role_of T p (assign T p r s).0 ≡ r
  unfolding role_of assign key
  role_of-assign_self (app i) r s h = rw get-insert_self
  role_of-assign_self (browser i) r s h = rw get-insert_self
  role_of-assign_self (legacy_device i) r s h = rw get-insert_self
  role_of-assign_self anonymous r s h = absurd (h refl)

  -- Giving one principal a role leaves the role of every other principal as it was.
  pub role_of-assign_ne :
      (p q : Principal) (r : Role) (s : Roles T)
      → p ≢ q
      → role_of T q (assign T p r s).0 ≡ role_of T q s
  unfolding role_of assign
  role_of-assign_ne p q r s h = elim (Option-cases (key p)) [
    | inl unkeyed ↦ ground arith
    | inr (k, ep) ↦ elim (Option-cases (key q)) [
      | inl unkeyed ↦ ground arith
      | inr (j, eq) ↦ ground (
        arith,
        get-insert j k r s.assigned,
        eq_iff k j,
        λ (e : k ≡ j). h (key_injective p q k ep (eq ∙ ap some (sym e))),
      )
    ]
  ]

  -- After `unassign` a principal has the default role.
  pub role_of-unassign_self :
      (p : Principal) (s : Roles T) → role_of T p (unassign T p s) ≡ default_role
  unfolding role_of unassign
  role_of-unassign_self p s = elim (Option-cases (key p)) [
    | inl unkeyed ↦ ground arith
    | inr (k, ep) ↦ ground (arith, get-remove_self k s.assigned)
  ]

  -- Unassigning one principal leaves the role of every other as it was.
  pub role_of-unassign_ne :
      (p q : Principal) (s : Roles T) → p ≢ q → role_of T q (unassign T p s) ≡ role_of T q s
  unfolding role_of unassign
  role_of-unassign_ne p q s h = elim (Option-cases (key p)) [
    | inl unkeyed ↦ ground arith
    | inr (k, ep) ↦ elim (Option-cases (key q)) [
      | inl unkeyed ↦ ground arith
      | inr (j, eq) ↦ ground (
        arith,
        get-remove j k s.assigned,
        eq_iff k j,
        λ (e : k ≡ j). h (key_injective p q k ep (eq ∙ ap some (sym e))),
      )
    ]
  ]

  -- The default role for a browser, and the role itself for any other client.
  abbrev pub without_browser : Principal → Role → Role
  without_browser (browser id) r = default_role
  without_browser p r = r

  -- Unpairing the browsers returns each browser to the default role and leaves every other alone.
  pub role_of-unassign_browsers :
      (p : Principal) (s : Roles T)
      → role_of T p (unassign_browsers T s) ≡ without_browser p (role_of T p s)
  unfolding role_of unassign_browsers key
  role_of-unassign_browsers (app id) s = rw get-retain (simp prefix_laws)
  role_of-unassign_browsers (browser id) s = rw get-retain (simp prefix_laws)
  role_of-unassign_browsers (legacy_device id) s = rw get-retain (simp prefix_laws)
  role_of-unassign_browsers anonymous s = refl
