-- ===== src/Permissions/Gate/Changes.antt =====
-- The counter of changes: nothing alters what a client may do without moving it, so a watcher that
-- sleeps on the counter misses no change.
use mbrc_plugin.Base.{ℕ, ◌+◌, ◌%◌, ◌^◌, ◌<◌, String, true, false, ◌≡◌, ◌≢◌, refl, arith, string_eq}
use mbrc_plugin.Store.{Tables}
use mbrc_plugin.Permissions.Principal.{Principal}
use mbrc_plugin.Permissions.Roles.{assign}
use mbrc_plugin.Permissions.Gate.{
  PartyMode, permissions, set_enabled, assign_role, unassign_role, unassign_browsers,
  saw_legacy_device, check, clear_refusals,
}
use mbrc_plugin.Permissions.Gate.Bounds.{
  Event, switching, assigning, unassigning, unassigning_browsers, seeing, checking, clearing, step,
}

next_ne : (n : ℕ) → n < 2 ^ 64 → (n + 1) % 2 ^ 64 ≢ n
next_ne n h = omega arith

module _ (T : Tables String String) where
  -- If a step leaves the counter where it was, every client's permissions are what they were.
  pub permissions-step :
      (ev : Event) (p : Principal) (s : PartyMode T)
      → s.changes < 2 ^ 64
      → (step T ev s).changes ≡ s.changes
      → permissions T p (step T ev s) ≡ permissions T p s
  unfolding step permissions set_enabled assign_role unassign_role unassign_browsers
      saw_legacy_device check clear_refusals assign
  permissions-step (switching true) p s h e = ground (arith, next_ne s.changes h)
  permissions-step (switching false) p s h e = ground (arith, next_ne s.changes h)
  permissions-step (assigning q r) p s h e = ground (arith, next_ne s.changes h)
  permissions-step (unassigning q) p s h e = ground (arith, next_ne s.changes h)
  permissions-step unassigning_browsers p s h e = ground (arith, next_ne s.changes h)
  permissions-step (seeing id from now_ms) p s h e = refl
  permissions-step (checking q op a client now_ms) p s h e = ground arith
  permissions-step clearing p s h e = refl
