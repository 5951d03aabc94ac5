-- ===== src/Permissions/Roles/Restart.antt =====
-- The table holds what memory holds, so the roles outlive a restart.
use mbrc_plugin.Base.{
  String, ◌≡◌, refl, Option, none, some, List, [], ◌∷◌, ◌>>=◌, arith, Option-cases, inl, inr,
  string_eq,
}
use text.Mathlib.TextEquality.{eq_iff}
use mbrc_plugin.Base.{or, any, ◌==◌, Bool, not, is_some, ◌&&◌, if◌then◌else◌}
use mbrc_plugin.Base.Dict
use mbrc_plugin.Base.Dict.{Dict, get-insert, get-remove}
use mbrc_plugin.Base.Dict.Rows.{parsed, get-extend, get-parsed, parsed-Distinct, get-retain}
use mbrc_plugin.Store.{Tables}
use mbrc_plugin.Permissions.{Role}
use mbrc_plugin.Permissions.Principal.{Principal, key, role_as_str, role_parse}
use mbrc_plugin.Permissions.Keys.{role_parse-role_as_str}
use mbrc_plugin.Permissions.Roles.{
  Roles, new_roles, open_roles, role_of, assign, unassign, unassign_browsers, remove_all,
  keys_where, is_browser_key,
}

-- What the host can do to the roles in one run.
pub data RoleChange : Type 0 where
  assigning : Principal → Role → RoleChange
  unassigning : Principal → RoleChange
  unassigning_browsers : RoleChange

any-keys_where :
    (p : String → Bool) (j : String) (m : Dict String Role)
    → any (λ k. k == j) (keys_where p m) ≡ (p j && is_some (Dict.get j m))
unfolding keys_where Dict.get
any-keys_where p j [] = ground arith
any-keys_where p j ((k, r) ∷ m) = ground (arith, any-keys_where p j m, eq_iff k j)

module _ (T : Tables String String) where
  open T use {Table}

  unfoldable pub apply : RoleChange → Roles T → Roles T
  apply (assigning p r) s = (assign T p r s).0
  apply (unassigning p) s = unassign T p s
  apply unassigning_browsers s = unassign_browsers T s

  unfoldable pub run : List RoleChange → Roles T → Roles T
  run [] s = s
  run (c ∷ cs) s = run cs (apply c s)

  -- The table `t` is attached, and holds the role of every key as memory does.
  pub record IsMirrored (s : Roles T) (t : Table) : Type 0 where
    pub attached : s.db ≡ some t
    pub agrees : (k : String) → Dict.get k s.assigned ≡ (T.get k t >>= role_parse)

  or-none : (o : Option Role) → or o none ≡ o
  or-none none = refl
  or-none (some r) = refl

  pub open_roles-IsMirrored : (t : Table) → IsMirrored (open_roles T t (new_roles T)) t
  unfolding open_roles Dict.get
  open_roles-IsMirrored t = record {
    attached = refl;
    agrees = λ k. rw (
      get-extend k (parsed role_parse (T.rows t)) []
          (parsed-Distinct role_parse _ (T.rows-Distinct t)),
      or-none,
      get-parsed role_parse k (T.rows t) (T.rows-Distinct t),
      T.get-rows,
    );
  }

  assign-IsMirrored :
      (p : Principal) (r : Role) (s : Roles T) (t : Table)
      → IsMirrored s t
      → (t' : Table) × IsMirrored (assign T p r s).0 t'
  unfolding assign
  assign-IsMirrored p r s t m = elim (Option-cases (key p)) [
    | inl unkeyed ↦ (t, rw (unkeyed, assign) m)
    | inr (k, ep) ↦ (
      T.insert k (role_as_str r) t,
      record {
        attached = rw (ep, assign) (rw m.attached);
        agrees = λ j. ground (
          arith,
          m.agrees j,
          get-insert j k r s.assigned,
          T.get-insert j k (role_as_str r) t,
          ep,
          role_parse-role_as_str r,
        );
      },
    )
  ]

  unassign-IsMirrored :
      (p : Principal) (s : Roles T) (t : Table)
      → IsMirrored s t
      → (t' : Table) × IsMirrored (unassign T p s) t'
  unfolding unassign
  unassign-IsMirrored p s t m = elim (Option-cases (key p)) [
    | inl unkeyed ↦ (t, rw (unkeyed, unassign) m)
    | inr (k, ep) ↦ (
      T.remove k t,
      record {
        attached = rw (ep, unassign) (rw m.attached);
        agrees = λ j. ground (arith, m.agrees j, get-remove j k s.assigned, T.get-remove j k t, ep);
      },
    )
  ]

  get-remove_all :
      (j : String) (ks : List String) (t : Table)
      → T.get j (remove_all T ks t) ≡ (if any (λ k. k == j) ks then none else T.get j t)
  unfolding remove_all
  get-remove_all j [] t = refl
  get-remove_all j (k ∷ ks) t =
      ground (arith, get-remove_all j ks (T.remove k t), T.get-remove j k t)

  unassign_browsers-IsMirrored :
      (s : Roles T) (t : Table)
      → IsMirrored s t
      → (t' : Table) × IsMirrored (unassign_browsers T s) t'
  unfolding unassign_browsers
  unassign_browsers-IsMirrored s t m =
      let keys = keys_where is_browser_key s.assigned in
      (
        remove_all T keys t,
        record {
          attached = rw m.attached;
          agrees = λ j. ground (
            arith,
            m.agrees j,
            get-retain (λ k. not (is_browser_key k)) j s.assigned,
            get-remove_all j keys t,
            any-keys_where is_browser_key j s.assigned,
          );
        },
      )

  pub apply-IsMirrored :
      (c : RoleChange) (s : Roles T) (t : Table)
      → IsMirrored s t
      → (t' : Table) × IsMirrored (apply c s) t'
  unfolding apply
  apply-IsMirrored (assigning p r) s t m = assign-IsMirrored p r s t m
  apply-IsMirrored (unassigning p) s t m = unassign-IsMirrored p s t m
  apply-IsMirrored unassigning_browsers s t m = unassign_browsers-IsMirrored s t m

  pub run-IsMirrored :
      (cs : List RoleChange) (s : Roles T) (t : Table)
      → IsMirrored s t
      → (t' : Table) × IsMirrored (run cs s) t'
  unfolding run
  run-IsMirrored [] s t m = (t, m)
  run-IsMirrored (c ∷ cs) s t m =
      let (t', m') = apply-IsMirrored c s t m in run-IsMirrored cs (apply c s) t' m'

  same_roles :
      (p : Principal) (s s' : Roles T) (t : Table)
      → IsMirrored s t
      → IsMirrored s' t
      → role_of T p s ≡ role_of T p s'
  unfolding role_of
  same_roles p s s' t m m' = elim (Option-cases (key p)) [
    | inl unkeyed ↦ rw unkeyed
    | inr (k, ep) ↦ rw (ep, m.agrees k, m'.agrees k)
  ]

  -- Whatever the host did to the roles since the start, a restart on the table that is attached
  -- then gives every client the role that it had.
  pub role_of-restart :
      (t : Table) (cs : List RoleChange) (p : Principal)
      → let s = run cs (open_roles T t (new_roles T)) in
        (t' : Table) × (s.db ≡ some t')
        × (role_of T p (open_roles T t' (new_roles T)) ≡ role_of T p s)
  role_of-restart t cs p =
      let s = run cs (open_roles T t (new_roles T)) in
      let (t', m) = run-IsMirrored cs (open_roles T t (new_roles T)) t (open_roles-IsMirrored t) in
      (
        t',
        m.attached,
        same_roles p (open_roles T t' (new_roles T)) s t' (open_roles-IsMirrored t') m,
      )
