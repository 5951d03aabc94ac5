-- ===== src/SessionV6/Paired.antt =====
-- The `pair` op: what a granted role takes, and what it does.
use mbrc_plugin.Base.{
  ℕ, ◌-◌, ◌<◌, String, ◌≡◌, ◌≢◌, some, List, arith, string_eq, ◌∙◌, ◌==◌, none, inl, inr,
  Bool-cases, refl, Option,
}
use mbrc_plugin.Base.Utf8.{utf8}
use mbrc_plugin.Registry.{IpAddr}
use mbrc_plugin.Pairing.{Pairing, LiveCode, granted, take_code_at, code_ttl, Taken, refused}
use mbrc_plugin.Permissions.{Role}
use mbrc_plugin.Permissions.Principal.{app, Principal, browser, legacy_device, anonymous}
use mbrc_plugin.Permissions.Roles.{role_of}
use mbrc_plugin.Permissions.Roles.Laws.{role_of-assign_self}
use mbrc_plugin.Permissions.Gate.{PartyMode, assign_role}
use mbrc_plugin.SessionV6.{
  V6Session, Moment, response, paired, Checked, bad, good, op_frame, ErrorCode,
}
use mbrc_plugin.SessionV6.Handle.{Environment, Shared}
use mbrc_plugin.SessionV6.Dispatch.{
  hand_out, pair_as, dispatch_op, pair, pair_at, code_refused, gated, check_code, pair_checked,
}
use mbrc_plugin.Pairing.Codes.{take_code_at-granted}
use mbrc_plugin.Wire.V6.{IncomingRequest}
use mbrc_plugin.CommandsV6.{OpResult}

module _ (E : Environment) where
  open E use {json, build, roles}
  open json use {Value, field}

  assign_role-app :
      (client : String) (r : Role) (g : PartyMode roles)
      → role_of roles (app client) (assign_role roles (app client) r g).0.roles ≡ r
  unfolding assign_role
  assign_role-app client r g =
      ground (arith, role_of-assign_self roles (app client) r g.roles (λ e. cc))

  -- The code that `client` offered is the one shown, still inside its window, and carries the role
  -- that the client has afterwards; the pairing after it grants nobody anything.
  pub record IsGranted (client : String) (r : Role) (m : Moment) (s : V6Session) (sh sh' : Shared E)
      : Type 0 where
    pub offered : String
    pub live : LiveCode
    pub shown : Pairing
    pub was_shown : sh.pairing ≡ some shown
    pub is_live : shown.code ≡ some live
    pub is_offered : live.code ≡ utf8 offered
    pub in_window : m.instant - live.issued < code_ttl
    pub carries : live.role ≡ r
    pub gate : PartyMode roles
    pub after : Pairing
    pub gate_is : sh'.gate ≡ some gate
    pub has_role : role_of roles (app client) gate.roles ≡ r
    pub pairing_is : sh'.pairing ≡ some after
    pub spent :
        (offered' : List ℕ) (from' : IpAddr) (now' : ℕ) (r' : Role)
        → (take_code_at offered' from' now' after).0 ≢ granted r'

  hand_out-paired :
      (id i : ℕ) (offered client : String) (r : Role) (g : PartyMode roles) (from : IpAddr)
      (p : Pairing) (m : Moment) (s : V6Session) (sh : Shared E)
      → sh.pairing ≡ some p
      → (t : Taken × Pairing) → take_code_at (utf8 offered) from m.instant p ≡ t
      → (hand_out E id client g t sh).0 ≡ response i (paired r)
      → IsGranted client r m s sh (hand_out E id client g t sh).1
  hand_out-paired id i offered client r g from p m s sh has (refused why, after) t e = cc
  hand_out-paired id i offered client r g from p m s sh has (granted r', after) t e =
      let same : r' ≡ r = cc e in
      let (free, (live, shown, is, role, fresh), never) =
        take_code_at-granted (utf8 offered) from m.instant p r (cc (t, same)) in
      record {
        offered = offered;
        live = live;
        shown = p;
        was_shown = has;
        is_live = shown;
        is_offered = is;
        in_window = fresh;
        carries = role;
        gate = (assign_role roles (app client) r' g).0;
        after = after;
        gate_is = refl;
        has_role = assign_role-app client r' g ∙ same;
        pairing_is = refl;
        spent = λ offered' from' now' r''. rw t at (never offered' from' now' r'');
      }

  pair_at-paired :
      (from : Option IpAddr) (pairing : Option Pairing) (gate : Option (PartyMode roles)) (id i : ℕ)
      (code client : String) (r : Role) (m : Moment) (s : V6Session) (sh : Shared E)
      → sh.pairing ≡ pairing
      → (pair_at E from pairing gate id code client m sh).0 ≡ response i (paired r)
      → IsGranted client r m s sh (pair_at E from pairing gate id code client m sh).1
  pair_at-paired none pairing gate id i code client r m s sh has e = absurd (cc e)
  pair_at-paired (some from) none gate id i code client r m s sh has e = absurd (cc e)
  pair_at-paired (some from) (some p) none id i code client r m s sh has e = absurd (cc e)
  pair_at-paired (some from) (some p) (some g) id i code client r m s sh has e =
      hand_out-paired id i code client r g from p m s sh has
        (take_code_at (utf8 code) from m.instant p) refl e

  pair_as-paired :
      (who : Option Principal) (id i : ℕ) (code : String) (r : Role) (m : Moment) (s : V6Session)
      (sh : Shared E)
      → (pair_as E who id code m s sh).0 ≡ response i (paired r)
      → (client : String) × (who ≡ some (app client))
        × IsGranted client r m s sh (pair_as E who id code m s sh).1
  pair_as-paired none id i code r m s sh e = absurd (cc e)
  pair_as-paired (some (app client)) id i code r m s sh e =
      (client, refl, pair_at-paired s.peer sh.pairing sh.gate id i code client r m s sh refl e)
  pair_as-paired (some (browser b)) id i code r m s sh e = absurd (cc e)
  pair_as-paired (some (legacy_device d)) id i code r m s sh e = absurd (cc e)
  pair_as-paired (some anonymous) id i code r m s sh e = absurd (cc e)

  code_refused-ne :
      (c : ErrorCode) (id i : ℕ) (r : Role) → code_refused E id c ≢ response i (paired r)
  code_refused-ne c id i r e = ground arith

  op_frame-ne :
      (id i : ℕ) (op : String) (o : Option (OpResult Value)) (r : Role)
      → op_frame id op o ≢ response i (paired r)
  op_frame-ne id i op o r e = ground arith

  gated-ne :
      (i : ℕ) (r : Role) (q : IncomingRequest Value) (m : Moment) (s : V6Session) (sh : Shared E)
      → (gated E q m s sh).0 ≢ response i (paired r)
  unfolding gated
  gated-ne i r q m s sh e =
      ground (arith, op_frame-ne q.id i q.op (E.dispatch q.op q.payload sh.world).0 r)

  pair_checked-paired :
      (code : Checked String) (id i : ℕ) (r : Role) (m : Moment) (s : V6Session) (sh : Shared E)
      → (pair_checked E code id m s sh).0 ≡ response i (paired r)
      → (client : String) × (s.principal ≡ some (app client))
        × IsGranted client r m s sh (pair_checked E code id m s sh).1
  pair_checked-paired (bad c) id i r m s sh e = absurd (ground (arith, code_refused-ne c id i r e))
  pair_checked-paired (good code) id i r m s sh e = pair_as-paired s.principal id i code r m s sh e

  -- A request is answered with a role only if it offered the code that the host shows, inside its
  -- window, on a connection that is an app; the app then has the role that the code carries, and the
  -- code is spent.
  pub dispatch_op-paired :
      (q : IncomingRequest Value) (i : ℕ) (r : Role) (m : Moment) (s : V6Session) (sh : Shared E)
      → (dispatch_op E q m s sh).0 ≡ response i (paired r)
      → (client : String) × (s.principal ≡ some (app client))
        × IsGranted client r m s sh (dispatch_op E q m s sh).1
  unfolding dispatch_op pair
  dispatch_op-paired q i r m s sh e = elim (Bool-cases (q.op == "ping")) [
    | inl ping ↦ absurd (cc (rw (ping, dispatch_op) at e))
    | inr other ↦ elim (Bool-cases (q.op == "pair")) [
      | inl pairs ↦
          rw (other, pairs, dispatch_op)
            (pair_checked-paired (check_code E (field q.payload "code")) q.id i r m s sh
              (rw (other, pairs, dispatch_op) at e))
      | inr op ↦ absurd (gated-ne i r q m s sh (rw (other, op, dispatch_op) at e))
    ]
  ]
