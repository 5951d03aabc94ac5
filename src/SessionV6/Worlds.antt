-- ===== src/SessionV6/Worlds.antt =====
-- What the frames of a V6 connection can do to the world behind the handlers.
use mbrc_plugin.Base.{
  ◌≡◌, refl, ◌⊎◌, inl, inr, Option, none, some, string_eq, Option-cases, unwrap_or, true, ℕ, Bool,
  Bool-cases, String, arith, ◌==◌, false,
}
use mbrc_plugin.Wire.V6.{IncomingRequest, op_handshake}
use mbrc_plugin.Permissions.Principal.{Principal, anonymous, app}
use mbrc_plugin.Permissions.V6.{action}
use mbrc_plugin.Permissions.Gate.{PartyMode, check}
use mbrc_plugin.SessionV6.{
  V6Session, Moment, Parsed, parse_request, ErrorCode, Identity, err, ClientType, Checked, Taken,
  ok, Pairing, bad, granted, good, refused,
}
use mbrc_plugin.SessionV6.Handle.{
  Environment, Shared, accept, settle, handle_handshake, checked_handshake, check_version,
  settle_with, answered, identified, check_client_id, check_client_type,
}
use mbrc_plugin.SessionV6.Dispatch.{
  gated, dispatch_op, handle_request, handle_frame, pair, handle_parsed, pair_as, handle_as,
  counted, pair_app, hand_out,
}
use mbrc_plugin.Permissions.Gate.Decisions.{GuestMaySend, check-guest}
use mbrc_plugin.Permissions.Roles.{role_of}
use mbrc_plugin.Permissions.{guest}
use mathlib.Core.Path.{subst}

module _ (E : Environment) where
  open E use {json, build, roles, dispatch, World}
  open json use {Value, field}

  abbrev pub judged : V6Session → Principal
  judged s = unwrap_or s.principal anonymous

  -- The gate lets the request of this session pass.
  abbrev pub Passes : Option (PartyMode roles) → IncomingRequest Value → Moment → V6Session → Type 0
  Passes none r m s = Unit
  Passes (some g) r m s =
      (check roles (judged s) r.op (action json r.op r.payload) s.client_id m.unix_ms g).0 ≡ none

  -- The handler ran, once, for this request.
  abbrev pub Ran : IncomingRequest Value → Moment → V6Session → (before after : Shared E) → Type 0
  Ran r m s sh sh' = Passes sh.gate r m s × (sh'.world ≡ (dispatch r.op r.payload sh.world).1)

  passes_gate :
      (g : PartyMode roles) (r : IncomingRequest Value) (m : Moment) (s : V6Session) (sh : Shared E)
      → sh.gate ≡ some g
      → ((gated E r m s sh).1.world ≡ sh.world)
        ⊎ ((check roles (judged s) r.op (action json r.op r.payload) s.client_id m.unix_ms g).0
            ≡ none)
          × ((gated E r m s sh).1.world ≡ (dispatch r.op r.payload sh.world).1)
  unfolding gated
  passes_gate g r m s sh e =
      elim (Option-cases
        (check roles (judged s) r.op (action json r.op r.payload) s.client_id m.unix_ms g).0) [
          | inl passed ↦ inr (passed, rw (e, gated, passed) refl)
          | inr (why, stopped) ↦ inl (rw (e, gated, stopped) refl)
        ]

  gated_world :
      (gate : Option (PartyMode roles)) (r : IncomingRequest Value) (m : Moment) (s : V6Session)
      (sh : Shared E)
      → sh.gate ≡ gate
      → ((gated E r m s sh).1.world ≡ sh.world)
        ⊎ (Passes gate r m s × ((gated E r m s sh).1.world ≡ (dispatch r.op r.payload sh.world).1))
  unfolding gated
  gated_world none r m s sh e = inr (tt, rw (e, gated) refl)
  gated_world (some g) r m s sh e = passes_gate g r m s sh e

  hand_out-world :
      (id : ℕ) (client : String) (g : PartyMode roles) (t : Taken × Pairing) (sh : Shared E)
      → (hand_out E id client g t sh).1.world ≡ sh.world
  hand_out-world id client g (granted r, p) sh = refl
  hand_out-world id client g (refused why, p) sh = refl

  pair_app-world :
      (id : ℕ) (code client : String) (m : Moment) (s : V6Session) (sh : Shared E)
      → (pair_app E id code client m s sh).1.world ≡ sh.world
  pair_app-world id code client m s sh = ground arith

  pair_as-world :
      (p : Option Principal) (id : ℕ) (code : String) (m : Moment) (s : V6Session) (sh : Shared E)
      → (pair_as E p id code m s sh).1.world ≡ sh.world
  pair_as-world (some (app client)) id code m s sh = pair_app-world id code client m s sh
  pair_as-world _ id code m s sh = refl

  pair-world :
      (id : ℕ) (v : Value) (m : Moment) (s : V6Session) (sh : Shared E)
      → (pair E id v m s sh).1.world ≡ sh.world
  unfolding pair
  pair-world id v m s sh =
      ground (arith, λ (code : String). pair_as-world s.principal id code m s sh)

  dispatch_op-world :
      (r : IncomingRequest Value) (m : Moment) (s : V6Session) (sh : Shared E)
      → ((dispatch_op E r m s sh).1.world ≡ sh.world) ⊎ Ran r m s sh (dispatch_op E r m s sh).1
  unfolding dispatch_op
  dispatch_op-world r m s sh = elim (Bool-cases (r.op == "ping")) [
    | inl ping ↦ inl (rw (ping, dispatch_op) refl)
    | inr other ↦ elim (Bool-cases (r.op == "pair")) [
      | inl pairs ↦ inl (rw (other, pairs, dispatch_op) (pair-world r.id r.payload m s sh))
      | inr op ↦ rw (other, op, dispatch_op) (gated_world sh.gate r m s sh refl)
    ]
  ]

  answered-world :
      (a : Identity) (proven : Bool) (id : String) (ct : ClientType) (nb : Bool) (s : V6Session)
      (sh : Shared E)
      → (answered E a proven id ct nb s sh).shared.world ≡ sh.world
  unfolding accept
  answered-world a proven id ct nb s sh = ground arith

  settle_with-world :
      (clients : Option (Option E.identities.Table)) (id : String) (ct : ClientType) (nb : Bool)
      (v : Value) (m : Moment) (s : V6Session) (sh : Shared E)
      → (settle_with E clients id ct nb v m s sh).shared.world ≡ sh.world
  unfolding accept
  settle_with-world none id ct nb v m s sh = refl
  settle_with-world (some t) id ct nb v m s sh =
      answered-world (identified E id ct v m s sh t).0 _ id ct nb s _

  checked_handshake-world :
      (version : Option ErrorCode) (client_id : Checked String) (ct : Checked ClientType)
      (v : Value) (m : Moment) (s : V6Session) (sh : Shared E)
      → (checked_handshake E version client_id ct v m s sh).shared.world ≡ sh.world
  unfolding settle
  checked_handshake-world (some code) id ct v m s sh = refl
  checked_handshake-world none (bad code) ct v m s sh = refl
  checked_handshake-world none (good id) (bad code) v m s sh = refl
  checked_handshake-world none (good id) (good ct) v m s sh =
      settle_with-world sh.clients id ct _ v m s sh

  -- A request that the handler ran for, on a connection whose handshake is complete.
  abbrev pub RanFor : Parsed Value → Moment → V6Session → (before after : Shared E) → Type 0
  RanFor (err e) m s sh sh' = ⊥
  RanFor (ok r) m s sh sh' = (s.handshaked ≡ true) × Ran r m s sh sh'

  handle_as-world :
      (first up : Bool) (r : IncomingRequest Value) (m : Moment) (s : V6Session) (sh : Shared E)
      → s.handshaked ≡ up
      → ((handle_as E first up r m s sh).shared.world ≡ sh.world)
        ⊎ RanFor (ok r) m s sh (handle_as E first up r m s sh).shared
  unfolding handle_handshake
  handle_as-world true true r m s sh h = inl refl
  handle_as-world true false r m s sh h = inl (
      checked_handshake-world (check_version E _) (check_client_id E _) (check_client_type E _)
        r.payload m s sh)
  handle_as-world false true r m s sh h = elim (dispatch_op-world r m s sh) [
    | inl same ↦ inl same
    | inr ran ↦ inr (h, ran)
  ]
  handle_as-world false false r m s sh h = inl refl

  handle_parsed-world :
      (p : Parsed Value) (m : Moment) (s : V6Session) (sh : Shared E)
      → ((handle_parsed E p m s sh).shared.world ≡ sh.world)
        ⊎ RanFor p m s sh (handle_parsed E p m s sh).shared
  unfolding handle_request
  handle_parsed-world (err e) m s sh = inl refl
  handle_parsed-world (ok r) m s sh =
      handle_as-world (r.op == op_handshake) s.handshaked r m s sh refl

  -- A frame reaches a handler only as a request on a connection whose handshake is complete, only if
  -- the Party Mode gate lets this principal's action pass, and then exactly once; any other frame
  -- leaves the world behind the handlers as it was.
  pub handle_frame-world :
      (line : Option Value) (m : Moment) (s : V6Session) (sh : Shared E)
      → ((handle_frame E line m s sh).shared.world ≡ sh.world)
        ⊎ RanFor
            (parse_request json build line)
            m
            (counted E s)
            sh
            (handle_frame E line m s sh).shared
  unfolding handle_frame
  handle_frame-world line m s sh =
      handle_parsed-world (parse_request json build line) m (counted E s) sh

  -- The request in the frame is one that a guest may send.
  abbrev pub AsksAsGuest : Parsed Value → Type 0
  AsksAsGuest (err e) = ⊥
  AsksAsGuest (ok r) = GuestMaySend json r.op r.payload

  guest_ran :
      (p : Parsed Value) (m : Moment) (s : V6Session) (g : PartyMode roles) (sh sh' : Shared E)
      → sh.gate ≡ some g
      → g.enabled ≡ true
      → role_of roles (judged s) g.roles ≡ guest
      → RanFor p m s sh sh'
      → AsksAsGuest p
  guest_ran (err e) m s g sh sh' has on role ran = absurd ran
  guest_ran (ok r) m s g sh sh' has on role (up, ran) =
      check-guest roles json (judged s) r.op s.client_id r.payload m.unix_ms g on role
        (subst (λ o. Passes o r m s) has ran.0)

  -- While Party Mode is on, a frame of a guest moves the world behind the handlers only if it asks
  -- for a read, or in the mode "last" for one episode or at most one path.
  pub handle_frame-guest :
      (line : Option Value) (m : Moment) (s : V6Session) (g : PartyMode roles) (sh : Shared E)
      → sh.gate ≡ some g
      → g.enabled ≡ true
      → role_of roles (judged s) g.roles ≡ guest
      → ((handle_frame E line m s sh).shared.world ≡ sh.world)
        ⊎ AsksAsGuest (parse_request json build line)
  handle_frame-guest line m s g sh has on role = elim (handle_frame-world line m s sh) [
    | inl same ↦ inl same
    | inr ran ↦
        inr (guest_ran (parse_request json build line) m (counted E s) g sh _ has on role ran)
  ]
