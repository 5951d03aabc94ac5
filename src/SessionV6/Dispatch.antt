-- ===== src/SessionV6/Dispatch.antt =====
-- The frames of a V6 connection (packages/mbrc-core/src/server/session_v6.rs): `handle_frame`, `pair`
-- and the dispatch of every other op.
use mbrc_plugin.Base.{
  ℕ, ◌+◌, String, Bool, true, false, Option, none, some, if◌then◌else◌, ◌==◌, string_eq, nat_eq,
  unwrap_or,
}
use mbrc_plugin.Base.Utf8.{utf8}
use mbrc_plugin.Json.{string}
use mbrc_plugin.Wire.V6.{
  ErrorCode, missing_field, invalid_field, unauthorized, not_allowed, forbidden, unavailable,
  IncomingRequest, ok, err, parse_request, op_handshake,
}
use mbrc_plugin.Registry.{IpAddr}
use mbrc_plugin.Pairing.{Pairing, Taken, granted, refused, take_code_at}
use mbrc_plugin.Permissions.Principal.{Principal, app, browser, anonymous}
use mbrc_plugin.Permissions.V6.{action}
use mbrc_plugin.Permissions.Gate.{PartyMode, check, assign_role}
use mbrc_plugin.SessionV6.{
  said, from_gate, from_pairing, value, paired, Frame, response, failed, reply, reply_and_close,
  V6Session, reject, Checked, good, bad, Moment, op_frame, Parsed,
}
use mbrc_plugin.SessionV6.Handle.{Environment, Shared, Step, handle_handshake}

module _ (E : Environment) where
  open E use {json, build, roles, World, dispatch}
  open json use {Value, kind, field}

  abbrev pub check_code : Option Value → Checked String
  check_code none = bad missing_field
  check_code (some v) = elim (kind v) [ string code ↦ good code | _ ↦ bad invalid_field ]

  abbrev pub code_refused : ℕ → ErrorCode → Frame Value
  code_refused id missing_field =
      failed id missing_field (said "missing required field: code") (some "code")
  code_refused id code = failed id code (said "code must be a string") (some "code")

  -- The role of a code goes to the app that offered it.
  abbrev pub hand_out :
      ℕ → String → PartyMode roles → Taken × Pairing → Shared E → Frame Value × Shared E
  hand_out id client g (granted r, pairing') sh = (
    response id (paired r),
    record sh { gate = some (assign_role roles (app client) r g).0; pairing = some pairing' },
  )
  hand_out id client g (refused why, pairing') sh =
      (failed id unauthorized (from_pairing why) none, record sh { pairing = some pairing' })

  abbrev pub pair_not_here : ℕ → Frame Value
  pair_not_here id = failed id unavailable (said "pairing is not available here") none

  -- `(Some((pairing, peer)), Some(gate))`, or pairing is not available here.
  abbrev pub pair_at :
      Option IpAddr
      → Option Pairing
      → Option (PartyMode roles)
      → ℕ
      → String
      → String
      → Moment
      → Shared E
      → Frame Value × Shared E
  pair_at none pairing gate id code client m sh = (pair_not_here id, sh)
  pair_at (some peer) none gate id code client m sh = (pair_not_here id, sh)
  pair_at (some peer) (some pairing) none id code client m sh = (pair_not_here id, sh)
  pair_at (some peer) (some pairing) (some g) id code client m sh =
      hand_out id client g (take_code_at (utf8 code) peer m.instant pairing) sh

  abbrev pub pair_app : ℕ → String → String → Moment → V6Session → Shared E → Frame Value × Shared E
  pair_app id code client m s sh = pair_at s.peer sh.pairing sh.gate id code client m sh

  abbrev pub pair_unproven : ℕ → Frame Value
  pair_unproven id =
      failed id unavailable
        (said "this server cannot verify client identities, so it cannot hold a role for this app")
        none

  abbrev pub pair_as :
      Option Principal → ℕ → String → Moment → V6Session → Shared E → Frame Value × Shared E
  pair_as (some (app client)) id code m s sh = pair_app id code client m s sh
  pair_as (some (browser b)) id code m s sh =
      (failed id not_allowed (said "this browser is paired through `POST /api/pair`") none, sh)
  pair_as _ id code m s sh = (pair_unproven id, sh)

  abbrev pub pair_checked :
      Checked String → ℕ → Moment → V6Session → Shared E → Frame Value × Shared E
  pair_checked (bad code) id m s sh = (code_refused id code, sh)
  pair_checked (good code) id m s sh = pair_as s.principal id code m s sh

  unfoldable pub pair : ℕ → Value → Moment → V6Session → Shared E → Frame Value × Shared E
  pair id v m s sh = pair_checked (check_code (field v "code")) id m s sh

  -- The handler's turn.
  abbrev pub run_op : IncomingRequest Value → Shared E → Frame Value × Shared E
  run_op r sh =
      let (result, world') = dispatch r.op r.payload sh.world in
      (op_frame r.id r.op result, record sh { world = world' })

  unfoldable pub gated :
      IncomingRequest Value → Moment → V6Session → Shared E → Frame Value × Shared E
  gated r m s sh = elim sh.gate [
    | none ↦ run_op r sh
    | some g ↦
        let (refusal, g') =
          check roles (unwrap_or s.principal anonymous) r.op (action json r.op r.payload)
            s.client_id m.unix_ms g in
        elim refusal [
          | some why ↦
              (failed r.id forbidden (from_gate why.message) none, record sh { gate = some g' })
          | none ↦ run_op r (record sh { gate = some g' })
        ]
  ]

  unfoldable pub dispatch_op :
      IncomingRequest Value → Moment → V6Session → Shared E → Frame Value × Shared E
  unfolding gated pair
  dispatch_op r m s sh =
      if r.op == "ping"
      then (response r.id (value r.payload), sh)
      else if r.op == "pair"
      then pair r.id r.payload m s sh
      else gated r m s sh

  -- By whether the op is the handshake, and whether the handshake is complete.
  abbrev pub handle_as :
      (is_handshake handshaked : Bool)
      → IncomingRequest Value
      → Moment
      → V6Session
      → Shared E
      → Step E
  handle_as true true r m s sh = record {
    session = s;
    shared = sh;
    outcome =
        reply
          (failed r.id not_allowed (said "handshake already completed on this connection") none);
  }
  handle_as true false r m s sh = handle_handshake E r.payload m s sh
  handle_as false true r m s sh =
      let (f, sh') = dispatch_op r m s sh in record { session = s; shared = sh'; outcome = reply f }
  handle_as false false r m s sh = record {
    session = s;
    shared = sh;
    outcome =
        reply_and_close
          (failed r.id unauthorized (said "handshake required before any other op") none);
  }

  unfoldable pub handle_request : IncomingRequest Value → Moment → V6Session → Shared E → Step E
  unfolding handle_handshake dispatch_op
  handle_request r m s sh = handle_as (r.op == op_handshake) s.handshaked r m s sh

  abbrev pub counted : V6Session → V6Session
  counted s = record s { frames_in = s.frames_in + 1 }

  abbrev pub handle_parsed : Parsed Value → Moment → V6Session → Shared E → Step E
  handle_parsed (ok r) m s sh = handle_request r m s sh
  handle_parsed (err e) m s sh = record { session = s; shared = sh; outcome = reject e s }

  -- The frame that the line reads as, `none` where it is no JSON.
  unfoldable pub handle_frame : Option Value → Moment → V6Session → Shared E → Step E
  unfolding handle_request
  handle_frame line m s sh = handle_parsed (parse_request json build line) m (counted s) sh
