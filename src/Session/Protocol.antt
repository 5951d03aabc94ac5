-- ===== src/Session/Protocol.antt =====
-- The version a legacy connection has negotiated, and what it may do before it has.
use mathlib.Core.Path.{subst, sym}
use mbrc_plugin.Base.{
  ℕ, ◌≤◌, String, true, false, ◌≡◌, refl, Option, none, some, List, [], ◌∷◌, ◌++◌, arith, string_eq,
  ◌⊎◌, inl, inr, Bool-cases, ltb, unwrap_or,
}
use mbrc_plugin.Json.{Json, Kind, number, string, object}
use mbrc_plugin.Json.Build.{JsonBuild}
use mbrc_plugin.Store.{Tables}
use mbrc_plugin.Permissions.Gate.{PartyMode, Refusal, check}
use mbrc_plugin.Permissions.V4.{action}
use mbrc_plugin.V4.{trim}
use mbrc_plugin.V4.Host.{Host}
use mbrc_plugin.V4.Handlers.{Handler, Replies}
use mbrc_plugin.V4.Dispatch.{Queries}
use mbrc_plugin.Wire.Lenient.{parse_lenient}
use mbrc_plugin.Session.{
  Session, ProtocolVersion, principal, client_name, Step, run, refuse, checked, gated, version_of,
  dispatch_command, handle_context, handle_value, handle_frame, counted, handle_protocol,
  parse_handshake, parse_u8, handshake_of,
}

-- No version yet, or one that the server speaks, in a byte.
abbrev pub IsNegotiated : Option ℕ → Type 0
IsNegotiated none = Unit
IsNegotiated (some v) = (4 ≤ v) × (v ≤ 255)

module _ (J : Json) (B : JsonBuild J) (T : Tables String String) (H : Host) (Qs : Queries J H) where
  open J use {Value, field}

  abbrev pub St : Type 0
  St = Step J B T H Qs

  -- What was negotiated stays so, or a version is negotiated that the server speaks.
  abbrev Renegotiates : Session → St → Type 0
  Renegotiates s st =
      (st.session.protocol_version ≡ s.protocol_version)
      ⊎ ((v : ℕ) × (st.session.protocol_version ≡ some v) × (4 ≤ v) × (v ≤ 255))

  parse_u8_bound : (t : String) → unwrap_or (parse_u8 t) 0 ≤ 255
  unfolding parse_u8
  parse_u8_bound String.[] = omega arith
  parse_u8_bound (String.◌∷◌ c t) = ground arith

  handshake_of_bound : (k : Kind Value) (v : Value) → (handshake_of J k v).version ≤ 255
  handshake_of_bound (number n) v = omega arith
  handshake_of_bound (string t) v = parse_u8_bound (trim t)
  handshake_of_bound object v = omega arith
  handshake_of_bound _ v = omega arith

  parse_handshake_bound : (v : Value) → (parse_handshake J v).version ≤ 255
  unfolding parse_handshake
  parse_handshake_bound v = handshake_of_bound (J.kind v) v

  run-session :
      (before : Replies Value) (o : Option (Handler J H)) (s : Session) (g : Option (PartyMode T))
      (w : H.World)
      → (run J B T H Qs before o s g w).session ≡ s
  run-session before none s g w = refl
  run-session before (some h) s g w = refl

  checked-session :
      (answer : Option Refusal × PartyMode T) (version : ProtocolVersion) (context : String)
      (v : Value) (s : Session) (w : H.World)
      → (checked J B T H Qs answer version context v s w).session ≡ s
  unfolding refuse
  checked-session (some why, g) version context v s w = run-session _ _ s _ w
  checked-session (none, g) version context v s w = run-session _ _ s _ w

  gated-session :
      (now_ms : ℕ) (g : Option (PartyMode T)) (version : ProtocolVersion) (context : String)
      (v : Value) (s : Session) (w : H.World)
      → (gated J B T H Qs now_ms g version context v s w).session ≡ s
  gated-session now_ms none version context v s w = run-session _ _ s _ w
  gated-session now_ms (some g) version context v s w =
      checked-session (check T (principal s) context (action J context v) (client_name s) now_ms g)
        version context v s w

  dispatch_command-protocol :
      (protocol : Option ℕ) (now_ms : ℕ) (g : Option (PartyMode T)) (context : String) (v : Value)
      (s : Session) (w : H.World)
      → s.protocol_version ≡ protocol
      → (dispatch_command J B T H Qs now_ms context v s g w).session.protocol_version ≡ protocol
  unfolding dispatch_command
  dispatch_command-protocol none now_ms g context v s w e = rw (e, dispatch_command) e
  dispatch_command-protocol (some n) now_ms g context v s w e =
      ground (arith, gated-session now_ms g (version_of J B T H Qs n) context v s w)

  handle_protocol-Renegotiates :
      (v : Value) (s : Session) (g : Option (PartyMode T)) (w : H.World)
      → Renegotiates s (handle_protocol J B T H Qs v s g w)
  unfolding handle_protocol
  handle_protocol-Renegotiates v s g w = elim (Bool-cases (ltb (parse_handshake J v).version 4)) [
    | inl old ↦ inl (rw (old, handle_protocol) refl)
    | inr spoken ↦ inr (
      (parse_handshake J v).version,
      rw (spoken, handle_protocol) refl,
      ground arith,
      parse_handshake_bound v,
    )
  ]

  -- What a line does before a version is negotiated: at most negotiate one.
  abbrev OnlyTalks : Option (PartyMode T) → H.World → St → Type 0
  OnlyTalks g w st = (st.calls ≡ []) × (st.world ≡ w) × (st.gate ≡ g)

  handle_protocol-OnlyTalks :
      (v : Value) (s : Session) (g : Option (PartyMode T)) (w : H.World)
      → OnlyTalks g w (handle_protocol J B T H Qs v s g w)
  unfolding handle_protocol
  handle_protocol-OnlyTalks v s g w = ground arith

  dispatch_command-OnlyTalks :
      (now_ms : ℕ) (g : Option (PartyMode T)) (context : String) (v : Value) (s : Session)
      (w : H.World)
      → s.protocol_version ≡ none
      → OnlyTalks g w (dispatch_command J B T H Qs now_ms context v s g w)
        × ((dispatch_command J B T H Qs now_ms context v s g w).close ≡ true)
  unfolding dispatch_command
  dispatch_command-OnlyTalks now_ms g context v s w e =
      rw (e, dispatch_command) ((refl, refl, refl), refl)

  -- The state after a line without the counts.
  handle_context-Renegotiates :
      (now_ms : ℕ) (g : Option (PartyMode T)) (context : String) (v : Value) (s : Session)
      (w : H.World)
      → Renegotiates s (handle_context J B T H Qs now_ms context v s g w)
  unfolding handle_context
  handle_context-Renegotiates now_ms g context v s w = ground (
    arith,
    handle_protocol-Renegotiates v s g w,
    dispatch_command-protocol s.protocol_version now_ms g context v s w refl,
  )

  handle_context-OnlyTalks :
      (now_ms : ℕ) (g : Option (PartyMode T)) (context : String) (v : Value) (s : Session)
      (w : H.World)
      → s.protocol_version ≡ none
      → OnlyTalks g w (handle_context J B T H Qs now_ms context v s g w)
  unfolding handle_context
  handle_context-OnlyTalks now_ms g context v s w e = ground (
    arith,
    handle_protocol-OnlyTalks v s g w,
    dispatch_command-OnlyTalks now_ms g context v s w e,
  )

  handle_value-Renegotiates :
      (now_ms : ℕ) (o : Option Value) (s : Session) (g : Option (PartyMode T)) (w : H.World)
      → Renegotiates s (handle_value J B T H Qs now_ms o s g w)
  handle_value-Renegotiates now_ms none s g w = inl refl
  handle_value-Renegotiates now_ms (some v) s g w = handle_context-Renegotiates now_ms g _ _ s w

  handle_value-OnlyTalks :
      (now_ms : ℕ) (o : Option Value) (s : Session) (g : Option (PartyMode T)) (w : H.World)
      → s.protocol_version ≡ none
      → OnlyTalks g w (handle_value J B T H Qs now_ms o s g w)
  handle_value-OnlyTalks now_ms none s g w e = (refl, refl, refl)
  handle_value-OnlyTalks now_ms (some v) s g w e = handle_context-OnlyTalks now_ms g _ _ s w e

  module _ (from_str : String → Option Value) where
    abbrev frame : ℕ × String → Session → Option (PartyMode T) → H.World → St
    frame (now_ms, line) s g w = handle_frame J B T H Qs from_str now_ms line s g w

    frame-Renegotiates :
        (l : ℕ × String) (s : Session) (g : Option (PartyMode T)) (w : H.World)
        → Renegotiates s (frame l s g w)
    unfolding handle_frame
    frame-Renegotiates (now_ms, line) s g w =
        handle_value-Renegotiates now_ms (parse_lenient J from_str line) (counted J B T H Qs s) g w

    frame-OnlyTalks :
        (l : ℕ × String) (s : Session) (g : Option (PartyMode T)) (w : H.World)
        → s.protocol_version ≡ none
        → OnlyTalks g w (frame l s g w)
    unfolding handle_frame
    frame-OnlyTalks (now_ms, line) s g w e =
        handle_value-OnlyTalks now_ms (parse_lenient J from_str line) (counted J B T H Qs s) g w e

    step-IsNegotiated :
        (l : ℕ × String) (s : Session) (g : Option (PartyMode T)) (w : H.World)
        → IsNegotiated s.protocol_version
        → IsNegotiated (frame l s g w).session.protocol_version
    step-IsNegotiated l s g w h = elim (frame-Renegotiates l s g w) [
      | inl same ↦ subst IsNegotiated (sym same) h
      | inr (v, new, low, high) ↦ subst IsNegotiated (sym new) (low, high)
    ]

    -- The lines of a connection, each with the time it comes at.
    abbrev pub run_lines : List (ℕ × String) → Session → Option (PartyMode T) → H.World → St
    run_lines [] s g w = record {
      session = s;
      gate = g;
      world = w;
      replies = [];
      close = false;
      calls = [];
    }
    run_lines (l ∷ ls) s g w =
        let st = frame l s g w in
        let rest = run_lines ls st.session st.gate st.world in
        record {
          session = rest.session;
          gate = rest.gate;
          world = rest.world;
          replies = st.replies ++ rest.replies;
          close = rest.close;
          calls = st.calls ++ rest.calls;
        }

    -- Whatever lines come, the version that a connection negotiates is one that the server speaks.
    pub run_lines-IsNegotiated :
        (ls : List (ℕ × String)) (s : Session) (g : Option (PartyMode T)) (w : H.World)
        → IsNegotiated s.protocol_version
        → IsNegotiated (run_lines ls s g w).session.protocol_version
    run_lines-IsNegotiated [] s g w h = h
    run_lines-IsNegotiated (l ∷ ls) s g w h =
        run_lines-IsNegotiated ls (frame l s g w).session (frame l s g w).gate (frame l s g w).world
          (step-IsNegotiated l s g w h)

    unnegotiated_before :
        (ls : List (ℕ × String)) (s : Session) (g : Option (PartyMode T)) (w : H.World)
        → (run_lines ls s g w).session.protocol_version ≡ none
        → s.protocol_version ≡ none
    unnegotiated_before [] s g w e = e
    unnegotiated_before (l ∷ ls) s g w e = ground (
      arith,
      frame-Renegotiates l s g w,
      unnegotiated_before ls (frame l s g w).session (frame l s g w).gate (frame l s g w).world e,
    )

    -- As long as a connection has negotiated no version, no line of it has reached MusicBee or the
    -- Party Mode gate.
    pub run_lines-unnegotiated :
        (ls : List (ℕ × String)) (s : Session) (g : Option (PartyMode T)) (w : H.World)
        → (run_lines ls s g w).session.protocol_version ≡ none
        → ((run_lines ls s g w).calls ≡ [])
          × ((run_lines ls s g w).world ≡ w)
          × ((run_lines ls s g w).gate ≡ g)
    run_lines-unnegotiated [] s g w e = (refl, refl, refl)
    run_lines-unnegotiated (l ∷ ls) s g w e = ground (
      arith,
      frame-OnlyTalks l s g w (unnegotiated_before (l ∷ ls) s g w e),
      run_lines-unnegotiated ls (frame l s g w).session (frame l s g w).gate (frame l s g w).world
          e,
    )
