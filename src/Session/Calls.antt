-- ===== src/Session/Calls.antt =====
-- What a legacy connection can make MusicBee do, under Party Mode and before the handshake.
use mathlib.Core.Path.{subst}
use mbrc_plugin.Base.{
  ℕ, ◌≤◌, String, Bool, true, ◌≡◌, refl, Option, none, some, List, [], ◌∷◌, arith, All, any, ◌==◌,
  string_eq, inl, inr, Bool-cases,
}
use mbrc_plugin.Json.{Json, as_str}
use mbrc_plugin.Json.Build.{JsonBuild}
use mbrc_plugin.Store.{Tables}
use mbrc_plugin.Permissions.{
  Role, Action, read, change, queue, contains, capabilities, max_tracks_per_add, permits,
  within_limit,
}
use mbrc_plugin.Permissions.Roles.{role_of}
use mbrc_plugin.Permissions.Gate.{PartyMode, Refusal, check, permitted}
use mbrc_plugin.Permissions.V4.{action, get_or_set, names}
use mbrc_plugin.V4.{as_set_string, as_int_lenient, as_bool_lenient, platform_from_name}
use mbrc_plugin.V4.Host.{HostCall, Host}
use mbrc_plugin.V4.Handlers.{Handler, Replies}
use mbrc_plugin.V4.Dispatch.{Queries}
use mbrc_plugin.V4.Judged.{call_capability, adds, Covers}
use mbrc_plugin.V4.Judged.Contexts.{IsJudged, dispatch-Judges, one_of_or_none, any-false}
use mbrc_plugin.Wire.Lenient.{parse_lenient}
use mbrc_plugin.Session.{
  Session, ProtocolVersion, principal, client_name, Step, run, handler, refuse, checked, gated,
  version_of, dispatch_command, handle_context, handle_value, handle_frame, counted,
  handle_protocol, accepts_current_position,
}

-- A limit on how many tracks are added, where there is one and any are.
abbrev pub IsWithin : (limit added : Option ℕ) → Type 0
IsWithin limit none = Unit
IsWithin none (some n) = Unit
IsWithin (some limit) (some n) = n ≤ limit

-- The role has the call's capability, and the call adds no more tracks than the role may.
abbrev pub RoleAllows : Role → HostCall → Type 0
RoleAllows r c =
    (contains (capabilities r) (call_capability c) ≡ true)
    × IsWithin (max_tracks_per_add r) (adds c)

within_limit-IsWithin :
    (limit : Option ℕ) (added : Option ℕ) → within_limit limit added ≡ true → IsWithin limit added
within_limit-IsWithin limit none h = tt
within_limit-IsWithin none (some n) h = tt
within_limit-IsWithin (some limit) (some n) h = ground arith

Covers-RoleAllows :
    (r : Role) (a : Action) (c : HostCall) → permits r a ≡ true → Covers a c → RoleAllows r c
unfolding permits
Covers-RoleAllows r read c p h = absurd h
Covers-RoleAllows r (change k) c p h = ground arith
Covers-RoleAllows r (queue k tracks) c p h =
    ground (arith, within_limit-IsWithin (max_tracks_per_add r) (adds c))

All-RoleAllows :
    (r : Role) (a : Action) (cs : List HostCall)
    → permits r a ≡ true
    → All (Covers a) cs
    → All (RoleAllows r) cs
All-RoleAllows r a [] p h = tt
All-RoleAllows r a (c ∷ cs) p h = (Covers-RoleAllows r a c p h.0, All-RoleAllows r a cs p h.1)

module _ (J : Json) (B : JsonBuild J) where
  no_text : as_str J B.nothing ≡ none
  no_text = ground (arith, B.kind-nothing)

  no_int : as_int_lenient J B.nothing ≡ none
  unfolding as_int_lenient
  no_int = ground (arith, B.kind-nothing, B.int-nothing)

  no_bool : as_bool_lenient J B.nothing ≡ none
  unfolding as_bool_lenient
  no_bool = ground (arith, B.kind-nothing)

  no_set_string : as_set_string J B.nothing ≡ none
  unfolding as_set_string
  no_set_string = ground (arith, B.kind-nothing)

  abbrev OnlyAsks : String → Type 0
  OnlyAsks context = action J context B.nothing ≡ some read

  muted : OnlyAsks "playermute"
  unfolding action names
  muted = ground (arith, B.kind-nothing, no_bool)

  scrobbled : OnlyAsks "scrobbler"
  unfolding action names
  scrobbled = ground (arith, B.kind-nothing, no_bool)

  shuffled : OnlyAsks "playershuffle"
  unfolding action names
  shuffled = ground (arith, B.kind-nothing, no_bool)

  repeated : OnlyAsks "playerrepeat"
  unfolding action names
  repeated = ground (arith, B.kind-nothing, no_bool)

  rated : OnlyAsks "nowplayinglfmrating"
  unfolding action names
  rated = ground (arith, B.kind-nothing, no_bool)

  get_or_set-OnlyAsks : All OnlyAsks get_or_set
  unfolding action names
  get_or_set-OnlyAsks = (
    rw no_int refl,
    (
      muted,
      (scrobbled, (shuffled, (repeated, (rw no_int refl, (rw no_set_string refl, (rated, tt)))))),
    ),
  )

  -- With no value, a context that sets or answers only answers.
  pub action-nothing :
      (context : String)
      → any (λ c. c == context) get_or_set ≡ true
      → action J context B.nothing ≡ some read
  action-nothing context h = elim (one_of_or_none OnlyAsks get_or_set context get_or_set-OnlyAsks) [
    | inl asks ↦ asks
    | inr other ↦ absurd (cc (h, any-false get_or_set context other))
  ]

module _ (J : Json) (B : JsonBuild J) (T : Tables String String) (H : Host) (Qs : Queries J H) where
  open J use {Value, field}

  abbrev RunsWithin : Role → Step J B T H Qs → Type 0
  RunsWithin r st = All (RoleAllows r) st.calls

  run-RunsWithin :
      (r : Role) (v5 : Bool) (s : Session) (a : Action) (o : Option (Handler J H))
      (before : Replies Value) (g : Option (PartyMode T)) (w : H.World)
      → permits r a ≡ true
      → IsJudged J H Qs v5 (platform_from_name s.platform) (some a) o
      → RunsWithin r (run J B T H Qs before o s g w)
  run-RunsWithin r v5 s a none before g w p h = tt
  run-RunsWithin r v5 s a (some handle) before g w p h = All-RoleAllows r a (handle w).calls p (h w)

  -- No action, no handler.
  run-unknown :
      (r : Role) (v5 : Bool) (s : Session) (o : Option (Handler J H)) (before : Replies Value)
      (g : Option (PartyMode T)) (w : H.World)
      → IsJudged J H Qs v5 (platform_from_name s.platform) none o
      → RunsWithin r (run J B T H Qs before o s g w)
  run-unknown r v5 s none before g w h = tt
  run-unknown r v5 s (some handle) before g w h = absurd h

  refuse-RunsWithin :
      (r : Role) (version : ProtocolVersion) (context : String) (s : Session)
      (g : Option (PartyMode T)) (w : H.World)
      → RunsWithin r (refuse J B T H Qs version context s g w)
  unfolding refuse permits
  refuse-RunsWithin r version context s g w =
      elim (Bool-cases (any (λ c. c == context) get_or_set)) [
        | inl settable ↦
            rw (settable, refuse)
              (run-RunsWithin r (accepts_current_position version) s read
                (handler J B T H Qs version s context B.nothing) _ g w refl
                (subst
                  (λ a.
                    IsJudged J H Qs (accepts_current_position version)
                      (platform_from_name s.platform) a
                      (handler J B T H Qs version s context B.nothing))
                  (action-nothing J B context settable)
                  (dispatch-Judges J H Qs (accepts_current_position version)
                    (platform_from_name s.platform) context B.nothing)))
        | inr other ↦ rw (other, refuse) tt
      ]

  passed-RunsWithin :
      (r : Role) (a : Option Action) (version : ProtocolVersion) (s : Session)
      (o : Option (Handler J H)) (g : Option (PartyMode T)) (w : H.World)
      → permitted r a ≡ true
      → IsJudged J H Qs (accepts_current_position version) (platform_from_name s.platform) a o
      → RunsWithin r (run J B T H Qs [] o s g w)
  unfolding permitted
  passed-RunsWithin r none version s o g w p h =
      run-unknown r (accepts_current_position version) s o [] g w h
  passed-RunsWithin r (some a) version s o g w p h =
      run-RunsWithin r (accepts_current_position version) s a o [] g w p h

  checked-RunsWithin :
      (r : Role) (a : Option Action) (answer : Option Refusal × PartyMode T)
      (version : ProtocolVersion) (context : String) (v : Value) (s : Session) (w : H.World)
      → (answer.0 ≡ none → permitted r a ≡ true)
      → IsJudged J H Qs
          (accepts_current_position version)
          (platform_from_name s.platform)
          a
          (handler J B T H Qs version s context v)
      → RunsWithin r (checked J B T H Qs answer version context v s w)
  checked-RunsWithin r a (some why, g) version context v s w p h =
      refuse-RunsWithin r version context s (some g) w
  checked-RunsWithin r a (none, g) version context v s w p h =
      passed-RunsWithin r a version s (handler J B T H Qs version s context v) (some g) w (p refl) h

  check-permitted :
      (s : Session) (context : String) (a : Option Action) (now_ms : ℕ) (g : PartyMode T)
      → g.enabled ≡ true
      → (check T (principal s) context a (client_name s) now_ms g).0 ≡ none
      → permitted (role_of T (principal s) g.roles) a ≡ true
  unfolding check
  check-permitted s context a now_ms g on e = ground arith

  gated-RunsWithin :
      (now_ms : ℕ) (g : PartyMode T) (version : ProtocolVersion) (context : String) (v : Value)
      (s : Session) (w : H.World)
      → g.enabled ≡ true
      → RunsWithin
          (role_of T (principal s) g.roles)
          (gated J B T H Qs now_ms (some g) version context v s w)
  gated-RunsWithin now_ms g version context v s w on =
      checked-RunsWithin (role_of T (principal s) g.roles) (action J context v)
        (check T (principal s) context (action J context v) (client_name s) now_ms g) version
        context v s w (check-permitted s context (action J context v) now_ms g on)
        (dispatch-Judges J H Qs (accepts_current_position version) (platform_from_name s.platform)
          context v)

  dispatch_command-RunsWithin :
      (protocol : Option ℕ) (now_ms : ℕ) (g : PartyMode T) (context : String) (v : Value)
      (s : Session) (w : H.World)
      → g.enabled ≡ true
      → s.protocol_version ≡ protocol
      → RunsWithin
          (role_of T (principal s) g.roles)
          (dispatch_command J B T H Qs now_ms context v s (some g) w)
  unfolding dispatch_command principal
  dispatch_command-RunsWithin none now_ms g context v s w on e = rw (e, dispatch_command) tt
  dispatch_command-RunsWithin (some n) now_ms g context v s w on e =
      rw (e, dispatch_command)
        (gated-RunsWithin now_ms g (version_of J B T H Qs n) context v s w on)

  handle_context-RunsWithin :
      (now_ms : ℕ) (g : PartyMode T) (context : String) (v : Value) (s : Session) (w : H.World)
      → g.enabled ≡ true
      → RunsWithin
          (role_of T (principal s) g.roles)
          (handle_context J B T H Qs now_ms context v s (some g) w)
  unfolding handle_context handle_protocol
  handle_context-RunsWithin now_ms g context v s w on =
      ground (arith, dispatch_command-RunsWithin s.protocol_version now_ms g context v s w on refl)

  handle_value-RunsWithin :
      (now_ms : ℕ) (g : PartyMode T) (o : Option Value) (s : Session) (w : H.World)
      → g.enabled ≡ true
      → RunsWithin (role_of T (principal s) g.roles) (handle_value J B T H Qs now_ms o s (some g) w)
  handle_value-RunsWithin now_ms g none s w on = tt
  handle_value-RunsWithin now_ms g (some v) s w on = handle_context-RunsWithin now_ms g _ _ s w on

  -- While Party Mode is on, each call on MusicBee that a line of a legacy client leads to takes a
  -- capability that the client's role has, and adds no more tracks than the role may, also where a
  -- refused set is answered with the current value.
  pub handle_frame-RoleAllows :
      (from_str : String → Option Value) (now_ms : ℕ) (line : String) (s : Session)
      (g : PartyMode T) (w : H.World)
      → g.enabled ≡ true
      → All
          (RoleAllows (role_of T (principal s) g.roles))
          (handle_frame J B T H Qs from_str now_ms line s (some g) w).calls
  unfolding handle_frame principal
  handle_frame-RoleAllows from_str now_ms line s g w on =
      handle_value-RunsWithin now_ms g (parse_lenient J from_str line) (counted J B T H Qs s) w on
