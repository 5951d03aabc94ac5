-- ===== src/SessionV6/Apps.antt =====
-- What it takes for a V6 connection to be an app to Party Mode, and to get a role by a pairing code.
use mathlib.Core.Path.{subst}
use mbrc_plugin.Base.{
  ℕ, String, Bool, true, false, ◌≡◌, refl, ◌⊎◌, inl, inr, Option, none, some, List, ◌==◌, string_eq,
  Bool-cases, Option-cases, ◌>>=◌,
}
use mbrc_plugin.Json.{as_str}
use mbrc_plugin.Wire.V6.{
  IncomingRequest, Parsed, ok, err, parse_request, op_handshake, ErrorCode, ClientType,
}
use mbrc_plugin.Permissions.{default_role}
use mbrc_plugin.Permissions.Principal.{app}
use mbrc_plugin.Permissions.Roles.{role_of}
use mbrc_plugin.Permissions.Roles.Laws.{role_of-unassign_self}
use mbrc_plugin.Permissions.Gate.{PartyMode, unassign_role}
use mbrc_plugin.Clients
use mbrc_plugin.Clients.{
  Identity, ClientRecord, known_record, matches, identify_in, identify, verifies,
}
use mbrc_plugin.SessionV6.{V6Session, Moment, Checked, good, bad}
use mbrc_plugin.SessionV6.Handle.{
  Environment, Shared, handle_handshake, settle, settle_with, identified, answered, accept,
  checked_handshake, drop_role, settled, with_clients, pinned_now, introduction, check_version,
  check_client_id, check_client_type,
}
use mbrc_plugin.SessionV6.Dispatch.{handle_frame, handle_request, handle_as, handle_parsed, counted}

module _ (E : Environment) where
  open E use {json, build, roles, codec, identities, hash}
  open json use {Value, field}

  -- The app has no role of its own.
  abbrev pub HasNoRole : String → Option (PartyMode roles) → Type 0
  HasNoRole id none = Unit
  HasNoRole id (some g) = role_of roles (app id) g.roles ≡ default_role

  -- The frame presents the token that this id was issued, or the id was not known and starts anew
  -- without a role.
  abbrev pub IsProven : String → (token : Option String) → (before after : Shared E) → Type 0
  IsProven id token sh sh' =
      (t : identities.Table) × (sh.clients ≡ some (some t))
      × (((r : ClientRecord) × (known_record codec identities id t ≡ some r)
            × (matches codec identities hash token r ≡ true))
          ⊎ (known_record codec identities id t ≡ none) × HasNoRole id sh'.gate)

  drop_role-HasNoRole :
      (token id : String) (gate : Option (PartyMode roles))
      → HasNoRole id (drop_role E (some token) id gate)
  unfolding unassign_role
  drop_role-HasNoRole token id none = tt
  drop_role-HasNoRole token id (some g) = role_of-unassign_self roles (app id) g.roles

  app_inj : {a b : String} → some (app a) ≡ some (app b) → a ≡ b
  app_inj e = cc

  accept-app :
      (issued : Option String) (proven : Bool) (id who : String) (ct : ClientType) (nb : Bool)
      (s : V6Session) (sh : Shared E)
      → s.principal ≡ none
      → (accept E issued proven id ct nb s sh).session.principal ≡ some (app who)
      → (proven ≡ true) × (id ≡ who)
  unfolding accept
  accept-app issued true id who ct nb s sh n e = (refl, app_inj (rw (n, settled) at e))
  accept-app issued false id who ct nb s sh n e = cc (rw (n, settled) at e)

  -- What the identity check found, by its answer.
  abbrev pub Found : Identity → String → Option String → identities.Table → Type 0
  Found Clients.refused id token t = Unit
  Found Clients.known id token t =
      (r : ClientRecord) × (known_record codec identities id t ≡ some r)
      × (matches codec identities hash token r ≡ true)
  Found (Clients.issued fresh) id token t = known_record codec identities id t ≡ none

  identify_in-Found :
      (fresh : String) (pinned : List String) (now : ℕ) (id : String) (token : Option String)
      (about : Clients.Introduction) (t : identities.Table)
      → Found (identify_in codec identities hash fresh pinned now id token about t).0 id token t
  unfolding identify_in
  identify_in-Found fresh pinned now id token about t =
      elim (Option-cases (known_record codec identities id t)) [
        | inl new ↦ rw (new, identify_in) new
        | inr (r, old) ↦ elim (Bool-cases (matches codec identities hash token r)) [
          | inl same ↦ rw (old, same, identify_in) (r, old, same)
          | inr differs ↦ rw (old, differs, identify_in) tt
        ]
      ]

  answered-app :
      (a : Identity) (proven : Bool) (token : Option String) (t : identities.Table)
      (id who : String) (ct : ClientType) (nb : Bool) (s : V6Session) (before sh : Shared E)
      → s.principal ≡ none
      → before.clients ≡ some (some t)
      → Found a id token t
      → (answered E a proven id ct nb s sh).session.principal ≡ some (app who)
      → IsProven who token before (answered E a proven id ct nb s sh).shared
  unfolding accept
  answered-app Clients.refused proven token t id who ct nb s before sh n has found e = cc
  answered-app Clients.known proven token t id who ct nb s before sh n has (r, old, same) e =
      let own : id ≡ who = (accept-app none proven id who ct nb s sh n e).1 in
      (t, has, inl (r, subst (λ x. known_record codec identities x t ≡ some r) own old, same))
  answered-app (Clients.issued fresh) proven token t id who ct nb s before sh n has new e =
      let own : id ≡ who = (accept-app (some fresh) proven id who ct nb s sh n e).1 in
      (
        t,
        has,
        inr (
          subst (λ x. known_record codec identities x t ≡ none) own new,
          subst (λ x. HasNoRole x (drop_role E (some fresh) id sh.gate)) own
              (drop_role-HasNoRole fresh id sh.gate),
        ),
      )

  abbrev pub presented : Value → Option String
  presented v = field v "client_token" >>= as_str json

  settle_with-app :
      (clients : Option (Option identities.Table)) (id who : String) (ct : ClientType) (nb : Bool)
      (v : Value) (m : Moment) (s : V6Session) (sh : Shared E)
      → s.principal ≡ none
      → sh.clients ≡ clients
      → (settle_with E clients id ct nb v m s sh).session.principal ≡ some (app who)
      → IsProven who (presented v) sh (settle_with E clients id ct nb v m s sh).shared
  unfolding identify
  settle_with-app none id who ct nb v m s sh n has e =
      absurd (cc ((accept-app none false id who ct nb s sh n e).0))
  settle_with-app (some none) id who ct nb v m s sh n has e =
      absurd (cc ((accept-app none false id who ct nb s (with_clients E sh none) n e).0))
  settle_with-app (some (some t)) id who ct nb v m s sh n has e =
      answered-app (identified E id ct v m s sh (some t)).0 true (presented v) t id who ct nb s sh
        (with_clients E sh (identified E id ct v m s sh (some t)).1) n has
        (identify_in-Found m.fresh_token (pinned_now E sh.gate sh.party_roles) m.unix_ms id
          (presented v) (introduction E v ct s) t)
        e

  checked_handshake-app :
      (version : Option ErrorCode) (client_id : Checked String) (ct : Checked ClientType)
      (who : String) (v : Value) (m : Moment) (s : V6Session) (sh : Shared E)
      → s.principal ≡ none
      → (checked_handshake E version client_id ct v m s sh).session.principal ≡ some (app who)
      → IsProven who (presented v) sh (checked_handshake E version client_id ct v m s sh).shared
  unfolding settle
  checked_handshake-app (some code) id ct who v m s sh n e = cc
  checked_handshake-app none (bad code) ct who v m s sh n e = cc
  checked_handshake-app none (good id) (bad code) who v m s sh n e = cc
  checked_handshake-app none (good id) (good ct) who v m s sh n e =
      settle_with-app sh.clients id who ct _ v m s sh n refl e

  -- The request in the frame proves the id.
  abbrev pub Proves : Parsed Value → String → (before after : Shared E) → Type 0
  Proves (err e) who sh sh' = ⊥
  Proves (ok r) who sh sh' = IsProven who (presented r.payload) sh sh'

  handle_as-app :
      (first up : Bool) (r : IncomingRequest Value) (who : String) (m : Moment) (s : V6Session)
      (sh : Shared E)
      → s.principal ≡ none
      → (handle_as E first up r m s sh).session.principal ≡ some (app who)
      → Proves (ok r) who sh (handle_as E first up r m s sh).shared
  unfolding handle_handshake
  handle_as-app true true r who m s sh n e = cc
  handle_as-app true false r who m s sh n e =
      checked_handshake-app (check_version E _) (check_client_id E _) (check_client_type E _) who
        r.payload m s sh n e
  handle_as-app false true r who m s sh n e = cc
  handle_as-app false false r who m s sh n e = cc

  handle_parsed-app :
      (p : Parsed Value) (who : String) (m : Moment) (s : V6Session) (sh : Shared E)
      → s.principal ≡ none
      → (handle_parsed E p m s sh).session.principal ≡ some (app who)
      → Proves p who sh (handle_parsed E p m s sh).shared
  unfolding handle_request
  handle_parsed-app (err e) who m s sh n h = cc
  handle_parsed-app (ok r) who m s sh n h =
      handle_as-app (r.op == op_handshake) s.handshaked r who m s sh n h

  -- A connection becomes an app to Party Mode only by a frame that presents the token that the
  -- app's id was issued, or with an id that was not known, which then has no role of its own.
  pub handle_frame-app :
      (line : Option Value) (who : String) (m : Moment) (s : V6Session) (sh : Shared E)
      → s.principal ≡ none
      → (handle_frame E line m s sh).session.principal ≡ some (app who)
      → Proves (parse_request json build line) who sh (handle_frame E line m s sh).shared
  unfolding handle_frame
  handle_frame-app line who m s sh n e =
      handle_parsed-app (parse_request json build line) who m (counted E s) sh n e
