-- ===== src/SessionV6/Handshake.antt =====
-- What the handshake of a V6 connection settles, and what it takes to be an app.
use mathlib.Core.Path.{subst}
use mbrc_plugin.Base.{
  ℕ, String, Bool, true, false, ◌≡◌, refl, sym, ap, ◌∙◌, Option, none, some, List, arith, ◌==◌,
  string_eq,
}
use mbrc_plugin.Wire.V6.{
  IncomingRequest, Parsed, ok, err, parse_request, op_handshake, ErrorCode, ClientType,
}
use mbrc_plugin.Clients
use mbrc_plugin.Clients.{
  Identity, ClientRecord, known_record, matches, identify_in, identify, verifies,
}
use mbrc_plugin.SessionV6.{V6Session, Moment, Checked, good, bad}
use mbrc_plugin.SessionV6.Handle.{
  Environment, Shared, Step, handle_handshake, settle, settle_with, identified, answered, accept,
  checked_handshake, with_clients, pinned_now, introduction, check_version, check_client_id,
  check_client_type,
}
use mbrc_plugin.SessionV6.Dispatch.{handle_frame, handle_request, handle_as, handle_parsed, counted}

module _ (E : Environment) where
  open E use {json, build, roles, codec, identities, hash}
  open json use {Value, field}

  handle_as-fixed :
      (first : Bool) (r : IncomingRequest Value) (m : Moment) (s : V6Session) (sh : Shared E)
      → (handle_as E first true r m s sh).session ≡ s
  handle_as-fixed true r m s sh = refl
  handle_as-fixed false r m s sh = refl

  handle_parsed-fixed :
      (p : Parsed Value) (m : Moment) (s : V6Session) (sh : Shared E)
      → s.handshaked ≡ true
      → (handle_parsed E p m s sh).session ≡ s
  unfolding handle_request
  handle_parsed-fixed (err e) m s sh up = refl
  handle_parsed-fixed (ok r) m s sh up =
      subst (λ b. (handle_as E (r.op == op_handshake) b r m s sh).session ≡ s) (sym up)
        (handle_as-fixed (r.op == op_handshake) r m s sh)

  -- A connection completes one handshake: no frame after it changes who the connection is, what it
  -- was told or whether it takes events.
  pub handle_frame-fixed :
      (line : Option Value) (m : Moment) (s : V6Session) (sh : Shared E)
      → s.handshaked ≡ true
      → (handle_frame E line m s sh).session ≡ counted E s
  unfolding handle_frame
  handle_frame-fixed line m s sh up =
      handle_parsed-fixed (parse_request json build line) m (counted E s) sh up

  -- What a connection without a handshake after the frame has done: nothing.
  abbrev pub DoesNothing : Step E → V6Session → Shared E → Type 0
  DoesNothing st s sh = (st.session.handshaked ≡ false) → (st.session ≡ s) × (st.shared ≡ sh)

  -- The identity check that refuses leaves the table as it was.
  identify_in-refused :
      (fresh : String) (pinned : List String) (now : ℕ) (id : String) (token : Option String)
      (about : Clients.Introduction) (t : identities.Table)
      → (identify_in codec identities hash fresh pinned now id token about t).0 ≡ Clients.refused
      → (identify_in codec identities hash fresh pinned now id token about t).1 ≡ t
  unfolding identify_in
  identify_in-refused fresh pinned now id token about t e = ground arith

  identified-refused :
      (id : String) (ct : ClientType) (v : Value) (m : Moment) (s : V6Session) (sh : Shared E)
      (table : Option identities.Table)
      → (identified E id ct v m s sh table).0 ≡ Clients.refused
      → (identified E id ct v m s sh table).1 ≡ table
  unfolding identify
  identified-refused id ct v m s sh none e = refl
  identified-refused id ct v m s sh (some t) e = ap some (
      identify_in-refused m.fresh_token (pinned_now E sh.gate sh.party_roles) m.unix_ms id _
        (introduction E v ct s) t e)

  answered-DoesNothing :
      (a : Identity) (proven : Bool) (id : String) (ct : ClientType) (nb : Bool) (s : V6Session)
      (sh sh' : Shared E)
      → (a ≡ Clients.refused → sh' ≡ sh)
      → DoesNothing (answered E a proven id ct nb s sh') s sh
  unfolding accept
  answered-DoesNothing Clients.refused proven id ct nb s sh sh' same down = (refl, same refl)
  answered-DoesNothing Clients.known proven id ct nb s sh sh' same down = cc
  answered-DoesNothing (Clients.issued token) proven id ct nb s sh sh' same down = cc

  settle_with-DoesNothing :
      (clients : Option (Option identities.Table)) (id : String) (ct : ClientType) (nb : Bool)
      (v : Value) (m : Moment) (s : V6Session) (sh : Shared E)
      → sh.clients ≡ clients
      → DoesNothing (settle_with E clients id ct nb v m s sh) s sh
  unfolding accept
  settle_with-DoesNothing none id ct nb v m s sh e down = cc
  settle_with-DoesNothing (some t) id ct nb v m s sh e down =
      answered-DoesNothing (identified E id ct v m s sh t).0 _ id ct nb s sh
        (with_clients E sh (identified E id ct v m s sh t).1)
        (λ r.
          ap (λ x. record sh { clients = x })
            (ap some (identified-refused id ct v m s sh t r) ∙ sym e))
        down

  checked_handshake-DoesNothing :
      (version : Option ErrorCode) (client_id : Checked String) (ct : Checked ClientType)
      (v : Value) (m : Moment) (s : V6Session) (sh : Shared E)
      → DoesNothing (checked_handshake E version client_id ct v m s sh) s sh
  unfolding settle
  checked_handshake-DoesNothing (some code) id ct v m s sh down = (refl, refl)
  checked_handshake-DoesNothing none (bad code) ct v m s sh down = (refl, refl)
  checked_handshake-DoesNothing none (good id) (bad code) v m s sh down = (refl, refl)
  checked_handshake-DoesNothing none (good id) (good ct) v m s sh down =
      settle_with-DoesNothing sh.clients id ct _ v m s sh refl down

  handle_as-DoesNothing :
      (first up : Bool) (r : IncomingRequest Value) (m : Moment) (s : V6Session) (sh : Shared E)
      → s.handshaked ≡ up
      → DoesNothing (handle_as E first up r m s sh) s sh
  unfolding handle_handshake
  handle_as-DoesNothing true true r m s sh e down = (refl, refl)
  handle_as-DoesNothing true false r m s sh e down =
      checked_handshake-DoesNothing (check_version E _) (check_client_id E _)
        (check_client_type E _) r.payload m s sh down
  handle_as-DoesNothing false true r m s sh e down = cc (sym e, down)
  handle_as-DoesNothing false false r m s sh e down = (refl, refl)

  handle_parsed-DoesNothing :
      (p : Parsed Value) (m : Moment) (s : V6Session) (sh : Shared E)
      → DoesNothing (handle_parsed E p m s sh) s sh
  unfolding handle_request
  handle_parsed-DoesNothing (err e) m s sh down = (refl, refl)
  handle_parsed-DoesNothing (ok r) m s sh down =
      handle_as-DoesNothing (r.op == op_handshake) s.handshaked r m s sh refl down

  -- A frame after which the connection has no handshake, and is closed, has changed nothing: not
  -- the roles, the identities, the pairing or the world, nor the connection but for its count of
  -- frames.
  pub handle_frame-DoesNothing :
      (line : Option Value) (m : Moment) (s : V6Session) (sh : Shared E)
      → (handle_frame E line m s sh).session.handshaked ≡ false
      → ((handle_frame E line m s sh).session ≡ counted E s)
        × ((handle_frame E line m s sh).shared ≡ sh)
  unfolding handle_frame
  handle_frame-DoesNothing line m s sh down =
      handle_parsed-DoesNothing (parse_request json build line) m (counted E s) sh down
