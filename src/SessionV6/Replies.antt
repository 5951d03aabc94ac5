-- ===== src/SessionV6/Replies.antt =====
-- What a client gets back for a frame, and when the connection is closed.
use mbrc_plugin.Base.{
  ℕ, String, Bool, true, false, not, ◌≡◌, refl, Option, none, some, List, [], ◌∷◌, arith, ◌==◌,
  string_eq, if◌then◌else◌,
}
use mbrc_plugin.Wire.V6.{
  IncomingRequest, Parsed, ok, err, parse_request, op_handshake, request_error_id, ErrorCode,
  ClientType, RequestError,
}
use mbrc_plugin.Clients.{Identity}
use mbrc_plugin.SessionV6.{
  Frame, response, failed, V6Session, Moment, reject, reject_handshake, Checked, good, bad,
  op_frame,
}
use mbrc_plugin.SessionV6.Handle.{
  Environment, Shared, Step, handle_handshake, settle, accept, check_version, check_client_id,
  check_client_type, settle_with, identified, rejected, checked_handshake, answered,
}
use mbrc_plugin.SessionV6.Dispatch.{
  handle_frame, handle_request, dispatch_op, pair, gated, counted, handle_as, handle_parsed,
}
use mbrc_plugin.CommandsV6.{OpResult}

abbrev pub frame_id : {A : Type 0} → Frame A → ℕ
frame_id (response id p) = id
frame_id (failed id code notice at) = id

-- One frame, with this id.
abbrev pub IsOne : {A : Type 0} → ℕ → List (Frame A) → Type 0
IsOne id (f ∷ []) = frame_id f ≡ id
IsOne id _ = ⊥

-- The reply of a handshake has the id 0, that of any other frame the id that it carries.
abbrev pub answer_id : {A : Type 0} → Parsed A → (handshaked : Bool) → ℕ
answer_id (err e) handshaked = request_error_id e
answer_id (ok r) handshaked = if handshaked then r.id else if r.op == op_handshake then 0 else r.id

op_frame-id :
    {A : Type 0} (id : ℕ) (op : String) (o : Option (OpResult A)) → frame_id (op_frame id op o) ≡ id
op_frame-id id op o = ground arith

reject_handshake-IsOne :
    (A : Type 0) (code : ErrorCode) (at : String)
    → IsOne {A = A} 0 (reject_handshake code at).replies
      × ((reject_handshake {V = A} code at).close ≡ true)
unfolding reject_handshake
reject_handshake-IsOne A code at = ground arith

reject-IsOne :
    (A : Type 0) (e : RequestError) (s : V6Session)
    → IsOne {A = A} (request_error_id e) (reject e s).replies
      × ((reject {V = A} e s).close ≡ not s.handshaked)
unfolding reject request_error_id
reject-IsOne A e s = ground arith

module _ (E : Environment) where
  open E use {json, build, roles}
  open json use {Value, field}

  -- The step answers with one frame of this id, and closes exactly without a handshake.
  abbrev pub AnswersOnce : ℕ → Step E → Type 0
  AnswersOnce id st = IsOne id st.outcome.replies × (st.outcome.close ≡ not st.session.handshaked)

  accept-AnswersOnce :
      (issued : Option String) (proven : Bool) (id : String) (ct : ClientType) (nb : Bool)
      (s : V6Session) (sh : Shared E)
      → AnswersOnce 0 (accept E issued proven id ct nb s sh)
  unfolding accept
  accept-AnswersOnce issued proven id ct nb s sh = (refl, refl)

  answered-AnswersOnce :
      (a : Identity) (proven : Bool) (id : String) (ct : ClientType) (nb : Bool) (s : V6Session)
      (sh : Shared E)
      → s.handshaked ≡ false
      → AnswersOnce 0 (answered E a proven id ct nb s sh)
  unfolding reject_handshake accept
  answered-AnswersOnce a proven id ct nb s sh h = ground arith

  settle_with-AnswersOnce :
      (clients : Option (Option E.identities.Table)) (id : String) (ct : ClientType) (nb : Bool)
      (v : Value) (m : Moment) (s : V6Session) (sh : Shared E)
      → s.handshaked ≡ false
      → AnswersOnce 0 (settle_with E clients id ct nb v m s sh)
  settle_with-AnswersOnce none id ct nb v m s sh h = accept-AnswersOnce none false id ct nb s sh
  settle_with-AnswersOnce (some t) id ct nb v m s sh h =
      answered-AnswersOnce (identified E id ct v m s sh t).0 _ id ct nb s _ h

  settle-AnswersOnce :
      (id : String) (ct : ClientType) (v : Value) (m : Moment) (s : V6Session) (sh : Shared E)
      → s.handshaked ≡ false
      → AnswersOnce 0 (settle E id ct v m s sh)
  unfolding settle
  settle-AnswersOnce id ct v m s sh h = settle_with-AnswersOnce sh.clients id ct _ v m s sh h

  pair-id :
      (id : ℕ) (v : Value) (m : Moment) (s : V6Session) (sh : Shared E)
      → frame_id (pair E id v m s sh).0 ≡ id
  unfolding pair
  pair-id id v m s sh = ground arith

  gated-id :
      (r : IncomingRequest Value) (m : Moment) (s : V6Session) (sh : Shared E)
      → frame_id (gated E r m s sh).0 ≡ r.id
  unfolding gated
  gated-id r m s sh = ground arith

  rejected-AnswersOnce :
      (code : ErrorCode) (at : String) (s : V6Session) (sh : Shared E)
      → s.handshaked ≡ false
      → AnswersOnce 0 (rejected E code at s sh)
  unfolding reject_handshake
  rejected-AnswersOnce code at s sh h = ground arith

  checked_handshake-AnswersOnce :
      (version : Option ErrorCode) (client_id : Checked String) (ct : Checked ClientType)
      (v : Value) (m : Moment) (s : V6Session) (sh : Shared E)
      → s.handshaked ≡ false
      → AnswersOnce 0 (checked_handshake E version client_id ct v m s sh)
  checked_handshake-AnswersOnce (some code) id ct v m s sh h =
      rejected-AnswersOnce code "protocol_version" s sh h
  checked_handshake-AnswersOnce none (bad code) ct v m s sh h =
      rejected-AnswersOnce code "client_id" s sh h
  checked_handshake-AnswersOnce none (good id) (bad code) v m s sh h =
      rejected-AnswersOnce code "client_type" s sh h
  checked_handshake-AnswersOnce none (good id) (good ct) v m s sh h =
      settle-AnswersOnce id ct v m s sh h

  handle_handshake-AnswersOnce :
      (v : Value) (m : Moment) (s : V6Session) (sh : Shared E)
      → s.handshaked ≡ false
      → AnswersOnce 0 (handle_handshake E v m s sh)
  unfolding handle_handshake
  handle_handshake-AnswersOnce v m s sh h =
      checked_handshake-AnswersOnce (check_version E _) (check_client_id E _)
        (check_client_type E _) v m s sh h

  dispatch_op-id :
      (r : IncomingRequest Value) (m : Moment) (s : V6Session) (sh : Shared E)
      → frame_id (dispatch_op E r m s sh).0 ≡ r.id
  unfolding dispatch_op
  dispatch_op-id r m s sh = ground (arith, pair-id r.id r.payload m s sh, gated-id r m s sh)

  handle_as-AnswersOnce :
      (first up : Bool) (r : IncomingRequest Value) (m : Moment) (s : V6Session) (sh : Shared E)
      → s.handshaked ≡ up
      → IsOne
          (if up then r.id else if first then 0 else r.id)
          (handle_as E first up r m s sh).outcome.replies
        × ((handle_as E first up r m s sh).outcome.close
            ≡ not (handle_as E first up r m s sh).session.handshaked)
  handle_as-AnswersOnce true true r m s sh h = (refl, ground arith)
  handle_as-AnswersOnce true false r m s sh h = handle_handshake-AnswersOnce r.payload m s sh h
  handle_as-AnswersOnce false true r m s sh h = (dispatch_op-id r m s sh, ground arith)
  handle_as-AnswersOnce false false r m s sh h = (refl, ground arith)

  handle_parsed-AnswersOnce :
      (p : Parsed Value) (m : Moment) (s : V6Session) (sh : Shared E)
      → AnswersOnce (answer_id p s.handshaked) (handle_parsed E p m s sh)
  unfolding handle_request
  handle_parsed-AnswersOnce (err e) m s sh = reject-IsOne Value e s
  handle_parsed-AnswersOnce (ok r) m s sh =
      handle_as-AnswersOnce (r.op == op_handshake) s.handshaked r m s sh refl

  -- Every frame is answered by one frame, with the id that it carries, or 0 for a handshake; and the
  -- connection is closed exactly if after the frame it still has no handshake.
  pub handle_frame-AnswersOnce :
      (line : Option Value) (m : Moment) (s : V6Session) (sh : Shared E)
      → AnswersOnce
          (answer_id (parse_request json build line) s.handshaked)
          (handle_frame E line m s sh)
  unfolding handle_frame
  handle_frame-AnswersOnce line m s sh =
      handle_parsed-AnswersOnce (parse_request json build line) m (counted E s) sh
