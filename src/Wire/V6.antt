-- ===== src/Wire/V6.antt =====
-- The V6 envelope (packages/mbrc-wire/src/v6.rs): requests as the server reads them, responses as it
-- builds them, requests and responses as a client builds and reads them. A frame is its JSON value;
-- the text of a value and the reading of a text are `serde_json`'s.
pub mod Envelope
use mbrc_plugin.Base.{
  ℕ, String, Bool, ◌≡◌, Option, none, some, List, [], ◌∷◌, ◌++◌, if◌then◌else◌, ◌==◌, string_eq,
  ◌>>=◌, unwrap_or, false,
}
use mbrc_plugin.Base.Dict
use mbrc_plugin.Json.{Json, Kind, null, boolean, number, string, array, object, as_str, as_u64}
use mbrc_plugin.Json.Build.{JsonBuild}

abbrev pub protocol_version : ℕ
protocol_version = 6

abbrev pub op_handshake : String
op_handshake = "handshake"

pub data ClientType : Type 0 where
  android ios desktop web cli : ClientType

unfoldable pub client_type_as_str : ClientType → String
client_type_as_str android = "android"
client_type_as_str ios = "ios"
client_type_as_str desktop = "desktop"
client_type_as_str web = "web"
client_type_as_str cli = "cli"

unfoldable pub client_type_parse : String → Option ClientType
client_type_parse s =
    if s == "android"
    then some android
    else if s == "ios"
    then some ios
    else if s == "desktop"
    then some desktop
    else if s == "web"
    then some web
    else if s == "cli"
    then some cli
    else none

pub data ErrorCode : Type 0 where
  malformed_frame unsupported_version missing_field invalid_field unknown_op : ErrorCode
  unauthorized not_allowed forbidden invalid_token stale_list : ErrorCode
  stale_track internal not_found unavailable : ErrorCode

unfoldable pub error_code_as_str : ErrorCode → String
error_code_as_str malformed_frame = "malformed_frame"
error_code_as_str unsupported_version = "unsupported_version"
error_code_as_str missing_field = "missing_field"
error_code_as_str invalid_field = "invalid_field"
error_code_as_str unknown_op = "unknown_op"
error_code_as_str unauthorized = "unauthorized"
error_code_as_str not_allowed = "not_allowed"
error_code_as_str forbidden = "forbidden"
error_code_as_str invalid_token = "invalid_token"
error_code_as_str stale_list = "stale_list"
error_code_as_str stale_track = "stale_track"
error_code_as_str internal = "internal_error"
error_code_as_str not_found = "not_found"
error_code_as_str unavailable = "unavailable"

-- Why an envelope was rejected: `absent` is `MissingField`, `invalid` is `InvalidField`.
pub data RequestError : Type 0 where
  malformed : RequestError
  absent : (id : ℕ) (field : String) → RequestError
  invalid : (id : ℕ) (field : String) → RequestError

unfoldable pub request_error_code : RequestError → ErrorCode
request_error_code malformed = malformed_frame
request_error_code (absent id field) = missing_field
request_error_code (invalid id field) = invalid_field

unfoldable pub request_error_id : RequestError → ℕ
request_error_id malformed = 0
request_error_id (absent id field) = id
request_error_id (invalid id field) = id

pub record IncomingRequest (V : Type 0) : Type 0 where
  pub id : ℕ
  pub op : String
  pub payload : V

pub data Parsed (V : Type 0) : Type 0 where
  ok : IncomingRequest V → Parsed V
  err : RequestError → Parsed V

-- A typed error as a client reads it.
pub record WireError : Type 0 where
  pub code : String
  pub message : String
  pub field : Option String

pub data Answer (V : Type 0) : Type 0 where
  success : V → Answer V
  failure : WireError → Answer V

pub record IncomingResponse (V : Type 0) : Type 0 where
  pub id : ℕ
  pub result : Answer V

module _ (J : Json) (B : JsonBuild J) where
  open J use {Value, kind, field}
  open B use {object_of, text, num, nothing}

  unfoldable pub response_ok : ℕ → Value → Value
  response_ok id v = object_of (("id", num id) ∷ ("kind", text "response") ∷ ("data", v) ∷ [])

  abbrev pub error_fields : ErrorCode → String → Option String → List (String × Value)
  error_fields code message at =
      ("code", text (error_code_as_str code))
      ∷ ("message", text message)
      ∷ (elim at [ none ↦ [] | some name ↦ ("field", text name) ∷ [] ])

  unfoldable pub error_frame : ℕ → ErrorCode → String → Option String → Value
  error_frame id code message at = object_of (
      ("id", num id)
      ∷ ("kind", text "response")
      ∷ ("error", object_of (error_fields code message at))
      ∷ [])

  unfoldable pub response_error : ℕ → ErrorCode → String → Value
  unfolding error_frame
  response_error id code message = error_frame id code message none

  unfoldable pub response_error_field : ℕ → ErrorCode → String → String → Value
  unfolding error_frame
  response_error_field id code message at = error_frame id code message (some at)

  unfoldable pub event : String → Value → Value
  event name v = object_of (("kind", text "event") ∷ ("event", text name) ∷ ("data", v) ∷ [])

  unfoldable pub request : ℕ → String → Value → Value
  request id op v =
      object_of (("id", num id) ∷ ("kind", text "request") ∷ ("op", text op) ∷ ("data", v) ∷ [])

  unfoldable pub handshake_request :
      (client_id : String) → ClientType → (no_broadcast : Bool) → Value
  unfolding request
  handshake_request client_id ct no_broadcast = request 0 op_handshake (
      object_of (
        ("protocol_version", num protocol_version)
        ∷ ("client_id", text client_id)
        ∷ ("client_type", text (client_type_as_str ct))
        ∷ ("no_broadcast", B.flag no_broadcast)
        ∷ []))

  -- The fields of an envelope in the order they are looked at: `id`, `kind`, `op`, `data`.
  abbrev pub parse_op : ℕ → Option Value → Option Value → Parsed Value
  parse_op id none v = err (absent id "op")
  parse_op id (some o) v = elim (kind o) [
    | string op ↦ ok (record { id = id; op = op; payload = unwrap_or v nothing })
    | _ ↦ err (invalid id "op")
  ]

  abbrev pub parse_kind : ℕ → Option String → Option Value → Option Value → Parsed Value
  parse_kind id none o v = err (absent id "kind")
  parse_kind id (some k) o v = if k == "request" then parse_op id o v else err (invalid id "kind")

  abbrev pub parse_id : Option Value → Value → Parsed Value
  parse_id none obj = err (absent 0 "id")
  parse_id (some i) obj = elim (as_u64 J i) [
    | none ↦ err (invalid 0 "id")
    | some id ↦ parse_kind id (field obj "kind" >>= as_str J) (field obj "op") (field obj "data")
  ]

  -- The request in a frame, `none` being a line that is no JSON.
  unfoldable pub parse_request : Option Value → Parsed Value
  parse_request none = err malformed
  parse_request (some v) = elim (kind v) [ object ↦ parse_id (field v "id") v | _ ↦ err malformed ]

  abbrev pub text_or_empty : Option Value → String
  text_or_empty o = unwrap_or (o >>= as_str J) ""

  abbrev pub wire_error : Value → WireError
  wire_error e = record {
    code = text_or_empty (field e "code");
    message = text_or_empty (field e "message");
    field = field e "field" >>= as_str J;
  }

  abbrev pub response_body : Value → Answer Value
  response_body obj = elim (field obj "error") [
    | none ↦ success (unwrap_or (field obj "data") nothing)
    | some e ↦ failure (wire_error e)
  ]

  abbrev pub response_with : Option ℕ → Value → Option (IncomingResponse Value)
  response_with none obj = none
  response_with (some id) obj = some (record { id = id; result = response_body obj })

  abbrev pub is_response : Option String → Bool
  is_response none = false
  is_response (some k) = k == "response"

  abbrev pub response_of : Value → Option (IncomingResponse Value)
  response_of obj =
      if is_response (field obj "kind" >>= as_str J)
      then response_with (field obj "id" >>= as_u64 J) obj
      else none

  unfoldable pub parse_response : Option Value → Option (IncomingResponse Value)
  parse_response none = none
  parse_response (some v) = elim (kind v) [ object ↦ response_of v | _ ↦ none ]
