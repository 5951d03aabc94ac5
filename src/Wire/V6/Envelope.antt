-- ===== src/Wire/V6/Envelope.antt =====
-- What a frame that one side builds is to the side that reads it.
use mbrc_plugin.Base.{ℕ, String, ◌≡◌, ap, ◌∙◌, Option, none, some, arith, string_eq, ◌>>=◌}
use text.Mathlib.TextEquality.{eq_iff}
use mbrc_plugin.Base.Dict
use mbrc_plugin.Json.{Json, object, number, string, as_u64}
use mbrc_plugin.Json.Build.{JsonBuild}
use mbrc_plugin.Wire.V6.{
  ClientType, client_type_as_str, client_type_parse, ErrorCode, error_code_as_str, ok, err, request,
  parse_request, parse_response, response_ok, error_frame, success, failure, request_error_id,
  RequestError, response_body, wire_error, error_fields,
}

-- A client type is read from the name it is written by, and from no other.
pub client_type_parse_iff :
    (s : String) (c : ClientType) → client_type_parse s ≡ some c → s ≡ client_type_as_str c
unfolding client_type_parse client_type_as_str
client_type_parse_iff s c h =
    ground (
      arith,
      eq_iff s "android",
      eq_iff s "ios",
      eq_iff s "desktop",
      eq_iff s "web",
      eq_iff s "cli",
    )

module _ (J : Json) (B : JsonBuild J) where
  open J use {Value, kind, field}

  -- A frame with these fields is this request.
  parse_request_of :
      (v i k o d : Value) (id : ℕ) (op : String)
      → kind v ≡ object
      → field v "id" ≡ some i
      → field v "kind" ≡ some k
      → field v "op" ≡ some o
      → field v "data" ≡ some d
      → kind i ≡ number (some id)
      → kind k ≡ string "request"
      → kind o ≡ string op
      → parse_request J B (some v) ≡ ok (record { id = id; op = op; payload = d })
  unfolding parse_request
  parse_request_of v i k o d id op kv fi fk fo fd ki kk ko = ground arith

  -- Whatever a client asks, the server reads the request that the client built.
  pub parse_request-request :
      (id : ℕ) (op : String) (v : Value)
      → parse_request J B (some (request J B id op v))
        ≡ ok (record { id = id; op = op; payload = v })
  unfolding request Dict.get
  parse_request-request id op v =
      parse_request_of (request J B id op v) (B.num id) (B.text "request") (B.text op) v id op
        (B.kind-object_of _) (B.field-object_of _ "id") (B.field-object_of _ "kind")
        (B.field-object_of _ "op") (B.field-object_of _ "data") (B.kind-num id)
        (B.kind-text "request") (B.kind-text op)

  response_of_lem :
      (v i k : Value) (id : ℕ)
      → kind v ≡ object
      → field v "id" ≡ some i
      → field v "kind" ≡ some k
      → kind i ≡ number (some id)
      → kind k ≡ string "response"
      → parse_response J B (some v) ≡ some (record { id = id; result = response_body J B v })
  unfolding parse_response
  response_of_lem v i k id kv fi fk ki kk = ground arith

  success_of :
      (v d : Value)
      → field v "error" ≡ none
      → field v "data" ≡ some d
      → response_body J B v ≡ success d
  success_of v d e fd = ground arith

  failure_of :
      (v e : Value) → field v "error" ≡ some e → response_body J B v ≡ failure (wire_error J B e)
  failure_of v e fe = ground arith

  wire_error_of :
      (code : ErrorCode) (message : String) (at : Option String)
      → wire_error J B (B.object_of (error_fields J B code message at))
        ≡ record { code = error_code_as_str code; message = message; field = at }
  unfolding Dict.get
  wire_error_of code message none = ground (
    arith,
    B.field-object_of (error_fields J B code message none) "code",
    B.field-object_of (error_fields J B code message none) "message",
    B.field-object_of (error_fields J B code message none) "field",
    B.kind-text (error_code_as_str code),
    B.kind-text message,
  )
  wire_error_of code message (some name) = ground (
    arith,
    B.field-object_of (error_fields J B code message (some name)) "code",
    B.field-object_of (error_fields J B code message (some name)) "message",
    B.field-object_of (error_fields J B code message (some name)) "field",
    B.kind-text (error_code_as_str code),
    B.kind-text message,
    B.kind-text name,
  )

  -- Whatever the server answers, a client reads back the id with the data, or with the code, the
  -- message and the field of the error.
  pub parse_response-response :
      (id : ℕ) (v : Value) (code : ErrorCode) (message : String) (at : Option String)
      → (parse_response J B (some (response_ok J B id v))
          ≡ some (record { id = id; result = success v }))
        × (parse_response J B (some (error_frame J B id code message at))
            ≡ some (record {
              id = id;
              result =
                  failure (record { code = error_code_as_str code; message = message; field = at });
            }))
  unfolding response_ok error_frame Dict.get
  parse_response-response id v code message at = (
    response_of_lem (response_ok J B id v) (B.num id) (B.text "response") id (B.kind-object_of _)
          (B.field-object_of _ "id") (B.field-object_of _ "kind") (B.kind-num id)
          (B.kind-text "response")
        ∙ ap (λ r. some (record { id = id; result = r }))
            (success_of (response_ok J B id v) v (B.field-object_of _ "error")
              (B.field-object_of _ "data")),
    response_of_lem (error_frame J B id code message at) (B.num id) (B.text "response") id
          (B.kind-object_of _) (B.field-object_of _ "id") (B.field-object_of _ "kind")
          (B.kind-num id) (B.kind-text "response")
        ∙ ap (λ r. some (record { id = id; result = r }))
            (failure_of (error_frame J B id code message at)
                (B.object_of (error_fields J B code message at)) (B.field-object_of _ "error")
              ∙ ap failure (wire_error_of code message at)),
  )

  -- A frame is rejected with the id that it carries, if that reads as a number, and with 0 if not.
  pub request_error_id-parse_request :
      (v : Value) (e : RequestError)
      → kind v ≡ object
      → parse_request J B (some v) ≡ err e
      → request_error_id e ≡ (elim (field v "id" >>= as_u64 J) [ none ↦ 0 | some id ↦ id ])
  unfolding parse_request request_error_id
  request_error_id-parse_request v e k h = ground arith
