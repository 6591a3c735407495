-- ===== src/Interceptors/Otel.antt =====
-- interceptors/otel_interceptors.go: the interceptors that trace, log and measure each call.
-- `elapsed` is the reading of `time.Since(start)` after the handler has returned. The OpenTelemetry
-- and gRPC libraries are parameters: `as_milliseconds` is `Duration.Milliseconds`, `code_text` and
-- `message_text` are the code's text and the message of `status.FromError`.
pub mod Names
pub mod Laws
use grpc_example.Common.{
  String, ℤ, pos, negsuc, Bool, true, false, ◌&&◌, Option, none, some, List, [], ◌∷◌, ◌++◌,
  if◌then◌else◌,
}
use grpc_example.Errors.{Error, Result, ok, err}
use grpc_example.Auth.{Claims}
use grpc_example.Interceptors.{
  Context, Value, text, texts, number, flag, Attributes, World, Event, started, active_requests,
  request_count, request_error, request_duration, span_start, span_attributes, span_ok, span_error,
  span_end, record_event, UnaryHandler, StreamHandler, StreamInfo,
}
use grpc_example.Interceptors.Jwt.{get_claims_from_context}
use grpc_example.Interceptors.Logging.{completed}
use grpc_example.Interceptors.Otel.Names.{extract_service, extract_method}

unfoldable pub determine_stream_type : StreamInfo → String
determine_stream_type info =
    if info.is_client_stream && info.is_server_stream
    then "bidi_stream"
    else if info.is_client_stream
    then "client_stream"
    else if info.is_server_stream
    then "server_stream"
    else "unknown"

-- `InitializeOtelMetrics`: `create` is what the meter returns for each instrument's name, nil or an
-- error; `initialized` tells whether the global instruments have been created. It returns the error
-- that it met and the new value.
unfoldable pub initialize_otel_metrics : (String → Option Error) → Bool → Option Error × Bool
initialize_otel_metrics create initialized = elim (create "grpc.server.request.count") [
  | some e ↦ (some e, initialized)
  | none ↦ elim (create "grpc.server.request.duration") [
    | some e ↦ (some e, initialized)
    | none ↦ elim (create "grpc.server.request.errors") [
      | some e ↦ (some e, initialized)
      | none ↦ elim (create "grpc.server.active_requests") [
        | some e ↦ (some e, initialized)
        | none ↦ (none, true)
      ]
    ]
  ]
]

-- What the attributes need of the libraries.
pub record Texts : Type 0 where
  pub as_milliseconds : ℤ → ℤ
  pub code_text : Error → String
  pub message_text : Error → String

module _ (lib : Texts) where
  abbrev pub get_status_code : {A : Type 0} → Result A → String
  get_status_code (ok a) = "OK"
  get_status_code (err e) = lib.code_text e

  -- The status of the span and its attributes, after the call.
  abbrev pub outcome : {A : Type 0} → Result A → List Event
  outcome (ok a) = span_ok ∷ span_attributes (("rpc.grpc.status_code", text "OK") ∷ []) ∷ []
  outcome (err e) =
      span_error e
      ∷ span_attributes (
          ("rpc.grpc.status_code", text (lib.code_text e))
          ∷ ("error.message", text (lib.message_text e))
          ∷ [])
      ∷ []

  abbrev pub user_info : {N : Type 0} → Option (Claims N) → List Event
  user_info none = []
  user_info (some claims) =
      span_attributes (
        ("user.id", text claims.username)
        ∷ ("user.email", text claims.email)
        ∷ ("user.roles", texts claims.roles)
        ∷ [])
      ∷ []

  -- What follows the call: the span's outcome, the log's line, the duration, the user, the end.
  abbrev pub closing :
      {N A : Type 0} → String → String → ℤ → Option (Claims N) → Result A → List Event
  closing kind full_method elapsed claims r =
      outcome r
      ++ completed kind full_method elapsed r
        ∷ span_attributes (("rpc.duration_ms", number (lib.as_milliseconds elapsed)) ∷ [])
        ∷ user_info claims
      ++ span_end ∷ []

  abbrev pub record_events : {V : Type 0} → List Event → World V → World V
  record_events es w = record w { events = w.events ++ es }

  unfoldable pub otel_logging_unary_interceptor :
      {N V Req Resp : Type 0} → UnaryHandler N V Req Resp → String → ℤ → UnaryHandler N V Req Resp
  unfolding get_claims_from_context extract_service extract_method
  otel_logging_unary_interceptor handler full_method elapsed ctx req w =
      let attributes =
        ("rpc.system", text "grpc")
        ∷ ("rpc.service", text (extract_service full_method))
        ∷ ("rpc.method", text (extract_method full_method))
        ∷ ("rpc.grpc.kind", text "unary")
        ∷ [] in
      let opening = span_start full_method attributes ∷ started "Unary" full_method ∷ [] in
      let (r, after) = handler ctx req (record_events opening w) in
      (r, record_events (closing "Unary" full_method elapsed (get_claims_from_context ctx) r) after)

  unfoldable pub otel_logging_stream_interceptor :
      {N V : Type 0} → StreamHandler N V → StreamInfo → ℤ → StreamHandler N V
  unfolding get_claims_from_context extract_service extract_method determine_stream_type
  otel_logging_stream_interceptor handler info elapsed ctx w =
      let attributes =
        ("rpc.system", text "grpc")
        ∷ ("rpc.service", text (extract_service info.full_method))
        ∷ ("rpc.method", text (extract_method info.full_method))
        ∷ ("rpc.grpc.is_client_stream", flag info.is_client_stream)
        ∷ ("rpc.grpc.is_server_stream", flag info.is_server_stream)
        ∷ [] in
      let kind = determine_stream_type info in
      let opening =
        span_start info.full_method attributes
        ∷ span_attributes (("rpc.grpc.kind", text kind) ∷ [])
        ∷ started kind info.full_method
        ∷ [] in
      let (r, after) = handler ctx (record_events opening w) in
      (
        r,
        record_events (closing kind info.full_method elapsed (get_claims_from_context ctx) r) after,
      )

  abbrev pub error_events : {A : Type 0} → Attributes → Result A → List Event
  error_events attributes (ok a) = []
  error_events attributes (err e) = request_error attributes ∷ []

  -- The instruments around a call; the decrement is deferred.
  abbrev pub measured :
      {V A : Type 0}
      → Attributes
      → ℤ
      → (World V → Result A × World V)
      → World V
      → Result A × World V
  measured attributes elapsed call w =
      let (r, after) = call (record_event (active_requests (pos 1) attributes) w) in
      let status_attributes =
        attributes ++ ("rpc.grpc.status_code", text (get_status_code r)) ∷ [] in
      (
        r,
        record_events
            (request_count status_attributes
                ∷ request_duration (lib.as_milliseconds elapsed) status_attributes
                ∷ error_events status_attributes r
              ++ active_requests (negsuc 0) attributes ∷ [])
            after,
      )

  abbrev pub attributes_of : String → String → Attributes
  unfolding extract_service
  attributes_of full_method kind =
      ("rpc.method", text full_method)
      ∷ ("rpc.service", text (extract_service full_method))
      ∷ ("rpc.grpc.kind", text kind)
      ∷ []

  -- `initialized` tells whether the global instruments have been created.
  unfoldable pub otel_metrics_unary_interceptor :
      {N V Req Resp : Type 0}
      → Bool
      → UnaryHandler N V Req Resp
      → String
      → ℤ
      → UnaryHandler N V Req Resp
  unfolding extract_service
  otel_metrics_unary_interceptor initialized handler full_method elapsed ctx req w =
      elim initialized [
        | false ↦ handler ctx req w
        | true ↦ measured (attributes_of full_method "unary") elapsed (handler ctx req) w
      ]

  unfoldable pub otel_metrics_stream_interceptor :
      {N V : Type 0} → Bool → StreamHandler N V → StreamInfo → ℤ → StreamHandler N V
  unfolding extract_service determine_stream_type
  otel_metrics_stream_interceptor initialized handler info elapsed ctx w = elim initialized [
    | false ↦ handler ctx w
    | true ↦
        measured (attributes_of info.full_method (determine_stream_type info)) elapsed (handler ctx)
          w
  ]
