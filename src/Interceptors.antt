-- ===== src/Interceptors.antt =====
-- interceptors/*.go: what the interceptors share. A request's context holds the metadata that came
-- with it and the JWT claims that an interceptor put there. A handler or an interceptor works on the
-- world: the metrics, what was recorded and logged, and the rest, which only handlers change.
pub mod ApiKey
pub mod Jwt
pub mod Metrics
pub mod Logging
pub mod Otel
use grpc_example.Common.{ℕ, String, ℤ, Bool, false, Option, none, some, List, [], ◌∷◌, ◌++◌}
use grpc_example.Errors.{Error, Result}
use grpc_example.Auth.{Claims}

-- `metadata` is what `metadata.FromIncomingContext` finds; it is read by `md.Get`.
pub record Context (N : Type 0) : Type 0 where
  pub metadata : Option (String → List String)
  pub claims : Option (Claims N)

-- `context.WithValue(ctx, ClaimsContextKey, claims)`
abbrev pub with_claims : {N : Type 0} → Context N → Claims N → Context N
with_claims ctx claims = record ctx { claims = some claims }

-- The value of an attribute of a span or a measurement.
pub data Value : Type 0 where
  text : String → Value
  texts : List String → Value
  number : ℤ → Value
  flag : Bool → Value

abbrev pub Attributes : Type 0
Attributes = List (String × Value)

-- What goes to the log, to the OpenTelemetry instruments and to the span of the request.
pub data Event : Type 0 where
  started : String → String → Event
  completed_ok : String → String → ℤ → Event
  completed_error : String → String → Error → ℤ → Event
  active_requests : ℤ → Attributes → Event
  request_count request_error : Attributes → Event
  request_duration : ℤ → Attributes → Event
  span_start : String → Attributes → Event
  span_attributes : Attributes → Event
  span_ok : Event
  span_error : Error → Event
  span_end : Event

-- interceptors/metrics.go: `MetricsCollector`. Counters are int64: their bit patterns.
pub record MetricsCollector : Type 0 where
  pub total_requests : ℕ
  pub total_errors : ℕ
  pub request_durations : List (String × List ℤ)
  pub method_counts : List (String × ℕ)

pub record World (V : Type 0) : Type 0 where
  pub metrics : MetricsCollector
  pub events : List Event
  pub rest : V

abbrev pub record_event : {V : Type 0} → Event → World V → World V
record_event e w = record w { events = w.events ++ e ∷ [] }

-- `grpc.UnaryHandler` and `grpc.UnaryServerInterceptor` at one method of the service.
abbrev pub UnaryHandler : Type 0 → Type 0 → Type 0 → Type 0 → Type 0
UnaryHandler N V Req Resp = Context N → Req → World V → Result Resp × World V

-- `grpc.StreamHandler`: of the stream it is the context that interceptors exchange.
abbrev pub StreamHandler : Type 0 → Type 0 → Type 0
StreamHandler N V = Context N → World V → Result (Unit {0}) × World V

-- `grpc.StreamServerInfo`
pub record StreamInfo : Type 0 where
  pub full_method : String
  pub is_client_stream : Bool
  pub is_server_stream : Bool

-- interceptors/auth.go: `isPublicMethod`
unfoldable pub is_public_method : String → Bool
is_public_method method = false
