-- ===== src/Telemetry.antt =====
-- otel/setup.go: the set-up of tracing and metrics, and its `Shutdown`. The OpenTelemetry libraries are
-- the parameter `lib`. What the set-up does to the two providers is a list of events; the propagators
-- and what is logged are left out.
pub mod Http
use grpc_example.Common.{
  ◌<>◌, String, Bool, true, false, not, Option, none, some, List, [], ◌∷◌, ◌++◌, ◌≡◌, refl, inl,
  inr, if◌then◌else◌, Bool-cases, Option-cases,
}
use grpc_example.Errors.{Error, plain, Result, ok, err, Result-cases}

pub record Config : Type 0 where
  pub service_name : String
  pub service_version : String
  pub environment : String
  pub otlp_endpoint : String
  pub enabled : Bool

-- A provider that is made is registered as the global one.
pub data Event : Type 0 where
  trace_started metric_started trace_stopped metric_stopped : Event

-- `R` is `resource.Resource`. The exporters take the endpoint, and the providers are made of what the
-- exporters return. What `Shutdown` of a provider returns is `stop_trace` and `stop_metric`.
pub record Libraries (R : Type 0) : Type 0 where
  pub new_resource : String → String → String → Result R
  pub new_trace_exporter : String → Option Error
  pub new_metric_exporter : String → Option Error
  pub stop_trace : Option Error
  pub stop_metric : Option Error
  pub error_text : Error → String

-- What `Setup` returns as its function: nothing to do, or both providers.
pub data Shutdown : Type 0 where
  disabled : Shutdown
  combined : Shutdown

module _ {R : Type 0} (lib : Libraries R) where
  abbrev pub wrapped : String → Error → Error
  wrapped message e = plain (message <> lib.error_text e)

  unfoldable pub setup_trace_provider : String → Result (Unit {0}) × List Event
  setup_trace_provider endpoint = elim (lib.new_trace_exporter endpoint) [
    | some e ↦ (err (wrapped "failed to create trace exporter: " e), [])
    | none ↦ (ok tt, trace_started ∷ [])
  ]

  unfoldable pub setup_metric_provider : String → Result (Unit {0}) × List Event
  setup_metric_provider endpoint = elim (lib.new_metric_exporter endpoint) [
    | some e ↦ (err (wrapped "failed to create metric exporter: " e), [])
    | none ↦ (ok tt, metric_started ∷ [])
  ]

  -- If the metrics cannot be set up, the traces are shut down.
  abbrev with_metrics : List Event → Result (Unit {0}) × List Event → Result Shutdown × List Event
  with_metrics before (err e, events) =
      (err (wrapped "failed to setup metric provider: " e), before ++ events ++ trace_stopped ∷ [])
  with_metrics before (ok _, events) = (ok combined, before ++ events)

  abbrev with_traces :
      Result (Unit {0}) × List Event → Result (Unit {0}) × List Event → Result Shutdown × List Event
  with_traces (err e, events) metrics = (err (wrapped "failed to setup trace provider: " e), events)
  with_traces (ok _, events) metrics = with_metrics events metrics

  unfoldable pub setup : Config → Result Shutdown × List Event
  setup config =
      if not config.enabled
      then (ok disabled, [])
      else (elim (lib.new_resource config.service_name config.service_version config.environment) [
        | err e ↦ (err (wrapped "failed to create resource: " e), [])
        | ok res ↦
            with_traces (setup_trace_provider config.otlp_endpoint)
              (setup_metric_provider config.otlp_endpoint)
      ])

  abbrev joined : Option Error → Option Error → Option Error
  joined none none = none
  joined (some m) none = some (wrapped "metric shutdown error: " m)
  joined none (some t) = some (wrapped "trace shutdown error: " t)
  joined (some m) (some t) = some (
      plain (
        lib.error_text (wrapped "metric shutdown error: " m)
        <> "; trace shutdown error: "
        <> lib.error_text t))

  unfoldable pub shut_down : Shutdown → Option Error × List Event
  shut_down disabled = (none, [])
  shut_down combined = (joined lib.stop_metric lib.stop_trace, metric_stopped ∷ trace_stopped ∷ [])

  -- The providers that run after the events, as (traces, metrics).
  abbrev pub running : List Event → Bool × Bool → Bool × Bool
  running [] state = state
  running (trace_started ∷ events) (t, m) = running events (true, m)
  running (metric_started ∷ events) (t, m) = running events (t, true)
  running (trace_stopped ∷ events) (t, m) = running events (false, m)
  running (metric_stopped ∷ events) (t, m) = running events (t, false)

  -- What `Setup` leaves running: nothing on an error or where it is disabled, and else both; and
  -- the function it returns stops what runs.
  abbrev pub IsTidy : Result Shutdown × List Event → Type 0
  IsTidy (err e, events) = running events (false, false) ≡ (false, false)
  IsTidy (ok disabled, events) = running events (false, false) ≡ (false, false)
  IsTidy (ok combined, events) =
      (running events (false, false) ≡ (true, true))
      × (running (events ++ (shut_down combined).1) (false, false) ≡ (false, false))

  -- Where the set-up of OpenTelemetry fails or is disabled, no provider is left running, whichever step
  -- failed. Where it succeeds both run, and the function that it returns stops both, whatever their
  -- own shutdowns return.
  pub setup-IsTidy : (config : Config) → IsTidy (setup config)
  unfolding setup setup_trace_provider setup_metric_provider shut_down
  setup-IsTidy config = elim (Bool-cases (not config.enabled)) [
    | inl off ↦ rw (setup, off) refl
    | inr on ↦
        elim (Result-cases
          (lib.new_resource config.service_name config.service_version config.environment)) [
            | inr (e, failed) ↦ rw (setup, on, failed) refl
            | inl (res, made) ↦ elim (Option-cases (lib.new_trace_exporter config.otlp_endpoint)) [
              | inr (e, failed) ↦ rw (setup, on, made, setup_trace_provider, failed) refl
              | inl fine ↦ elim (Option-cases (lib.new_metric_exporter config.otlp_endpoint)) [
                | inr (e, failed) ↦
                    rw (setup, on, made, setup_trace_provider, fine, setup_metric_provider, failed)
                      refl
                | inl both ↦
                    rw (setup, on, made, setup_trace_provider, fine, setup_metric_provider, both)
                      (refl, refl)
              ]
            ]
          ]
  ]
