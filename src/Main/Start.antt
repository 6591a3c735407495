-- ===== src/Main/Start.antt =====
-- main.go: `main`, from the flags to the shutdown. A step returns how it went and the world after it:
-- `log.Fatalf` ends the program at once, while a return runs what was deferred. A failure of a
-- goroutine that `main` starts is met where `main` waits for a signal.
pub mod Steps
pub mod Release
pub mod Failures
use grpc_example.Common.{
  ◌<>◌, String, ℤ, pos, Bool, true, false, not, Option, none, some, List, [], ◌∷◌, ◌⊎◌, inl, inr,
  ◌==◌, string_eq, if◌then◌else◌, show_int,
}
use grpc_example.Errors.{Error, Result, ok, err}
use grpc_example.Auth.{Claims, JwtLibrary, AuthError, new_jwt_manager, validate_token}
use grpc_example.Telemetry
use grpc_example.Telemetry.{setup, shut_down, Shutdown}
use grpc_example.Interceptors.Otel.{initialize_otel_metrics}
use grpc_example.Postgres.Driver.{Pool}
use grpc_example.Postgres.Connect.{Connector, new_postgres_storage}
use grpc_example.Main.{
  Interceptor, interceptors, grpc_dial_host, StorageBackend, postgres, memory, storage_backend,
}
use grpc_example.Main.Tls
use grpc_example.Main.Tls.{Config, Credentials, load_tls_credentials, chosen}
use grpc_example.Main.Start.Steps.*

-- The flags that `main` reads.
pub record ServerFlags : Type 0 where
  pub grpc_port : ℤ
  pub gateway_port : ℤ
  pub nocheck : Bool
  pub enable_auth : Bool
  pub print_metrics : Bool
  pub hostname : String
  pub validate_token_text : String
  pub cert_file : String
  pub key_file : String
  pub pprof_addr : String
  pub otel_enabled : Bool
  pub otel_endpoint : String
  pub service_name : String
  pub environment : String
  pub db_conn_string : String

-- The libraries, and what the calls of them return in this run. `goroutine` is the first failure of
-- a goroutine before the signal, with the message of its `log.Fatalf`.
pub record Outside (C P L R D N : Type 0) : Type 0 where
  pub tls : Tls.Libraries C P L
  pub otel : Telemetry.Libraries R
  pub jwt : JwtLibrary N
  pub auth_text : AuthError → String
  pub now : ℤ
  pub create_instrument : String → Option Error
  pub listen : String → Option Error
  pub connector : Connector D
  pub pool : Pool D
  pub new_client : String → P → Option Error
  pub register_handler : Option Error
  pub add_extension_type : Option Error
  pub sub_dir : String → Option Error
  pub goroutine : Option Error
  pub shutdown : Option Error
  pub error_text : Error → String

module _ {C P L R D N : Type 0} (out : Outside C P L R D N) (flags : ServerFlags) where
  unfoldable pub fatal_if : String → Option Error → Step C P N (Unit {0})
  fatal_if message none w = (went_on tt, w)
  fatal_if message (some e) w = (exited (message <> out.error_text e), w)

  unfoldable pub warn_if : String → Option Error → Step C P N (Unit {0})
  unfolding emit
  warn_if message none w = (went_on tt, w)
  warn_if message (some e) w = emit (warned (message <> out.error_text e)) w

  abbrev pub failure : {A : Type 0} → Result A → Option Error
  failure (ok a) = none
  failure (err e) = some e

  abbrev pub addr : String → ℤ → String
  addr host port = host <> ":" <> show_int port

  -- `-validate`: the token is checked, and the program ends.
  unfoldable pub checked_token : AuthError ⊎ Claims N → Step C P N (Unit {0})
  unfolding emit
  checked_token (inl e) w = (exited ("Token validation failed: " <> out.auth_text e), w)
  checked_token (inr claims) w = emit (token_valid claims) w

  unfoldable pub validate : String → String → Step C P N (Unit {0})
  validate secret issuer = checked_token (
      validate_token out.jwt (new_jwt_manager secret (pos 86400000000000) issuer) out.now
        flags.validate_token_text)

  unfoldable pub tls_warning : Result (Credentials C P) → Step C P N (Unit {0})
  unfolding pass emit
  tls_warning (ok credentials) = pass
  tls_warning (err e) = emit (
      warned (
        "Warning: Failed to load TLS credentials ("
        <> out.error_text e
        <> "), falling back to embedded self-signed cert"))

  -- The result of the set-up, and of the instruments after it.
  abbrev pub otel_result : Result Shutdown
  otel_result =
      (setup out.otel (record {
        service_name = flags.service_name;
        service_version = "1.0.0";
        environment = flags.environment;
        otlp_endpoint = flags.otel_endpoint;
        enabled = true;
      })).0

  unfoldable pub set_up_telemetry : Step C P N (Unit {0})
  set_up_telemetry = do
    fatal_if "Failed to initialize OpenTelemetry: " (failure otel_result)
    acquire telemetry
    fatal_if "Failed to initialize OpenTelemetry metrics: "
        (initialize_otel_metrics out.create_instrument false).0

  unfoldable pub open_storage : StorageBackend → Step C P N (Unit {0})
  open_storage memory = pass
  open_storage (postgres conn_string) = do
    fatal_if "Failed to initialize PostgreSQL storage: "
        (failure (new_postgres_storage out.connector out.pool out.error_text conn_string).storage)
    acquire pool

  -- Its error is only a warning.
  unfoldable pub serve_open_api : Option Error
  serve_open_api = elim out.add_extension_type [
    | some e ↦ some e
    | none ↦ out.sub_dir "third_party/OpenAPI"
  ]

  unfoldable pub gateway_tls_config : Config C → Config C
  gateway_tls_config config =
      if flags.nocheck
      then record {
        certificates = config.certificates;
        min_version = "VersionTLS12";
        insecure_skip_verify = true;
        curve_preferences = [];
        cipher_suites = [];
      }
      else config

  -- The gRPC server, and what it serves with.
  unfoldable pub start_grpc : Credentials C P → Step C P N (Unit {0})
  start_grpc credentials = do
    fatal_if "Failed to listen: " (out.listen (addr flags.hostname flags.grpc_port))
    open_storage (storage_backend flags.db_conn_string)
    emit (
        serving_grpc (addr flags.hostname flags.grpc_port) credentials.cert
          (interceptors flags.otel_enabled flags.enable_auth)
          (storage_backend flags.db_conn_string))

  unfoldable pub start_gateway : Credentials C P → Step C P N (Unit {0})
  start_gateway credentials = do
    let dial_addr = addr (grpc_dial_host flags.hostname) flags.grpc_port
    fatal_if "Failed to dial server: " (out.new_client dial_addr credentials.pool)
    acquire (connection dial_addr)
    fatal_if "Failed to register gateway: " out.register_handler
    warn_if "Warning: Failed to serve OpenAPI UI: " serve_open_api
    emit (
        serving_gateway (addr flags.hostname flags.gateway_port)
          (gateway_tls_config credentials.config)
          (if flags.otel_enabled then some (flags.service_name <> "-gateway") else none))
    when (not (flags.pprof_addr == "")) (emit (serving_pprof flags.pprof_addr "/debug/pprof/"))

  unfoldable pub shut_down_servers : Step C P N (Unit {0})
  shut_down_servers = do
    when flags.print_metrics (emit metrics_printed)
    acquire shutdown_context
    emit gateway_stopped
    warn_if "HTTP gateway shutdown error: " out.shutdown
    emit grpc_stopped

  unfoldable pub serve : C × P → Step C P N (Unit {0})
  serve fallback = do
    let loaded = load_tls_credentials out.tls flags.cert_file flags.key_file
    tls_warning loaded
    acquire context
    when flags.otel_enabled set_up_telemetry
    start_grpc (chosen out.tls fallback loaded)
    start_gateway (chosen out.tls fallback loaded)
    fatal_if "" out.goroutine
    shut_down_servers

  -- `main` ends by a return or by `log.Fatalf`; only a return runs what was deferred.
  unfoldable pub run_main : String → String → C × P → Exit (Unit {0}) × World C P N
  run_main secret issuer fallback = returned (
      if not (flags.validate_token_text == "")
      then validate secret issuer nothing_done
      else serve fallback nothing_done)
