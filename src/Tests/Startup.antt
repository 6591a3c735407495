-- ===== src/Tests/Startup.antt =====
-- The theorems on main.go's start, on certificates and pools that are texts.
use grpc_example.Common.{String, ℤ, pos, true, false, none, some, [], ◌∷◌, ◌≡◌, refl}
use grpc_example.Errors.{plain, ok}
use grpc_example.Telemetry
use grpc_example.Main.Tls
use grpc_example.Main.Start.{ServerFlags, Outside, run_main}
use grpc_example.Main.Start.Release.{IsReleased, run_main-IsReleased}
use grpc_example.Main.Start.Failures.{exit_text, first_failure, failures, run_main-failures}
use grpc_example.Mux.{mux_match}
use grpc_example.Main.Profiling.{profile, redirected, pprof_routes, pprof_prefix}
use grpc_example.Tests.Auth.{toy}
use grpc_example.Tests.Database.{Rows, pool}

-- A certificate is the text of its file, and a pool the text of its only certificate.
abbrev tls : Tls.Libraries String String String
tls = record {
  load_key_pair = λ cert key. ok cert;
  key_pair = λ cert key. ok cert;
  read_file = λ file. ok file;
  certs_from_pem = λ pem. some pem;
  parse_first = λ cert. ok cert;
  with_leaf = λ leaf cert. leaf;
  pool_of = λ leaf. leaf;
  error_text = λ e. "error";
}

-- The telemetry starts and the pool opens, but the gateway cannot dial.
abbrev otel : Telemetry.Libraries (Unit {0})
otel = record {
  new_resource = λ name version environment. ok tt;
  new_trace_exporter = λ endpoint. none;
  new_metric_exporter = λ endpoint. none;
  stop_trace = none;
  stop_metric = none;
  error_text = λ e. "error";
}

abbrev out : Outside String String String (Unit {0}) Rows ℤ
out = record {
  tls = tls;
  otel = otel;
  jwt = toy;
  auth_text = λ e. "error";
  now = pos 10;
  create_instrument = λ name. none;
  listen = λ addr. none;
  connector = record { new_pool = λ conn_string. ok []; ping = λ d. none };
  pool = pool;
  new_client = λ addr certs. some (plain "bad address");
  register_handler = none;
  add_extension_type = none;
  sub_dir = λ name. none;
  goroutine = none;
  shutdown = none;
  error_text = λ e. "error";
}

abbrev flags : ServerFlags
flags = record {
  grpc_port = pos 10000;
  gateway_port = pos 11000;
  nocheck = false;
  enable_auth = true;
  print_metrics = true;
  hostname = "0.0.0.0";
  validate_token_text = "";
  cert_file = "server.crt";
  key_file = "server.key";
  pprof_addr = "";
  otel_enabled = true;
  otel_endpoint = "localhost:4317";
  service_name = "grpc-example";
  environment = "development";
  db_conn_string = "postgres://localhost";
}

run_main-IsReleased_example : IsReleased (run_main out flags "secret" "demo" ("own", "own"))
run_main-IsReleased_example = run_main-IsReleased out flags "secret" "demo" ("own", "own")

run_main-failures_example :
    exit_text (run_main out flags "secret" "demo" ("own", "own")).0
    ≡ first_failure out flags (failures out flags ("own", "own"))
run_main-failures_example = run_main-failures out flags "secret" "demo" ("own", "own") refl

-- The profiles are served under the prefix, and another path is redirected to it.
pprof_heap :
    mux_match (pprof_routes pprof_prefix) ("debug" ∷ "pprof" ∷ "heap" ∷ [], false)
    ≡ some (profile "heap", [])
unfolding mux_match pprof_routes
pprof_heap = refl

pprof_other :
    mux_match (pprof_routes pprof_prefix) ("metrics" ∷ [], false)
    ≡ some (redirected pprof_prefix, [])
unfolding mux_match pprof_routes
pprof_other = refl
