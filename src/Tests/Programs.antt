-- ===== src/Tests/Programs.antt =====
-- The theorems on the telemetry's set-up and on the process that respawns.
use grpc_example.Common.{String, true, none, some, [], ◌∷◌, All}
use grpc_example.Errors.{plain, ok}
use grpc_example.Telemetry
use grpc_example.Telemetry.{Config, setup, IsTidy, setup-IsTidy}
use grpc_example.Respawn.{sigint, sigusr2, System, main, IsOver, IsHeir, main-IsOver}

-- The exporter of the metrics cannot be made.
abbrev lib : Telemetry.Libraries (Unit {0})
lib = record {
  new_resource = λ name version environment. ok tt;
  new_trace_exporter = λ endpoint. none;
  new_metric_exporter = λ endpoint. some (plain "no endpoint");
  stop_trace = none;
  stop_metric = none;
  error_text = λ e. "error";
}

abbrev config : Config
config = record {
  service_name = "grpc-example";
  service_version = "1.0.0";
  environment = "development";
  otlp_endpoint = "localhost:4317";
  enabled = true;
}

setup-IsTidy_example : IsTidy lib (setup lib config)
setup-IsTidy_example = setup-IsTidy lib config

abbrev system : System
system = record { file_listener = none; listen = none; file = none; start = none }

abbrev env : String → String
env name = ""

main-IsOver_example :
    IsOver system env sigusr2 (main system env (sigusr2 ∷ []))
    × All (IsHeir system (sigint ∷ [])) (main system env (sigusr2 ∷ []))
main-IsOver_example = main-IsOver system system env sigusr2 [] (sigint ∷ [])
