-- ===== src/Interceptors/Metrics.antt =====
-- interceptors/metrics.go: the collector of request counts and durations, and the interceptors that
-- feed it. The global collector is a field of the world; `elapsed` is the reading of
-- `time.Since(start)` after the handler has returned.
pub mod Laws
pub mod Stats
use grpc_example.Common.{
  ℕ, ◌+◌, ◌%◌, ◌^◌, String, ℤ, Bool, true, false, Option, none, some, List, [], ◌∷◌, ◌++◌,
  if◌then◌else◌, string_eq,
}
use grpc_example.Common.Assoc.{lookup, insert}
use grpc_example.Errors.{Result, ok, err}
use grpc_example.Interceptors.{MetricsCollector, World, UnaryHandler, StreamHandler, StreamInfo}

-- `m++` on an int64, as a bit pattern.
abbrev pub inc64 : ℕ → ℕ
inc64 n = (n + 1) % 2 ^ 64

-- `m[k]` where a missing key reads as the zero value.
abbrev pub read {ℓ} : {A : Type ℓ} → A → Option A → A
read zero_value none = zero_value
read zero_value (some v) = v

abbrev pub new_metrics_collector : MetricsCollector
new_metrics_collector = record {
  total_requests = 0;
  total_errors = 0;
  request_durations = [];
  method_counts = [];
}

abbrev pub count_of : String → MetricsCollector → ℕ
unfolding lookup
count_of method m = read 0 (lookup method m.method_counts)

abbrev pub durations_of : String → MetricsCollector → List ℤ
unfolding lookup
durations_of method m = read [] (lookup method m.request_durations)

unfoldable pub record_request : String → ℤ → Bool → MetricsCollector → MetricsCollector
unfolding lookup insert
record_request method duration is_error m = record {
  total_requests = inc64 m.total_requests;
  total_errors = if is_error then inc64 m.total_errors else m.total_errors;
  request_durations = insert method (durations_of method m ++ duration ∷ []) m.request_durations;
  method_counts = insert method (inc64 (count_of method m)) m.method_counts;
}

unfoldable pub reset : MetricsCollector → MetricsCollector
reset m = record m {
  total_requests = 0;
  total_errors = 0;
  request_durations = [];
  method_counts = [];
}

-- `err != nil`
abbrev pub failed : {A : Type 0} → Result A → Bool
failed (ok a) = false
failed (err e) = true

abbrev pub recorded : {V A : Type 0} → String → ℤ → Result A × World V → Result A × World V
unfolding record_request
recorded full_method elapsed (r, w) =
    (r, record w { metrics = record_request full_method elapsed (failed r) w.metrics })

unfoldable pub metrics_unary_interceptor :
    {N V Req Resp : Type 0} → UnaryHandler N V Req Resp → String → ℤ → UnaryHandler N V Req Resp
unfolding record_request
metrics_unary_interceptor handler full_method elapsed ctx req w =
    recorded full_method elapsed (handler ctx req w)

unfoldable pub metrics_stream_interceptor :
    {N V : Type 0} → StreamHandler N V → StreamInfo → ℤ → StreamHandler N V
unfolding record_request
metrics_stream_interceptor handler info elapsed ctx w =
    recorded info.full_method elapsed (handler ctx w)
