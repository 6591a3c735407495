-- ===== src/Interceptors/Logging.antt =====
-- interceptors/logging.go: the start and the end of each call go to the log. `elapsed` is the
-- reading of `time.Since(start)` after the handler has returned.
use grpc_example.Common.{String, ℤ, ◌&&◌, if◌then◌else◌}
use grpc_example.Errors.{Result, ok, err}
use grpc_example.Interceptors.{
  World, Event, started, completed_ok, completed_error, record_event, UnaryHandler, StreamHandler,
  StreamInfo,
}

-- The line for the end of a call.
abbrev pub completed : {A : Type 0} → String → String → ℤ → Result A → Event
completed kind full_method elapsed (ok a) = completed_ok kind full_method elapsed
completed kind full_method elapsed (err e) = completed_error kind full_method e elapsed

abbrev pub logged :
    {V A : Type 0}
    → String
    → String
    → ℤ
    → (World V → Result A × World V)
    → World V
    → Result A × World V
logged kind full_method elapsed call w =
    let (r, after) = call (record_event (started kind full_method) w) in
    (r, record_event (completed kind full_method elapsed r) after)

unfoldable pub logging_unary_interceptor :
    {N V Req Resp : Type 0} → UnaryHandler N V Req Resp → String → ℤ → UnaryHandler N V Req Resp
logging_unary_interceptor handler full_method elapsed ctx req w =
    logged "Unary" full_method elapsed (handler ctx req) w

unfoldable pub stream_type : StreamInfo → String
stream_type info =
    if info.is_client_stream && info.is_server_stream
    then "Bidirectional"
    else if info.is_client_stream
    then "ClientStream"
    else if info.is_server_stream
    then "ServerStream"
    else "Unknown"

unfoldable pub logging_stream_interceptor :
    {N V : Type 0} → StreamHandler N V → StreamInfo → ℤ → StreamHandler N V
unfolding stream_type
logging_stream_interceptor handler info elapsed ctx w =
    logged (stream_type info) info.full_method elapsed (handler ctx) w
