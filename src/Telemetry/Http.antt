-- ===== src/Telemetry/Http.antt =====
-- otel/http_middleware.go: the wrapping of the gateway's handler. `new_handler` is `otelhttp.NewHandler`: it
-- takes the handler, the service's name and the name that it gives the span of a request.
use grpc_example.Common.{String, ◌<>◌}

-- The method and the path.
abbrev pub span_name : String → String → String
span_name method path = method <> " " <> path

unfoldable pub wrap_handler :
    {H : Type 0} → (H → String → (String → String → String) → H) → H → String → H
wrap_handler new_handler handler service_name = new_handler handler service_name span_name

unfoldable pub wrap_mux :
    {H : Type 0} → (H → String → (String → String → String) → H) → H → String → H
unfolding wrap_handler
wrap_mux new_handler mux service_name = wrap_handler new_handler mux service_name
