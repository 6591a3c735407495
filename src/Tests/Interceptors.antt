-- ===== src/Tests/Interceptors.antt =====
-- The theorems on the interceptors at concrete requests.
use grpc_example.Common.{
  ℕ, suc, String, ℤ, pos, ◌+ℤ◌, none, some, List, [], ◌∷◌, ◌≡◌, ◌≢◌, refl, arith, ◌==◌, string_eq,
  eq_iff, if◌then◌else◌, ◌⊎◌, true, false, length, ◌%◌, ◌^◌,
}
use grpc_example.Errors.{status, unauthenticated, plain, ok, err}
use grpc_example.Auth.{AuthError, claims_for}
use grpc_example.Interceptors.{Context, World, UnaryHandler, StreamHandler}
use grpc_example.Interceptors.Jwt.{
  new_approver, fake_valid_method, jwt_auth_unary_interceptor, get_claims_from_context,
}
use grpc_example.Interceptors.Jwt.Laws.{
  Bears, IsGuarded, jwt_auth_unary_interceptor-IsGuarded, bearer-admitted,
}
use grpc_example.Client.Tokens.{context_of, outgoing-admitted}
use grpc_example.Interceptors.ApiKey.{HasKey, auth_unary_interceptor, auth_unary_interceptor-HasKey}
use grpc_example.Interceptors.Metrics.{new_metrics_collector, durations_of, count_of, reset}
use grpc_example.Interceptors.Metrics.Laws as Metered
use grpc_example.Interceptors.Metrics.Laws.{record_all, durations, errors, record_all-reset}
use grpc_example.Interceptors.Otel.{Texts, otel_logging_unary_interceptor}
use grpc_example.Interceptors.Otel.Laws.{
  tally, is_user, IsUnmeasured, otel_logging_unary_interceptor-jwt,
}
use grpc_example.Tests.Auth.{toy, manager, instant, tok-IsSigned}

abbrev get_user_method : String
get_user_method = "/proto.UserService/GetUser"

abbrev header : String → List String
header key = if key == "authorization" then "Bearer tok" ∷ [] else []

abbrev with_tok : Context ℤ
with_tok = record { metadata = some header; claims = none }

with_tok-Bears : Bears with_tok "tok"
with_tok-Bears = (header, [], refl, refl)

abbrev error_text : AuthError → String
error_text e = "invalid"

abbrev quiet_world : World ℕ
quiet_world = record { metrics = new_metrics_collector; events = []; rest = 0 }

-- A handler that counts its calls and one that fails.
abbrev counting : UnaryHandler ℤ ℕ String String
counting ctx req w = (ok req, record w { rest = suc w.rest })

abbrev failing : StreamHandler ℤ ℕ
failing ctx w = (err (plain "broken"), w)

jwt_auth_unary_interceptor-IsGuarded_example :
    IsGuarded error_text
      (new_approver toy manager (pos 12) fake_valid_method)
      with_tok
      quiet_world
      get_user_method
      (λ c v. counting c "req" v)
      (jwt_auth_unary_interceptor error_text
        (new_approver toy manager (pos 12) fake_valid_method)
        counting
        get_user_method
        with_tok
        "req"
        quiet_world)
jwt_auth_unary_interceptor-IsGuarded_example =
    jwt_auth_unary_interceptor-IsGuarded error_text
      (new_approver toy manager (pos 12) fake_valid_method) counting get_user_method with_tok "req"
      quiet_world

abbrev tok : String
tok = "tok"

tok_filled : tok ≢ ""
tok_filled = ground (arith, eq_iff "tok" "")

bearer-admitted_example :
    (ctx' : Context ℤ) × (get_claims_from_context ctx'
      ≡ some (claims_for toy manager (pos 10) "1" "ann" "ann@example.com" ("admin" ∷ [])))
    × (jwt_auth_unary_interceptor error_text
          (new_approver toy manager (pos 12) fake_valid_method)
          counting
          get_user_method
          with_tok
          "req"
          quiet_world
        ≡ counting ctx' "req" quiet_world)
unfolding fake_valid_method ◌+ℤ◌
bearer-admitted_example =
    bearer-admitted toy manager error_text fake_valid_method instant (pos 10) (pos 12) "1" "ann"
      "ann@example.com" ("admin" ∷ []) "tok" counting get_user_method with_tok "req" quiet_world
      tok-IsSigned tok_filled with_tok-Bears refl (omega arith) (omega arith)

outgoing-admitted_example :
    ((ctx' : Context ℤ) × (get_claims_from_context ctx'
        ≡ some (claims_for toy manager (pos 10) "1" "ann" "ann@example.com" ("admin" ∷ [])))
      × (jwt_auth_unary_interceptor error_text
            (new_approver toy manager (pos 12) fake_valid_method)
            counting
            get_user_method
            (context_of "tok")
            "req"
            quiet_world
          ≡ counting ctx' "req" quiet_world))
    × (jwt_auth_unary_interceptor error_text
          (new_approver toy manager (pos 12) fake_valid_method)
          counting
          get_user_method
          (context_of "")
          "req"
          quiet_world
        ≡ (err (status unauthenticated "missing authorization header"), quiet_world))
unfolding fake_valid_method ◌+ℤ◌
outgoing-admitted_example =
    outgoing-admitted toy manager error_text fake_valid_method instant (pos 10) (pos 12) "1" "ann"
      "ann@example.com" ("admin" ∷ []) "tok" counting get_user_method "req" quiet_world tok-IsSigned
      tok_filled refl (omega arith) (omega arith)

abbrev texts : Texts
texts = record {
  as_milliseconds = λ d. d;
  code_text = λ e. "Unknown";
  message_text = λ e. "message";
}

counting-IsUnmeasured : IsUnmeasured (counting with_tok "req")
counting-IsUnmeasured v = record { level = refl; requests = omega arith; errors = omega arith }

otel_logging_unary_interceptor-jwt_example :
    tally is_user
      (otel_logging_unary_interceptor texts
        (jwt_auth_unary_interceptor error_text
          (new_approver toy manager (pos 12) fake_valid_method)
          counting
          get_user_method)
        get_user_method
        (pos 5)
        with_tok
        "req"
        quiet_world).1.events
    ≡ 0
otel_logging_unary_interceptor-jwt_example =
    otel_logging_unary_interceptor-jwt texts error_text
      (new_approver toy manager (pos 12) fake_valid_method) counting get_user_method (pos 5)
      with_tok "req" quiet_world refl (λ c v. refl)

-- The token is not the key.
auth_unary_interceptor-HasKey_example :
    (HasKey with_tok
      × (auth_unary_interceptor counting get_user_method with_tok "req" quiet_world
          ≡ counting with_tok "req" quiet_world))
    ⊎ ((¬ HasKey with_tok)
        × ((m : String) × (auth_unary_interceptor counting get_user_method with_tok "req"
                quiet_world
              ≡ (err (status unauthenticated m), quiet_world))))
auth_unary_interceptor-HasKey_example =
    auth_unary_interceptor-HasKey counting get_user_method with_tok "req" quiet_world

-- Two calls of a method, of which one fails, and one of another.
abbrev calls : List Metered.Request
calls =
    record { method = get_user_method; duration = pos 3; is_error = false }
    ∷ record { method = "/proto.UserService/AddUser"; duration = pos 8; is_error = false }
    ∷ record { method = get_user_method; duration = pos 4; is_error = true }
    ∷ []

record_all-reset_example :
    (durations_of get_user_method (record_all calls (reset new_metrics_collector))
      ≡ durations get_user_method calls)
    × (count_of get_user_method (record_all calls (reset new_metrics_collector))
        ≡ length (durations get_user_method calls) % 2 ^ 64)
    × ((record_all calls (reset new_metrics_collector)).total_requests ≡ length calls % 2 ^ 64)
    × ((record_all calls (reset new_metrics_collector)).total_errors ≡ errors calls % 2 ^ 64)
record_all-reset_example = record_all-reset get_user_method calls new_metrics_collector
