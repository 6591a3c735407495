-- ===== src/Interceptors/Otel/Laws.antt =====
-- What the interceptors add to the events of the call that they wrap.
use grpc_example.Common.{
  ℕ, ◌+◌, String, ℤ, pos, negsuc, pos_part, neg_part, true, Option, none, some, List, [], ◌∷◌, ◌++◌,
  ◌≡◌, refl, inl, inr, arith, ◌==◌, string_eq, if◌then◌else◌,
}
use grpc_example.Errors.{Result, ok, err}
use grpc_example.Auth.{AuthError, Claims}
use grpc_example.Interceptors.{
  Context, with_claims, Attributes, World, Event, started, active_requests, request_count,
  request_error, request_duration, span_start, span_attributes, record_event, UnaryHandler,
  StreamHandler, StreamInfo, text,
}
use grpc_example.Interceptors.Jwt.{
  Approver, get_claims_from_context, jwt_auth_unary_interceptor, validate_jwt,
}
use grpc_example.Interceptors.Jwt.Laws.{jwt_auth_unary_interceptor-IsGuarded}
use grpc_example.Interceptors.Otel.Names.{extract_service, extract_method}
use grpc_example.Interceptors.Otel.{
  Texts, determine_stream_type, otel_metrics_unary_interceptor, otel_metrics_stream_interceptor,
  otel_logging_unary_interceptor, closing, record_events, get_status_code, error_events,
  attributes_of,
}

abbrev pub tally : (Event → ℕ) → List Event → ℕ
tally weight [] = 0
tally weight (e ∷ es) = weight e + tally weight es

-- By how much an event raises and lowers the instrument of active requests, and whether it
-- increments one of the counters.
abbrev pub raised : Event → ℕ
raised (active_requests n a) = pos_part n
raised _ = 0

abbrev pub lowered : Event → ℕ
lowered (active_requests n a) = neg_part n
lowered _ = 0

abbrev pub is_request : Event → ℕ
is_request (request_count a) = 1
is_request _ = 0

abbrev pub is_request_error : Event → ℕ
is_request_error (request_error a) = 1
is_request_error _ = 0

-- Whether it sets the user of the span.
abbrev pub is_user : Event → ℕ
is_user (span_attributes ((key, value) ∷ rest)) = if key == "user.id" then 1 else 0
is_user _ = 0

tally-append :
    (weight : Event → ℕ) (es fs : List Event)
    → tally weight (es ++ fs) ≡ tally weight es + tally weight fs
tally-append weight [] fs = omega arith
tally-append weight (e ∷ es) fs = omega (arith, tally-append weight es fs)

-- The events went from `before` to `after` with the active requests unchanged, `n` requests counted
-- and `k` errors.
pub record HasCounted (n k : ℕ) (before after : List Event) : Type 0 where
  pub level : tally raised after + tally lowered before ≡ tally raised before + tally lowered after
  pub requests : tally is_request after ≡ tally is_request before + n
  pub errors : tally is_request_error after ≡ tally is_request_error before + k

-- What the instruments show of a result.
abbrev pub error_count : {A : Type 0} → Result A → ℕ
error_count (ok a) = 0
error_count (err e) = 1

-- What the interceptor records after a call.
abbrev recordings : {A : Type 0} → Texts → ℤ → Attributes → Attributes → Result A → List Event
recordings lib d a s r =
    request_count s ∷ request_duration d s ∷ error_events lib s r
    ++ active_requests (negsuc 0) a ∷ []

recordings-tally :
    {A : Type 0} (lib : Texts) (d : ℤ) (a s : Attributes) (r : Result A)
    → (tally raised (recordings lib d a s r) ≡ 0)
      × (tally lowered (recordings lib d a s r) ≡ 1)
      × (tally is_request (recordings lib d a s r) ≡ 1)
      × (tally is_request_error (recordings lib d a s r) ≡ error_count r)
recordings-tally lib d a s (ok v) = (refl, refl, refl, refl)
recordings-tally lib d a s (err e) = (refl, refl, refl, refl)

recordings-HasCounted :
    {A : Type 0} (lib : Texts) (d : ℤ) (a s : Attributes) (r : Result A) (before after : List Event)
    → HasCounted 0 0 (before ++ active_requests (pos 1) a ∷ []) after
    → HasCounted 1 (error_count r) before (after ++ recordings lib d a s r)
recordings-HasCounted lib d a s r before after h =
    let (up, down, one, wrong) = recordings-tally lib d a s r in
    record {
      level = omega (
        arith,
        h.level,
        up,
        down,
        tally-append raised after (recordings lib d a s r),
        tally-append lowered after (recordings lib d a s r),
        tally-append raised before (active_requests (pos 1) a ∷ []),
        tally-append lowered before (active_requests (pos 1) a ∷ []),
      );
      requests = omega (
        arith,
        h.requests,
        one,
        tally-append is_request after (recordings lib d a s r),
        tally-append is_request before (active_requests (pos 1) a ∷ []),
      );
      errors = omega (
        arith,
        h.errors,
        wrong,
        tally-append is_request_error after (recordings lib d a s r),
        tally-append is_request_error before (active_requests (pos 1) a ∷ []),
      );
    }

-- The call neither measures nor counts anything itself.
abbrev pub IsUnmeasured : {V A : Type 0} → (World V → Result A × World V) → Type 0
IsUnmeasured {V = V'} call = (v : World V') → HasCounted 0 0 v.events (call v).1.events

-- With the instruments created, a unary call through the interceptor leaves the number of active
-- requests as it was, counts one request, and counts one error exactly if the handler fails, for a
-- handler that does not use the instruments itself.
pub otel_metrics_unary_interceptor-HasCounted :
    {N V Req Resp : Type 0} (lib : Texts) (handler : UnaryHandler N V Req Resp)
    (full_method : String) (elapsed : ℤ) (ctx : Context N) (req : Req) (w : World V)
    → IsUnmeasured (handler ctx req)
    → HasCounted 1
        (error_count
          (otel_metrics_unary_interceptor lib true handler full_method elapsed ctx req w).0)
        w.events
        (otel_metrics_unary_interceptor lib true handler full_method elapsed ctx req w).1.events
unfolding otel_metrics_unary_interceptor extract_service
otel_metrics_unary_interceptor-HasCounted lib handler full_method elapsed ctx req w quiet =
    let a = attributes_of lib full_method "unary" in
    let w1 = record_event (active_requests (pos 1) a) w in
    let answer = handler ctx req w1 in
    recordings-HasCounted lib (lib.as_milliseconds elapsed) a
      (a ++ ("rpc.grpc.status_code", text (get_status_code lib answer.0)) ∷ []) answer.0 w.events
      answer.1.events (quiet w1)

-- With the instruments created, a stream through the interceptor leaves the number of active
-- requests as it was, counts one request, and counts one error exactly if the handler fails, for
-- a handler that does not use the instruments itself.
otel_metrics_stream_interceptor-HasCounted :
    {N V : Type 0} (lib : Texts) (handler : StreamHandler N V) (info : StreamInfo) (elapsed : ℤ)
    (ctx : Context N) (w : World V)
    → IsUnmeasured (handler ctx)
    → HasCounted 1
        (error_count (otel_metrics_stream_interceptor lib true handler info elapsed ctx w).0)
        w.events
        (otel_metrics_stream_interceptor lib true handler info elapsed ctx w).1.events
unfolding otel_metrics_stream_interceptor extract_service determine_stream_type
otel_metrics_stream_interceptor-HasCounted lib handler info elapsed ctx w quiet =
    let a = attributes_of lib info.full_method (determine_stream_type info) in
    let w1 = record_event (active_requests (pos 1) a) w in
    let answer = handler ctx w1 in
    recordings-HasCounted lib (lib.as_milliseconds elapsed) a
      (a ++ ("rpc.grpc.status_code", text (get_status_code lib answer.0)) ∷ []) answer.0 w.events
      answer.1.events (quiet w1)

-- What the tracing interceptor records before a unary call.
abbrev opening : String → List Event
unfolding extract_service extract_method
opening full_method =
    span_start full_method (
      ("rpc.system", text "grpc")
      ∷ ("rpc.service", text (extract_service full_method))
      ∷ ("rpc.method", text (extract_method full_method))
      ∷ ("rpc.grpc.kind", text "unary")
      ∷ [])
    ∷ started "Unary" full_method
    ∷ []

closing-is_user :
    {N A : Type 0} (lib : Texts) (full_method : String) (elapsed : ℤ) (claims : Option (Claims N))
    (r : Result A)
    → claims ≡ none
    → tally is_user (closing lib "Unary" full_method elapsed claims r) ≡ 0
closing-is_user lib full_method elapsed none (ok a) h = refl
closing-is_user lib full_method elapsed none (err e) h = refl
closing-is_user lib full_method elapsed (some c) r h = ground arith

jwt-quiet :
    {N V Req Resp : Type 0} (error_text : AuthError → String) (vapid : Approver N)
    (handler : UnaryHandler N V Req Resp) (full_method : String) (ctx : Context N) (req : Req)
    (w : World V)
    → ((c : Context N) (v : World V)
        → tally is_user (handler c req v).1.events ≡ tally is_user v.events)
    → tally is_user
        (jwt_auth_unary_interceptor error_text vapid handler full_method ctx req w).1.events
      ≡ tally is_user w.events
unfolding validate_jwt
jwt-quiet error_text vapid handler full_method ctx req w quiet =
    elim (jwt_auth_unary_interceptor-IsGuarded error_text vapid handler full_method ctx req w) [
      | inl (e, _, same) ↦ rw same refl
      | inr (c, _, inl (e, _, same)) ↦ rw same refl
      | inr (c, _, inr (_, same)) ↦ rw same (quiet (with_claims ctx c) w)
    ]

-- The tracing interceptor around the JWT interceptor, in the server's order: for a request that
-- comes without claims in its context, the span is never given a user, not even where the JWT
-- interceptor lets the call through, for a handler that does not do so itself.
pub otel_logging_unary_interceptor-jwt :
    {N V Req Resp : Type 0} (lib : Texts) (error_text : AuthError → String) (vapid : Approver N)
    (handler : UnaryHandler N V Req Resp) (full_method : String) (elapsed : ℤ) (ctx : Context N)
    (req : Req) (w : World V)
    → ctx.claims ≡ none
    → ((c : Context N) (v : World V)
        → tally is_user (handler c req v).1.events ≡ tally is_user v.events)
    → tally is_user
        (otel_logging_unary_interceptor lib
          (jwt_auth_unary_interceptor error_text vapid handler full_method)
          full_method
          elapsed
          ctx
          req
          w).1.events
      ≡ tally is_user w.events
unfolding otel_logging_unary_interceptor extract_service extract_method get_claims_from_context
otel_logging_unary_interceptor-jwt lib error_text vapid handler full_method elapsed ctx req w absent
      quiet =
    let v = record_events lib (opening full_method) w in
    let answer = jwt_auth_unary_interceptor error_text vapid handler full_method ctx req v in
    rw
      (
        tally-append is_user answer.1.events
            (closing lib "Unary" full_method elapsed ctx.claims answer.0),
        closing-is_user lib full_method elapsed ctx.claims answer.0 absent,
        jwt-quiet error_text vapid handler full_method ctx req v quiet,
        tally-append is_user w.events (opening full_method),
      )
      (omega arith)
