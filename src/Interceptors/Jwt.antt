-- ===== src/Interceptors/Jwt.antt =====
-- interceptors/jwt_auth.go: authentication by a JWT. What `log.Printf` and `slog` print here is not
-- modelled. `auth.Approver` is a record of its two methods, whose implementations are the manager of
-- auth/jwt.go and an approver of methods.
pub mod Laws
use grpc_example.Common.{
  String, ◌<>◌, ℤ, pos, Bool, true, false, ◌&&◌, Option, none, some, List, [], ◌∷◌, ◌⊎◌, inl, inr,
  ◌==◌, string_eq, int_eq, if◌then◌else◌, has_prefix, trim_prefix,
}
use grpc_example.Errors.{Error, status, unauthenticated, permission_denied, Result, ok, err, ◌>>=◌}
use grpc_example.Auth.{
  Claims, AuthError, invalid_claims, no_permission, JwtLibrary, JwtManager, validate_token,
  has_any_role,
}
use grpc_example.Auth
use grpc_example.Interceptors.{
  Context, with_claims, World, UnaryHandler, StreamHandler, StreamInfo, is_public_method,
}

-- `auth.Approver`: `ValidateToken` and `ValidMethod`, which returns nil or an error.
pub record Approver (N : Type 0) : Type 0 where
  pub validate_token : String → AuthError ⊎ Claims N
  pub valid_method : String → Claims N → Option AuthError

unfoldable pub new_approver :
    {N : Type 0}
    → JwtLibrary N
    → JwtManager
    → ℤ
    → (String → Claims N → Option AuthError)
    → Approver N
new_approver lib m now valid_method = record {
  validate_token = validate_token lib m now;
  valid_method = valid_method;
}

-- `FakeClaimsApprover.ValidMethod`
unfoldable pub fake_valid_method : {N : Type 0} → String → Claims N → Option AuthError
fake_valid_method full_method claim =
    if full_method == "/proto.UserService/ListUsers" && claim.email == "hello@example.com"
    then some invalid_claims
    else if full_method == "/proto.UserService/ListUsers" && claim.username == "mynameismud"
    then some no_permission
    else none

-- An hour in nanoseconds.
abbrev hour : ℤ
hour = pos 3600000000000

unfoldable pub new_jwt_manager : String → ℤ → String → JwtManager
new_jwt_manager secret_key token_duration issuer =
    Auth.new_jwt_manager secret_key (if token_duration == pos 0 then hour else token_duration)
      issuer

module _ {N : Type 0} (error_text : AuthError → String) (vapid : Approver N) where
  abbrev approved : AuthError ⊎ Claims N → Result (Claims N)
  approved (inl e) = err (status unauthenticated (error_text e))
  approved (inr claims) = ok claims

  abbrev pub from_header : String → Result (Claims N)
  from_header auth_header =
      if has_prefix auth_header "Bearer "
      then (let bearer = trim_prefix auth_header "Bearer " in
          if bearer == ""
          then err (status unauthenticated "empty token")
          else approved (vapid.validate_token bearer))
      else err (status unauthenticated "invalid authorization format, expected 'Bearer <token>'")

  abbrev pub from_values : List String → Result (Claims N)
  from_values [] = err (status unauthenticated "missing authorization header")
  from_values (auth_header ∷ rest) = from_header auth_header

  abbrev pub from_metadata : Option (String → List String) → Result (Claims N)
  from_metadata none = err (status unauthenticated "missing metadata")
  from_metadata (some md) = from_values (md "authorization")

  unfoldable pub validate_jwt : Context N → Result (Claims N)
  unfolding has_prefix trim_prefix
  validate_jwt ctx = from_metadata ctx.metadata

  -- The claims of a caller who may call the method.
  abbrev pub permit : String → Claims N → Option AuthError → Result (Claims N)
  permit full_method claims none = ok claims
  permit full_method claims (some e) =
      err (status permission_denied "insufficient permissions for method")

  abbrev pub admit : String → Context N → Result (Claims N)
  unfolding validate_jwt
  admit full_method ctx = do
    claims ← validate_jwt ctx
    permit full_method claims (vapid.valid_method full_method claims)

  abbrev pub proceed :
      {V A : Type 0}
      → (Context N → World V → Result A × World V)
      → Context N
      → World V
      → Result (Claims N)
      → Result A × World V
  proceed handler ctx w (err e) = (err e, w)
  proceed handler ctx w (ok claims) = handler (with_claims ctx claims) w

  unfoldable pub jwt_auth_unary_interceptor :
      {V Req Resp : Type 0} → UnaryHandler N V Req Resp → String → UnaryHandler N V Req Resp
  unfolding is_public_method validate_jwt
  jwt_auth_unary_interceptor handler full_method ctx req w =
      if is_public_method full_method
      then handler ctx req w
      else proceed (λ c v. handler c req v) ctx w (admit full_method ctx)

  unfoldable pub jwt_auth_stream_interceptor :
      {V : Type 0} → StreamHandler N V → StreamInfo → StreamHandler N V
  unfolding is_public_method validate_jwt
  jwt_auth_stream_interceptor handler info ctx w =
      if is_public_method info.full_method
      then handler ctx w
      else proceed handler ctx w (admit info.full_method ctx)

-- nil where the context holds no claims.
unfoldable pub get_claims_from_context : {N : Type 0} → Context N → Option (Claims N)
get_claims_from_context ctx = ctx.claims

module _ {N : Type 0} (roles_text : List String → String) where
  abbrev pub require : List String → Option (Claims N) → Option Error
  unfolding has_any_role
  require roles none = some (status unauthenticated "no authentication claims found")
  require roles (some claims) =
      if has_any_role claims roles
      then none
      else some (
          status permission_denied
            ("insufficient permissions, required roles: " <> roles_text roles))

  -- The role check; `roles_text` is the `%v` of the roles.
  unfoldable pub require_role : List String → Context N → Option Error
  unfolding get_claims_from_context has_any_role
  require_role roles ctx = require roles (get_claims_from_context ctx)
