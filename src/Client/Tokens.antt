-- ===== src/Client/Tokens.antt =====
-- cmd/client/main.go and interceptors/jwt_auth.go: the token that the client sends, as the server's
-- interceptor meets it.
use grpc_example.Common.{
  String, ◌<>◌, ℤ, ◌+ℤ◌, ◌≤ℤ◌, ◌<ℤ◌, Option, none, some, List, [], ◌∷◌, ◌≡◌, ◌≢◌, refl, ◌==◌,
  string_eq, if◌then◌else◌, eq_iff, Bool-cases, inl, inr,
}
use grpc_example.Errors.{err, status, unauthenticated}
use grpc_example.Auth.{Claims, AuthError, JwtLibrary, JwtManager, claims_for}
use grpc_example.Auth.Laws.{IsSigned}
use grpc_example.Interceptors.{Context, World, UnaryHandler, is_public_method}
use grpc_example.Interceptors.Jwt.{
  jwt_auth_unary_interceptor, new_approver, get_claims_from_context, validate_jwt,
}
use grpc_example.Interceptors.Jwt.Laws.{bearer-admitted}
use grpc_example.Client.{outgoing}

-- The values of a key in the metadata that a call carries.
abbrev received : List (String × String) → String → List String
received [] name = []
received ((key, value) ∷ rest) name =
    let others = received rest name in if key == name then value ∷ others else others

-- The context of a call of the client with the flag's token.
abbrev pub context_of : {N : Type 0} → String → Context N
context_of token = record { metadata = some (received (outgoing token)); claims = none }

received-outgoing :
    (token : String)
    → token ≢ ""
    → received (outgoing token) "authorization" ≡ ("Bearer " <> token) ∷ []
unfolding outgoing
received-outgoing token full = elim (Bool-cases (token == "")) [
  | inl missing ↦ absurd (full ((eq_iff token "").0 missing))
  | inr there ↦ rw (outgoing, there) refl
]

-- A token that the server's manager made, given to the client as its flag: while it is valid, a unary call
-- of a method that the approver lets its owner call reaches the handler with the token's claims. A client
-- without a token is refused as unauthenticated, and nothing changes.
pub outgoing-admitted :
    {N V Req Resp : Type 0} (lib : JwtLibrary N) (m : JwtManager) (error_text : AuthError → String)
    (valid_method : String → Claims N → Option AuthError) (time : N → ℤ) (t now : ℤ)
    (user_id username email : String) (roles : List String) (token : String)
    (handler : UnaryHandler N V Req Resp) (full_method : String) (req : Req) (w : World V)
    → IsSigned lib time (claims_for lib m t user_id username email roles) m.secret_key token
    → token ≢ ""
    → valid_method full_method (claims_for lib m t user_id username email roles) ≡ none
    → time (lib.numeric_date t) ≤ℤ now
    → now <ℤ time (lib.numeric_date (t +ℤ m.token_duration))
    → ((ctx' : Context N) × (get_claims_from_context ctx'
          ≡ some (claims_for lib m t user_id username email roles))
        × (jwt_auth_unary_interceptor error_text
              (new_approver lib m now valid_method)
              handler
              full_method
              (context_of token)
              req
              w
            ≡ handler ctx' req w))
      × (jwt_auth_unary_interceptor error_text
            (new_approver lib m now valid_method)
            handler
            full_method
            (context_of "")
            req
            w
          ≡ (err (status unauthenticated "missing authorization header"), w))
unfolding outgoing jwt_auth_unary_interceptor is_public_method validate_jwt
outgoing-admitted lib m error_text valid_method time t now user_id username email roles token
      handler full_method req w signed full allowed started running =
    (
      bearer-admitted lib m error_text valid_method time t now user_id username email roles token
          handler full_method (context_of token) req w signed full
          (received (outgoing token), [], refl, received-outgoing token full) allowed started
          running,
      refl,
    )
