-- ===== src/Interceptors/Jwt/Laws.antt =====
-- Who passes the JWT interceptors, and what a refused call does.
use mathlib.Core.List.{Memᴰ}
use grpc_example.Common.{
  String, ◌<>◌, ℤ, ◌+ℤ◌, ◌≤ℤ◌, ◌<ℤ◌, true, false, Option, none, some, List, [], ◌∷◌, ◌≡◌, refl, ◌≢◌,
  ◌↔◌, ◌⊎◌, inl, inr, arith, ◌==◌, string_eq, eq_iff, Bool-cases, Option-cases, after_prefix,
  has_prefix, trim_prefix, after_prefix-append, append-after_prefix,
}
use grpc_example.Errors.{
  Error, status, unauthenticated, permission_denied, Result, ok, err, Result-cases,
}
use grpc_example.Auth.{
  Claims, AuthError, expired_token, JwtLibrary, JwtManager, claims_for, has_any_role,
}
use grpc_example.Auth.Laws.{
  IsSigned, validate_token-generate_token, validate_token-expired, has_any_role_iff,
}
use grpc_example.Interceptors.{
  Context, with_claims, World, UnaryHandler, StreamHandler, StreamInfo, is_public_method,
}
use grpc_example.Interceptors.Jwt.{
  Approver, new_approver, from_header, from_values, from_metadata, validate_jwt, admit, proceed,
  jwt_auth_unary_interceptor, jwt_auth_stream_interceptor, get_claims_from_context, require_role,
}

-- The request's first authorization value is "Bearer " and the bearer's text.
abbrev pub Bears : {N : Type 0} → Context N → String → Type 0
Bears ctx bearer =
    (md : String → List String) × (rest : List String) × (ctx.metadata ≡ some md)
    × (md "authorization" ≡ ("Bearer " <> bearer) ∷ rest)

module _ {N : Type 0} (error_text : AuthError → String) (vapid : Approver N) where
  from_header_iff :
      (header : String) (c : Claims N)
      → (from_header error_text vapid header ≡ ok c) ↔ (
          (bearer : String) × (header ≡ "Bearer " <> bearer)
          × (bearer ≢ "")
          × (vapid.validate_token bearer ≡ inr c))
  unfolding has_prefix trim_prefix
  from_header_iff header c = (
    λ h. elim (Option-cases (after_prefix "Bearer " header)) [
      | inl other ↦ ground arith
      | inr (bearer, e) ↦ elim (Bool-cases (bearer == "")) [
        | inl empty ↦ ground arith
        | inr full ↦ (
          bearer,
          append-after_prefix "Bearer " header bearer e,
          ground (arith, eq_iff bearer ""),
          ground arith,
        )
      ]
    ],
    λ (bearer, e, full, valid).
        let found : after_prefix "Bearer " header ≡ some bearer =
          rw e (after_prefix-append "Bearer " bearer) in
        let differ : (bearer == "") ≡ false = ground (arith, eq_iff bearer "") in ground arith,
  )

  some_value :
      (values : List String) (c : Claims N)
      → from_values error_text vapid values ≡ ok c
      → (header : String) × (rest : List String) × (values ≡ header ∷ rest)
        × (from_header error_text vapid header ≡ ok c)
  some_value [] c h = ground arith
  some_value (header ∷ rest) c h = (header, rest, refl, h)

  some_metadata :
      (metadata : Option (String → List String)) (c : Claims N)
      → from_metadata error_text vapid metadata ≡ ok c
      → (md : String → List String) × (metadata ≡ some md)
        × (from_values error_text vapid (md "authorization") ≡ ok c)
  some_metadata none c h = ground arith
  some_metadata (some md) c h = (md, refl, h)

  -- `validateJWT` returns claims exactly if the first authorization value is "Bearer " followed by
  -- a text that is not empty and that the approver validates with these claims.
  pub validate_jwt_iff :
      (ctx : Context N) (c : Claims N)
      → (validate_jwt error_text vapid ctx ≡ ok c) ↔ (
          (bearer : String) × Bears ctx bearer
          × (bearer ≢ "")
          × (vapid.validate_token bearer ≡ inr c))
  unfolding validate_jwt has_prefix trim_prefix
  validate_jwt_iff ctx c = (
    λ h.
        let (md, e, found) = some_metadata ctx.metadata c h in
        let (header, rest, e', valued) = some_value (md "authorization") c found in
        let (bearer, split, full, valid) = (from_header_iff header c).0 valued in
        (bearer, (md, rest, e, rw (← split) e'), full, valid),
    λ (bearer, (md, rest, e, e'), full, valid).
        rw (e, e') ((from_header_iff ("Bearer " <> bearer) c).1 (bearer, refl, full, valid)),
  )

  -- Every way a call can go, with the approver's decisions: `answer` is what the call returns.
  abbrev pub IsGuarded :
      {V A : Type 0}
      → Context N
      → World V
      → String
      → (Context N → World V → Result A × World V)
      → Result A × World V
      → Type 0
  unfolding validate_jwt
  IsGuarded ctx w full_method handler answer =
      ((e : Error) × (validate_jwt error_text vapid ctx ≡ err e) × (answer ≡ (err e, w)))
      ⊎ ((c : Claims N) × (validate_jwt error_text vapid ctx ≡ ok c)
          × (((e : AuthError) × (vapid.valid_method full_method c ≡ some e)
                × (answer
                    ≡ (err (status permission_denied "insufficient permissions for method"), w)))
              ⊎ ((vapid.valid_method full_method c ≡ none)
                  × (answer ≡ handler (with_claims ctx c) w))))

  guarded :
      {V A : Type 0} (handler : Context N → World V → Result A × World V) (full_method : String)
      (ctx : Context N) (w : World V)
      → IsGuarded ctx w full_method handler
          (proceed error_text vapid handler ctx w (admit error_text vapid full_method ctx))
  unfolding validate_jwt
  guarded handler full_method ctx w = elim (Result-cases (validate_jwt error_text vapid ctx)) [
    | inr (e, refused) ↦ inl (e, refused, rw refused refl)
    | inl (c, valid) ↦ elim (Option-cases (vapid.valid_method full_method c)) [
      | inl fine ↦ inr (c, valid, inr (fine, rw (valid, fine) refl))
      | inr (e, forbidden) ↦ inr (c, valid, inl (e, forbidden, rw (valid, forbidden) refl))
    ]
  ]

  -- A unary call: without valid claims the error of `validateJWT` is returned, with claims that
  -- the approver does not let call the method a permission-denied status, both with the world as it
  -- was, the handler not having run; else the handler runs, with the claims in its context.
  pub jwt_auth_unary_interceptor-IsGuarded :
      {V Req Resp : Type 0} (handler : UnaryHandler N V Req Resp) (full_method : String)
      (ctx : Context N) (req : Req) (w : World V)
      → IsGuarded ctx w full_method
          (λ c v. handler c req v)
          (jwt_auth_unary_interceptor error_text vapid handler full_method ctx req w)
  unfolding validate_jwt jwt_auth_unary_interceptor is_public_method
  jwt_auth_unary_interceptor-IsGuarded handler full_method ctx req w =
      guarded (λ c v. handler c req v) full_method ctx w

  -- A stream: without valid claims the error of `validateJWT` is returned, with claims that the
  -- approver does not let call the method a permission-denied status, both with the world as it
  -- was, the handler not having run; else the handler runs, with the claims in its context.
  jwt_auth_stream_interceptor-IsGuarded :
      {V : Type 0} (handler : StreamHandler N V) (info : StreamInfo) (ctx : Context N) (w : World V)
      → IsGuarded ctx w info.full_method handler
          (jwt_auth_stream_interceptor error_text vapid handler info ctx w)
  unfolding validate_jwt jwt_auth_stream_interceptor is_public_method
  jwt_auth_stream_interceptor-IsGuarded handler info ctx w = guarded handler info.full_method ctx w

-- A token that the manager made, sent as "Bearer " and the token: while it is valid, a unary call
-- of a method that the approver lets its owner call reaches the handler, which finds in its context
-- the claims that the token was made for.
pub bearer-admitted :
    {N V Req Resp : Type 0} (lib : JwtLibrary N) (m : JwtManager) (error_text : AuthError → String)
    (valid_method : String → Claims N → Option AuthError) (time : N → ℤ) (t now : ℤ)
    (user_id username email : String) (roles : List String) (bearer : String)
    (handler : UnaryHandler N V Req Resp) (full_method : String) (ctx : Context N) (req : Req)
    (w : World V)
    → IsSigned lib time (claims_for lib m t user_id username email roles) m.secret_key bearer
    → bearer ≢ ""
    → Bears ctx bearer
    → valid_method full_method (claims_for lib m t user_id username email roles) ≡ none
    → time (lib.numeric_date t) ≤ℤ now
    → now <ℤ time (lib.numeric_date (t +ℤ m.token_duration))
    → (ctx' : Context N) × (get_claims_from_context ctx'
        ≡ some (claims_for lib m t user_id username email roles))
      × (jwt_auth_unary_interceptor error_text
            (new_approver lib m now valid_method)
            handler
            full_method
            ctx
            req
            w
          ≡ handler ctx' req w)
unfolding jwt_auth_unary_interceptor is_public_method get_claims_from_context new_approver
    validate_jwt has_prefix trim_prefix
bearer-admitted lib m error_text valid_method time t now user_id username email roles bearer handler
      full_method ctx req w signed full (md, rest, e, e') allowed started running =
    let valid =
      validate_token-generate_token lib m time t now user_id username email roles bearer signed
        started running in
    let found =
      (validate_jwt_iff error_text (new_approver lib m now valid_method) ctx
          (claims_for lib m t user_id username email roles)).1
        (bearer, (md, rest, e, e'), full, valid) in
    (
      with_claims ctx (claims_for lib m t user_id username email roles),
      refl,
      rw (found, allowed) refl,
    )

-- From its expiry on, a unary call with a token that the manager made, sent as "Bearer " and the
-- token, returns an unauthenticated status with the expiry error's text, and changes nothing,
-- whatever the handler.
bearer-expired :
    {N V Req Resp : Type 0} (lib : JwtLibrary N) (m : JwtManager) (error_text : AuthError → String)
    (valid_method : String → Claims N → Option AuthError) (time : N → ℤ) (t now : ℤ)
    (user_id username email : String) (roles : List String) (bearer : String)
    (handler : UnaryHandler N V Req Resp) (full_method : String) (ctx : Context N) (req : Req)
    (w : World V)
    → IsSigned lib time (claims_for lib m t user_id username email roles) m.secret_key bearer
    → bearer ≢ ""
    → Bears ctx bearer
    → time (lib.numeric_date (t +ℤ m.token_duration)) ≤ℤ now
    → jwt_auth_unary_interceptor error_text
        (new_approver lib m now valid_method)
        handler
        full_method
        ctx
        req
        w
      ≡ (err (status unauthenticated (error_text expired_token)), w)
unfolding jwt_auth_unary_interceptor is_public_method get_claims_from_context new_approver
    validate_jwt has_prefix trim_prefix
bearer-expired lib m error_text valid_method time t now user_id username email roles bearer handler
      full_method ctx req w signed full (md, rest, e, e') over =
    let invalid =
      validate_token-expired lib m time t now user_id username email roles bearer signed over in
    let differ : (bearer == "") ≡ false = ground (arith, eq_iff bearer "") in
    rw (e, e', after_prefix-append "Bearer " bearer, differ, invalid) refl

-- `RequireRole` accepts a context exactly if it holds claims with one of the roles.
require_role_iff :
    {N : Type 0} (roles_text : List String → String) (roles : List String) (ctx : Context N)
    → (require_role roles_text roles ctx ≡ none) ↔ (
        (c : Claims N) × (get_claims_from_context ctx ≡ some c)
        × ((r : String) × Memᴰ r roles × Memᴰ r c.roles))
unfolding require_role get_claims_from_context
require_role_iff roles_text roles ctx = elim (Option-cases ctx.claims) [
  | inl missing ↦ (λ h. ground arith, λ (c, e, _). ground arith)
  | inr (c, e) ↦ (
    λ h. (c, e, (has_any_role_iff c roles).0 (ground arith)),
    λ (c', e', some_role).
        let holds : has_any_role c' roles ≡ true = (has_any_role_iff c' roles).1 some_role in
        ground arith,
  )
]
