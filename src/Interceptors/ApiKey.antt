-- ===== src/Interceptors/ApiKey.antt =====
-- interceptors/auth.go: authentication by the demonstration's API key. What `log.Printf` prints here
-- is not modelled.
use grpc_example.Common.{
  String, ◌<>◌, not, Option, none, some, List, [], ◌∷◌, ◌≡◌, refl, ◌↔◌, ◌⊎◌, inl, inr, arith, ◌==◌,
  string_eq, eq_iff, if◌then◌else◌, Option-cases, after_prefix, trim_prefix, append-after_prefix,
}
use grpc_example.Errors.{Error, status, unauthenticated, Result, err}
use grpc_example.Interceptors.{
  Context, World, UnaryHandler, StreamHandler, StreamInfo, is_public_method,
}

abbrev pub valid_api_key : String
valid_api_key = "demo-api-key-12345"

abbrev accept_value : String → Option Error
unfolding trim_prefix
accept_value header =
    if not (trim_prefix header "Bearer " == valid_api_key)
    then some (status unauthenticated "invalid authorization token")
    else none

abbrev accept_values : List String → Option Error
unfolding trim_prefix
accept_values [] = some (status unauthenticated "missing authorization header")
accept_values (header ∷ rest) = accept_value header

abbrev accept : Option (String → List String) → Option Error
unfolding trim_prefix
accept none = some (status unauthenticated "missing metadata")
accept (some md) = accept_values (md "authorization")

-- `authorize` returns nil or an error.
unfoldable pub authorize : {N : Type 0} → Context N → Option Error
unfolding trim_prefix
authorize ctx = accept ctx.metadata

abbrev proceed :
    {N V A : Type 0}
    → (Context N → World V → Result A × World V)
    → Context N
    → World V
    → Option Error
    → Result A × World V
proceed handler ctx w none = handler ctx w
proceed handler ctx w (some e) = (err e, w)

unfoldable pub auth_unary_interceptor :
    {N V Req Resp : Type 0} → UnaryHandler N V Req Resp → String → UnaryHandler N V Req Resp
unfolding is_public_method authorize
auth_unary_interceptor handler full_method ctx req w =
    if is_public_method full_method
    then handler ctx req w
    else proceed (λ c v. handler c req v) ctx w (authorize ctx)

unfoldable pub auth_stream_interceptor :
    {N V : Type 0} → StreamHandler N V → StreamInfo → StreamHandler N V
unfolding is_public_method authorize
auth_stream_interceptor handler info ctx w =
    if is_public_method info.full_method
    then handler ctx w
    else proceed handler ctx w (authorize ctx)

-- The request's first authorization value is the key, or "Bearer " and the key.
abbrev pub HasKey : {N : Type 0} → Context N → Type 0
HasKey ctx =
    (md : String → List String) × (header : String) × (rest : List String) × (ctx.metadata
      ≡ some md)
    × (md "authorization" ≡ header ∷ rest)
    × ((header ≡ valid_api_key) ⊎ (header ≡ "Bearer " <> valid_api_key))

accepts_key : accept_value valid_api_key ≡ none
unfolding trim_prefix after_prefix
accepts_key = refl

accepts_bearer : accept_value ("Bearer " <> valid_api_key) ≡ none
unfolding trim_prefix after_prefix
accepts_bearer = refl

some_value :
    (values : List String)
    → accept_values values ≡ none
    → (header : String) × (rest : List String) × (values ≡ header ∷ rest)
      × (accept_value header ≡ none)
unfolding trim_prefix
some_value [] h = ground arith
some_value (header ∷ rest) h = (header, rest, refl, h)

some_metadata :
    (metadata : Option (String → List String))
    → accept metadata ≡ none
    → (md : String → List String) × (metadata ≡ some md)
      × (accept_values (md "authorization") ≡ none)
unfolding trim_prefix
some_metadata none h = ground arith
some_metadata (some md) h = (md, refl, h)

accept_value-status :
    (header : String) (e : Error)
    → accept_value header ≡ some e
    → (m : String) × (e ≡ status unauthenticated m)
unfolding trim_prefix
accept_value-status header e h = ("invalid authorization token", ground arith)

accept_values-status :
    (values : List String) (e : Error)
    → accept_values values ≡ some e
    → (m : String) × (e ≡ status unauthenticated m)
unfolding trim_prefix
accept_values-status [] e h = ("missing authorization header", ground arith)
accept_values-status (header ∷ rest) e h = accept_value-status header e h

accept-status :
    (metadata : Option (String → List String)) (e : Error)
    → accept metadata ≡ some e
    → (m : String) × (e ≡ status unauthenticated m)
unfolding trim_prefix
accept-status none e h = ("missing metadata", ground arith)
accept-status (some md) e h = accept_values-status (md "authorization") e h

accept_value_iff :
    (header : String)
    → (accept_value header ≡ none)
      ↔ ((header ≡ valid_api_key) ⊎ (header ≡ "Bearer " <> valid_api_key))
unfolding trim_prefix
accept_value_iff header = (
  λ h.
      let trimmed : trim_prefix header "Bearer " ≡ valid_api_key =
        ground (arith, eq_iff (trim_prefix header "Bearer ") valid_api_key) in
      elim (Option-cases (after_prefix "Bearer " header)) [
        | inl other ↦ inl (ground arith)
        | inr (bearer, e) ↦
            let same : bearer ≡ valid_api_key = ground arith in
            inr (rw (append-after_prefix "Bearer " header bearer e, same) refl)
      ],
  λ s. elim s [ inl e ↦ rw e accepts_key | inr e ↦ rw e accepts_bearer ],
)

authorize_iff : {N : Type 0} (ctx : Context N) → (authorize ctx ≡ none) ↔ HasKey ctx
unfolding authorize trim_prefix
authorize_iff ctx = (
  λ h.
      let (md, e, found) = some_metadata ctx.metadata h in
      let (header, rest, e', valued) = some_value (md "authorization") found in
      (md, header, rest, e, e', (accept_value_iff header).0 valued),
  λ (md, header, rest, e, e', keyed). rw (e, e') ((accept_value_iff header).1 keyed),
)

-- A unary call with the key, plain or after "Bearer ", is what the handler makes of it; any other
-- returns an unauthenticated status and leaves the world as it was.
pub auth_unary_interceptor-HasKey :
    {N V Req Resp : Type 0} (handler : UnaryHandler N V Req Resp) (full_method : String)
    (ctx : Context N) (req : Req) (w : World V)
    → (HasKey ctx × (auth_unary_interceptor handler full_method ctx req w ≡ handler ctx req w))
      ⊎ ((¬ HasKey ctx)
          × ((m : String) × (auth_unary_interceptor handler full_method ctx req w
                ≡ (err (status unauthenticated m), w))))
unfolding auth_unary_interceptor is_public_method authorize trim_prefix
auth_unary_interceptor-HasKey handler full_method ctx req w = elim (Option-cases (authorize ctx)) [
  | inl none_e ↦ inl ((authorize_iff ctx).0 none_e, rw none_e refl)
  | inr (e, refused) ↦
      let (m, shape) = accept-status ctx.metadata e refused in
      inr (
        λ keyed. let admitted = (authorize_iff ctx).1 keyed in ground arith,
        (m, rw (refused, shape) refl),
      )
]

-- A stream is treated as a unary call of the method would be.
auth_stream_interceptor-unary :
    {N V Req : Type 0} (handler : StreamHandler N V) (info : StreamInfo) (ctx : Context N)
    (req : Req) (w : World V)
    → auth_stream_interceptor handler info ctx w
      ≡ auth_unary_interceptor (λ c (_ : Req) v. handler c v) info.full_method ctx req w
unfolding auth_unary_interceptor auth_stream_interceptor is_public_method authorize trim_prefix
auth_stream_interceptor-unary handler info ctx req w = refl
