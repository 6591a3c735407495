-- ===== src/Auth.antt =====
-- auth/jwt.go: the manager of JWT tokens and the claims. The jwt library is the parameter `lib`; the
-- clock's reading is the argument `now`. A call that may fail returns an error or, on the right of
-- the sum, its value.
pub mod Laws
pub mod Issued
use grpc_example.Common.{
  String, ℤ, ◌+ℤ◌, Bool, true, false, Option, none, some, List, any, ◌⊎◌, inl, inr, ◌==◌, string_eq,
}

-- `Claims`, with the registered claims that the manager sets. `N` is `jwt.NumericDate`.
pub record Claims (N : Type 0) : Type 0 where
  pub user_id : String
  pub username : String
  pub email : String
  pub roles : List String
  pub expires_at : Option N
  pub issued_at : Option N
  pub not_before : Option N
  pub issuer : String
  pub subject : String

pub record ClaimInfo : Type 0 where
  pub user_id : String
  pub username : String
  pub email : String
  pub roles : List String

-- The signing method in a token's header: one of the HMAC family, or another by its name.
pub data Method : Type 0 where
  hmac : Method
  other_method : String → Method

-- An error of the parser: `errors.Is(err, jwt.ErrTokenExpired)` and its text.
pub record ParseError : Type 0 where
  pub is_expired : Bool
  pub text : String

-- `ParseWithClaims`: an error, or a token with `token.Claims.(*Claims)` and `token.Valid`.
pub data Parsed (N : Type 0) : Type 0 where
  unparsed : ParseError → Parsed N
  token : Option (Claims N) → Bool → Parsed N

-- The jwt library, as far as the manager calls it. The parser takes whether it validates the claims,
-- the clock's reading, the token and the function that chooses the key.
pub record JwtLibrary (N : Type 0) : Type 0 where
  pub numeric_date : ℤ → N
  pub signed_string : Claims N → String → String ⊎ String
  pub parse_with_claims : Bool → ℤ → String → (Method → String ⊎ String) → Parsed N

-- The sentinel errors, and the errors that wrap one or a cause.
pub data AuthError : Type 0 where
  invalid_token : String → String → AuthError
  expired_token invalid_claims no_permission : AuthError
  sign_failed : String → AuthError

pub record JwtManager : Type 0 where
  pub secret_key : String
  pub token_duration : ℤ
  pub issuer : String

abbrev pub new_jwt_manager : String → ℤ → String → JwtManager
new_jwt_manager secret_key token_duration issuer = record {
  secret_key = secret_key;
  token_duration = token_duration;
  issuer = issuer;
}

-- The key function of both parses; the error carries the method's name.
unfoldable pub key_for : JwtManager → Method → String ⊎ String
key_for m hmac = inr m.secret_key
key_for m (other_method alg) = inl alg

module _ {N : Type 0} where
  unfoldable pub get_info : Claims N → ClaimInfo
  get_info c = record {
    user_id = c.user_id;
    username = c.username;
    email = c.email;
    roles = c.roles;
  }

  unfoldable pub has_role : Claims N → String → Bool
  has_role c role = any (λ r. r == role) c.roles

  unfoldable pub has_any_role : Claims N → List String → Bool
  unfolding has_role
  has_any_role c roles = any (λ r. has_role c r) roles

module _ {N : Type 0} (lib : JwtLibrary N) (m : JwtManager) where
  -- The claims that `GenerateToken` signs.
  unfoldable pub claims_for : ℤ → String → String → String → List String → Claims N
  claims_for now user_id username email roles = record {
    user_id = user_id;
    username = username;
    email = email;
    roles = roles;
    expires_at = some (lib.numeric_date (now +ℤ m.token_duration));
    issued_at = some (lib.numeric_date now);
    not_before = some (lib.numeric_date now);
    issuer = m.issuer;
    subject = user_id;
  }

  unfoldable pub generate_token : ℤ → String → String → String → List String → AuthError ⊎ String
  generate_token now user_id username email roles =
      elim (lib.signed_string (claims_for now user_id username email roles) m.secret_key) [
        | inl e ↦ inl (sign_failed e)
        | inr signed ↦ inr signed
      ]

  abbrev pub checked : String → Parsed N → AuthError ⊎ Claims N
  checked text (unparsed e) = elim e.is_expired [
    | true ↦ inl expired_token
    | false ↦ inl (invalid_token e.text text)
  ]
  checked text (token (some claims) true) = inr claims
  checked text (token (some claims) false) = inl invalid_claims
  checked text (token none valid) = inl invalid_claims

  unfoldable pub validate_token : ℤ → String → AuthError ⊎ Claims N
  validate_token now text = checked text (lib.parse_with_claims true now text (key_for m))

  abbrev pub refreshed : ℤ → String → Parsed N → AuthError ⊎ String
  refreshed now text (unparsed e) = inl (invalid_token e.text text)
  refreshed now text (token none valid) = inl invalid_claims
  refreshed now text (token (some c) valid) =
      generate_token now c.user_id c.username c.email c.roles

  unfoldable pub refresh_token : ℤ → String → AuthError ⊎ String
  unfolding generate_token claims_for
  refresh_token now text = refreshed now text (lib.parse_with_claims false now text (key_for m))
