-- ===== src/Auth/Laws.antt =====
-- Tokens that are generated, validated and refreshed, over what the jwt library documents.
use mathlib.Core.List.{Memᴰ}
use mathlib.Core.Path.{subst}
use grpc_example.Common.Members.{any_iff}
use grpc_example.Common.{
  beq_refl, String, ℤ, ◌+ℤ◌, ◌≤ℤ◌, ◌<ℤ◌, Bool, true, false, some, List, ◌≡◌, refl, ◌↔◌, ◌⊎◌, inl,
  inr, ◌==◌, string_eq, eq_iff,
}
use grpc_example.Auth.{
  Claims, Method, hmac, other_method, ParseError, unparsed, token, JwtLibrary, invalid_token,
  expired_token, JwtManager, key_for, has_role, has_any_role, claims_for, generate_token,
  validate_token, refresh_token,
}

-- What the library documents of a text that it made of the claims `c` with `key`, where `time` is
-- the instant of a date: given that key it parses to the claims, at any time if they are not
-- validated, and else from their not-before date until before their expiry date; from then on the
-- parser reports it as expired.
pub record IsSigned {N : Type 0} (lib : JwtLibrary N) (time : N → ℤ) (c : Claims N)
    (key text : String) : Type 0 where
  pub unvalidated :
      (now : ℤ) (keys : Method → String ⊎ String)
      → keys hmac ≡ inr key
      → lib.parse_with_claims false now text keys ≡ token (some c) true
  pub validated :
      (now : ℤ) (keys : Method → String ⊎ String) (nbf exp : N)
      → keys hmac ≡ inr key
      → c.not_before ≡ some nbf
      → c.expires_at ≡ some exp
      → time nbf ≤ℤ now
      → now <ℤ time exp
      → lib.parse_with_claims true now text keys ≡ token (some c) true
  pub expired :
      (now : ℤ) (keys : Method → String ⊎ String) (exp : N)
      → keys hmac ≡ inr key
      → c.expires_at ≡ some exp
      → time exp ≤ℤ now
      → (e : ParseError) × (lib.parse_with_claims true now text keys ≡ unparsed e)
        × (e.is_expired ≡ true)

-- What it documents of a text whose header names a method that is not HMAC: where the key function
-- refuses the method, the parser fails, and not because of the expiry.
abbrev pub IsForeign : {N : Type 0} → JwtLibrary N → String → String → Type 0
IsForeign lib text alg =
    (validate : Bool) (now : ℤ) (keys : Method → String ⊎ String)
    → keys (other_method alg) ≡ inl alg
    → (e : ParseError) × (lib.parse_with_claims validate now text keys ≡ unparsed e)
      × (e.is_expired ≡ false)

module _ {N : Type 0} (lib : JwtLibrary N) (m : JwtManager) where
  -- A text that `GenerateToken` could have made at the time `t`, signed with the manager's key:
  -- from its not-before date on and before its expiry date, `ValidateToken` returns the claims that
  -- `GenerateToken` signed.
  pub validate_token-generate_token :
      (time : N → ℤ) (t now : ℤ) (user_id username email : String) (roles : List String)
      (text : String)
      → IsSigned lib time (claims_for lib m t user_id username email roles) m.secret_key text
      → time (lib.numeric_date t) ≤ℤ now
      → now <ℤ time (lib.numeric_date (t +ℤ m.token_duration))
      → validate_token lib m now text ≡ inr (claims_for lib m t user_id username email roles)
  unfolding validate_token key_for claims_for
  validate_token-generate_token time t now user_id username email roles text h started running =
      rw
        (h.validated now (key_for m) (lib.numeric_date t) (lib.numeric_date (t +ℤ m.token_duration))
          refl refl refl started running)
        refl

  -- For a text that `GenerateToken` could have made, signed with the manager's key,
  -- `ValidateToken` returns `ErrExpiredToken` from its expiry date on.
  pub validate_token-expired :
      (time : N → ℤ) (t now : ℤ) (user_id username email : String) (roles : List String)
      (text : String)
      → IsSigned lib time (claims_for lib m t user_id username email roles) m.secret_key text
      → time (lib.numeric_date (t +ℤ m.token_duration)) ≤ℤ now
      → validate_token lib m now text ≡ inl expired_token
  unfolding validate_token key_for claims_for
  validate_token-expired time t now user_id username email roles text h over =
      let (e, failed, late) =
        h.expired now (key_for m) (lib.numeric_date (t +ℤ m.token_duration)) refl refl over in
      rw (failed, late) refl

  -- Refreshing a text that `GenerateToken` could have made, signed with the manager's key,
  -- expired or not, is generating a token now for the same identity.
  pub refresh_token-generate_token :
      (time : N → ℤ) (t now : ℤ) (user_id username email : String) (roles : List String)
      (text : String)
      → IsSigned lib time (claims_for lib m t user_id username email roles) m.secret_key text
      → refresh_token lib m now text ≡ generate_token lib m now user_id username email roles
  unfolding refresh_token key_for
  refresh_token-generate_token time t now user_id username email roles text h =
      rw (h.unvalidated now (key_for m) refl) refl

  -- A text whose method is not HMAC is neither validated nor refreshed: both return an invalid-token
  -- error, which names the text.
  foreign-refused :
      (now : ℤ) (text alg : String)
      → IsForeign lib text alg
      → ((e : String) × (validate_token lib m now text ≡ inl (invalid_token e text)))
        × ((e : String) × (refresh_token lib m now text ≡ inl (invalid_token e text)))
  unfolding validate_token refresh_token key_for
  foreign-refused now text alg h =
      let (e, failed, other) = h true now (key_for m) refl in
      let (e', failed', _) = h false now (key_for m) refl in
      ((e.text, rw (failed, other) refl), (e'.text, rw failed' refl))

module _ {N : Type 0} where
  has_role_iff : (c : Claims N) (r : String) → (has_role c r ≡ true) ↔ Memᴰ r c.roles
  unfolding has_role
  has_role_iff c r = (
    λ h.
        let (s, m, same) = (any_iff (λ s. s == r) c.roles).0 h in
        subst (λ x. Memᴰ x c.roles) ((eq_iff s r).0 same) m,
    λ m. (any_iff (λ s. s == r) c.roles).1 (r, m, beq_refl r),
  )

  -- `HasAnyRole` holds exactly if one of the roles asked for is among the roles of the claims.
  pub has_any_role_iff :
      (c : Claims N) (roles : List String)
      → (has_any_role c roles ≡ true) ↔ ((r : String) × Memᴰ r roles × Memᴰ r c.roles)
  unfolding has_any_role
  has_any_role_iff c roles = (
    λ h. let (r, m, p) = (any_iff (λ r. has_role c r) roles).0 h in (r, m, (has_role_iff c r).0 p),
    λ (r, m, p). (any_iff (λ r. has_role c r) roles).1 (r, m, (has_role_iff c r).1 p),
  )
