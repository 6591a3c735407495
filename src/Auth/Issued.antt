-- ===== src/Auth/Issued.antt =====
-- auth/jwt.go: what the tokens that GenerateToken returns are good for.
use grpc_example.Common.{
  String, ℤ, ◌+ℤ◌, ◌≤ℤ◌, leb_ℤ, some, List, ◌≡◌, refl, ap, ◌⊎◌, inl, inr, if◌then◌else◌, string_eq,
  arith, Bool-cases,
}
use grpc_example.Auth.{
  Claims, hmac, JwtLibrary, JwtManager, expired_token, key_for, claims_for, generate_token,
  validate_token, refresh_token,
}
use grpc_example.Auth.Laws.{IsSigned}

-- What the library documents of signing: a text that `SignedString` returned for the claims `c` and
-- the key is one that the parser reads back with that key.
abbrev pub IsSigner : {N : Type 0} → JwtLibrary N → (N → ℤ) → Claims N → String → Type 0
IsSigner lib time c key =
    (text : String) → lib.signed_string c key ≡ inr text → IsSigned lib time c key text

-- The claims of a token for a user, made at the time `t` to last for `duration`.
abbrev pub issued :
    {N : Type 0} → (ℤ → N) → ℤ → ℤ → String → String → String → String → List String → Claims N
issued date t duration issuer user_id username email roles = record {
  user_id = user_id;
  username = username;
  email = email;
  roles = roles;
  expires_at = some (date (t +ℤ duration));
  issued_at = some (date t);
  not_before = some (date t);
  issuer = issuer;
  subject = user_id;
}

module _ {N : Type 0} (lib : JwtLibrary N) where
  signed_string-generate_token :
      (m : JwtManager) (t : ℤ) (user_id username email : String) (roles : List String)
      (text : String)
      → generate_token lib m t user_id username email roles ≡ inr text
      → lib.signed_string
          (issued lib.numeric_date t m.token_duration m.issuer user_id username email roles)
          m.secret_key
        ≡ inr text
  unfolding generate_token claims_for
  signed_string-generate_token m t user_id username email roles text h = ground arith

  -- A token that `GenerateToken` returned at the time `t`, at any manager with the same key, whatever
  -- its own duration and issuer, if the library reads back what it signed: from `t` on
  -- `ValidateToken` returns the claims of the user that the token was generated for, to last for the
  -- duration of the manager that generated it, and from the end of that duration on
  -- `ErrExpiredToken`; and refreshing it, at any time from `t` on, is generating a token for the
  -- same user.
  pub generate_token-validate_token :
      (time : N → ℤ) (m m' : JwtManager) (t now : ℤ) (user_id username email : String)
      (roles : List String) (text : String)
      → IsSigner lib time
          (issued lib.numeric_date t m.token_duration m.issuer user_id username email roles)
          m.secret_key
      → generate_token lib m t user_id username email roles ≡ inr text
      → m'.secret_key ≡ m.secret_key
      → time (lib.numeric_date t) ≤ℤ now
      → (validate_token lib m' now text ≡ (
          if leb_ℤ (time (lib.numeric_date (t +ℤ m.token_duration))) now
          then inl expired_token
          else inr
              (issued lib.numeric_date t m.token_duration m.issuer user_id username email roles)))
        × (refresh_token lib m' now text ≡ generate_token lib m' now user_id username email roles)
  unfolding validate_token refresh_token key_for
  generate_token-validate_token time m m' t now user_id username email roles text signer made same
        started =
      let signed =
        signer text (signed_string-generate_token m t user_id username email roles text made) in
      let key : ◌≡◌ {A = String ⊎ String} (key_for m' hmac) (inr m.secret_key) = ap inr same in
      let end = lib.numeric_date (t +ℤ m.token_duration) in
      (
        elim (Bool-cases (leb_ℤ (time end) now)) [
          | inl over ↦
              let (e, failed, late) = signed.expired now (key_for m') end key refl (ground arith) in
              rw (over, failed, late) refl
          | inr running ↦
              rw
                (
                  running,
                  signed.validated now (key_for m') (lib.numeric_date t) end key refl refl started
                      (ground arith),
                )
                refl
        ],
        rw (signed.unvalidated now (key_for m') key) refl,
      )
