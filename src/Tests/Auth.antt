-- ===== src/Tests/Auth.antt =====
-- The theorems on tokens, with a library that knows one token and one text with a foreign method.
use mathlib.Core.List.{Memᴰ}
use grpc_example.Common.{
  String, ℤ, pos, ◌+ℤ◌, leb_ℤ, Bool, true, false, some, [], ◌∷◌, ◌≡◌, refl, ◌↔◌, ◌⊎◌, inl, inr,
  arith, ◌==◌, string_eq, if◌then◌else◌,
}
use grpc_example.Auth.{
  Claims, hmac, other_method, Parsed, unparsed, token, JwtLibrary, JwtManager, new_jwt_manager,
  expired_token, claims_for, has_any_role, generate_token, validate_token, refresh_token,
}
use mathlib.Core.Path.{subst}
use grpc_example.Auth.Laws.{IsSigned, has_any_role_iff}
use grpc_example.Auth.Issued.{IsSigner, issued, generate_token-validate_token}

abbrev pub ann_claims : Claims ℤ
ann_claims = record {
  user_id = "1";
  username = "ann";
  email = "ann@example.com";
  roles = "admin" ∷ [];
  expires_at = some (pos 15);
  issued_at = some (pos 10);
  not_before = some (pos 10);
  issuer = "demo";
  subject = "1";
}

abbrev parse_foreign : String ⊎ String → Parsed ℤ
parse_foreign (inl alg) = unparsed (record { is_expired = false; text = alg })
parse_foreign (inr key) = unparsed (record { is_expired = false; text = "wrong key" })

abbrev parse_signed : Bool → ℤ → String ⊎ String → Parsed ℤ
parse_signed validate now (inl e) = unparsed (record { is_expired = false; text = e })
parse_signed false now (inr key) = token (some ann_claims) true
parse_signed true now (inr key) =
    if leb_ℤ (pos 15) now
    then unparsed (record { is_expired = true; text = "expired" })
    else token (some ann_claims) true

abbrev pub toy : JwtLibrary ℤ
toy = record {
  numeric_date = λ t. t;
  signed_string = λ c key. inr "tok";
  parse_with_claims = λ validate now text keys.
      if text == "tok"
      then parse_signed validate now (keys hmac)
      else parse_foreign (keys (other_method "none"));
}

abbrev pub manager : JwtManager
manager = new_jwt_manager "secret" (pos 5) "demo"

abbrev pub instant : ℤ → ℤ
instant t = t

pub ann-IsSigned : IsSigned toy instant ann_claims "secret" "tok"
ann-IsSigned = record {
  unvalidated = λ now keys h. rw h refl;
  validated = λ now keys nbf exp h e e' started running. rw h (ground arith);
  expired = λ now keys exp h e over.
      (record { is_expired = true; text = "expired" }, rw h (ground arith), refl);
}

pub tok-IsSigned :
    IsSigned toy instant
      (claims_for toy manager (pos 10) "1" "ann" "ann@example.com" ("admin" ∷ []))
      "secret"
      "tok"
unfolding claims_for ◌+ℤ◌
tok-IsSigned = ann-IsSigned

pub inr_injective : {a b : String} → ◌≡◌ {A = String ⊎ String} (inr a) (inr b) → a ≡ b
inr_injective h = cc

abbrev ann_issued : Claims ℤ
ann_issued = issued instant (pos 10) (pos 5) "demo" "1" "ann" "ann@example.com" ("admin" ∷ [])

reads_back : IsSigner toy instant ann_issued "secret"
unfolding ◌+ℤ◌
reads_back text signed =
    subst (IsSigned toy instant ann_claims "secret") (inr_injective signed) ann-IsSigned

made : generate_token toy manager (pos 10) "1" "ann" "ann@example.com" ("admin" ∷ []) ≡ inr "tok"
unfolding generate_token
made = refl

-- Another manager with the same secret.
abbrev server : JwtManager
server = new_jwt_manager "secret" (pos 0) "grpc-example"

generate_token-validate_token_example :
    (validate_token toy server (pos 12) "tok"
      ≡ (if leb_ℤ (instant (pos 10 +ℤ pos 5)) (pos 12) then inl expired_token else inr ann_issued))
    × (refresh_token toy server (pos 12) "tok"
        ≡ generate_token toy server (pos 12) "1" "ann" "ann@example.com" ("admin" ∷ []))
generate_token-validate_token_example =
    generate_token-validate_token toy instant manager server (pos 10) (pos 12) "1" "ann"
      "ann@example.com" ("admin" ∷ []) "tok" reads_back made refl (omega arith)

has_any_role_iff_example :
    (has_any_role ann_claims ("member" ∷ "admin" ∷ []) ≡ true)
    ↔ ((r : String) × Memᴰ r ("member" ∷ "admin" ∷ []) × Memᴰ r ("admin" ∷ []))
has_any_role_iff_example = has_any_role_iff ann_claims ("member" ∷ "admin" ∷ [])
