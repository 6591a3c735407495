-- ===== src/Tests/TokenGen.antt =====
-- The theorems on the token generator, with the library of Tests/Auth.
use grpc_example.Common.{
  String, pos, ◌+ℤ◌, false, Option, none, some, ◌≡◌, refl, inl, inr, leb_ℤ, arith, ◌==◌, string_eq,
  if◌then◌else◌,
}
use grpc_example.Auth.{AuthError, expired_token, generate_token, validate_token}
use mathlib.Core.Path.{subst}
use grpc_example.Auth.Laws.{IsSigned}
use grpc_example.Auth.Issued.{IsSigner}
use grpc_example.Interceptors.Jwt
use grpc_example.Main.{get_jwt_secret}
use grpc_example.TokenGen.{Flags, printed, split, secret_of, main}
use grpc_example.TokenGen.Laws.{asked_for, main-validate_token}
use grpc_example.Tests.Auth.{ann_claims, toy, instant, inr_injective, ann-IsSigned}

abbrev env : String → Option String
env name = if name == "JWT_SECRET" then some "secret" else none

abbrev trim_space : String → String
trim_space s = s

abbrev error_text : AuthError → String
error_text e = "error"

abbrev flags : Flags
flags = record {
  user_id = "1";
  username = "ann";
  email = "ann@example.com";
  roles = "admin";
  duration = pos 5;
  secret_key = "";
  issuer = "demo";
  show_help = false;
}

reads_back : IsSigner toy instant (asked_for toy trim_space (pos 10) flags) (get_jwt_secret env)
unfolding split get_jwt_secret ◌+ℤ◌
reads_back text signed =
    subst (IsSigned toy instant ann_claims "secret") (inr_injective signed) ann-IsSigned

prints : main toy error_text trim_space env (pos 10) flags ≡ printed "tok"
unfolding main secret_of generate_token split
prints = refl

main-validate_token_example :
    validate_token toy
      (Jwt.new_jwt_manager (get_jwt_secret env) (pos 0) "grpc-example")
      (pos 12)
      "tok"
    ≡ (if leb_ℤ (instant (pos 10 +ℤ pos 5)) (pos 12)
        then inl expired_token
        else inr (asked_for toy trim_space (pos 10) flags))
main-validate_token_example =
    main-validate_token toy error_text trim_space env instant (pos 10) (pos 12) (pos 0)
      "grpc-example" "tok" flags reads_back prints refl (omega arith)
