-- ===== src/TokenGen.antt =====
-- cmd/tokengen/main.go: the program that generates a token. `env` is `os.LookupEnv`, `trim_space` is
-- `strings.TrimSpace`, and `lib` the jwt library. Of what it prints only the token is modelled, which
-- goes to the standard output.
pub mod Laws
use Prim.Native.Char.{Char, code}
use Prim.Native.String
use grpc_example.Common.{
  ℕ, ◌<>◌, String, ℤ, Bool, true, false, not, ◌&&◌, Option, some, List, [], ◌∷◌, map, ◌≡◌, ◌≢◌,
  refl, sym, ap, ◌∙◌, ◌⊎◌, inl, inr, ◌↔◌, arith, ◌≤ℤ◌, ◌<ℤ◌, ◌+ℤ◌, ◌==◌, string_eq, nat_eq, eq_iff,
  if◌then◌else◌, Bool-cases,
}
use grpc_example.Auth.{
  AuthError, Claims, JwtLibrary, JwtManager, new_jwt_manager, claims_for, generate_token,
  validate_token, key_for,
}
use grpc_example.Main.{getenv, get_jwt_secret}

-- The flags as parsed.
pub record Flags : Type 0 where
  pub user_id : String
  pub username : String
  pub email : String
  pub roles : String
  pub duration : ℤ
  pub secret_key : String
  pub issuer : String
  pub show_help : Bool

-- How the program ends: after its help, by `log.Fatal`, or with a token.
pub data Outcome : Type 0 where
  helped : Outcome
  fatal : String → Outcome
  printed : String → Outcome

-- `strings.Split(s, ",")`
abbrev pub extend : Char → List String → List String
extend c [] = String.◌∷◌ c "" ∷ []
extend c (part ∷ parts) = String.◌∷◌ c part ∷ parts

unfoldable pub split : String → List String
split String.[] = "" ∷ []
split (String.◌∷◌ c s) = let rest = split s in if code c == 44 then "" ∷ rest else extend c rest

unfoldable pub secret_of : (String → Option String) → Flags → String
secret_of env flags = if flags.secret_key == "" then getenv env "JWT_SECRET" else flags.secret_key

abbrev pub role_list : (String → String) → Flags → List String
role_list trim_space flags = map trim_space (split flags.roles)

abbrev pub manager_of : (String → Option String) → Flags → JwtManager
manager_of env flags = new_jwt_manager (secret_of env flags) flags.duration flags.issuer

module _ {N : Type 0} (lib : JwtLibrary N) (error_text : AuthError → String)
    (trim_space : String → String) (env : String → Option String) where
  abbrev pub finished : AuthError ⊎ String → Outcome
  finished (inl e) = fatal ("Failed to generate token: " <> error_text e)
  finished (inr token) = printed token

  unfoldable pub main : ℤ → Flags → Outcome
  main now flags =
      if flags.show_help
      then helped
      else if flags.user_id == ""
      then fatal "Error: -user-id is required"
      else if flags.username == ""
      then fatal "Error: -username is required"
      else if flags.email == ""
      then fatal "Error: -email is required"
      else if secret_of env flags == ""
      then fatal
          "Error: JWT secret key must be provided via -secret flag or JWT_SECRET environment variable"
      else finished (
          generate_token lib (manager_of env flags) now flags.user_id flags.username flags.email
            (role_list trim_space flags))
