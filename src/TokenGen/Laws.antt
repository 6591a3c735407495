-- ===== src/TokenGen/Laws.antt =====
-- cmd/tokengen/main.go: when a token is printed, what it is good for, and the list of roles.
use Prim.Native.Char.{Char, code}
use text.Mathlib.TextEquality.{Char-path}
use text.Mathlib.TextLemmas.{nil-append, cons-append}
use grpc_example.Common.{
  ◌<>◌, String, ℤ, true, false, Option, List, [], ◌∷◌, ◌≡◌, ◌≢◌, refl, sym, ap, ◌∙◌, ◌⊎◌, inl, inr,
  ◌↔◌, arith, ◌≤ℤ◌, ◌+ℤ◌, leb_ℤ, if◌then◌else◌, ◌==◌, string_eq, nat_eq, nat_beq_iff, eq_iff,
  Bool-cases,
}
use grpc_example.Auth.{AuthError, expired_token, Claims, JwtLibrary, generate_token, validate_token}
use mathlib.Core.Path.{subst}
use grpc_example.Auth.Issued.{IsSigner, issued, generate_token-validate_token}
use grpc_example.Interceptors.Jwt
use grpc_example.Main.{getenv, get_jwt_secret}
use grpc_example.TokenGen.{
  Flags, printed, extend, split, secret_of, role_list, manager_of, finished, main,
}

module _ {N : Type 0} (lib : JwtLibrary N) (error_text : AuthError → String)
    (trim_space : String → String) (env : String → Option String) where
  finished_iff :
      (r : AuthError ⊎ String) (text : String)
      → (finished lib error_text trim_space env r ≡ printed text) ↔ (r ≡ inr text)
  finished_iff (inl e) text = (λ h. ground arith, λ h. ground arith)
  finished_iff (inr t) text = (λ h. cc, λ h. cc)

  -- The program prints a token exactly if no help was asked for, the user's id, name and e-mail are
  -- given, there is a secret in the flag or else in JWT_SECRET, and the manager with that secret
  -- generates this token for them.
  main-printed_iff :
      (now : ℤ) (flags : Flags) (text : String)
      → (main lib error_text trim_space env now flags ≡ printed text) ↔ (
          (flags.show_help ≡ false)
          × (flags.user_id ≢ "")
          × (flags.username ≢ "")
          × (flags.email ≢ "")
          × (secret_of env flags ≢ "")
          × (generate_token lib
                (manager_of env flags)
                now
                flags.user_id
                flags.username
                flags.email
                (role_list trim_space flags)
              ≡ inr text))
  unfolding main
  main-printed_iff now flags text = ground (
    arith,
    eq_iff flags.user_id "",
    eq_iff flags.username "",
    eq_iff flags.email "",
    eq_iff (secret_of env flags) "",
    finished_iff
        (generate_token lib (manager_of env flags) now flags.user_id flags.username flags.email
          (role_list trim_space flags))
        text,
  )

module _ (env : String → Option String) where
  secret_of-get_jwt_secret :
      (flags : Flags)
      → flags.secret_key ≡ ""
      → getenv env "JWT_SECRET" ≢ ""
      → get_jwt_secret env ≡ secret_of env flags
  unfolding secret_of get_jwt_secret
  secret_of-get_jwt_secret flags no_flag set =
      let left : (flags.secret_key == "") ≡ true = ground (arith, eq_iff flags.secret_key "") in
      let right : (getenv env "JWT_SECRET" == "") ≡ false =
        ground (arith, eq_iff (getenv env "JWT_SECRET") "") in
      rw (secret_of, get_jwt_secret, left, right) refl

  getenv_nonempty :
      (flags : Flags)
      → flags.secret_key ≡ ""
      → secret_of env flags ≢ ""
      → getenv env "JWT_SECRET" ≢ ""
  unfolding secret_of
  getenv_nonempty flags no_flag given empty =
      ground (arith, eq_iff flags.secret_key "", given, empty)

module _ {N : Type 0} (lib : JwtLibrary N) (trim_space : String → String) where
  -- The claims that the flags ask for.
  abbrev pub asked_for : ℤ → Flags → Claims N
  asked_for t flags =
      issued lib.numeric_date t flags.duration flags.issuer flags.user_id flags.username flags.email
        (role_list trim_space flags)

module _ {N : Type 0} (lib : JwtLibrary N) (error_text : AuthError → String)
    (trim_space : String → String) (env : String → Option String) where
  -- What the program prints at `t`, run without the secret flag, the server of the same environment
  -- takes, whatever its own token duration and issuer are, if the jwt library reads back what it
  -- signed with the server's secret: from `t` on it finds the user, the roles and the issuer of the
  -- flags, until the duration of the flags is over, and from then on returns `ErrExpiredToken`.
  pub main-validate_token :
      (time : N → ℤ) (t now duration : ℤ) (issuer text : String) (flags : Flags)
      → IsSigner lib time (asked_for lib trim_space t flags) (get_jwt_secret env)
      → main lib error_text trim_space env t flags ≡ printed text
      → flags.secret_key ≡ ""
      → time (lib.numeric_date t) ≤ℤ now
      → validate_token lib (Jwt.new_jwt_manager (get_jwt_secret env) duration issuer) now text ≡ (
          if leb_ℤ (time (lib.numeric_date (t +ℤ flags.duration))) now
          then inl expired_token
          else inr (asked_for lib trim_space t flags))
  unfolding Jwt.new_jwt_manager
  main-validate_token time t now duration issuer text flags signer shown no_flag started =
      let (_, _, _, _, given, made) =
        (main-printed_iff lib error_text trim_space env t flags text).0 shown in
      let same =
        secret_of-get_jwt_secret env flags no_flag (getenv_nonempty env flags no_flag given) in
      (generate_token-validate_token lib time (manager_of env flags)
        (Jwt.new_jwt_manager (get_jwt_secret env) duration issuer) t now flags.user_id
        flags.username flags.email (role_list trim_space flags) text
        (subst (IsSigner lib time (asked_for lib trim_space t flags)) same signer) made same
        started).0

-- The parts with commas between them.
abbrev pub join : List String → String
join [] = ""
join (part ∷ []) = part
join (part ∷ next ∷ parts) = part <> "," <> join (next ∷ parts)

join-extend : (c : Char) (parts : List String) → join (extend c parts) ≡ String.◌∷◌ c (join parts)
join-extend c [] = refl
join-extend c (part ∷ []) = refl
join-extend c (part ∷ next ∷ parts) = cons-append c part ("," <> join (next ∷ parts))

join_after : (parts : List String) → parts ≢ [] → join ("" ∷ parts) ≡ "," <> join parts
join_after [] some_part = absurd (some_part refl)
join_after (part ∷ parts) some_part = nil-append ("," <> join (part ∷ parts))

extend-nonempty : (c : Char) (parts : List String) → extend c parts ≢ []
extend-nonempty c [] h = cc
extend-nonempty c (part ∷ parts) h = cc

split-nonempty : (s : String) → split s ≢ []
unfolding split
split-nonempty String.[] h = cc
split-nonempty (String.◌∷◌ c s) h = elim (Bool-cases (code c == 44)) [
  | inl same ↦ absurd (ground (arith, rw same at h))
  | inr other ↦ extend-nonempty c (split s) (rw other at h)
]

abbrev comma : Char
comma = ","

comma-append : (c : Char) (s : String) → (code c == 44) ≡ true → "," <> s ≡ String.◌∷◌ c s
comma-append c s h =
    let same : comma ≡ c = Char-path comma c (sym ((nat_beq_iff (code c) 44).0 h)) in
    rw (← same) (cons-append comma "" s ∙ ap (λ t. String.◌∷◌ comma t) (nil-append s))

-- The parts that the roles are split into, with commas between them, are the text.
join-split : (s : String) → join (split s) ≡ s
unfolding split
join-split String.[] = refl
join-split (String.◌∷◌ c s) = elim (Bool-cases (code c == 44)) [
  | inl same ↦ rw same (
      join_after (split s) (split-nonempty s)
      ∙ ap (λ t. "," <> t) (join-split s)
      ∙ comma-append c s same)
  | inr other ↦ rw other (join-extend c (split s) ∙ ap (λ t. String.◌∷◌ c t) (join-split s))
]
