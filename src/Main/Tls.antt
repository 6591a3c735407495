-- ===== src/Main/Tls.antt =====
-- main.go: `loadTLSCredentials`, the choice of the certificate, and `AdvisedConfig`; insecure/insecure.go:
-- the embedded certificate. crypto/tls and crypto/x509 are the parameter `lib`: `C` is
-- `tls.Certificate`, `P` is `x509.CertPool` and `L` is `x509.Certificate`.
use grpc_example.Common.{◌<>◌, String, Bool, false, Option, none, some, List, [], ◌∷◌}
use grpc_example.Errors.{Error, plain, Result, ok, err, ◌>>=◌}

-- `load_key_pair` reads the two files, and `key_pair` takes their texts. `certs_from_pem` is the pool
-- that `AppendCertsFromPEM` makes of an empty one, if it reports success.
pub record Libraries (C P L : Type 0) : Type 0 where
  pub load_key_pair : String → String → Result C
  pub key_pair : String → String → Result C
  pub read_file : String → Result String
  pub certs_from_pem : String → Option P
  pub parse_first : C → Result L
  pub with_leaf : L → C → C
  pub pool_of : L → P
  pub error_text : Error → String

-- The fields of `tls.Config` that the program sets; versions and suites by their Go names.
pub record Config (C : Type 0) : Type 0 where
  pub certificates : List C
  pub min_version : String
  pub insecure_skip_verify : Bool
  pub curve_preferences : List String
  pub cipher_suites : List String

-- The certificate, the server's configuration and the pool that the gateway dials with.
pub record Credentials (C P : Type 0) : Type 0 where
  pub cert : C
  pub config : Config C
  pub pool : P

abbrev pub config_with : {C : Type 0} → C → Config C
config_with cert = record {
  certificates = cert ∷ [];
  min_version = "VersionTLS12";
  insecure_skip_verify = false;
  curve_preferences = [];
  cipher_suites = [];
}

module _ {C P L : Type 0} (lib : Libraries C P L) where
  abbrev tls_error : {A : Type 0} → String → Result A → Result A
  tls_error message (ok a) = ok a
  tls_error message (err e) = err (plain (message <> lib.error_text e))

  abbrev parsed_pool : Option P → Result P
  parsed_pool (some pool) = ok pool
  parsed_pool none = err (plain "failed to parse certificate")

  unfoldable pub load_tls_credentials : String → String → Result (Credentials C P)
  load_tls_credentials cert_file key_file = do
    cert ← tls_error "failed to load TLS key pair: " (lib.load_key_pair cert_file key_file)
    pem ← tls_error "failed to read certificate file: " (lib.read_file cert_file)
    pool ← parsed_pool (lib.certs_from_pem pem)
    ok (record { cert = cert; config = config_with cert; pool = pool })

  -- `init` of the package insecure: the certificate with its leaf, and the pool of the leaf. An error
  -- ends the program.
  unfoldable pub embedded : String → String → Result (C × P)
  embedded cert_pem key_pem = do
    cert ← lib.key_pair cert_pem key_pem
    leaf ← lib.parse_first cert
    ok (lib.with_leaf leaf cert, lib.pool_of leaf)

  -- `main` falls back to the embedded certificate and its pool.
  abbrev pub chosen : C × P → Result (Credentials C P) → Credentials C P
  chosen fallback (ok credentials) = credentials
  chosen (cert, pool) (err _) = record { cert = cert; config = config_with cert; pool = pool }

unfoldable pub advised_config : {C : Type 0} → Bool → Config C
advised_config allow_insecure = record {
  certificates = [];
  min_version = "VersionTLS12";
  insecure_skip_verify = allow_insecure;
  curve_preferences = "X25519" ∷ "CurveP256" ∷ "CurveP384" ∷ [];
  cipher_suites =
      "TLS_ECDHE_ECDSA_WITH_AES_128_GCM_SHA256" ∷ "TLS_ECDHE_RSA_WITH_AES_128_GCM_SHA256"
      ∷ "TLS_ECDHE_ECDSA_WITH_AES_256_GCM_SHA384" ∷ "TLS_ECDHE_RSA_WITH_AES_256_GCM_SHA384"
      ∷ "TLS_ECDHE_ECDSA_WITH_CHACHA20_POLY1305" ∷ "TLS_ECDHE_RSA_WITH_CHACHA20_POLY1305" ∷ [];
}
