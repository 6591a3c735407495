-- ===== src/Main.antt =====
-- main.go: the settings that the server reads from its environment, and the interceptors that it
-- chains. `env` is `os.LookupEnv`.
pub mod Tls
pub mod Start
pub mod Profiling
use grpc_example.Common.{
  String, Bool, not, ◌&&◌, Option, none, some, List, [], ◌∷◌, ◌++◌, ◌==◌, string_eq, if◌then◌else◌,
}

-- `os.Getenv`: a missing variable reads as the empty text.
abbrev pub getenv : (String → Option String) → String → String
getenv env name = elim (env name) [ none ↦ "" | some value ↦ value ]

unfoldable pub get_jwt_secret : (String → Option String) → String
get_jwt_secret env =
    if not (getenv env "JWT_SECRET" == "")
    then getenv env "JWT_SECRET"
    else if not (getenv env "GRPC_SECRET_KEY" == "")
    then getenv env "GRPC_SECRET_KEY"
    else "our little secret"

-- `DefaultEnv` at string, and at a type whose values `fmt.Sscanf` reads.
unfoldable pub default_env_text : (String → Option String) → String → String → String
default_env_text env name def = elim (env name) [ none ↦ def | some value ↦ value ]

unfoldable pub default_env_scanned :
    {A : Type 0} → (String → Option A) → (String → Option String) → String → A → A
default_env_scanned scan env name def = elim (env name) [
  | none ↦ def
  | some value ↦ elim (scan value) [ none ↦ def | some v ↦ v ]
]

-- The interceptors by their constructors, the outermost first. The stream interceptors are the same.
pub data Interceptor : Type 0 where
  otel_logging otel_metrics logging metrics jwt_auth : Interceptor

unfoldable pub interceptors : Bool → Bool → List Interceptor
interceptors otel_enabled enable_auth =
    (if otel_enabled then otel_logging ∷ otel_metrics ∷ [] else logging ∷ metrics ∷ [])
    ++ (if enable_auth then jwt_auth ∷ [] else [])

-- The host that the gateway dials.
unfoldable pub grpc_dial_host : String → String
grpc_dial_host hostname =
    if not (hostname == "") && not (hostname == "0.0.0.0") then hostname else "localhost"

pub data StorageBackend : Type 0 where
  postgres : String → StorageBackend
  memory : StorageBackend

unfoldable pub storage_backend : String → StorageBackend
storage_backend db_conn_string =
    if not (db_conn_string == "") then postgres db_conn_string else memory
