-- ===== src/Postgres/Driver.antt =====
-- What server/postgres_storage.go calls of other code: the connection pool of pgx, encoding/json and
-- the protobuf timestamps. `D` is the state of the database. A time is its nanoseconds since the
-- Unix epoch, and a `[]byte` that holds JSON is its text.
use grpc_example.Common.{ℕ, String, ℤ, Bool, Option, List}
use grpc_example.Errors.{Error, Result}
use grpc_example.Proto.{Address, Timestamps}

-- An argument of a statement.
pub data Arg : Type 0 where
  number : ℤ → Arg
  text : String → Arg
  texts : List String → Arg
  instant : ℤ → Arg
  maybe_instant : Option ℤ → Arg
  json : String → Arg

-- The variables that a row of `users` is scanned into.
pub record Row : Type 0 where
  pub id : ℕ
  pub username : String
  pub role : ℤ
  pub email : Option String
  pub phone : Option String
  pub display_name : Option String
  pub bio : Option String
  pub avatar_url : Option String
  pub date_of_birth : Option ℤ
  pub preferences : String
  pub tags : List String
  pub metadata : String
  pub status : ℤ
  pub create_date : Option ℤ
  pub last_login : Option ℤ
  pub addresses : String

-- `QueryRow(...).Scan(...)`: `pgx.ErrNoRows`, another error or a row.
pub data Scan : Type 0 where
  no_rows : Scan
  scan_failed : Error → Scan
  scanned : Row → Scan

-- `exec` gives the number of the rows affected. `query_users` gives the rows that `Next` steps
-- through, each scanned unless its `Scan` fails, and then what `rows.Err` would return.
pub record Pool (D : Type 0) : Type 0 where
  pub exec : String → List Arg → D → Result ℕ × D
  pub query_user : String → List Arg → D → Scan
  pub query_users : String → List Arg → D → Result (List (Option Row) × Option Error)
  pub query_exists : String → List Arg → D → Result Bool
  pub query_count : String → List Arg → D → Result ℕ

-- `unmarshal` takes what its target holds, and gives what the target holds then and its error.
pub record Codec (A : Type 0) : Type 0 where
  pub marshal : A → Result String
  pub unmarshal : String → A → A × Option Error

pub record Libraries (T : Type 0) : Type 0 where
  pub timestamps : Timestamps T
  pub error_text : Error → String
  pub no_rows_text : String
  pub preferences : Codec (Option (List (String × ℤ)))
  pub metadata : Codec (Option (List (String × String)))
  pub addresses : Codec (List (Option Address))
