-- ===== src/Postgres/Connect.antt =====
-- server/postgres_storage.go: `NewPostgresStorage` and `initSchema`. Spans are left out.
use grpc_example.Common.{
  String, ◌<>◌, Bool, true, false, not, ◌&&◌, Option, none, some, [], ◌≡◌, refl, inl, inr,
}
use grpc_example.Errors.{Error, plain, Result, ok, err, is_ok, Result-cases}
use grpc_example.Postgres.Driver.{Pool}
use grpc_example.Postgres.Texts.{schema}

-- `pgxpool.New` and `Ping`.
pub record Connector (D : Type 0) : Type 0 where
  pub new_pool : String → Result D
  pub ping : D → Option Error

-- What is returned, whether a pool was made and whether it was closed.
pub record Opening (D : Type 0) : Type 0 where
  pub storage : Result D
  pub opened : Bool
  pub closed : Bool

module _ {D : Type 0} (connector : Connector D) (pool : Pool D) (error_text : Error → String) where
  unfoldable pub init_schema : D → Option Error × D
  init_schema d =
      let (r, d') = pool.exec schema [] d in (elim r [ ok _ ↦ none | err e ↦ some e ], d')

  abbrev failed_with : Bool → String → Error → Opening D
  failed_with opened message e = record {
    storage = err (plain (message <> error_text e));
    opened = opened;
    closed = opened;
  }

  abbrev with_schema : Option Error × D → Opening D
  with_schema (some e, d) = failed_with true "failed to initialize schema: " e
  with_schema (none, d) = record { storage = ok d; opened = true; closed = false }

  abbrev pinged : D → Option Error → Opening D
  pinged d (some e) = failed_with true "unable to connect to database: " e
  pinged d none = with_schema (init_schema d)

  unfoldable pub new_postgres_storage : String → Opening D
  unfolding init_schema
  new_postgres_storage conn_string = elim (connector.new_pool conn_string) [
    | err e ↦ failed_with false "unable to create connection pool: " e
    | ok d ↦ pinged d (connector.ping d)
  ]

  abbrev IsTidy : Opening D → Type 0
  IsTidy o = o.closed ≡ (o.opened && not (is_ok o.storage))

  with_schema-IsTidy : (o : Option Error × D) → IsTidy (with_schema o)
  with_schema-IsTidy (some e, d) = refl
  with_schema-IsTidy (none, d) = refl

  pinged-IsTidy : (d : D) (o : Option Error) → IsTidy (pinged d o)
  pinged-IsTidy d (some e) = refl
  pinged-IsTidy d none = with_schema-IsTidy (init_schema d)

  -- A pool that was made is closed exactly if the storage could not be set up, so none is lost and
  -- none that is returned is closed.
  new_postgres_storage-IsTidy :
      (conn_string : String)
      → (new_postgres_storage conn_string).closed ≡ (
          (new_postgres_storage conn_string).opened
          && not (is_ok (new_postgres_storage conn_string).storage))
  unfolding new_postgres_storage
  new_postgres_storage-IsTidy conn_string = elim (Result-cases (connector.new_pool conn_string)) [
    | inl (d, made) ↦ rw (new_postgres_storage, made) (pinged-IsTidy d (connector.ping d))
    | inr (e, failed) ↦ rw (new_postgres_storage, failed) refl
  ]
