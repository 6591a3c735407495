-- ===== src/Postgres.antt =====
-- server/postgres_storage.go: the PostgreSQL backend, over the pool and the libraries of
-- Postgres/Driver. The tracing spans are left out: they do not change what a method returns.
pub mod Texts
pub mod Driver
mod Conversion
pub mod Query
pub mod Table
pub mod Restored
pub mod Laws
pub mod Listings
pub mod Connect
unfoldable pub use Conversion.*
use grpc_example.Common.{
  ℕ, ◌<>◌, decimal, String, ℤ, pos, Bool, true, false, Option, none, some, List, [], ◌∷◌, ◌==◌,
  string_eq, nat_eq, if◌then◌else◌,
}
use grpc_example.Errors.{Error, plain, Result, ok, err, ◌>>=◌}
use grpc_example.Proto.{Role, Address, Profile, User}
use grpc_example.Proto.Getters.{get_preferences, get_display_name, get_bio, get_avatar_url}
use grpc_example.Storage.{ListFilter, Storage}
use grpc_example.Postgres.Driver.{
  Arg, number, text, texts, instant, maybe_instant, json, Row, Scan, no_rows, scan_failed, scanned,
  Pool, Codec, Libraries,
}
use grpc_example.Postgres.Query.{list_query, list_args}
use grpc_example.Postgres.Texts.{
  insert_query, select_query, update_query, delete_query, role_query, exists_query, count_query,
}

module _ {T D : Type 0} (lib : Libraries T) (pool : Pool D) where
  abbrev pub executed : String → Result ℕ × D → Result (Unit {0}) × D
  executed message (ok _, d) = (ok tt, d)
  executed message (err e, d) = (err (plain (message <> lib.error_text e)), d)

  -- The clock is not read.
  unfoldable pub add_user : User T → D → Result (Unit {0}) × D
  add_user user d = elim (values_of lib user) [
    | err e ↦ (err e, d)
    | ok v ↦ executed "failed to add user: " (pool.exec insert_query (insert_args v) d)
  ]

  abbrev pub got : Scan → Result (User T)
  unfolding user_of
  got no_rows = err (plain ("user not found: " <> lib.no_rows_text))
  got (scan_failed e) = err (plain ("failed to get user: " <> lib.error_text e))
  got (scanned row) = ok (user_of lib row)

  unfoldable pub get_user : ℕ → D → Result (User T)
  unfolding user_of
  get_user id d = got (pool.query_user select_query (id_args id) d)

  unfoldable pub user_exists : ℕ → D → Result Bool
  user_exists id d =
      wrap lib "failed to check user existence: " (pool.query_exists exists_query (id_args id) d)

  unfoldable pub count : D → Result ℕ
  count d = wrap lib "failed to count users: " (pool.query_count count_query [] d)

  abbrev pub missing : ℕ → Result (Unit {0})
  missing id = err (plain ("user with ID " <> decimal id <> " not found"))

  unfoldable pub update_user : User T → D → Result (Unit {0}) × D
  update_user user d = elim (user_exists user.id d) [
    | err e ↦ (err e, d)
    | ok false ↦ (missing user.id, d)
    | ok true ↦ elim (values_of lib user) [
      | err e ↦ (err e, d)
      | ok v ↦ executed "failed to update user: " (pool.exec update_query (update_args v) d)
    ]
  ]

  abbrev pub deleted : ℕ → Result ℕ × D → Result (Unit {0}) × D
  deleted id (err e, d) = (err (plain ("failed to delete user: " <> lib.error_text e)), d)
  deleted id (ok n, d) = (if n == 0 then missing id else ok tt, d)

  unfoldable pub delete_user : ℕ → D → Result (Unit {0}) × D
  delete_user id d = deleted id (pool.exec delete_query (id_args id) d)

  -- `rows.Err` is not asked.
  abbrev pub listed : String → Result (List (Option Row) × Option Error) → Result (List (User T))
  unfolding users_of
  listed message (err e) = err (plain (message <> lib.error_text e))
  listed message (ok (rows, _)) = ok (users_of lib rows)

  unfoldable pub list_users : Option ListFilter → D → Result (List (User T))
  unfolding users_of list_query list_args
  list_users filter d =
      listed "failed to list users: " (pool.query_users (list_query filter) (list_args filter) d)

  unfoldable pub list_users_by_role : Role → D → Result (List (User T))
  unfolding users_of
  list_users_by_role role d =
      listed "failed to list users by role: " (pool.query_users role_query (number role ∷ []) d)

  -- The methods of the interface; those with a clock do not read it.
  abbrev pub postgres_backend : Storage T D
  postgres_backend = record {
    add_user = λ now. add_user;
    get_user = get_user;
    update_user = update_user;
    delete_user = delete_user;
    list_users = λ clock. list_users;
    list_users_by_role = list_users_by_role;
    user_exists = user_exists;
    count = count;
  }
