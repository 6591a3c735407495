-- ===== src/Tests/Postgres.antt =====
-- The theorems on the PostgreSQL backend, over the database of Tests/Database.
use grpc_example.Common.{
  ◌<>◌, ℤ, pos, Option, none, some, [], map, ◌≡◌, refl, if◌then◌else◌, ◌==◌, nat_eq, int_eq,
  string_eq,
}
use grpc_example.Common.Assoc.{lookup, insert, has}
use grpc_example.Errors.{Error, plain, ok, err}
use grpc_example.Proto.{active, User, ListUsersRequest}
use grpc_example.Proto.Getters.{get_display_name, get_bio, get_avatar_url, get_preferences}
use grpc_example.Storage.{ListFilter}
use grpc_example.Postgres.{
  insert_args, update_args, values_of, user_of, serialize_preferences, serialize_metadata,
  serialize_addresses, add_user, get_user, user_exists, update_user, postgres_backend,
}
use grpc_example.Postgres.Driver.{Row}
use grpc_example.Postgres.Texts.{insert_query, update_query, delete_query, list_query_base}
use grpc_example.Postgres.Query.{list_query, list_args}
use grpc_example.Postgres.Query.Laws.{numbered, parts, list_query-numbered}
use grpc_example.Postgres.Restored.{IsRestored, first_created}
use grpc_example.Postgres.Laws.{add_user-IsRestored, update_user-IsRestored}
use grpc_example.Postgres.Listings.{list_users-page_size}
use grpc_example.Postgres.Connect.{Connector}
use grpc_example.Server.Streams
use grpc_example.Tests.{rt}
use grpc_example.Tests.Database.{
  Rows, rows, columns, pool, pool-IsDatabase, pool-IsListed, lib, lib-HasCodecs, kim,
}

abbrev late : User ℤ
late = record kim { create_date = some (pos 77); username = "kim" }

-- What the statements compute.
unfoldable sql : Unit {0}
unfolding insert_query update_query delete_query insert_args update_args values_of user_of
    serialize_preferences serialize_metadata serialize_addresses get_display_name get_bio
    get_avatar_url get_preferences add_user user_exists update_user lookup insert has
sql = tt

abbrev table : Rows
table = (add_user lib pool kim []).1

kim_added : (add_user lib pool kim []).0 ≡ ok tt
unfolding sql
kim_added = refl

late_added : (add_user lib pool late table).0 ≡ ok tt
unfolding sql
late_added = refl

late_updated : (update_user lib pool late table).0 ≡ ok tt
unfolding sql
late_updated = refl

-- The date of the first addition stays.
kept_date : first_created lib columns late (lookup late.id table) ≡ some (pos 5)
unfolding sql
kept_date = refl

add_user-IsRestored_example :
    (u : User ℤ) × (get_user lib pool 1 (add_user lib pool late table).1
      ≡ (if late.id == 1 then ok u else get_user lib pool 1 table))
    × IsRestored lib columns late (first_created lib columns late (lookup late.id table)) u
add_user-IsRestored_example =
    add_user-IsRestored lib columns pool rows pool-IsDatabase lib-HasCodecs late 1 table late_added

update_user-IsRestored_example :
    (old : Row) × (u : User ℤ) × (lookup late.id table ≡ some old)
    × (get_user lib pool 1 (update_user lib pool late table).1
        ≡ (if late.id == 1 then ok u else get_user lib pool 1 table))
    × IsRestored lib columns late old.create_date u
update_user-IsRestored_example =
    update_user-IsRestored lib columns pool rows pool-IsDatabase lib-HasCodecs late 1 table
      late_updated

abbrev page : ListUsersRequest ℤ ℤ
page = record {
  created_since = some (pos 1);
  older_than = none;
  status = active;
  page_size = pos 10;
  page_token = "";
}

list_users-page_size_example :
    (e : Error) × (Streams.list_users rt
        (postgres_backend lib pool)
        (λ i. none)
        (pos 9)
        (λ i. pos 9)
        page
        table
      ≡ ([], err e))
list_users-page_size_example =
    list_users-page_size lib pool rows pool-IsListed rt (λ i. none) (pos 9) (λ i. pos 9) page table
      refl

abbrev first_page : Option ListFilter
first_page = some (record {
  created_since = some (pos 1);
  older_than = none;
  status = some active;
  page_size = pos 10;
  page_token = "";
})

list_query-numbered_example :
    (list_query first_page ≡ list_query_base <> numbered 1 (parts first_page) <> " ORDER BY id")
    × (list_args first_page ≡ map (λ p. p.1) (parts first_page))
list_query-numbered_example = list_query-numbered first_page

abbrev connector : Connector Rows
connector = record {
  new_pool = λ conn_string. ok [];
  ping = λ d. some (plain "connection refused");
}
