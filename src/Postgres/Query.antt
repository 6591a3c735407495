-- ===== src/Postgres/Query.antt =====
-- server/postgres_storage.go: the query that `ListUsers` puts together, and its arguments.
pub mod Laws
use mathlib.Core.List.{append-nil, append_assoc}
use text.Mathlib.TextLemmas.{append_assoc as text_assoc, append-nil as text-nil}
use grpc_example.Common.{
  ℕ, suc, ◌+◌, ◌<>◌, decimal, String, ℤ, pos, ltb_ℤ, Bool, true, false, Option, none, some, List,
  [], ◌∷◌, ◌++◌, ◌≡◌, refl, sym, ap, arith, length, if◌then◌else◌, Bool-cases, inl, inr,
}
use grpc_example.Storage.{ListFilter}
use grpc_example.Memory.{unix}
use grpc_example.Postgres.Driver.{Arg, number, instant}
use grpc_example.Postgres.Texts.{list_query_base}

-- The variables `query`, `args` and `argIdx`.
pub record Building : Type 0 where
  pub query : String
  pub args : List Arg
  pub arg_idx : ℕ

abbrev pub begun : Building
begun = record { query = list_query_base; args = []; arg_idx = 1 }

abbrev pub with_clause : String → Arg → Building → Building
with_clause clause arg b = record {
  query = b.query <> clause <> decimal b.arg_idx;
  args = b.args ++ arg ∷ [];
  arg_idx = b.arg_idx + 1;
}

abbrev pub with_since : Option ℤ → Building → Building
with_since none b = b
with_since (some s) b = with_clause " AND create_date >= $" (instant (unix s)) b

abbrev pub with_older : Option ℤ → Building → Building
with_older none b = b
with_older (some o) b = with_clause " AND create_date < $" (instant (unix o)) b

abbrev pub with_status : Option ℤ → Building → Building
with_status none b = b
with_status (some s) b = with_clause " AND status = $" (number s) b

abbrev pub with_limit : ℤ → Building → Building
with_limit page_size b =
    if ltb_ℤ (pos 0) page_size then with_clause " LIMIT $" (number page_size) b else b

unfoldable pub filtered : Option ListFilter → Building
filtered none = begun
filtered (some f) =
    with_limit f.page_size
      (with_status f.status (with_older f.older_than (with_since f.created_since begun)))

unfoldable pub list_query : Option ListFilter → String
unfolding filtered
list_query filter = (filtered filter).query <> " ORDER BY id"

unfoldable pub list_args : Option ListFilter → List Arg
unfolding filtered
list_args filter = (filtered filter).args
