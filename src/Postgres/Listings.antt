-- ===== src/Postgres/Listings.antt =====
-- The listings of the PostgreSQL backend, alone and behind the service.
use mathlib.Core.List.{append_assoc}
use text.Mathlib.TextLemmas.{append_assoc as text_assoc}
use grpc_example.Common.{
  ℕ, ◌+◌, ◌<>◌, decimal, ℤ, pos, ltb_ℤ, Bool, true, none, some, List, [], ◌∷◌, ◌++◌, map, ◌≡◌, refl,
  ◌∙◌, ap, inl, inr, length, ◌==◌, nat_eq, int_eq, string_eq, Bool-cases,
}
use grpc_example.Common.Members.{select}
use grpc_example.Errors.{Error, plain, ok, err}
use grpc_example.Proto.{Role, ListUsersRequest}
use grpc_example.Storage.{ListFilter}
use grpc_example.Memory.{unix}
use grpc_example.Postgres.{user_of, users_of, list_users, list_users_by_role, postgres_backend}
use grpc_example.Postgres.Driver.{Arg, number, instant, Pool, Libraries, Row}
use grpc_example.Postgres.Query.{list_query, list_args}
use grpc_example.Postgres.Query.Laws.{
  Part, optional, numbered, list_query-numbered, numbered-append,
}
use grpc_example.Postgres.Texts.{list_query_base, role_query}
use grpc_example.Server.{Runtime, filter_of}
use grpc_example.Server.Streams
use grpc_example.Server.Streams.{Sends}

-- The comparisons that the filter asks for, without the limit.
abbrev pub comparisons : ListFilter → List Part
comparisons f =
    optional " AND create_date >= $" (λ s. instant (unix s)) f.created_since
    ++ optional " AND create_date < $" (λ o. instant (unix o)) f.older_than
    ++ optional " AND status = $" number f.status

-- What PostgreSQL documents of the listings. A row is a pair of its id and its columns, and the table
-- is in the order of the ids. The grammar of SELECT has LIMIT after ORDER BY: a text with a limit before
-- the order is refused, whatever the number of its placeholder.
pub record IsListed {D : Type 0} (pool : Pool D) (table : D → List (ℕ × Row)) : Type 0 where
  pub by_role :
      (role : Role) (d : D)
      → pool.query_users role_query (number role ∷ []) d
        ≡ ok (map some (select (λ e. e.1.role == role) (λ e. e.1) (table d)), none)
  pub misplaced_limit :
      (f : ListFilter) (placeholder : ℕ) (args : List Arg) (d : D)
      → (e : Error) × (pool.query_users
            (list_query_base
              <> numbered 1 (comparisons f)
              <> " LIMIT $"
              <> decimal placeholder
              <> " ORDER BY id")
            args
            d
          ≡ err e)

module _ {T D : Type 0} (lib : Libraries T) (pool : Pool D) (table : D → List (ℕ × Row))
    (db : IsListed pool table) where
  users_of-map : (rows : List Row) → users_of lib (map some rows) ≡ map (user_of lib) rows
  unfolding users_of user_of
  users_of-map [] = refl
  users_of-map (r ∷ rows) = ap (λ l. user_of lib r ∷ l) (users_of-map rows)

  map-select :
      (p : ℕ × Row → Bool) (es : List (ℕ × Row))
      → map (user_of lib) (select p (λ e. e.1) es) ≡ select p (λ e. user_of lib e.1) es
  unfolding user_of
  map-select p [] = refl
  map-select p (e ∷ es) = elim (Bool-cases (p e)) [
    | inl pass ↦ rw pass (ap (λ l. user_of lib e.1 ∷ l) (map-select p es))
    | inr fail ↦ rw fail (map-select p es)
  ]

  -- A listing by role returns the users of the rows with that role, in the order of their ids.
  list_users_by_role_lem :
      (role : Role) (d : D)
      → list_users_by_role lib pool role d
        ≡ ok (select (λ e. e.1.role == role) (λ e. user_of lib e.1) (table d))
  unfolding list_users_by_role
  list_users_by_role_lem role d =
      rw (list_users_by_role, db.by_role role d)
        (ap ok (
          users_of-map (select (λ e. e.1.role == role) (λ e. e.1) (table d))
          ∙ map-select (λ e. e.1.role == role) (table d)))

  regroup : (a b c : List Part) (p : Part) → a ++ b ++ c ++ p ∷ [] ≡ (a ++ b ++ c) ++ p ∷ []
  regroup a b c p = rw (append_assoc, append_assoc) refl

  limited_query :
      (f : ListFilter)
      → ltb_ℤ (pos 0) f.page_size ≡ true
      → list_query (some f)
        ≡ list_query_base
          <> numbered 1 (comparisons f)
          <> " LIMIT $"
          <> decimal (1 + length (comparisons f))
          <> " ORDER BY id"
  limited_query f limited =
      rw
        (
          (list_query-numbered (some f)).0,
          limited,
          regroup (optional " AND create_date >= $" (λ s. instant (unix s)) f.created_since)
              (optional " AND create_date < $" (λ o. instant (unix o)) f.older_than)
              (optional " AND status = $" number f.status) (" LIMIT $", number f.page_size),
          numbered-append 1 (comparisons f) " LIMIT $" (number f.page_size),
          text_assoc (numbered 1 (comparisons f)),
          text_assoc " LIMIT $",
        )
        refl

  list_users-limited :
      (f : ListFilter) (d : D)
      → ltb_ℤ (pos 0) f.page_size ≡ true
      → (e : Error) × (list_users lib pool (some f) d ≡ err e)
  unfolding list_users
  list_users-limited f d limited =
      let (e, refused) = db.misplaced_limit f (1 + length (comparisons f)) (list_args (some f)) d in
      (
        plain ("failed to list users: " <> lib.error_text e),
        rw (list_users, limited_query f limited, refused) refl,
      )

  -- `ListUsers` of the service over PostgreSQL, for a request with a positive page size, sends no user
  -- and returns an error, whatever the table holds.
  pub list_users-page_size :
      {Length : Type 0} (rt : Runtime T Length) (send : Sends) (now : ℤ) (clock : ℕ → ℤ)
      (req : ListUsersRequest T Length) (d : D)
      → ltb_ℤ (pos 0) req.page_size ≡ true
      → (e : Error) × (Streams.list_users rt (postgres_backend lib pool) send now clock req d
          ≡ ([], err e))
  unfolding Streams.list_users Streams.send_users
  list_users-page_size rt send now clock req d limited =
      let (e, refused) =
        list_users-limited (filter_of rt now req) d (unfold filter_of in limited) in
      (e, rw (Streams.list_users, refused) refl)
