-- ===== src/Postgres/Table.antt =====
-- What PostgreSQL and the JSON library document, for the statements of server/postgres_storage.go:
-- the hypotheses of the theorems on the backend. `table` reads the rows of `users` by their ids out
-- of a state of the database.
use grpc_example.Common.{
  ℕ, String, ℤ, pos, ◌∷◌, Option, none, some, List, [], ◌≡◌, ◌≢◌, ◌⊎◌, length, if◌then◌else◌, ◌==◌,
  nat_eq, string_eq,
}
use grpc_example.Common.Assoc.{lookup, has}
use grpc_example.Errors.{Error, Result, ok, err}
use grpc_example.Postgres.{Values}
use grpc_example.Postgres.Driver.{
  Arg, number, text, texts, instant, maybe_instant, json, Row, Scan, no_rows, scanned, Pool, Codec,
}
use grpc_example.Postgres.Texts.{
  insert_query, select_query, update_query, exists_query, count_query,
}

-- A column keeps a value up to this: JSONB rewrites a text, TIMESTAMPTZ rounds an instant.
pub record Columns : Type 0 where
  pub jsonb : String → String
  pub timestamp : ℤ → ℤ

module _ (c : Columns) where
  abbrev pub kept_time : Option ℤ → Option ℤ
  kept_time none = none
  kept_time (some t) = some (c.timestamp t)

  -- The row that a statement with the values `v` leaves, with the creation date `created`.
  abbrev pub row_of : Option ℤ → Values → Row
  row_of created v = record {
    id = v.id;
    username = v.username;
    role = v.role;
    email = some v.email;
    phone = some v.phone;
    display_name = some v.display_name;
    bio = some v.bio;
    avatar_url = some v.avatar_url;
    date_of_birth = kept_time v.date_of_birth;
    preferences = c.jsonb v.preferences;
    tags = v.tags;
    metadata = c.jsonb v.metadata;
    status = v.status;
    create_date = created;
    last_login = kept_time v.last_login;
    addresses = c.jsonb v.addresses;
  }

  -- On a conflict the insertion keeps the creation date, which it does not set.
  abbrev pub created_by : Values → Option Row → Option ℤ
  created_by v none = some (c.timestamp v.create_date)
  created_by v (some old) = old.create_date

  abbrev pub updated : Values → Option Row → Option Row
  updated v none = none
  updated v (some old) = some (row_of old.create_date v)

-- The arguments that `insert_query` expects: for each column that it names, in that order, the
-- placeholder of the same place.
abbrev pub insert_columns : Values → List Arg
insert_columns v =
    number (pos v.id)
    ∷ text v.username
    ∷ number v.role
    ∷ text v.email
    ∷ text v.phone
    ∷ text v.display_name
    ∷ text v.bio
    ∷ text v.avatar_url
    ∷ maybe_instant v.date_of_birth
    ∷ json v.preferences
    ∷ texts v.tags
    ∷ json v.metadata
    ∷ number v.status
    ∷ instant v.create_date
    ∷ maybe_instant v.last_login
    ∷ json v.addresses
    ∷ []

-- Those that `update_query` expects, by the numbers of its placeholders.
abbrev pub update_columns : Values → List Arg
update_columns v =
    number (pos v.id)
    ∷ text v.username
    ∷ number v.role
    ∷ text v.email
    ∷ text v.phone
    ∷ text v.display_name
    ∷ text v.bio
    ∷ text v.avatar_url
    ∷ maybe_instant v.date_of_birth
    ∷ json v.preferences
    ∷ texts v.tags
    ∷ json v.metadata
    ∷ number v.status
    ∷ maybe_instant v.last_login
    ∷ json v.addresses
    ∷ []

abbrev pub found : Option Row → Scan
found none = no_rows
found (some row) = scanned row

module _ {D : Type 0} (table : D → List (ℕ × Row)) where
  -- A statement is carried out as a whole, whatever `Exec` then reports of it, since a connection may
  -- break off after the commit; or `Exec` returns an error and the table is as it was.
  abbrev pub IsAtomic : D → (ℕ → Option Row) → Result ℕ × D → Type 0
  IsAtomic d after outcome =
      ((e : Error) × (outcome.0 ≡ err e)
        × ((j : ℕ) → lookup j (table outcome.1) ≡ lookup j (table d)))
      ⊎ ((j : ℕ) → lookup j (table outcome.1) ≡ after j)

-- The pool reaches a database that answers queries.
pub record IsDatabase {D : Type 0} (pool : Pool D) (c : Columns) (table : D → List (ℕ × Row))
    : Type 0 where
  pub insert :
      (v : Values) (d : D)
      → IsAtomic table d
          (λ j.
            if v.id == j
            then some (row_of c (created_by c v (lookup v.id (table d))) v)
            else lookup j (table d))
          (pool.exec insert_query (insert_columns v) d)
  pub update :
      (v : Values) (d : D)
      → IsAtomic table d
          (λ j. if v.id == j then updated c v (lookup v.id (table d)) else lookup j (table d))
          (pool.exec update_query (update_columns v) d)
  pub select :
      (id : ℕ) (d : D)
      → pool.query_user select_query (number (pos id) ∷ []) d ≡ found (lookup id (table d))
  pub exists :
      (id : ℕ) (d : D)
      → pool.query_exists exists_query (number (pos id) ∷ []) d ≡ ok (has id (table d))
  pub count : (d : D) → pool.query_count count_query [] d ≡ ok (length (table d))

-- A value that was marshalled and kept as JSONB is read back, into the blank target, as the same;
-- so is the literal that stands for no value.
pub record IsCodec {A : Type 0} (codec : Codec A) (c : Columns) (IsSame : A → A → Type 0)
    (blank : A) (literal : String) : Type 0 where
  pub marshalled :
      (a : A) (s : String)
      → codec.marshal a ≡ ok s
      → (c.jsonb s ≢ "") × IsSame a (codec.unmarshal (c.jsonb s) blank).0
  pub empty : (c.jsonb literal ≢ "") × IsSame blank (codec.unmarshal (c.jsonb literal) blank).0
