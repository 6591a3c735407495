-- ===== src/Tests/Database.antt =====
-- A database that is a list of rows, and a JSON library that knows one value of each type: an
-- instance of what the PostgreSQL backend relies on.
use grpc_example.Common.{
  ℕ, ◌<>◌, String, ℤ, pos, Bool, true, false, ◌&&◌, Option, none, some, List, [], ◌∷◌, map, ◌≡◌,
  refl, arith, inl, inr, length, if◌then◌else◌, ◌==◌, nat_eq, nat_beq_iff, int_eq, string_eq,
  eq_iff, eq_ℤ_iff, Bool-cases, has_prefix, after_prefix, after_prefix-append,
}
use grpc_example.Common.Assoc.{lookup, insert, delete, has, lookup-insert}
use grpc_example.Common.Members.{select}
use grpc_example.Errors.{Error, plain, Result, ok, err}
use grpc_example.Proto.{Address, User}
use grpc_example.Postgres.{Values, insert_args, update_args}
use grpc_example.Postgres.Driver.{
  Arg, number, text, texts, instant, maybe_instant, json, Row, Scan, no_rows, Pool, Codec,
  Libraries,
}
use grpc_example.Postgres.Texts.{
  insert_query, select_query, update_query, delete_query, list_query_base, role_query, exists_query,
  count_query,
}
use grpc_example.Postgres.Table.{
  Columns, row_of, created_by, updated, found, IsAtomic, IsDatabase, IsCodec,
}
use grpc_example.Postgres.Restored.{HasCodecs, IsSameMap, IsSameList}
use grpc_example.Postgres.Listings.{IsListed}
use grpc_example.Tests.{ts, ann}

abbrev pub Rows : Type 0
Rows = List (ℕ × Row)

abbrev pub rows : Rows → Rows
rows d = d

abbrev pub columns : Columns
columns = record { jsonb = λ s. s; timestamp = λ t. t }

-- The arguments as they were written.
abbrev inserted : List Arg → Option Values
inserted
      (number (pos id)
        ∷ text username
        ∷ number role
        ∷ text email
        ∷ text phone
        ∷ text display_name
        ∷ text bio
        ∷ text avatar_url
        ∷ maybe_instant birth
        ∷ json preferences
        ∷ texts tags
        ∷ json metadata
        ∷ number status
        ∷ instant created
        ∷ maybe_instant login
        ∷ json addresses
        ∷ []) =
    some (record {
      id = id;
      username = username;
      role = role;
      email = email;
      phone = phone;
      display_name = display_name;
      bio = bio;
      avatar_url = avatar_url;
      date_of_birth = birth;
      preferences = preferences;
      tags = tags;
      metadata = metadata;
      status = status;
      create_date = created;
      last_login = login;
      addresses = addresses;
    })
inserted _ = none

-- An update is an insertion without the creation date, which it leaves as it is.
abbrev changed : List Arg → Option Values
changed
      (id ∷ username ∷ role ∷ email ∷ phone ∷ display_name ∷ bio ∷ avatar_url ∷ birth ∷ preferences
        ∷ tags ∷ metadata ∷ status ∷ login ∷ addresses ∷ []) =
    inserted (
      id
      ∷ username
      ∷ role
      ∷ email
      ∷ phone
      ∷ display_name
      ∷ bio
      ∷ avatar_url
      ∷ birth
      ∷ preferences
      ∷ tags
      ∷ metadata
      ∷ status
      ∷ instant (pos 0)
      ∷ login
      ∷ addresses
      ∷ [])
changed _ = none

abbrev refused : Rows → Result ℕ × Rows
refused d = (err (plain "bad statement"), d)

abbrev put : Option Values → Rows → Result ℕ × Rows
put none d = refused d
put (some v) d = (ok 1, insert v.id (row_of columns (created_by columns v (lookup v.id d)) v) d)

abbrev replaced : Values → Option Row → Rows → Result ℕ × Rows
replaced v none d = (ok 0, d)
replaced v (some old) d = (ok 1, insert v.id (row_of columns old.create_date v) d)

abbrev replace : Option Values → Rows → Result ℕ × Rows
replace none d = refused d
replace (some v) d = replaced v (lookup v.id d) d

abbrev remove : List Arg → Rows → Result ℕ × Rows
remove (number (pos id) ∷ []) d = (ok (if has id d then 1 else 0), delete id d)
remove _ d = refused d

abbrev one : List Arg → Rows → Scan
one (number (pos id) ∷ []) d = found (lookup id d)
one _ d = no_rows

abbrev any_row : List Arg → Rows → Result Bool
any_row (number (pos id) ∷ []) d = ok (has id d)
any_row _ d = err (plain "bad query")

abbrev of_role : List Arg → Rows → Result (List (Option Row) × Option Error)
of_role (number role ∷ []) d = ok (map some (select (λ e. e.1.role == role) (λ e. e.1) d), none)
of_role _ d = err (plain "bad query")

abbrev pub pool : Pool Rows
pool = record {
  exec = λ query args d.
      if query == insert_query
      then put (inserted args) d
      else if query == update_query
      then replace (changed args) d
      else if query == delete_query
      then remove args d
      else (ok 0, d);
  query_user = λ query args d. one args d;
  query_users = λ query args d.
      if has_prefix query list_query_base then err (plain "syntax error") else of_role args d;
  query_exists = λ query args d. any_row args d;
  query_count = λ query args d. ok (length d);
}

replaced-IsAtomic :
    (v : Values) (old : Option Row) (d : Rows)
    → lookup v.id d ≡ old
    → IsAtomic rows d
        (λ j. if v.id == j then updated columns v old else lookup j d)
        (replaced v old d)
replaced-IsAtomic v none d absent = inr (λ j. elim (Bool-cases (v.id == j)) [
  | inl same ↦ ground (arith, nat_beq_iff v.id j)
  | inr other ↦ rw other refl
])
replaced-IsAtomic v (some old) d there = inr (λ j. lookup-insert v.id j _ d)

pub pool-IsDatabase : IsDatabase pool columns rows
unfolding insert_query update_query delete_query select_query exists_query count_query insert_args
    update_args
pool-IsDatabase = record {
  insert = λ v d. inr (λ j. lookup-insert v.id j _ d);
  update = λ v d. replaced-IsAtomic v _ d refl;
  select = λ id d. refl;
  exists = λ id d. refl;
  count = λ d. refl;
}

begins : (base rest : String) → has_prefix (base <> rest) base ≡ true
unfolding has_prefix
begins base rest = rw (has_prefix, after_prefix-append base rest) refl

pub pool-IsListed : IsListed pool rows
unfolding role_query list_query_base has_prefix after_prefix
pool-IsListed = record {
  by_role = λ role d. refl;
  misplaced_limit =
      λ f placeholder args d. (plain "syntax error", rw (begins list_query_base) refl);
}

-- A library that knows the value that passes the test, and its text.
abbrev knowing : {A : Type 0} → (A → Bool) → A → String → Codec A
knowing test known written = record {
  marshal = λ a. if test a then ok written else err (plain "unknown");
  unmarshal = λ s target. if s == written then (known, none) else (target, some (plain "unknown"));
}

module _ {A : Type 0} (IsSame : A → A → Type 0) (same : (a : A) → IsSame a a) where
  knowing-IsCodec :
      (test : A → Bool) (known blank : A) (written literal : String)
      → ((a : A) → test a ≡ true → a ≡ known)
      → (written == "") ≡ false
      → (literal == "") ≡ false
      → (literal == written) ≡ false
      → IsCodec (knowing test known written) columns IsSame blank literal
  knowing-IsCodec test known blank written literal sound full some_text other = record {
    marshalled = λ a s h. elim (Bool-cases (test a)) [
      | inl passed ↦
          let e : s ≡ written = ground arith in
          rw (e, sound a passed, (eq_iff written written).1 refl)
            ((λ e. ground (arith, eq_iff written "")), same known)
      | inr failed ↦ absurd (ground arith)
    ];
    empty = ((λ e. ground (arith, eq_iff literal "")), rw other (same blank));
  }

abbrev is_theme : Option (List (String × ℤ)) → Bool
is_theme (some ((k, x) ∷ [])) = (k == "theme") && (x == pos 1)
is_theme _ = false

is_theme_lem :
    (m : Option (List (String × ℤ))) → is_theme m ≡ true → m ≡ some (("theme", pos 1) ∷ [])
is_theme_lem none h = cc
is_theme_lem (some []) h = cc
is_theme_lem (some ((k, x) ∷ [])) h =
    let key : k ≡ "theme" = ground (arith, eq_iff k "theme") in
    let value : x ≡ pos 1 = ground (arith, eq_ℤ_iff x (pos 1)) in rw (key, value) refl
is_theme_lem (some (a ∷ b ∷ m)) h = cc

abbrev is_team : Option (List (String × String)) → Bool
is_team (some ((k, x) ∷ [])) = (k == "team") && (x == "core")
is_team _ = false

is_team_lem :
    (m : Option (List (String × String))) → is_team m ≡ true → m ≡ some (("team", "core") ∷ [])
is_team_lem none h = cc
is_team_lem (some []) h = cc
is_team_lem (some ((k, x) ∷ [])) h =
    let key : k ≡ "team" = ground (arith, eq_iff k "team") in
    let value : x ≡ "core" = ground (arith, eq_iff x "core") in rw (key, value) refl
is_team_lem (some (a ∷ b ∷ m)) h = cc

abbrev is_blank : List (Option Address) → Bool
is_blank (none ∷ []) = true
is_blank _ = false

is_blank_lem : (l : List (Option Address)) → is_blank l ≡ true → l ≡ none ∷ []
is_blank_lem (none ∷ []) h = refl
is_blank_lem [] h = cc
is_blank_lem (some a ∷ l) h = cc
is_blank_lem (none ∷ a ∷ l) h = cc

abbrev pub lib : Libraries ℤ
lib = record {
  timestamps = ts;
  error_text = λ e. "error";
  no_rows_text = "no rows in result set";
  preferences = knowing is_theme (some (("theme", pos 1) ∷ [])) "{theme}";
  metadata = knowing is_team (some (("team", "core") ∷ [])) "{team}";
  addresses = knowing is_blank (none ∷ []) "[null]";
}

pub lib-HasCodecs : HasCodecs lib columns
lib-HasCodecs = record {
  preferences =
      knowing-IsCodec IsSameMap (λ m k. refl) _ _ _ "{theme}" "{}" is_theme_lem refl refl refl;
  metadata = knowing-IsCodec IsSameMap (λ m k. refl) _ _ _ "{team}" "{}" is_team_lem refl refl refl;
  addresses =
      knowing-IsCodec IsSameList (λ l. refl) _ _ _ "[null]" "[]" is_blank_lem refl refl refl;
}

abbrev pub kim : User ℤ
kim = record ann { addresses = none ∷ [] }
