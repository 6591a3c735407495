-- ===== src/Postgres/Conversion.antt =====
-- server/postgres_storage.go: a user as the columns of its row, and a row as a user.
use grpc_example.Common.{
  ℕ, ◌<>◌, String, ℤ, pos, Option, none, some, List, [], ◌∷◌, ◌==◌, string_eq, nat_eq,
  if◌then◌else◌,
}
use grpc_example.Errors.{Error, plain, Result, ok, err, ◌>>=◌}
use grpc_example.Proto.{Address, Profile, User}
use grpc_example.Proto.Getters.{get_preferences, get_display_name, get_bio, get_avatar_url}
use grpc_example.Postgres.Driver.{
  Arg, number, text, texts, instant, maybe_instant, json, Row, Libraries,
}

-- The columns as `AddUser` and `UpdateUser` compute them.
pub record Values : Type 0 where
  pub id : ℕ
  pub username : String
  pub role : ℤ
  pub email : String
  pub phone : String
  pub display_name : String
  pub bio : String
  pub avatar_url : String
  pub date_of_birth : Option ℤ
  pub preferences : String
  pub tags : List String
  pub metadata : String
  pub status : ℤ
  pub create_date : ℤ
  pub last_login : Option ℤ
  pub addresses : String

-- The arguments of the two statements, in the order of their placeholders.
unfoldable pub insert_args : Values → List Arg
insert_args v =
    number (pos v.id)
    ∷ text v.username
    ∷ number v.role
    ∷ text v.email
    ∷ text v.phone
    ∷ text v.display_name
    ∷ text v.bio
    ∷ text v.avatar_url
    ∷ maybe_instant v.date_of_birth
    ∷ json v.preferences
    ∷ texts v.tags
    ∷ json v.metadata
    ∷ number v.status
    ∷ instant v.create_date
    ∷ maybe_instant v.last_login
    ∷ json v.addresses
    ∷ []

unfoldable pub update_args : Values → List Arg
update_args v =
    number (pos v.id)
    ∷ text v.username
    ∷ number v.role
    ∷ text v.email
    ∷ text v.phone
    ∷ text v.display_name
    ∷ text v.bio
    ∷ text v.avatar_url
    ∷ maybe_instant v.date_of_birth
    ∷ json v.preferences
    ∷ texts v.tags
    ∷ json v.metadata
    ∷ number v.status
    ∷ maybe_instant v.last_login
    ∷ json v.addresses
    ∷ []

abbrev pub id_args : ℕ → List Arg
id_args id = number (pos id) ∷ []

abbrev pub or_empty : Option String → String
or_empty none = ""
or_empty (some s) = s

module _ {T : Type 0} (lib : Libraries T) where
  -- `fmt.Errorf(message + "%w", err)`
  abbrev pub wrap : {A : Type 0} → String → Result A → Result A
  wrap message (ok a) = ok a
  wrap message (err e) = err (plain (message <> lib.error_text e))

  unfoldable pub serialize_preferences : Option (List (String × ℤ)) → Result String
  serialize_preferences none = ok "{}"
  serialize_preferences (some []) = ok "{}"
  serialize_preferences (some (p ∷ prefs)) = lib.preferences.marshal (some (p ∷ prefs))

  unfoldable pub serialize_metadata : Option (List (String × String)) → Result String
  serialize_metadata none = ok "{}"
  serialize_metadata (some []) = ok "{}"
  serialize_metadata (some (m ∷ meta)) = lib.metadata.marshal (some (m ∷ meta))

  unfoldable pub serialize_addresses : List (Option Address) → Result String
  serialize_addresses [] = ok "[]"
  serialize_addresses (a ∷ addrs) = lib.addresses.marshal (a ∷ addrs)

  unfoldable pub deserialize_preferences :
      String → Option (List (String × ℤ)) → Option (List (String × ℤ)) × Option Error
  deserialize_preferences bytes prefs =
      if bytes == "" then (some [], none) else lib.preferences.unmarshal bytes prefs

  unfoldable pub deserialize_metadata :
      String → Option (List (String × String)) → Option (List (String × String)) × Option Error
  deserialize_metadata bytes meta =
      if bytes == "" then (some [], none) else lib.metadata.unmarshal bytes meta

  unfoldable pub deserialize_addresses :
      String → List (Option Address) → List (Option Address) × Option Error
  deserialize_addresses bytes addrs =
      if bytes == "" then ([], none) else lib.addresses.unmarshal bytes addrs

  abbrev pub time_of : Option T → Option ℤ
  time_of none = none
  time_of (some t) = some (lib.timestamps.as_time (some t))

  abbrev pub birth_of : Option (Profile T) → Option ℤ
  birth_of none = none
  birth_of (some p) = time_of p.date_of_birth

  abbrev pub values_with : User T → String → String → String → Values
  values_with user preferences metadata addresses = record {
    id = user.id;
    username = user.username;
    role = user.role;
    email = user.email;
    phone = user.phone;
    display_name = get_display_name user.profile;
    bio = get_bio user.profile;
    avatar_url = get_avatar_url user.profile;
    date_of_birth = birth_of user.profile;
    preferences = preferences;
    tags = user.tags;
    metadata = metadata;
    status = user.status;
    create_date = lib.timestamps.as_time user.create_date;
    last_login = time_of user.last_login;
    addresses = addresses;
  }

  -- What both statements are given; the first field that cannot be serialized is the error.
  unfoldable pub values_of : User T → Result Values
  unfolding serialize_preferences serialize_metadata serialize_addresses get_preferences
  values_of user = do
    preferences ←
        wrap "failed to serialize preferences: "
          (serialize_preferences (get_preferences user.profile))
    metadata ← wrap "failed to serialize metadata: " (serialize_metadata user.metadata)
    addresses ← wrap "failed to serialize addresses: " (serialize_addresses user.addresses)
    ok (values_with user preferences metadata addresses)

  abbrev pub stamp : Option ℤ → Option T
  stamp none = none
  stamp (some t) = some (lib.timestamps.make t)

  -- The user that a row is read into. An error of a deserialization is dropped: what it left in
  -- its target stays.
  unfoldable pub user_of : Row → User T
  unfolding deserialize_preferences deserialize_metadata deserialize_addresses
  user_of row = record {
    id = row.id;
    role = row.role;
    create_date = stamp row.create_date;
    username = row.username;
    email = or_empty row.email;
    phone = or_empty row.phone;
    profile = some (record {
      display_name = or_empty row.display_name;
      bio = or_empty row.bio;
      avatar_url = or_empty row.avatar_url;
      date_of_birth = stamp row.date_of_birth;
      preferences =
          if row.preferences == "" then none else (deserialize_preferences row.preferences none).0;
    });
    tags = row.tags;
    metadata = if row.metadata == "" then none else (deserialize_metadata row.metadata none).0;
    status = row.status;
    last_login = stamp row.last_login;
    addresses = if row.addresses == "" then [] else (deserialize_addresses row.addresses []).0;
  }

  -- The loop over the rows: one that cannot be scanned is skipped.
  unfoldable pub users_of : List (Option Row) → List (User T)
  unfolding user_of
  users_of [] = []
  users_of (none ∷ rows) = users_of rows
  users_of (some row ∷ rows) = user_of row ∷ users_of rows
