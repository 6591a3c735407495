-- ===== src/Postgres/Restored.antt =====
-- The user that comes back out of a row of the table, for the user that was put into it.
use grpc_example.Common.{
  String, ℤ, false, Option, none, some, List, [], ◌∷◌, ◌≡◌, ◌≢◌, refl, sym, arith, if◌then◌else◌,
  ◌==◌, nat_eq, string_eq, eq_iff,
}
use grpc_example.Common.Assoc.{lookup}
use grpc_example.Errors.{Error, Result, ok, err, ok->>=, ok_injective}
use grpc_example.Proto.{Address, Profile, User}
use grpc_example.Proto.Getters.{get_preferences, get_display_name, get_bio, get_avatar_url}
use grpc_example.Postgres.{
  Values, wrap, serialize_preferences, serialize_metadata, serialize_addresses,
  deserialize_preferences, deserialize_metadata, deserialize_addresses, time_of, birth_of,
  values_with, values_of, stamp, user_of,
}
use grpc_example.Postgres.Driver.{Libraries, Row}
use grpc_example.Postgres.Table.{Columns, kept_time, row_of, created_by, IsCodec}

abbrev pub entries {ℓ} : {V : Type ℓ} → Option (List (String × V)) → List (String × V)
entries none = []
entries (some m) = m

-- The same entries, in whatever order.
abbrev pub IsSameMap {ℓ} :
    {V : Type ℓ} → Option (List (String × V)) → Option (List (String × V)) → Type ℓ
IsSameMap m m' = (k : String) → lookup k (entries m) ≡ lookup k (entries m')

abbrev pub IsSameList : List (Option Address) → List (Option Address) → Type 0
IsSameList a b = a ≡ b

-- The JSON library on the three types that the backend keeps as JSONB.
pub record HasCodecs {T : Type 0} (lib : Libraries T) (c : Columns) : Type 0 where
  pub preferences : IsCodec lib.preferences c IsSameMap none "{}"
  pub metadata : IsCodec lib.metadata c IsSameMap none "{}"
  pub addresses : IsCodec lib.addresses c IsSameList [] "[]"

-- A column that is not empty is read by the second test.
read_back :
    {A : Type 0} (P : A → Type 0) (x : A) (y z : A × Option Error) (column : String)
    → column ≢ ""
    → P z.0
    → P (if column == "" then x else (if column == "" then y else z).0)
read_back P x y z column full h =
    let differ : (column == "") ≡ false = ground (arith, eq_iff column "") in rw differ h

module _ {T : Type 0} (lib : Libraries T) (c : Columns) where
  -- `u` is the user that comes back for `user`, created at `created`: the same but that there is
  -- always a profile, that an instant is the one that its column keeps, and that a map may have its
  -- entries in another order.
  pub record IsRestored (user : User T) (created : Option ℤ) (u : User T) : Type 0 where
    pub id : u.id ≡ user.id
    pub role : u.role ≡ user.role
    pub create_date : u.create_date ≡ stamp lib created
    pub username : u.username ≡ user.username
    pub email : u.email ≡ user.email
    pub phone : u.phone ≡ user.phone
    pub profile :
        (p : Profile T) × (u.profile ≡ some p)
        × (p.display_name ≡ get_display_name user.profile)
        × (p.bio ≡ get_bio user.profile)
        × (p.avatar_url ≡ get_avatar_url user.profile)
        × (p.date_of_birth ≡ stamp lib (kept_time c (birth_of lib user.profile)))
        × IsSameMap (get_preferences user.profile) p.preferences
    pub tags : u.tags ≡ user.tags
    pub metadata : IsSameMap user.metadata u.metadata
    pub status : u.status ≡ user.status
    pub last_login : u.last_login ≡ stamp lib (kept_time c (time_of lib user.last_login))
    pub addresses : u.addresses ≡ user.addresses

  wrap-ok :
      {A : Type 0} (message : String) (r : Result A) (a : A) → wrap lib message r ≡ ok a → r ≡ ok a
  wrap-ok message (ok b) a h = h
  wrap-ok message (err e) a h = cc

  pub values_of-ok :
      (user : User T) (v : Values)
      → values_of lib user ≡ ok v
      → (p m a : String) × (v ≡ values_with lib user p m a)
        × (serialize_preferences lib (get_preferences user.profile) ≡ ok p)
        × (serialize_metadata lib user.metadata ≡ ok m)
        × (serialize_addresses lib user.addresses ≡ ok a)
  unfolding values_of get_display_name get_bio get_avatar_url
  values_of-ok user v h =
      let (p, rest, hp) = ok->>= _ (wrap lib "failed to serialize preferences: " _) h in
      let (m, rest', hm) = ok->>= _ (wrap lib "failed to serialize metadata: " _) rest in
      let (a, rest'', ha) = ok->>= _ (wrap lib "failed to serialize addresses: " _) rest' in
      (p, m, a, sym (ok_injective _ v rest''), wrap-ok _ _ p hp, wrap-ok _ _ m hm, wrap-ok _ _ a ha)

  module _ (codecs : HasCodecs lib c) where
    -- Each column is read back as it was serialized.
    serialize_preferences_lem :
        (m : Option (List (String × ℤ))) (s : String)
        → serialize_preferences lib m ≡ ok s
        → IsSameMap m
            (if c.jsonb s == "" then none else (deserialize_preferences lib (c.jsonb s) none).0)
    unfolding serialize_preferences deserialize_preferences
    serialize_preferences_lem none s h = rw (← ok_injective "{}" s h) (
        read_back (IsSameMap none) none (some [], none) _ _ codecs.preferences.empty.0
          codecs.preferences.empty.1)
    serialize_preferences_lem (some []) s h = rw (← ok_injective "{}" s h) (
        read_back (IsSameMap none) none (some [], none) _ _ codecs.preferences.empty.0
          codecs.preferences.empty.1)
    serialize_preferences_lem (some (p ∷ m)) s h =
        let (full, same) = codecs.preferences.marshalled (some (p ∷ m)) s h in
        read_back (IsSameMap (some (p ∷ m))) none (some [], none) _ _ full same

    serialize_metadata_lem :
        (m : Option (List (String × String))) (s : String)
        → serialize_metadata lib m ≡ ok s
        → IsSameMap m
            (if c.jsonb s == "" then none else (deserialize_metadata lib (c.jsonb s) none).0)
    unfolding serialize_metadata deserialize_metadata
    serialize_metadata_lem none s h = rw (← ok_injective "{}" s h) (
        read_back (IsSameMap none) none (some [], none) _ _ codecs.metadata.empty.0
          codecs.metadata.empty.1)
    serialize_metadata_lem (some []) s h = rw (← ok_injective "{}" s h) (
        read_back (IsSameMap none) none (some [], none) _ _ codecs.metadata.empty.0
          codecs.metadata.empty.1)
    serialize_metadata_lem (some (p ∷ m)) s h =
        let (full, same) = codecs.metadata.marshalled (some (p ∷ m)) s h in
        read_back (IsSameMap (some (p ∷ m))) none (some [], none) _ _ full same

    serialize_addresses_lem :
        (m : List (Option Address)) (s : String)
        → serialize_addresses lib m ≡ ok s
        → m ≡ (if c.jsonb s == "" then [] else (deserialize_addresses lib (c.jsonb s) []).0)
    unfolding serialize_addresses deserialize_addresses
    serialize_addresses_lem [] s h = rw (← ok_injective "[]" s h) (
        read_back (IsSameList []) [] ([], none) _ _ codecs.addresses.empty.0
          codecs.addresses.empty.1)
    serialize_addresses_lem (p ∷ m) s h =
        let (full, same) = codecs.addresses.marshalled (p ∷ m) s h in
        read_back (IsSameList (p ∷ m)) [] ([], none) _ _ full same

    -- What is serialized comes back.
    pub user_of-IsRestored :
        (user : User T) (v : Values) (created : Option ℤ)
        → values_of lib user ≡ ok v
        → (v.id ≡ user.id) × IsRestored user created (user_of lib (row_of c created v))
    unfolding values_of user_of get_display_name get_bio get_avatar_url get_preferences
    user_of-IsRestored user v created h =
        let (p, m, a, e, hp, hm, ha) = values_of-ok user v h in
        rw e (
          refl,
          record {
            id = refl;
            role = refl;
            create_date = refl;
            username = refl;
            email = refl;
            phone = refl;
            profile = (
              _,
              refl,
              refl,
              refl,
              refl,
              refl,
              serialize_preferences_lem (get_preferences user.profile) p hp,
            );
            tags = refl;
            metadata = serialize_metadata_lem user.metadata m hm;
            status = refl;
            last_login = refl;
            addresses = sym (serialize_addresses_lem user.addresses a ha);
          },
        )

  -- The creation date that a row has after an insertion.
  abbrev pub first_created : User T → Option Row → Option ℤ
  first_created user none = some (c.timestamp (lib.timestamps.as_time user.create_date))
  first_created user (some old) = old.create_date

  pub created_by_lem :
      (user : User T) (p m a : String) (old : Option Row)
      → created_by c (values_with lib user p m a) old ≡ first_created user old
  created_by_lem user p m a none = refl
  created_by_lem user p m a (some old) = refl
