-- ===== src/Clone.antt =====
-- server/memory_storage.go: `cloneUser` and the copies below it. A clone is a value here, so what is
-- left of it is which fields are copied.
pub mod Laws
use grpc_example.Common.{ℕ, String, ℤ, Option, none, some, List, [], ◌∷◌, ◌++◌, map, string_eq}
use grpc_example.Common.Assoc.{insert}
use grpc_example.Proto.{Address, Profile, User}

-- `cloneMap` and `cloneIntMap`: every entry is written to a new map.
copy_entries {ℓ} : {V : Type ℓ} → List (String × V) → List (String × V) → List (String × V)
copy_entries result [] = result
copy_entries result ((k, v) ∷ m) = copy_entries (insert k v result) m

pub clone_map : Option (List (String × String)) → Option (List (String × String))
clone_map none = none
clone_map (some m) = some (copy_entries [] m)

pub clone_int_map : Option (List (String × ℤ)) → Option (List (String × ℤ))
clone_int_map none = none
clone_int_map (some m) = some (copy_entries [] m)

clone_address : Option Address → Option Address
clone_address none = none
clone_address (some addr) = some (record {
  type = addr.type;
  street = addr.street;
  city = addr.city;
  state = addr.state;
  postal_code = addr.postal_code;
  country = addr.country;
  is_primary = addr.is_primary;
})

pub clone_addresses : List (Option Address) → List (Option Address)
clone_addresses addresses = map clone_address addresses

module _ {T : Type 0} where
  pub clone_profile : Option (Profile T) → Option (Profile T)
  clone_profile none = none
  clone_profile (some profile) = some (record {
    display_name = profile.display_name;
    bio = profile.bio;
    avatar_url = profile.avatar_url;
    date_of_birth = profile.date_of_birth;
    preferences = clone_int_map profile.preferences;
  })

  -- The literal in the source names neither `Email` nor `Phone`.
  unfoldable pub clone_user : User T → User T
  unfolding clone_profile clone_map clone_addresses clone_int_map clone_address copy_entries
  clone_user user = record {
    id = user.id;
    role = user.role;
    create_date = user.create_date;
    username = user.username;
    email = "";
    phone = "";
    profile = clone_profile user.profile;
    tags = [] ++ user.tags;
    metadata = clone_map user.metadata;
    status = user.status;
    last_login = user.last_login;
    addresses = clone_addresses user.addresses;
  }
