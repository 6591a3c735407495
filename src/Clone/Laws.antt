-- ===== src/Clone/Laws.antt =====
-- What a clone keeps: everything but the contact fields.
use grpc_example.Common.{
  ℤ, String, Option, none, some, List, [], ◌∷◌, ◌++◌, false, ◌||◌, ◌≡◌, refl, ◌∙◌, ap, arith,
  string_eq, eq_iff,
}
use grpc_example.Common.Assoc.{insert, has, IsMap, insert-IsMap}
use grpc_example.Proto.{Address, Profile, User}
use grpc_example.Clone.{
  copy_entries, clone_map, clone_int_map, clone_address, clone_addresses, clone_profile, clone_user,
}
use mathlib.Core.List.{append-nil, append_assoc}

module _ {ℓ} {V : Type ℓ} where
  -- A map decoded from the wire or made by Go code has each key once.
  abbrev pub IsProperMap : Option (List (String × V)) → Type 0
  IsProperMap none = Unit
  IsProperMap (some m) = IsMap m

  insert-append :
      (k : String) (v : V) (m : List (String × V))
      → has k m ≡ false
      → insert k v m ≡ m ++ (k, v) ∷ []
  unfolding insert has
  insert-append k v [] h = refl
  insert-append k v ((j, w) ∷ m) h = ground (arith, insert-append k v m)

  -- No key of the second list stands in the first.
  abbrev Apart : List (String × V) → List (String × V) → Type 0
  Apart result [] = Unit
  Apart result ((k, v) ∷ m) = (has k result ≡ false) × Apart result m

  has-append : (k : String) (xs ys : List (String × V)) → has k (xs ++ ys) ≡ (has k xs || has k ys)
  unfolding has
  has-append k [] ys = refl
  has-append k ((j, v) ∷ xs) ys = ground (arith, has-append k xs ys)

  Apart-append :
      (result m : List (String × V)) (k : String) (v : V)
      → has k m ≡ false
      → Apart result m
      → Apart (result ++ (k, v) ∷ []) m
  unfolding has
  Apart-append result [] k v h d = tt
  Apart-append result ((j, w) ∷ m) k v h d = (
    ground (arith, has-append j result ((k, v) ∷ []), eq_iff j k, eq_iff k j),
    Apart-append result m k v (ground arith) d.1,
  )

  Apart-nil : (m : List (String × V)) → Apart [] m
  unfolding has
  Apart-nil [] = tt
  Apart-nil ((k, v) ∷ m) = (refl, Apart-nil m)

  copy_entries-append :
      (result m : List (String × V))
      → IsMap m
      → Apart result m
      → copy_entries result m ≡ result ++ m
  unfolding copy_entries
  copy_entries-append result [] h d = rw append-nil
  copy_entries-append result ((k, v) ∷ m) h d = rw (insert-append k v result d.0) (
      copy_entries-append (result ++ (k, v) ∷ []) m h.1 (Apart-append result m k v h.0 d.1)
      ∙ append_assoc result ((k, v) ∷ []) m)

  copy_entries_lem : (m : List (String × V)) → IsMap m → copy_entries [] m ≡ m
  copy_entries_lem m h = copy_entries-append [] m h (Apart-nil m)

clone_map_lem : (m : Option (List (String × String))) → IsProperMap m → clone_map m ≡ m
unfolding clone_map
clone_map_lem none h = refl
clone_map_lem (some m) h = ap some (copy_entries_lem m h)

clone_int_map_lem : (m : Option (List (String × ℤ))) → IsProperMap m → clone_int_map m ≡ m
unfolding clone_int_map
clone_int_map_lem none h = refl
clone_int_map_lem (some m) h = ap some (copy_entries_lem m h)

copy_entries-IsMap {ℓ} :
    {V : Type ℓ} (result m : List (String × V)) → IsMap result → IsMap (copy_entries result m)
unfolding copy_entries
copy_entries-IsMap result [] h = h
copy_entries-IsMap result ((k, v) ∷ m) h =
    copy_entries-IsMap (insert k v result) m (insert-IsMap k v result h)

clone_map-IsProper : (m : Option (List (String × String))) → IsProperMap (clone_map m)
unfolding clone_map
clone_map-IsProper none = tt
clone_map-IsProper (some m) = copy_entries-IsMap [] m tt

clone_int_map-IsProper : (m : Option (List (String × ℤ))) → IsProperMap (clone_int_map m)
unfolding clone_int_map
clone_int_map-IsProper none = tt
clone_int_map-IsProper (some m) = copy_entries-IsMap [] m tt

clone_addresses_lem : (addresses : List (Option Address)) → clone_addresses addresses ≡ addresses
unfolding clone_addresses clone_address
clone_addresses_lem [] = refl
clone_addresses_lem (none ∷ l) = ap (◌∷◌ none) (clone_addresses_lem l)
clone_addresses_lem (some a ∷ l) = ap (◌∷◌ (some a)) (clone_addresses_lem l)

module _ {T : Type 0} where
  abbrev pub IsProperProfile : Option (Profile T) → Type 0
  IsProperProfile none = Unit
  IsProperProfile (some p) = IsProperMap p.preferences

  pub record IsProper (user : User T) : Type 0 where
    pub metadata : IsProperMap user.metadata
    pub profile : IsProperProfile user.profile

  clone_profile-IsProper : (p : Option (Profile T)) → IsProperProfile (clone_profile p)
  unfolding clone_profile
  clone_profile-IsProper none = tt
  clone_profile-IsProper (some p) = clone_int_map-IsProper p.preferences

  clone_profile_lem : (p : Option (Profile T)) → IsProperProfile p → clone_profile p ≡ p
  unfolding clone_profile
  clone_profile_lem none h = refl
  clone_profile_lem (some p) h =
      ap (λ m. some (record p { preferences = m })) (clone_int_map_lem p.preferences h)

  -- Whatever its maps were, a clone has proper ones.
  pub clone_user-IsProper : (user : User T) → IsProper (clone_user user)
  unfolding clone_user
  clone_user-IsProper user = record {
    metadata = clone_map-IsProper user.metadata;
    profile = clone_profile-IsProper user.profile;
  }

  -- What the store keeps of a user.
  abbrev pub without_contact : User T → User T
  without_contact user = record user { email = ""; phone = "" }

  -- The clone of a user whose maps have each key once has every field of the user but two: its
  -- email and its phone are empty.
  pub clone_user_lem : (user : User T) → IsProper user → clone_user user ≡ without_contact user
  unfolding clone_user
  clone_user_lem user h = cc (
    clone_profile_lem user.profile h.profile,
    clone_map_lem user.metadata h.metadata,
    clone_addresses_lem user.addresses,
  )
