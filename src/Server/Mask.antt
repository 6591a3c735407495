-- ===== src/Server/Mask.antt =====
-- What the field mask of `UpdateUser` does: which fields it writes, and when it is refused.
use mathlib.Core.Path.{subst, sym}
use grpc_example.Common.{
  String, Bool, true, ◌||◌, ◌&&◌, Option, none, some, List, [], ◌∷◌, ◌≡◌, refl, arith, any,
  if◌then◌else◌, ◌==◌, string_eq, eq_iff, Bool-cases, inl, inr,
}
use grpc_example.Errors.{ok, is_ok, Result-cases, ok->>=}
use grpc_example.Proto.{User}
use grpc_example.Server.{apply_path, apply_paths, replace_fields, apply_mask}

abbrev pub names : List String → String → Bool
names paths p = any (λ q. q == p) paths

-- The paths that a mask may name.
abbrev pub known : String → Bool
known p =
    p == "role"
    || p == "username"
    || p == "email"
    || p == "phone"
    || p == "profile"
    || p == "tags"
    || p == "metadata"
    || p == "status"
    || p == "last_login"
    || p == "addresses"

abbrev pub all_known : List String → Bool
all_known [] = true
all_known (p ∷ ps) = known p && all_known ps

abbrev pub every_path : List String
every_path =
    "role" ∷ "username" ∷ "email" ∷ "phone" ∷ "profile" ∷ "tags" ∷ "metadata" ∷ "status"
    ∷ "last_login" ∷ "addresses" ∷ []

module _ {T : Type 0} (user : User T) where
  -- The fields named by the paths are the request's, all others are as they were.
  pub record IsMasked (paths : List String) (before after : User T) : Type 0 where
    pub id : after.id ≡ before.id
    pub create_date : after.create_date ≡ before.create_date
    pub role : after.role ≡ (if names paths "role" then user.role else before.role)
    pub username :
        after.username ≡ (if names paths "username" then user.username else before.username)
    pub email : after.email ≡ (if names paths "email" then user.email else before.email)
    pub phone : after.phone ≡ (if names paths "phone" then user.phone else before.phone)
    pub profile : after.profile ≡ (if names paths "profile" then user.profile else before.profile)
    pub tags : after.tags ≡ (if names paths "tags" then user.tags else before.tags)
    pub metadata :
        after.metadata ≡ (if names paths "metadata" then user.metadata else before.metadata)
    pub status : after.status ≡ (if names paths "status" then user.status else before.status)
    pub last_login :
        after.last_login ≡ (if names paths "last_login" then user.last_login else before.last_login)
    pub addresses :
        after.addresses ≡ (if names paths "addresses" then user.addresses else before.addresses)

  abbrev Masks : String → Type 0
  Masks p =
      (before after : User T) → apply_path user before p ≡ ok after → IsMasked (p ∷ []) before after

  known-cases :
      (P : String → Type 0)
      → P "role"
      → P "username"
      → P "email"
      → P "phone"
      → P "profile"
      → P "tags"
      → P "metadata"
      → P "status"
      → P "last_login"
      → P "addresses"
      → (p : String) → known p ≡ true
      → P p
  known-cases P a b c d e f g h i j p k = elim (Bool-cases (p == "role")) [
    | inl e' ↦ subst P (sym ((eq_iff p "role").0 e')) a
    | inr a' ↦ elim (Bool-cases (p == "username")) [
      | inl e' ↦ subst P (sym ((eq_iff p "username").0 e')) b
      | inr b' ↦ elim (Bool-cases (p == "email")) [
        | inl e' ↦ subst P (sym ((eq_iff p "email").0 e')) c
        | inr c' ↦ elim (Bool-cases (p == "phone")) [
          | inl e' ↦ subst P (sym ((eq_iff p "phone").0 e')) d
          | inr d' ↦ elim (Bool-cases (p == "profile")) [
            | inl e' ↦ subst P (sym ((eq_iff p "profile").0 e')) e
            | inr e' ↦ elim (Bool-cases (p == "tags")) [
              | inl e' ↦ subst P (sym ((eq_iff p "tags").0 e')) f
              | inr f' ↦ elim (Bool-cases (p == "metadata")) [
                | inl e' ↦ subst P (sym ((eq_iff p "metadata").0 e')) g
                | inr g' ↦ elim (Bool-cases (p == "status")) [
                  | inl e' ↦ subst P (sym ((eq_iff p "status").0 e')) h
                  | inr h' ↦ elim (Bool-cases (p == "last_login")) [
                    | inl e' ↦ subst P (sym ((eq_iff p "last_login").0 e')) i
                    | inr i' ↦ elim (Bool-cases (p == "addresses")) [
                      | inl e' ↦ subst P (sym ((eq_iff p "addresses").0 e')) j
                      | inr j' ↦ absurd (ground arith)
                    ]
                  ]
                ]
              ]
            ]
          ]
        ]
      ]
    ]
  ]

  apply_path-known :
      (before after : User T) (p : String) → apply_path user before p ≡ ok after → known p ≡ true
  unfolding apply_path
  apply_path-known before after p h = ground arith

  Masks-role : Masks "role"
  unfolding apply_path
  Masks-role before after h = ground arith

  Masks-username : Masks "username"
  unfolding apply_path
  Masks-username before after h = ground arith

  Masks-email : Masks "email"
  unfolding apply_path
  Masks-email before after h = ground arith

  Masks-phone : Masks "phone"
  unfolding apply_path
  Masks-phone before after h = ground arith

  Masks-profile : Masks "profile"
  unfolding apply_path
  Masks-profile before after h = ground arith

  Masks-tags : Masks "tags"
  unfolding apply_path
  Masks-tags before after h = ground arith

  Masks-metadata : Masks "metadata"
  unfolding apply_path
  Masks-metadata before after h = ground arith

  Masks-status : Masks "status"
  unfolding apply_path
  Masks-status before after h = ground arith

  Masks-last_login : Masks "last_login"
  unfolding apply_path
  Masks-last_login before after h = ground arith

  Masks-addresses : Masks "addresses"
  unfolding apply_path
  Masks-addresses before after h = ground arith

  apply_path-IsMasked :
      (before after : User T) (p : String)
      → apply_path user before p ≡ ok after
      → IsMasked (p ∷ []) before after
  apply_path-IsMasked before after p h =
      known-cases Masks Masks-role Masks-username Masks-email Masks-phone Masks-profile Masks-tags
        Masks-metadata Masks-status Masks-last_login Masks-addresses p
        (apply_path-known before after p h) before after h

  IsMasked-cons :
      (before next after : User T) (p : String) (ps : List String)
      → IsMasked (p ∷ []) before next
      → IsMasked ps next after
      → IsMasked (p ∷ ps) before after
  IsMasked-cons before next after p ps a b = ground arith

  apply_paths-IsMasked :
      (before after : User T) (ps : List String)
      → apply_paths user before ps ≡ ok after
      → IsMasked ps before after
  unfolding apply_paths
  apply_paths-IsMasked before after [] h = ground arith
  apply_paths-IsMasked before after (p ∷ ps) h =
      let (next, rest, first) = ok->>= (λ n. apply_paths user n ps) (apply_path user before p) h in
      IsMasked-cons before next after p ps (apply_path-IsMasked before next p first)
        (apply_paths-IsMasked next after ps rest)

  -- When a mask names at least one path and is accepted, the user that comes out has the request's
  -- value in each field that the mask names, and the stored value in all others; the id and the
  -- creation date are always the stored ones.
  pub apply_mask-IsMasked :
      (before after : User T) (p : String) (ps : List String)
      → apply_mask user before (some (p ∷ ps)) ≡ ok after
      → IsMasked (p ∷ ps) before after
  unfolding apply_mask
  apply_mask-IsMasked before after p ps h = apply_paths-IsMasked before after (p ∷ ps) h

  is_ok-apply_path : (before : User T) (p : String) → is_ok (apply_path user before p) ≡ known p
  unfolding apply_path
  is_ok-apply_path before p = elim (Bool-cases (known p)) [
    | inl k ↦ rw k (
        known-cases (λ q. is_ok (apply_path user before q) ≡ true) refl refl refl refl refl refl
          refl refl refl refl p k)
    | inr unknown ↦ elim (Result-cases (apply_path user before p)) [
      | inl (after, e) ↦ cc (apply_path-known before after p e)
      | inr (_, e) ↦ rw (e, unknown) refl
    ]
  ]

  is_ok-apply_paths :
      (before : User T) (ps : List String) → is_ok (apply_paths user before ps) ≡ all_known ps
  unfolding apply_paths
  is_ok-apply_paths before [] = refl
  is_ok-apply_paths before (p ∷ ps) = elim (Result-cases (apply_path user before p)) [
    | inl (next, e) ↦ ground (arith, is_ok-apply_path before p, is_ok-apply_paths next ps)
    | inr (e, e') ↦ ground (arith, is_ok-apply_path before p)
  ]

  -- A mask is accepted exactly if all the paths that it names are among the ten known ones, so an
  -- empty mask is accepted.
  is_ok-apply_mask :
      (before : User T) (ps : List String) → is_ok (apply_mask user before (some ps)) ≡ all_known ps
  unfolding apply_mask
  is_ok-apply_mask before [] = refl
  is_ok-apply_mask before (p ∷ ps) = is_ok-apply_paths before (p ∷ ps)

  -- A mask of the ten paths does what no mask and an empty mask do.
  apply_mask-every_path :
      (before : User T)
      → (apply_mask user before (some every_path) ≡ apply_mask user before none)
        × (apply_mask user before (some []) ≡ apply_mask user before none)
  unfolding apply_mask apply_paths apply_path replace_fields
  apply_mask-every_path before = (refl, refl)

  -- No mask moves a user to another id.
  pub id-apply_mask :
      (before after : User T) (mask : Option (List String))
      → apply_mask user before mask ≡ ok after
      → after.id ≡ before.id
  unfolding apply_mask replace_fields
  id-apply_mask before after none h = ground arith
  id-apply_mask before after (some []) h = ground arith
  id-apply_mask before after (some (p ∷ ps)) h = (apply_paths-IsMasked before after (p ∷ ps) h).id
