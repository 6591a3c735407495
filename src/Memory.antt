-- ===== src/Memory.antt =====
-- server/memory_storage.go: the in-memory backend, a map from ids to users. The lock makes each
-- method one step, so a method is a function of the map. Go leaves the order of `range` over a map
-- open: the order that a call sees is the argument `visit`.
pub mod Laws
pub mod Spec
pub mod Listing
pub mod Locks
use grpc_example.Common.{
  ℕ, zero, suc, ◌+◌, ◌-◌, ◌^◌, ℤ, pos, negsuc, scale, ltb_ℤ, leb_ℤ, ◌-ℤ◌, Bool, true, false, not,
  ◌||◌, Option, none, some, List, [], ◌∷◌, length, if◌then◌else◌, ◌==◌, int_eq, nat_eq,
}
use grpc_example.Common.Assoc.{lookup, insert, delete, has}
use grpc_example.Errors.{Result, ok, err, status, already_exists, not_found}
use grpc_example.Proto.{Role, UserStatus, inactive, active, User, Timestamps}
use grpc_example.Storage.{ListFilter, Storage}
use grpc_example.Clone.{clone_user}

-- `time.Unix(s, 0)`, in nanoseconds.
abbrev pub unix : ℤ → ℤ
unix s = scale (10 ^ 9) s

abbrev pub min_duration : ℤ
min_duration = negsuc (2 ^ 63 - 1)

abbrev pub max_duration : ℤ
max_duration = pos (2 ^ 63 - 1)

-- `time.Since(t)` at the reading `now`: a Duration is an int64, and the difference saturates.
unfoldable pub since : ℤ → ℤ → ℤ
since now t =
    let d = now -ℤ t in
    if ltb_ℤ max_duration d then max_duration else if ltb_ℤ d min_duration then min_duration else d

-- The three tests of the filter, each true where the loop says `continue`.
abbrev created_before : ℤ → Option ℤ → Bool
created_before created none = false
created_before created (some s) = ltb_ℤ created (unix s)

abbrev not_older : ℤ → ℤ → ℤ → Option ℤ → Bool
not_older now₁ now₂ created none = false
not_older now₁ now₂ created (some o) = leb_ℤ (since now₁ created) (since now₂ (unix o))

abbrev other_status : UserStatus → Option UserStatus → Bool
other_status s none = false
other_status s (some wanted) = not (s == wanted)

pub record MemoryStorage (T : Type 0) : Type 0 where
  pub users : List (ℕ × User T)

abbrev pub new_memory_storage : {T : Type 0} → MemoryStorage T
new_memory_storage = record { users = [] }

module _ {T : Type 0} (ts : Timestamps T) where
  abbrev date_or_now : ℤ → Option T → Option T
  date_or_now now none = some (ts.make now)
  date_or_now now (some t) = some t

  -- What `AddUser` fills in before it stores the user.
  abbrev pub with_defaults : ℤ → User T → User T
  with_defaults now user = record user {
    create_date = date_or_now now user.create_date;
    status = if user.status == inactive then active else user.status;
  }

  unfoldable pub add_user : ℤ → User T → MemoryStorage T → Result (Unit {0}) × MemoryStorage T
  add_user now user m =
      if has user.id m.users
      then (err (status already_exists "user already exists"), m)
      else (ok tt, record { users = insert user.id (clone_user (with_defaults now user)) m.users })

module _ {T : Type 0} where
  unfoldable pub get_user : ℕ → MemoryStorage T → Result (User T)
  get_user id m = elim (lookup id m.users) [
    | none ↦ err (status not_found "user not found")
    | some user ↦ ok (clone_user user)
  ]

  unfoldable pub update_user : User T → MemoryStorage T → Result (Unit {0}) × MemoryStorage T
  update_user user m =
      if has user.id m.users
      then (ok tt, record { users = insert user.id (clone_user user) m.users })
      else (err (status not_found "user not found"), m)

  unfoldable pub delete_user : ℕ → MemoryStorage T → Result (Unit {0}) × MemoryStorage T
  delete_user id m =
      if has id m.users
      then (ok tt, record { users = delete id m.users })
      else (err (status not_found "user not found"), m)

  unfoldable pub user_exists : ℕ → MemoryStorage T → Result Bool
  user_exists id m = ok (has id m.users)

  unfoldable pub count : MemoryStorage T → Result ℕ
  count m = ok (length m.users)

module _ {T : Type 0} (ts : Timestamps T) (clock : ℕ → ℤ) where
  -- The body of the loop's tests at the clock's reading `i`.
  abbrev pub skips : ℕ → Option ListFilter → User T → Bool
  skips i none user = false
  skips i (some f) user =
      created_before (ts.as_time user.create_date) f.created_since
      || not_older (clock i) (clock (suc i)) (ts.as_time user.create_date) f.older_than
      || other_status user.status f.status

  -- The test for age reads the clock twice, if the loop gets there.
  abbrev readings : Option ℤ → ℕ
  readings none = 0
  readings (some o) = 2

  abbrev next_reading : ℕ → Option ListFilter → User T → ℕ
  next_reading i none user = i
  next_reading i (some f) user =
      if created_before (ts.as_time user.create_date) f.created_since
      then i
      else i + readings f.older_than

  unfoldable pub list_from : ℕ → Option ListFilter → List (ℕ × User T) → List (User T)
  list_from i filter [] = []
  list_from i filter ((id, user) ∷ rest) =
      let later = list_from (next_reading i filter user) filter rest in
      if skips i filter user then later else clone_user user ∷ later

module _ {T : Type 0} (visit : List (ℕ × User T) → List (ℕ × User T)) where
  unfoldable pub list_users :
      Timestamps T → (ℕ → ℤ) → Option ListFilter → MemoryStorage T → Result (List (User T))
  unfolding list_from
  list_users ts clock filter m = ok (list_from ts clock 0 filter (visit m.users))

  unfoldable pub by_role_from : Role → List (ℕ × User T) → List (User T)
  by_role_from role [] = []
  by_role_from role ((id, user) ∷ rest) =
      let later = by_role_from role rest in
      if user.role == role then clone_user user ∷ later else later

  unfoldable pub list_users_by_role : Role → MemoryStorage T → Result (List (User T))
  unfolding by_role_from
  list_users_by_role role m = ok (by_role_from role (visit m.users))

-- `var _ Storage = (*MemoryStorage)(nil)`
abbrev pub memory_backend :
    {T : Type 0}
    → Timestamps T
    → (List (ℕ × User T) → List (ℕ × User T))
    → Storage T (MemoryStorage T)
memory_backend ts visit = record {
  add_user = add_user ts;
  get_user = get_user;
  update_user = update_user;
  delete_user = delete_user;
  list_users = list_users visit ts;
  list_users_by_role = list_users_by_role visit;
  user_exists = user_exists;
  count = count;
}
