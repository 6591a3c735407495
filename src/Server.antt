-- ===== src/Server.antt =====
-- server/server.go: the handlers of the UserService over any storage backend `st` with states `S`.
-- A unary handler returns its reply or its error beside the backend's new state. A clock reading
-- that a handler makes is its argument `now`. The contexts are left out.
pub mod Streams
pub mod Mask
pub mod Batch
pub mod Requests
pub mod Admins
pub mod Sync
pub mod Activity
use grpc_example.Common.{
  ℕ, ◌/◌, ◌^◌, suc, ◌-◌, String, ℤ, pos, negsuc, ◌-ℤ◌, Bool, true, false, not, ◌&&◌, ◌||◌, Option,
  none, some, List, [], ◌∷◌, if◌then◌else◌, ◌==◌, nat_eq, string_eq, int_eq, ◌<>◌,
}
use grpc_example.Errors.{Error, Result, ok, err, status, internal, invalid_argument, ◌>>=◌}
use grpc_example.Proto.{admin, inactive, User, UpdateUserRequest, ListUsersRequest, Timestamps}
use grpc_example.Storage.{ListFilter, Storage}

-- What the handlers ask of the runtime: the timestamps, the length of a `durationpb.Duration` in
-- nanoseconds, the text of an error, and the names of the enumerations' values.
pub record Runtime (T D : Type 0) : Type 0 where
  pub timestamps : Timestamps T
  pub as_duration : D → ℤ
  pub error_text : Error → String
  pub role_text : ℤ → String
  pub activity_text : ℤ → String

-- `t.Unix()`: whole seconds, rounded down.
abbrev pub unix_seconds : ℤ → ℤ
unix_seconds (pos n) = pos (n / 10 ^ 9)
unix_seconds (negsuc n) = negsuc (n / 10 ^ 9)

module _ {T : Type 0} where
  -- One turn of the loop over the paths of the mask: `user` is the request's.
  unfoldable pub apply_path : User T → User T → String → Result (User T)
  apply_path user existing path =
      if path == "id"
      then err (status invalid_argument "cannot update id field")
      else if path == "role"
      then ok (record existing { role = user.role })
      else if path == "username"
      then ok (record existing { username = user.username })
      else if path == "email"
      then ok (record existing { email = user.email })
      else if path == "phone"
      then ok (record existing { phone = user.phone })
      else if path == "profile"
      then ok (record existing { profile = user.profile })
      else if path == "tags"
      then ok (record existing { tags = user.tags })
      else if path == "metadata"
      then ok (record existing { metadata = user.metadata })
      else if path == "status"
      then ok (record existing { status = user.status })
      else if path == "last_login"
      then ok (record existing { last_login = user.last_login })
      else if path == "addresses"
      then ok (record existing { addresses = user.addresses })
      else err (status invalid_argument ("invalid field path: " <> path))

  unfoldable pub apply_paths : User T → User T → List String → Result (User T)
  apply_paths user existing [] = ok existing
  apply_paths user existing (path ∷ paths) =
      apply_path user existing path >>= λ next. apply_paths user next paths

  -- Without a mask: all fields but the id and the creation date.
  unfoldable pub replace_fields : User T → User T → User T
  replace_fields user existing = record existing {
    role = user.role;
    username = user.username;
    email = user.email;
    phone = user.phone;
    profile = user.profile;
    tags = user.tags;
    metadata = user.metadata;
    status = user.status;
    last_login = user.last_login;
    addresses = user.addresses;
  }

  unfoldable pub apply_mask : User T → User T → Option (List String) → Result (User T)
  apply_mask user existing none = ok (replace_fields user existing)
  apply_mask user existing (some []) = ok (replace_fields user existing)
  apply_mask user existing (some (path ∷ paths)) = apply_paths user existing (path ∷ paths)

module _ {T S : Type 0} (st : Storage T S) where
  unfoldable pub add_user : ℤ → User T → S → Result (Unit {0}) × S
  add_user now user s = elim (st.count s) [
    | err _ ↦ (err (status internal "failed to check user count"), s)
    | ok count ↦
        if (count == 0) && not (user.role == admin)
        then (err (status invalid_argument "first user created must be an admin"), s)
        else if user.id == 0
        then (err (status invalid_argument "user ID must be greater than 0"), s)
        else if user.username == ""
        then (err (status invalid_argument "username is required"), s)
        else st.add_user now user s
  ]

  unfoldable pub get_user : ℕ → S → Result (User T)
  get_user id s =
      if id == 0
      then err (status invalid_argument "user ID must be greater than 0")
      else st.get_user id s

  -- The reply is the user as updated, whatever the backend keeps of it.
  unfoldable pub store_update : User T → Result (Unit {0}) × S → Result (User T) × S
  store_update existing (ok _, s) = (ok existing, s)
  store_update existing (err e, s) = (err e, s)

  unfoldable pub update_existing : User T → Option (List String) → S → Result (User T) × S
  unfolding store_update
  update_existing user mask s = elim (st.get_user user.id s) [
    | err e ↦ (err e, s)
    | ok existing ↦ elim (apply_mask user existing mask) [
      | err e ↦ (err e, s)
      | ok updated ↦ store_update updated (st.update_user updated s)
    ]
  ]

  unfoldable pub update_user : UpdateUserRequest T → S → Result (User T) × S
  unfolding update_existing
  update_user req s = elim req.user [
    | none ↦ (err (status invalid_argument "user is required"), s)
    | some user ↦
        if user.id == 0
        then (err (status invalid_argument "user ID must be greater than 0"), s)
        else update_existing user req.update_mask s
  ]

  unfoldable pub delete_user : ℕ → S → Result (Unit {0}) × S
  delete_user id s =
      if id == 0
      then (err (status invalid_argument "user ID must be greater than 0"), s)
      else st.delete_user id s

-- The filter that `ListUsers` makes of the request; `now` is read if there is a duration.
unfoldable pub filter_of : {T D : Type 0} → Runtime T D → ℤ → ListUsersRequest T D → ListFilter
filter_of rt now req = record {
  created_since = elim req.created_since [
    | none ↦ none
    | some t ↦ some (unix_seconds (rt.timestamps.as_time (some t)))
  ];
  older_than = elim req.older_than [
    | none ↦ none
    | some d ↦ some (unix_seconds (now -ℤ rt.as_duration d))
  ];
  status =
      if not (req.status == inactive) || not (req.status == pos 0) then some req.status else none;
  page_size = req.page_size;
  page_token = req.page_token;
}
