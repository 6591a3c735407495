-- ===== src/Proto.antt =====
-- proto/pkg/example.pb.go: the messages that the service exchanges, as the generated Go structs.
-- An open enumeration is its int32, a uint32 is a number, a nil pointer or a nil map is `none`,
-- and a nil slice is the empty one. `T` is the `timestamppb.Timestamp` message of the protobuf
-- runtime; what the program asks of it is the record `Timestamps`.
pub mod Getters
use grpc_example.Common.{ℕ, String, ℤ, pos, Bool, Option, none, some, List, [], ◌∷◌}

-- enum Role
abbrev pub Role : Type 0
Role = ℤ

abbrev pub guest : Role
guest = pos 0

abbrev pub member : Role
member = pos 1

abbrev pub admin : Role
admin = pos 2

abbrev pub moderator : Role
moderator = pos 3

-- enum UserStatus
abbrev pub UserStatus : Type 0
UserStatus = ℤ

abbrev pub inactive : UserStatus
inactive = pos 0

abbrev pub active : UserStatus
active = pos 1

abbrev pub suspended : UserStatus
suspended = pos 2

abbrev pub deleted : UserStatus
deleted = pos 3

-- The value of `UserActivity_ActivityType` that the server tests for.
abbrev pub login : ℤ
login = pos 0

-- enum SyncUserResponse_SyncStatus
abbrev pub SyncStatus : Type 0
SyncStatus = ℤ

abbrev pub success : SyncStatus
success = pos 0

abbrev pub failed : SyncStatus
failed = pos 1

abbrev pub partial : SyncStatus
partial = pos 2

-- `Role_name`
unfoldable pub role_names : List (ℤ × String)
role_names = (pos 0, "GUEST") ∷ (pos 1, "MEMBER") ∷ (pos 2, "ADMIN") ∷ (pos 3, "MODERATOR") ∷ []

-- `UserStatus_name`
unfoldable pub status_names : List (ℤ × String)
status_names =
    (pos 0, "INACTIVE") ∷ (pos 1, "ACTIVE") ∷ (pos 2, "SUSPENDED") ∷ (pos 3, "DELETED") ∷ []

pub record Address : Type 0 where
  pub type : ℤ
  pub street : String
  pub city : String
  pub state : String
  pub postal_code : String
  pub country : String
  pub is_primary : Bool

pub record Profile (T : Type 0) : Type 0 where
  pub display_name : String
  pub bio : String
  pub avatar_url : String
  pub date_of_birth : Option T
  pub preferences : Option (List (String × ℤ))

pub record User (T : Type 0) : Type 0 where
  pub id : ℕ
  pub role : Role
  pub create_date : Option T
  pub username : String
  pub email : String
  pub phone : String
  pub profile : Option (Profile T)
  pub tags : List String
  pub metadata : Option (List (String × String))
  pub status : UserStatus
  pub last_login : Option T
  pub addresses : List (Option Address)

-- `update_mask` is the list of paths of the `fieldmaskpb.FieldMask`, if there is one.
pub record UpdateUserRequest (T : Type 0) : Type 0 where
  pub user : Option (User T)
  pub update_mask : Option (List String)

-- `D` is the `durationpb.Duration` message.
pub record ListUsersRequest (T D : Type 0) : Type 0 where
  pub created_since : Option T
  pub older_than : Option D
  pub status : UserStatus
  pub page_size : ℤ
  pub page_token : String

pub record BatchAddUsersResponse (T : Type 0) : Type 0 where
  pub total_received : ℕ
  pub total_added : ℕ
  pub total_failed : ℕ
  pub errors : List String
  pub processed_at : Option T

pub record UserActivity (T : Type 0) : Type 0 where
  pub user_id : ℕ
  pub activity_type : ℤ
  pub timestamp : Option T
  pub details : Option (List (String × String))

pub record UserActivityResponse (T : Type 0) : Type 0 where
  pub user_id : ℕ
  pub acknowledged : Bool
  pub message : String
  pub processed_at : Option T

pub record SyncUserResponse : Type 0 where
  pub user_id : ℕ
  pub status : SyncStatus
  pub error_message : String
  pub updated_fields : List String

-- The protobuf runtime, as far as the program calls it. An instant is its nanoseconds since the
-- Unix epoch. `make` is `timestamppb.New`, `as_time` is `AsTime`, which takes a nil message too.
pub record Timestamps (T : Type 0) : Type 0 where
  pub make : ℤ → T
  pub as_time : Option T → ℤ
