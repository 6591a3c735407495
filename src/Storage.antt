-- ===== src/Storage.antt =====
-- server/storage.go: the interface between the service and a storage backend. A method takes the
-- backend's state and returns the new one beside its result; the clock is an argument, one
-- reading for `AddUser` and the sequence of readings for `ListUsers`. The context is left out.
use grpc_example.Common.{ℕ, String, ℤ, Bool, Option, List}
use grpc_example.Errors.{Result}
use grpc_example.Proto.{Role, UserStatus, User}

pub record ListFilter : Type 0 where
  pub created_since : Option ℤ
  pub older_than : Option ℤ
  pub status : Option UserStatus
  pub page_size : ℤ
  pub page_token : String

pub record Storage (T S : Type 0) : Type 0 where
  pub add_user : ℤ → User T → S → Result (Unit {0}) × S
  pub get_user : ℕ → S → Result (User T)
  pub update_user : User T → S → Result (Unit {0}) × S
  pub delete_user : ℕ → S → Result (Unit {0}) × S
  pub list_users : (ℕ → ℤ) → Option ListFilter → S → Result (List (User T))
  pub list_users_by_role : Role → S → Result (List (User T))
  pub user_exists : ℕ → S → Result Bool
  pub count : S → Result ℕ
