-- ===== src/Ux.antt =====
-- ux/handlers/handlers.go: the names that the forms' numbers stand for.
pub mod Http
pub mod Handlers
pub mod Routes
pub mod Program
pub mod Answers
use grpc_example.Common.{
  String, ℤ, pos, Option, none, some, ◌≡◌, ◌==◌, int_eq, if◌then◌else◌, arith,
}
use grpc_example.Common.Assoc.{lookup}
use grpc_example.Proto.{role_names, status_names}

unfoldable pub int_to_role : ℤ → String
int_to_role role =
    if role == pos 0
    then "GUEST"
    else if role == pos 1
    then "MEMBER"
    else if role == pos 2
    then "ADMIN"
    else if role == pos 3
    then "MODERATOR"
    else "GUEST"

unfoldable pub int_to_status : ℤ → String
int_to_status status =
    if status == pos 0
    then "INACTIVE"
    else if status == pos 1
    then "ACTIVE"
    else if status == pos 2
    then "SUSPENDED"
    else if status == pos 3
    then "DELETED"
    else "INACTIVE"

-- The name under a number, or the default.
abbrev pub name_or : String → Option String → String
name_or def none = def
name_or def (some name) = name

-- The names are those of the generated tables, and those of the zero values for other numbers.
int_to_role_lem :
    (n : ℤ)
    → (int_to_role n ≡ name_or "GUEST" (lookup n role_names))
      × (int_to_status n ≡ name_or "INACTIVE" (lookup n status_names))
unfolding int_to_role int_to_status role_names status_names lookup
int_to_role_lem n = (ground arith, ground arith)
