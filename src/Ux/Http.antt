-- ===== src/Ux/Http.antt =====
-- ux/handlers/handlers.go: what the handlers call of other code. The package ux/client is not in the
-- repository: it, net/http, html/template and strconv are parameters.
use grpc_example.Common.{ℕ, String, ℤ, Option, List}
use grpc_example.Errors.{Error, Result}

-- The fields that the handlers set of a new `client.User`, with `Profile`'s two.
pub record NewUser : Type 0 where
  pub id : ℕ
  pub username : String
  pub email : String
  pub phone : String
  pub role : String
  pub status : String
  pub profile : Option (String × String)

-- `U` is `client.User`, with the fields that the handlers read and write, and `S` is the state behind
-- the gateway. `parse_uint` and `parse_int` are `strconv.ParseUint(s, 10, 32)` and `ParseInt(s, 10, 32)`,
-- which give a number beside an error too.
pub record Libraries (U S : Type 0) : Type 0 where
  pub make : NewUser → U
  pub role : U → String
  pub status : U → String
  pub with_role_int : ℤ → U → U
  pub with_status_int : ℤ → U → U
  pub role_to_int : String → ℤ
  pub status_to_int : String → ℤ
  pub list_users : S → Result (List U) × S
  pub list_users_by_role : ℤ → S → Result (List U) × S
  pub get_user : ℕ → S → Result U × S
  pub create_user : U → S → Option Error × S
  pub update_user : U → List String → S → Result U × S
  pub delete_user : ℕ → S → Option Error × S
  pub parse_uint : String → ℕ × Option Error
  pub parse_int : String → ℤ × Option Error
  pub error_text : Error → String

-- What a template is given.
pub data Page (U : Type 0) : Type 0 where
  titled : String → Page U
  users : List U → Page U
  user : U → Page U
  blank : Page U

-- What a handler does with its `ResponseWriter`, in order. `rendered` is `ExecuteTemplate`.
pub data Effect (U : Type 0) : Type 0 where
  http_error : String → ℕ → Effect U
  write_header : ℕ → Effect U
  write : String → Effect U
  set_header : String → String → Effect U
  add_header : String → String → Effect U
  rendered : String → Page U → Effect U

-- `parse_form` is the error of `ParseForm`, and `form_value` reads what was parsed.
pub record Request : Type 0 where
  pub id : String
  pub parse_form : Option Error
  pub form_value : String → String
  pub query_role : String
