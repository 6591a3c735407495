-- ===== src/Ux/Routes.antt =====
-- ux/main.go: the routes. Every pattern of the program has a method.
pub mod Laws
use grpc_example.Common.{
  String, Bool, true, false, Option, none, some, List, [], ◌∷◌, ◌++◌, map, ◌==◌, string_eq,
  if◌then◌else◌, ◌||◌, not,
}
use grpc_example.Mux.{Segment, literal, wildcard, Pattern, RequestPath, Match, of_method, mux_match}

-- The functions that the routes name.
pub data Endpoint : Type 0 where
  home_page users_page list_users new_user_form create_user get_user edit_user_form : Endpoint
  update_user delete_user filter_by_role : Endpoint

unfoldable pub routes : List (String × Pattern Endpoint)
routes =
    ("GET", ([], true, home_page))
    ∷ ("GET", (literal "users" ∷ [], false, users_page))
    ∷ ("GET", (literal "users" ∷ literal "list" ∷ [], false, list_users))
    ∷ ("GET", (literal "users" ∷ literal "new" ∷ [], false, new_user_form))
    ∷ ("POST", (literal "users" ∷ [], false, create_user))
    ∷ ("GET", (literal "users" ∷ wildcard ∷ [], false, get_user))
    ∷ ("GET", (literal "users" ∷ wildcard ∷ literal "edit" ∷ [], false, edit_user_form))
    ∷ ("PUT", (literal "users" ∷ wildcard ∷ [], false, update_user))
    ∷ ("DELETE", (literal "users" ∷ wildcard ∷ [], false, delete_user))
    ∷ ("GET", (literal "users" ∷ literal "filter" ∷ [], false, filter_by_role))
    ∷ []

pub data Dispatch : Type 0 where
  handled : Endpoint → List String → Dispatch
  method_not_allowed : List String → Dispatch
  not_found : Dispatch

abbrev pub matched : String → RequestPath → Match Endpoint
matched method path = mux_match (of_method method routes) path

-- The methods of the patterns that match the path, for the header `Allow`; GET allows HEAD too.
abbrev pub names_if : Match Endpoint → List String → List String
names_if none names = []
names_if (some m) names = names

abbrev pub allowed_of :
    Match Endpoint → Match Endpoint → Match Endpoint → Match Endpoint → List String
allowed_of by_delete by_get by_post by_put =
    names_if by_delete ("DELETE" ∷ [])
    ++ (names_if by_get ("GET" ∷ "HEAD" ∷ [])
        ++ (names_if by_post ("POST" ∷ []) ++ names_if by_put ("PUT" ∷ [])))

abbrev pub allowed : RequestPath → List String
allowed path =
    allowed_of (matched "DELETE" path) (matched "GET" path) (matched "POST" path)
      (matched "PUT" path)

abbrev pub answered : Match Endpoint → List String → Dispatch
answered (some (endpoint, values)) others = handled endpoint values
answered none [] = not_found
answered none (method ∷ others) = method_not_allowed (method ∷ others)

-- A HEAD request takes the patterns of GET.
unfoldable pub dispatch : String → RequestPath → Dispatch
dispatch method path =
    answered (matched (if method == "HEAD" then "GET" else method) path) (allowed path)
