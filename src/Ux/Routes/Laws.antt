-- ===== src/Ux/Routes/Laws.antt =====
-- ux/main.go: which function serves which request.
use mathlib.Core.Path.{subst, ap₂}
use grpc_example.Common.{
  String, true, false, none, some, List, [], ◌∷◌, ◌≡◌, ◌≢◌, refl, ◌==◌, string_eq, if◌then◌else◌,
  not, arith, ap, ◌∙◌, inl, inr, Bool-cases, eq_iff,
}
use grpc_example.Mux.{RequestPath, of_method, mux_match, Match, mux_match-empty}
use grpc_example.Ux.Routes.{
  Endpoint, home_page, users_page, list_users, new_user_form, create_user, get_user, edit_user_form,
  update_user, delete_user, filter_by_role, routes, matched, allowed_of, allowed, Dispatch, handled,
  method_not_allowed, dispatch, answered,
}

-- What serves a GET: `/users` and what is below it by name or by id, and the home page else.
abbrev pub get_target : RequestPath → Endpoint × List String
get_target (a ∷ [], false) = if a == "users" then (users_page, []) else (home_page, [])
get_target (a ∷ b ∷ [], false) =
    if not (a == "users")
    then (home_page, [])
    else if b == "list"
    then (list_users, [])
    else if b == "new"
    then (new_user_form, [])
    else if b == "filter"
    then (filter_by_role, [])
    else (get_user, b ∷ [])
get_target (a ∷ b ∷ c ∷ [], false) =
    if a == "users"
    then if c == "edit" then (edit_user_form, b ∷ []) else (home_page, [])
    else (home_page, [])
get_target path = (home_page, [])

-- A request's path is `/` or has segments.
abbrev pub IsPath : RequestPath → Type 0
IsPath ([], false) = ⊥
IsPath path = Unit

matched-get : (path : RequestPath) → IsPath path → matched "GET" path ≡ some (get_target path)
unfolding routes of_method mux_match
matched-get ([], false) h = absurd h
matched-get ([], true) h = ground arith
matched-get (a ∷ [], false) h = ground arith
matched-get (a ∷ [], true) h = ground arith
matched-get (a ∷ b ∷ [], false) h = ground arith
matched-get (a ∷ b ∷ [], true) h = ground arith
matched-get (a ∷ b ∷ c ∷ [], false) h = ground arith
matched-get (a ∷ b ∷ c ∷ [], true) h = ground arith
matched-get (a ∷ b ∷ c ∷ d ∷ rest, slash) h =
    ground (arith, mux_match-empty {E = Endpoint} rest slash)

-- What serves the other methods: `/users` for the first, and `/users/{id}` for the others.
abbrev pub users_target : Endpoint → RequestPath → Match Endpoint
users_target endpoint (a ∷ [], false) = if a == "users" then some (endpoint, []) else none
users_target endpoint path = none

abbrev pub user_target : Endpoint → RequestPath → Match Endpoint
user_target endpoint (a ∷ b ∷ [], false) = if a == "users" then some (endpoint, b ∷ []) else none
user_target endpoint path = none

abbrev pub target : String → RequestPath → Match Endpoint
target method path =
    if "GET" == method
    then some (get_target path)
    else if "POST" == method
    then users_target create_user path
    else if "PUT" == method
    then user_target update_user path
    else if "DELETE" == method
    then user_target delete_user path
    else none

matched-post : (path : RequestPath) → matched "POST" path ≡ users_target create_user path
unfolding routes of_method mux_match
matched-post ([], true) = refl
matched-post ([], false) = refl
matched-post (a ∷ [], false) = ground arith
matched-post (a ∷ [], true) = ground arith
matched-post (a ∷ b ∷ rest, slash) = ground (arith, mux_match-empty {E = Endpoint} rest slash)

matched-put : (path : RequestPath) → matched "PUT" path ≡ user_target update_user path
unfolding routes of_method mux_match
matched-put ([], true) = refl
matched-put ([], false) = refl
matched-put (a ∷ [], true) = ground arith
matched-put (a ∷ [], false) = ground arith
matched-put (a ∷ b ∷ [], false) = ground arith
matched-put (a ∷ b ∷ [], true) = ground arith
matched-put (a ∷ b ∷ c ∷ rest, slash) = ground (arith, mux_match-empty {E = Endpoint} rest slash)

matched-delete : (path : RequestPath) → matched "DELETE" path ≡ user_target delete_user path
unfolding routes of_method mux_match
matched-delete ([], true) = refl
matched-delete ([], false) = refl
matched-delete (a ∷ [], true) = ground arith
matched-delete (a ∷ [], false) = ground arith
matched-delete (a ∷ b ∷ [], false) = ground arith
matched-delete (a ∷ b ∷ [], true) = ground arith
matched-delete (a ∷ b ∷ c ∷ rest, slash) = ground (arith, mux_match-empty {E = Endpoint} rest slash)

of_method-other :
    (method : String)
    → ("GET" == method) ≡ false
    → ("POST" == method) ≡ false
    → ("PUT" == method) ≡ false
    → ("DELETE" == method) ≡ false
    → of_method method routes ≡ []
unfolding routes of_method
of_method-other method g p u d = rw (g, p, u, d) refl

-- A method that is one of the four by its test.
is_method :
    (name method : String) (path : RequestPath)
    → matched name path ≡ target name path
    → (name == method) ≡ true
    → matched method path ≡ target method path
is_method name method path h e =
    subst (λ m. matched m path ≡ target m path) ((eq_iff name method).0 e) h

-- The match of the routes is the one that `target` names.
matched-target :
    (method : String) (path : RequestPath) → IsPath path → matched method path ≡ target method path
unfolding mux_match
matched-target method path h = elim (Bool-cases ("GET" == method)) [
  | inl e ↦ is_method "GET" method path (matched-get path h) e
  | inr g ↦ elim (Bool-cases ("POST" == method)) [
    | inl e ↦ is_method "POST" method path (matched-post path) e
    | inr p ↦ elim (Bool-cases ("PUT" == method)) [
      | inl e ↦ is_method "PUT" method path (matched-put path) e
      | inr u ↦ elim (Bool-cases ("DELETE" == method)) [
        | inl e ↦ is_method "DELETE" method path (matched-delete path) e
        | inr d ↦
            rw (g, p, u, d)
              (ap (λ ps. mux_match ps path) (of_method-other method g p u d)
                ∙ mux_match-empty path.0 path.1)
      ]
    ]
  ]
]

-- The methods that a path has.
abbrev pub methods_of : RequestPath → List String
methods_of (a ∷ [], false) =
    if a == "users" then "GET" ∷ "HEAD" ∷ "POST" ∷ [] else "GET" ∷ "HEAD" ∷ []
methods_of (a ∷ b ∷ [], false) =
    if a == "users" then "DELETE" ∷ "GET" ∷ "HEAD" ∷ "PUT" ∷ [] else "GET" ∷ "HEAD" ∷ []
methods_of path = "GET" ∷ "HEAD" ∷ []

allowed_of-targets :
    (path : RequestPath)
    → allowed_of
        (user_target delete_user path)
        (some (get_target path))
        (users_target create_user path)
        (user_target update_user path)
      ≡ methods_of path
allowed_of-targets ([], slash) = refl
allowed_of-targets (a ∷ [], true) = refl
allowed_of-targets (a ∷ [], false) = ground arith
allowed_of-targets (a ∷ b ∷ [], true) = refl
allowed_of-targets (a ∷ b ∷ [], false) = ground arith
allowed_of-targets (a ∷ b ∷ c ∷ rest, slash) = refl

allowed-methods_of : (path : RequestPath) → IsPath path → allowed path ≡ methods_of path
allowed-methods_of path h =
    ap (λ m. allowed_of m (matched "GET" path) (matched "POST" path) (matched "PUT" path))
      (matched-delete path)
    ∙ (ap
          (λ m.
            allowed_of (user_target delete_user path) m (matched "POST" path) (matched "PUT" path))
          (matched-get path h)
        ∙ (ap₂ (λ m m'. allowed_of (user_target delete_user path) (some (get_target path)) m m')
              (matched-post path) (matched-put path)
            ∙ allowed_of-targets path))

-- Every path has a method.
methods_of-nonempty : (path : RequestPath) → methods_of path ≢ []
methods_of-nonempty ([], slash) h = cc
methods_of-nonempty (a ∷ [], true) h = cc
methods_of-nonempty (a ∷ [], false) h = ground arith
methods_of-nonempty (a ∷ b ∷ [], true) h = cc
methods_of-nonempty (a ∷ b ∷ [], false) h = ground arith
methods_of-nonempty (a ∷ b ∷ c ∷ rest, slash) h = cc

abbrev pub served : Match Endpoint → List String → Dispatch
served (some (endpoint, values)) methods = handled endpoint values
served none methods = method_not_allowed methods

answered-served :
    (t : Match Endpoint) (methods : List String)
    → methods ≢ []
    → answered t methods ≡ served t methods
answered-served (some m) methods h = refl
answered-served none [] h = absurd (h refl)
answered-served none (m ∷ ms) h = refl

-- A request with any method to `/` or to any path with segments is served by the function that
-- `target` names for it, a HEAD as a GET is; where it names none, it is refused with the methods that
-- `methods_of` gives its path. No path is unknown.
pub dispatch-target :
    (method : String) (path : RequestPath)
    → IsPath path
    → dispatch method path
      ≡ served (target (if method == "HEAD" then "GET" else method) path) (methods_of path)
unfolding dispatch
dispatch-target method path h =
    ap₂ answered (matched-target (if method == "HEAD" then "GET" else method) path h)
      (allowed-methods_of path h)
    ∙ answered-served (target (if method == "HEAD" then "GET" else method) path) (methods_of path)
        (methods_of-nonempty path)
