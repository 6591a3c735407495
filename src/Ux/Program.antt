-- ===== src/Ux/Program.antt =====
-- ux/main.go: `main`, and what it answers to a request. The tracer's provider and the templates are
-- libraries': `exporter` and `templates` are the errors of making them.
use grpc_example.Common.{
  String, ◌<>◌, Option, none, some, List, [], ◌∷◌, ◌==◌, string_eq, if◌then◌else◌,
}
use grpc_example.Errors.{Error}
use grpc_example.Main.{getenv}
use grpc_example.Ux.Http.{Libraries, Page, titled, http_error, set_header, Request}
use grpc_example.Ux.Handlers
use grpc_example.Ux.Handlers.{render, Response}
use grpc_example.Mux.{RequestPath}
use grpc_example.Ux.Routes.{
  Endpoint, home_page, users_page, list_users, new_user_form, create_user, get_user, edit_user_form,
  update_user, delete_user, filter_by_role, Dispatch, handled, method_not_allowed, not_found,
  dispatch,
}

module _ {U S : Type 0} (lib : Libraries U S) (execute : String → Page U → Option Error) where
  unfoldable pub run_endpoint : Endpoint → Request → S → Response lib execute
  run_endpoint home_page r s = (render lib execute "home.html" (titled "CrudBox - Home"), s)
  run_endpoint users_page r s = (render lib execute "users-page.html" (titled "CrudBox - Users"), s)
  run_endpoint list_users r s = Handlers.list_users lib execute s
  run_endpoint new_user_form r s = Handlers.new_user_form lib execute s
  run_endpoint create_user r s = Handlers.create_user lib execute r s
  run_endpoint get_user r s = Handlers.get_user lib execute r s
  run_endpoint edit_user_form r s = Handlers.edit_user_form lib execute r s
  run_endpoint update_user r s = Handlers.update_user lib execute r s
  run_endpoint delete_user r s = Handlers.delete_user lib execute r s
  run_endpoint filter_by_role r s = Handlers.filter_by_role lib execute r s

  -- `PathValue("id")`
  abbrev pub path_value : List String → String
  path_value [] = ""
  path_value (value ∷ values) = value

  abbrev pub allow_header : List String → String
  allow_header [] = ""
  allow_header (m ∷ []) = m
  allow_header (m ∷ ms) = m <> ", " <> allow_header ms

  -- `request` is the request but for its path's value.
  abbrev pub answer : Dispatch → (String → Request) → S → Response lib execute
  answer (handled endpoint values) request s = run_endpoint endpoint (request (path_value values)) s
  answer (method_not_allowed methods) request s =
      (set_header "Allow" (allow_header methods) ∷ http_error "Method Not Allowed" 405 ∷ [], s)
  answer not_found request s = (http_error "404 page not found" 404 ∷ [], s)

  unfoldable pub respond : String → RequestPath → (String → Request) → S → Response lib execute
  respond method path request s = answer (dispatch method path) request s

-- How the program ends: `ListenAndServe` always returns an error.
pub data Ending : Type 0 where
  fatal panicked : String → Ending

-- The token that the client of the gateway is given.
unfoldable pub token_or_env : String → (String → Option String) → String
token_or_env flag env = if flag == "" then getenv env "JWT_TOKEN" else flag

unfoldable pub run_ui :
    Option Error → Option Error → (String → Error) → (Error → String) → String → Ending
run_ui exporter templates listen error_text port = elim exporter [
  | some e ↦ fatal (error_text e)
  | none ↦ elim templates [
    | some e ↦ panicked (error_text e)
    | none ↦ fatal ("Server failed to start: " <> error_text (listen (":" <> port)))
  ]
]
