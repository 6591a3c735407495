-- ===== src/Ux/Handlers.antt =====
-- ux/handlers/handlers.go: the handlers of the web UI. A handler returns what it does with its
-- `ResponseWriter` and the state behind the gateway. The lines that they log and the span of
-- `GetUser` are left out.
pub mod Laws
use grpc_example.Common.{
  ℕ, ◌-◌, ◌%◌, ◌^◌, ◌<>◌, ltb, String, ℤ, pos, negsuc, Bool, not, ◌||◌, Option, none, some, List,
  [], ◌∷◌, ◌++◌, ◌==◌, string_eq, if◌then◌else◌,
}
use grpc_example.Errors.{Error, Result, ok, err}
use grpc_example.Ux.{int_to_role, int_to_status}
use grpc_example.Ux.Http.{
  NewUser, Libraries, Page, titled, users, user, blank, Effect, http_error, write_header, write,
  set_header, add_header, rendered, Request,
}

-- `uint32(n)` and `int32(n)`.
abbrev pub to_uint32 : ℕ → ℕ
to_uint32 n = n % 2 ^ 32

abbrev pub to_int32 : ℤ → ℤ
to_int32 (pos n) = let m = n % 2 ^ 32 in if ltb m (2 ^ 31) then pos m else negsuc (2 ^ 32 - 1 - m)
to_int32 (negsuc n) =
    let m = n % 2 ^ 32 in if ltb m (2 ^ 31) then negsuc m else pos (2 ^ 32 - 1 - m)

-- `paths` of `UpdateUser`
abbrev pub update_paths : List String
update_paths = "username" ∷ "email" ∷ "phone" ∷ "role" ∷ "status" ∷ "profile" ∷ []

module _ {U S : Type 0} (lib : Libraries U S) (execute : String → Page U → Option Error) where
  abbrev pub Response : Type 0
  Response = List (Effect U) × S

  -- `ExecuteTemplate`, and an error where it fails.
  unfoldable pub render : String → Page U → List (Effect U)
  render name page = rendered name page ∷ (elim (execute name page) [
    | none ↦ []
    | some _ ↦ http_error "Internal Server Error" 500 ∷ []
  ])

  -- A handler that goes on after effects of its own.
  abbrev pub after : List (Effect U) → Response → Response
  after effects (more, s) = (effects ++ more, s)

  unfoldable pub home : S → Response
  home s = (render "index.html" (titled "User Management"), s)

  unfoldable pub new_user_form : S → Response
  new_user_form s = (render "user-form.html" blank, s)

  abbrev pub listed : String → Result (List U) × S → Response
  listed message (err _, s) = (http_error message 500 ∷ [], s)
  listed message (ok us, s) = (render "users-list.html" (users us), s)

  unfoldable pub list_users : S → Response
  list_users s = listed "Failed to fetch users" (lib.list_users s)

  -- The id in the path, or the refusal of the request.
  abbrev pub with_id : Request → (ℕ → S → Response) → S → Response
  with_id r next s = elim (lib.parse_uint r.id).1 [
    | some _ ↦ (http_error "Invalid user ID" 400 ∷ [], s)
    | none ↦ next (to_uint32 (lib.parse_uint r.id).0) s
  ]

  -- The role and the status as numbers, for the form.
  abbrev pub with_ints : U → U
  with_ints u =
      let v = lib.with_role_int (lib.role_to_int (lib.role u)) u in
      lib.with_status_int (lib.status_to_int (lib.status v)) v

  abbrev pub shown : String → Result U × S → Response
  shown template (err _, s) = (http_error "Failed to fetch user" 500 ∷ [], s)
  shown template (ok u, s) = (render template (user (with_ints u)), s)

  unfoldable pub get_user : Request → S → Response
  get_user r = with_id r (λ id s. shown "user-detail.html" (lib.get_user id s))

  unfoldable pub edit_user_form : Request → S → Response
  edit_user_form r = with_id r (λ id s. shown "user-edit.html" (lib.get_user id s))

  -- The user of the form. The errors of the numbers are dropped.
  unfoldable pub form_user : Request → ℕ → NewUser
  form_user r id = record {
    id = id;
    username = r.form_value "username";
    email = r.form_value "email";
    phone = r.form_value "phone";
    role = int_to_role (to_int32 (lib.parse_int (r.form_value "role")).0);
    status = int_to_status (to_int32 (lib.parse_int (r.form_value "status")).0);
    profile =
        if not (r.form_value "displayName" == "")
        then some (r.form_value "displayName", r.form_value "bio")
        else none;
  }

  abbrev pub refusal : String → String → Error → List (Effect U)
  refusal doing note e =
      write_header 400
      ∷ write (
          "<div style=\"background-color: #fee; border: 1px solid #fcc; padding: 1rem; margin: 1rem 0; border-radius: 4px;\">\n\t\t\t<strong style=\"color: #c00;\">Error "
          <> doing
          <> " user:</strong><br>\n\t\t\t"
          <> lib.error_text e
          <> "\n\t\t\t<br><small>Note: "
          <> note
          <> "</small>\n\t\t</div>")
      ∷ []

  -- On success: close the modal and refresh the list.
  abbrev pub refreshed : String → S → Response
  refreshed trigger s =
      after (set_header "HX-Trigger" trigger ∷ add_header "HX-Trigger" "closeModal" ∷ [])
        (list_users s)

  abbrev pub created : Option Error × S → Response
  created (some e, s) = (refusal "creating" "User IDs and usernames must be unique." e, s)
  created (none, s) = refreshed "userCreated" s

  unfoldable pub create_user : Request → S → Response
  create_user r s = elim r.parse_form [
    | some _ ↦ (http_error "Invalid form data" 400 ∷ [], s)
    | none ↦ created (
        lib.create_user (lib.make (form_user r (to_uint32 (lib.parse_uint (r.form_value "id")).0)))
          s)
  ]

  abbrev pub updated : Result U × S → Response
  updated (err e, s) =
      (refusal "updating" "Usernames must be unique. Try a different username." e, s)
  updated (ok _, s) = refreshed "userUpdated" s

  abbrev pub store_form : Request → ℕ → S → Response
  store_form r id s = elim r.parse_form [
    | some _ ↦ (http_error "Invalid form data" 400 ∷ [], s)
    | none ↦ updated (lib.update_user (lib.make (form_user r id)) update_paths s)
  ]

  unfoldable pub update_user : Request → S → Response
  update_user r = with_id r (store_form r)

  abbrev pub deleted : Option Error × S → Response
  deleted (some _, s) = (http_error "Failed to delete user" 500 ∷ [], s)
  deleted (none, s) = after (set_header "HX-Trigger" "userDeleted" ∷ []) (list_users s)

  unfoldable pub delete_user : Request → S → Response
  delete_user r = with_id r (λ id s. deleted (lib.delete_user id s))

  unfoldable pub filter_by_role : Request → S → Response
  filter_by_role r s =
      if (r.query_role == "") || (r.query_role == "all")
      then list_users s
      else (elim (lib.parse_int r.query_role).1 [
        | some _ ↦ (http_error "Invalid role" 400 ∷ [], s)
        | none ↦
            listed "Failed to filter users"
              (lib.list_users_by_role (to_int32 (lib.parse_int r.query_role).0) s)
      ])
