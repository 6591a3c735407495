-- ===== src/Ux/Handlers/Laws.antt =====
-- ux/handlers/handlers.go: what the handlers write, and what they ask of the gateway.
use grpc_example.Common.{
  ℕ, ◌-◌, ◌^◌, ◌≤◌, ◌<◌, decimal, String, ◌||◌, Option, none, some, List, [], ◌∷◌, ◌≡◌, refl, ap,
  arith, inl, inr, ◌==◌, string_eq, Bool-cases, Option-cases,
}
use grpc_example.Errors.{Error, Result, ok, err}
use grpc_example.Proto.{User}
use grpc_example.Server
use grpc_example.Server.{apply_mask}
use grpc_example.Ux.Http.{
  Libraries, Page, Effect, http_error, write_header, write, set_header, add_header, rendered,
  Request,
}
use grpc_example.Ux.Handlers.{
  to_uint32, update_paths, render, list_users, get_user, edit_user_form, form_user, create_user,
  created, update_user, updated, store_form, delete_user, deleted, filter_by_role, listed, shown,
  with_id, Response,
}

module _ {U S : Type 0} (lib : Libraries U S) (execute : String → Page U → Option Error) where
  -- Headers, and then one answer: an error, a status with its text, or a page. A page that could not
  -- be rendered is followed by an error.
  abbrev pub IsAnswer : List (Effect U) → Type 0
  IsAnswer (http_error message code ∷ []) = Unit
  IsAnswer (write_header code ∷ write text ∷ []) = Unit
  IsAnswer (rendered name page ∷ []) = execute name page ≡ none
  IsAnswer (rendered name page ∷ http_error message code ∷ []) =
      (e : Error) × (execute name page ≡ some e)
  IsAnswer (set_header name value ∷ effects) = IsAnswer effects
  IsAnswer (add_header name value ∷ effects) = IsAnswer effects
  IsAnswer _ = ⊥

  pub render-IsAnswer : (name : String) (page : Page U) → IsAnswer (render lib execute name page)
  unfolding render
  render-IsAnswer name page = elim (Option-cases (execute name page)) [
    | inl fine ↦ rw (render, fine) fine
    | inr (e, failed) ↦ rw (render, failed) (e, failed)
  ]

  listed-IsAnswer :
      (message : String) (outcome : Result (List U) × S)
      → IsAnswer (listed lib execute message outcome).0
  listed-IsAnswer message (err e, s) = tt
  listed-IsAnswer message (ok us, s) = render-IsAnswer _ _

  pub list_users-IsAnswer : (s : S) → IsAnswer (list_users lib execute s).0
  unfolding list_users
  list_users-IsAnswer s = listed-IsAnswer _ (lib.list_users s)

  shown-IsAnswer :
      (template : String) (outcome : Result U × S) → IsAnswer (shown lib execute template outcome).0
  shown-IsAnswer template (err e, s) = tt
  shown-IsAnswer template (ok u, s) = render-IsAnswer _ _

  created-IsAnswer : (outcome : Option Error × S) → IsAnswer (created lib execute outcome).0
  created-IsAnswer (some e, s) = tt
  created-IsAnswer (none, s) = list_users-IsAnswer s

  updated-IsAnswer : (outcome : Result U × S) → IsAnswer (updated lib execute outcome).0
  updated-IsAnswer (err e, s) = tt
  updated-IsAnswer (ok u, s) = list_users-IsAnswer s

  deleted-IsAnswer : (outcome : Option Error × S) → IsAnswer (deleted lib execute outcome).0
  deleted-IsAnswer (some e, s) = tt
  deleted-IsAnswer (none, s) = list_users-IsAnswer s

  with_id-IsAnswer :
      (r : Request) (next : ℕ → S → Response lib execute) (s : S)
      → ((id : ℕ) → IsAnswer (next id s).0)
      → IsAnswer (with_id lib execute r next s).0
  with_id-IsAnswer r next s h = elim (Option-cases (lib.parse_uint r.id).1) [
    | inl fine ↦ rw (with_id, fine) (h _)
    | inr (e, bad) ↦ rw (with_id, bad) tt
  ]

  filter_by_role-IsAnswer : (r : Request) (s : S) → IsAnswer (filter_by_role lib execute r s).0
  unfolding filter_by_role
  filter_by_role-IsAnswer r s =
      elim (Bool-cases ((r.query_role == "") || (r.query_role == "all"))) [
        | inl everyone ↦ rw (filter_by_role, everyone) (list_users-IsAnswer s)
        | inr one_role ↦ elim (Option-cases (lib.parse_int r.query_role).1) [
          | inl fine ↦
              rw (filter_by_role, one_role, fine) (listed-IsAnswer _ (lib.list_users_by_role _ s))
          | inr (e, bad) ↦ rw (filter_by_role, one_role, bad) tt
        ]
      ]

  create_user-IsAnswer : (r : Request) (s : S) → IsAnswer (create_user lib execute r s).0
  unfolding create_user
  create_user-IsAnswer r s = elim (Option-cases r.parse_form) [
    | inl fine ↦ rw (create_user, fine) (created-IsAnswer (lib.create_user _ s))
    | inr (e, bad) ↦ rw (create_user, bad) tt
  ]

  store_form-IsAnswer : (r : Request) (id : ℕ) (s : S) → IsAnswer (store_form lib execute r id s).0
  store_form-IsAnswer r id s = elim (Option-cases r.parse_form) [
    | inl fine ↦
        rw (store_form, fine)
          (updated-IsAnswer
            (lib.update_user (lib.make (form_user lib execute r id)) update_paths s))
    | inr (e, bad) ↦ rw (store_form, bad) tt
  ]

  -- Whatever the request, and whatever the gateway and the templates return, a handler that takes an
  -- id, a form or a role writes its headers first and then answers once, and never stays silent.
  pub handlers-IsAnswer :
      (r : Request) (s : S)
      → IsAnswer (get_user lib execute r s).0
        × IsAnswer (edit_user_form lib execute r s).0
        × IsAnswer (create_user lib execute r s).0
        × IsAnswer (update_user lib execute r s).0
        × IsAnswer (delete_user lib execute r s).0
        × IsAnswer (filter_by_role lib execute r s).0
  unfolding get_user edit_user_form update_user delete_user
  handlers-IsAnswer r s = (
    with_id-IsAnswer r (λ id t. shown lib execute "user-detail.html" (lib.get_user id t)) s
        (λ id. shown-IsAnswer "user-detail.html" (lib.get_user id s)),
    with_id-IsAnswer r (λ id t. shown lib execute "user-edit.html" (lib.get_user id t)) s
        (λ id. shown-IsAnswer "user-edit.html" (lib.get_user id s)),
    create_user-IsAnswer r s,
    with_id-IsAnswer r (store_form lib execute r) s (λ id. store_form-IsAnswer r id s),
    with_id-IsAnswer r (λ id t. deleted lib execute (lib.delete_user id t)) s
        (λ id. deleted-IsAnswer (lib.delete_user id s)),
    filter_by_role-IsAnswer r s,
  )

-- What `strconv.ParseUint(s, 10, 32)` documents of a text in decimal: the number, or the greatest one
-- and an error.
pub record IsStrconv {U S : Type 0} (lib : Libraries U S) : Type 0 where
  pub in_range : (n : ℕ) → n < 2 ^ 32 → lib.parse_uint (decimal n) ≡ (n, none)
  pub out_of_range :
      (n : ℕ) → 2 ^ 32 ≤ n → (e : Error) × (lib.parse_uint (decimal n) ≡ (2 ^ 32 - 1, some e))

mod_small : (n : ℕ) → n < 2 ^ 32 → to_uint32 n ≡ n
mod_small n small = omega arith

module _ {U S : Type 0} (lib : Libraries U S) (execute : String → Page U → Option Error)
    (strconv : IsStrconv lib) where
  with_id-in_range :
      (r : Request) (next : ℕ → S → Response lib execute) (n : ℕ) (s : S)
      → r.id ≡ decimal n
      → n < 2 ^ 32
      → with_id lib execute r next s ≡ next n s
  with_id-in_range r next n s written small =
      let same : to_uint32 n ≡ n = mod_small n small in
      let parsed : lib.parse_uint r.id ≡ (n, none) = rw written (strconv.in_range n small) in
      rw (with_id, ap (λ p. p.1) parsed, ap (λ p. p.0) parsed) (ap (λ id. next id s) same)

  -- A request whose path has a number of 32 bits in decimal reaches the gateway with that number, in
  -- each of the four handlers that take one.
  handlers-decimal :
      (r : Request) (n : ℕ) (s : S)
      → r.id ≡ decimal n
      → n < 2 ^ 32
      → (get_user lib execute r s ≡ shown lib execute "user-detail.html" (lib.get_user n s))
        × (edit_user_form lib execute r s ≡ shown lib execute "user-edit.html" (lib.get_user n s))
        × (update_user lib execute r s ≡ store_form lib execute r n s)
        × (delete_user lib execute r s ≡ deleted lib execute (lib.delete_user n s))
  unfolding get_user edit_user_form update_user delete_user
  handlers-decimal r n s written small = (
    with_id-in_range r (λ id t. shown lib execute "user-detail.html" (lib.get_user id t)) n s
        written small,
    with_id-in_range r (λ id t. shown lib execute "user-edit.html" (lib.get_user id t)) n s written
        small,
    with_id-in_range r (store_form lib execute r) n s written small,
    with_id-in_range r (λ id t. deleted lib execute (lib.delete_user id t)) n s written small,
  )

  -- `CreateUser` drops the error of the form's number: where the form parses and its id is a
  -- number in decimal of more than 32 bits, the handler asks the gateway for the user 4294967295.
  pub create_user-out_of_range :
      (r : Request) (n : ℕ) (s : S)
      → r.form_value "id" ≡ decimal n
      → r.parse_form ≡ none
      → 2 ^ 32 ≤ n
      → create_user lib execute r s
        ≡ created lib execute (lib.create_user (lib.make (form_user lib execute r (2 ^ 32 - 1))) s)
  unfolding create_user form_user
  create_user-out_of_range r n s written parsed great =
      let (e, refused) = strconv.out_of_range n great in
      rw (create_user, parsed, written, refused) refl

-- Behind the gateway, the service accepts the paths that `UpdateUser` sends, and changes the six fields
-- of the form and no other.
update_paths-apply_mask :
    {T : Type 0} (user existing : User T)
    → apply_mask user existing (some update_paths)
      ≡ ok (record existing {
        username = user.username;
        email = user.email;
        phone = user.phone;
        role = user.role;
        status = user.status;
        profile = user.profile;
      })
unfolding apply_mask Server.apply_paths Server.apply_path
update_paths-apply_mask user existing = refl
