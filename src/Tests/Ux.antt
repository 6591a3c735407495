-- ===== src/Tests/Ux.antt =====
-- The theorems on the web UI, behind which a gateway keeps the ids it was asked for.
use grpc_example.Common.{
  ℕ, ◌-◌, ◌^◌, ltb, value, value-decimal, true, false, decimal, String, pos, Option, none, some,
  List, [], ◌∷◌, ◌≡◌, refl, arith, ◌==◌, string_eq, if◌then◌else◌,
}
use grpc_example.Errors.{Error, plain, ok, err}
use grpc_example.Ux.Http.{NewUser, Libraries, Page, Request}
use grpc_example.Ux.Handlers.Laws.{IsAnswer, IsStrconv}
use grpc_example.Ux.Routes.{handled, edit_user_form, dispatch}
use grpc_example.Ux.Routes.Laws.{dispatch-target}
use grpc_example.Ux.Program.{respond}
use grpc_example.Ux.Answers.{respond-IsAnswer}

abbrev execute : String → Page NewUser → Option Error
execute name page = none

-- `strconv.ParseUint(s, 10, 32)` on texts of digits.
abbrev parse_uint : String → ℕ × Option Error
parse_uint s =
    if ltb (value s) (2 ^ 32) then (value s, none) else (2 ^ 32 - 1, some (plain "range"))

abbrev lib : Libraries NewUser (List ℕ)
lib = record {
  make = λ u. u;
  role = λ u. u.role;
  status = λ u. u.status;
  with_role_int = λ n u. u;
  with_status_int = λ n u. u;
  role_to_int = λ name. pos 0;
  status_to_int = λ name. pos 0;
  list_users = λ s. (ok [], s);
  list_users_by_role = λ n s. (ok [], s);
  get_user = λ id s. (err (plain "no user"), id ∷ s);
  create_user = λ u s. (none, u.id ∷ s);
  update_user = λ u paths s. (ok u, u.id ∷ s);
  delete_user = λ id s. (none, id ∷ s);
  parse_uint = parse_uint;
  parse_int = λ s. (pos (value s), none);
  error_text = λ e. "error";
}

lib-IsStrconv : IsStrconv lib
lib-IsStrconv = record {
  in_range = λ n small.
      let below : ltb n (2 ^ 32) ≡ true = ground arith in rw (value-decimal n, below) refl;
  out_of_range = λ n great.
      let above : ltb n (2 ^ 32) ≡ false = ground arith in
      (plain "range", rw (value-decimal n, above) refl);
}

abbrev request : ℕ → Request
request n = record {
  id = decimal n;
  parse_form = none;
  form_value = λ name. if name == "id" then decimal n else "2";
  query_role = "2";
}

-- The request by the text in its path.
abbrev numbered : String → Request
numbered id = record { id = id; parse_form = none; form_value = λ name. ""; query_role = "" }

respond-IsAnswer_example :
    IsAnswer lib execute (respond lib execute "PUT" ("users" ∷ "7" ∷ [], false) numbered []).0
respond-IsAnswer_example =
    respond-IsAnswer lib execute "PUT" ("users" ∷ "7" ∷ [], false) numbered []

dispatch-target_example :
    dispatch "HEAD" ("users" ∷ "7" ∷ "edit" ∷ [], false) ≡ handled edit_user_form ("7" ∷ [])
dispatch-target_example = dispatch-target "HEAD" ("users" ∷ "7" ∷ "edit" ∷ [], false) tt
