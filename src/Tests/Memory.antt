-- ===== src/Tests/Memory.antt =====
-- The theorems on the in-memory backend at concrete stores and calls.
use mathlib.Core.List.{Memᴰ}
use mathlib.Core.List.Permᴰ
use grpc_example.Common.{ℕ, ℤ, pos, none, some, List, [], ◌∷◌, ◌≡◌, refl, ◌↔◌, All, nat_eq}
use grpc_example.Common.Assoc.{lookup}
use grpc_example.Errors.{ok}
use grpc_example.Proto.{admin, active, User}
use grpc_example.Storage.{ListFilter}
use grpc_example.Clone.{clone_user}
use grpc_example.Clone.Laws.{IsProper, without_contact, clone_user_lem}
use grpc_example.Memory.{count, list_users, list_users_by_role}
use grpc_example.Memory.Laws.{Call, add, update, remove, IsWellFormed, run, run-IsWellFormed}
use grpc_example.Memory.Spec.{view, spec_run, spec_results, results, IsProperCall, run-refines}
use grpc_example.Memory.Listing.{Kept, list_users_iff}
use grpc_example.Tests.{backend, ts, ann, bob, stored_ann, store, in_order}

ann-IsProper : IsProper ann
unfolding backend
ann-IsProper = record { metadata = (refl, tt); profile = (refl, tt) }

clone_user_lem_example : clone_user ann ≡ without_contact ann
clone_user_lem_example = clone_user_lem ann ann-IsProper

pub store-IsWellFormed : IsWellFormed store
unfolding backend
store-IsWellFormed = record {
  distinct = (refl, tt);
  entries = (
    record {
      keyed = refl;
      no_email = refl;
      no_phone = refl;
      proper = record { metadata = (refl, tt); profile = (refl, tt) };
    },
    tt,
  );
}

abbrev calls : List (Call ℤ)
calls =
    add (pos 7) bob
    ∷ update (record bob { role = admin })
    ∷ add (pos 8) ann
    ∷ remove 1
    ∷ remove 1
    ∷ []

calls-IsProper : All IsProperCall calls
unfolding backend
calls-IsProper = (
  record { metadata = (refl, tt); profile = (refl, tt) },
  (record { metadata = (refl, tt); profile = (refl, tt) }, (ann-IsProper, (tt, (tt, tt)))),
)

run-IsWellFormed_example : IsWellFormed (run ts calls store)
run-IsWellFormed_example = run-IsWellFormed ts calls store store-IsWellFormed

one_left : count (run ts calls store) ≡ ok 1
unfolding backend
one_left = refl

run-refines_example :
    (results ts calls store ≡ spec_results ts calls (view store))
    × (view (run ts calls store) ≡ spec_run ts calls (view store))
run-refines_example = run-refines ts calls store calls-IsProper

abbrev active_filter : ListFilter
active_filter = record {
  created_since = some (pos 0);
  older_than = none;
  status = some active;
  page_size = pos 0;
  page_token = "";
}

listed_active :
    list_users in_order ts (λ _. pos 9) (some active_filter) store ≡ ok (stored_ann ∷ [])
unfolding backend
listed_active = refl

list_users_iff_example : Memᴰ stored_ann (stored_ann ∷ []) ↔ (
    (id : ℕ) × (user : User ℤ) × (lookup id store.users ≡ some user)
    × Kept ts (some active_filter) user
    × (stored_ann ≡ clone_user user))
list_users_iff_example =
    list_users_iff in_order Permᴰ.refl ts (pos 9) (some active_filter) store (stored_ann ∷ [])
      store-IsWellFormed.distinct tt listed_active stored_ann

listed_admins : list_users_by_role in_order admin store ≡ ok (stored_ann ∷ [])
unfolding backend
listed_admins = refl

abbrev old_filter : ListFilter
old_filter = record active_filter { older_than = some (pos 1) }

abbrev ticks : ℕ → ℤ
ticks j = pos 3000000000

listed_old : list_users in_order ts ticks (some old_filter) store ≡ ok (stored_ann ∷ [])
unfolding backend
listed_old = refl
