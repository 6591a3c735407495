-- ===== src/Client/Ends.antt =====
-- cmd/client/main.go against the in-memory server: what the demonstrations leave in the store.
use grpc_example.Common.{
  ℕ, ◌<◌, ℤ, true, false, some, List, ◌≡◌, ◌≢◌, refl, ◌∙◌, arith, if◌then◌else◌, ◌==◌, nat_eq,
  string_eq, int_eq,
}
use grpc_example.Common.Assoc.{
  lookup, insert, has, lookup-insert, has-insert, has-lookup, All-lookup,
}
use grpc_example.Proto.{guest, login, User, UserActivity}
use grpc_example.Storage.{Storage}
use grpc_example.Clone.{clone_user}
use grpc_example.Memory
use grpc_example.Memory.{MemoryStorage, with_defaults, memory_backend}
use grpc_example.Memory.Laws.{
  IsEntry, IsWellFormed, step-IsWellFormed, stored-IsWellFormed, add, step,
}
use mathlib.Core.Path.{subst}
use grpc_example.Client.Demonstrations.{UserServiceClient}
use grpc_example.Common.{◌⊎◌}
use grpc_example.Server.{
  Runtime, add_user, update_user, update_existing, store_update, replace_fields, apply_mask,
}
use grpc_example.Server.Streams.{Totals, batch_step, batch_from, batch_add_users, activity_step}
use grpc_example.Client.{admin_user, request_user, update_request, batch_users}
use grpc_example.Client.Served.{connected}

module _ {T D : Type 0} (rt : Runtime T D) (visit : List (ℕ × User T) → List (ℕ × User T)) (now : ℤ)
    (clock : ℕ → ℤ) where
  abbrev client : UserServiceClient T D (MemoryStorage T)
  client = connected rt visit now clock

  abbrev backend : Storage T (MemoryStorage T)
  backend = memory_backend rt.timestamps visit

  -- 1: `AddUser`
  add-IsWellFormed :
      (user : User T) (s : MemoryStorage T)
      → IsWellFormed s
      → IsWellFormed (Memory.add_user rt.timestamps now user s).1
  add-IsWellFormed user s w = unfold step in step-IsWellFormed rt.timestamps (add now user) s w

  pub add_admin-IsWellFormed :
      (s : MemoryStorage T) → IsWellFormed s → IsWellFormed (add_user backend now admin_user s).1
  unfolding add_user Memory.count
  add_admin-IsWellFormed s w = ground (arith, add-IsWellFormed admin_user s w)

  pub has-add_admin :
      (s : MemoryStorage T) → has 1 (add_user backend now admin_user s).1.users ≡ true
  unfolding add_user Memory.count Memory.add_user
  has-add_admin s =
      ground
        (arith, has-insert 1 1 (clone_user (with_defaults rt.timestamps now admin_user)) s.users)

  pub add_admin-same :
      (j : ℕ) (s : MemoryStorage T)
      → 1 < j
      → lookup j (add_user backend now admin_user s).1.users ≡ lookup j s.users
  unfolding add_user Memory.count Memory.add_user
  add_admin-same j s h =
      ground
        (arith, lookup-insert 1 j (clone_user (with_defaults rt.timestamps now admin_user)) s.users)

  -- 3: `UpdateUser`
  abbrev pub demoted : User T → User T
  demoted u = clone_user (replace_fields request_user (clone_user u))

  abbrev pub IsDemoted : User T → Type 0
  IsDemoted u = (u.username ≡ "") × (u.role ≡ guest)

  pub demoted-IsDemoted : (u : User T) → IsDemoted (demoted u)
  unfolding clone_user replace_fields
  demoted-IsDemoted u = (refl, refl)

  pub update-stored :
      (u : User T) (s : MemoryStorage T)
      → IsWellFormed s
      → lookup 1 s.users ≡ some u
      → (update_user backend update_request s).1 ≡ record { users = insert 1 (demoted u) s.users }
  unfolding update_user update_existing store_update Memory.get_user Memory.update_user apply_mask
      replace_fields clone_user
  update-stored u s w there =
      let e = All-lookup IsEntry 1 s.users w.entries there in
      ground (arith, e.keyed, has-lookup 1 s.users)

  pub update-IsWellFormed :
      (u : User T) (s : MemoryStorage T)
      → IsWellFormed s
      → lookup 1 s.users ≡ some u
      → IsWellFormed (update_user backend update_request s).1
  update-IsWellFormed u s w there =
      let e = All-lookup IsEntry 1 s.users w.entries there in
      let same_id : (replace_fields request_user (clone_user u)).id ≡ 1 =
        unfold replace_fields in (unfold clone_user in e.keyed) in
      rw (update-stored u s w there) (
        subst (λ k. IsWellFormed (record { users = insert k (demoted u) s.users })) same_id
          (stored-IsWellFormed rt.timestamps (replace_fields request_user (clone_user u)) s w))

  -- 6: `BatchAddUsers`
  batch_step-IsWellFormed :
      (user : User T) (t : Totals) (s : MemoryStorage T)
      → IsWellFormed s
      → IsWellFormed (batch_step rt backend now user (t, s)).1
  unfolding batch_step
  batch_step-IsWellFormed user t s w = ground (arith, add-IsWellFormed user s w)

  batch_step-same :
      (user : User T) (t : Totals) (s : MemoryStorage T) (j : ℕ)
      → user.id ≢ j
      → lookup j (batch_step rt backend now user (t, s)).1.users ≡ lookup j s.users
  unfolding batch_step Memory.add_user
  batch_step-same user t s j other =
      ground
        (arith, lookup-insert user.id j (clone_user (with_defaults rt.timestamps now user)) s.users)

  -- 7
  activity_step-same :
      (activity : UserActivity T) (s : MemoryStorage T)
      → (activity.activity_type == login) ≡ false
      → (activity_step rt backend now activity s).1 ≡ s
  unfolding activity_step Memory.user_exists
  activity_step-same activity s other = ground arith

  pub batch-IsWellFormed :
      (s : MemoryStorage T) → IsWellFormed s → IsWellFormed (client.send_batch batch_users true s).1
  unfolding batch_add_users batch_from
  batch-IsWellFormed s w =
      batch_step-IsWellFormed _ _ _
        (batch_step-IsWellFormed _ _ _ (batch_step-IsWellFormed _ _ s w))

  pub batch-same :
      (j : ℕ) (s : MemoryStorage T)
      → ((j ≡ 1) ⊎ (5 < j))
      → lookup j (client.send_batch batch_users true s).1.users ≡ lookup j s.users
  unfolding batch_add_users batch_from
  batch-same j s h =
      batch_step-same _ _ _ j (ground arith)
      ∙ (batch_step-same _ _ _ j (ground arith) ∙ batch_step-same _ _ s j (ground arith))

  pub update-same :
      (u : User T) (j : ℕ) (s : MemoryStorage T)
      → IsWellFormed s
      → lookup 1 s.users ≡ some u
      → lookup j (update_user backend update_request s).1.users
        ≡ (if 1 == j then some (demoted u) else lookup j s.users)
  update-same u j s w there = rw (update-stored u s w there) (lookup-insert 1 j (demoted u) s.users)
