-- ===== src/Client/Streams.antt =====
-- cmd/client/main.go against the in-memory server: what its last two streams and its deletion leave in
-- the store.
use grpc_example.Common.{
  ℕ, ◌<◌, ℤ, true, false, Bool, none, some, List, [], ◌∷◌, ◌≡◌, ◌≢◌, refl, ◌∙◌, arith,
  if◌then◌else◌, ◌==◌, nat_eq, string_eq, int_eq, nat_beq_iff,
}
use grpc_example.Common.Assoc.{lookup, lookup-delete, has-lookup}
use grpc_example.Proto.{admin, login, User, UserActivity}
use grpc_example.Storage.{Storage}
use grpc_example.Clone.{clone_user}
use grpc_example.Memory
use grpc_example.Memory.{MemoryStorage, with_defaults, memory_backend}
use grpc_example.Memory.Laws.{IsWellFormed}
use grpc_example.Client.Demonstrations.{UserServiceClient}
use grpc_example.Server.{Runtime, delete_user}
use grpc_example.Server.Streams.{
  activity_step, activity_from, user_activity_stream, sync_step, sync_from, sync_users,
}
use grpc_example.Server.Activity.{with_login, activity_step_lem}
use grpc_example.Server.Sync.{sync_step_lem}
use grpc_example.Client.{synced_admin, synced_member, sync_list, activities}
use grpc_example.Client.Served.{connected}

module _ {T D : Type 0} (rt : Runtime T D) (visit : List (ℕ × User T) → List (ℕ × User T)) (now : ℤ)
    (clock : ℕ → ℤ) where
  abbrev client : UserServiceClient T D (MemoryStorage T)
  client = connected rt visit now clock

  abbrev backend : Storage T (MemoryStorage T)
  backend = memory_backend rt.timestamps visit

  abbrev first_login : (ℕ → T) → UserActivity T
  first_login times = record {
    user_id = 1;
    activity_type = login;
    timestamp = some (times 0);
    details = some (("ip", "192.168.1.1") ∷ ("user_agent", "Mozilla/5.0") ∷ []);
  }

  activity-state :
      (times : ℕ → T) (s : MemoryStorage T)
      → (client.exchange_activities (activities times) s).1
        ≡ (activity_step rt backend now (first_login times) s).1
  unfolding user_activity_stream activity_from activity_step Memory.user_exists
  activity-state times s = ground arith

  pub lookup-activity :
      (times : ℕ → T) (j : ℕ) (s : MemoryStorage T)
      → IsWellFormed s
      → lookup j (client.exchange_activities (activities times) s).1.users ≡ (
          if 1 == j
          then with_login rt visit (some (times 0)) (lookup j s.users)
          else lookup j s.users)
  lookup-activity times j s w =
      rw (activity-state times s) (activity_step_lem rt visit (first_login times) s w now j).1

  -- 8: `SyncUsers`
  abbrev pub Promoted : MemoryStorage T → Type 0
  Promoted s =
      (u : User T) × (lookup 2 s.users ≡ some u) × (u.username ≡ "user1_updated") × (u.role ≡ admin)

  sync_step-same :
      (user : User T) (j : ℕ) (s : MemoryStorage T)
      → user.id ≢ 0
      → user.id ≢ j
      → lookup j (sync_step rt backend now user s).1.users ≡ lookup j s.users
  sync_step-same user j s some_id other =
      let (_, same) = sync_step_lem rt visit now user j s some_id in
      ground (arith, same, nat_beq_iff user.id j)

  stored-Promoted :
      (user : User T) (b : Bool)
      → user.username ≡ "user1_updated"
      → user.role ≡ admin
      → ((clone_user (if b then user else with_defaults rt.timestamps now user)).username
          ≡ "user1_updated")
        × ((clone_user (if b then user else with_defaults rt.timestamps now user)).role ≡ admin)
  unfolding clone_user
  stored-Promoted user true named ranked = (named, ranked)
  stored-Promoted user false named ranked = (named, ranked)

  pub sync-Promoted : (s : MemoryStorage T) → Promoted (client.exchange_users sync_list s).1
  unfolding sync_users sync_from
  sync-Promoted s =
      let (_, stored) = sync_step_lem rt visit now synced_admin 2 _ (ground arith) in
      let (named, ranked) = stored-Promoted synced_admin _ refl refl in (_, stored, named, ranked)

  pub sync-same :
      (j : ℕ) (s : MemoryStorage T)
      → j ≢ 2
      → j ≢ 5
      → lookup j (client.exchange_users sync_list s).1.users ≡ lookup j s.users
  unfolding sync_users sync_from
  sync-same j s a b =
      sync_step-same synced_admin j _ (ground arith) (ground arith)
      ∙ sync_step-same synced_member j s (ground arith) (ground arith)

  -- 9: `DeleteUser`
  pub lookup-remove :
      (j : ℕ) (s : MemoryStorage T)
      → lookup j (delete_user backend 5 s).1.users ≡ (if 5 == j then none else lookup j s.users)
  unfolding delete_user Memory.delete_user
  lookup-remove j s =
      ground (arith, lookup-delete 5 j s.users, has-lookup 5 s.users, nat_beq_iff 5 j)

  pub remove-same :
      (j : ℕ) (s : MemoryStorage T)
      → j ≢ 5
      → lookup j (delete_user backend 5 s).1.users ≡ lookup j s.users
  remove-same j s other = rw (lookup-remove j s) (ground (arith, nat_beq_iff 5 j))

  pub activity-same :
      (times : ℕ → T) (j : ℕ) (s : MemoryStorage T)
      → IsWellFormed s
      → 1 < j
      → lookup j (client.exchange_activities (activities times) s).1.users ≡ lookup j s.users
  activity-same times j s w other =
      rw (lookup-activity times j s w) (ground (arith, nat_beq_iff 1 j))
