-- ===== src/Tests/Server.antt =====
-- The theorems on the service at concrete requests and streams.
use grpc_example.Common.{
  ◌+◌, ◌%◌, ◌^◌, ℤ, pos, none, some, List, [], ◌∷◌, ◌≡◌, ◌≢◌, refl, ◌↔◌, ◌⊎◌, arith, length,
  decimal, show_int32, if◌then◌else◌, ◌==◌, nat_eq, string_eq, int_eq, eq_iff,
}
use grpc_example.Common.Assoc.{lookup, has}
use grpc_example.Errors.{ok, err, status, invalid_argument}
use grpc_example.Proto.{
  admin, login, success, User, UpdateUserRequest, BatchAddUsersResponse, UserActivity,
}
use grpc_example.Storage.{Storage}
use grpc_example.Clone.{clone_user}
use grpc_example.Memory.{MemoryStorage, new_memory_storage, with_defaults, memory_backend}
use grpc_example.Server.{
  apply_path, apply_paths, apply_mask, add_user, get_user, update_user, delete_user,
}
use grpc_example.Server.Streams.{
  Sends, batch_step, batch_from, batch_add_users, sync_step, sync_users,
}
use grpc_example.Server.Mask.{IsMasked, apply_mask-IsMasked}
use grpc_example.Server.Batch.{batch_add_users-IsBalanced}
use grpc_example.Server.Requests.{add_user-ok_iff, get_user-add_user, get_user-update_user}
use grpc_example.Server.Admins.{
  StartsWithAdmin, add_all, add_all-StartsWithAdmin, streams-skip-admin,
}
use grpc_example.Server.Sync.{sync_step_lem}
use grpc_example.Tests.{backend, ts, rt, ann, bob, stored_ann, store, in_order}
use grpc_example.Tests.Memory.{store-IsWellFormed}

abbrev memory : Storage ℤ (MemoryStorage ℤ)
memory = memory_backend ts in_order

abbrev bo : User ℤ
bo = record bob { username = "bo"; role = admin }

abbrev masked_ann : User ℤ
masked_ann = record ann { username = "bo"; role = admin }

masked : apply_mask bo ann (some ("username" ∷ "role" ∷ [])) ≡ ok masked_ann
unfolding apply_mask apply_paths apply_path
masked = refl

apply_mask-IsMasked_example : IsMasked bo ("username" ∷ "role" ∷ []) ann masked_ann
apply_mask-IsMasked_example = apply_mask-IsMasked bo ann masked_ann "username" ("role" ∷ []) masked

add_user-ok_iff_example : ((add_user memory (pos 9) bob store).0 ≡ ok tt) ↔ (
    ((store.users ≢ []) ⊎ (bob.role ≡ admin))
    × (bob.id ≢ 0)
    × (bob.username ≢ "")
    × (lookup bob.id store.users ≡ none))
add_user-ok_iff_example = add_user-ok_iff ts in_order (pos 9) bob store

abbrev rename : UpdateUserRequest ℤ
rename = record {
  user = some (record ann { username = "anna" });
  update_mask = some ("username" ∷ []);
}

bob_added : (add_user memory (pos 9) bob store).0 ≡ ok tt
unfolding add_user backend
bob_added = refl

get_user-add_user_example : get_user memory 2 (add_user memory (pos 9) bob store).1 ≡ (
    if bob.id == 2 then ok (clone_user (with_defaults ts (pos 9) bob)) else get_user memory 2 store)
get_user-add_user_example = get_user-add_user ts in_order (pos 9) bob 2 store bob_added

ann_deleted : (delete_user memory 1 store).0 ≡ ok tt
unfolding delete_user backend
ann_deleted = refl

abbrev anna : User ℤ
anna = record stored_ann { username = "anna" }

ann_renamed : (update_user memory rename store).0 ≡ ok anna
unfolding update_user backend apply_mask apply_paths apply_path
ann_renamed = refl

get_user-update_user_example :
    (anna.id ≡ 1)
    × (get_user memory 1 (update_user memory rename store).1
        ≡ (if nat_eq.beq 1 1 then ok (clone_user anna) else get_user memory 1 store))
get_user-update_user_example =
    get_user-update_user ts in_order rename (record ann { username = "anna" }) anna 1 store
      store-IsWellFormed refl ann_renamed

add_all-StartsWithAdmin_example :
    StartsWithAdmin
      (add_all rt in_order ((pos 1, bob) ∷ (pos 2, ann) ∷ []) new_memory_storage).users
add_all-StartsWithAdmin_example =
    add_all-StartsWithAdmin rt in_order ((pos 1, bob) ∷ (pos 2, ann) ∷ []) new_memory_storage tt

abbrev sends : Sends
sends j = none

streams-skip-admin_example :
    ((add_user memory (pos 9) bob new_memory_storage).0
      ≡ err (status invalid_argument "first user created must be an admin"))
    × ((batch_add_users rt memory ((pos 9, bob) ∷ []) none (pos 9) none new_memory_storage).2.users
        ≡ (bob.id, clone_user (with_defaults ts (pos 9) bob)) ∷ [])
    × ((sync_users rt memory sends ((pos 9, bob) ∷ []) none new_memory_storage).2.users
        ≡ (bob.id, clone_user (with_defaults ts (pos 9) bob)) ∷ [])
streams-skip-admin_example =
    streams-skip-admin rt in_order (pos 9) (pos 9) none sends bob (omega arith)
      (ground (arith, eq_iff "bob" "")) (ground arith)

abbrev message_list : List (ℤ × User ℤ)
message_list = (pos 1, bob) ∷ (pos 2, ann) ∷ (pos 3, record bob { username = "" }) ∷ []

abbrev response : BatchAddUsersResponse ℤ
response = record {
  total_received = 3;
  total_added = 1;
  total_failed = 2;
  errors = "user 2: error" ∷ "user 3: username is required" ∷ [];
  processed_at = some (pos 9);
}

answered : (batch_add_users rt memory message_list none (pos 9) none store).0 ≡ some response
unfolding batch_add_users batch_from batch_step backend decimal show_int32
answered = refl

batch_add_users-IsBalanced_example :
    (response.total_received ≡ length message_list % 2 ^ 32)
    × ((response.total_added + response.total_failed) % 2 ^ 32 ≡ response.total_received)
    × (length response.errors % 2 ^ 32 ≡ response.total_failed)
batch_add_users-IsBalanced_example =
    batch_add_users-IsBalanced rt memory message_list (pos 9) none store response answered

answered_memory :
    (batch_add_users rt memory ((pos 1, bob) ∷ (pos 2, ann) ∷ []) none (pos 9) none store).0
    ≡ some (record response { total_received = 2; total_failed = 1; errors = "user 2: error" ∷ [] })
unfolding batch_add_users batch_from batch_step backend decimal show_int32
answered_memory = refl

sync_step_lem_example :
    ((sync_step rt memory (pos 9) bob store).0.status ≡ success)
    × (lookup 2 (sync_step rt memory (pos 9) bob store).1.users ≡ (
        if nat_eq.beq 2 2
        then some (clone_user (if has 2 store.users then bob else with_defaults ts (pos 9) bob))
        else lookup 2 store.users))
sync_step_lem_example = sync_step_lem rt in_order (pos 9) bob 2 store (omega arith)

abbrev ann_login : UserActivity ℤ
ann_login = record { user_id = 1; activity_type = login; timestamp = some (pos 8); details = none }
