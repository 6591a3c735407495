-- ===== src/Tests/Concurrent.antt =====
-- The theorems on interleavings, at requests over the in-memory backend.
use grpc_example.Common.{nat_eq, arith, ℕ, ℤ, pos, none, some, List, [], ◌∷◌, map, ◌≡◌, refl}
use grpc_example.Common.Assoc.{lookup}
use grpc_example.Errors.{ok}
use grpc_example.Proto.{success, User, UpdateUserRequest}
use grpc_example.Storage.{Storage}
use grpc_example.Memory.{MemoryStorage, memory_backend}
use grpc_example.Server
use grpc_example.Server.{apply_mask, apply_paths, apply_path}
use grpc_example.Concurrent.{
  Program, ret, Request, update_user, delete_user, call, update, Answer, shown, done, replied,
  program, here, there, Run, start, turn,
}
use grpc_example.Concurrent.Handlers.{Run-absent}
use grpc_example.Concurrent.Update.{update_user-lost}
use grpc_example.Concurrent.Sync.{sync_calls, sync_refusal, sync_calls-race}
use grpc_example.Server.Streams.{sync_step}
use grpc_example.Tests.{backend, rt, ts, ann, stored_ann, store, in_order}

abbrev memory : Storage ℤ (MemoryStorage ℤ)
memory = memory_backend ts in_order

abbrev rename : UpdateUserRequest ℤ
rename = record {
  user = some (record ann { username = "anna" });
  update_mask = some ("username" ∷ []);
}

abbrev retag : UpdateUserRequest ℤ
retag = record { user = some (record ann { tags = [] }); update_mask = some ("tags" ∷ []) }

abbrev requests : List (Request ℤ)
requests = update_user rename ∷ delete_user 1 ∷ []

abbrev programs : List (Program ℤ (Answer ℤ))
programs = map program requests

abbrev gone : MemoryStorage ℤ
gone = (memory.delete_user 1 store).1

abbrev changed : User ℤ
changed = record stored_ann { username = "anna" }

abbrev erased : Program ℤ (Answer ℤ)
erased = ret (done (memory.delete_user 1 store).0)

-- The update reads the user, which is then deleted.
abbrev between : List (Program ℤ (Answer ℤ))
between = call (update changed) (replied changed) ∷ erased ∷ []

read_then_deleted : Run memory programs store 2 between gone
unfolding backend apply_mask apply_paths apply_path
read_then_deleted = turn (turn start here) (there here)

abbrev after : List (Program ℤ (Answer ℤ))
after = replied changed (memory.update_user changed gone).0 ∷ erased ∷ []

then_updated : Run memory between gone 1 after (memory.update_user changed gone).1
then_updated = turn start here

is_gone : lookup 1 gone.users ≡ none
unfolding backend
is_gone = refl

Run-absent_example : lookup 1 (memory.update_user changed gone).1.users ≡ none
Run-absent_example =
    Run-absent ts in_order 1 requests (tt, (tt, tt)) read_then_deleted is_gone then_updated

renamed : (Server.update_user memory rename store).0 ≡ ok changed
unfolding Server.update_user Server.update_existing Server.store_update backend apply_mask
    apply_paths apply_path
renamed = refl

retagged : (Server.update_user memory retag store).0 ≡ ok (record stored_ann { tags = [] })
unfolding Server.update_user Server.update_existing Server.store_update backend apply_mask
    apply_paths apply_path
retagged = refl

update_user-lost_example :
    (m' : MemoryStorage ℤ) × Run memory
      (program (update_user rename) ∷ program (update_user retag) ∷ [])
      store
      4
      (ret (shown (ok changed)) ∷ ret (shown (ok (record stored_ann { tags = [] }))) ∷ [])
      m'
    × ((j : ℕ)
        → Server.get_user memory j m'
          ≡ Server.get_user memory j (Server.update_user memory retag store).1)
update_user-lost_example =
    update_user-lost ts in_order rename retag store changed (record stored_ann { tags = [] })
      renamed retagged refl

-- Two users with an id that is free.
abbrev eve : User ℤ
eve = record ann { id = 9; username = "eve" }

abbrev eva : User ℤ
eva = record ann { id = 9; username = "eva" }

eve_new : lookup 9 store.users ≡ none
unfolding lookup
eve_new = refl

sync_calls-race_example :
    ((m' : MemoryStorage ℤ) × Run memory
        (sync_calls rt (pos 1) eve ∷ sync_calls rt (pos 2) eva ∷ [])
        store
        4
        (ret (record {
          user_id = 9;
          status = success;
          error_message = "";
          updated_fields = "created" ∷ [];
        })
          ∷ ret (sync_refusal rt 9 "error")
          ∷ [])
        m')
    × ((sync_step rt memory (pos 1) eve store).0.status ≡ success)
    × ((sync_step rt memory (pos 2) eva (sync_step rt memory (pos 1) eve store).1).0.status
        ≡ success)
sync_calls-race_example =
    sync_calls-race rt in_order (pos 1) (pos 2) eve eva store (omega arith) refl eve_new
