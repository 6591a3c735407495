-- ===== src/Server/Admins.antt =====
-- The rule that the first user is an admin: `AddUser` keeps it, the streaming handlers do not.
use grpc_example.Common.{
  ℕ, ℤ, false, Option, none, List, [], ◌∷◌, ◌≡◌, ◌≢◌, refl, arith, length, ◌==◌, nat_eq, string_eq,
  int_eq, eq_ℤ_iff, eq_iff, nat_beq_iff, Bool-cases, inl, inr,
}
use grpc_example.Common.Assoc.{insert, has}
use grpc_example.Errors.{Error, err, status, invalid_argument}
use grpc_example.Proto.{admin, User}
use grpc_example.Storage.{Storage}
use grpc_example.Clone.{clone_user}
use grpc_example.Memory
use grpc_example.Memory.{MemoryStorage, new_memory_storage, with_defaults, memory_backend}
use grpc_example.Server.{Runtime, add_user}
use grpc_example.Server.Streams.{Sends, batch_step, batch_from, batch_add_users, sync_users}

module _ {T : Type 0} where
  -- The user who came first, if there is one, is an admin.
  abbrev pub StartsWithAdmin : List (ℕ × User T) → Type 0
  StartsWithAdmin [] = Unit {0}
  StartsWithAdmin ((id, user) ∷ rest) = user.role ≡ admin

  insert-StartsWithAdmin :
      (id : ℕ) (user : User T) (l : List (ℕ × User T))
      → has id l ≡ false
      → ((length l ≡ 0) → user.role ≡ admin)
      → StartsWithAdmin l
      → StartsWithAdmin (insert id user l)
  unfolding insert has
  insert-StartsWithAdmin id user [] new first h = first refl
  insert-StartsWithAdmin id user ((j, u) ∷ l) new first h = elim (Bool-cases (j == id)) [
    | inl same ↦ absurd (ground arith)
    | inr other ↦ rw other h
  ]

module _ {T D : Type 0} (rt : Runtime T D) (visit : List (ℕ × User T) → List (ℕ × User T)) where
  abbrev memory : Storage T (MemoryStorage T)
  memory = memory_backend rt.timestamps visit

  -- Requests to `AddUser`, one after the other.
  abbrev pub add_all : List (ℤ × User T) → MemoryStorage T → MemoryStorage T
  add_all [] s = s
  add_all ((now, user) ∷ rest) s = add_all rest (add_user memory now user s).1

  add_user-StartsWithAdmin :
      (now : ℤ) (user : User T) (s : MemoryStorage T)
      → StartsWithAdmin s.users
      → StartsWithAdmin (add_user memory now user s).1.users
  unfolding add_user Memory.add_user Memory.count clone_user
  add_user-StartsWithAdmin now user s h = ground (
    arith,
    eq_ℤ_iff user.role admin,
    nat_beq_iff (length s.users) 0,
    insert-StartsWithAdmin user.id (clone_user (with_defaults rt.timestamps now user)) s.users,
  )

  -- Requests to `AddUser`, one after the other, on a store that is empty or whose first user is an
  -- admin, leave a store that is empty or whose first user is an admin.
  pub add_all-StartsWithAdmin :
      (requests : List (ℤ × User T)) (s : MemoryStorage T)
      → StartsWithAdmin s.users
      → StartsWithAdmin (add_all requests s).users
  add_all-StartsWithAdmin [] s h = h
  add_all-StartsWithAdmin ((now, user) ∷ rest) s h =
      add_all-StartsWithAdmin rest (add_user memory now user s).1
        (add_user-StartsWithAdmin now user s h)

  -- A valid user who is no admin is refused by `AddUser` on an empty store, and stored there as the
  -- first and only user by `BatchAddUsers` and by `SyncUsers`.
  pub streams-skip-admin :
      (now end : ℤ) (close : Option Error) (send : Sends) (user : User T)
      → user.id ≢ 0
      → user.username ≢ ""
      → user.role ≢ admin
      → ((add_user memory now user new_memory_storage).0
          ≡ err (status invalid_argument "first user created must be an admin"))
        × ((batch_add_users rt memory ((now, user) ∷ []) none end close new_memory_storage).2.users
            ≡ (user.id, clone_user (with_defaults rt.timestamps now user)) ∷ [])
        × ((sync_users rt memory send ((now, user) ∷ []) none new_memory_storage).2.users
            ≡ (user.id, clone_user (with_defaults rt.timestamps now user)) ∷ [])
  unfolding add_user batch_add_users batch_from batch_step sync_users Memory.add_user Memory.count
      Memory.user_exists insert has
  streams-skip-admin now end close send user some_id named no_admin = (
    ground (arith, eq_ℤ_iff user.role admin),
    ground (arith, nat_beq_iff user.id 0, eq_iff user.username ""),
    ground (arith, nat_beq_iff user.id 0),
  )
