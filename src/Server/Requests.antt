-- ===== src/Server/Requests.antt =====
-- The unary handlers on the in-memory backend.
use grpc_example.Common.{
  ℕ, String, ℤ, true, Option, none, some, List, [], ◌∷◌, ◌≡◌, ◌≢◌, refl, ◌∙◌, ◌↔◌, ◌⊎◌, arith,
  length, if◌then◌else◌, ◌==◌, nat_eq, string_eq, int_eq, eq_ℤ_iff, eq_iff, Bool-cases,
  Option-cases, inl, inr, nat_beq_iff,
}
use grpc_example.Common.Assoc.{lookup, insert, lookup-insert, lookup-delete, has-lookup, All-lookup}
use grpc_example.Errors.{Result, ok, err, Result-cases, status, not_found}
use grpc_example.Proto.{admin, User, UpdateUserRequest, Timestamps}
use grpc_example.Storage.{Storage}
use grpc_example.Clone.{clone_user}
use grpc_example.Clone.Laws.{clone_user_lem, clone_user-IsProper}
use grpc_example.Memory
use grpc_example.Memory.{MemoryStorage, with_defaults, memory_backend}
use grpc_example.Memory.Laws.{IsEntry, IsWellFormed}
use grpc_example.Server.Mask.{id-apply_mask}
use grpc_example.Server.{apply_mask, add_user, get_user, update_existing, update_user, delete_user}

module _ {T : Type 0} where
  -- A second clone changes nothing.
  clone_user_idem : (user : User T) → clone_user (clone_user user) ≡ clone_user user
  clone_user_idem user =
      clone_user_lem (clone_user user) (clone_user-IsProper user) ∙ (unfold clone_user in refl)

-- A reply, or an error beside the state `s`.
abbrev pub OkOrUnchanged : {S A : Type 0} → S → Result A × S → Type 0
OkOrUnchanged {A = A'} s answer = ((a : A') × (answer.0 ≡ ok a)) ⊎ (answer.1 ≡ s)

module _ {T : Type 0} (ts : Timestamps T) (visit : List (ℕ × User T) → List (ℕ × User T)) where
  abbrev memory : Storage T (MemoryStorage T)
  memory = memory_backend ts visit

  empty_iff : (l : List (ℕ × User T)) → (nat_eq.beq (length l) 0 ≡ true) ↔ (l ≡ [])
  empty_iff [] = (λ _. refl, λ _. refl)
  empty_iff (e ∷ l) = (λ h. ground arith, λ h. cc)

  -- `AddUser` succeeds exactly if there is a user already or the new one is an admin, its id is not
  -- 0, its username is not empty and its id is free.
  pub add_user-ok_iff :
      (now : ℤ) (user : User T) (s : MemoryStorage T)
      → ((add_user memory now user s).0 ≡ ok tt) ↔ (
          ((s.users ≢ []) ⊎ (user.role ≡ admin))
          × (user.id ≢ 0)
          × (user.username ≢ "")
          × (lookup user.id s.users ≡ none))
  unfolding add_user Memory.add_user Memory.count
  add_user-ok_iff now user s = ground (
    arith,
    empty_iff s.users,
    eq_ℤ_iff user.role admin,
    eq_iff user.username "",
    has-lookup user.id s.users,
  )

  get_user-insert :
      (id j : ℕ) (user : User T) (s : MemoryStorage T)
      → Memory.get_user j (record { users = insert id (clone_user user) s.users })
        ≡ (if id == j then ok (clone_user user) else Memory.get_user j s)
  unfolding Memory.get_user
  get_user-insert id j user s =
      ground (arith, lookup-insert id j (clone_user user) s.users, clone_user_idem user)

  -- After an addition that succeeded, `GetUser` of the new id returns the clone of the user with
  -- its defaults, and of any other id what it returned before.
  pub get_user-add_user :
      (now : ℤ) (user : User T) (j : ℕ) (s : MemoryStorage T)
      → (add_user memory now user s).0 ≡ ok tt
      → get_user memory j (add_user memory now user s).1 ≡ (
          if user.id == j then ok (clone_user (with_defaults ts now user)) else get_user memory j s)
  unfolding add_user get_user Memory.add_user Memory.count
  get_user-add_user now user j s h =
      ground (arith, nat_beq_iff user.id j, get_user-insert user.id j (with_defaults ts now user) s)

  -- After a deletion that succeeded, `GetUser` of that id finds nothing, and of any other id returns
  -- what it returned before.
  get_user-delete_user :
      (id j : ℕ) (s : MemoryStorage T)
      → (delete_user memory id s).0 ≡ ok tt
      → get_user memory j (delete_user memory id s).1
        ≡ (if id == j then err (status not_found "user not found") else get_user memory j s)
  unfolding delete_user get_user Memory.delete_user Memory.get_user
  get_user-delete_user id j s h = ground (arith, nat_beq_iff id j, lookup-delete id j s.users)

  update_existing-ok :
      (user reply : User T) (mask : Option (List String)) (s : MemoryStorage T)
      → IsWellFormed s
      → (update_existing memory user mask s).0 ≡ ok reply
      → (reply.id ≡ user.id)
        × ((update_existing memory user mask s).1
            ≡ record { users = insert reply.id (clone_user reply) s.users })
  unfolding update_existing Memory.get_user Memory.update_user
  update_existing-ok user reply mask s w h = elim (Option-cases (lookup user.id s.users)) [
    | inl missing ↦ ground arith
    | inr (stored, there) ↦ elim (Result-cases (apply_mask user (clone_user stored) mask)) [
      | inl (after, masked) ↦
          let same_id : (clone_user stored).id ≡ user.id =
            unfold clone_user in (All-lookup IsEntry user.id s.users w.entries there).keyed in
          let kept_id = id-apply_mask user (clone_user stored) after mask masked in
          (ground arith, ground arith)
      | inr (e, refused) ↦ ground arith
    ]
  ]

  update_user-ok :
      (req : UpdateUserRequest T) (user reply : User T) (s : MemoryStorage T)
      → IsWellFormed s
      → req.user ≡ some user
      → (update_user memory req s).0 ≡ ok reply
      → (user.id ≢ 0)
        × (reply.id ≡ user.id)
        × ((update_user memory req s).1
            ≡ record { users = insert reply.id (clone_user reply) s.users })
  unfolding update_user
  update_user-ok req user reply s w given h = rw given (elim (Bool-cases (user.id == 0)) [
    | inl zero_id ↦ absurd (ground arith)
    | inr some_id ↦
        let h' : (update_existing memory user req.update_mask s).0 ≡ ok reply = ground arith in
        let (a, b) = update_existing-ok user reply req.update_mask s w h' in
        (ground arith, a, rw some_id b)
  ])

  -- From a well-formed store, after an update that succeeded: the reply has the id of the request's
  -- user, `GetUser` of that id returns the clone of the reply, and of any other id what it returned
  -- before.
  pub get_user-update_user :
      (req : UpdateUserRequest T) (user reply : User T) (j : ℕ) (s : MemoryStorage T)
      → IsWellFormed s
      → req.user ≡ some user
      → (update_user memory req s).0 ≡ ok reply
      → (reply.id ≡ user.id)
        × (get_user memory j (update_user memory req s).1
            ≡ (if user.id == j then ok (clone_user reply) else get_user memory j s))
  unfolding get_user
  get_user-update_user req user reply j s w given h =
      let (some_id, same_id, stored) = update_user-ok req user reply s w given h in
      (
        same_id,
        rw (stored, ← same_id)
            (ground (arith, get_user-insert reply.id j reply s, nat_beq_iff reply.id j)),
      )
