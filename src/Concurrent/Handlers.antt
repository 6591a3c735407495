-- ===== src/Concurrent/Handlers.antt =====
-- server/server.go: the unary handlers of any number of requests, run at the same time.
use grpc_example.Common.{
  ℕ, String, ℤ, Bool, true, false, Option, none, some, List, [], ◌∷◌, map, ◌≡◌, ◌≢◌, arith, All,
  if◌then◌else◌, ◌==◌, ◌&&◌, not, nat_eq, string_eq, int_eq, nat_beq_iff,
}
use grpc_example.Common.Assoc.{lookup, has-lookup, lookup-insert, lookup-delete}
use grpc_example.Errors.{Result, ok, err}
use grpc_example.Proto.{admin, User, Timestamps}
use grpc_example.Storage.{Storage}
use grpc_example.Memory
use grpc_example.Memory.{MemoryStorage, memory_backend, with_defaults}
use grpc_example.Clone.{clone_user}
use grpc_example.Server.{apply_mask}
use grpc_example.Concurrent.{
  Call, count, get, add, update, remove, ask, perform, Program, Request, add_user, get_user,
  update_user, delete_user, Answer, program, replied, store_masked, masked, added, update_calls,
  Run,
}
use grpc_example.Concurrent.Runs.{MakesOnly, Run-kept}

if_both {ℓ κ} :
    {A : Type ℓ} (P : A → Type κ) (b : Bool) {x y : A} → P x → P y → P (if b then x else y)
if_both P true h k = h
if_both P false h k = k

module _ {T : Type 0} where
  -- A call that does not add the user `id`.
  abbrev pub IsNoAddition : ℕ → Call T → Type 0
  IsNoAddition id (add now user) = user.id ≢ id
  IsNoAddition id _ = Unit

  abbrev pub AsksNoAddition : ℕ → Request T → Type 0
  AsksNoAddition id (add_user now user) = user.id ≢ id
  AsksNoAddition id _ = Unit

  module _ (id : ℕ) where
    abbrev IsQuiet : Program T (Answer T) → Type 0
    IsQuiet = MakesOnly (IsNoAddition id)

    replied-IsQuiet : (user : User T) (r : Result (Unit {0})) → IsQuiet (replied user r)
    replied-IsQuiet user (ok _) = tt
    replied-IsQuiet user (err e) = tt

    store_masked-IsQuiet : (r : Result (User T)) → IsQuiet (store_masked r)
    store_masked-IsQuiet (err e) = tt
    store_masked-IsQuiet (ok u) = (tt, replied-IsQuiet u)

    masked-IsQuiet :
        (user : User T) (mask : Option (List String)) (r : Result (User T))
        → IsQuiet (masked user mask r)
    masked-IsQuiet user mask (err e) = tt
    masked-IsQuiet user mask (ok old) = store_masked-IsQuiet (apply_mask user old mask)

    added-IsQuiet :
        (now : ℤ) (user : User T) (r : Result ℕ) → user.id ≢ id → IsQuiet (added now user r)
    added-IsQuiet now user (err e) other = tt
    added-IsQuiet now user (ok n) other =
        if_both IsQuiet ((n == 0) && not (user.role == admin)) tt (
          if_both IsQuiet (user.id == 0) tt
            (if_both IsQuiet (user.username == "") tt (other, λ r. tt)))

    update_calls-IsQuiet :
        (user : Option (User T)) (mask : Option (List String)) → IsQuiet (update_calls user mask)
    update_calls-IsQuiet none mask = tt
    update_calls-IsQuiet (some user) mask =
        if_both IsQuiet (user.id == 0) tt (tt, masked-IsQuiet user mask)

    program-IsQuiet : (r : Request T) → AsksNoAddition id r → IsQuiet (program r)
    program-IsQuiet (add_user now user) other = (tt, λ r. added-IsQuiet now user r other)
    program-IsQuiet (get_user j) _ = if_both IsQuiet (j == 0) tt (tt, λ r. tt)
    program-IsQuiet (update_user req) _ = update_calls-IsQuiet req.user req.update_mask
    program-IsQuiet (delete_user j) _ = if_both IsQuiet (j == 0) tt (tt, λ r. tt)

    programs-IsQuiet :
        (rs : List (Request T)) → All (AsksNoAddition id) rs → All IsQuiet (map program rs)
    programs-IsQuiet [] quiet = tt
    programs-IsQuiet (r ∷ rs) quiet = (program-IsQuiet r quiet.0, programs-IsQuiet rs quiet.1)

module _ {T : Type 0} (ts : Timestamps T) (visit : List (ℕ × User T) → List (ℕ × User T)) where
  abbrev memory : Storage T (MemoryStorage T)
  memory = memory_backend ts visit

  abbrev IsAbsent : ℕ → MemoryStorage T → Type 0
  IsAbsent id m = lookup id m.users ≡ none

  perform-IsAbsent :
      (id : ℕ) (c : Call T) (m : MemoryStorage T)
      → IsNoAddition id c
      → IsAbsent id m
      → IsAbsent id (perform memory c m).1
  unfolding Memory.add_user Memory.update_user Memory.delete_user
  perform-IsAbsent id count m _ h = h
  perform-IsAbsent id (get j) m _ h = h
  perform-IsAbsent id (add now user) m other h = ground (
    arith,
    lookup-insert user.id id (clone_user (with_defaults ts now user)) m.users,
    nat_beq_iff user.id id,
  )
  perform-IsAbsent id (update user) m _ h = ground (
    arith,
    lookup-insert user.id id (clone_user user) m.users,
    has-lookup user.id m.users,
    nat_beq_iff user.id id,
  )
  perform-IsAbsent id (remove j) m _ h = ground (arith, lookup-delete j id m.users)
  perform-IsAbsent id (ask j) m _ h = h

  -- Of requests of which none adds the id, run at the same time: once the user of that id is gone,
  -- no interleaving brings it back. An update that had read the user before it was deleted does not
  -- store it again.
  pub Run-absent :
      (id : ℕ) (rs : List (Request T)) {m m' m'' : MemoryStorage T} {n k : ℕ}
      {qs ps : List (Program T (Answer T))}
      → All (AsksNoAddition id) rs
      → Run memory (map program rs) m n qs m'
      → lookup id m'.users ≡ none
      → Run memory qs m' k ps m''
      → lookup id m''.users ≡ none
  Run-absent id rs quiet before gone after =
      let (still, _) =
        Run-kept (IsNoAddition id) memory (λ _. Unit) (λ c m _ _. tt) before
          (programs-IsQuiet id rs quiet) tt in
      (Run-kept (IsNoAddition id) memory (IsAbsent id) (perform-IsAbsent id) after still gone).1
