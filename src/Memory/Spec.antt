-- ===== src/Memory/Spec.antt =====
-- What the in-memory backend promises, on a partial function from ids to users: the specification
-- of its calls, and the proof that the map refines it.
use grpc_example.Common.{
  ℕ, ℤ, Option, none, some, List, [], ◌∷◌, ◌≡◌, refl, ◌∙◌, arith, All, ◌==◌, nat_eq, if◌then◌else◌,
  Option-cases, inl, inr, ap,
}
use mathlib.Core.Path.{fun_ext}
use grpc_example.Common.Assoc.{lookup, lookup-insert, lookup-delete, has-lookup, All-lookup}
use grpc_example.Errors.{Result, ok, err, status, already_exists, not_found}
use grpc_example.Proto.{User, Timestamps}
use grpc_example.Clone.{clone_user}
use grpc_example.Clone.Laws.{IsProper, without_contact, clone_user_lem}
use grpc_example.Memory.{MemoryStorage, with_defaults, add_user, get_user, update_user, delete_user}
use grpc_example.Memory.Laws.{
  Call, add, update, remove, IsEntry, IsWellFormed, step, run, run-IsWellFormed,
}

abbrev pub View : Type 0 → Type 0
View T = ℕ → Option (User T)

module _ {T : Type 0} where
  abbrev pub view : MemoryStorage T → View T
  view m id = lookup id m.users

  -- The view with one id bound anew.
  abbrev pub bind : ℕ → Option (User T) → View T → View T
  bind id user f j = if id == j then user else f j

  -- The maps of the users that a call carries have each key once.
  abbrev pub IsProperCall : Call T → Type 0
  IsProperCall (add now user) = IsProper user
  IsProperCall (update user) = IsProper user
  IsProperCall (remove id) = Unit

module _ {T : Type 0} (ts : Timestamps T) where
  -- An addition wants a free id and stores the user with its defaults, less its contact fields; an
  -- update wants a taken id; a deletion wants a taken id and frees it.
  abbrev pub spec_step : Call T → View T → Result (Unit {0}) × View T
  spec_step (add now user) f = elim (f user.id) [
    | none ↦ (ok tt, bind user.id (some (without_contact (with_defaults ts now user))) f)
    | some _ ↦ (err (status already_exists "user already exists"), f)
  ]
  spec_step (update user) f = elim (f user.id) [
    | none ↦ (err (status not_found "user not found"), f)
    | some _ ↦ (ok tt, bind user.id (some (without_contact user)) f)
  ]
  spec_step (remove id) f = elim (f id) [
    | none ↦ (err (status not_found "user not found"), f)
    | some _ ↦ (ok tt, bind id none f)
  ]

  abbrev pub spec_results : List (Call T) → View T → List (Result (Unit {0}))
  spec_results [] f = []
  spec_results (c ∷ cs) f = (spec_step c f).0 ∷ spec_results cs (spec_step c f).1

  abbrev pub spec_run : List (Call T) → View T → View T
  spec_run [] f = f
  spec_run (c ∷ cs) f = spec_run cs (spec_step c f).1

  unfoldable pub results : List (Call T) → MemoryStorage T → List (Result (Unit {0}))
  unfolding step
  results [] m = []
  results (c ∷ cs) m = (step ts c m).0 ∷ results cs (step ts c m).1

  with_defaults-IsProper :
      (now : ℤ) (user : User T) → IsProper user → IsProper (with_defaults ts now user)
  with_defaults-IsProper now user h = record { metadata = h.metadata; profile = h.profile }

  result-step : (c : Call T) (m : MemoryStorage T) → (step ts c m).0 ≡ (spec_step c (view m)).0
  unfolding step add_user update_user delete_user
  result-step (add now user) m = ground (arith, has-lookup user.id m.users)
  result-step (update user) m = ground (arith, has-lookup user.id m.users)
  result-step (remove id) m = ground (arith, has-lookup id m.users)

  view-step :
      (c : Call T) (m : MemoryStorage T) (j : ℕ)
      → IsProperCall c
      → view (step ts c m).1 j ≡ (spec_step c (view m)).1 j
  unfolding step add_user update_user delete_user
  view-step (add now user) m j h = ground (
    arith,
    has-lookup user.id m.users,
    clone_user_lem (with_defaults ts now user) (with_defaults-IsProper now user h),
    lookup-insert user.id j (clone_user (with_defaults ts now user)) m.users,
  )
  view-step (update user) m j h = ground (
    arith,
    has-lookup user.id m.users,
    clone_user_lem user h,
    lookup-insert user.id j (clone_user user) m.users,
  )
  view-step (remove id) m j h = ground (arith, has-lookup id m.users, lookup-delete id j m.users)

  -- A run of calls with proper users gives the results of the specification, call by call, and
  -- ends in a map whose view is the specification's.
  pub run-refines :
      (cs : List (Call T)) (m : MemoryStorage T)
      → All IsProperCall cs
      → (results cs m ≡ spec_results cs (view m)) × (view (run ts cs m) ≡ spec_run cs (view m))
  unfolding results run
  run-refines [] m h = (refl, refl)
  run-refines (c ∷ cs) m h =
      let same : view (step ts c m).1 ≡ (spec_step c (view m)).1 =
        fun_ext (λ j. view-step c m j h.0) in
      let later = run-refines cs (step ts c m).1 h.1 in
      (
        rw (result-step c m)
            (ap (◌∷◌ (spec_step c (view m)).0) (later.0 ∙ ap (spec_results cs) same)),
        later.1 ∙ ap (spec_run cs) same,
      )

module _ {T : Type 0} where
  -- What a read of a view returns.
  abbrev pub found : Option (User T) → Result (User T)
  found none = err (status not_found "user not found")
  found (some user) = ok user

  get_user_view :
      (id : ℕ) (m : MemoryStorage T) → IsWellFormed m → get_user id m ≡ found (view m id)
  unfolding get_user
  get_user_view id m h = elim (Option-cases (lookup id m.users)) [
    | inl missing ↦ rw (missing, get_user)
    | inr (user, there) ↦
        let entry = All-lookup IsEntry id m.users h.entries there in
        rw (there, get_user)
          (ap ok
            (clone_user_lem user entry.proper ∙ ground (arith, entry.no_email, entry.no_phone)))
  ]

-- After any run of calls with proper users on an empty store, `GetUser` returns the user that the
-- specification holds under the id, and the error for a missing user where it holds none.
get_user-run :
    {T : Type 0} (ts : Timestamps T) (cs : List (Call T)) (id : ℕ)
    → All IsProperCall cs
    → get_user id (run ts cs (record { users = [] })) ≡ found (spec_run ts cs (λ _. none) id)
unfolding lookup
get_user-run ts cs id h =
    get_user_view id (run ts cs (record { users = [] }))
      (run-IsWellFormed ts cs (record { users = [] }) (record { distinct = tt; entries = tt }))
    ∙ ap (λ f. found (f id)) (run-refines ts cs (record { users = [] }) h).1
