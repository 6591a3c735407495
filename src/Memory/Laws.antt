-- ===== src/Memory/Laws.antt =====
-- The invariant of the in-memory map, and what each method does to the number of users.
use grpc_example.Common.{
  ℕ, ◌+◌, Bool, true, false, List, [], ◌∷◌, ◌≡◌, refl, arith, length, All, nat_eq, if◌then◌else◌,
  Bool-cases, inl, inr, ℤ,
}
use grpc_example.Common.Assoc.{
  insert, has, IsMap, insert-IsMap, delete-IsMap, All-insert, All-delete, length-insert_new,
  length-insert_old, length-delete,
}
use grpc_example.Errors.{Result, ok, is_ok}
use grpc_example.Proto.{User, Timestamps}
use grpc_example.Clone.{clone_user}
use grpc_example.Clone.Laws.{IsProper, clone_user-IsProper}
use grpc_example.Memory.{MemoryStorage, with_defaults, add_user, update_user, delete_user, count}

-- The calls that may change the map.
pub data Call (T : Type 0) : Type 0 where
  add : ℤ → User T → Call T
  update : User T → Call T
  remove : ℕ → Call T

module _ {T : Type 0} where
  -- What the map holds under the key `k`.
  pub record IsEntry (e : ℕ × User T) : Type 0 where
    pub keyed : e.1.id ≡ e.0
    pub no_email : e.1.email ≡ ""
    pub no_phone : e.1.phone ≡ ""
    pub proper : IsProper e.1

  pub record IsWellFormed (m : MemoryStorage T) : Type 0 where
    pub distinct : IsMap m.users
    pub entries : All IsEntry m.users

  clone_user-IsEntry : (k : ℕ) (user : User T) → user.id ≡ k → IsEntry (k, clone_user user)
  unfolding clone_user
  clone_user-IsEntry k user h = record {
    keyed = h;
    no_email = refl;
    no_phone = refl;
    proper = clone_user-IsProper user;
  }

module _ {T : Type 0} (ts : Timestamps T) where
  unfoldable pub step : Call T → MemoryStorage T → Result (Unit {0}) × MemoryStorage T
  step (add now user) m = add_user ts now user m
  step (update user) m = update_user user m
  step (remove id) m = delete_user id m

  unfoldable pub run : List (Call T) → MemoryStorage T → MemoryStorage T
  run [] m = m
  run (c ∷ cs) m = run cs (step c m).1

  pub stored-IsWellFormed :
      (user : User T) (m : MemoryStorage T)
      → IsWellFormed m
      → IsWellFormed (record { users = insert user.id (clone_user user) m.users })
  stored-IsWellFormed user m h = record {
    distinct = insert-IsMap user.id (clone_user user) m.users h.distinct;
    entries =
        All-insert IsEntry user.id (clone_user user) m.users h.entries
          (clone_user-IsEntry user.id user refl);
  }

  pub step-IsWellFormed :
      (c : Call T) (m : MemoryStorage T) → IsWellFormed m → IsWellFormed (step c m).1
  unfolding step add_user update_user delete_user
  step-IsWellFormed (add now user) m h = elim (Bool-cases (has user.id m.users)) [
    | inl there ↦ rw there h
    | inr new ↦ rw new (stored-IsWellFormed (with_defaults ts now user) m h)
  ]
  step-IsWellFormed (update user) m h = elim (Bool-cases (has user.id m.users)) [
    | inl there ↦ rw there (stored-IsWellFormed user m h)
    | inr new ↦ rw new h
  ]
  step-IsWellFormed (remove id) m h = elim (Bool-cases (has id m.users)) [
    | inl there ↦ rw there (record {
      distinct = delete-IsMap id m.users h.distinct;
      entries = All-delete IsEntry id m.users h.entries;
    })
    | inr new ↦ rw new h
  ]

  -- Any sequence of additions, updates and deletions, failing or not, keeps the map well-formed:
  -- no id twice, every user under its own id, with no email, no phone and proper maps.
  pub run-IsWellFormed :
      (cs : List (Call T)) (m : MemoryStorage T) → IsWellFormed m → IsWellFormed (run cs m)
  unfolding run
  run-IsWellFormed [] m h = h
  run-IsWellFormed (c ∷ cs) m h = run-IsWellFormed cs (step c m).1 (step-IsWellFormed c m h)

  -- How many calls of a run succeed, of the additions and of the deletions.
  abbrev one_if : Bool → ℕ
  one_if true = 1
  one_if false = 0

  abbrev pub adds : Call T → Bool
  adds (add now user) = true
  adds _ = false

  abbrev pub removes : Call T → Bool
  removes (remove id) = true
  removes _ = false

  abbrev pub succeeded : (Call T → Bool) → List (Call T) → MemoryStorage T → ℕ
  succeeded kind [] m = 0
  succeeded kind (c ∷ cs) m =
      (if kind c then one_if (is_ok (step c m).0) else 0) + succeeded kind cs (step c m).1

  length-step :
      (c : Call T) (m : MemoryStorage T)
      → IsWellFormed m
      → length (step c m).1.users + (if removes c then one_if (is_ok (step c m).0) else 0)
        ≡ length m.users + (if adds c then one_if (is_ok (step c m).0) else 0)
  unfolding step add_user update_user delete_user
  length-step (add now user) m h =
      ground (arith, length-insert_new user.id (clone_user (with_defaults ts now user)) m.users)
  length-step (update user) m h =
      ground (arith, length-insert_old user.id (clone_user user) m.users)
  length-step (remove id) m h = ground (arith, length-delete id m.users h.distinct)

  -- From a well-formed map, the number that `Count` returns after a run is the number before it,
  -- plus the additions that succeeded, less the deletions that did.
  count-run :
      (cs : List (Call T)) (m : MemoryStorage T) {before after : ℕ}
      → IsWellFormed m
      → count m ≡ ok before
      → count (run cs m) ≡ ok after
      → after + succeeded removes cs m ≡ before + succeeded adds cs m
  unfolding run count
  count-run [] m h b a = ground arith
  count-run (c ∷ cs) m {before} {after} h b a =
      let later = count-run cs (step c m).1 (step-IsWellFormed c m h) refl a in
      ground (arith, later, length-step c m h)
