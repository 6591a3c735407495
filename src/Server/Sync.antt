-- ===== src/Server/Sync.antt =====
-- `SyncUsers`: the responses on any backend, and what a message does to the in-memory store.
use mathlib.Core.Path.{ap₂}
use grpc_example.Common.{
  ℕ, suc, String, ℤ, true, Option, none, some, List, [], ◌∷◌, ◌≡◌, ◌≢◌, refl, arith, map,
  if◌then◌else◌, ◌==◌, nat_eq, Bool-cases, inl, inr, nat_beq_iff,
}
use grpc_example.Common.Assoc.{lookup, has, lookup-insert}
use grpc_example.Errors.{Error, Result, ok, err, Result-cases}
use grpc_example.Proto.{success, User}
use grpc_example.Storage.{Storage}
use grpc_example.Clone.{clone_map, clone_addresses, clone_user}
use grpc_example.Memory
use grpc_example.Memory.{MemoryStorage, with_defaults, memory_backend}
use grpc_example.Server.{Runtime}
use grpc_example.Server.Streams.{Sends, ended, synced, sync_step, sync_from, sync_users}

module _ {T D S : Type 0} (rt : Runtime T D) (st : Storage T S) where
  user_id-synced :
      (id : ℕ) (fields : List String) (r : Result (Unit {0}) × S)
      → (synced rt st id fields r).0.user_id ≡ id
  user_id-synced id fields (ok _, s) = refl
  user_id-synced id fields (err e, s) = refl

  user_id-sync_step :
      (now : ℤ) (user : User T) (s : S) → (sync_step rt st now user s).0.user_id ≡ user.id
  unfolding sync_step
  user_id-sync_step now user s = elim (Bool-cases (user.id == 0)) [
    | inl zero_id ↦ rw zero_id refl
    | inr some_id ↦ elim (Result-cases (st.user_exists user.id s)) [
      | inl (there, e) ↦ elim (Bool-cases there) [
        | inl old ↦
            rw (some_id, e, old)
              (user_id-synced user.id ("role" ∷ "username" ∷ "profile" ∷ "status" ∷ [])
                (st.update_user user s))
        | inr new ↦
            rw (some_id, e, new) (user_id-synced user.id ("created" ∷ []) (st.add_user now user s))
      ]
      | inr (e, h) ↦ rw (some_id, h) refl
    ]
  ]

  sync_from-replies :
      (send : Sends) (finish : Option Error) (i : ℕ) (messages : List (ℤ × User T)) (s : S)
      → ((j : ℕ) → send j ≡ none)
      → (map (λ r. r.user_id) (sync_from rt st send finish i messages s).0
          ≡ map (λ m. m.1.id) messages)
        × ((sync_from rt st send finish i messages s).1 ≡ ended finish)
  unfolding sync_from
  sync_from-replies send finish i [] s h = (refl, refl)
  sync_from-replies send finish i ((now, user) ∷ rest) s h =
      let (same, end) =
        sync_from-replies send finish (suc i) rest (sync_step rt st now user s).1 h in
      rw (h i) (ap₂ ◌∷◌ (user_id-sync_step now user s) same, end)

  -- If every response goes out, there is one for each message, in order and with its user's id,
  -- and the handler ends as the client's stream does.
  sync_users-replies :
      (send : Sends) (finish : Option Error) (messages : List (ℤ × User T)) (s : S)
      → ((j : ℕ) → send j ≡ none)
      → (map (λ r. r.user_id) (sync_users rt st send messages finish s).0
          ≡ map (λ m. m.1.id) messages)
        × ((sync_users rt st send messages finish s).1 ≡ ended finish)
  unfolding sync_users
  sync_users-replies send finish messages s h = sync_from-replies send finish 0 messages s h

module _ {T D : Type 0} (rt : Runtime T D) (visit : List (ℕ × User T) → List (ℕ × User T)) where
  abbrev memory : Storage T (MemoryStorage T)
  memory = memory_backend rt.timestamps visit

  -- On the in-memory backend a message with an id always succeeds: its user replaces the stored one
  -- whole, or is added with its defaults, and no other id is touched.
  pub sync_step_lem :
      (now : ℤ) (user : User T) (j : ℕ) (s : MemoryStorage T)
      → user.id ≢ 0
      → ((sync_step rt memory now user s).0.status ≡ success)
        × (lookup j (sync_step rt memory now user s).1.users ≡ (
            if user.id == j
            then some (
                clone_user
                  (if has user.id s.users then user else with_defaults rt.timestamps now user))
            else lookup j s.users))
  unfolding sync_step Memory.user_exists Memory.update_user Memory.add_user
  sync_step_lem now user j s some_id = (
    ground (arith, nat_beq_iff user.id 0),
    ground (
      arith,
      nat_beq_iff user.id 0,
      lookup-insert user.id j (clone_user user) s.users,
      lookup-insert user.id j (clone_user (with_defaults rt.timestamps now user)) s.users,
    ),
  )

  -- A message for a stored user reports four updated fields, and overwrites the creation date, the
  -- tags, the metadata, the addresses and the last login as well.
  pub sync_step-overwrites :
      (now : ℤ) (user : User T) (s : MemoryStorage T)
      → user.id ≢ 0
      → has user.id s.users ≡ true
      → ((sync_step rt memory now user s).0.updated_fields
          ≡ "role" ∷ "username" ∷ "profile" ∷ "status" ∷ [])
        × ((v : User T) × (lookup user.id (sync_step rt memory now user s).1.users ≡ some v)
            × (v.create_date ≡ user.create_date)
            × (v.tags ≡ user.tags)
            × (v.metadata ≡ clone_map user.metadata)
            × (v.addresses ≡ clone_addresses user.addresses)
            × (v.last_login ≡ user.last_login))
  unfolding sync_step Memory.user_exists Memory.update_user
  sync_step-overwrites now user s some_id there = (
    ground (arith, nat_beq_iff user.id 0),
    (
      clone_user user,
      ground
          (arith, nat_beq_iff user.id 0, lookup-insert user.id user.id (clone_user user) s.users),
      unfold clone_user in refl,
      unfold clone_user in refl,
      unfold clone_user in refl,
      unfold clone_user in refl,
      unfold clone_user in refl,
    ),
  )
