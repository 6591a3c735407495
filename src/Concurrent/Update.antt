-- ===== src/Concurrent/Update.antt =====
-- server/server.go: `UpdateUser` reads the user and stores it in two calls of the storage.
use grpc_example.Common.{
  ℕ, String, true, Option, none, some, List, [], ◌∷◌, ◌≡◌, refl, arith, inl, inr, ◌==◌, nat_eq,
  Bool-cases, nat_beq_iff,
}
use grpc_example.Common.Assoc.{lookup, insert, has, has-lookup, lookup-insert}
use grpc_example.Errors.{Result, ok, err, Result-cases}
use grpc_example.Proto.{User, UpdateUserRequest, Timestamps}
use grpc_example.Storage.{Storage}
use grpc_example.Clone.{clone_user}
use grpc_example.Memory
use grpc_example.Memory.{MemoryStorage, memory_backend}
use grpc_example.Server
use grpc_example.Server.{apply_mask}
use grpc_example.Concurrent.{
  get, update, Program, ret, call, update_user, Answer, shown, program, replied, masked,
  update_calls, here, there, Run, start, turn,
}

module _ {T S : Type 0} (st : Storage T S) where
  -- Both read, and then both store.
  both_read :
      (i₁ i₂ : ℕ) (k₁ k₂ : Result (User T) → Program T (Answer T)) (u₁ u₂ : User T) (s : S)
      → k₁ (st.get_user i₁ s) ≡ call (update u₁) (replied u₁)
      → k₂ (st.get_user i₂ s) ≡ call (update u₂) (replied u₂)
      → Run st
          (call (get i₁) k₁ ∷ call (get i₂) k₂ ∷ [])
          s
          4
          (replied u₁ (st.update_user u₁ s).0
            ∷ replied u₂ (st.update_user u₂ (st.update_user u₁ s).1).0
            ∷ [])
          (st.update_user u₂ (st.update_user u₁ s).1).1
  both_read i₁ i₂ k₁ k₂ u₁ u₂ s h₁ h₂ =
      let two : Run st (call (get i₁) k₁ ∷ call (get i₂) k₂ ∷ []) s 2
          (call (update u₁) (replied u₁) ∷ call (update u₂) (replied u₂) ∷ []) s =
        rw (← h₁, ← h₂) (turn (turn start here) (there here)) in
      turn (turn two here) (there here)

  -- The update stores `u`, as its last call does.
  abbrev IsStored : User T → S → Result (User T) × S → Type 0
  IsStored u s answer = ((st.update_user u s).0 ≡ ok tt) × (answer.1 ≡ (st.update_user u s).1)

  store_update-ok :
      (u v : User T) (outcome : Result (Unit {0}) × S)
      → (Server.store_update st u outcome).0 ≡ ok v
      → (u ≡ v) × (outcome.0 ≡ ok tt) × ((Server.store_update st u outcome).1 ≡ outcome.1)
  unfolding Server.store_update
  store_update-ok u v (ok _, s) h = (cc, refl, refl)
  store_update-ok u v (err e, s) h = cc

  update_existing-ok :
      (user u : User T) (mask : Option (List String)) (s : S)
      → (Server.update_existing st user mask s).0 ≡ ok u
      → (masked user mask (st.get_user user.id s) ≡ call (update u) (replied u))
        × IsStored u s (Server.update_existing st user mask s)
  unfolding Server.update_existing Server.store_update
  update_existing-ok user u mask s h = elim (Result-cases (st.get_user user.id s)) [
    | inr (e, failed) ↦ absurd (ground (arith, rw (Server.update_existing, failed) at h))
    | inl (old, got) ↦ elim (Result-cases (apply_mask user old mask)) [
      | inr (e, failed) ↦ absurd (ground (arith, rw (Server.update_existing, got, failed) at h))
      | inl (v, fine) ↦
          let h' = rw (Server.update_existing, got, fine) at h in
          let (same, done, after) = store_update-ok v u (st.update_user v s) h' in
          rw (Server.update_existing, got, fine, ← same) (refl, (done, after))
    ]
  ]

  -- An update that succeeds: the call that it reads with, and what it stores then.
  update_calls-ok :
      (user : Option (User T)) (mask : Option (List String)) (s : S) (u : User T)
      → (Server.update_user st (record { user = user; update_mask = mask }) s).0 ≡ ok u
      → (id : ℕ) × (k : Result (User T) → Program T (Answer T)) × (update_calls user mask
          ≡ call (get id) k)
        × (k (st.get_user id s) ≡ call (update u) (replied u))
        × IsStored u s (Server.update_user st (record { user = user; update_mask = mask }) s)
  unfolding Server.update_user
  update_calls-ok none mask s u h = cc
  update_calls-ok (some user) mask s u h = elim (Bool-cases (user.id == 0)) [
    | inl zero_id ↦ absurd (ground (arith, rw zero_id at h))
    | inr positive ↦
        let (stores, stored) = update_existing-ok user u mask s (rw positive at h) in
        rw positive (user.id, masked user mask, refl, stores, stored)
  ]

module _ {T : Type 0} (ts : Timestamps T) (visit : List (ℕ × User T) → List (ℕ × User T)) where
  abbrev memory : Storage T (MemoryStorage T)
  memory = memory_backend ts visit

  -- An update after another of the same user.
  second_update :
      (u v : User T) (m : MemoryStorage T)
      → u.id ≡ v.id
      → (Memory.update_user u m).0 ≡ ok tt
      → ((Memory.update_user v (Memory.update_user u m).1).0 ≡ ok tt)
        × ((j : ℕ)
            → lookup j (Memory.update_user v (Memory.update_user u m).1).1.users
              ≡ lookup j (Memory.update_user v m).1.users)
  unfolding Memory.update_user
  second_update u v m same h =
      let there : has u.id m.users ≡ true = ground arith in
      let there' : has v.id m.users ≡ true = rw (← same) there in
      let inserted = insert u.id (clone_user u) m.users in
      let again : has v.id inserted ≡ true = ground (
        arith,
        has-lookup v.id inserted,
        lookup-insert u.id v.id (clone_user u) m.users,
        nat_beq_iff u.id v.id,
      ) in
      rw (there, there', again)
        (
          refl,
          λ j. ground (
            arith,
            lookup-insert v.id j (clone_user v) inserted,
            lookup-insert v.id j (clone_user v) m.users,
            lookup-insert u.id j (clone_user u) m.users,
            nat_beq_iff u.id j,
            nat_beq_iff v.id j,
          ),
        )

  get_user_same :
      (j : ℕ) (m m' : MemoryStorage T)
      → lookup j m.users ≡ lookup j m'.users
      → Server.get_user memory j m ≡ Server.get_user memory j m'
  unfolding Server.get_user Memory.get_user
  get_user_same j m m' same = rw (Server.get_user, Memory.get_user, same) refl

  -- Of two updates of the same user that would each succeed over the map, there is an interleaving in
  -- which both reply as they would have alone, and `GetUser` then returns what it returns after the
  -- second alone: the first is lost, whatever fields the two masks name.
  pub update_user-lost :
      (first second : UpdateUserRequest T) (m : MemoryStorage T) (u v : User T)
      → (Server.update_user memory first m).0 ≡ ok u
      → (Server.update_user memory second m).0 ≡ ok v
      → u.id ≡ v.id
      → (m' : MemoryStorage T) × Run memory
          (program (update_user first) ∷ program (update_user second) ∷ [])
          m
          4
          (ret (shown (ok u)) ∷ ret (shown (ok v)) ∷ [])
          m'
        × ((j : ℕ)
            → Server.get_user memory j m'
              ≡ Server.get_user memory j (Server.update_user memory second m).1)
  update_user-lost first second m u v hu hv same =
      let (i, k, pu, reads, (done, _)) =
        update_calls-ok memory first.user first.update_mask m u hu in
      let (i', k', pv, reads', (_, stored)) =
        update_calls-ok memory second.user second.update_mask m v hv in
      let (done', as_alone) = second_update u v m same done in
      let run = both_read memory i i' k k' u v m reads reads' in
      (
        (Memory.update_user v (Memory.update_user u m).1).1,
        rw (pu, pv) (rw (done, done') at run),
        λ j. rw stored (get_user_same j _ _ (as_alone j)),
      )
