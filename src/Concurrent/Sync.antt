-- ===== src/Concurrent/Sync.antt =====
-- server/server.go: a message of `SyncUsers` as the storage calls that it makes, and two of them at once.
use grpc_example.Common.{
  ℕ, String, ℤ, Bool, true, false, none, List, [], ◌∷◌, ◌≡◌, ◌≢◌, refl, ap, arith, if◌then◌else◌,
  ◌==◌, nat_eq, string_eq, int_eq, Bool-cases, inl, inr, nat_beq_iff,
}
use grpc_example.Common.Assoc.{lookup, insert, has, has-lookup, lookup-insert}
use grpc_example.Errors.{Result, ok, err, status, already_exists, Result-cases}
use grpc_example.Proto.{success, failed, User, SyncUserResponse}
use grpc_example.Storage.{Storage}
use grpc_example.Clone.{clone_user}
use grpc_example.Memory
use grpc_example.Memory.{MemoryStorage, with_defaults, memory_backend}
use grpc_example.Server.{Runtime}
use grpc_example.Server.Streams.{synced, sync_step}
use grpc_example.Server.Sync.{sync_step_lem}
use grpc_example.Concurrent.{
  ask, add, update, Program, ret, call, alone, here, there, Run, start, turn,
}

module _ {T D : Type 0} (rt : Runtime T D) where
  abbrev pub sync_refusal : ℕ → String → SyncUserResponse
  sync_refusal id message = record {
    user_id = id;
    status = failed;
    error_message = message;
    updated_fields = [];
  }

  abbrev pub sync_reply : ℕ → List String → Result (Unit {0}) → Program T SyncUserResponse
  sync_reply id fields (err e) = ret (sync_refusal id (rt.error_text e))
  sync_reply id fields (ok _) =
      ret (record { user_id = id; status = success; error_message = ""; updated_fields = fields })

  abbrev pub sync_stored : ℤ → User T → Result Bool → Program T SyncUserResponse
  sync_stored now user (err e) = ret (sync_refusal user.id (rt.error_text e))
  sync_stored now user (ok true) =
      call (update user) (sync_reply user.id ("role" ∷ "username" ∷ "profile" ∷ "status" ∷ []))
  sync_stored now user (ok false) = call (add now user) (sync_reply user.id ("created" ∷ []))

  abbrev pub sync_calls : ℤ → User T → Program T SyncUserResponse
  sync_calls now user =
      if user.id == 0
      then ret (sync_refusal user.id "user ID must be greater than 0")
      else call (ask user.id) (sync_stored now user)

  module _ {S : Type 0} (st : Storage T S) where
    alone-sync_reply :
        (id : ℕ) (fields : List String) (r : Result (Unit {0}) × S)
        → alone st (sync_reply id fields r.0) r.1 ≡ synced rt st id fields r
    alone-sync_reply id fields (ok _, s) = refl
    alone-sync_reply id fields (err e, s) = refl

    -- Alone, the calls of a message answer as the handler does.
    alone-sync_calls :
        (now : ℤ) (user : User T) (s : S)
        → alone st (sync_calls now user) s ≡ sync_step rt st now user s
    unfolding sync_step
    alone-sync_calls now user s = elim (Bool-cases (user.id == 0)) [
      | inl zero_id ↦ rw zero_id refl
      | inr some_id ↦ elim (Result-cases (st.user_exists user.id s)) [
        | inr (e, h) ↦ rw (some_id, h) refl
        | inl (known, h) ↦ elim (Bool-cases known) [
          | inl old ↦ rw (some_id, h, old) (alone-sync_reply user.id _ (st.update_user user s))
          | inr new ↦ rw (some_id, h, new) (alone-sync_reply user.id _ (st.add_user now user s))
        ]
      ]
    ]

    abbrev addition_reply : ℕ → Result (Unit {0}) → Program T SyncUserResponse
    addition_reply id = sync_reply id ("created" ∷ [])

    -- Both ask before either adds.
    both_ask :
        (now now' : ℤ) (u v : User T) (s : S)
        → st.user_exists u.id s ≡ ok false
        → st.user_exists v.id s ≡ ok false
        → Run st
            (call (ask u.id) (sync_stored now u) ∷ call (ask v.id) (sync_stored now' v) ∷ [])
            s
            4
            (addition_reply u.id (st.add_user now u s).0
              ∷ addition_reply v.id (st.add_user now' v (st.add_user now u s).1).0
              ∷ [])
            (st.add_user now' v (st.add_user now u s).1).1
    both_ask now now' u v s h₁ h₂ =
        let a : sync_stored now u (st.user_exists u.id s) ≡ call (add now u) (addition_reply u.id) =
          ap (sync_stored now u) h₁ in
        let b : sync_stored now' v (st.user_exists v.id s)
            ≡ call (add now' v) (addition_reply v.id) =
          ap (sync_stored now' v) h₂ in
        let two : Run st
            (call (ask u.id) (sync_stored now u) ∷ call (ask v.id) (sync_stored now' v) ∷ []) s 2
            (call (add now u) (addition_reply u.id) ∷ call (add now' v) (addition_reply v.id) ∷ [])
            s =
          rw (← a, ← b) (turn (turn start here) (there here)) in
        turn (turn two here) (there here)

  module _ (visit : List (ℕ × User T) → List (ℕ × User T)) where
    abbrev memory : Storage T (MemoryStorage T)
    memory = memory_backend rt.timestamps visit

    -- Over an in-memory map without the id, two messages of `SyncUsers` with that id both succeed one
    -- after the other; but there is an interleaving in which the second is answered that the user
    -- already exists, since each asks for the user in one call and adds it in another.
    pub sync_calls-race :
        (now now' : ℤ) (u v : User T) (m : MemoryStorage T)
        → u.id ≢ 0
        → u.id ≡ v.id
        → lookup u.id m.users ≡ none
        → ((m' : MemoryStorage T) × Run memory
              (sync_calls now u ∷ sync_calls now' v ∷ [])
              m
              4
              (ret (record {
                user_id = u.id;
                status = success;
                error_message = "";
                updated_fields = "created" ∷ [];
              })
                ∷ ret (
                    sync_refusal v.id (rt.error_text (status already_exists "user already exists")))
                ∷ [])
              m')
          × ((sync_step rt memory now u m).0.status ≡ success)
          × ((sync_step rt memory now' v (sync_step rt memory now u m).1).0.status ≡ success)
    unfolding Memory.user_exists Memory.add_user
    sync_calls-race now now' u v m some_id same new =
        let absent : has u.id m.users ≡ false = (has-lookup u.id m.users).1 new in
        let absent' : has v.id m.users ≡ false = rw (← same) absent in
        let stored : List (ℕ × User T) =
          insert u.id (clone_user (with_defaults rt.timestamps now u)) m.users in
        let known : has v.id stored ≡ true = ground (
          arith,
          has-lookup v.id stored,
          lookup-insert u.id v.id (clone_user (with_defaults rt.timestamps now u)) m.users,
          nat_beq_iff u.id v.id,
        ) in
        let first : nat_eq.beq u.id 0 ≡ false = ground (arith, nat_beq_iff u.id 0) in
        let second : nat_eq.beq v.id 0 ≡ false = ground (arith, nat_beq_iff v.id 0) in
        let run = both_ask memory now now' u v m (ap ok absent) (ap ok absent') in
        (
          (record { users = stored }, rw (first, second) (rw (absent, known) at run)),
          (sync_step_lem rt visit now u 0 m some_id).0,
          (sync_step_lem rt visit now' v 0 _ (rw (← same) some_id)).0,
        )
