-- ===== src/Server/Batch.antt =====
-- The totals of `BatchAddUsers`, on any backend, and on the in-memory one the number of users.
use mathlib.Core.Path.{subst}
use native.Mathlib.Nat.{add-zero, zero-add}
use grpc_example.Common.{
  ℕ, suc, ◌+◌, ◌%◌, ◌^◌, String, ℤ, Option, none, some, List, [], ◌∷◌, ◌≡◌, refl, arith, length,
  length-append, ◌==◌, nat_eq, string_eq, Bool-cases, inl, inr,
}
use grpc_example.Common.Assoc.{length-insert_new}
use grpc_example.Errors.{Error, Result, ok, err}
use grpc_example.Proto.{User, BatchAddUsersResponse}
use grpc_example.Storage.{Storage}
use grpc_example.Clone.{clone_user}
use grpc_example.Memory
use grpc_example.Memory.{MemoryStorage, with_defaults, memory_backend}
use grpc_example.Server.{Runtime}
use grpc_example.Server.Streams.{
  Totals, no_totals, inc32, fail_one, count_added, batch_step, batch_from, batch_response,
  batch_add_users,
}

-- The counters after `n` messages, as int32 bit patterns.
pub record IsBalanced (n : ℕ) (t : Totals) : Type 0 where
  pub received : t.total_received ≡ n % 2 ^ 32
  pub accounted : (t.total_added + t.total_failed) % 2 ^ 32 ≡ t.total_received
  pub reported : length t.errors % 2 ^ 32 ≡ t.total_failed

module _ {T D S : Type 0} (rt : Runtime T D) (st : Storage T S) where
  fail_one-IsBalanced :
      (n : ℕ) (t : Totals) (message : String)
      → IsBalanced n t
      → IsBalanced
          (suc n)
          (fail_one rt st (record t { total_received = inc32 t.total_received }) message)
  fail_one-IsBalanced n t message h = record {
    received = omega (arith, h.received);
    accounted = omega (arith, h.accounted);
    reported = rw length-append (omega (arith, h.reported));
  }

  count_added-IsBalanced :
      (n : ℕ) (t : Totals) (r : Result (Unit {0}) × S)
      → IsBalanced n t
      → IsBalanced
          (suc n)
          (count_added rt st (record t { total_received = inc32 t.total_received }) r).0
  count_added-IsBalanced n t (ok _, s) h = record {
    received = omega (arith, h.received);
    accounted = omega (arith, h.accounted);
    reported = h.reported;
  }
  count_added-IsBalanced n t (err e, s) h = fail_one-IsBalanced n t (rt.error_text e) h

  batch_step-IsBalanced :
      (n : ℕ) (now : ℤ) (user : User T) (t : Totals) (s : S)
      → IsBalanced n t
      → IsBalanced (suc n) (batch_step rt st now user (t, s)).0
  unfolding batch_step
  batch_step-IsBalanced n now user t s h = elim (Bool-cases (user.id == 0)) [
    | inl zero_id ↦ rw zero_id (fail_one-IsBalanced n t "ID must be greater than 0" h)
    | inr some_id ↦ elim (Bool-cases (user.username == "")) [
      | inl no_name ↦ rw (some_id, no_name) (fail_one-IsBalanced n t "username is required" h)
      | inr named ↦ rw (some_id, named) (count_added-IsBalanced n t (st.add_user now user s) h)
    ]
  ]

  batch_from-IsBalanced :
      (n : ℕ) (messages : List (ℤ × User T)) (t : Totals) (s : S)
      → IsBalanced n t
      → IsBalanced (n + length messages) (batch_from rt st messages (t, s)).0
  unfolding batch_from
  batch_from-IsBalanced n [] t s h = rw add-zero h
  batch_from-IsBalanced n ((now, user) ∷ rest) t s h =
      let (t', s') = batch_step rt st now user (t, s) in
      subst (λ k. IsBalanced k (batch_from rt st rest (t', s')).0) (omega arith)
        (batch_from-IsBalanced (suc n) rest t' s' (batch_step-IsBalanced n now user t s h))

  -- When the client ends its stream, whatever the backend does, the response accounts for every
  -- message as an int32 does: the received are the messages, the added and the failed add up to
  -- the received, and there is one error text for each failed one.
  pub batch_add_users-IsBalanced :
      (messages : List (ℤ × User T)) (now : ℤ) (close : Option Error) (s : S)
      (response : BatchAddUsersResponse T)
      → (batch_add_users rt st messages none now close s).0 ≡ some response
      → (response.total_received ≡ length messages % 2 ^ 32)
        × ((response.total_added + response.total_failed) % 2 ^ 32 ≡ response.total_received)
        × (length response.errors % 2 ^ 32 ≡ response.total_failed)
  unfolding batch_add_users
  batch_add_users-IsBalanced messages now close s response h =
      let b = batch_from-IsBalanced 0 messages no_totals s (omega arith) in
      let same : batch_response rt st now (batch_from rt st messages (no_totals, s)).0 ≡ response =
        cc in
      rw (← same) (unfold batch_response in (rw zero-add at b.received, b.accounted, b.reported))

module _ {T D : Type 0} (rt : Runtime T D) (visit : List (ℕ × User T) → List (ℕ × User T)) where
  abbrev memory : Storage T (MemoryStorage T)
  memory = memory_backend rt.timestamps visit

  length-batch_step :
      (now : ℤ) (user : User T) (t : Totals) (s : MemoryStorage T)
      → (length (batch_step rt memory now user (t, s)).1.users + t.total_added) % 2 ^ 32
        ≡ (length s.users + (batch_step rt memory now user (t, s)).0.total_added) % 2 ^ 32
  unfolding batch_step Memory.add_user
  length-batch_step now user t s =
      ground (
        arith,
        length-insert_new user.id (clone_user (with_defaults rt.timestamps now user)) s.users,
      )

  length-batch_from :
      (messages : List (ℤ × User T)) (t : Totals) (s : MemoryStorage T)
      → (length (batch_from rt memory messages (t, s)).1.users + t.total_added) % 2 ^ 32
        ≡ (length s.users + (batch_from rt memory messages (t, s)).0.total_added) % 2 ^ 32
  unfolding batch_from
  length-batch_from [] t s = refl
  length-batch_from ((now, user) ∷ rest) t s =
      let (t', s') = batch_step rt memory now user (t, s) in
      omega (arith, length-batch_step now user t s, length-batch_from rest t' s')

  -- On the in-memory backend, when the client ends its stream, the number of users grows by the
  -- number of additions that the response reports, as an int32 counts.
  length-batch_add_users :
      (messages : List (ℤ × User T)) (now : ℤ) (close : Option Error) (s : MemoryStorage T)
      (response : BatchAddUsersResponse T)
      → (batch_add_users rt memory messages none now close s).0 ≡ some response
      → length (batch_add_users rt memory messages none now close s).2.users % 2 ^ 32
        ≡ (length s.users + response.total_added) % 2 ^ 32
  unfolding batch_add_users
  length-batch_add_users messages now close s response h =
      let same : batch_response rt memory now (batch_from rt memory messages (no_totals, s)).0
          ≡ response =
        cc in
      rw (← same) (unfold batch_response in omega (arith, length-batch_from messages no_totals s))
