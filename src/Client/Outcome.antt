-- ===== src/Client/Outcome.antt =====
-- cmd/client/main.go against the in-memory server: the store after all the demonstrations.
use mathlib.Core.Path.{subst}
use grpc_example.Common.{
  ℕ, suc, ◌<◌, ℤ, String, true, none, some, List, ◌≡◌, refl, sym, ◌∙◌, ap, arith, if◌then◌else◌,
  ◌==◌, nat_eq, nat_beq_iff, inl, inr,
}
use grpc_example.Common.Assoc.{lookup, has-lookup}
use grpc_example.Common.{Option-cases}
use grpc_example.Proto.{guest, admin, User}
use grpc_example.Memory.{MemoryStorage}
use grpc_example.Memory.Laws.{IsWellFormed}
use grpc_example.Server.{Runtime}
use grpc_example.Server.Activity.{with_login}
use grpc_example.Client.{admin_user, update_request, batch_users, sync_list, activities}
use grpc_example.Client.Demonstrations.{
  UserServiceClient, demonstrate_list_users, demonstrate_list_users_by_role,
}
use grpc_example.Client.Run.{run_all, run_demonstrations}
use grpc_example.Client.States.{
  state-add, state-get, state-update, state-batch, state-activity, state-sync, state-delete,
}
use grpc_example.Client.Served.{connected}
use grpc_example.Client.Ends.{
  add_admin-IsWellFormed, has-add_admin, add_admin-same, demoted, demoted-IsDemoted,
  update-IsWellFormed, batch-IsWellFormed, batch-same, update-same,
}
use grpc_example.Client.Streams.{
  lookup-activity, sync-Promoted, sync-same, lookup-remove, remove-same, activity-same,
}

-- The store after the demonstrations, against the store before them: the administrator, user 1, has lost
-- the username and the role, and logged in at `time`; user 2 is an administrator; user 5 is gone; and
-- no user of a greater id has changed.
pub record IsDemonstrated {T : Type 0} (time : T) (before after : MemoryStorage T) : Type 0 where
  pub demoted :
      (u : User T) × (lookup 1 after.users ≡ some u)
      × (u.username ≡ "")
      × (u.role ≡ guest)
      × (u.last_login ≡ some time)
  pub promoted :
      (u : User T) × (lookup 2 after.users ≡ some u)
      × (u.username ≡ "user1_updated")
      × (u.role ≡ admin)
  pub removed : lookup 5 after.users ≡ none
  pub kept : (j : ℕ) → 5 < j → lookup j after.users ≡ lookup j before.users

module _ {T D : Type 0} (rt : Runtime T D) (visit : List (ℕ × User T) → List (ℕ × User T)) (now : ℤ)
    (clock : ℕ → ℤ) where
  abbrev client : UserServiceClient T D (MemoryStorage T)
  client = connected rt visit now clock

  -- The store after each of the calls that change it.
  module _ (s : MemoryStorage T) (times : ℕ → T) where
    abbrev after_add : MemoryStorage T
    after_add = (client.add_user admin_user s).1

    abbrev after_update : MemoryStorage T
    after_update = (client.update_user update_request after_add).1

    abbrev after_batch : MemoryStorage T
    after_batch = (client.send_batch batch_users true after_update).1

    abbrev after_activities : MemoryStorage T
    after_activities = (client.exchange_activities (activities times) after_batch).1

    abbrev after_sync : MemoryStorage T
    after_sync = (client.exchange_users sync_list after_activities).1

    abbrev after_all : MemoryStorage T
    after_all = (client.delete_user 5 after_sync).1

  begins : (method : String) → client.begin method ≡ none
  begins method = refl

  sends : (method : String) (i : ℕ) → client.sends method i ≡ none
  sends method i = refl

  run_demonstrations-state :
      (make : ℤ → T) (duration : ℤ → D) (readings : ℕ → ℤ) (s : MemoryStorage T)
      → (run_demonstrations client make duration readings s).1
        ≡ after_all s (λ i. make (readings (suc i)))
  unfolding run_demonstrations run_all demonstrate_list_users demonstrate_list_users_by_role
  run_demonstrations-state make duration readings s =
      state-delete client _
      ∙ ap (λ x. (client.delete_user 5 x).1)
          (state-sync client begins sends _
            ∙ ap (λ x. (client.exchange_users sync_list x).1)
                (state-activity client begins sends (λ i. make (readings (suc i))) _
                  ∙ ap
                      (λ x.
                        (client.exchange_activities (activities (λ i. make (readings (suc i))))
                          x).1)
                      (state-batch client begins sends _
                        ∙ ap (λ x. (client.send_batch batch_users true x).1)
                            (state-update client _
                              ∙ ap (λ x. (client.update_user update_request x).1)
                                  (state-get client _ ∙ state-add client s)))))

  module _ (s : MemoryStorage T) (times : ℕ → T) (w : IsWellFormed s) (u : User T)
      (there : lookup 1 (after_add s times).users ≡ some u) where
    batch-w : IsWellFormed (after_batch s times)
    batch-w = batch-IsWellFormed rt visit now clock _ (
        update-IsWellFormed rt visit now clock u _ (add_admin-IsWellFormed rt visit now clock s w)
          there)

    updated :
        (j : ℕ)
        → lookup j (after_update s times).users ≡ (
            if 1 == j
            then some (demoted rt visit now clock u)
            else lookup j (after_add s times).users)
    updated j =
        update-same rt visit now clock u j _ (add_admin-IsWellFormed rt visit now clock s w) there

    kept : (j : ℕ) → 5 < j → lookup j (after_all s times).users ≡ lookup j s.users
    kept j more =
        remove-same rt visit now clock j _ (ground arith)
        ∙ (sync-same rt visit now clock j _ (ground arith) (ground arith)
            ∙ (activity-same rt visit now clock times j _ batch-w (ground arith)
                ∙ (batch-same rt visit now clock j _ (inr more)
                    ∙ (updated j
                        ∙ (ground
                            (arith, nat_beq_iff 1 j, add_admin-same rt visit now clock j s))))))

    administrator :
        lookup 1 (after_all s times).users
        ≡ with_login rt visit (some (times 0)) (some (demoted rt visit now clock u))
    administrator =
        remove-same rt visit now clock 1 _ (ground arith)
        ∙ (sync-same rt visit now clock 1 _ (ground arith) (ground arith)
            ∙ (lookup-activity rt visit now clock times 1 _ batch-w
                ∙ ap (with_login rt visit (some (times 0)))
                    (batch-same rt visit now clock 1 _ (inl refl) ∙ updated 1)))

    after_all-IsDemonstrated : IsDemonstrated (times 0) s (after_all s times)
    after_all-IsDemonstrated =
        let (nameless, roleless) = demoted-IsDemoted rt visit now clock u in
        let (v, stored, named, ranked) =
          sync-Promoted rt visit now clock (after_activities s times) in
        record {
          demoted = (_, administrator, nameless, roleless, refl);
          promoted = (v, remove-same rt visit now clock 2 _ (ground arith) ∙ stored, named, ranked);
          removed = lookup-remove rt visit now clock 5 (after_sync s times);
          kept = kept;
        }

  -- From any well-formed in-memory store, over a connection that carries every message, the
  -- demonstrations leave user 1 without a username, with the role of a guest and logged in at the first
  -- activity's time; user 2 is an administrator, user 5 is gone, and no user of a greater id has
  -- changed.
  pub run_demonstrations-IsDemonstrated :
      (make : ℤ → T) (duration : ℤ → D) (readings : ℕ → ℤ) (s : MemoryStorage T)
      → IsWellFormed s
      → IsDemonstrated (make (readings 1)) s (run_demonstrations client make duration readings s).1
  run_demonstrations-IsDemonstrated make duration readings s w =
      let times : ℕ → T = λ i. make (readings (suc i)) in
      elim (Option-cases (lookup 1 (after_add s times).users)) [
        | inl missing ↦ absurd (
            ground
              (arith, has-lookup 1 (after_add s times).users, has-add_admin rt visit now clock s))
        | inr (u, there) ↦
            subst (IsDemonstrated (make (readings 1)) s)
              (sym (run_demonstrations-state make duration readings s))
              (after_all-IsDemonstrated s times w u there)
      ]
