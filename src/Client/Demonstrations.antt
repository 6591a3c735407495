-- ===== src/Client/Demonstrations.antt =====
-- cmd/client/main.go: the demonstrations, over a service with states `S`. The lines that the
-- goroutine of a stream prints may come between those of the messages sent; they are listed after them.
use grpc_example.Common.{
  ℕ, String, ℤ, pos, ◌-ℤ◌, Bool, true, false, Option, none, some, List, [], ◌∷◌, ◌++◌, string_eq,
  int_eq,
}
use grpc_example.Errors.{Error, Result, ok, err}
use grpc_example.Proto.{
  admin, active, Role, User, UpdateUserRequest, ListUsersRequest, BatchAddUsersResponse,
  UserActivity, UserActivityResponse, SyncUserResponse,
}
use grpc_example.Client.{admin_user, update_request, batch_users, sync_list, activities}
use grpc_example.Client.Lines.{
  Feed, Line, failure, user_line, total, sent_activity, batch_complete, activity_line, deleted,
  done, receive_users, send_all, receive_all, sync_line,
}

-- `pb.UserServiceClient`. A stream takes the messages that were sent; of a batch also whether the client
-- closed it. `sends` is what `Send` returns for each of them.
pub record UserServiceClient (T D S : Type 0) : Type 0 where
  pub add_user : User T → S → Result (Unit {0}) × S
  pub get_user : ℕ → S → Result (User T) × S
  pub update_user : UpdateUserRequest T → S → Result (User T) × S
  pub delete_user : ℕ → S → Result (Unit {0}) × S
  pub list_users : ListUsersRequest T D → S → Result (Feed (User T))
  pub list_users_by_role : Role → S → Result (Feed (User T))
  pub begin : String → Option Error
  pub sends : String → ℕ → Option Error
  pub send_batch : List (User T) → Bool → S → Result (BatchAddUsersResponse T) × S
  pub exchange_activities : List (UserActivity T) → S → Feed (UserActivityResponse T) × S
  pub exchange_users : List (User T) → S → Feed SyncUserResponse × S

module _ {T D S : Type 0} (client : UserServiceClient T D S) where
  abbrev pub addition_shown : User T → Result (Unit {0}) × S → List (Line T) × S
  addition_shown user (err e, s) = (failure "Failed to add user" e ∷ [], s)
  addition_shown user (ok _, s) = (user_line "Successfully added user" user ∷ [], s)

  unfoldable pub demonstrate_add_user : S → List (Line T) × S
  demonstrate_add_user s = addition_shown admin_user (client.add_user admin_user s)

  abbrev pub shown : String → String → Result (User T) × S → List (Line T) × S
  shown text problem (err e, s) = (failure problem e ∷ [], s)
  shown text problem (ok user, s) = (user_line text user ∷ [], s)

  unfoldable pub demonstrate_get_user : S → List (Line T) × S
  demonstrate_get_user s = shown "Retrieved user" "Failed to get user" (client.get_user 1 s)

  unfoldable pub demonstrate_update_user : S → List (Line T) × S
  demonstrate_update_user s =
      shown "Updated user" "Failed to update user" (client.update_user update_request s)

  abbrev pub received : String → String → String → Result (Feed (User T)) → List (Line T)
  received text summary problem (err e) = failure problem e ∷ []
  received text summary problem (ok feed) =
      let (lines, count) = receive_users text 0 feed in lines ++ total summary count ∷ []

  -- The users created in the last day, and older than a year, by the clock's reading.
  unfoldable pub demonstrate_list_users : (ℤ → T) → (ℤ → D) → ℤ → S → List (Line T) × S
  demonstrate_list_users make duration now s = (
    received "User" "Total users received" "Failed to list users" (
        client.list_users
          (record {
            created_since = some (make (now -ℤ pos 86400000000000));
            older_than = some (duration (pos 31536000000000000));
            status = active;
            page_size = pos 0;
            page_token = "";
          })
          s),
    s,
  )

  unfoldable pub demonstrate_list_users_by_role : S → List (Line T) × S
  demonstrate_list_users_by_role s = (
    received "Admin user" "Total admin users" "Failed to list users by role"
        (client.list_users_by_role admin s),
    s,
  )

  abbrev pub batch_reply : List (Line T) → Result (BatchAddUsersResponse T) × S → List (Line T) × S
  batch_reply lines (err e, s) = (lines ++ failure "Failed to receive response" e ∷ [], s)
  batch_reply lines (ok response, s) = (lines ++ batch_complete response ∷ [], s)

  abbrev pub batch_sent : List (Line T) × List (User T) × Option Error → S → List (Line T) × S
  batch_sent (lines, sent, some e) s =
      (lines ++ failure "Failed to send user" e ∷ [], (client.send_batch sent false s).1)
  batch_sent (lines, sent, none) s = batch_reply lines (client.send_batch sent true s)

  unfoldable pub demonstrate_batch_add_users : S → List (Line T) × S
  demonstrate_batch_add_users s = elim (client.begin "BatchAddUsers") [
    | some e ↦ (failure "Failed to start batch add" e ∷ [], s)
    | none ↦
        batch_sent (send_all (user_line "Sent user") (client.sends "BatchAddUsers") 0 batch_users) s
  ]

  -- The line of a failed `Send`.
  abbrev pub problem_of : String → Option Error → List (Line T)
  problem_of text none = []
  problem_of text (some e) = failure text e ∷ []

  abbrev pub activities_sent :
      List (Line T) × List (UserActivity T) × Option Error → S → List (Line T) × S
  activities_sent (lines, sent, e) s =
      let (feed, s') = client.exchange_activities sent s in
      (
        (lines ++ problem_of "Failed to send activity" e)
            ++ (receive_all activity_line "Error receiving activity response" feed
                ++ (done "Activity stream completed" ∷ [])),
        s',
      )

  unfoldable pub demonstrate_user_activity_stream : (ℕ → T) → S → List (Line T) × S
  demonstrate_user_activity_stream now s = elim (client.begin "UserActivityStream") [
    | some e ↦ (failure "Failed to start activity stream" e ∷ [], s)
    | none ↦
        activities_sent
          (send_all sent_activity (client.sends "UserActivityStream") 0 (activities now)) s
  ]

  abbrev pub users_synced : List (Line T) × List (User T) × Option Error → S → List (Line T) × S
  users_synced (lines, sent, e) s =
      let (feed, s') = client.exchange_users sent s in
      (
        (lines ++ problem_of "Failed to send user for sync" e)
            ++ (receive_all sync_line "Error receiving sync response" feed
                ++ (done "User sync completed" ∷ [])),
        s',
      )

  unfoldable pub demonstrate_sync_users : S → List (Line T) × S
  demonstrate_sync_users s = elim (client.begin "SyncUsers") [
    | some e ↦ (failure "Failed to start sync" e ∷ [], s)
    | none ↦
        users_synced (send_all (user_line "Syncing user") (client.sends "SyncUsers") 0 sync_list) s
  ]

  abbrev pub removed : Result (Unit {0}) × S → List (Line T) × S
  removed (err e, s) = (failure "Failed to delete user" e ∷ [], s)
  removed (ok _, s) = (deleted 5 ∷ [], s)

  unfoldable pub demonstrate_delete_user : S → List (Line T) × S
  demonstrate_delete_user s = removed (client.delete_user 5 s)
