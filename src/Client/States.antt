-- ===== src/Client/States.antt =====
-- cmd/client/main.go: what a demonstration asks of the service is all that it does to its state.
use grpc_example.Common.{
  ℕ, suc, Option, none, some, List, [], ◌∷◌, ◌≡◌, refl, ap, ◌∙◌, true, String,
}
use grpc_example.Errors.{Error, Result, ok, err}
use grpc_example.Proto.{User, BatchAddUsersResponse}
use grpc_example.Client.{admin_user, update_request, batch_users, sync_list, activities}
use grpc_example.Client.Lines.{Line, user_line, sent_activity, send_all}
use grpc_example.Client.Demonstrations.{
  UserServiceClient, addition_shown, shown, batch_reply, batch_sent, removed, demonstrate_add_user,
  demonstrate_get_user, demonstrate_update_user, demonstrate_batch_add_users,
  demonstrate_user_activity_stream, demonstrate_sync_users, demonstrate_delete_user,
}

module _ {T : Type 0} where
  -- A loop whose every `Send` goes out sends everything.
  send_all-sent :
      {A : Type 0} (line : A → Line T) (sends : ℕ → Option Error) (i : ℕ) (list : List A)
      → ((j : ℕ) → sends j ≡ none)
      → ((send_all line sends i list).1 ≡ list) × ((send_all line sends i list).2 ≡ none)
  unfolding send_all
  send_all-sent line sends i [] h = (refl, refl)
  send_all-sent line sends i (a ∷ rest) h =
      let (all, end) = send_all-sent line sends (suc i) rest h in
      rw (send_all, h i) (ap (λ l. a ∷ l) all, end)

module _ {T D S : Type 0} (client : UserServiceClient T D S) where
  addition_shown-state :
      (user : User T) (r : Result (Unit {0}) × S) → (addition_shown client user r).1 ≡ r.1
  addition_shown-state user (ok _, s) = refl
  addition_shown-state user (err e, s) = refl

  shown-state :
      (text problem : String) (r : Result (User T) × S) → (shown client text problem r).1 ≡ r.1
  shown-state text problem (ok user, s) = refl
  shown-state text problem (err e, s) = refl

  batch_reply-state :
      (lines : List (Line T)) (r : Result (BatchAddUsersResponse T) × S)
      → (batch_reply client lines r).1 ≡ r.1
  batch_reply-state lines (ok response, s) = refl
  batch_reply-state lines (err e, s) = refl

  removed-state : (r : Result (Unit {0}) × S) → (removed client r).1 ≡ r.1
  removed-state (ok _, s) = refl
  removed-state (err e, s) = refl

  pub state-add : (s : S) → (demonstrate_add_user client s).1 ≡ (client.add_user admin_user s).1
  unfolding demonstrate_add_user
  state-add s = addition_shown-state admin_user (client.add_user admin_user s)

  pub state-update :
      (s : S) → (demonstrate_update_user client s).1 ≡ (client.update_user update_request s).1
  unfolding demonstrate_update_user
  state-update s = shown-state _ _ (client.update_user update_request s)

  pub state-delete : (s : S) → (demonstrate_delete_user client s).1 ≡ (client.delete_user 5 s).1
  unfolding demonstrate_delete_user
  state-delete s = removed-state (client.delete_user 5 s)

  batch_sent-state :
      (users : List (User T)) (r : List (Line T) × List (User T) × Option Error) (s : S)
      → r.1 ≡ users
      → r.2 ≡ none
      → (batch_sent client r s).1 ≡ (client.send_batch users true s).1
  batch_sent-state users (lines, sent, none) s all end =
      batch_reply-state lines (client.send_batch sent true s)
      ∙ ap (λ l. (client.send_batch l true s).1) all
  batch_sent-state users (lines, sent, some e) s all end = cc

  module _ (begins : (method : String) → client.begin method ≡ none)
      (sends : (method : String) (i : ℕ) → client.sends method i ≡ none) where
    pub state-batch :
        (s : S)
        → (demonstrate_batch_add_users client s).1 ≡ (client.send_batch batch_users true s).1
    unfolding demonstrate_batch_add_users
    state-batch s =
        let (all, end) =
          send_all-sent (user_line "Sent user") (client.sends "BatchAddUsers") 0 batch_users
            (sends "BatchAddUsers") in
        rw (demonstrate_batch_add_users, begins "BatchAddUsers")
          (batch_sent-state batch_users _ s all end)

    pub state-activity :
        (now : ℕ → T) (s : S)
        → (demonstrate_user_activity_stream client now s).1
          ≡ (client.exchange_activities (activities now) s).1
    unfolding demonstrate_user_activity_stream
    state-activity now s =
        let (all, end) =
          send_all-sent sent_activity (client.sends "UserActivityStream") 0 (activities now)
            (sends "UserActivityStream") in
        rw (demonstrate_user_activity_stream, begins "UserActivityStream")
          (ap (λ l. (client.exchange_activities l s).1) all)

    pub state-sync :
        (s : S) → (demonstrate_sync_users client s).1 ≡ (client.exchange_users sync_list s).1
    unfolding demonstrate_sync_users
    state-sync s =
        let (all, end) =
          send_all-sent (user_line "Syncing user") (client.sends "SyncUsers") 0 sync_list
            (sends "SyncUsers") in
        rw (demonstrate_sync_users, begins "SyncUsers")
          (ap (λ l. (client.exchange_users l s).1) all)

  pub state-get : (s : S) → (demonstrate_get_user client s).1 ≡ (client.get_user 1 s).1
  unfolding demonstrate_get_user
  state-get s = shown-state _ _ (client.get_user 1 s)
