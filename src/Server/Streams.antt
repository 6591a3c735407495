-- ===== src/Server/Streams.antt =====
-- server/server.go: the streaming handlers. What a client sends is the list of its messages, each
-- with the clock's reading at its turn, and then its end: `none` for `io.EOF` or the error that
-- `Recv` returns. `send i` is what `Send` returns for the response number `i`: `none` if it went
-- out. A handler returns the responses that went out, its result and the backend's new state.
use grpc_example.Common.{
  ℕ, suc, ◌+◌, ◌%◌, ◌^◌, String, ℤ, Bool, true, false, Option, none, some, List, [], ◌∷◌, ◌++◌,
  if◌then◌else◌, ◌==◌, nat_eq, string_eq, int_eq, ◌<>◌, decimal, show_int32,
}
use grpc_example.Errors.{Error, Result, ok, err, status, not_found}
use grpc_example.Proto.{
  Role, login, success, failed, User, ListUsersRequest, BatchAddUsersResponse, UserActivity,
  UserActivityResponse, SyncUserResponse,
}
use grpc_example.Storage.{Storage}
use grpc_example.Server.{Runtime, filter_of}

abbrev pub Sends : Type 0
Sends = ℕ → Option Error

-- How a stream ends.
abbrev pub ended : Option Error → Result (Unit {0})
ended none = ok tt
ended (some e) = err e

module _ {A : Type 0} (send : Sends) where
  unfoldable pub send_from : ℕ → List A → List A × Result (Unit {0})
  send_from i [] = ([], ok tt)
  send_from i (x ∷ xs) =
      let (out, r) = send_from (suc i) xs in
      elim (send i) [ some e ↦ ([], err e) | none ↦ (x ∷ out, r) ]

module _ {T D S : Type 0} (rt : Runtime T D) (st : Storage T S) where
  -- The part that `ListUsers` and `ListUsersByRole` share: an empty listing is an error.
  unfoldable pub send_users :
      Sends → String → Result (List (User T)) → List (User T) × Result (Unit {0})
  unfolding send_from
  send_users send missing (err e) = ([], err e)
  send_users send missing (ok []) = ([], err (status not_found missing))
  send_users send missing (ok (u ∷ us)) = send_from send 0 (u ∷ us)

  unfoldable pub list_users :
      Sends → ℤ → (ℕ → ℤ) → ListUsersRequest T D → S → List (User T) × Result (Unit {0})
  unfolding send_users
  list_users send now clock req s =
      send_users send "no users found" (st.list_users clock (some (filter_of rt now req)) s)

  unfoldable pub list_users_by_role : Sends → Role → S → List (User T) × Result (Unit {0})
  unfolding send_users
  list_users_by_role send role s =
      send_users send ("no users found with role " <> rt.role_text role)
        (st.list_users_by_role role s)

-- The variables of `BatchAddUsers`. The counters are int32: their bit patterns.
pub record Totals : Type 0 where
  pub total_received : ℕ
  pub total_added : ℕ
  pub total_failed : ℕ
  pub errors : List String

abbrev pub no_totals : Totals
no_totals = record { total_received = 0; total_added = 0; total_failed = 0; errors = [] }

-- `n++` on an int32.
abbrev pub inc32 : ℕ → ℕ
inc32 n = (n + 1) % 2 ^ 32

module _ {T D S : Type 0} (rt : Runtime T D) (st : Storage T S) where
  abbrev pub fail_one : Totals → String → Totals
  fail_one t message = record t {
    total_failed = inc32 t.total_failed;
    errors = t.errors ++ ("user " <> show_int32 t.total_received <> ": " <> message) ∷ [];
  }

  abbrev pub count_added : Totals → Result (Unit {0}) × S → Totals × S
  count_added t (ok _, s) = (record t { total_added = inc32 t.total_added }, s)
  count_added t (err e, s) = (fail_one t (rt.error_text e), s)

  -- One message of `BatchAddUsers`.
  unfoldable pub batch_step : ℤ → User T → Totals × S → Totals × S
  batch_step now user (before, s) =
      let t = record before { total_received = inc32 before.total_received } in
      if user.id == 0
      then (fail_one t "ID must be greater than 0", s)
      else if user.username == ""
      then (fail_one t "username is required", s)
      else count_added t (st.add_user now user s)

  unfoldable pub batch_from : List (ℤ × User T) → Totals × S → Totals × S
  batch_from [] v = v
  batch_from ((now, user) ∷ rest) v = batch_from rest (batch_step now user v)

  -- The response goes to `SendAndClose`, whose error `close` the handler returns.
  unfoldable pub batch_response : ℤ → Totals → BatchAddUsersResponse T
  batch_response now t = record {
    total_received = t.total_received;
    total_added = t.total_added;
    total_failed = t.total_failed;
    errors = t.errors;
    processed_at = some (rt.timestamps.make now);
  }

  unfoldable pub batch_add_users :
      List (ℤ × User T)
      → Option Error
      → ℤ
      → Option Error
      → S
      → Option (BatchAddUsersResponse T) × Result (Unit {0}) × S
  unfolding batch_response
  batch_add_users messages (some e) now close s =
      let (t, s') = batch_from messages (no_totals, s) in (none, err e, s')
  batch_add_users messages none now close s =
      let (t, s') = batch_from messages (no_totals, s) in
      (some (batch_response now t), ended close, s')

  -- A login writes the time of the activity; if the update fails, that is only logged.
  abbrev pub touched : Option T → Result (User T) → S → S
  touched timestamp (err _) s = s
  touched timestamp (ok user) s = (st.update_user (record user { last_login = timestamp }) s).1

  abbrev pub record_login : UserActivity T → S → S
  record_login activity s =
      if activity.activity_type == login
      then touched activity.timestamp (st.get_user activity.user_id s) s
      else s

  abbrev activity_message : UserActivity T → Bool → String
  activity_message activity false = "User " <> decimal activity.user_id <> " not found"
  activity_message activity true =
      "Activity "
      <> rt.activity_text activity.activity_type
      <> " recorded for user "
      <> decimal activity.user_id

  abbrev pub activity_response : ℤ → UserActivity T → Bool → UserActivityResponse T
  activity_response now activity exists = record {
    user_id = activity.user_id;
    acknowledged = exists;
    message = activity_message activity exists;
    processed_at = some (rt.timestamps.make now);
  }

  -- One message of `UserActivityStream`, up to the call of `Send`.
  unfoldable pub activity_step : ℤ → UserActivity T → S → Result (UserActivityResponse T) × S
  activity_step now activity s = elim (st.user_exists activity.user_id s) [
    | err e ↦ (err e, s)
    | ok exists ↦
        (ok (activity_response now activity exists), if exists then record_login activity s else s)
  ]

  -- The end of a turn: the response is sent, and the loop goes on if it went out.
  abbrev pub reply {ℓ} :
      {R : Type ℓ}
      → Option Error
      → R
      → List R × Result (Unit {0}) × S
      → S
      → List R × Result (Unit {0}) × S
  reply (some e) response later s = ([], err e, s)
  reply none response (out, r, s') s = (response ∷ out, r, s')

  unfoldable pub activity_from :
      Sends
      → Option Error
      → ℕ
      → List (ℤ × UserActivity T)
      → S
      → List (UserActivityResponse T) × Result (Unit {0}) × S
  activity_from send finish i [] s = ([], ended finish, s)
  activity_from send finish i ((now, activity) ∷ rest) s =
      let (r, s') = activity_step now activity s in
      let later = activity_from send finish (suc i) rest s' in
      elim r [ err e ↦ ([], err e, s') | ok response ↦ reply (send i) response later s' ]

  unfoldable pub user_activity_stream :
      Sends
      → List (ℤ × UserActivity T)
      → Option Error
      → S
      → List (UserActivityResponse T) × Result (Unit {0}) × S
  unfolding activity_from activity_step
  user_activity_stream send messages finish s = activity_from send finish 0 messages s

  abbrev pub sync_failed : ℕ → String → SyncUserResponse
  sync_failed id message = record {
    user_id = id;
    status = failed;
    error_message = message;
    updated_fields = [];
  }

  abbrev pub synced : ℕ → List String → Result (Unit {0}) × S → SyncUserResponse × S
  synced id fields (err e, s) = (sync_failed id (rt.error_text e), s)
  synced id fields (ok _, s) =
      (record { user_id = id; status = success; error_message = ""; updated_fields = fields }, s)

  -- One message of `SyncUsers`, up to the call of `Send`.
  unfoldable pub sync_step : ℤ → User T → S → SyncUserResponse × S
  sync_step now user s =
      if user.id == 0
      then (sync_failed user.id "user ID must be greater than 0", s)
      else elim (st.user_exists user.id s) [
        | err e ↦ (sync_failed user.id (rt.error_text e), s)
        | ok true ↦
            synced user.id ("role" ∷ "username" ∷ "profile" ∷ "status" ∷ []) (st.update_user user s)
        | ok false ↦ synced user.id ("created" ∷ []) (st.add_user now user s)
      ]

  unfoldable pub sync_from :
      Sends
      → Option Error
      → ℕ
      → List (ℤ × User T)
      → S
      → List SyncUserResponse × Result (Unit {0}) × S
  sync_from send finish i [] s = ([], ended finish, s)
  sync_from send finish i ((now, user) ∷ rest) s =
      let (response, s') = sync_step now user s in
      reply (send i) response (sync_from send finish (suc i) rest s') s'

  unfoldable pub sync_users :
      Sends → List (ℤ × User T) → Option Error → S → List SyncUserResponse × Result (Unit {0}) × S
  unfolding sync_from sync_step
  sync_users send messages finish s = sync_from send finish 0 messages s
