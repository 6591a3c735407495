-- ===== src/Client/Served.antt =====
-- cmd/client/main.go against server/server.go on the in-memory backend: the client whose calls the
-- server's handlers answer, over a connection that carries every message.
use grpc_example.Common.{ℕ, ℤ, true, false, Bool, Option, none, some, List, map}
use grpc_example.Errors.{Error, Result, ok, err, plain}
use grpc_example.Proto.{User}
use grpc_example.Memory.{MemoryStorage, memory_backend}
use grpc_example.Storage.{Storage}
use grpc_example.Server.{Runtime, add_user, get_user, update_user, delete_user}
use grpc_example.Server.Streams
use grpc_example.Server.Streams.{batch_add_users, user_activity_stream, sync_users}
use grpc_example.Client.Lines.{Feed}
use grpc_example.Client.Demonstrations.{UserServiceClient}

-- A handler's result, as the client's `Recv` meets it.
abbrev pub feed_of : {A : Type 0} → List A × Result (Unit {0}) → Feed A
feed_of (out, ok _) = (out, none)
feed_of (out, err e) = (out, some e)

abbrev pub batch_result : {A S : Type 0} → Option A × Result (Unit {0}) × S → Result A × S
batch_result (some response, ok _, s) = (ok response, s)
batch_result (some response, err e, s) = (err e, s)
batch_result (none, ok _, s) = (err (plain "EOF"), s)
batch_result (none, err e, s) = (err e, s)

abbrev pub stream_result : {A S : Type 0} → List A × Result (Unit {0}) × S → Feed A × S
stream_result (out, r, s) = (feed_of (out, r), s)

-- The server's clock reads `now` in each handler, and `clock` in the listing. A stream that the client
-- does not close ends for the server with an error.
module _ {T D : Type 0} (rt : Runtime T D) (visit : List (ℕ × User T) → List (ℕ × User T)) (now : ℤ)
    (clock : ℕ → ℤ) where
  abbrev backend : Storage T (MemoryStorage T)
  backend = memory_backend rt.timestamps visit

  abbrev ending : Bool → Option Error
  ending true = none
  ending false = some (plain "canceled")

  abbrev pub connected : UserServiceClient T D (MemoryStorage T)
  connected = record {
    add_user = add_user backend now;
    get_user = λ id s. (get_user backend id s, s);
    update_user = update_user backend;
    delete_user = delete_user backend;
    list_users = λ req s. ok (feed_of (Streams.list_users rt backend (λ i. none) now clock req s));
    list_users_by_role =
        λ role s. ok (feed_of (Streams.list_users_by_role rt backend (λ i. none) role s));
    begin = λ method. none;
    sends = λ method i. none;
    send_batch = λ users closed s.
        batch_result
          (batch_add_users rt backend (map (λ u. (now, u)) users) (ending closed) now none s);
    exchange_activities = λ activities s.
        stream_result
          (user_activity_stream rt backend (λ i. none) (map (λ a. (now, a)) activities) none s);
    exchange_users = λ users s.
        stream_result (sync_users rt backend (λ i. none) (map (λ u. (now, u)) users) none s);
  }
