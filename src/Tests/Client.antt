-- ===== src/Tests/Client.antt =====
-- The theorems on the demonstration client, against the in-memory server.
use grpc_example.Common.{ℕ, ℤ, pos, List}
use grpc_example.Proto.{User}
use grpc_example.Memory.{MemoryStorage}
use grpc_example.Client.Demonstrations.{UserServiceClient}
use grpc_example.Client.Run.{run_demonstrations}
use grpc_example.Client.Served.{connected}
use grpc_example.Client.Outcome.{IsDemonstrated, run_demonstrations-IsDemonstrated}
use grpc_example.Tests.{rt, store}
use grpc_example.Tests.Memory.{store-IsWellFormed}

abbrev same : List (ℕ × User ℤ) → List (ℕ × User ℤ)
same users = users

abbrev readings : ℕ → ℤ
readings i = pos i

abbrev client : UserServiceClient ℤ ℤ (MemoryStorage ℤ)
client = connected rt same (pos 7) readings

run_demonstrations-IsDemonstrated_example :
    IsDemonstrated (pos 1) store (run_demonstrations client (λ t. t) (λ d. d) readings store).1
run_demonstrations-IsDemonstrated_example =
    run_demonstrations-IsDemonstrated rt same (pos 7) readings (λ t. t) (λ d. d) readings store
      store-IsWellFormed
