-- ===== src/Tests/Locks.antt =====
-- The theorems on the mutex of the in-memory storage, at an addition and a reading.
use grpc_example.Common.{◌*◌, ◌≤◌, false, List, [], ◌∷◌, map, ◌≡◌, refl, ◌⊎◌, All, length}
use grpc_example.Memory.Locks.{
  Action, unlock, write, Method, add_user, get_user, actions, unlocked, Mutex, waits_from_now,
  locks, reads, r_locks, r_unlocks, here, there, Run, start, turn,
}
use grpc_example.Memory.Locks.Laws.{sum_of}
use grpc_example.Memory.Locks.Progress.{
  about_to_read, about_to_write, IsFinished, CanTurn, Run-exclusive, Run-progress,
}

abbrev both : List Method
both = add_user false ∷ get_user ∷ []

-- The addition waits while the reading has the lock, and then writes.
abbrev writing : List (List Action)
writing = (write ∷ unlock ∷ []) ∷ [] ∷ []

abbrev locked : Mutex
locked = record { writers = 1; readers = 0; waiting = 0 }

read_then_added : Run (map actions both) unlocked 6 writing locked
unfolding actions
read_then_added =
    turn
      (turn
        (turn
          (turn (turn (turn start (there (here (r_locks refl refl)))) (here waits_from_now))
            (there (here reads)))
          (there (here r_unlocks)))
        (here (locks refl refl)))
      (here reads)

Run-exclusive_example :
    (sum_of about_to_write writing ≡ 0)
    ⊎ ((sum_of about_to_write writing ≡ 1) × (sum_of about_to_read writing ≡ 0))
Run-exclusive_example = Run-exclusive both read_then_added

Run-progress_example : (6 ≤ 5 * length both) × (All IsFinished writing ⊎ CanTurn writing locked)
Run-progress_example = Run-progress both read_then_added
