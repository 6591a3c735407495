-- ===== src/Client/Lines.antt =====
-- cmd/client/main.go: what the demonstrations print, and their loops over `Recv` and `Send`.
use grpc_example.Common.{
  ℕ, suc, String, Option, none, some, List, [], ◌∷◌, ◌==◌, string_eq, int_eq, if◌then◌else◌,
}
use grpc_example.Errors.{Error}
use grpc_example.Proto.{
  success, failed, partial, User, BatchAddUsersResponse, UserActivity, UserActivityResponse,
  SyncUserResponse,
}

-- What `Recv` returns in turn, and then its error or, at `io.EOF`, none.
abbrev pub Feed : Type 0 → Type 0
Feed A = List A × Option Error

-- A line of the output: its text, and what is printed in it.
pub data Line (T : Type 0) : Type 0 where
  section : String → Line T
  failure : String → Error → Line T
  user_line : String → User T → Line T
  counted : String → ℕ → User T → Line T
  total : String → ℕ → Line T
  sent_activity : UserActivity T → Line T
  batch_complete : BatchAddUsersResponse T → Line T
  activity_line : UserActivityResponse T → Line T
  sync_response : SyncUserResponse → String → Line T
  deleted : ℕ → Line T
  done : String → Line T

unfoldable pub sync_status : SyncUserResponse → String
sync_status r =
    if r.status == success
    then "SUCCESS"
    else if r.status == failed
    then "FAILED"
    else if r.status == partial
    then "PARTIAL"
    else "UNKNOWN"

module _ {T : Type 0} where
  -- The loop around `Recv` of a listing: what it prints, and the count.
  unfoldable pub receive_users : String → ℕ → Feed (User T) → List (Line T) × ℕ
  receive_users text count ([], none) = ([], count)
  receive_users text count ([], some e) = (failure "Error receiving user" e ∷ [], count)
  receive_users text count (user ∷ users, end) =
      let (lines, n) = receive_users text (suc count) (users, end) in
      (counted text (suc count) user ∷ lines, n)

  -- The loop around `Send`: what it prints, what was sent, and the error that ended it.
  unfoldable pub send_all :
      {A : Type 0}
      → (A → Line T)
      → (ℕ → Option Error)
      → ℕ
      → List A
      → List (Line T) × List A × Option Error
  send_all line sends i [] = ([], [], none)
  send_all line sends i (a ∷ rest) =
      let (lines, sent, e) = send_all line sends (suc i) rest in
      elim (sends i) [ some failed ↦ ([], [], some failed) | none ↦ (line a ∷ lines, a ∷ sent, e) ]

  -- The loop of a goroutine around `Recv`.
  unfoldable pub receive_all : {A : Type 0} → (A → Line T) → String → Feed A → List (Line T)
  receive_all line text ([], none) = []
  receive_all line text ([], some e) = failure text e ∷ []
  receive_all line text (a ∷ rest, end) = line a ∷ receive_all line text (rest, end)

  abbrev pub sync_line : SyncUserResponse → Line T
  sync_line r = sync_response r (sync_status r)
