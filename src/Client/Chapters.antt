-- ===== src/Client/Chapters.antt =====
-- cmd/client/main.go: the texts that `main` and the demonstrations print, as a table.
use grpc_example.Common.{String, true, List, [], ◌∷◌, ◌++◌, ◌≡◌, refl, string_eq}
use grpc_example.Client.Lines.{Line}
use grpc_example.Client.Prints.{Chapter, says, AllSay, IsSaid}

-- A call with one reply prints one line: of the failure or of the reply.
abbrev pub unary : String → String → String → Chapter
unary title problem text = record { title = title; texts = []; last_texts = problem ∷ text ∷ [] }

-- A listing prints its users and a failure to receive one, and then their number; or that it failed.
abbrev pub listing : String → String → String → String → Chapter
listing title text summary problem = record {
  title = title;
  texts = text ∷ "Error receiving user" ∷ [];
  last_texts = summary ∷ problem ∷ [];
}

abbrev pub addition : Chapter
addition = unary "1. Unary RPC: AddUser" "Failed to add user" "Successfully added user"

abbrev pub reading : Chapter
reading = unary "2. Unary RPC: GetUser" "Failed to get user" "Retrieved user"

abbrev pub updating : Chapter
updating = unary "3. Unary RPC: UpdateUser (with Field Mask)" "Failed to update user" "Updated user"

abbrev pub listed : Chapter
listed =
    listing "4. Server Streaming RPC: ListUsers" "User" "Total users received"
      "Failed to list users"

abbrev pub listed_by_role : Chapter
listed_by_role =
    listing "5. Server Streaming RPC: ListUsersByRole" "Admin user" "Total admin users"
      "Failed to list users by role"

abbrev pub batch : Chapter
batch = record {
  title = "6. Client Streaming RPC: BatchAddUsers";
  texts = "Sent user" ∷ [];
  last_texts =
      "Failed to start batch add" ∷ "Failed to send user" ∷ "Failed to receive response"
      ∷ "Batch add complete" ∷ [];
}

abbrev pub activity : Chapter
activity = record {
  title = "7. Bidirectional Streaming RPC: UserActivityStream";
  texts =
      "Sent activity" ∷ "Failed to send activity" ∷ "Response" ∷ "Error receiving activity response"
      ∷ [];
  last_texts = "Failed to start activity stream" ∷ "Activity stream completed" ∷ [];
}

abbrev pub syncing : Chapter
syncing = record {
  title = "8. Bidirectional Streaming RPC: SyncUsers";
  texts =
      "Syncing user" ∷ "Failed to send user for sync" ∷ "Sync response"
      ∷ "Error receiving sync response" ∷ [];
  last_texts = "Failed to start sync" ∷ "User sync completed" ∷ [];
}

abbrev pub deletion : Chapter
deletion = unary "9. Unary RPC: DeleteUser" "Failed to delete user" "Successfully deleted user"

-- The nine demonstrations, in the order in which they are numbered.
abbrev pub chapters : List Chapter
chapters =
    addition ∷ reading ∷ updating ∷ listed ∷ listed_by_role ∷ batch ∷ activity ∷ syncing ∷ deletion
    ∷ []

module _ {T : Type 0} where
  abbrev pub Said : Chapter → List (Line T) → Type 0
  Said c = IsSaid c.texts c.last_texts

  pub one_line : (c : Chapter) (last : Line T) → says c.last_texts last ≡ true → Said c (last ∷ [])
  one_line c last h = ([], last, refl, tt, h)

  pub ended :
      (c : Chapter) (front : List (Line T)) (last : Line T)
      → AllSay c.texts front
      → says c.last_texts last ≡ true
      → Said c (front ++ (last ∷ []))
  ended c front last h e = (front, last, refl, h, e)
