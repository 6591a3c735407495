-- ===== src/Client/Prints.antt =====
-- cmd/client/main.go: what is printed under each heading.
use grpc_example.Common.{
  ℕ, suc, String, Bool, true, false, any, Option, none, some, List, [], ◌∷◌, ◌++◌, ◌≡◌, refl, ap,
  Option-cases, inl, inr, All, ◌==◌, string_eq,
}
use mathlib.Core.Path.{sym}
use mathlib.Core.List.{append_assoc}
use grpc_example.Errors.{Error}
use grpc_example.Proto.{User}
use grpc_example.Client.Lines.{
  Line, section, failure, user_line, counted, total, sent_activity, batch_complete, activity_line,
  sync_response, deleted, done, receive_users, send_all, receive_all,
}
use grpc_example.Client.Run.{Demonstration, run_all}

-- A heading, the texts of the lines under it but for the last, and those of the last.
pub record Chapter : Type 0 where
  pub title : String
  pub texts : List String
  pub last_texts : List String

module _ {T : Type 0} where
  -- Whether the line is none of the headings and begins with one of the texts.
  abbrev pub says : List String → Line T → Bool
  says texts (section title) = false
  says texts (failure text e) = any (λ t. t == text) texts
  says texts (user_line text user) = any (λ t. t == text) texts
  says texts (counted text count user) = any (λ t. t == text) texts
  says texts (total text count) = any (λ t. t == text) texts
  says texts (sent_activity a) = any (λ t. t == "Sent activity") texts
  says texts (batch_complete r) = any (λ t. t == "Batch add complete") texts
  says texts (activity_line r) = any (λ t. t == "Response") texts
  says texts (sync_response r text) = any (λ t. t == "Sync response") texts
  says texts (deleted id) = any (λ t. t == "Successfully deleted user") texts
  says texts (done text) = any (λ t. t == text) texts

  abbrev pub AllSay : List String → List (Line T) → Type 0
  AllSay texts = All (λ line. says texts line ≡ true)

  -- The lines under a heading: one of the last texts at the end, and before it only the others.
  abbrev pub IsSaid : List String → List String → List (Line T) → Type 0
  IsSaid texts last_texts lines =
      (front : List (Line T)) × (last : Line T) × (lines ≡ front ++ (last ∷ []))
      × AllSay texts front
      × (says last_texts last ≡ true)

  -- The chapters, one after the other, and nothing else.
  abbrev pub Follows : List Chapter → List (Line T) → Type 0
  Follows [] lines = lines ≡ []
  Follows (c ∷ chapters) lines =
      (own more : List (Line T)) × (lines ≡ section c.title ∷ (own ++ more))
      × IsSaid c.texts c.last_texts own
      × Follows chapters more

  pub append-AllSay :
      (texts : List String) (a b : List (Line T))
      → AllSay texts a
      → AllSay texts b
      → AllSay texts (a ++ b)
  append-AllSay texts [] b ha hb = hb
  append-AllSay texts (line ∷ a) b (h, ha) hb = (h, append-AllSay texts a b ha hb)

  pub receive_users-AllSay :
      (texts : List String) (text : String) (count : ℕ) (users : List (User T)) (end : Option Error)
      → any (λ t. t == text) texts ≡ true
      → any (λ t. t == "Error receiving user") texts ≡ true
      → AllSay texts (receive_users text count (users, end)).0
  unfolding receive_users
  receive_users-AllSay texts text count [] none h h' = tt
  receive_users-AllSay texts text count [] (some e) h h' = (h', tt)
  receive_users-AllSay texts text count (user ∷ users) end h h' =
      (h, receive_users-AllSay texts text (suc count) users end h h')

  pub send_all-AllSay :
      {A : Type 0} (texts : List String) (line : A → Line T) (sends : ℕ → Option Error) (i : ℕ)
      (list : List A)
      → ((a : A) → says texts (line a) ≡ true)
      → AllSay texts (send_all line sends i list).0
  unfolding send_all
  send_all-AllSay texts line sends i [] h = tt
  send_all-AllSay texts line sends i (a ∷ rest) h = elim (Option-cases (sends i)) [
    | inl fine ↦ rw (send_all, fine) (h a, send_all-AllSay texts line sends (suc i) rest h)
    | inr (e, failed) ↦ rw (send_all, failed) tt
  ]

  pub receive_all-AllSay :
      {A : Type 0} (texts : List String) (line : A → Line T) (text : String) (list : List A)
      (end : Option Error)
      → ((a : A) → says texts (line a) ≡ true)
      → any (λ t. t == text) texts ≡ true
      → AllSay texts (receive_all line text (list, end))
  unfolding receive_all
  receive_all-AllSay texts line text [] none h h' = tt
  receive_all-AllSay texts line text [] (some e) h h' = (h', tt)
  receive_all-AllSay texts line text (a ∷ rest) end h h' =
      (h a, receive_all-AllSay texts line text rest end h h')

  -- A stream's lines: those of what was sent, of a failure to send, and of the replies.
  pub replies-IsSaid :
      (texts last_texts : List String) (lines problem replies : List (Line T)) (last : Line T)
      → AllSay texts lines
      → AllSay texts problem
      → AllSay texts replies
      → says last_texts last ≡ true
      → IsSaid texts last_texts ((lines ++ problem) ++ (replies ++ (last ∷ [])))
  replies-IsSaid texts last_texts lines problem replies last h p r e = (
    (lines ++ problem) ++ replies,
    last,
    sym (append_assoc (lines ++ problem) replies (last ∷ [])),
    append-AllSay texts (lines ++ problem) replies (append-AllSay texts lines problem h p) r,
    e,
  )

  module _ {S : Type 0} where
    -- A demonstration that prints the lines of its chapter.
    pub record Prints (c : Chapter) (demonstrate : Demonstration T S) : Type 0 where
      pub said : (s : S) → IsSaid c.texts c.last_texts (demonstrate s).0

    abbrev pub AllPrint : List Chapter → List (String × Demonstration T S) → Type 0
    AllPrint [] [] = Unit
    AllPrint [] (d ∷ ds) = ⊥
    AllPrint (c ∷ chapters) [] = ⊥
    AllPrint (c ∷ chapters) ((title, d) ∷ ds) =
        (title ≡ c.title) × Prints c d × AllPrint chapters ds

    pub run_all-Follows :
        (chapters : List Chapter) (ds : List (String × Demonstration T S)) (s : S)
        → AllPrint chapters ds
        → Follows chapters (run_all ds s).0
    unfolding run_all
    run_all-Follows [] [] s h = refl
    run_all-Follows [] (d ∷ ds) s h = absurd h
    run_all-Follows (c ∷ chapters) [] s h = absurd h
    run_all-Follows (c ∷ chapters) ((title, d) ∷ ds) s (e, p, ps) = (
      (d s).0,
      (run_all ds (d s).1).0,
      ap (λ t. section t ∷ ((d s).0 ++ (run_all ds (d s).1).0)) e,
      p.said s,
      run_all-Follows chapters ds (d s).1 ps,
    )
