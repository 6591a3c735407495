-- ===== src/Client/Run.antt =====
-- cmd/client/main.go: `main`.
use grpc_example.Common.{
  ℕ, suc, String, ℤ, Bool, Option, none, some, List, [], ◌∷◌, ◌++◌, string_eq, int_eq,
  if◌then◌else◌, ◌⊎◌, inl, inr,
}
use grpc_example.Errors.{Error, Result, ok, err, ◌>>=◌}
use grpc_example.Client.{Transport, plaintext, tls, load_client_tls_config, outgoing}
use grpc_example.Client.Lines.{Line, section, done}
use grpc_example.Client.Demonstrations.{
  UserServiceClient, demonstrate_add_user, demonstrate_get_user, demonstrate_update_user,
  demonstrate_list_users, demonstrate_list_users_by_role, demonstrate_batch_add_users,
  demonstrate_user_activity_stream, demonstrate_sync_users, demonstrate_delete_user,
}

abbrev pub Demonstration : Type 0 → Type 0 → Type 0
Demonstration T S = S → List (Line T) × S

-- Headings and demonstrations in turn: each heading is printed, and then its demonstration is run.
unfoldable pub run_all : {T S : Type 0} → List (String × Demonstration T S) → Demonstration T S
run_all [] s = ([], s)
run_all ((title, demonstrate) ∷ rest) s =
    let (lines, s') = demonstrate s in
    let (more, s'') = run_all rest s' in (section title ∷ (lines ++ more), s'')

module _ {T D S : Type 0} (client : UserServiceClient T D S) where
  -- `clock` is the reading of each call of `time.Now`.
  abbrev pub demonstrations : (ℤ → T) → (ℤ → D) → (ℕ → ℤ) → List (String × Demonstration T S)
  demonstrations make duration clock =
      ("1. Unary RPC: AddUser", demonstrate_add_user client)
      ∷ ("2. Unary RPC: GetUser", demonstrate_get_user client)
      ∷ ("3. Unary RPC: UpdateUser (with Field Mask)", demonstrate_update_user client)
      ∷ (
        "4. Server Streaming RPC: ListUsers",
        demonstrate_list_users client make duration (clock 0),
      )
      ∷ ("5. Server Streaming RPC: ListUsersByRole", demonstrate_list_users_by_role client)
      ∷ ("6. Client Streaming RPC: BatchAddUsers", demonstrate_batch_add_users client)
      ∷ (
        "7. Bidirectional Streaming RPC: UserActivityStream",
        demonstrate_user_activity_stream client (λ i. make (clock (suc i))),
      )
      ∷ ("8. Bidirectional Streaming RPC: SyncUsers", demonstrate_sync_users client)
      ∷ ("9. Unary RPC: DeleteUser", demonstrate_delete_user client)
      ∷ []

  -- `main` from the connection on.
  unfoldable pub run_demonstrations : (ℤ → T) → (ℤ → D) → (ℕ → ℤ) → Demonstration T S
  run_demonstrations make duration clock s =
      let (lines, s') = run_all (demonstrations make duration clock) s in
      (lines ++ (done "All demonstrations completed successfully!" ∷ []), s')

-- The flags of the client, but for the server's address, which only `new_client` takes.
pub record ClientFlags : Type 0 where
  pub insecure_conn : Bool
  pub jwt_token : String
  pub cert_file : String
  pub skip_verify : Bool

module _ {P : Type 0} (read_file : String → Result String)
    (certs_from_pem : String → Option P) where
  unfoldable pub transport_of : ClientFlags → Result (Transport P)
  transport_of flags =
      if flags.insecure_conn
      then ok plaintext
      else (load_client_tls_config read_file certs_from_pem flags.cert_file flags.skip_verify
          >>= λ config. ok (tls config))

  -- `main`: the text of `log.Fatalf`, or what the demonstrations do. `new_client` makes the connection
  -- and `service` is the client of it, whose calls carry the metadata.
  unfoldable pub run_client :
      {T D S : Type 0}
      → (Transport P → Option Error)
      → (Transport P → List (String × String) → UserServiceClient T D S)
      → (ℤ → T)
      → (ℤ → D)
      → (ℕ → ℤ)
      → ClientFlags
      → S
      → String ⊎ (List (Line T) × S)
  run_client new_client service make duration clock flags s = elim (transport_of flags) [
    | err e ↦ inl "Failed to load TLS config"
    | ok transport ↦ elim (new_client transport) [
      | some e ↦ inl "Failed to connect"
      | none ↦
          inr (
            run_demonstrations (service transport (outgoing flags.jwt_token)) make duration clock s)
    ]
  ]
