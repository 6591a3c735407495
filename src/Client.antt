-- ===== src/Client.antt =====
-- cmd/client/main.go: the connection and the messages of the demonstration client. What the program
-- prints is a list of lines. The source sets a field `ContactInfo`, which the generated struct does
-- not have: its email or phone is taken for the field of that name.
pub mod Lines
pub mod Demonstrations
pub mod Run
pub mod States
pub mod Served
pub mod Ends
pub mod Streams
pub mod Outcome
pub mod Prints
pub mod Chapters
pub mod Headings
pub mod Tokens
use grpc_example.Common.{
  ℕ, String, ℤ, pos, true, Bool, Option, none, some, List, [], ◌∷◌, ◌<>◌, ◌==◌, string_eq,
  if◌then◌else◌,
}
use grpc_example.Errors.{Error, Result, ok, err}
use grpc_example.Proto.{
  guest, member, admin, moderator, inactive, active, login, Address, Profile, User,
  UpdateUserRequest, UserActivity,
}

-- The fields of `tls.Config` that the client sets; `P` is `x509.CertPool`, and without one the
-- system's certificates are used.
pub record ClientConfig (P : Type 0) : Type 0 where
  pub insecure_skip_verify : Bool
  pub min_version : String
  pub root_cas : Option P

pub data Transport (P : Type 0) : Type 0 where
  plaintext : Transport P
  tls : ClientConfig P → Transport P

module _ {P : Type 0} (read_file : String → Result String)
    (certs_from_pem : String → Option P) where
  abbrev with_roots : Bool → Option P → ClientConfig P
  with_roots skip roots = record {
    insecure_skip_verify = skip;
    min_version = "VersionTLS12";
    root_cas = roots;
  }

  abbrev with_pem : Bool → Result String → ClientConfig P
  with_pem skip (err e) = with_roots skip none
  with_pem skip (ok pem) = with_roots skip (certs_from_pem pem)

  -- The error that the source returns is always nil.
  unfoldable pub load_client_tls_config : String → Bool → Result (ClientConfig P)
  load_client_tls_config cert_file skip_verify =
      if cert_file == ""
      then ok (with_roots skip_verify none)
      else ok (with_pem skip_verify (read_file cert_file))

-- The metadata of every call.
unfoldable pub outgoing : String → List (String × String)
outgoing token = if token == "" then [] else ("authorization", "Bearer " <> token) ∷ []

module _ {T : Type 0} where
  abbrev empty_user : User T
  empty_user = record {
    id = 0;
    role = guest;
    create_date = none;
    username = "";
    email = "";
    phone = "";
    profile = none;
    tags = [];
    metadata = none;
    status = inactive;
    last_login = none;
    addresses = [];
  }

  abbrev pub admin_user : User T
  admin_user = record empty_user {
    id = 1;
    role = admin;
    username = "admin";
    email = "admin@example.com";
    profile = some (record {
      display_name = "Administrator";
      bio = "System administrator";
      avatar_url = "";
      date_of_birth = none;
      preferences = some (("theme", pos 1) ∷ ("notifications", pos 0) ∷ []);
    });
    tags = "admin" ∷ "staff" ∷ [];
    metadata = some (("department", "IT") ∷ ("location", "HQ") ∷ []);
    status = active;
    addresses =
        some (record {
          type = pos 1;
          street = "123 Main St";
          city = "San Francisco";
          state = "CA";
          postal_code = "94102";
          country = "USA";
          is_primary = true;
        })
        ∷ [];
  }

  abbrev pub request_user : User T
  request_user = record empty_user { id = 1; status = active; email = "admin-updated@example.com" }

  abbrev pub update_request : UpdateUserRequest T
  update_request = record { user = some request_user; update_mask = none }

  abbrev pub batch_users : List (User T)
  batch_users =
      record empty_user {
        id = 2;
        role = member;
        username = "user1";
        email = "user1@example.com";
        status = active;
      }
      ∷ record empty_user {
        id = 3;
        role = member;
        username = "user2";
        phone = "+1234567890";
        status = active;
      }
      ∷ record empty_user {
        id = 4;
        role = moderator;
        username = "mod1";
        email = "mod1@example.com";
        status = active;
      }
      ∷ []

  abbrev pub synced_member : User T
  synced_member = record empty_user {
    id = 5;
    role = member;
    username = "synced_user_1";
    email = "synced1@example.com";
    status = active;
  }

  abbrev pub synced_admin : User T
  synced_admin = record empty_user {
    id = 2;
    role = admin;
    username = "user1_updated";
    email = "user1@example.com";
    status = active;
  }

  abbrev pub sync_list : List (User T)
  sync_list = synced_member ∷ synced_admin ∷ []

  -- A login, the update of a profile (2) and the view of a page (3), each at its own `timestamppb.Now`.
  abbrev pub activities : (ℕ → T) → List (UserActivity T)
  activities now =
      record {
        user_id = 1;
        activity_type = login;
        timestamp = some (now 0);
        details = some (("ip", "192.168.1.1") ∷ ("user_agent", "Mozilla/5.0") ∷ []);
      }
      ∷ record {
        user_id = 1;
        activity_type = pos 2;
        timestamp = some (now 1);
        details = some (("field", "bio") ∷ []);
      }
      ∷ record {
        user_id = 2;
        activity_type = pos 3;
        timestamp = some (now 2);
        details = some (("page", "/dashboard") ∷ []);
      }
      ∷ []
