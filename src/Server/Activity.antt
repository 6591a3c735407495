-- ===== src/Server/Activity.antt =====
-- `UserActivityStream` on the in-memory backend.
use grpc_example.Common.{
  ℕ, ℤ, false, ◌&&◌, Option, none, some, List, ◌≡◌, refl, sym, ◌∙◌, arith, if◌then◌else◌, ◌==◌,
  nat_eq, int_eq, Bool-cases, Option-cases, inl, inr, nat_beq_iff,
}
use grpc_example.Common.Assoc.{lookup, insert, has, lookup-insert, has-lookup, All-lookup}
use grpc_example.Errors.{ok}
use grpc_example.Proto.{login, User, UserActivity, UserActivityResponse}
use grpc_example.Storage.{Storage}
use grpc_example.Clone.{clone_user}
use grpc_example.Clone.Laws.{clone_user_lem}
use grpc_example.Memory
use grpc_example.Memory.{MemoryStorage, memory_backend}
use grpc_example.Memory.Laws.{IsEntry, IsWellFormed}
use grpc_example.Server.{Runtime}
use grpc_example.Server.Streams.{touched, record_login, activity_response, activity_step}

module _ {T D : Type 0} (rt : Runtime T D) (visit : List (ℕ × User T) → List (ℕ × User T)) where
  abbrev memory : Storage T (MemoryStorage T)
  memory = memory_backend rt.timestamps visit

  abbrev pub with_login : Option T → Option (User T) → Option (User T)
  with_login timestamp none = none
  with_login timestamp (some user) = some (record user { last_login = timestamp })

  -- The clone of a stored user is the user.
  clone_of_entry : (id : ℕ) (user : User T) → IsEntry (id, user) → clone_user user ≡ user
  clone_of_entry id user h = clone_user_lem user h.proper ∙ cc (h.no_email, h.no_phone)

  touched_entry :
      (timestamp : Option T) (id : ℕ) (user : User T)
      → IsEntry (id, user)
      → clone_user (record user { last_login = timestamp }) ≡ record user { last_login = timestamp }
  touched_entry timestamp id user h =
      clone_of_entry id (record user { last_login = timestamp })
        (record {
          keyed = h.keyed;
          no_email = h.no_email;
          no_phone = h.no_phone;
          proper = record { metadata = h.proper.metadata; profile = h.proper.profile };
        })

  module _ (activity : UserActivity T) (s : MemoryStorage T) (w : IsWellFormed s) where
    -- The store after a login of a stored user.
    touched_lem :
        (user : User T)
        → lookup activity.user_id s.users ≡ some user
        → (touched rt memory activity.timestamp (memory.get_user activity.user_id s) s).users
          ≡ insert activity.user_id (record user { last_login = activity.timestamp }) s.users
    unfolding Memory.get_user Memory.update_user
    touched_lem user there =
        let e = All-lookup IsEntry activity.user_id s.users w.entries there in
        ground (
          arith,
          clone_of_entry activity.user_id user e,
          touched_entry activity.timestamp activity.user_id user e,
          e.keyed,
          has-lookup activity.user_id s.users,
        )

    lookup-record_login :
        (j : ℕ)
        → lookup j (record_login rt memory activity s).users ≡ (
            if (activity.activity_type == login) && (activity.user_id == j)
            then with_login activity.timestamp (lookup j s.users)
            else lookup j s.users)
    lookup-record_login j = elim (Bool-cases (activity.activity_type == login)) [
      | inl is_login ↦ elim (Option-cases (lookup activity.user_id s.users)) [
        | inl missing ↦
            rw is_login (unfold Memory.get_user in ground (arith, nat_beq_iff activity.user_id j))
        | inr (user, there) ↦
            rw (is_login, touched_lem user there, lookup-insert)
              (ground (arith, nat_beq_iff activity.user_id j))
      ]
      | inr other ↦ rw other refl
    ]

    absent :
        (j : ℕ)
        → has activity.user_id s.users ≡ false
        → (if (activity.activity_type == login) && (activity.user_id == j)
            then with_login activity.timestamp (lookup j s.users)
            else lookup j s.users)
          ≡ lookup j s.users
    absent j new =
        ground (arith, nat_beq_iff activity.user_id j, has-lookup activity.user_id s.users)

    -- On a well-formed in-memory store every activity gets a response, for its user, that says
    -- whether the user exists; a login writes its time to that user's last login, if the user
    -- exists, and nothing else of the store changes.
    pub activity_step_lem :
        (now : ℤ) (j : ℕ)
        → ((response : UserActivityResponse T) × ((activity_step rt memory now activity s).0
              ≡ ok response)
            × (response.user_id ≡ activity.user_id)
            × (response.acknowledged ≡ has activity.user_id s.users))
          × (lookup j (activity_step rt memory now activity s).1.users ≡ (
              if (activity.activity_type == login) && (activity.user_id == j)
              then with_login activity.timestamp (lookup j s.users)
              else lookup j s.users))
    unfolding activity_step Memory.user_exists
    activity_step_lem now j = (
      (activity_response rt memory now activity (has activity.user_id s.users), refl, refl, refl),
      elim (Bool-cases (has activity.user_id s.users)) [
        | inl there ↦ rw there (lookup-record_login j)
        | inr new ↦ rw new (sym (absent j new))
      ],
    )
