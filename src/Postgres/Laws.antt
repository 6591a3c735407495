-- ===== src/Postgres/Laws.antt =====
-- What the methods of the PostgreSQL backend do to the table.
use mathlib.Core.Path.{subst}
use grpc_example.Postgres.Texts.{insert_query, update_query}
use grpc_example.Common.{
  ℕ, ◌<>◌, decimal, String, true, false, Option, none, some, List, ◌≡◌, refl, ◌∙◌, ap, arith, inl,
  inr, if◌then◌else◌, ◌==◌, nat_eq, string_eq, Bool-cases, Option-cases,
}
use grpc_example.Common.Assoc.{lookup, has, has-lookup}
use grpc_example.Errors.{Error, plain, Result, ok, err, Result-cases}
use grpc_example.Proto.{User}
use grpc_example.Postgres.{
  Values, insert_args, update_args, values_with, values_of, got, executed, user_of, add_user,
  get_user, update_user, user_exists,
}
use grpc_example.Postgres.Driver.{Pool, Libraries, Row}
use grpc_example.Postgres.Restored.{
  HasCodecs, IsRestored, first_created, created_by_lem, values_of-ok, user_of-IsRestored,
}
use grpc_example.Postgres.Table.{
  insert_columns, update_columns, found, IsAtomic, Columns, row_of, updated, IsDatabase,
}

module _ {T D : Type 0} (lib : Libraries T) (c : Columns) (pool : Pool D)
    (table : D → List (ℕ × Row)) (db : IsDatabase pool c table) where
  pub get_user_lem :
      (id : ℕ) (d : D) → get_user lib pool id d ≡ got lib pool (found (lookup id (table d)))
  unfolding get_user user_of
  get_user_lem id d = rw (db.select id d) refl

  executed-ok :
      (message : String) (d : D) (after : ℕ → Option Row) (outcome : Result ℕ × D)
      → IsAtomic table d after outcome
      → (executed lib pool message outcome).0 ≡ ok tt
      → (j : ℕ) → lookup j (table (executed lib pool message outcome).1) ≡ after j
  executed-ok message d after (ok n, d') (inr carried_out) h j = carried_out j
  executed-ok message d after (ok n, d') (inl (e, wrong, kept)) h j = cc
  executed-ok message d after (err e, d') atomic h j = cc

  pub add_user_lem :
      (user : User T) (d : D) (v : Values)
      → values_of lib user ≡ ok v
      → add_user lib pool user d
        ≡ executed lib pool "failed to add user: " (pool.exec insert_query (insert_columns v) d)
  unfolding add_user insert_args
  add_user_lem user d v good = rw (add_user, good) refl

  -- An addition that succeeded: the values that it was made of, and the table after it.
  add_user-ok :
      (user : User T) (d : D)
      → (add_user lib pool user d).0 ≡ ok tt
      → (v : Values) × (values_of lib user ≡ ok v)
        × ((j : ℕ)
            → lookup j (table (add_user lib pool user d).1) ≡ (
                if user.id == j
                then some (row_of c (first_created lib c user (lookup user.id (table d))) v)
                else lookup j (table d)))
  add_user-ok user d h = elim (Result-cases (values_of lib user)) [
    | inr (e, wrong) ↦ absurd (unfold add_user in ground arith)
    | inl (v, good) ↦
        let (p, m, a, e, _, _, _) = values_of-ok lib c user v good in
        let w = values_with lib user p m a in
        let made : values_of lib user ≡ ok w = rw (← e) good in
        let run = add_user_lem user d w made in
        let fine = subst (λ o. o.0 ≡ ok tt) run h in
        (
          w,
          made,
          λ j. rw run (
              executed-ok "failed to add user: " d _ _ (db.insert w d) fine j
              ∙ ap (λ t. if user.id == j then some (row_of c t w) else lookup j (table d))
                  (created_by_lem lib c user p m a (lookup user.id (table d)))),
        )
  ]

  get_user_stored :
      (id j : ℕ) (row : Row) (d d' : D)
      → lookup j (table d') ≡ (if id == j then some row else lookup j (table d))
      → get_user lib pool j d' ≡ (if id == j then ok (user_of lib row) else get_user lib pool j d)
  unfolding user_of
  get_user_stored id j row d d' stored = elim (Bool-cases (id == j)) [
    | inl same ↦ rw (get_user_lem j d', stored, same) refl
    | inr other ↦ rw (get_user_lem j d', get_user_lem j d, stored, other) refl
  ]

  pub update_user_lem :
      (user : User T) (d : D) (v : Values)
      → has user.id (table d) ≡ true
      → values_of lib user ≡ ok v
      → update_user lib pool user d
        ≡ executed lib pool "failed to update user: " (pool.exec update_query (update_columns v) d)
  unfolding update_user user_exists update_args
  update_user_lem user d v there good =
      rw (update_user, user_exists, db.exists user.id d, there, good) refl

  -- An update of an id that the table does not hold runs no statement and returns an error.
  pub update_user-missing :
      (user : User T) (d : D)
      → lookup user.id (table d) ≡ none
      → update_user lib pool user d
        ≡ (err (plain ("user with ID " <> decimal user.id <> " not found")), d)
  unfolding update_user user_exists
  update_user-missing user d absent =
      let gone : has user.id (table d) ≡ false = ground (arith, has-lookup user.id (table d)) in
      rw (update_user, user_exists, db.exists user.id d, gone) refl

  pub update_user-serialized :
      (user : User T) (d : D) (e : Error)
      → has user.id (table d) ≡ true
      → values_of lib user ≡ err e
      → update_user lib pool user d ≡ (err e, d)
  unfolding update_user user_exists
  update_user-serialized user d e there wrong =
      rw (update_user, user_exists, db.exists user.id d, there, wrong) refl

  update_user-ok_there :
      (user : User T) (d : D) (old : Row)
      → lookup user.id (table d) ≡ some old
      → (update_user lib pool user d).0 ≡ ok tt
      → (old : Row) × (v : Values) × (lookup user.id (table d) ≡ some old)
        × (values_of lib user ≡ ok v)
        × ((j : ℕ)
            → lookup j (table (update_user lib pool user d).1)
              ≡ (if user.id == j then some (row_of c old.create_date v) else lookup j (table d)))
  update_user-ok_there user d old there h =
      let held : has user.id (table d) ≡ true = ground (arith, has-lookup user.id (table d)) in
      elim (Result-cases (values_of lib user)) [
        | inr (e, wrong) ↦ absurd (
            ground (arith, subst (λ o. o.0 ≡ ok tt) (update_user-serialized user d e held wrong) h))
        | inl (v, good) ↦
            let (p, m, a, e, _, _, _) = values_of-ok lib c user v good in
            let w = values_with lib user p m a in
            let made : values_of lib user ≡ ok w = rw (← e) good in
            let run = update_user_lem user d w held made in
            let fine = subst (λ o. o.0 ≡ ok tt) run h in
            (
              old,
              w,
              there,
              made,
              λ j. rw run (
                  executed-ok "failed to update user: " d _ _ (db.update w d) fine j
                  ∙ ap (λ o. if user.id == j then updated c w o else lookup j (table d)) there),
            )
      ]

  -- An update that succeeded: the row that it replaced, the values, and the table after it.
  update_user-ok :
      (user : User T) (d : D)
      → (update_user lib pool user d).0 ≡ ok tt
      → (old : Row) × (v : Values) × (lookup user.id (table d) ≡ some old)
        × (values_of lib user ≡ ok v)
        × ((j : ℕ)
            → lookup j (table (update_user lib pool user d).1)
              ≡ (if user.id == j then some (row_of c old.create_date v) else lookup j (table d)))
  update_user-ok user d h = elim (Option-cases (lookup user.id (table d))) [
    | inl absent ↦
        absurd (ground (arith, subst (λ o. o.0 ≡ ok tt) (update_user-missing user d absent) h))
    | inr (old, there) ↦ update_user-ok_there user d old there h
  ]

  module _ (codecs : HasCodecs lib c) where
    -- After an addition that succeeded, `GetUser` of the id returns a user that has every field of
    -- the one that was added, up to a profile that is always there, instants as their columns keep
    -- them and the order of the entries of a map, and the creation date that the database had for
    -- the id, or else the user's own; of any other id it returns what it returned before.
    pub add_user-IsRestored :
        (user : User T) (j : ℕ) (d : D)
        → (add_user lib pool user d).0 ≡ ok tt
        → (u : User T) × (get_user lib pool j (add_user lib pool user d).1
            ≡ (if user.id == j then ok u else get_user lib pool j d))
          × IsRestored lib c user (first_created lib c user (lookup user.id (table d))) u
    unfolding user_of
    add_user-IsRestored user j d h =
        let (v, made, stored) = add_user-ok user d h in
        let row = row_of c (first_created lib c user (lookup user.id (table d))) v in
        (
          user_of lib row,
          get_user_stored user.id j row d (add_user lib pool user d).1 (stored j),
          (user_of-IsRestored lib c codecs user v _ made).1,
        )

    -- After an update that succeeded there was a row for the id, and `GetUser` of it returns a
    -- user that has every field of the one in the update, up to a profile that is always there,
    -- instants as their columns keep them and the order of the entries of a map, and the creation
    -- date that the row had; of any other id it returns what it returned before.
    pub update_user-IsRestored :
        (user : User T) (j : ℕ) (d : D)
        → (update_user lib pool user d).0 ≡ ok tt
        → (old : Row) × (u : User T) × (lookup user.id (table d) ≡ some old)
          × (get_user lib pool j (update_user lib pool user d).1
              ≡ (if user.id == j then ok u else get_user lib pool j d))
          × IsRestored lib c user old.create_date u
    unfolding user_of
    update_user-IsRestored user j d h =
        let (old, v, there, made, stored) = update_user-ok user d h in
        let row = row_of c old.create_date v in
        (
          old,
          user_of lib row,
          there,
          get_user_stored user.id j row d (update_user lib pool user d).1 (stored j),
          (user_of-IsRestored lib c codecs user v old.create_date made).1,
        )
