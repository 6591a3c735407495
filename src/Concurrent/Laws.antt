-- ===== src/Concurrent/Laws.antt =====
-- The programs of the handlers against the handlers of Server, one request at a time.
use grpc_example.Common.{
  String, ℤ, Option, none, some, List, ◌≡◌, refl, arith, inl, inr, ◌==◌, nat_eq, string_eq, int_eq,
  Bool-cases,
}
use grpc_example.Errors.{Result, ok, err, Result-cases}
use grpc_example.Proto.{User}
use grpc_example.Storage.{Storage}
use grpc_example.Server
use grpc_example.Server.{apply_mask}
use grpc_example.Concurrent.{
  Request, add_user, get_user, update_user, delete_user, Answer, done, shown, program, replied,
  masked, alone,
}

module _ {T S : Type 0} (st : Storage T S) where
  -- The handlers of the service, one request at a time.
  abbrev pub handled : Request T → S → Answer T × S
  handled (add_user now user) s = let (r, s') = Server.add_user st now user s in (done r, s')
  handled (get_user id) s = (shown (Server.get_user st id s), s)
  handled (update_user req) s = let (r, s') = Server.update_user st req s in (shown r, s')
  handled (delete_user id) s = let (r, s') = Server.delete_user st id s in (done r, s')

  alone-replied :
      (user : User T) (outcome : Result (Unit {0}) × S)
      → alone st (replied user outcome.0) outcome.1
        ≡ (shown (Server.store_update st user outcome).0, (Server.store_update st user outcome).1)
  unfolding Server.store_update
  alone-replied user (ok _, s) = refl
  alone-replied user (err e, s) = refl

  alone-update :
      (user : User T) (mask : Option (List String)) (s : S)
      → alone st (masked user mask (st.get_user user.id s)) s ≡ (
        shown (Server.update_existing st user mask s).0,
        (Server.update_existing st user mask s).1,
      )
  unfolding Server.update_existing Server.store_update
  alone-update user mask s = elim (Result-cases (st.get_user user.id s)) [
    | inr (e, failed) ↦ rw (Server.update_existing, failed) refl
    | inl (old, got) ↦ elim (Result-cases (apply_mask user old mask)) [
      | inr (e, failed) ↦ rw (Server.update_existing, got, failed) refl
      | inl (u, fine) ↦
          rw (Server.update_existing, got, fine) (alone-replied u (st.update_user u s))
    ]
  ]

  alone-update_user :
      (user : Option (User T)) (mask : Option (List String)) (s : S)
      → alone st (program (update_user (record { user = user; update_mask = mask }))) s
        ≡ handled (update_user (record { user = user; update_mask = mask })) s
  unfolding Server.update_user Server.update_existing Server.store_update
  alone-update_user none mask s = refl
  alone-update_user (some user) mask s = elim (Bool-cases (user.id == 0)) [
    | inl zero_id ↦ rw zero_id refl
    | inr positive ↦ rw positive (alone-update user mask s)
  ]

  alone-add_user :
      (now : ℤ) (user : User T) (s : S)
      → alone st (program (add_user now user)) s ≡ handled (add_user now user) s
  unfolding Server.add_user
  alone-add_user now user s = elim (Result-cases (st.count s)) [
    | inr (e, failed) ↦ rw (Server.add_user, failed) refl
    | inl (n, counted) ↦ rw (Server.add_user, counted) (ground arith)
  ]

  -- A request that has the storage to itself is answered as its handler answers it, and leaves the
  -- storage as the handler does.
  alone-program : (r : Request T) (s : S) → alone st (program r) s ≡ handled r s
  unfolding Server.add_user Server.get_user Server.update_user Server.delete_user
      Server.update_existing Server.store_update
  alone-program (add_user now user) s = alone-add_user now user s
  alone-program (get_user id) s = elim (Bool-cases (id == 0)) [
    | inl zero_id ↦ rw zero_id refl
    | inr positive ↦ rw positive refl
  ]
  alone-program (update_user req) s = alone-update_user req.user req.update_mask s
  alone-program (delete_user id) s = elim (Bool-cases (id == 0)) [
    | inl zero_id ↦ rw zero_id refl
    | inr positive ↦ rw positive refl
  ]
