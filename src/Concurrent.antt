-- ===== src/Concurrent.antt =====
-- server/server.go as it runs: each request has a goroutine of its own, and each call of the storage is
-- one step, since it holds the backend's lock from its first action to its last: Memory/Locks is about
-- that lock, and here no call waits. A handler is the calls that it makes, each with what it goes on
-- to do with the reply.
mod Laws
pub mod Runs
pub mod Handlers
pub mod Update
pub mod Sync
use grpc_example.Common.{
  ℕ, suc, String, ℤ, Bool, true, false, not, ◌&&◌, Option, none, some, List, [], ◌∷◌, if◌then◌else◌,
  ◌==◌, nat_eq, string_eq, int_eq,
}
use grpc_example.Errors.{Error, Result, ok, err, status, internal, invalid_argument}
use grpc_example.Proto.{admin, User, UpdateUserRequest}
use grpc_example.Storage.{Storage}
use grpc_example.Server.{apply_mask}

-- The calls of the storage that the unary handlers and `SyncUsers` make.
pub data Call (T : Type 0) : Type 0 where
  count : Call T
  get : ℕ → Call T
  add : ℤ → User T → Call T
  update : User T → Call T
  remove : ℕ → Call T
  ask : ℕ → Call T

abbrev pub Reply : {T : Type 0} → Call T → Type 0
Reply count = Result ℕ
Reply {T} (get id) = Result (User T)
Reply (add now user) = Result (Unit {0})
Reply (update user) = Result (Unit {0})
Reply (remove id) = Result (Unit {0})
Reply (ask id) = Result Bool

abbrev pub perform : {T S : Type 0} → Storage T S → (c : Call T) → S → Reply c × S
perform st count s = (st.count s, s)
perform st (get id) s = (st.get_user id s, s)
perform st (add now user) s = st.add_user now user s
perform st (update user) s = st.update_user user s
perform st (remove id) s = st.delete_user id s
perform st (ask id) s = (st.user_exists id s, s)

pub data Program (T A : Type 0) : Type 0 where
  ret : A → Program T A
  call : (c : Call T) → (Reply c → Program T A) → Program T A

pub data Request (T : Type 0) : Type 0 where
  add_user : ℤ → User T → Request T
  get_user : ℕ → Request T
  update_user : UpdateUserRequest T → Request T
  delete_user : ℕ → Request T

pub data Answer (T : Type 0) : Type 0 where
  done : Result (Unit {0}) → Answer T
  shown : Result (User T) → Answer T

module _ {T : Type 0} where
  abbrev refuse : String → Program T (Answer T)
  refuse message = ret (done (err (status invalid_argument message)))

  abbrev pub added : ℤ → User T → Result ℕ → Program T (Answer T)
  added now user (err _) = ret (done (err (status internal "failed to check user count")))
  added now user (ok n) =
      if (n == 0) && not (user.role == admin)
      then refuse "first user created must be an admin"
      else if user.id == 0
      then refuse "user ID must be greater than 0"
      else if user.username == ""
      then refuse "username is required"
      else call (add now user) (λ r. ret (done r))

  abbrev pub replied : User T → Result (Unit {0}) → Program T (Answer T)
  replied user (ok _) = ret (shown (ok user))
  replied user (err e) = ret (shown (err e))

  abbrev pub store_masked : Result (User T) → Program T (Answer T)
  store_masked (err e) = ret (shown (err e))
  store_masked (ok updated) = call (update updated) (replied updated)

  abbrev pub masked : User T → Option (List String) → Result (User T) → Program T (Answer T)
  masked user mask (err e) = ret (shown (err e))
  masked user mask (ok existing) = store_masked (apply_mask user existing mask)

  abbrev pub update_calls : Option (User T) → Option (List String) → Program T (Answer T)
  update_calls none mask = ret (shown (err (status invalid_argument "user is required")))
  update_calls (some user) mask =
      if user.id == 0
      then ret (shown (err (status invalid_argument "user ID must be greater than 0")))
      else call (get user.id) (masked user mask)

  -- The calls of a handler.
  abbrev pub program : Request T → Program T (Answer T)
  program (add_user now user) = call count (added now user)
  program (get_user id) =
      if id == 0
      then ret (shown (err (status invalid_argument "user ID must be greater than 0")))
      else call (get id) (λ r. ret (shown r))
  program (update_user req) = update_calls req.user req.update_mask
  program (delete_user id) =
      if id == 0
      then refuse "user ID must be greater than 0"
      else call (remove id) (λ r. ret (done r))

module _ {T S A : Type 0} (st : Storage T S) where
  -- A program with the storage to itself.
  abbrev pub alone : Program T A → S → A × S
  alone (ret a) s = (a, s)
  alone (call c next) s = alone (next (perform st c s).0) (perform st c s).1

  -- The scheduler lets one of the programs make its next call.
  pub data Turn : List (Program T A) → S → List (Program T A) → S → Type 0 where
    here :
        {c : Call T} {next : Reply c → Program T A} {rest : List (Program T A)} {s : S}
        → Turn (call c next ∷ rest) s (next (perform st c s).0 ∷ rest) (perform st c s).1
    there :
        {p : Program T A} {ps qs : List (Program T A)} {s t : S}
        → Turn ps s qs t
        → Turn (p ∷ ps) s (p ∷ qs) t

  -- An interleaving of so many turns.
  pub data Run (ps : List (Program T A)) (s : S) : ℕ → List (Program T A) → S → Type 0 where
    start : Run ps s 0 ps s
    turn :
        {n : ℕ} {qs rs : List (Program T A)} {t u : S}
        → Run ps s n qs t
        → Turn qs t rs u
        → Run ps s (suc n) rs u
