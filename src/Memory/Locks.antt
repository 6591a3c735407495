-- ===== src/Memory/Locks.antt =====
-- server/memory_storage.go: when the methods take the mutex `m.mu`, when they give it back, and when
-- they read and write the map between; a loop over the map is one reading. sync.RWMutex is rendered as it is documented: a `Lock` that
-- waits keeps new readers out.
pub mod Laws
pub mod Progress
use grpc_example.Common.{
  ℕ, suc, ◌+◌, ◌-◌, ◌≤◌, ◌<◌, Bool, true, false, List, [], ◌∷◌, map, ◌≡◌, refl, arith, ◌⊎◌, inl,
  inr, All, if◌then◌else◌, nat_eq,
}

-- `take` is the second half of a `Lock`, which has waited from its first half on.
pub data Action : Type 0 where
  lock take unlock r_lock r_unlock read write : Action

-- A call of a method; of those that change the map, whether they find the user's id in it.
pub data Method : Type 0 where
  add_user update_user delete_user : Bool → Method
  get_user list_users list_users_by_role user_exists count : Method

-- A deferred unlock is the last action on every way out.
abbrev pub changing : Bool → List Action
changing true = lock ∷ read ∷ write ∷ unlock ∷ []
changing false = lock ∷ read ∷ unlock ∷ []

abbrev pub reading : List Action
reading = r_lock ∷ read ∷ r_unlock ∷ []

unfoldable pub actions : Method → List Action
actions (add_user true) = changing false
actions (add_user false) = changing true
actions (update_user found) = changing found
actions (delete_user found) = changing found
actions get_user = reading
actions list_users = reading
actions list_users_by_role = reading
actions user_exists = reading
actions count = reading

pub record Mutex : Type 0 where
  pub writers : ℕ
  pub readers : ℕ
  pub waiting : ℕ

abbrev pub unlocked : Mutex
unlocked = record { writers = 0; readers = 0; waiting = 0 }

-- A call that has these actions left takes the first of them.
pub data Act : List Action → Mutex → List Action → Mutex → Type 0 where
  waits_from_now :
      {p : List Action} {m : Mutex}
      → Act (lock ∷ p) m (take ∷ p) (record m { waiting = suc m.waiting })
  locks :
      {p : List Action} {m : Mutex}
      → m.writers ≡ 0
      → m.readers ≡ 0
      → Act (take ∷ p) m p (record m { writers = suc m.writers; waiting = m.waiting - 1 })
  unlocks :
      {p : List Action} {m : Mutex} → Act (unlock ∷ p) m p (record m { writers = m.writers - 1 })
  r_locks :
      {p : List Action} {m : Mutex}
      → m.writers ≡ 0
      → m.waiting ≡ 0
      → Act (r_lock ∷ p) m p (record m { readers = suc m.readers })
  r_unlocks :
      {p : List Action} {m : Mutex} → Act (r_unlock ∷ p) m p (record m { readers = m.readers - 1 })
  reads : {p : List Action} {m : Mutex} → Act (read ∷ p) m p m
  writes : {p : List Action} {m : Mutex} → Act (write ∷ p) m p m

-- The scheduler lets one of the calls take an action.
pub data Turn : List (List Action) → Mutex → List (List Action) → Mutex → Type 0 where
  here :
      {p q : List Action} {ps : List (List Action)} {m n : Mutex}
      → Act p m q n
      → Turn (p ∷ ps) m (q ∷ ps) n
  there :
      {p : List Action} {ps qs : List (List Action)} {m n : Mutex}
      → Turn ps m qs n
      → Turn (p ∷ ps) m (p ∷ qs) n

-- An interleaving of so many turns.
pub data Run (ps : List (List Action)) (m : Mutex) : ℕ → List (List Action) → Mutex → Type 0 where
  start : Run ps m 0 ps m
  turn :
      {t : ℕ} {qs rs : List (List Action)} {n k : Mutex}
      → Run ps m t qs n
      → Turn qs n rs k
      → Run ps m (suc t) rs k
