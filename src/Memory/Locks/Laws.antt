-- ===== src/Memory/Locks/Laws.antt =====
-- What the calls of the in-memory storage hold, at every turn of an interleaving.
use grpc_example.Common.{
  ℕ, suc, ◌+◌, ◌≤◌, true, false, List, [], ◌∷◌, ◌≡◌, arith, ◌⊎◌, inl, inr, All, nat_eq,
}
use grpc_example.Memory.Locks.{
  Action, lock, take, unlock, r_lock, r_unlock, read, write, Method, add_user, update_user,
  delete_user, get_user, list_users, list_users_by_role, user_exists, count, actions, Mutex, Act,
  waits_from_now, locks, unlocks, r_locks, r_unlocks, reads, writes, Turn, here, there, Run, start,
  turn,
}

-- What a call holds that has these actions left, and whether it waits for the lock.
abbrev pub holds_write : List Action → ℕ
holds_write [] = 0
holds_write (lock ∷ p) = 0
holds_write (take ∷ p) = 0
holds_write (unlock ∷ p) = 1
holds_write (r_lock ∷ p) = 0
holds_write (r_unlock ∷ p) = 0
holds_write (read ∷ p) = holds_write p
holds_write (write ∷ p) = holds_write p

abbrev pub holds_read : List Action → ℕ
holds_read [] = 0
holds_read (lock ∷ p) = 0
holds_read (take ∷ p) = 0
holds_read (unlock ∷ p) = 0
holds_read (r_lock ∷ p) = 0
holds_read (r_unlock ∷ p) = 1
holds_read (read ∷ p) = holds_read p
holds_read (write ∷ p) = holds_read p

abbrev pub waits : List Action → ℕ
waits [] = 0
waits (lock ∷ p) = 0
waits (take ∷ p) = 1
waits (unlock ∷ p) = 0
waits (r_lock ∷ p) = 0
waits (r_unlock ∷ p) = 0
waits (read ∷ p) = 0
waits (write ∷ p) = 0

-- The map is read under one of the locks and written under the write lock, and what is taken is given
-- back.
abbrev pub IsDisciplined : List Action → Type 0
IsDisciplined [] = Unit
IsDisciplined (lock ∷ p) =
    (holds_write p ≡ 1) × (holds_read p ≡ 0) × (waits p ≡ 0) × IsDisciplined p
IsDisciplined (take ∷ p) =
    (holds_write p ≡ 1) × (holds_read p ≡ 0) × (waits p ≡ 0) × IsDisciplined p
IsDisciplined (unlock ∷ p) =
    (holds_write p ≡ 0) × (holds_read p ≡ 0) × (waits p ≡ 0) × IsDisciplined p
IsDisciplined (r_lock ∷ p) =
    (holds_write p ≡ 0) × (holds_read p ≡ 1) × (waits p ≡ 0) × IsDisciplined p
IsDisciplined (r_unlock ∷ p) =
    (holds_write p ≡ 0) × (holds_read p ≡ 0) × (waits p ≡ 0) × IsDisciplined p
IsDisciplined (read ∷ p) = (holds_write p + holds_read p ≡ 1) × (waits p ≡ 0) × IsDisciplined p
IsDisciplined (write ∷ p) =
    (holds_write p ≡ 1) × (holds_read p ≡ 0) × (waits p ≡ 0) × IsDisciplined p

actions-IsDisciplined : (m : Method) → IsDisciplined (actions m)
unfolding actions
actions-IsDisciplined (add_user true) = omega arith
actions-IsDisciplined (add_user false) = omega arith
actions-IsDisciplined (update_user true) = omega arith
actions-IsDisciplined (update_user false) = omega arith
actions-IsDisciplined (delete_user true) = omega arith
actions-IsDisciplined (delete_user false) = omega arith
actions-IsDisciplined get_user = omega arith
actions-IsDisciplined list_users = omega arith
actions-IsDisciplined list_users_by_role = omega arith
actions-IsDisciplined user_exists = omega arith
actions-IsDisciplined count = omega arith

-- The mutex, against what one call holds and others hold: `kw`, `kr` and `kp`.
pub record IsHeld (kw kr kp : ℕ) (p : List Action) (m : Mutex) : Type 0 where
  pub disciplined : IsDisciplined p
  pub writing : holds_write p + kw ≡ m.writers
  pub reading : holds_read p + kr ≡ m.readers
  pub waits_for : waits p + kp ≡ m.waiting

Act-IsHeld :
    {p q : List Action} {m n : Mutex} (kw kr kp : ℕ)
    → Act p m q n
    → IsHeld kw kr kp p m
    → IsHeld kw kr kp q n
Act-IsHeld kw kr kp waits_from_now h = ground arith
Act-IsHeld kw kr kp (locks none_w none_r) h = ground arith
Act-IsHeld kw kr kp unlocks h = ground arith
Act-IsHeld kw kr kp (r_locks none_w none_p) h = ground arith
Act-IsHeld kw kr kp r_unlocks h = ground arith
Act-IsHeld kw kr kp reads h = ground arith
Act-IsHeld kw kr kp writes h = ground arith

abbrev pub sum_of : (List Action → ℕ) → List (List Action) → ℕ
sum_of f [] = 0
sum_of f (p ∷ ps) = f p + sum_of f ps

-- The mutex, against what all the calls hold, and others.
pub record IsShared (kw kr kp : ℕ) (ps : List (List Action)) (m : Mutex) : Type 0 where
  pub disciplined : All IsDisciplined ps
  pub writing : sum_of holds_write ps + kw ≡ m.writers
  pub reading : sum_of holds_read ps + kr ≡ m.readers
  pub waits_for : sum_of waits ps + kp ≡ m.waiting

Turn-IsShared :
    {ps qs : List (List Action)} {m n : Mutex}
    → Turn ps m qs n
    → (kw kr kp : ℕ) → IsShared kw kr kp ps m
    → IsShared kw kr kp qs n
Turn-IsShared (here {ps = ps} act) kw kr kp h =
    let h' =
      Act-IsHeld (sum_of holds_write ps + kw) (sum_of holds_read ps + kr) (sum_of waits ps + kp) act
        (record {
          disciplined = h.disciplined.0;
          writing = omega (arith, h.writing);
          reading = omega (arith, h.reading);
          waits_for = omega (arith, h.waits_for);
        }) in
    record {
      disciplined = (h'.disciplined, h.disciplined.1);
      writing = omega (arith, h'.writing);
      reading = omega (arith, h'.reading);
      waits_for = omega (arith, h'.waits_for);
    }
Turn-IsShared (there {p = p} step) kw kr kp h =
    let h' = Turn-IsShared step (holds_write p + kw) (holds_read p + kr) (waits p + kp) (record {
      disciplined = h.disciplined.1;
      writing = omega (arith, h.writing);
      reading = omega (arith, h.reading);
      waits_for = omega (arith, h.waits_for);
    }) in
    record {
      disciplined = (h.disciplined.0, h'.disciplined);
      writing = omega (arith, h'.writing);
      reading = omega (arith, h'.reading);
      waits_for = omega (arith, h'.waits_for);
    }

-- Nobody holds the write lock, or one call does and none reads.
abbrev pub IsExclusive : Mutex → Type 0
IsExclusive m = (m.writers ≡ 0) ⊎ ((m.writers ≡ 1) × (m.readers ≡ 0))

Act-IsExclusive : {p q : List Action} {m n : Mutex} → Act p m q n → IsExclusive m → IsExclusive n
Act-IsExclusive waits_from_now h = h
Act-IsExclusive (locks none_w none_r) h = inr (ground arith, none_r)
Act-IsExclusive unlocks h = inl (ground arith)
Act-IsExclusive (r_locks none_w none_p) h = inl none_w
Act-IsExclusive r_unlocks h = ground arith
Act-IsExclusive reads h = h
Act-IsExclusive writes h = h

Turn-IsExclusive :
    {ps qs : List (List Action)} {m n : Mutex} → Turn ps m qs n → IsExclusive m → IsExclusive n
Turn-IsExclusive (here act) h = Act-IsExclusive act h
Turn-IsExclusive (there step) h = Turn-IsExclusive step h

-- The actions that a call has left, a `Lock` in its two halves.
abbrev pub left : List Action → ℕ
left [] = 0
left (lock ∷ p) = 2 + left p
left (take ∷ p) = 1 + left p
left (unlock ∷ p) = 1 + left p
left (r_lock ∷ p) = 1 + left p
left (r_unlock ∷ p) = 1 + left p
left (read ∷ p) = 1 + left p
left (write ∷ p) = 1 + left p

Act-left : {p q : List Action} {m n : Mutex} → Act p m q n → suc (left q) ≡ left p
Act-left waits_from_now = omega arith
Act-left (locks none_w none_r) = omega arith
Act-left unlocks = omega arith
Act-left (r_locks none_w none_p) = omega arith
Act-left r_unlocks = omega arith
Act-left reads = omega arith
Act-left writes = omega arith

Turn-left :
    {ps qs : List (List Action)} {m n : Mutex}
    → Turn ps m qs n
    → suc (sum_of left qs) ≡ sum_of left ps
Turn-left (here act) = omega (arith, Act-left act)
Turn-left (there step) = omega (arith, Turn-left step)

pub record IsReached (t total : ℕ) (ps : List (List Action)) (m : Mutex) : Type 0 where
  pub shared : IsShared 0 0 0 ps m
  pub exclusive : IsExclusive m
  pub counted : t + sum_of left ps ≡ total

pub Run-IsReached :
    {ps : List (List Action)} {m : Mutex} {t : ℕ} {qs : List (List Action)} {n : Mutex}
    → Run ps m t qs n
    → IsReached 0 (sum_of left ps) ps m
    → IsReached t (sum_of left ps) qs n
Run-IsReached start h = h
Run-IsReached (turn run step) h =
    let h' = Run-IsReached run h in
    record {
      shared = Turn-IsShared step 0 0 0 h'.shared;
      exclusive = Turn-IsExclusive step h'.exclusive;
      counted = omega (arith, h'.counted, Turn-left step);
    }

-- What no call has taken yet.
pub record IsFresh (p : List Action) : Type 0 where
  pub disciplined : IsDisciplined p
  pub writing : holds_write p ≡ 0
  pub reading : holds_read p ≡ 0
  pub waits_for : waits p ≡ 0
  pub few : left p ≤ 5

pub actions-IsFresh : (m : Method) → IsFresh (actions m)
unfolding actions
actions-IsFresh m = record {
  disciplined = actions-IsDisciplined m;
  writing = (shape m).0;
  reading = (shape m).1.0;
  waits_for = (shape m).1.1.0;
  few = (shape m).1.1.1;
}
  where
    shape :
        (m : Method)
        → (holds_write (actions m) ≡ 0)
          × ((holds_read (actions m) ≡ 0) × ((waits (actions m) ≡ 0) × (left (actions m) ≤ 5)))
    shape (add_user true) = omega arith
    shape (add_user false) = omega arith
    shape (update_user true) = omega arith
    shape (update_user false) = omega arith
    shape (delete_user true) = omega arith
    shape (delete_user false) = omega arith
    shape get_user = omega arith
    shape list_users = omega arith
    shape list_users_by_role = omega arith
    shape user_exists = omega arith
    shape count = omega arith
