-- ===== src/Memory/Locks/Progress.antt =====
-- Calls of the in-memory storage that run at the same time: no data race, and no deadlock.
use grpc_example.Common.{
  ℕ, zero, suc, ◌+◌, ◌*◌, ◌≤◌, ◌<◌, List, [], ◌∷◌, map, ◌≡◌, refl, arith, ◌⊎◌, inl, inr, All,
  length,
}
use grpc_example.Memory.Locks.{
  Action, lock, take, unlock, r_lock, r_unlock, read, write, Method, actions, Mutex, unlocked, Act,
  waits_from_now, locks, unlocks, r_locks, r_unlocks, reads, writes, Turn, here, there, Run,
}
use grpc_example.Memory.Locks.Laws.{
  holds_write, holds_read, waits, IsDisciplined, sum_of, left, IsShared, IsReached, Run-IsReached,
  actions-IsFresh,
}

-- Whether the next action of a call reads or writes the map.
abbrev pub about_to_read : List Action → ℕ
about_to_read [] = 0
about_to_read (lock ∷ p) = 0
about_to_read (take ∷ p) = 0
about_to_read (unlock ∷ p) = 0
about_to_read (r_lock ∷ p) = 0
about_to_read (r_unlock ∷ p) = 0
about_to_read (read ∷ p) = 1
about_to_read (write ∷ p) = 0

abbrev pub about_to_write : List Action → ℕ
about_to_write [] = 0
about_to_write (lock ∷ p) = 0
about_to_write (take ∷ p) = 0
about_to_write (unlock ∷ p) = 0
about_to_write (r_lock ∷ p) = 0
about_to_write (r_unlock ∷ p) = 0
about_to_write (read ∷ p) = 0
about_to_write (write ∷ p) = 1

holder :
    (p : List Action)
    → IsDisciplined p
    → (about_to_write p ≤ holds_write p)
      × (about_to_read p + about_to_write p ≤ holds_write p + holds_read p)
holder [] d = omega arith
holder (lock ∷ p) d = omega arith
holder (take ∷ p) d = omega arith
holder (unlock ∷ p) d = omega arith
holder (r_lock ∷ p) d = omega arith
holder (r_unlock ∷ p) d = omega arith
holder (read ∷ p) d = ground arith
holder (write ∷ p) d = ground arith

holders :
    (ps : List (List Action))
    → All IsDisciplined ps
    → (sum_of about_to_write ps ≤ sum_of holds_write ps)
      × (sum_of about_to_read ps + sum_of about_to_write ps
          ≤ sum_of holds_write ps + sum_of holds_read ps)
holders [] d = omega arith
holders (p ∷ ps) (d, ds) = omega (arith, holder p d, holders ps ds)

fresh :
    (ms : List Method)
    → IsShared 0 0 0 (map actions ms) unlocked × (sum_of left (map actions ms) ≤ 5 * length ms)
fresh [] =
    (record { disciplined = tt; writing = refl; reading = refl; waits_for = refl }, omega arith)
fresh (m ∷ ms) =
    let (h, few) = fresh ms in
    let f = actions-IsFresh m in
    (
      record {
        disciplined = (f.disciplined, h.disciplined);
        writing = omega (arith, f.writing, h.writing);
        reading = omega (arith, f.reading, h.reading);
        waits_for = omega (arith, f.waits_for, h.waits_for);
      },
      omega (arith, f.few, few),
    )

reached :
    (ms : List Method) {t : ℕ} {qs : List (List Action)} {n : Mutex}
    → Run (map actions ms) unlocked t qs n
    → IsReached t (sum_of left (map actions ms)) qs n
reached ms run =
    Run-IsReached run
      (record { shared = (fresh ms).0; exclusive = inl refl; counted = omega arith })

-- However calls of the methods of the in-memory storage are interleaved, and whichever branches
-- they take: if one is about to write the map, it is the only one, and none is about to read it.
pub Run-exclusive :
    (ms : List Method) {t : ℕ} {qs : List (List Action)} {n : Mutex}
    → Run (map actions ms) unlocked t qs n
    → (sum_of about_to_write qs ≡ 0)
      ⊎ ((sum_of about_to_write qs ≡ 1) × (sum_of about_to_read qs ≡ 0))
Run-exclusive ms {t} {qs} run =
    let h = reached ms run in
    let (few, fewer) = holders qs h.shared.disciplined in
    ground (arith, few, fewer, h.shared.writing, h.shared.reading, h.exclusive)

-- What a call that holds a lock does next, it can do at any state of the mutex.
holder_acts :
    (p : List Action) (m : Mutex)
    → 0 < holds_write p + holds_read p
    → (q : List Action) × (n : Mutex) × Act p m q n
holder_acts [] m h = absurd (omega arith)
holder_acts (lock ∷ p) m h = absurd (omega arith)
holder_acts (take ∷ p) m h = absurd (omega arith)
holder_acts (unlock ∷ p) m h = (_, _, unlocks)
holder_acts (r_lock ∷ p) m h = absurd (omega arith)
holder_acts (r_unlock ∷ p) m h = (_, _, r_unlocks)
holder_acts (read ∷ p) m h = (_, _, reads)
holder_acts (write ∷ p) m h = (_, _, writes)

waiter_acts :
    (p : List Action) (m : Mutex)
    → m.writers ≡ 0
    → m.readers ≡ 0
    → 0 < waits p
    → (q : List Action) × (n : Mutex) × Act p m q n
waiter_acts [] m w r h = absurd (omega arith)
waiter_acts (lock ∷ p) m w r h = absurd (omega arith)
waiter_acts (take ∷ p) m w r h = (_, _, locks w r)
waiter_acts (unlock ∷ p) m w r h = absurd (omega arith)
waiter_acts (r_lock ∷ p) m w r h = absurd (omega arith)
waiter_acts (r_unlock ∷ p) m w r h = absurd (omega arith)
waiter_acts (read ∷ p) m w r h = absurd (omega arith)
waiter_acts (write ∷ p) m w r h = absurd (omega arith)

free_acts :
    (p : List Action) (m : Mutex)
    → m.writers ≡ 0
    → m.readers ≡ 0
    → m.waiting ≡ 0
    → (p ≡ []) ⊎ ((q : List Action) × (n : Mutex) × Act p m q n)
free_acts [] m w r k = inl refl
free_acts (lock ∷ p) m w r k = inr (_, _, waits_from_now)
free_acts (take ∷ p) m w r k = inr (_, _, locks w r)
free_acts (unlock ∷ p) m w r k = inr (_, _, unlocks)
free_acts (r_lock ∷ p) m w r k = inr (_, _, r_locks w k)
free_acts (r_unlock ∷ p) m w r k = inr (_, _, r_unlocks)
free_acts (read ∷ p) m w r k = inr (_, _, reads)
free_acts (write ∷ p) m w r k = inr (_, _, writes)

abbrev pub IsFinished : List Action → Type 0
IsFinished p = p ≡ []

abbrev pub CanTurn : List (List Action) → Mutex → Type 0
CanTurn ps m = (qs : List (List Action)) × (n : Mutex) × Turn ps m qs n

positive : (n : ℕ) → (n ≡ 0) ⊎ (0 < n)
positive zero = inl refl
positive (suc n) = inr (omega arith)

-- A call among them that can act, where one has a positive weight that lets it.
some_turn :
    (weight : List Action → ℕ) (m : Mutex)
    → ((p : List Action) → 0 < weight p → (q : List Action) × (n : Mutex) × Act p m q n)
    → (ps : List (List Action)) → 0 < sum_of weight ps
    → CanTurn ps m
some_turn weight m acts [] h = absurd (omega arith)
some_turn weight m acts (p ∷ ps) h = elim (positive (weight p)) [
  | inr some_weight ↦ let (q, n, act) = acts p some_weight in (q ∷ ps, n, here act)
  | inl none_weight ↦
      let (qs, n, step) = some_turn weight m acts ps (omega (arith, h, none_weight)) in
      (p ∷ qs, n, there step)
]

free_turn :
    (ps : List (List Action)) (m : Mutex)
    → m.writers ≡ 0
    → m.readers ≡ 0
    → m.waiting ≡ 0
    → All IsFinished ps ⊎ CanTurn ps m
free_turn [] m w r k = inl tt
free_turn (p ∷ ps) m w r k = elim (free_acts p m w r k) [
  | inr (q, n, act) ↦ inr (q ∷ ps, n, here act)
  | inl finished ↦ elim (free_turn ps m w r k) [
    | inl others ↦ inl (finished, others)
    | inr (qs, n, step) ↦ inr (p ∷ qs, n, there step)
  ]
]

sum_of_both :
    (ps : List (List Action))
    → sum_of (λ p. holds_write p + holds_read p) ps ≡ sum_of holds_write ps + sum_of holds_read ps
sum_of_both [] = omega arith
sum_of_both (p ∷ ps) = omega (arith, sum_of_both ps)

can_go_on :
    (qs : List (List Action)) (n : Mutex) → IsShared 0 0 0 qs n → All IsFinished qs ⊎ CanTurn qs n
can_go_on qs n h = elim (positive (sum_of holds_write qs + sum_of holds_read qs)) [
  | inr held ↦ inr (
      some_turn (λ p. holds_write p + holds_read p) n (λ p. holder_acts p n) qs
        (omega (arith, held, sum_of_both qs)))
  | inl not_held ↦
      let no_writer : n.writers ≡ 0 = omega (arith, not_held, h.writing) in
      let no_reader : n.readers ≡ 0 = omega (arith, not_held, h.reading) in
      elim (positive n.waiting) [
        | inr wanted ↦ inr (
            some_turn waits n (λ p. waiter_acts p n no_writer no_reader) qs
              (omega (arith, wanted, h.waits_for)))
        | inl not_wanted ↦ free_turn qs n no_writer no_reader not_wanted
      ]
]

-- However calls of the methods of the in-memory storage are interleaved, and whichever branches
-- they take, there are at most five turns for each call, a `Lock` that waits counting for two, and
-- as long as one has not returned there is a turn to take: no call waits for ever for the mutex.
pub Run-progress :
    (ms : List Method) {t : ℕ} {qs : List (List Action)} {n : Mutex}
    → Run (map actions ms) unlocked t qs n
    → (t ≤ 5 * length ms) × (All IsFinished qs ⊎ CanTurn qs n)
Run-progress ms {t} {qs} {n} run =
    let h = reached ms run in (omega (arith, h.counted, (fresh ms).1), can_go_on qs n h.shared)
