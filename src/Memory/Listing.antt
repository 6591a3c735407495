-- ===== src/Memory/Listing.antt =====
-- What the listings return, whatever the order in which `range` visits the map.
use mathlib.Core.List.{Memᴰ, Permᴰ}
use mathlib.Core.List.Permᴰ
use mathlib.Core.Path.{subst}
use grpc_example.Common.{
  ℕ, suc, ℤ, Bool, true, false, not, ◌||◌, Option, none, some, List, [], ◌∷◌, ◌≡◌, refl, ap, ◌↔◌,
  arith, ◌==◌, int_eq, nat_eq, eq_ℤ_iff, if◌then◌else◌, Bool-cases, inl, inr, ◌<ℤ◌, ◌≤ℤ◌, leb_ℤ,
  -ℤ_parts, ◌-ℤ◌, All,
}
use grpc_example.Common.Assoc.{lookup, IsMap}
use grpc_example.Common.Members.{
  mem_perm, lookup_of_mem, mem_of_lookup, select, mem_of_select, select_of_mem,
}
use grpc_example.Errors.{ok}
use grpc_example.Proto.{Role, UserStatus, User, Timestamps}
use grpc_example.Storage.{ListFilter}
use grpc_example.Clone.{clone_user}
use grpc_example.Memory.{
  MemoryStorage, since, unix, min_duration, max_duration, created_before, not_older, other_status,
  skips, next_reading, list_from, list_users, by_role_from, list_users_by_role,
}

-- The duration from `t` to `now` fits into a Duration.
abbrev pub Fits : ℤ → ℤ → Type 0
Fits now t = (min_duration ≤ℤ now -ℤ t) × (now -ℤ t ≤ℤ max_duration)

since_lem : (now t : ℤ) → Fits now t → since now t ≡ now -ℤ t
unfolding since
since_lem now t h = ground arith

abbrev pub CreatedSince : ℤ → Option ℤ → Type 0
CreatedSince created none = Unit {0}
CreatedSince created (some s) = unix s ≤ℤ created

abbrev pub CreatedBefore : ℤ → Option ℤ → Type 0
CreatedBefore created none = Unit {0}
CreatedBefore created (some o) = created <ℤ unix o

abbrev pub HasStatus : UserStatus → Option UserStatus → Type 0
HasStatus s none = Unit {0}
HasStatus s (some wanted) = s ≡ wanted

abbrev pub CutoffFits : ℤ → Option ℤ → Type 0
CutoffFits now none = Unit {0}
CutoffFits now (some o) = Fits now (unix o)

CreatedSince-iff :
    (created : ℤ) (o : Option ℤ) → (created_before created o ≡ false) ↔ CreatedSince created o
CreatedSince-iff created none = (λ _. tt, λ _. refl)
CreatedSince-iff created (some s) = (λ h. ground arith, λ h. ground arith)

-- The two readings of the clock can only make the loop drop more users, never keep a younger one.
not_older-CreatedBefore :
    (now₁ now₂ created : ℤ) (o : Option ℤ)
    → now₁ ≤ℤ now₂
    → Fits now₁ created
    → CutoffFits now₂ o
    → not_older now₁ now₂ created o ≡ false
    → CreatedBefore created o
not_older-CreatedBefore now₁ now₂ created none le f c h = tt
not_older-CreatedBefore now₁ now₂ created (some o) le f c h =
    let h' : leb_ℤ (now₁ -ℤ created) (now₂ -ℤ unix o) ≡ false =
      rw (← since_lem now₁ created f, ← since_lem now₂ (unix o) c) h in
    let gt : now₂ -ℤ unix o <ℤ now₁ -ℤ created = ground arith in
    omega (arith, -ℤ_parts now₁ created, -ℤ_parts now₂ (unix o))

CreatedBefore-not_older :
    (now created : ℤ) (o : Option ℤ)
    → Fits now created
    → CutoffFits now o
    → CreatedBefore created o
    → not_older now now created o ≡ false
CreatedBefore-not_older now created none f c h = refl
CreatedBefore-not_older now created (some o) f c h =
    let gt : now -ℤ unix o <ℤ now -ℤ created =
      omega (arith, -ℤ_parts now created, -ℤ_parts now (unix o)) in
    rw (since_lem now created f, since_lem now (unix o) c) (ground arith)

status_iff : (s : UserStatus) (o : Option UserStatus) → (other_status s o ≡ false) ↔ HasStatus s o
status_iff s none = (λ _. tt, λ _. refl)
status_iff s (some wanted) =
    (λ h. (eq_ℤ_iff s wanted).0 (ground arith), λ h. ground (arith, eq_ℤ_iff s wanted))

if_not {ℓ} :
    {A : Type ℓ} (b : Bool) (xs ys : A) → (if b then xs else ys) ≡ (if not b then ys else xs)
if_not true xs ys = refl
if_not false xs ys = refl

not-false : (b : Bool) → (not b ≡ true) ↔ (b ≡ false)
not-false b = ground arith

or_false : (a b c : Bool) → ((a || b || c) ≡ false) ↔ ((a ≡ false) × (b ≡ false) × (c ≡ false))
or_false a b c = ground arith

module _ {T : Type 0} (ts : Timestamps T) where
  -- A user passes a filter: created at the bound or after it, strictly before the cutoff, and with
  -- the status asked for.
  abbrev pub Kept : Option ListFilter → User T → Type 0
  Kept none user = Unit {0}
  Kept (some f) user =
      CreatedSince (ts.as_time user.create_date) f.created_since
      × CreatedBefore (ts.as_time user.create_date) f.older_than
      × HasStatus user.status f.status

  -- The durations that the test for age computes fit into a Duration.
  abbrev pub AgesFit : ℤ → Option ℤ → MemoryStorage T → Type 0
  AgesFit now none m = Unit {0}
  AgesFit now (some o) m =
      Fits now (unix o)
      × ((id : ℕ) (user : User T)
          → lookup id m.users ≡ some user
          → Fits now (ts.as_time user.create_date))

  abbrev pub FilterFits : ℤ → Option ListFilter → MemoryStorage T → Type 0
  FilterFits now none m = Unit {0}
  FilterFits now (some f) m = AgesFit now f.older_than m

  module _ (now : ℤ) where
    age_iff :
        (o : Option ℤ) (m : MemoryStorage T) (id : ℕ) (user : User T)
        → AgesFit now o m
        → lookup id m.users ≡ some user
        → (not_older now now (ts.as_time user.create_date) o ≡ false)
          ↔ CreatedBefore (ts.as_time user.create_date) o
    age_iff none m id user h there = (λ _. tt, λ _. refl)
    age_iff (some o) m id user h there =
        let le : now ≤ℤ now = omega arith in
        let created = ts.as_time user.create_date in
        (
          not_older-CreatedBefore now now created (some o) le (h.1 id user there) h.0,
          CreatedBefore-not_older now created (some o) (h.1 id user there) h.0,
        )

    skips_iff :
        (filter : Option ListFilter) (m : MemoryStorage T) (id : ℕ) (user : User T)
        → FilterFits now filter m
        → lookup id m.users ≡ some user
        → (skips ts (λ _. now) 0 filter user ≡ false) ↔ Kept filter user
    skips_iff none m id user h there = (λ _. tt, λ _. refl)
    skips_iff (some f) m id user h there =
        let created = ts.as_time user.create_date in
        let all =
          or_false (created_before created f.created_since) (not_older now now created f.older_than)
            (other_status user.status f.status) in
        let since = CreatedSince-iff created f.created_since in
        let age = age_iff f.older_than m id user h there in
        let same = status_iff user.status f.status in
        (
          λ h'. let (a, b, c) = all.0 h' in (since.0 a, age.0 b, same.0 c),
          λ k. all.1 (since.1 k.0, age.1 k.1, same.1 k.2),
        )

    list_from-select :
        (i : ℕ) (filter : Option ListFilter) (es : List (ℕ × User T))
        → list_from ts (λ _. now) i filter es
          ≡ select (λ e. not (skips ts (λ _. now) 0 filter e.1)) (λ e. clone_user e.1) es
    unfolding list_from
    list_from-select i filter [] = refl
    list_from-select i none (e ∷ es) = ap (◌∷◌ (clone_user e.1)) (list_from-select i none es)
    list_from-select i (some f) (e ∷ es) =
        rw (list_from-select (next_reading ts (λ _. now) i (some f) e.1) (some f) es)
          (if_not (skips ts (λ _. now) 0 (some f) e.1) _ _)

module _ {T : Type 0} (visit : List (ℕ × User T) → List (ℕ × User T))
    (visits_all : (l : List (ℕ × User T)) → Permᴰ (visit l) l) (ts : Timestamps T) where
  -- In whatever order a store with no id twice is visited, a listing at the instant `now` holds
  -- exactly the clones of the stored users that pass the filter, given that the ages fit into a
  -- Duration.
  pub list_users_iff :
      (now : ℤ) (filter : Option ListFilter) (m : MemoryStorage T) (result : List (User T))
      → IsMap m.users
      → FilterFits ts now filter m
      → list_users visit ts (λ _. now) filter m ≡ ok result
      → (v : User T)
      → Memᴰ v result ↔ (
          (id : ℕ) × (user : User T) × (lookup id m.users ≡ some user)
          × Kept ts filter user
          × (v ≡ clone_user user))
  unfolding list_users
  list_users_iff now filter m result d fits h v =
      let p = λ (e : ℕ × User T). not (skips ts (λ _. now) 0 filter e.1) in
      let f = λ (e : ℕ × User T). clone_user e.1 in
      let listed : result ≡ select p f (visit m.users) =
        cc (h, list_from-select ts now 0 filter (visit m.users)) in
      (
        λ mem.
            let (e, there, pass, same) = mem_of_select p f v (visit m.users) (rw listed at mem) in
            let found = lookup_of_mem e.0 e.1 m.users d (mem_perm (visits_all m.users) there) in
            let kept = (skips_iff ts now filter m e.0 e.1 fits found).0 ((not-false _).0 pass) in
            (e.0, e.1, found, kept, same),
        λ (id, user, found, kept, same).
            let pass = (skips_iff ts now filter m id user fits found).1 kept in
            let there =
              mem_perm (Permᴰ.symm (visits_all m.users)) (mem_of_lookup id user m.users found) in
            rw (listed, same)
              (select_of_mem p f (id, user) (visit m.users) there ((not-false _).1 pass)),
      )

  by_role_from-select :
      (role : Role) (es : List (ℕ × User T))
      → by_role_from visit role es ≡ select (λ e. e.1.role == role) (λ e. clone_user e.1) es
  unfolding by_role_from
  by_role_from-select role [] = refl
  by_role_from-select role (e ∷ es) = rw (by_role_from-select role es)

  -- In whatever order a store with no id twice is visited, a listing by role holds exactly the
  -- clones of the stored users with that role.
  list_users_by_role_iff :
      (role : Role) (m : MemoryStorage T) (result : List (User T))
      → IsMap m.users
      → list_users_by_role visit role m ≡ ok result
      → (v : User T)
      → Memᴰ v result ↔ (
          (id : ℕ) × (user : User T) × (lookup id m.users ≡ some user)
          × (user.role ≡ role)
          × (v ≡ clone_user user))
  unfolding list_users_by_role
  list_users_by_role_iff role m result d h v =
      let p = λ (e : ℕ × User T). e.1.role == role in
      let f = λ (e : ℕ × User T). clone_user e.1 in
      let listed : result ≡ select p f (visit m.users) =
        cc (h, by_role_from-select role (visit m.users)) in
      (
        λ mem.
            let (e, there, pass, same) = mem_of_select p f v (visit m.users) (rw listed at mem) in
            let found = lookup_of_mem e.0 e.1 m.users d (mem_perm (visits_all m.users) there) in
            (e.0, e.1, found, (eq_ℤ_iff e.1.role role).0 pass, same),
        λ (id, user, found, kept, same).
            let there =
              mem_perm (Permᴰ.symm (visits_all m.users)) (mem_of_lookup id user m.users found) in
            rw (listed, same)
              (select_of_mem p f (id, user) (visit m.users) there
                ((eq_ℤ_iff user.role role).1 kept)),
      )

module _ {T : Type 0} (ts : Timestamps T) where
  list_from-older :
      (clock : ℕ → ℤ) (i : ℕ) (f : ListFilter) (o : ℤ) (es : List (ℕ × User T))
      → ((j : ℕ) → clock j ≤ℤ clock (suc j))
      → ((j : ℕ) → Fits (clock j) (unix o))
      → All (λ e. (j : ℕ) → Fits (clock j) (ts.as_time e.1.create_date)) es
      → f.older_than ≡ some o
      → All (λ v. ts.as_time v.create_date <ℤ unix o) (list_from ts clock i (some f) es)
  unfolding list_from clone_user
  list_from-older clock i f o [] mono cut fits h = tt
  list_from-older clock i f o (e ∷ es) mono cut fits h =
      let later =
        list_from-older clock (next_reading ts clock i (some f) e.1) f o es mono cut fits.1 h in
      let created = ts.as_time e.1.create_date in
      elim (Bool-cases (skips ts clock i (some f) e.1)) [
        | inl skip ↦ rw skip later
        | inr keep ↦
            let all =
              or_false (created_before created f.created_since)
                (not_older (clock i) (clock (suc i)) created f.older_than)
                (other_status e.1.status f.status) in
            let age : not_older (clock i) (clock (suc i)) created (some o) ≡ false =
              subst (λ x. not_older (clock i) (clock (suc i)) created x ≡ false) h (all.0 keep).1 in
            rw keep (
              not_older-CreatedBefore (clock i) (clock (suc i)) created (some o) (mono i) (fits.0 i)
                  (cut (suc i)) age,
              later,
            )
      ]

  -- With a clock that runs during the loop and never goes back, and ages that fit into a Duration,
  -- every user that a listing with the cutoff `o` returns was created strictly before it.
  pub list_users-older :
      (visit : List (ℕ × User T) → List (ℕ × User T)) (clock : ℕ → ℤ) (f : ListFilter) (o : ℤ)
      (m : MemoryStorage T) (result : List (User T))
      → ((j : ℕ) → clock j ≤ℤ clock (suc j))
      → ((j : ℕ) → Fits (clock j) (unix o))
      → All (λ e. (j : ℕ) → Fits (clock j) (ts.as_time e.1.create_date)) (visit m.users)
      → f.older_than ≡ some o
      → list_users visit ts clock (some f) m ≡ ok result
      → All (λ v. ts.as_time v.create_date <ℤ unix o) result
  unfolding list_users
  list_users-older visit clock f o m result mono cut fits h listed =
      let same : list_from ts clock 0 (some f) (visit m.users) ≡ result = cc listed in
      rw (← same) (list_from-older clock 0 f o (visit m.users) mono cut fits h)
