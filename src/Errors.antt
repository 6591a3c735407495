-- ===== src/Errors.antt =====
-- Errors of the gRPC handlers as values: a `status.Error` with its code, or any other error with
-- its text. A call that may fail returns a `Result`.
use grpc_example.Common.{ℕ, String, Bool, true, false, ◌≡◌, refl, ◌⊎◌, inl, inr}

pub data Code : Type 0 where
  already_exists not_found internal invalid_argument unauthenticated permission_denied : Code
  other_code : ℕ → Code

pub data Error : Type 0 where
  status : Code → String → Error
  plain : String → Error

pub data Result {ℓ} (A : Type ℓ) : Type ℓ where
  ok : A → Result A
  err : Error → Result A

abbrev pub is_ok {ℓ} : {A : Type ℓ} → Result A → Bool
is_ok (ok a) = true
is_ok (err e) = false

infixl 5 ◌>>=◌
abbrev pub ◌>>=◌ {ℓ κ} : {A : Type ℓ} {C : Type κ} → Result A → (A → Result C) → Result C
err failure >>= next = err failure
ok value >>= next = next value

-- A chain that succeeds has succeeded in its first part.
pub ok->>= {ℓ κ} :
    {A : Type ℓ} {C : Type κ} {reply : C} (next : A → Result C) (m : Result A)
    → (m >>= next) ≡ ok reply
    → (value : A) × (next value ≡ ok reply) × (m ≡ ok value)
ok->>= next (err failure) h = cc
ok->>= next (ok value) h = (value, h, refl)

pub Result-cases {ℓ} :
    {A : Type ℓ} (m : Result A) → ((a : A) × (m ≡ ok a)) ⊎ ((e : Error) × (m ≡ err e))
Result-cases (ok a) = inl (a, refl)
Result-cases (err e) = inr (e, refl)

pub ok_injective {ℓ} : {A : Type ℓ} (a b : A) → ◌≡◌ {A = Result A} (ok a) (ok b) → a ≡ b
ok_injective a b h = cc
