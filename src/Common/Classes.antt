-- ===== src/Common/Classes.antt =====
-- Boolean equality as an interface, with the instances for numbers, integers and texts.
use Prim.Native.String.{String}
use Prim.Native.Nat.{ℕ}
use mathlib.Core.Path.{◌≡◌, refl}
use mathlib.Core.Logic.{◌↔◌}
use mathlib.Core.Bool.{Bool, true}
use text.Mathlib.Text.{◌==◌ as str_eq}
use text.Mathlib.TextEquality.{eq_iff}
use grpc_example.Common.Tests.{nat_beq, nat_beq_iff}
use grpc_example.Common.Int.{ℤ, eq_ℤ, eq_ℤ_iff}

pub record Eq {κ} (K : Type κ) : Type κ where
  pub beq : K → K → Bool
  pub beq_iff : (x y : K) → (beq x y ≡ true) ↔ (x ≡ y)

instance abbrev pub int_eq : Eq ℤ
int_eq = record { beq = eq_ℤ; beq_iff = eq_ℤ_iff }

instance abbrev pub string_eq : Eq String
string_eq = record { beq = str_eq; beq_iff = eq_iff }

instance abbrev pub nat_eq : Eq ℕ
nat_eq = record { beq = nat_beq; beq_iff = nat_beq_iff }

infix 50 ◌==◌
abbrev pub ◌==◌ {κ} : {K : Type κ} ⦃keys : Eq K⦄ → K → K → Bool
◌==◌ ⦃keys⦄ = keys.beq

pub beq_refl {ℓ} : {A : Type ℓ} ⦃e : Eq A⦄ (a : A) → (a == a) ≡ true
beq_refl ⦃e⦄ a = (e.beq_iff a a).1 refl
