-- ===== src/Common/Decimal.antt =====
-- The text of a number as `%d` prints it.
use Prim.Native.Char.{code}
use Prim.Native.Nat.{ℕ, zero, suc, ◌+◌, ◌*◌, ◌-◌, ◌/◌, ◌%◌, ◌^◌, ◌<◌}
use Prim.Native.String
use Prim.Native.String.{String}
use mathlib.Core.Path.{◌≡◌, refl, ◌∙◌}
use mathlib.Core.Logic.{inl, inr}
use native.Mathlib.Omega.{arith}
use text.Mathlib.TextLemmas.{nil-append, cons-append}
use grpc_example.Common.Int.{ℤ, pos, negsuc}
use grpc_example.Common.Tests.{ltb, nat_beq, Bool-cases, if◌then◌else◌}

infixr 65 ◌<>◌
abbrev pub ◌<>◌ : String → String → String
s <> t = String.◌++◌ s t

digit : ℕ → String
digit d =
    if nat_beq d 0
    then "0"
    else if nat_beq d 1
    then "1"
    else if nat_beq d 2
    then "2"
    else if nat_beq d 3
    then "3"
    else if nat_beq d 4
    then "4"
    else if nat_beq d 5
    then "5"
    else if nat_beq d 6
    then "6"
    else if nat_beq d 7
    then "7"
    else if nat_beq d 8
    then "8"
    else "9"

-- A number has fewer digits than the fuel, if it is below the fuel.
decimal_from : ℕ → ℕ → String
decimal_from zero n = ""
decimal_from (suc f) n =
    let longer = decimal_from f (n / 10) <> digit (n % 10) in if ltb n 10 then digit n else longer

unfoldable pub decimal : ℕ → String
unfolding digit decimal_from
decimal n = decimal_from (suc n) n

-- The fuel is enough: more of it prints the same.
decimal_from_enough : (f n : ℕ) → n < f → decimal_from f n ≡ decimal_from (suc f) n
unfolding decimal_from
decimal_from_enough zero n h = elim h [ ]
decimal_from_enough (suc f) n h = ground (arith, decimal_from_enough f (n / 10))

-- The number whose digits, after those of `m`, are the characters of the text.
unfoldable value_from : ℕ → String → ℕ
value_from m String.[] = m
value_from m (String.◌∷◌ c s) = value_from (m * 10 + (code c - 48)) s

unfoldable pub value : String → ℕ
unfolding value_from
value s = value_from 0 s

value_from-append : (m : ℕ) (s t : String) → value_from m (s <> t) ≡ value_from (value_from m s) t
unfolding value_from
value_from-append m String.[] t = rw nil-append refl
value_from-append m (String.◌∷◌ c s) t =
    rw cons-append (value_from-append (m * 10 + (code c - 48)) s t)

value_from-digit : (m d : ℕ) → d < 10 → value_from m (digit d) ≡ m * 10 + d
unfolding value_from digit
value_from-digit m zero small = refl
value_from-digit m (suc zero) small = refl
value_from-digit m (suc (suc zero)) small = refl
value_from-digit m (suc (suc (suc zero))) small = refl
value_from-digit m (suc (suc (suc (suc zero)))) small = refl
value_from-digit m (suc (suc (suc (suc (suc zero))))) small = refl
value_from-digit m (suc (suc (suc (suc (suc (suc zero)))))) small = refl
value_from-digit m (suc (suc (suc (suc (suc (suc (suc zero))))))) small = refl
value_from-digit m (suc (suc (suc (suc (suc (suc (suc (suc zero)))))))) small = refl
value_from-digit m (suc (suc (suc (suc (suc (suc (suc (suc (suc zero))))))))) small = refl
value_from-digit m (suc (suc (suc (suc (suc (suc (suc (suc (suc (suc d)))))))))) small = omega arith

value_from-decimal_from : (f n : ℕ) → n < f → value_from 0 (decimal_from f n) ≡ n
unfolding decimal_from
value_from-decimal_from zero n h = elim h [ ]
value_from-decimal_from (suc f) n h = elim (Bool-cases (ltb n 10)) [
  | inl one ↦ rw one (value_from-digit 0 n (ground arith) ∙ (omega arith))
  | inr more ↦ rw more (
      let longer = value_from-decimal_from f (n / 10) (ground arith) in
      rw (value_from-append 0 (decimal_from f (n / 10)) (digit (n % 10)), longer)
        (value_from-digit (n / 10) (n % 10) (omega arith) ∙ (omega arith)))
]

-- A number is read back from its text.
pub value-decimal : (n : ℕ) → value (decimal n) ≡ n
unfolding value decimal
value-decimal n = value_from-decimal_from (suc n) n (omega arith)

-- `%d` of an int32 that is kept as its bit pattern.
unfoldable pub show_int32 : ℕ → String
unfolding decimal
show_int32 n = if ltb n (2 ^ 31) then decimal n else "-" <> decimal (2 ^ 32 - n)

decimal_test : decimal 4070 ≡ "4070"
unfolding decimal
decimal_test = refl

-- `%d` of an int.
unfoldable pub show_int : ℤ → String
unfolding decimal
show_int (pos n) = decimal n
show_int (negsuc n) = "-" <> decimal (suc n)
