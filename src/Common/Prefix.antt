-- ===== src/Common/Prefix.antt =====
-- `strings.HasPrefix` and `strings.TrimPrefix`, over code points.
use Prim.Native.Char.{code}
use Prim.Native.String
use Prim.Native.String.{String}
use mathlib.Core.Path.{◌≡◌, refl, sym, ap}
use mathlib.Core.Logic.{inl, inr}
use mathlib.Core.Bool.{Bool, true, false}
use mathlib.Core.Option.{Option, none, some}
use native.Mathlib.Omega.{arith}
use text.Mathlib.TextEquality.{Char-path}
use text.Mathlib.TextLemmas.{nil-append, cons-append}
use grpc_example.Common.Tests.{nat_beq, nat_beq_iff, if◌then◌else◌, Bool-cases}

-- What follows the prefix, if the text starts with it.
unfoldable pub after_prefix : String → String → Option String
after_prefix String.[] s = some s
after_prefix (String.◌∷◌ c p) String.[] = none
after_prefix (String.◌∷◌ c p) (String.◌∷◌ d s) =
    if nat_beq (code c) (code d) then after_prefix p s else none

abbrev is_some : Option String → Bool
is_some none = false
is_some (some r) = true

unfoldable pub has_prefix : String → String → Bool
unfolding after_prefix
has_prefix s p = is_some (after_prefix p s)

abbrev or_whole : String → Option String → String
or_whole s none = s
or_whole s (some r) = r

unfoldable pub trim_prefix : String → String → String
unfolding after_prefix
trim_prefix s p = or_whole s (after_prefix p s)

pub after_prefix-append : (p r : String) → after_prefix p (String.◌++◌ p r) ≡ some r
unfolding after_prefix
after_prefix-append String.[] r = rw nil-append
after_prefix-append (String.◌∷◌ c p) r =
    rw (cons-append, after_prefix, (nat_beq_iff (code c) (code c)).1 refl) (after_prefix-append p r)

pub append-after_prefix : (p s r : String) → after_prefix p s ≡ some r → s ≡ String.◌++◌ p r
unfolding after_prefix
append-after_prefix String.[] s r h = rw nil-append (ap (or_whole s) h)
append-after_prefix (String.◌∷◌ c p) String.[] r h = cc
append-after_prefix (String.◌∷◌ c p) (String.◌∷◌ d s) r h =
    elim (Bool-cases (nat_beq (code c) (code d))) [
      | inl same ↦
          let tail : after_prefix p s ≡ some r = ground arith in
          let heads : d ≡ c = Char-path d c (sym ((nat_beq_iff (code c) (code d)).0 same)) in
          rw (cons-append, heads, append-after_prefix p s r tail) refl
      | inr differ ↦ ground arith
    ]
