-- ===== src/Interceptors/Otel/Names.antt =====
-- interceptors/otel_interceptors.go: `extractService` and `extractMethod`. Their indices are of
-- bytes; the tests are for a slash, which is one byte that no other character contains.
use Prim.Native.Char.{code}
use text.Mathlib.TextLemmas.{nil-append, cons-append}
use grpc_example.Common.{
  String, ◌<>◌, Bool, false, ◌||◌, Option, none, some, ◌≡◌, refl, ap, arith, if◌then◌else◌, nat_beq,
  ◌∙◌,
}

abbrev drop_slash : String → String
drop_slash String.[] = ""
drop_slash (String.◌∷◌ c s) = if nat_beq (code c) 47 then s else String.◌∷◌ c s

abbrev pub before_slash : String → String
before_slash String.[] = ""
before_slash (String.◌∷◌ c s) =
    let rest = before_slash s in if nat_beq (code c) 47 then "" else String.◌∷◌ c rest

abbrev or_else {ℓ} : {A : Type ℓ} → Option A → Option A → Option A
or_else (some a) other = some a
or_else none other = other

-- What follows the last slash.
abbrev pub after_last_slash : String → Option String
after_last_slash String.[] = none
after_last_slash (String.◌∷◌ c s) =
    let rest = after_last_slash s in or_else rest (if nat_beq (code c) 47 then some s else none)

abbrev or_whole : String → Option String → String
or_whole s none = s
or_whole s (some r) = r

unfoldable pub extract_service : String → String
extract_service full_method = before_slash (drop_slash full_method)

unfoldable pub extract_method : String → String
extract_method full_method = or_whole full_method (after_last_slash full_method)

abbrev pub has_slash : String → Bool
has_slash String.[] = false
has_slash (String.◌∷◌ c s) = let rest = has_slash s in nat_beq (code c) 47 || rest

halves : (a b : Bool) → (a || b) ≡ false → (a ≡ false) × (b ≡ false)
halves a b h = ground arith

slash_append : (t : String) → "/" <> t ≡ String.◌∷◌ "/" t
slash_append t = cons-append "/" "" t ∙ ap (String.◌∷◌ "/") (nil-append t)

before_slash-append : (s t : String) → has_slash s ≡ false → before_slash (s <> "/" <> t) ≡ s
before_slash-append String.[] t h = rw (nil-append, slash_append) refl
before_slash-append (String.◌∷◌ c s) t h =
    let (here, later) = halves (nat_beq (code c) 47) (has_slash s) h in
    rw (cons-append, here, before_slash-append s t later) refl

after_last_slash-none : (t : String) → has_slash t ≡ false → after_last_slash t ≡ none
after_last_slash-none String.[] h = refl
after_last_slash-none (String.◌∷◌ c s) h = ground (arith, after_last_slash-none s)

after_last_slash-append :
    (s t : String) → has_slash t ≡ false → after_last_slash (s <> "/" <> t) ≡ some t
after_last_slash-append String.[] t h =
    rw (nil-append, slash_append, after_last_slash-none t h) refl
after_last_slash-append (String.◌∷◌ c s) t h = rw (cons-append, after_last_slash-append s t h) refl

-- Of "/service/method", where neither name contains a slash, `extractService` and `extractMethod`
-- return the service and the method.
extract_method-extract_service :
    (service method : String)
    → has_slash service ≡ false
    → has_slash method ≡ false
    → (extract_service ("/" <> service <> "/" <> method) ≡ service)
      × (extract_method ("/" <> service <> "/" <> method) ≡ method)
unfolding extract_service extract_method
extract_method-extract_service service method h h' = (
  rw slash_append (before_slash-append service method h),
  rw (slash_append (service <> "/" <> method), after_last_slash-append service method h') refl,
)
