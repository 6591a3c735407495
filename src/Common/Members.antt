-- ===== src/Common/Members.antt =====
-- Membership in lists and in maps, and a list filtered and mapped in one pass.
use mathlib.Core.List.{Memᴰ, Permᴰ}
use mathlib.Core.List.Memᴰ
use mathlib.Core.Path.{◌≡◌, refl, ◌∙◌, ap}
use mathlib.Core.Logic.{inl, inr, ◌↔◌}
use mathlib.Core.Bool.{Bool, true}
use mathlib.Core.Option.{some}
use mathlib.Core.List.{List, [], ◌∷◌}
use native.Mathlib.Omega.{arith}
use grpc_example.Common.Tests.{if◌then◌else◌, Bool-cases}
use grpc_example.Common.Classes.{Eq, ◌==◌}
use grpc_example.Common.Lists.{any}
use grpc_example.Common.Assoc.{lookup, has, IsMap}

module _ {ℓ} {A : Type ℓ} where
  pub mem_perm : {a : A} {xs ys : List A} → Permᴰ xs ys → Memᴰ a xs → Memᴰ a ys
  mem_perm Permᴰ.nil m = m
  mem_perm (Permᴰ.cons e d) (Memᴰ.head p) = Memᴰ.head (p ∙ e)
  mem_perm (Permᴰ.cons e d) (Memᴰ.tail m) = Memᴰ.tail (mem_perm d m)
  mem_perm (Permᴰ.swap e₁ e₂) (Memᴰ.head p) = Memᴰ.tail (Memᴰ.head (p ∙ e₁))
  mem_perm (Permᴰ.swap e₁ e₂) (Memᴰ.tail (Memᴰ.head p)) = Memᴰ.head (p ∙ e₂)
  mem_perm (Permᴰ.swap e₁ e₂) (Memᴰ.tail (Memᴰ.tail m)) = Memᴰ.tail (Memᴰ.tail m)
  mem_perm (Permᴰ.trans d₁ d₂) m = mem_perm d₂ (mem_perm d₁ m)

module _ {ℓ κ} {K : Type ℓ} {V : Type κ} ⦃e : Eq K⦄ where
  has_of_mem : (k : K) (v : V) (m : List (K × V)) → Memᴰ (k, v) m → has k m ≡ true
  unfolding has
  has_of_mem k v [] h = elim h [ ]
  has_of_mem k v ((j, w) ∷ m) (Memᴰ.head p) =
      ground (arith, ap (λ (x : K × V). x.0) p, e.beq_iff j k)
  has_of_mem k v ((j, w) ∷ m) (Memᴰ.tail h) = ground (arith, has_of_mem k v m h)

  pub lookup_of_mem :
      (k : K) (v : V) (m : List (K × V)) → IsMap m → Memᴰ (k, v) m → lookup k m ≡ some v
  unfolding lookup
  lookup_of_mem k v [] h t = elim t [ ]
  lookup_of_mem k v ((j, w) ∷ m) h (Memᴰ.head p) =
      ground (arith, ap (λ (x : K × V). x.0) p, ap (λ (x : K × V). x.1) p, e.beq_iff j k)
  lookup_of_mem k v ((j, w) ∷ m) h (Memᴰ.tail t) =
      ground (arith, has_of_mem k v m t, lookup_of_mem k v m h.1 t, e.beq_iff j k)

  pub mem_of_lookup : (k : K) (v : V) (m : List (K × V)) → lookup k m ≡ some v → Memᴰ (k, v) m
  unfolding lookup
  mem_of_lookup k v [] h = cc
  mem_of_lookup k v ((j, w) ∷ m) h = elim (Bool-cases (j == k)) [
    | inl same ↦ Memᴰ.head (ground (arith, e.beq_iff j k))
    | inr other ↦ Memᴰ.tail (mem_of_lookup k v m (ground arith))
  ]

module _ {ℓ κ} {A : Type ℓ} {B : Type κ} (p : A → Bool) (f : A → B) where
  -- The images of the elements that pass the test, in order.
  abbrev pub select : List A → List B
  select [] = []
  select (x ∷ xs) = let rest = select xs in if p x then f x ∷ rest else rest

  pub mem_of_select :
      (b : B) (xs : List A) → Memᴰ b (select xs) → (a : A) × Memᴰ a xs × (p a ≡ true) × (b ≡ f a)
  mem_of_select b [] m = absurd (Memᴰ.not-nil m)
  mem_of_select b (x ∷ xs) m = elim (Bool-cases (p x)) [
    | inl pass ↦ elim (Memᴰ.cases_cons (rw pass at m)) [
      | inl here ↦ (x, Memᴰ.head refl, pass, here)
      | inr m' ↦ let (a, h, q, r) = mem_of_select b xs m' in (a, Memᴰ.tail h, q, r)
    ]
    | inr fail ↦ let (a, h, q, r) = mem_of_select b xs (rw fail at m) in (a, Memᴰ.tail h, q, r)
  ]

  pub select_of_mem : (a : A) (xs : List A) → Memᴰ a xs → p a ≡ true → Memᴰ (f a) (select xs)
  select_of_mem a [] m h = elim m [ ]
  select_of_mem a (x ∷ xs) (Memᴰ.head q) h = rw (← q, h) (Memᴰ.head refl)
  select_of_mem a (x ∷ xs) (Memᴰ.tail m) h = elim (Bool-cases (p x)) [
    | inl pass ↦ rw pass (Memᴰ.tail (select_of_mem a xs m h))
    | inr fail ↦ rw fail (select_of_mem a xs m h)
  ]

module _ {ℓ} {A : Type ℓ} (p : A → Bool) where
  any_mem : (l : List A) → any p l ≡ true → (a : A) × Memᴰ a l × (p a ≡ true)
  any_mem [] h = cc
  any_mem (x ∷ l) h = elim (Bool-cases (p x)) [
    | inl pass ↦ (x, Memᴰ.head refl, pass)
    | inr fail ↦ let (a, m, q) = any_mem l (rw fail at h) in (a, Memᴰ.tail m, q)
  ]

  any_of_mem : (a : A) (l : List A) → Memᴰ a l → p a ≡ true → any p l ≡ true
  any_of_mem a [] m h = elim m [ ]
  any_of_mem a (x ∷ l) (Memᴰ.head q) h = rw (← q, h) refl
  any_of_mem a (x ∷ l) (Memᴰ.tail m) h = ground (arith, any_of_mem a l m h)

  pub any_iff : (l : List A) → (any p l ≡ true) ↔ ((a : A) × Memᴰ a l × (p a ≡ true))
  any_iff l = (any_mem l, λ (a, m, q). any_of_mem a l m q)
