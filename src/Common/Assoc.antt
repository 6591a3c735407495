-- ===== src/Common/Assoc.antt =====
-- Go's maps as association lists: a read, `m[k] = v`, `delete(m, k)`, and their laws in the form
-- of a test on the keys. An overwritten entry keeps its place and a new one goes to the end.
use mathlib.Core.Path.{◌≡◌, refl, subst}
use mathlib.Core.Logic.{◌↔◌, inl, inr}
use mathlib.Core.Bool.{Bool, true, false, ◌||◌}
use mathlib.Core.Option.{Option, none, some}
use mathlib.Core.List.{List, [], ◌∷◌}
use Prim.Native.Nat.{◌+◌}
use native.Mathlib.Omega.{arith}
use grpc_example.Common.Tests.{if◌then◌else◌, Bool-cases}
use grpc_example.Common.Classes.{Eq, ◌==◌}
use grpc_example.Common.Lists.{length, All}

module _ {ℓ κ} {K : Type ℓ} {V : Type κ} where
  pair_eq : {i k : K} {w v : V} → i ≡ k → some w ≡ some v → ◌≡◌ {A = K × V} (i, w) (k, v)
  pair_eq p q = cc

module _ {ℓ κ} {K : Type ℓ} {V : Type κ} ⦃e : Eq K⦄ where
  unfoldable pub lookup : K → List (K × V) → Option V
  lookup k [] = none
  lookup k ((j, v) ∷ m) = if j == k then some v else lookup k m

  unfoldable pub insert : K → V → List (K × V) → List (K × V)
  insert k v [] = (k, v) ∷ []
  insert k v ((key, old) ∷ m) = if key == k then (k, v) ∷ m else (key, old) ∷ insert k v m

  unfoldable pub delete : K → List (K × V) → List (K × V)
  delete k [] = []
  delete k ((j, v) ∷ m) = let rest = delete k m in if j == k then rest else (j, v) ∷ rest

  -- `_, exists := m[k]`
  unfoldable pub has : K → List (K × V) → Bool
  has k [] = false
  has k ((j, v) ∷ m) = (j == k) || has k m

  -- No key stands twice: the list is a map.
  abbrev pub IsMap : List (K × V) → Type 0
  IsMap [] = Unit {0}
  IsMap ((k, v) ∷ m) = (has k m ≡ false) × IsMap m

  pub lookup-insert :
      (k j : K) (v : V) (m : List (K × V))
      → lookup j (insert k v m) ≡ (if k == j then some v else lookup j m)
  unfolding insert lookup
  lookup-insert k j v ((key, old) ∷ m) =
      ground (arith, e.beq_iff key k, e.beq_iff key j, e.beq_iff k j, lookup-insert k j v m)
  lookup-insert k j v [] = refl

  pub lookup-delete :
      (k j : K) (m : List (K × V)) → lookup j (delete k m) ≡ (if k == j then none else lookup j m)
  unfolding lookup delete
  lookup-delete k j [] = ground arith
  lookup-delete k j ((i, v) ∷ m) =
      ground (arith, e.beq_iff k j, e.beq_iff i k, e.beq_iff i j, lookup-delete k j m)

  pub has-insert :
      (k j : K) (v : V) (m : List (K × V)) → has j (insert k v m) ≡ ((k == j) || has j m)
  unfolding has insert
  has-insert k j v [] = refl
  has-insert k j v ((i, w) ∷ m) =
      ground (arith, e.beq_iff k j, e.beq_iff i k, e.beq_iff i j, has-insert k j v m)

  pub has-delete :
      (k j : K) (m : List (K × V)) → has j (delete k m) ≡ (if k == j then false else has j m)
  unfolding has delete
  has-delete k j [] = ground arith
  has-delete k j ((i, v) ∷ m) =
      ground (arith, e.beq_iff k j, e.beq_iff i k, e.beq_iff i j, has-delete k j m)

  -- A key is there exactly when a read finds a value.
  pub has-lookup : (k : K) (m : List (K × V)) → (has k m ≡ false) ↔ (lookup k m ≡ none)
  unfolding has lookup
  has-lookup k [] = ground arith
  has-lookup k ((j, v) ∷ m) = ground (arith, has-lookup k m)

  pub insert-IsMap : (k : K) (v : V) (m : List (K × V)) → IsMap m → IsMap (insert k v m)
  unfolding insert has
  insert-IsMap k v [] h = (refl, tt)
  insert-IsMap k v ((i, w) ∷ m) h =
      ground (arith, e.beq_iff i k, e.beq_iff k i, has-insert k i v m, insert-IsMap k v m)

  pub delete-IsMap : (k : K) (m : List (K × V)) → IsMap m → IsMap (delete k m)
  unfolding delete has
  delete-IsMap k [] h = tt
  delete-IsMap k ((i, w) ∷ m) h = ground (arith, has-delete k i m, delete-IsMap k m)

  pub length-insert_new :
      (k : K) (v : V) (m : List (K × V)) → has k m ≡ false → length (insert k v m) ≡ length m + 1
  unfolding insert has
  length-insert_new k v [] h = omega arith
  length-insert_new k v ((i, w) ∷ m) h = ground (arith, length-insert_new k v m)

  pub length-insert_old :
      (k : K) (v : V) (m : List (K × V)) → has k m ≡ true → length (insert k v m) ≡ length m
  unfolding insert has
  length-insert_old k v [] h = cc
  length-insert_old k v ((i, w) ∷ m) h = ground (arith, length-insert_old k v m)

  delete_absent : (k : K) (m : List (K × V)) → has k m ≡ false → delete k m ≡ m
  unfolding delete has
  delete_absent k [] h = refl
  delete_absent k ((i, w) ∷ m) h = ground (arith, delete_absent k m)

  pub length-delete :
      (k : K) (m : List (K × V)) → IsMap m → has k m ≡ true → length (delete k m) + 1 ≡ length m
  unfolding delete has
  length-delete k [] d h = cc
  length-delete k ((i, w) ∷ m) d h =
      ground (arith, e.beq_iff i k, length-delete k m, delete_absent k m)

  module _ {ν} (P : K × V → Type ν) where
    pub All-insert : (k : K) (v : V) (m : List (K × V)) → All P m → P (k, v) → All P (insert k v m)
    unfolding insert
    All-insert k v [] h p = (p, tt)
    All-insert k v ((i, w) ∷ m) h p = elim (Bool-cases (i == k)) [
      | inl same ↦ rw same (p, h.1)
      | inr other ↦ rw other (h.0, All-insert k v m h.1 p)
    ]

    pub All-delete : (k : K) (m : List (K × V)) → All P m → All P (delete k m)
    unfolding delete
    All-delete k [] h = tt
    All-delete k ((i, w) ∷ m) h = elim (Bool-cases (i == k)) [
      | inl same ↦ rw same (All-delete k m h.1)
      | inr other ↦ rw other (h.0, All-delete k m h.1)
    ]

    pub All-lookup : (k : K) {v : V} (m : List (K × V)) → All P m → lookup k m ≡ some v → P (k, v)
    unfolding lookup
    All-lookup k [] h found = cc
    All-lookup k {v} ((i, w) ∷ m) h found = elim (Bool-cases (i == k)) [
      | inl same ↦
          let q : some w ≡ some v = ground arith in subst P (pair_eq ((e.beq_iff i k).0 same) q) h.0
      | inr other ↦ All-lookup k m h.1 (rw other at found)
    ]
