-- ===== src/Base/Assoc.antt =====
-- A Go map as an association list with at most one entry for each key that `insert` has put there.
use mathlib.Core.Path.{◌≡◌, refl, sym}
use mathlib.Core.Logic.{◌≢◌, inl, inr}
use mathlib.Core.Bool.{true, false}
use mathlib.Core.Option.{Option, none, some}
use mathlib.Core.List.{List, [], ◌∷◌, map, Memᴰ}
use native.Mathlib.Omega.{arith}
use floatlab_core.Base.Tests.{if◌then◌else◌, Bool-cases}
use floatlab_core.Base.Keys.{Eq, ◌==◌}

abbrev pub Map {ℓ κ} : Type ℓ → Type κ → Type (ℓ ⊔ κ)
Map K V = List (K × V)

module _ {ℓ κ} {K : Type ℓ} {V : Type κ} ⦃e : Eq K⦄ where
  -- `m[k]` with its second result.
  unfoldable pub lookup : K → Map K V → Option V
  lookup k [] = none
  lookup k ((j, v) ∷ m) = if j == k then some v else lookup k m

  -- `m[k] = v`
  unfoldable pub insert : K → V → Map K V → Map K V
  insert key new [] = (key, new) ∷ []
  insert key new ((i, old) ∷ rest) =
      if i == key then (key, new) ∷ rest else (i, old) ∷ insert key new rest

  -- `delete(m, k)`
  unfoldable pub erase : K → Map K V → Map K V
  erase k [] = []
  erase k ((j, w) ∷ m) = let rest = erase k m in if j == k then rest else (j, w) ∷ rest

  pub lookup-insert :
      (key at : K) (new : V) (m : Map K V)
      → lookup at (insert key new m) ≡ (if key == at then some new else lookup at m)
  unfolding lookup insert
  lookup-insert key at new [] = refl
  lookup-insert key at new ((i, old) ∷ rest) =
      ground
        (arith, e.beq_iff key at, e.beq_iff i key, e.beq_iff i at, lookup-insert key at new rest)

  pub lookup-erase :
      (k j : K) (m : Map K V) → lookup j (erase k m) ≡ (if k == j then none else lookup j m)
  unfolding lookup erase
  lookup-erase k j [] = ground arith
  lookup-erase k j ((i, w) ∷ m) =
      ground (arith, e.beq_iff k j, e.beq_iff i k, e.beq_iff i j, lookup-erase k j m)

module _ {ℓ} {K : Type ℓ} ⦃e : Eq K⦄ where
  pub ==_refl : (k : K) → (k == k) ≡ true
  ==_refl k = (e.beq_iff k k).1 refl

  pub ==_ne : (k j : K) → k ≢ j → (k == j) ≡ false
  ==_ne k j h = ground (arith, e.beq_iff k j)

module _ {ℓ κ} {K : Type ℓ} {V : Type κ} ⦃e : Eq K⦄ where
  -- The keys of a map are those that a lookup finds.
  pub lookup_of_mem :
      (k : K) (m : Map K V) → Memᴰ k (map (λ x. x.0) m) → (v : V) × (lookup k m ≡ some v)
  unfolding lookup
  lookup_of_mem k [] h = elim h [ ]
  lookup_of_mem k ((j, v) ∷ m) h = elim (Bool-cases (j == k)) [
    | inl t ↦ (v, rw t)
    | inr f ↦ rw f (later (lookup_of_mem k m) f h)
  ]
    where
      later :
          (Memᴰ k (map (λ x. x.0) m) → (w : V) × (lookup k m ≡ some w))
          → (j == k) ≡ false
          → Memᴰ k (j ∷ map (λ x. x.0) m)
          → (w : V) × (lookup k m ≡ some w)
      later ih f (Memᴰ.head p) = cc (f, (e.beq_iff j k).1 (sym p))
      later ih f (Memᴰ.tail t) = ih t

  pub mem_of_lookup :
      (k : K) (m : Map K V) {v : V} → lookup k m ≡ some v → Memᴰ k (map (λ x. x.0) m)
  unfolding lookup
  mem_of_lookup k [] h = cc
  mem_of_lookup k ((j, w) ∷ m) h = elim (Bool-cases (j == k)) [
    | inl t ↦ Memᴰ.head (sym ((e.beq_iff j k).0 t))
    | inr f ↦ Memᴰ.tail (mem_of_lookup k m (rw f at h))
  ]
