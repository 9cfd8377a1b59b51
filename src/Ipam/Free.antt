-- ===== src/Ipam/Free.antt =====
-- The address that `Allocate` of internal/ipam/allocator.go finds.
use native.Mathlib.Nat.{le-div_iff_mul-le, div-lt_iff_lt-mul, mul-div_cancel}
use floatlab_core.Base.{
  &&-eq-true, Bool, Bool-cases, List, [], ap, arith, false, if◌then◌else◌, inl, inr, leb, length,
  ltb, nat_eq, pow_pos, refl, string_eq, suc, sym, true, zero, ℕ, ◌&&◌, ◌*◌, ◌+◌, ◌-◌, ◌/◌, ◌<◌,
  ◌==◌, ◌∙◌, ◌∷◌, ◌≡◌, ◌≢◌, ◌≤◌,
}
use floatlab_core.Net.{Addr, Bool-eq, Prefix, addr_eq, block, masked, prefix_contains, width}
use floatlab_core.Ipam.{Search, exhausted, failed, found, out_of_fuel}
use floatlab_core.Ipam.Reservations.{first_free, is_reserved, walk_from}

-- The first address of the block of a prefix.
abbrev pub low : Prefix → ℕ
low p = p.addr.value / block p * block p

abbrev pub at : Prefix → ℕ → Addr
at p v = record { is4 = p.addr.is4; value = v }

-- What the first free address of a block is, from an address on: there is one and all before it are
-- reserved, or all are.
unfoldable pub IsFirst : Prefix → List Addr → ℕ → Search ℕ → Type 0
IsFirst p taken v (found a) =
    (v ≤ a)
    × (a < low p + block p)
    × (is_reserved taken (at p a) ≡ false)
    × ((u : ℕ) → v ≤ u → u < a → is_reserved taken (at p u) ≡ true)
IsFirst p taken v exhausted =
    (u : ℕ) → v ≤ u → u < low p + block p → is_reserved taken (at p u) ≡ true
IsFirst p taken v _ = ⊥

-- The reserved addresses from an address on.
count_from : List Addr → ℕ → ℕ
count_from [] v = 0
count_from (a ∷ taken) v = let rest = count_from taken v in if leb v a.value then suc rest else rest

count_from-le : (taken : List Addr) (v : ℕ) → count_from taken v ≤ length taken
unfolding count_from
count_from-le [] v = omega arith
count_from-le (a ∷ taken) v = ground (arith, count_from-le taken v)

count_from-suc : (taken : List Addr) (v : ℕ) → count_from taken (suc v) ≤ count_from taken v
unfolding count_from
count_from-suc [] v = omega arith
count_from-suc (a ∷ taken) v = ground (arith, count_from-suc taken v)

count_from-lt :
    (taken : List Addr) (a : Addr)
    → is_reserved taken a ≡ true
    → count_from taken (suc a.value) < count_from taken a.value
unfolding count_from is_reserved
count_from-lt [] a h = cc h
count_from-lt (b ∷ taken) a h = elim (Bool-cases (addr_eq b a)) [
  | inl t ↦ ground (
    arith,
    count_from-suc taken a.value,
    (nat_eq.beq_iff b.value a.value).0 (&&-eq-true (Bool-eq b.is4 a.is4) (b.value == a.value) t).1,
  )
  | inr f ↦ ground (arith, count_from-lt taken a (rw f at h))
]

-- The prefix holds the addresses of its block.
block_pos : (p : Prefix) → 0 < block p
block_pos p = pow_pos (width p.addr - p.bits)

in_block : (v b q : ℕ) → 0 < b → q * b ≤ v → (v / b == q) ≡ ltb v (q * b + b)
in_block v b q n h = ground (
  arith,
  le-div_iff_mul-le {k = b} {x = q} {y = v} n,
  div-lt_iff_lt-mul {k = b} {x = v} {y = suc q} n,
)

Bool-eq_refl : (b : Bool) {c : Bool} → (Bool-eq b b && c) ≡ c
Bool-eq_refl true = refl
Bool-eq_refl false = refl

contains_block :
    (p : Prefix) (v : ℕ) → low p ≤ v → prefix_contains p (at p v) ≡ ltb v (low p + block p)
unfolding prefix_contains
contains_block p v h =
    Bool-eq_refl p.addr.is4 ∙ in_block v (block p) (p.addr.value / block p) (block_pos p) h

-- One address further back.
step-IsFirst :
    (p : Prefix) (taken : List Addr) (v : ℕ) (r : Search ℕ)
    → is_reserved taken (at p v) ≡ true
    → IsFirst p taken (suc v) r
    → IsFirst p taken v r
unfolding IsFirst
step-IsFirst p taken v (found a) t (l, m, f, h) = (
  omega arith,
  m,
  f,
  λ u i j. elim (Bool-cases (u == v)) [
    | inl e ↦ ap (λ x. is_reserved taken (at p x)) ((nat_eq.beq_iff u v).0 e) ∙ t
    | inr n ↦ h u (ground arith) j
  ],
)
step-IsFirst p taken v exhausted t h = λ u i j. elim (Bool-cases (u == v)) [
  | inl e ↦ ap (λ x. is_reserved taken (at p x)) ((nat_eq.beq_iff u v).0 e) ∙ t
  | inr n ↦ h u (ground arith) j
]
step-IsFirst p taken v out_of_fuel t h = h
step-IsFirst p taken v (failed e) t h = h

walk_from-IsFirst :
    (n : ℕ) (p : Prefix) (taken : List Addr) (v : ℕ)
    → count_from taken v < n
    → low p ≤ v
    → IsFirst p taken v (walk_from n p taken v)
unfolding walk_from IsFirst
walk_from-IsFirst zero p taken v c l = omega arith
walk_from-IsFirst (suc n) p taken v c l = elim (Bool-cases (prefix_contains p (at p v))) [
  | inr f ↦ rw f (λ u i j. absurd (outside u i j (sym (contains_block p v l) ∙ f)))
  | inl t ↦ elim (Bool-cases (is_reserved taken (at p v))) [
    | inl r ↦ rw t (
        rw r (
          step-IsFirst p taken v _ r (
            walk_from-IsFirst n p taken (suc v) (ground (arith, count_from-lt taken (at p v) r))
              (omega arith))))
    | inr f ↦ rw t (
        rw f (
          omega arith,
          within (sym (contains_block p v l) ∙ t),
          f,
          λ u i j. absurd (none_between u i j),
        ))
  ]
]
  where
    outside : (u : ℕ) → v ≤ u → u < low p + block p → ltb v (low p + block p) ≢ false
    outside u i j e = ground arith

    within : ltb v (low p + block p) ≡ true → v < low p + block p
    within e = ground arith

    none_between : (u : ℕ) → v ≤ u → ¬ (u < v)
    none_between u i j = omega arith

low-masked : (p : Prefix) → low (masked p) ≡ (masked p).addr.value
unfolding masked
low-masked p = ap (λ q. q * block p) (mul-div_cancel (p.addr.value / block p) (block_pos p))

-- The walk of `Allocate` ends, with the first free address of the prefix after the network's if there
-- is one: every address before it is reserved, and the prefix is exhausted only if all are.
pub first_free-IsFirst :
    (p : Prefix) (taken : List Addr)
    → IsFirst (masked p) taken (suc (masked p).addr.value) (first_free p taken)
unfolding first_free
first_free-IsFirst p taken =
    walk_from-IsFirst (suc (length taken)) (masked p) taken (suc (masked p).addr.value)
      (omega (arith, count_from-le taken (suc (masked p).addr.value))) (omega (arith, low-masked p))
