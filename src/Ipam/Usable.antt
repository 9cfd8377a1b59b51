-- ===== src/Ipam/Usable.antt =====
-- The range of a pool that `ValidatePool` of internal/ipam/pools.go accepts.
use native.Mathlib.Nat.{div-mul-le_self, lt-div-mul-add}
use floatlab_core.Base.{
  &&-eq-true, Bool, arith, false, nat_eq, none, not, not-eq-false, pow_pos, refl, some, string_eq,
  subst, true, ||-eq-false, ℕ, ◌*◌, ◌+◌, ◌-◌, ◌/◌, ◌<◌, ◌==◌, ◌^◌, ◌||◌, ◌≡◌, ◌≤◌,
}
use floatlab_core.Base.Steps.{guard-none, option-none}
use floatlab_core.Net.{
  Addr, Netip, Prefix, addr_eq, block, is_at_most, masked, prefix_contains, prefix_eq,
}
use floatlab_core.Ipam.{AddressPool}
use floatlab_core.Ipam.Ranges.{check_range, last_address, validate_pool}
use floatlab_core.Ipam.Allocations.{bounds_of}

-- A range without the first and the last address of a block.
unfoldable pub IsInside : Prefix → ℕ → ℕ → Type 0
IsInside p start stop = (p.addr.value < start) × (stop + 1 < p.addr.value + block p)

any_false :
    (a b c d e f : Bool)
    → (a || not b || not c || not d || not e || not f) ≡ false
    → (b ≡ true) × (c ≡ true) × (d ≡ true) × (e ≡ true)
any_false a b c d e f h = (ground arith, ground arith, ground arith, ground arith)

-- In terms of the size of a block.
inside :
    (v b s e : ℕ)
    → 0 < b
    → v ≡ v / b * b
    → (s / b == v / b) ≡ true
    → (e / b == v / b) ≡ true
    → (s == v) ≡ false
    → (e == v / b * b + (b - 1)) ≡ false
    → (v < s) × (e + 1 < v + b)
inside v b s e n c f g h k =
    let q : s / b ≡ v / b = (nat_eq.beq_iff (s / b) (v / b)).0 f in
    let r : e / b ≡ v / b = (nat_eq.beq_iff (e / b) (v / b)).0 g in
    let x : v / b * b ≤ s = subst (λ y. y * b ≤ s) q (div-mul-le_self s b) in
    let z : e < v / b * b + b = subst (λ y. e < y * b + b) r (lt-div-mul-add {a = e} {b = b} n) in
    (ground arith, ground arith)

abbrev prefix_4 : Bool → ℕ → ℕ → Prefix
prefix_4 b v bits = record { addr = record { is4 = b; value = v }; bits = bits }

block-IsInside :
    (b c d : Bool) (v bits s e : ℕ)
    → b ≡ true
    → c ≡ true
    → d ≡ true
    → prefix_eq (prefix_4 b v bits) (masked (prefix_4 b v bits)) ≡ true
    → prefix_contains (prefix_4 b v bits) (record { is4 = c; value = s }) ≡ true
    → prefix_contains (prefix_4 b v bits) (record { is4 = d; value = e }) ≡ true
    → addr_eq (record { is4 = c; value = s }) (record { is4 = b; value = v }) ≡ false
    → addr_eq (record { is4 = d; value = e }) (last_address (prefix_4 b v bits)) ≡ false
    → IsInside (prefix_4 b v bits) s e
unfolding IsInside prefix_eq masked prefix_contains last_address
block-IsInside true true true v bits s e _ _ _ m f g h k =
    inside v (2 ^ (32 - bits)) s e (pow_pos (32 - bits))
      ((nat_eq.beq_iff v _).0
        (&&-eq-true (v == v / 2 ^ (32 - bits) * 2 ^ (32 - bits)) (bits == bits) m).0)
      f g h k
block-IsInside false c d v bits s e h _ _ _ _ _ _ _ = cc h
block-IsInside true false d v bits s e _ h _ _ _ _ _ _ = cc h
block-IsInside true true false v bits s e _ _ h _ _ _ _ _ = cc h

module _ (netip : Netip) where
  bounds_of-some :
      (pool : AddressPool) (start stop : Addr)
      → netip.parse_addr pool.start_ip ≡ some start
      → netip.parse_addr pool.end_ip ≡ some stop
      → bounds_of netip pool ≡ some (start.value, stop.value)
  unfolding bounds_of
  bounds_of-some pool start stop a b = rw (bounds_of, a, b) refl

  -- The range of a pool that is valid is without the first and the last address of its prefix.
  pub validate_pool-IsInside :
      (pool : AddressPool)
      → validate_pool netip pool ≡ none
      → (p : Prefix) × (netip.parse_prefix pool.cidr ≡ some p)
        × ((start : ℕ) × (stop : ℕ) × (bounds_of netip pool ≡ some (start, stop))
            × IsInside p start stop)
  unfolding validate_pool check_range
  validate_pool-IsInside pool h =
      let (p, e, h₁) = option-none (netip.parse_prefix pool.cidr) _ _ h in
      let (f, h₂) = guard-none (not p.addr.is4 || not (prefix_eq p (masked p))) _ h₁ in
      let (start, a, h₃) = option-none (netip.parse_addr pool.start_ip) _ _ h₂ in
      let (stop, b, h₄) = option-none (netip.parse_addr pool.end_ip) _ _ h₃ in
      let (g, h₅) =
        guard-none
          (pool.name == ""
            || not start.is4
            || not stop.is4
            || not (prefix_contains p start)
            || not (prefix_contains p stop)
            || not (is_at_most start stop))
          _ h₄ in
      let (k, _) = guard-none (addr_eq start p.addr || addr_eq stop (last_address p)) _ h₅ in
      let (c, d, x, y) =
        any_false (pool.name == "") start.is4 stop.is4 (prefix_contains p start)
          (prefix_contains p stop) (is_at_most start stop) g in
      let (u, v) = ||-eq-false (addr_eq start p.addr) (addr_eq stop (last_address p)) k in
      let (i, j) = ||-eq-false (not p.addr.is4) (not (prefix_eq p (masked p))) f in
      (
        p,
        e,
        (
          start.value,
          stop.value,
          bounds_of-some pool start stop a b,
          block-IsInside p.addr.is4 start.is4 stop.is4 p.addr.value p.bits start.value stop.value
              (not-eq-false _ i) c d (not-eq-false _ j) x y u v,
        ),
      )
