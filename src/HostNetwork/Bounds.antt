-- ===== src/HostNetwork/Bounds.antt =====
-- The addresses of a static configuration that `Config.Validate` of internal/hostnetwork/config.go
-- accepts.
use native.Mathlib.Nat.{div-mul-le_self, lt-div-mul-add, div-add-mod, mul_comm}
use floatlab_core.Base.{
  &&-eq-true, ==_ne, Bool, Option, String, [], all, ap, arith, codes, false, if◌then◌else◌, ltb,
  nat_eq, none, not, not-eq-false, pow_pos, refl, some, string_eq, subst, sym, true, ||-eq-false, ℕ,
  ◌%◌, ◌&&◌, ◌*◌, ◌+◌, ◌-◌, ◌/◌, ◌<◌, ◌==◌, ◌^◌, ◌||◌, ◌∙◌, ◌≡◌, ◌≢◌, ◌≤◌,
}
use floatlab_core.Net.{
  Addr, Bool-eq, Prefix, addr_eq, block, is_global_unicast, masked, prefix_contains,
}
use floatlab_core.HostNetwork.{IPv4, NetworkConfig}
use floatlab_core.HostNetwork.Config.{
  Checked, Parsers, invalid, is_broadcast, is_dns_server, is_gateway, mask_size, normalise_bonds,
  normalise_macs, prefix_of, require, valid, validate, validate_ipv4, ◌>>=◌,
}

-- An address of the block that is not its first, the network, or its last, the broadcast address.
unfoldable pub IsUsable : Prefix → Addr → Type 0
unfolding masked
IsUsable p a = ((masked p).addr.value < a.value) × (a.value + 1 < (masked p).addr.value + block p)

some_valid :
    {A B : Type 0} (o : Option A) (e : String) (k : A → Checked B) {x : B}
    → elim o as (λ y. Checked B) [ none ↦ invalid e | some a ↦ k a ] ≡ valid x
    → (a : A) × (o ≡ some a) × (k a ≡ valid x)
some_valid none e k h = cc h
some_valid (some a) e k h = (a, refl, h)

guard_valid :
    {B : Type 0} (b : Bool) (e : String) (k : Checked B) {x : B}
    → (if b then invalid e else k) ≡ valid x
    → (b ≡ false) × (k ≡ valid x)
guard_valid true e k h = cc h
guard_valid false e k h = (refl, h)

-- In terms of the size of a block.
usable :
    (v b : ℕ)
    → 0 < b
    → (v == v / b * b || v == v / b * b + (b - 1)) ≡ false
    → (v / b * b < v) × (v + 1 < v / b * b + b)
usable v b n h = ground (arith, div-mul-le_self v b, lt-div-mul-add {a = v} {b = b} n)

usable_last :
    (v b base : ℕ)
    → 0 < b
    → v / b * b ≡ base
    → (v == base) ≡ false
    → (v % b == b - 1) ≡ false
    → (base < v) × (v + 1 < base + b)
usable_last v b base n e f g = ground (
  arith,
  div-mul-le_self v b,
  lt-div-mul-add {a = v} {b = b} n,
  div-add-mod v b,
  mul_comm b (v / b),
)

bind_valid :
    {A B : Type 0} (m : Checked A) (k : A → Checked B) {x : B}
    → (m >>= k) ≡ valid x
    → (a : A) × (m ≡ valid a) × (k a ≡ valid x)
bind_valid (valid a) k h = (a, refl, h)
bind_valid (invalid e) k h = cc h

require_valid : (b : Bool) (e : String) {u : Unit} → require b e ≡ valid u → b ≡ true
unfolding require
require_valid true e h = refl
require_valid false e h = cc h

not-true : (b : Bool) → not b ≡ true → b ≡ false
not-true true h = cc h
not-true false h = refl

size : (ones : ℕ) → (ones == 0 || ltb 30 ones) ≡ false → (1 ≤ ones) × (ones ≤ 30)
size ones h = (ground arith, ground arith)

abbrev last_of : ℕ → Prefix → ℕ
last_of ones p = (masked p).addr.value + (2 ^ (32 - ones) - 1)

abbrev prefix_4 : Bool → ℕ → ℕ → Prefix
prefix_4 b v ones = record { addr = record { is4 = b; value = v }; bits = ones }

host-IsUsable :
    (b : Bool) (v ones : ℕ)
    → b ≡ true
    → (v == (masked (prefix_4 b v ones)).addr.value || v == last_of ones (prefix_4 b v ones))
      ≡ false
    → IsUsable (prefix_4 b v ones) (record { is4 = b; value = v })
unfolding IsUsable masked
host-IsUsable false v ones e f = absurd (no e)
  where
    no : false ≢ true
    no h = cc
host-IsUsable true v ones e f = usable v (2 ^ (32 - ones)) (pow_pos (32 - ones)) f

module _ (parsers : Parsers) where
  -- The gateway of a host with an address of 32 bits.
  is_gateway-IsUsable :
      (p : Prefix) (gw : Addr)
      → p.addr.is4 ≡ true
      → is_gateway parsers p gw ≡ true
      → IsUsable p gw × (gw.value ≢ p.addr.value)
  unfolding is_gateway prefix_contains masked is_broadcast IsUsable
  is_gateway-IsUsable p gw e h =
      let (h₁, c) =
        &&-eq-true
          (gw.is4
            && is_global_unicast gw
            && prefix_contains p gw
            && not (addr_eq gw p.addr)
            && not (addr_eq gw (masked p).addr))
          _ h in
      let (h₂, n) =
        &&-eq-true
          (gw.is4 && is_global_unicast gw && prefix_contains p gw && not (addr_eq gw p.addr)) _
          h₁ in
      let (h₃, o) = &&-eq-true (gw.is4 && is_global_unicast gw && prefix_contains p gw) _ h₂ in
      let (h₄, i) = &&-eq-true (gw.is4 && is_global_unicast gw) _ h₃ in
      let (g, _) = &&-eq-true gw.is4 _ h₄ in
      in_block p.addr.is4 gw.is4 p.addr.value gw.value p.bits e g i (not-true _ o) (not-true _ n)
        (not-true _ c)
    where
      in_block :
          (b d : Bool) (v u ones : ℕ)
          → b ≡ true
          → d ≡ true
          → (Bool-eq b d && u / block (prefix_4 b v ones) == v / block (prefix_4 b v ones)) ≡ true
          → addr_eq (record { is4 = d; value = u }) (record { is4 = b; value = v }) ≡ false
          → addr_eq
              (record { is4 = d; value = u })
              (record {
                is4 = b;
                value = v / block (prefix_4 b v ones) * block (prefix_4 b v ones);
              })
            ≡ false
          → (u % 2 ^ (32 - ones) == 2 ^ (32 - ones) - 1) ≡ false
          → ((v / block (prefix_4 b v ones) * block (prefix_4 b v ones) < u)
              × (u + 1
                  < v / block (prefix_4 b v ones) * block (prefix_4 b v ones)
                    + block (prefix_4 b v ones)))
            × (u ≢ v)
      in_block true true v u ones e g i o n c = (
        usable_last u (2 ^ (32 - ones)) (v / 2 ^ (32 - ones) * 2 ^ (32 - ones))
            (pow_pos (32 - ones)) (ap (λ q. q * 2 ^ (32 - ones)) ((nat_eq.beq_iff _ _).0 i)) n c,
        λ q. ground (arith, q, o),
      )
      in_block false d v u ones e g i o n c = cc e
      in_block true false v u ones e g i o n c = cc g

  prefix_of-IsUsable :
      (v : IPv4) (p : Prefix)
      → prefix_of parsers v ≡ valid p
      → (p.addr.is4 ≡ true) × (1 ≤ p.bits) × (p.bits ≤ 30) × IsUsable p p.addr
  unfolding prefix_of
  prefix_of-IsUsable v p h =
      let (ip, _, h₁) = some_valid (parsers.netip.parse_addr v.address) _ _ h in
      let (f₁, h₂) = guard_valid (not ip.is4 || not (is_global_unicast ip)) _ _ h₁ in
      let (mask, _, h₃) = some_valid (parsers.parse_ip4 v.netmask) _ _ h₂ in
      let (ones, _, h₄) = some_valid (mask_size 32 mask) _ _ h₃ in
      let (f₂, h₅) = guard_valid (ones == 0 || ltb 30 ones) _ _ h₄ in
      let prefix : Prefix = record { addr = ip; bits = ones } in
      let (f₃, h₆) =
        guard_valid (ip.value == (masked prefix).addr.value || ip.value == last_of ones prefix) _ _
          h₅ in
      let is4 : ip.is4 ≡ true =
        not-eq-false ip.is4 (||-eq-false (not ip.is4) (not (is_global_unicast ip)) f₁).0 in
      let (l, m) = size ones f₂ in
      subst (λ p. (p.addr.is4 ≡ true) × (1 ≤ p.bits) × (p.bits ≤ 30) × IsUsable p p.addr)
        (valid-inj h₆) (is4, l, m, host-IsUsable ip.is4 ip.value ones is4 f₃)
    where
      valid-inj : {a b : Prefix} → valid a ≡ valid b → a ≡ b
      valid-inj h = cc h

  static-IsUsable :
      (v : IPv4)
      → validate_ipv4 parsers v ≡ valid tt
      → v.mode ≡ "static"
      → (p : Prefix) × (prefix_of parsers v ≡ valid p)
        × ((gw : Addr) × (parsers.netip.parse_addr v.gateway ≡ some gw)
            × (is_gateway parsers p gw ≡ true))
  unfolding validate_ipv4
  static-IsUsable v h e =
      let (p, k, g) = bind_valid (prefix_of parsers v) _ (
        rw
          (==_ne v.mode "dhcp" (λ q. distinct (sym q ∙ e)), (string_eq.beq_iff v.mode "static").1 e)
          at h) in
      let (gw, q, t) =
        some_true (is_gateway parsers p) (parsers.netip.parse_addr v.gateway)
          (require_valid _ _ g) in
      (p, k, (gw, q, t))
    where
      distinct : ◌≢◌ {A = String} "dhcp" "static"
      distinct h = cc h

      some_true :
          (f : Addr → Bool) (o : Option Addr)
          → elim o as (λ x. Bool) [ none ↦ false | some a ↦ f a ] ≡ true
          → (a : Addr) × (o ≡ some a) × (f a ≡ true)
      some_true f none h = cc h
      some_true f (some a) h = (a, refl, h)

  validate_parts :
      (c x : NetworkConfig)
      → validate parsers c ≡ valid x
      → (validate_ipv4 parsers c.ipv4 ≡ valid tt) × (x.ipv4 ≡ c.ipv4)
  unfolding validate
  validate_parts c x h =
      let (_, _, h₁) =
        bind_valid (require (c.version == 1) "unsupported network configuration version") _ h in
      let (excluded, _, h₂) =
        bind_valid (normalise_macs parsers "duplicate adapter MAC" [] c.excluded_macs) _ h₁ in
      let (bonds, _, h₃) = bind_valid (normalise_bonds parsers excluded.0 [] c.bonds) _ h₂ in
      let (u, k, h₄) = bind_valid (validate_ipv4 parsers c.ipv4) _ h₃ in
      let (_, _, h₅) =
        bind_valid (require (all (is_dns_server parsers) c.dns_servers) "invalid DNS server") _
          h₄ in
      let (_, _, h₆) =
        bind_valid
          (require
            (all (λ x. not (x == 10) && not (x == 13) && not (x == 0)) (codes c.default_pool_id))
            "invalid default pool ID")
          _ h₅ in
      (k, sym (ap (λ o. ip_of o) h₆))
    where
      ip_of : Checked NetworkConfig → IPv4
      ip_of (valid y) = y.ipv4
      ip_of (invalid e) = c.ipv4

  -- A static configuration that validates has a mask of 1 to 30 bits, an address that lies strictly
  -- between the network and the broadcast address of its block, and a gateway that does so too and
  -- differs from the address.
  pub validate-IsUsable :
      (c x : NetworkConfig)
      → validate parsers c ≡ valid x
      → c.ipv4.mode ≡ "static"
      → (p : Prefix) × (prefix_of parsers x.ipv4 ≡ valid p)
        × (1 ≤ p.bits)
        × (p.bits ≤ 30)
        × IsUsable p p.addr
        × ((gw : Addr) × (parsers.netip.parse_addr x.ipv4.gateway ≡ some gw)
            × IsUsable p gw
            × (gw.value ≢ p.addr.value))
  validate-IsUsable c x h e =
      let (k, q) = validate_parts c x h in
      let (p, f, (gw, g, t)) = static-IsUsable c.ipv4 k e in
      let (is4, l, m, u) = prefix_of-IsUsable c.ipv4 p f in
      let (v, n) = is_gateway-IsUsable p gw is4 t in
      (
        p,
        ap (λ i. prefix_of parsers i) q ∙ f,
        l,
        m,
        u,
        (gw, ap (λ i. parsers.netip.parse_addr i.gateway) q ∙ g, v, n),
      )
