-- ===== src/Net.antt =====
-- Addresses and prefixes of the Go package net/netip, as the program uses them. An address is its
-- number, of 32 bits or of 128; a zone is left out. Parsing and printing are the parameter `Netip`.
use floatlab_core.Base.{
  Bool, Option, String, false, if◌then◌else◌, leb, nat_eq, not, string_eq, true, ℕ, ◌%◌, ◌&&◌, ◌*◌,
  ◌-◌, ◌/◌, ◌==◌, ◌^◌,
}

pub record Addr : Type 0 where
  pub is4 : Bool
  pub value : ℕ

pub record Prefix : Type 0 where
  pub addr : Addr
  pub bits : ℕ

pub record Netip : Type 0 where
  pub parse_addr : String → Option Addr
  pub parse_prefix : String → Option Prefix
  pub show_addr : Addr → String
  pub show_prefix : Prefix → String

abbrev pub Bool-eq : Bool → Bool → Bool
Bool-eq true b = b
Bool-eq false b = not b

abbrev pub width : Addr → ℕ
width a = if a.is4 then 32 else 128

abbrev pub addr_eq : Addr → Addr → Bool
addr_eq a b = Bool-eq a.is4 b.is4 && a.value == b.value

-- The number of addresses of a prefix.
abbrev pub block : Prefix → ℕ
block p = 2 ^ (width p.addr - p.bits)

-- `Prefix.Masked`
unfoldable pub masked : Prefix → Prefix
masked p = record p { addr = record { is4 = p.addr.is4; value = p.addr.value / block p * block p } }

unfoldable pub prefix_eq : Prefix → Prefix → Bool
prefix_eq p q = addr_eq p.addr q.addr && p.bits == q.bits

-- `Prefix.Contains`
unfoldable pub prefix_contains : Prefix → Addr → Bool
prefix_contains p a = Bool-eq p.addr.is4 a.is4 && a.value / block p == p.addr.value / block p

-- `Addr.Compare` is at most 0: an address of 32 bits comes before one of 128.
unfoldable pub is_at_most : Addr → Addr → Bool
is_at_most a b = if Bool-eq a.is4 b.is4 then leb a.value b.value else a.is4

-- `Addr.IsGlobalUnicast` of an address of 32 bits: not 255.255.255.255, 0.0.0.0, 127.0.0.0/8,
-- 224.0.0.0/4 or 169.254.0.0/16.
unfoldable pub is_global_unicast_4 : ℕ → Bool
is_global_unicast_4 v =
    not (v == 4294967295)
    && not (v == 0)
    && not (v / 16777216 == 127)
    && not (v / 268435456 == 14)
    && not (v / 65536 == 43518)

-- `Addr.IsGlobalUnicast`; of 128 bits, those that stand for one of 32 count as it, and the others
-- are not ::, ::1, ff00::/8 or fe80::/10.
unfoldable pub is_global_unicast : Addr → Bool
unfolding is_global_unicast_4
is_global_unicast a =
    if a.is4
    then is_global_unicast_4 a.value
    else if a.value / 4294967296 == 65535
    then is_global_unicast_4 (a.value % 4294967296)
    else (not (a.value == 0)
        && not (a.value == 1)
        && not (a.value / 2 ^ 120 == 255)
        && not (a.value / 2 ^ 118 == 1018))
