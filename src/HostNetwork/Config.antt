-- ===== src/HostNetwork/Config.antt =====
-- `Config.Validate` of internal/hostnetwork/config.go and the tests of services in manager.go. A
-- hardware address is its bytes with its canonical text; parsing texts is the parameter `Parsers`.
use floatlab_core.Base.{
  Bool, List, Map, Option, String, [], all, any, codes, concat, false, if◌then◌else◌, is_alnum,
  is_letter, is_name, leb, length, ltb, nat_eq, none, not, some, string_eq, suc, true, zero, ℕ, ◌%◌,
  ◌&&◌, ◌+◌, ◌-◌, ◌==◌, ◌^◌, ◌||◌, ◌∷◌,
}
use floatlab_core.Net.{
  Addr, Netip, Prefix, addr_eq, is_global_unicast, masked, prefix_contains, prefix_eq,
}
use floatlab_core.HostNetwork.{Bond, IPv4, NetworkConfig, Outcome, Service}

pub record Mac : Type 0 where
  pub bytes : List ℕ
  pub text : String

pub record Parsers : Type 0 where
  pub netip : Netip
  pub parse_mac : String → Option Mac
  pub parse_ip4 : String → Option ℕ

-- A check gives its value or the text of its error.
pub data Checked (A : Type 0) : Type 0 where
  valid : A → Checked A
  invalid : String → Checked A

infixl 5 ◌>>=◌ ◌>>◌
abbrev pub ◌>>=◌ : {A B : Type 0} → Checked A → (A → Checked B) → Checked B
◌>>=◌ (valid a) k = k a
◌>>=◌ (invalid e) k = invalid e

abbrev pub ◌>>◌ : {A B : Type 0} → Checked A → Checked B → Checked B
m >> k = m >>= λ _. k

-- `if !test { return error }`
unfoldable pub require : Bool → String → Checked Unit
require true e = valid tt
require false e = invalid e

unfoldable pub contains : List String → String → Bool
contains [] want = false
contains (v ∷ values) want = v == want || contains values want

-- `isBroadcast`: the bits of the host are all set.
unfoldable pub is_broadcast : Addr → ℕ → Bool
is_broadcast a bits = a.value % 2 ^ (32 - bits) == 2 ^ (32 - bits) - 1

-- `net.IPMask.Size` of a mask of 32 bits: its leading ones, where no other bit is set.
unfoldable pub mask_size : ℕ → ℕ → Option ℕ
mask_size zero mask = if mask == 0 then some 0 else none
mask_size (suc n) mask =
    let rest = mask_size n mask in
    if mask == 4294967296 - 2 ^ (32 - suc n) then some (suc n) else rest

module _ (parsers : Parsers) where
  -- `MAC`
  unfoldable pub mac : String → Checked String
  mac value = elim (parsers.parse_mac value) [
    | none ↦ invalid (concat "invalid unicast Ethernet MAC " value)
    | some m ↦ elim m.bytes [
      | [] ↦ invalid (concat "invalid unicast Ethernet MAC " value)
      | b ∷ _ ↦
          if not (length m.bytes == 6) || not (b % 2 == 0) || m.text == "00:00:00:00:00:00"
          then invalid (concat "invalid unicast Ethernet MAC " value)
          else valid m.text
    ]
  ]

  -- `IPv4.Prefix`
  unfoldable pub prefix_of : IPv4 → Checked Prefix
  unfolding mask_size masked is_global_unicast
  prefix_of v = elim (parsers.netip.parse_addr v.address) [
    | none ↦ invalid "invalid static IPv4 address"
    | some ip ↦
        if not ip.is4 || not (is_global_unicast ip)
        then invalid "invalid static IPv4 address"
        else elim (parsers.parse_ip4 v.netmask) [
          | none ↦ invalid "invalid IPv4 netmask"
          | some mask ↦ elim (mask_size 32 mask) [
            | none ↦ invalid "netmask must be contiguous /1 through /30"
            | some ones ↦
                if ones == 0 || ltb 30 ones
                then invalid "netmask must be contiguous /1 through /30"
                else (let prefix : Prefix = record { addr = ip; bits = ones } in
                    let base = (masked prefix).addr.value in
                    if ip.value == base || ip.value == base + (2 ^ (32 - ones) - 1)
                    then invalid "static address cannot be network or broadcast"
                    else valid prefix)
          ]
        ]
  ]

  -- A loop of `Validate` over hardware addresses: the ones already used, and the normalised ones.
  unfoldable pub normalise_macs :
      String → List String → List String → Checked (List String × List String)
  unfolding mac contains require
  normalise_macs duplicate used [] = valid (used, [])
  normalise_macs duplicate used (value ∷ values) = do
    m ← mac value
    require (not (contains used m)) duplicate
    rest ← normalise_macs duplicate (m ∷ used) values
    valid (rest.0, m ∷ rest.1)

  abbrev pub bond_error : String
  bond_error = "bond requires a unique interface name, 802.3ad mode and at least two members"

  abbrev pub bridge : String
  bridge = "floatlab-lan"

  -- `bondName`
  unfoldable pub is_bond_name : String → Bool
  is_bond_name s = is_name is_letter (λ c. is_alnum c || (c == b'_' || c == b'-')) 14 (codes s)

  -- The guard of a bond.
  unfoldable pub is_bond : List String → Bond → Bool
  unfolding is_bond_name contains
  is_bond names b =
      is_bond_name b.name
      && not (b.name == bridge)
      && not (contains names b.name)
      && b.mode == "802.3ad"
      && leb 2 (length b.members)

  unfoldable pub normalise_bonds : List String → List String → List Bond → Checked (List Bond)
  unfolding is_bond normalise_macs require
  normalise_bonds used names [] = valid []
  normalise_bonds used names (b ∷ bonds) = do
    require (is_bond names b) bond_error
    members ← normalise_macs "bond members must be unique and cannot be excluded" used b.members
    rest ← normalise_bonds members.0 (b.name ∷ names) bonds
    valid (record b { members = members.1 } ∷ rest)

  -- The gateway of a static configuration.
  unfoldable pub is_gateway : Prefix → Addr → Bool
  unfolding is_global_unicast prefix_contains masked is_broadcast
  is_gateway prefix gw =
      gw.is4
      && is_global_unicast gw
      && prefix_contains prefix gw
      && not (addr_eq gw prefix.addr)
      && not (addr_eq gw (masked prefix).addr)
      && not (is_broadcast gw prefix.bits)

  -- The switch on the mode.
  unfoldable pub validate_ipv4 : IPv4 → Checked Unit
  unfolding require prefix_of is_gateway
  validate_ipv4 v =
      if v.mode == "dhcp"
      then require (v.address == "" && v.netmask == "" && v.gateway == "")
          "DHCP cannot specify static addressing"
      else if v.mode == "static"
      then (do
        prefix ← prefix_of v
        require
            (elim (parsers.netip.parse_addr v.gateway) [
              | none ↦ false
              | some gw ↦ is_gateway prefix gw
            ])
            "gateway must be a different usable address in the static subnet")
      else invalid "ipv4.mode must be dhcp or static"

  unfoldable pub is_dns_server : String → Bool
  unfolding is_global_unicast
  is_dns_server value = elim (parsers.netip.parse_addr value) [
    | none ↦ false
    | some ip ↦ is_global_unicast ip
  ]

  -- `Config.Validate`, which normalises the hardware addresses in place.
  unfoldable pub validate : NetworkConfig → Checked NetworkConfig
  unfolding require normalise_macs normalise_bonds validate_ipv4 is_dns_server
  validate c = do
    require (c.version == 1) "unsupported network configuration version"
    excluded ← normalise_macs "duplicate adapter MAC" [] c.excluded_macs
    bonds ← normalise_bonds excluded.0 [] c.bonds
    validate_ipv4 c.ipv4
    require (all is_dns_server c.dns_servers) "invalid DNS server"
    require (all (λ x. not (x == 10) && not (x == 13) && not (x == 0)) (codes c.default_pool_id))
        "invalid default pool ID"
    valid (record c { excluded_macs = excluded.1; bonds = bonds })

  -- `parseService`
  unfoldable pub parse_service : Service → Option Prefix
  unfolding is_global_unicast masked is_broadcast
  parse_service s = elim (parsers.netip.parse_prefix s.address) [
    | none ↦ none
    | some p ↦
        if p.addr.is4
          && is_global_unicast p.addr
          && leb 1 p.bits
          && leb p.bits 30
          && not (addr_eq p.addr (masked p).addr)
          && not (is_broadcast p.addr p.bits)
          && not (s.stack_id == "")
          && not (s.pool_id == "")
        then some p
        else none
  ]

  -- `Compatible`
  unfoldable pub is_compatible : String → List String → Bool
  unfolding masked prefix_eq
  is_compatible cidr addresses = elim (parsers.netip.parse_prefix cidr) [
    | none ↦ false
    | some p ↦
        any
          (λ value. elim (parsers.netip.parse_prefix value) [
            | none ↦ false
            | some host ↦ host.addr.is4 && prefix_eq (masked host) (masked p)
          ])
          addresses
  ]

  -- Whether a static configuration leaves a service its address; the zero prefix leaves none.
  unfoldable pub is_left_by : Option Prefix → String → Prefix → Bool
  unfolding masked prefix_eq
  is_left_by none gateway p = false
  is_left_by (some prefix) gateway p =
      prefix_eq (masked prefix) (masked p)
      && not (addr_eq prefix.addr p.addr)
      && not (gateway == parsers.netip.show_addr p.addr)

  unfoldable pub check_services : Option Prefix → String → Map String Service → Outcome
  unfolding parse_service is_left_by
  check_services prefix gateway [] = none
  check_services prefix gateway ((_, s) ∷ services) =
      let rest = check_services prefix gateway services in
      elim (parse_service s) [
        | none ↦ some "invalid service address or ownership"
        | some p ↦
            if is_left_by prefix gateway p
            then rest
            else some "configuration would invalidate active service addresses"
      ]

  -- `validateServices`, which reads the zero prefix where the configuration has none.
  unfoldable pub validate_services : NetworkConfig → Map String Service → Outcome
  unfolding prefix_of check_services
  validate_services c services =
      if not (c.ipv4.mode == "static")
      then none
      else check_services
          (elim (prefix_of c.ipv4) [ valid prefix ↦ some prefix | invalid _ ↦ none ]) c.ipv4.gateway
          services

-- `primaryAddresses`
unfoldable pub primary_addresses : List String → Map String Service → List String
primary_addresses [] services = []
primary_addresses (value ∷ addresses) services =
    let rest = primary_addresses addresses services in
    if any (λ e. e.1.address == value) services then rest else value ∷ rest
