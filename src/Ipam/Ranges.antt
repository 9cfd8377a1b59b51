-- ===== src/Ipam/Ranges.antt =====
-- The tests of a pool and of its range in internal/ipam/pools.go and hosts.go.
use floatlab_core.Base.{
  Bool, List, Option, String, [], all, concat, false, if◌then◌else◌, inl, inr, nat_eq, none, not,
  some, string_eq, true, ◌&&◌, ◌*◌, ◌+◌, ◌-◌, ◌/◌, ◌==◌, ◌^◌, ◌||◌, ◌∷◌, ◌⊎◌,
}
use floatlab_core.Net.{Addr, Netip, Prefix, addr_eq, is_at_most, masked, prefix_contains, prefix_eq}
use floatlab_core.Ipam.{AddressPool, Outcome}

-- An address that may not have parsed: the zero address comes before every other.
unfoldable pub is_within : Option Addr → Option Addr → Bool
unfolding is_at_most
is_within none b = true
is_within (some a) none = false
is_within (some a) (some b) = is_at_most a b

-- `lastAddress` of a prefix of 32 bits.
unfoldable pub last_address : Prefix → Addr
last_address p = record {
  is4 = true;
  value = p.addr.value / 2 ^ (32 - p.bits) * 2 ^ (32 - p.bits) + (2 ^ (32 - p.bits) - 1);
}

-- `containsNode`
unfoldable pub contains_node : List String → String → Bool
contains_node [] node = false
contains_node (v ∷ nodes) node = v == node || contains_node nodes node

unfoldable pub check_members : List String → List String → Outcome
unfolding contains_node
check_members seen [] = none
check_members seen (node ∷ nodes) =
    let rest = check_members (node ∷ seen) nodes in
    if node == "" || contains_node seen node
    then some "ipam: member nodes must be nonempty and unique"
    else rest

-- `ValidateMembers`
unfoldable pub validate_members : List String → Outcome
unfolding check_members
validate_members [] = some "ipam: at least one member node is required"
validate_members (node ∷ nodes) = check_members [] (node ∷ nodes)

-- `Member`
unfoldable pub is_member : AddressPool → String → Bool
unfolding contains_node
is_member pool node = pool.membership_resolved && contains_node pool.node_ids node

module _ (netip : Netip) where
  -- The range of a pool in its prefix.
  unfoldable pub check_range : AddressPool → Prefix → Outcome
  unfolding prefix_contains is_at_most last_address
  check_range pool p = elim (netip.parse_addr pool.start_ip) [
    | none ↦ some "ipam: invalid pool range"
    | some start ↦ elim (netip.parse_addr pool.end_ip) [
      | none ↦ some "ipam: invalid pool range"
      | some stop ↦
          if pool.name == ""
            || not start.is4
            || not stop.is4
            || not (prefix_contains p start)
            || not (prefix_contains p stop)
            || not (is_at_most start stop)
          then some "ipam: invalid pool range"
          else if addr_eq start p.addr || addr_eq stop (last_address p)
          then some "ipam: range cannot contain network or broadcast address"
          else none
    ]
  ]

  -- `ValidatePool`
  unfoldable pub validate_pool : AddressPool → Outcome
  unfolding prefix_eq masked check_range
  validate_pool pool = elim (netip.parse_prefix pool.cidr) [
    | none ↦ some "ipam: cidr must be a canonical IPv4 prefix"
    | some p ↦
        if not p.addr.is4 || not (prefix_eq p (masked p))
        then some "ipam: cidr must be a canonical IPv4 prefix"
        else check_range pool p
  ]

  unfoldable pub is_outside : Addr → Addr → List String → Bool
  unfolding is_at_most
  is_outside start stop [] = true
  is_outside start stop (value ∷ addresses) =
      let rest = is_outside start stop addresses in
      elim (netip.parse_prefix value) [
        | none ↦ false
        | some p ↦
            if p.addr.is4 && is_at_most start p.addr && is_at_most p.addr stop then false else rest
      ]

  -- `outsideRange`
  unfoldable pub outside_range : List String → AddressPool → Bool
  unfolding is_outside
  outside_range addresses pool = elim (netip.parse_addr pool.start_ip) [
    | none ↦ false
    | some start ↦ elim (netip.parse_addr pool.end_ip) [
      | none ↦ false
      | some stop ↦ is_outside start stop addresses
    ]
  ]

  -- `ValidateHostRange`
  unfoldable pub validate_host_range : AddressPool → List String → List String → Outcome
  unfolding outside_range
  validate_host_range pool addresses gateways =
      if not (outside_range addresses pool)
      then some "ipam: pool range includes a host LAN address"
      else if not (all (λ g. outside_range (concat g "/32" ∷ []) pool) gateways)
      then some "ipam: pool range includes a gateway"
      else none

-- `SelectPool`
unfoldable pub select_pool : List AddressPool → String → String → String → AddressPool ⊎ String
unfolding is_member
select_pool [] name default_id node = inr "ipam: no eligible named or host-default network pool"
select_pool (pool ∷ pools) name default_id node =
    let rest = select_pool pools name default_id node in
    if not (name == "") && pool.name == name
      || name == "" && not (default_id == "") && pool.id == default_id
    then (if is_member pool node
        then inl pool
        else inr (concat "ipam: selected pool is not eligible for node " node))
    else rest
