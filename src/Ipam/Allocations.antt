-- ===== src/Ipam/Allocations.antt =====
-- `AllocateIPv4`, `ActivateIPv4` and `ReleaseIPv4` of internal/ipam/pools.go, with the constraints of
-- the table `network_allocations` in pkg/rqlite/migrations.go.
use floatlab_core.Base.{
  Bool, List, Option, String, [], any, false, if◌then◌else◌, leb, length, nat_eq, none, not, some,
  string_eq, suc, true, zero, ℕ, ◌&&◌, ◌-◌, ◌==◌, ◌||◌, ◌∷◌,
}
use floatlab_core.Base.Steps.{pure, ◌>>=◌}
use floatlab_core.Net.{Addr, Netip}
use floatlab_core.Ipam.{
  AddressPool, Allocation, Env, M, Outcome, Search, applied, exhausted, failed, found, out_of_fuel,
  refused, unconfirmed,
}
use floatlab_core.Ipam.Ranges.{validate_pool}

-- The rows of a pool that parse.
unfoldable pub taken_by : Netip → String → List Allocation → List Addr
taken_by netip pool_id [] = []
taken_by netip pool_id (a ∷ allocations) =
    let rest = taken_by netip pool_id allocations in
    if a.pool_id == pool_id
    then elim (netip.parse_addr a.address) [ none ↦ rest | some x ↦ x ∷ rest ]
    else rest

-- `taken[address]` of an address of 32 bits.
unfoldable pub is_taken : List Addr → ℕ → Bool
is_taken [] v = false
is_taken (a ∷ taken) v = a.is4 && a.value == v || is_taken taken v

-- A row that a constraint of the table forbids: each stack has one address, and each address of a
-- pool one stack.
unfoldable pub is_refused : Allocation → List Allocation → Bool
is_refused row allocations =
    any (λ a. a.stack_id == row.stack_id || a.pool_id == row.pool_id && a.address == row.address)
      allocations

unfoldable pub insert_row : Allocation → List Allocation → Option (List Allocation)
unfolding is_refused
insert_row row allocations = if is_refused row allocations then none else some (row ∷ allocations)

unfoldable pub activate : String → List Allocation → List Allocation
activate stack_id [] = []
activate stack_id (a ∷ allocations) =
    (if a.stack_id == stack_id then record a { is_active = true } else a)
    ∷ activate stack_id allocations

unfoldable pub release : String → List Allocation → List Allocation
release stack_id [] = []
release stack_id (a ∷ allocations) =
    let rest = release stack_id allocations in if a.stack_id == stack_id then rest else a ∷ rest

module _ (netip : Netip) where
  -- The first and the last address of a pool that is valid.
  unfoldable pub bounds_of : AddressPool → Option (ℕ × ℕ)
  bounds_of pool = elim (netip.parse_addr pool.start_ip) [
    | none ↦ none
    | some start ↦ elim (netip.parse_addr pool.end_ip) [
      | none ↦ none
      | some stop ↦ some (start.value, stop.value)
    ]
  ]

module _ (netip : Netip) (env : Env) where
  -- The transaction that inserts a row.
  unfoldable pub execute_insert : Allocation → M Outcome
  unfolding insert_row
  execute_insert row w =
      let w' = record w { effects = suc w.effects } in
      elim (env.execute w.effects) [
        | refused e ↦ (some e, w')
        | unconfirmed e ↦ elim (insert_row row w.allocations) [
          | none ↦ (some e, w')
          | some rows ↦ (some e, record w' { allocations = rows })
        ]
        | applied ↦ elim (insert_row row w.allocations) [
          | none ↦ (some "constraint", w')
          | some rows ↦ (none, record w' { allocations = rows })
        ]
      ]

  abbrev pub row_of : AddressPool → String → ℕ → Allocation
  row_of pool stack_id a = record {
    pool_id = pool.id;
    stack_id = stack_id;
    address = netip.show_addr (record { is4 = true; value = a });
    is_active = false;
  }

  -- The loop of `AllocateIPv4` from an address on, for some rounds.
  unfoldable pub try_from : ℕ → AddressPool → String → List Addr → ℕ → ℕ → M (Search String)
  unfolding is_taken execute_insert
  try_from zero pool stack_id taken stop a = pure out_of_fuel
  try_from (suc n) pool stack_id taken stop a =
      if not (leb a stop)
      then pure exhausted
      else if is_taken taken a
      then try_from n pool stack_id taken stop (suc a)
      else (do
        e ← execute_insert (row_of pool stack_id a)
        elim e [
          | none ↦ pure (found (row_of pool stack_id a).address)
          | some _ ↦ try_from n pool stack_id taken stop (suc a)
        ])

  -- The loop of `AllocateIPv4`: a round for each address, and one to see that there are no more.
  unfoldable pub try_all : AddressPool → String → List Addr → M (Search String)
  unfolding bounds_of try_from
  try_all pool stack_id taken = elim (bounds_of netip pool) [
    | none ↦ pure exhausted
    | some b ↦ try_from (suc (suc (b.1 - b.0))) pool stack_id taken b.1 b.0
  ]

  -- `AllocateIPv4`
  unfoldable pub allocate_ipv4 : AddressPool → String → M (Search String)
  unfolding validate_pool taken_by try_all
  allocate_ipv4 pool stack_id =
      if not pool.membership_resolved || length pool.node_ids == 0
      then pure (failed "ipam: pool membership requires administrator correction")
      else elim (validate_pool netip pool) [
        | some e ↦ pure (failed e)
        | none ↦ λ w.
            let w' = record w { effects = suc w.effects } in
            elim (env.query w.effects) [
              | some e ↦ (failed e, w')
              | none ↦ try_all pool stack_id (taken_by netip pool.id w.allocations) w'
            ]
      ]

  -- A transaction that no constraint forbids.
  unfoldable pub execute_update : (List Allocation → List Allocation) → M Outcome
  execute_update f w =
      let w' = record w { effects = suc w.effects } in
      elim (env.execute w.effects) [
        | refused e ↦ (some e, w')
        | unconfirmed e ↦ (some e, record w' { allocations = f w.allocations })
        | applied ↦ (none, record w' { allocations = f w.allocations })
      ]

  -- `ActivateIPv4`
  unfoldable pub activate_ipv4 : String → M Outcome
  unfolding execute_update activate
  activate_ipv4 stack_id = execute_update (activate stack_id)

  -- `ReleaseIPv4`
  unfoldable pub release_ipv4 : String → M Outcome
  unfolding execute_update release
  release_ipv4 stack_id = execute_update (release stack_id)
