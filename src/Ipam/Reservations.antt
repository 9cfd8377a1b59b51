-- ===== src/Ipam/Reservations.antt =====
-- `Allocate`, `Release`, `ReleaseAll` and `ListAllocations` of internal/ipam/allocator.go.
use floatlab_core.Base.{
  Bool, List, String, [], any, false, if◌then◌else◌, inl, inr, length, nat_eq, none, not, some,
  string_eq, suc, zero, ℕ, ◌&&◌, ◌==◌, ◌||◌, ◌∷◌, ◌⊎◌,
}
use floatlab_core.Base.Steps.{pure, ◌>>=◌}
use floatlab_core.Net.{Addr, Netip, Prefix, addr_eq, masked, prefix_contains}
use floatlab_core.Ipam.{
  Env, M, Outcome, Reservation, Search, applied, exhausted, failed, found, out_of_fuel, refused,
  unconfirmed,
}

-- The addresses that are reserved of a prefix, as far as they parse.
unfoldable pub reserved_of : Netip → String → List Reservation → List Addr
reserved_of netip pool [] = []
reserved_of netip pool (r ∷ reservations) =
    let rest = reserved_of netip pool reservations in
    if r.prefix_pool == pool
    then elim (netip.parse_prefix r.address) [ none ↦ rest | some p ↦ p.addr ∷ rest ]
    else rest

unfoldable pub is_reserved : List Addr → Addr → Bool
is_reserved [] a = false
is_reserved (b ∷ taken) a = addr_eq b a || is_reserved taken a

-- The walk of `Allocate` from an address on, for some rounds. The number after the last of all
-- addresses stands for the address that is none, and the prefix holds neither.
unfoldable pub walk_from : ℕ → Prefix → List Addr → ℕ → Search ℕ
unfolding prefix_contains is_reserved
walk_from zero p taken v = out_of_fuel
walk_from (suc n) p taken v =
    let a : Addr = record { is4 = p.addr.is4; value = v } in
    let rest = walk_from n p taken (suc v) in
    if not (prefix_contains p a) then exhausted else if is_reserved taken a then rest else found v

-- The walk from the address after the network's; one round more than there are addresses taken is
-- enough.
unfoldable pub first_free : Prefix → List Addr → Search ℕ
unfolding walk_from masked
first_free p taken = walk_from (suc (length taken)) (masked p) taken (suc (masked p).addr.value)

unfoldable pub release_service : String → String → List Reservation → List Reservation
release_service stack_id service [] = []
release_service stack_id service (r ∷ reservations) =
    let rest = release_service stack_id service reservations in
    if r.stack_id == stack_id && r.service == service then rest else r ∷ rest

unfoldable pub release_stack : String → List Reservation → List Reservation
release_stack stack_id [] = []
release_stack stack_id (r ∷ reservations) =
    let rest = release_stack stack_id reservations in
    if r.stack_id == stack_id then rest else r ∷ rest

unfoldable pub reservations_of : String → List Reservation → List Reservation
reservations_of stack_id [] = []
reservations_of stack_id (r ∷ reservations) =
    let rest = reservations_of stack_id reservations in
    if r.stack_id == stack_id then r ∷ rest else rest

module _ (netip : Netip) (env : Env) where
  -- The transaction that inserts a reservation, whose address the table has once.
  unfoldable pub execute_reserve : Reservation → M Outcome
  execute_reserve row w =
      let w' = record w { effects = suc w.effects } in
      let rows : List Reservation =
        if any (λ r. r.address == row.address) w.reservations
        then w.reservations
        else row ∷ w.reservations in
      elim (env.execute w.effects) [
        | refused e ↦ (some e, w')
        | unconfirmed e ↦ (some e, record w' { reservations = rows })
        | applied ↦ (
          if any (λ r. r.address == row.address) w.reservations then some "constraint" else none,
          record w' { reservations = rows },
        )
      ]

  -- `Allocate` once it knows what is taken.
  unfoldable pub reserve : Prefix → String → String → String → List Addr → M (Search String)
  unfolding first_free masked execute_reserve
  reserve p pool stack_id service taken = elim (first_free p taken) [
    | found v ↦
        let cidr : String =
          netip.show_prefix
            (record { addr = record { is4 = (masked p).addr.is4; value = v }; bits = p.bits }) in
        do
          e ← execute_reserve (record {
            stack_id = stack_id;
            service = service;
            address = cidr;
            prefix_pool = pool;
          })
          pure (elim e [ some x ↦ failed x | none ↦ found cidr ])
    | exhausted ↦ pure exhausted
    | out_of_fuel ↦ pure out_of_fuel
    | failed e ↦ pure (failed e)
  ]

  -- `Allocate`
  unfoldable pub allocate : String → String → String → M (Search String)
  unfolding reserved_of reserve
  allocate pool stack_id service = elim (netip.parse_prefix pool) [
    | none ↦ pure (failed "ipam: parse prefix")
    | some p ↦ λ w.
        let w' = record w { effects = suc w.effects } in
        elim (env.query w.effects) [
          | some e ↦ (failed e, w')
          | none ↦ reserve p pool stack_id service (reserved_of netip pool w.reservations) w'
        ]
  ]

  unfoldable pub execute_release : (List Reservation → List Reservation) → M Outcome
  execute_release f w =
      let w' = record w { effects = suc w.effects } in
      elim (env.execute w.effects) [
        | refused e ↦ (some e, w')
        | unconfirmed e ↦ (some e, record w' { reservations = f w.reservations })
        | applied ↦ (none, record w' { reservations = f w.reservations })
      ]

  -- `Release`
  unfoldable pub release : String → String → M Outcome
  unfolding execute_release release_service
  release stack_id service = execute_release (release_service stack_id service)

  -- `ReleaseAll`
  unfoldable pub release_all : String → M Outcome
  unfolding execute_release release_stack
  release_all stack_id = execute_release (release_stack stack_id)

  -- `ListAllocations`, in the order of the table.
  unfoldable pub list_allocations : String → M (List Reservation ⊎ String)
  unfolding reservations_of
  list_allocations stack_id w = (
    elim (env.query w.effects) [
      | some e ↦ inr e
      | none ↦ inl (reservations_of stack_id w.reservations)
    ],
    record w { effects = suc w.effects },
  )
