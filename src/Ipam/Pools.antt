-- ===== src/Ipam/Pools.antt =====
-- `savePool` and `DeletePool` of internal/ipam/pools.go. `ListPools` gives the pools that the tables
-- hold, with their nodes and scope.
use floatlab_core.Base.{
  Bool, List, Option, String, [], any, concat, false, if◌then◌else◌, inl, inr, insert, leb, length,
  lookup, nat_eq, none, not, some, string_eq, suc, true, ℕ, ◌&&◌, ◌==◌, ◌||◌, ◌∷◌, ◌⊎◌,
}
use floatlab_core.Base.Steps.{pure, ◌>>=◌}
use floatlab_core.Net.{Addr, Netip, prefix_contains}
use floatlab_core.Ipam.{
  AddressPool, Allocation, Env, M, NodeRange, Outcome, World, applied, refused, unconfirmed,
}
use floatlab_core.Ipam.Ranges.{contains_node, is_within, validate_members, validate_pool}

-- Whether two pools may use one address: a node is in both, or the nodes of one are not known.
unfoldable pub is_shared : AddressPool → AddressPool → Bool
unfolding contains_node
is_shared pool existing =
    not existing.membership_resolved
    || any (λ node. contains_node existing.node_ids node) pool.node_ids

-- `INSERT ... ON CONFLICT(id) DO UPDATE`, with the nodes and the scope of the pool.
unfoldable pub upsert : AddressPool → List AddressPool → List AddressPool
upsert pool [] = pool ∷ []
upsert pool (old ∷ pools) =
    let rest = upsert pool pools in if old.id == pool.id then pool ∷ pools else old ∷ rest

unfoldable pub remove_pool : String → List AddressPool → List AddressPool
remove_pool id [] = []
remove_pool id (old ∷ pools) =
    let rest = remove_pool id pools in if old.id == id then rest else old ∷ rest

-- The range of a node never shrinks.
unfoldable pub widen : NodeRange → Option NodeRange → NodeRange
widen new none = new
widen new (some old) = record {
  first = if leb old.first new.first then old.first else new.first;
  last = if leb new.last old.last then old.last else new.last;
  owner = new.owner;
}

module _ (netip : Netip) where
  -- Whether the ranges of two pools meet.
  unfoldable pub is_overlapping : AddressPool → AddressPool → Bool
  unfolding is_within
  is_overlapping pool existing =
      is_within (netip.parse_addr pool.start_ip) (netip.parse_addr existing.end_ip)
      && is_within (netip.parse_addr existing.start_ip) (netip.parse_addr pool.end_ip)

  unfoldable pub check_overlaps : AddressPool → List AddressPool → Outcome
  unfolding is_shared is_overlapping
  check_overlaps pool [] = none
  check_overlaps pool (existing ∷ pools) =
      let rest = check_overlaps pool pools in
      if existing.id == pool.id
      then rest
      else if is_shared pool existing && is_overlapping pool existing
      then some (concat "ipam: pool overlaps " existing.name)
      else rest

  -- The hosts of the stacks that have an address of the pool.
  unfoldable pub check_hosts : AddressPool → List String → Outcome
  unfolding contains_node
  check_hosts pool [] = none
  check_hosts pool (node ∷ nodes) =
      let rest = check_hosts pool nodes in
      if contains_node pool.node_ids node
      then rest
      else some (concat "ipam: pool update would remove active allocation host " node)

  -- The addresses that the pool has given away.
  unfoldable pub check_allocations : AddressPool → List Allocation → Outcome
  unfolding prefix_contains is_within
  check_allocations pool [] = none
  check_allocations pool (a ∷ allocations) =
      let rest = check_allocations pool allocations in
      if not (a.pool_id == pool.id) then rest else elim (netip.parse_addr a.address) [
        | none ↦ some (concat "ipam: pool update would exclude active allocation " a.address)
        | some x ↦
            if not (elim (netip.parse_prefix pool.cidr) [
              | none ↦ false
              | some p ↦ prefix_contains p x
            ])
              || not (is_within (netip.parse_addr pool.start_ip) (some x))
              || not (is_within (some x) (netip.parse_addr pool.end_ip))
            then some (concat "ipam: pool update would exclude active allocation " a.address)
            else rest
      ]

  unfoldable pub value_of : Option Addr → ℕ
  value_of none = 0
  value_of (some a) = a.value

  -- What the transaction of `savePool` writes.
  unfoldable pub with_pool : AddressPool → String → World → World
  unfolding upsert widen value_of
  with_pool pool node w =
      let range : NodeRange = record {
        first = value_of (netip.parse_addr pool.start_ip);
        last = value_of (netip.parse_addr pool.end_ip);
        owner = node;
      } in
      record w {
        pools = upsert pool w.pools;
        ranges =
            if node == ""
            then w.ranges
            else insert pool.id (widen range (lookup pool.id w.ranges)) w.ranges;
      }

unfoldable pub is_used : String → List Allocation → Bool
is_used id allocations = any (λ a. a.pool_id == id) allocations

module _ (env : Env) where
  unfoldable pub ask : {A : Type 0} → (ℕ → A) → M A
  ask f w = (f w.effects, record w { effects = suc w.effects })

  -- A query: its error, or what it reads of the tables.
  unfoldable pub query : {A : Type 0} → (World → A) → M (A ⊎ String)
  query f w = (
    elim (env.query w.effects) [ some e ↦ inr e | none ↦ inl (f w) ],
    record w { effects = suc w.effects },
  )

  unfoldable pub execute : (World → World) → M Outcome
  execute f w =
      let w' = record w { effects = suc w.effects } in
      elim (env.execute w.effects) [
        | refused e ↦ (some e, w')
        | unconfirmed e ↦ (some e, f w')
        | applied ↦ (none, f w')
      ]

  -- Its statements.
  unfoldable pub delete_unused : String → World → World
  unfolding is_used remove_pool
  delete_unused id w =
      if is_used id w.allocations then w else record w { pools = remove_pool id w.pools }

  -- `DeletePool`: its statements test again that no address is given away.
  unfoldable pub delete_pool : String → M Outcome
  unfolding query is_used execute delete_unused
  delete_pool id = do
    rows ← query (λ w. w.allocations)
    elim rows [
      | inr e ↦ pure (some e)
      | inl allocations ↦
          if is_used id allocations
          then pure (some "ipam: network pool has active allocations")
          else execute (λ w.
            if is_used id w.allocations then w else record w { pools = remove_pool id w.pools })
    ]

module _ (netip : Netip) (env : Env) where
  -- The tests of an update of a pool that exists.
  unfoldable pub check_update : AddressPool → M Outcome
  unfolding query ask check_hosts check_allocations
  check_update pool = if pool.id == "" then pure none else (do
    unread ← query env (λ w. tt)
    elim unread [
      | inr e ↦ pure (some e)
      | inl _ ↦ do
        nodes ← ask env env.hosts
        elim (check_hosts netip pool nodes) [
          | some e ↦ pure (some e)
          | none ↦ do
            rows ← query env (λ w. w.allocations)
            pure (elim rows [
              | inr e ↦ some e
              | inl allocations ↦ check_allocations netip pool allocations
            ])
        ]
    ])

  -- The end of `savePool`: a new pool gets its id.
  unfoldable pub store_pool : AddressPool → String → M Outcome
  unfolding ask execute with_pool
  store_pool pool node =
      if pool.id == ""
      then (do id ← ask env env.uuid; execute env (with_pool netip (record pool { id = id }) node))
      else execute env (with_pool netip pool node)

  -- `savePool` once its pool is valid.
  unfoldable pub save_valid : AddressPool → String → M Outcome
  unfolding query check_overlaps check_update store_pool
  save_valid pool node = do
    pools ← query env (λ w. w.pools)
    elim pools [
      | inr e ↦ pure (some e)
      | inl existing ↦ elim (check_overlaps netip pool existing) [
        | some e ↦ pure (some e)
        | none ↦ do
          e ← check_update pool
          elim e [ some x ↦ pure (some x) | none ↦ store_pool pool node ]
      ]
    ]

  -- `savePool`
  unfoldable pub save_pool : AddressPool → String → M Outcome
  unfolding validate_members validate_pool save_valid
  save_pool wanted node = elim (validate_members wanted.node_ids) [
    | some e ↦ pure (some e)
    | none ↦
        let pool : AddressPool = record wanted { membership_resolved = true; is_default = false } in
        elim (validate_pool netip pool) [ some e ↦ pure (some e) | none ↦ save_valid pool node ]
  ]

  -- Whether a pool is of one node.
  unfoldable pub is_owner : String → List String → Bool
  is_owner node [] = false
  is_owner node (n ∷ nodes) = n == node && length nodes == 0

  -- `SaveNodePool`
  unfoldable pub save_node_pool : AddressPool → String → M Outcome
  unfolding save_pool is_owner
  save_node_pool pool node =
      if node == "" || not (is_owner node pool.node_ids)
      then pure (some "ipam: node range requires one matching owner")
      else save_pool pool node
