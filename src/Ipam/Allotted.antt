-- ===== src/Ipam/Allotted.antt =====
-- What `AllocateIPv4` of internal/ipam/pools.go gives away.
use floatlab_core.Base.{
  Bool-cases, List, Option, String, arith, false, inl, inr, leb, length, nat_eq, none, not, refl,
  some, string_eq, subst, suc, sym, zero, ℕ, ◌+◌, ◌-◌, ◌<◌, ◌==◌, ◌||◌, ◌∷◌, ◌≡◌, ◌≤◌,
}
use floatlab_core.Base.Steps.{on_option, on_test, pure}
use floatlab_core.Net.{Addr, Netip, Prefix, block}
use floatlab_core.Ipam.{
  AddressPool, Allocation, Delivery, Env, M, Outcome, Search, World, applied, exhausted, failed,
  found, out_of_fuel, refused, unconfirmed,
}
use floatlab_core.Ipam.Ranges.{validate_pool}
use floatlab_core.Ipam.Allocations.{
  allocate_ipv4, bounds_of, execute_insert, insert_row, is_refused, is_taken, row_of, taken_by,
  try_all, try_from,
}
use floatlab_core.Ipam.Usable.{IsInside, validate_pool-IsInside}

module _ (netip : Netip) (env : Env) where
  -- What the loop over the addresses up to one comes to: it ends, and an address that it gives is in
  -- the range and was free, and the table has a row for it that no other contradicts.
  unfoldable pub IsGiven : AddressPool → String → List Addr → ℕ → ℕ → Search String × World → Type 0
  IsGiven pool stack_id taken start stop (found t, w) =
      (a : ℕ) × (start ≤ a)
      × (a ≤ stop)
      × (is_taken taken a ≡ false)
      × (t ≡ (row_of netip env pool stack_id a).address)
      × ((rows : List Allocation) × (w.allocations ≡ row_of netip env pool stack_id a ∷ rows)
          × (is_refused (row_of netip env pool stack_id a) rows ≡ false))
  IsGiven pool stack_id taken start stop (exhausted, w) = Unit
  IsGiven pool stack_id taken start stop (out_of_fuel, w) = ⊥
  IsGiven pool stack_id taken start stop (failed e, w) = Unit

  earlier :
      (pool : AddressPool) (stack_id : String) (taken : List Addr) (start stop : ℕ)
      (r : Search String × World)
      → IsGiven pool stack_id taken (suc start) stop r
      → IsGiven pool stack_id taken start stop r
  unfolding IsGiven
  earlier pool stack_id taken start stop (found t, w) (a, l, m, h, e, r) =
      (a, omega arith, m, h, e, r)
  earlier pool stack_id taken start stop (exhausted, w) h = h
  earlier pool stack_id taken start stop (out_of_fuel, w) h = h
  earlier pool stack_id taken start stop (failed e, w) h = h

  abbrev inserted : Allocation → World → Delivery → Outcome × World
  inserted row w (refused e) = (some e, record w { effects = suc w.effects })
  inserted row w (unconfirmed e) = elim (insert_row row w.allocations) [
    | none ↦ (some e, record w { effects = suc w.effects })
    | some rows ↦ (some e, record w { effects = suc w.effects; allocations = rows })
  ]
  inserted row w applied = elim (insert_row row w.allocations) [
    | none ↦ (some "constraint", record w { effects = suc w.effects })
    | some rows ↦ (none, record w { effects = suc w.effects; allocations = rows })
  ]

  inserted-none :
      (row : Allocation) (w : World) (d : Delivery)
      → (inserted row w d).0 ≡ none
      → ((inserted row w d).1.allocations ≡ row ∷ w.allocations)
        × (is_refused row w.allocations ≡ false)
  unfolding insert_row
  inserted-none row w (refused e) h = cc h
  inserted-none row w (unconfirmed e) h = elim (Bool-cases (is_refused row w.allocations)) [
    | inl t ↦ no (rw (inserted, t) at h)
    | inr f ↦ no (rw (inserted, f) at h)
  ]
    where
      no : {A : Type 0} → some e ≡ none → A
      no h = cc h
  inserted-none row w applied h = elim (Bool-cases (is_refused row w.allocations)) [
    | inl t ↦ no (rw (inserted, t) at h)
    | inr f ↦ rw (inserted, f) (refl, refl)
  ]
    where
      no : {A : Type 0} {x : String} → some x ≡ none → A
      no h = cc h

  execute_insert-none :
      (row : Allocation) (w : World)
      → (execute_insert netip env row w).0 ≡ none
      → ((execute_insert netip env row w).1.allocations ≡ row ∷ w.allocations)
        × (is_refused row w.allocations ≡ false)
  unfolding execute_insert
  execute_insert-none row w h = inserted-none row w (env.execute w.effects) h

  try_from-IsGiven :
      (n : ℕ) (pool : AddressPool) (stack_id : String) (taken : List Addr) (start stop : ℕ)
      (w : World)
      → stop < start + n
      → IsGiven pool stack_id taken start stop
          (try_from netip env (suc n) pool stack_id taken stop start w)
  unfolding try_from IsGiven
  try_from-IsGiven zero pool stack_id taken start stop w m = rw over tt
    where
      over : leb start stop ≡ false
      over = ground arith
  try_from-IsGiven (suc n) pool stack_id taken start stop w m =
      on_test G (not (leb start stop)) _ _ w (λ _. tt)
        (λ l.
          on_test G (is_taken taken start) _ _ w
            (λ _.
              earlier pool stack_id taken start stop _
                (try_from-IsGiven n pool stack_id taken (suc start) stop w (omega arith)))
            (λ f.
              let row : Allocation = row_of netip env pool stack_id start in
              let v : World = (execute_insert netip env row w).1 in
              on_option G (execute_insert netip env row w).0 _ _ v
                (λ _ _.
                  earlier pool stack_id taken start stop _
                    (try_from-IsGiven n pool stack_id taken (suc start) stop v (omega arith)))
                (λ e.
                  let (rows, r) = execute_insert-none row w e in
                  (start, omega arith, below l, f, refl, (w.allocations, rows, r)))))
    where
      G : Search String × World → Type 0
      G = IsGiven pool stack_id taken start stop

      below : not (leb start stop) ≡ false → start ≤ stop
      below l = ground arith

  -- What `AllocateIPv4` comes to: it ends, and an address that it gives lies strictly between the first
  -- and the last of the pool's prefix, was not taken, and has a row that no other contradicts.
  unfoldable pub IsAllotted : AddressPool → String → List Addr → Search String × World → Type 0
  IsAllotted pool stack_id taken (found t, w) =
      (p : Prefix) × (netip.parse_prefix pool.cidr ≡ some p)
      × ((a : ℕ) × (p.addr.value < a)
          × (a + 1 < p.addr.value + block p)
          × (is_taken taken a ≡ false)
          × (t ≡ (row_of netip env pool stack_id a).address)
          × ((rows : List Allocation) × (w.allocations ≡ row_of netip env pool stack_id a ∷ rows)
              × (is_refused (row_of netip env pool stack_id a) rows ≡ false)))
  IsAllotted pool stack_id taken (exhausted, w) = Unit
  IsAllotted pool stack_id taken (out_of_fuel, w) = ⊥
  IsAllotted pool stack_id taken (failed e, w) = Unit

  inside-IsAllotted :
      (pool : AddressPool) (stack_id : String) (taken : List Addr) (p : Prefix) (start stop : ℕ)
      (r : Search String × World)
      → netip.parse_prefix pool.cidr ≡ some p
      → IsInside p start stop
      → IsGiven pool stack_id taken start stop r
      → IsAllotted pool stack_id taken r
  unfolding IsGiven IsAllotted IsInside
  inside-IsAllotted pool stack_id taken p start stop (found t, w) e i (a, l, m, f, q, r) =
      (p, e, (a, omega (arith, i.0, l), omega (arith, i.1, m), f, q, r))
  inside-IsAllotted pool stack_id taken p start stop (exhausted, w) e i h = h
  inside-IsAllotted pool stack_id taken p start stop (out_of_fuel, w) e i h = h
  inside-IsAllotted pool stack_id taken p start stop (failed x, w) e i h = h

  try_all-some :
      (A : Search String × World → Type 0) (pool : AddressPool) (stack_id : String)
      (taken : List Addr) (start stop : ℕ) (w : World)
      → bounds_of netip pool ≡ some (start, stop)
      → A (try_from netip env (suc (suc (stop - start))) pool stack_id taken stop start w)
      → A (try_all netip env pool stack_id taken w)
  unfolding try_all
  try_all-some A pool stack_id taken start stop w b h =
      subst
        (λ o. A (
          (elim o as (λ x. M (Search String)) [
            | none ↦ pure exhausted
            | some b ↦ try_from netip env (suc (suc (b.1 - b.0))) pool stack_id taken b.1 b.0
          ])
            w))
        (sym b) h

  -- An allocation ends whatever fails, and an address that it gives lies strictly between the first
  -- and the last of the pool's prefix, had no row of the pool when it was read, and has now one, with
  -- no other row of the stack or of the address in the pool.
  pub allocate_ipv4-IsAllotted :
      (pool : AddressPool) (stack_id : String) (w : World)
      → IsAllotted pool stack_id
          (taken_by netip pool.id w.allocations)
          (allocate_ipv4 netip env pool stack_id w)
  unfolding allocate_ipv4 IsAllotted
  allocate_ipv4-IsAllotted pool stack_id w =
      on_test A (not pool.membership_resolved || length pool.node_ids == 0) _ _ w (λ _. tt)
        (λ _.
          on_option A (validate_pool netip pool) _ _ w (λ _ _. tt)
            (λ v. read (env.query w.effects) (validate_pool-IsInside netip pool v)))
    where
      taken : List Addr
      taken = taken_by netip pool.id w.allocations

      A : Search String × World → Type 0
      A = IsAllotted pool stack_id taken

      read :
          (o : Option String)
          → (p : Prefix) × (netip.parse_prefix pool.cidr ≡ some p)
            × ((start : ℕ) × (stop : ℕ) × (bounds_of netip pool ≡ some (start, stop))
                × IsInside p start stop)
          → A (elim o as (λ x. Search String × World) [
            | some e ↦ (failed e, record w { effects = suc w.effects })
            | none ↦ try_all netip env pool stack_id taken (record w { effects = suc w.effects })
          ])
      read (some e) h = tt
      read none (p, e, (start, stop, b, i)) =
          try_all-some A pool stack_id taken start stop (record w { effects = suc w.effects }) b
            (inside-IsAllotted pool stack_id taken p start stop _ e i (
              try_from-IsGiven (suc (stop - start)) pool stack_id taken start stop
                (record w { effects = suc w.effects }) (omega arith)))
