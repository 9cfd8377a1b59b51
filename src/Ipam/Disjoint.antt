-- ===== src/Ipam/Disjoint.antt =====
-- The pools that operations of internal/ipam/pools.go lead to, in any order.
use floatlab_core.Base.{
  Bool, Memᴰ, Option, String, [], arith, false, if◌then◌else◌, inl, inr, nat_eq, none, not, refl,
  some, string_eq, subst, suc, sym, true, ℕ, ◌==◌, ◌||◌, ◌∙◌, ◌≡◌, ◌≢◌, ◌⊎◌,
}
use floatlab_core.Base.Steps.{on_option, on_test, pure, ◌>>=◌}
use floatlab_core.Net.{Netip}
use floatlab_core.Ipam.{
  AddressPool, Delivery, Env, M, Outcome, World, applied, refused, unconfirmed,
}
use floatlab_core.Ipam.Pools.{
  ask, check_hosts, check_overlaps, check_update, delete_pool, delete_unused, execute,
  is_overlapping, is_owner, is_used, query, remove_pool, save_node_pool, save_pool, save_valid,
  store_pool, with_pool,
}
use floatlab_core.Ipam.Ranges.{validate_members, validate_pool}
use floatlab_core.Ipam.Apart.{
  IsApart, IsOrderly, check_overlaps-IsApart, remove_pool-IsOrderly, upsert-IsOrderly,
}

module _ (netip : Netip) (env : Env) where
  unfoldable pub Keeps : Outcome × World → Type 0
  Keeps r = IsOrderly netip r.1.pools

  on_query :
      {A : Type 0} (P : Outcome × World → Type 0) (f : World → A) (g : A → M Outcome) (w : World)
      → ((e : String) → P (some e, record w { effects = suc w.effects }))
      → P (g (f w) (record w { effects = suc w.effects }))
      → P ((query env f >>= λ r. elim r [ inr e ↦ pure (some e) | inl a ↦ g a ]) w)
  unfolding query
  on_query {A = A} P f g w h k = read (env.query w.effects)
    where
      read :
          (o : Option String)
          → P (
              (elim (elim o as (λ x. A ⊎ String) [ some e ↦ inr e | none ↦ inl (f w) ])
                  as (λ x. M Outcome) [ inr e ↦ pure (some e) | inl a ↦ g a ])
                (record w { effects = suc w.effects }))
      read (some e) = h e
      read none = k

  on_execute :
      (P : Outcome × World → Type 0) (f : World → World) (w : World)
      → ((e : Outcome) → P (e, record w { effects = suc w.effects }))
      → ((e : Outcome) → P (e, f (record w { effects = suc w.effects })))
      → P (execute env f w)
  unfolding execute
  on_execute P f w h k = done (env.execute w.effects)
    where
      done :
          (d : Delivery)
          → P (elim d as (λ x. Outcome × World) [
            | refused e ↦ (some e, record w { effects = suc w.effects })
            | unconfirmed e ↦ (some e, f (record w { effects = suc w.effects }))
            | applied ↦ (none, f (record w { effects = suc w.effects }))
          ])
      done (refused e) = h (some e)
      done (unconfirmed e) = k (some e)
      done applied = k none

  check_update-pools :
      (pool : AddressPool) (w : World) → (check_update netip env pool w).1.pools ≡ w.pools
  unfolding check_update query ask
  check_update-pools pool w =
      on_test (λ r. r.1.pools ≡ w.pools) (pool.id == "") _ _ w (λ _. refl)
        (λ _.
          on_query (λ r. r.1.pools ≡ w.pools) (λ w. tt) _ w (λ _. refl)
            (on_option (λ r. r.1.pools ≡ w.pools)
              (check_hosts netip pool (env.hosts (suc w.effects))) _ _
              (record w { effects = suc (suc w.effects) }) (λ _ _. refl) (λ _. refl)))

  store_pool-Keeps :
      (pool : AddressPool) (node : String) (w : World)
      → ((n : ℕ) → env.uuid n ≢ "")
      → IsOrderly netip w.pools
      → ((q : AddressPool) → Memᴰ q w.pools → pool.id ≢ q.id → IsApart netip pool q)
      → Keeps (store_pool netip env pool node w)
  unfolding store_pool Keeps with_pool ask IsApart is_overlapping
  store_pool-Keeps pool node w u o h =
      on_test Keeps (pool.id == "") _ _ w
        (λ t.
          let new : AddressPool = record pool { id = env.uuid w.effects } in
          on_execute Keeps (with_pool netip new node) (record w { effects = suc w.effects })
            (λ _. o)
            (λ _.
              upsert-IsOrderly netip new w.pools o (u w.effects)
                (λ q m _. h q m (λ z. o.named q m (sym z ∙ (string_eq.beq_iff pool.id "").0 t)))))
        (λ f.
          on_execute Keeps (with_pool netip pool node) w (λ _. o)
            (λ _. upsert-IsOrderly netip pool w.pools o (λ z. differs f z) h))
    where
      differs : (pool.id == "") ≡ false → pool.id ≢ ""
      differs f z = ground (arith, (string_eq.beq_iff pool.id "").1 z)

  save_valid-Keeps :
      (pool : AddressPool) (node : String) (w : World)
      → ((n : ℕ) → env.uuid n ≢ "")
      → IsOrderly netip w.pools
      → Keeps (save_valid netip env pool node w)
  unfolding save_valid Keeps
  save_valid-Keeps pool node w u o =
      let v : World = record w { effects = suc w.effects } in
      on_query Keeps (λ w. w.pools) _ w (λ _. o)
        (on_option Keeps (check_overlaps netip pool w.pools) _ _ v (λ _ _. o)
          (λ c.
            let x : World = (check_update netip env pool v).1 in
            let e : x.pools ≡ w.pools = check_update-pools pool v in
            let o' : IsOrderly netip x.pools = subst (λ l. IsOrderly netip l) (sym e) o in
            on_option Keeps (check_update netip env pool v).0 _ _ x (λ _ _. o')
              (λ _. store_pool-Keeps pool node x u o' (λ q m n.
                check_overlaps-IsApart netip pool w.pools c q (subst (λ l. Memᴰ q l) e m) n))))

  save_pool-Keeps :
      (pool : AddressPool) (node : String) (w : World)
      → ((n : ℕ) → env.uuid n ≢ "")
      → IsOrderly netip w.pools
      → Keeps (save_pool netip env pool node w)
  unfolding save_pool Keeps
  save_pool-Keeps pool node w u o =
      on_option Keeps (validate_members pool.node_ids) _ _ w (λ _ _. o)
        (λ _.
          let p : AddressPool = record pool { membership_resolved = true; is_default = false } in
          on_option Keeps (validate_pool netip p) _ _ w (λ _ _. o)
            (λ _. save_valid-Keeps p node w u o))

  save_node_pool-Keeps :
      (pool : AddressPool) (node : String) (w : World)
      → ((n : ℕ) → env.uuid n ≢ "")
      → IsOrderly netip w.pools
      → Keeps (save_node_pool netip env pool node w)
  unfolding save_node_pool Keeps
  save_node_pool-Keeps pool node w u o =
      on_test Keeps (node == "" || not (is_owner netip env node pool.node_ids)) _ _ w (λ _. o)
        (λ _. save_pool-Keeps pool node w u o)

  delete_pool-Keeps :
      (id : String) (w : World) → IsOrderly netip w.pools → Keeps (delete_pool env id w)
  unfolding delete_pool Keeps delete_unused
  delete_pool-Keeps id w o =
      let v : World = record w { effects = suc w.effects } in
      on_query Keeps (λ w. w.allocations) _ w (λ _. o)
        (on_test Keeps (is_used id w.allocations) _ _ v (λ _. o)
          (λ _.
            on_execute Keeps (delete_unused env id) v (λ _. o)
              (λ _. removed (is_used id w.allocations))))
    where
      removed :
          (b : Bool)
          → IsOrderly netip
              (if b then record w { effects = suc (suc w.effects) } else record w {
                effects = suc (suc w.effects);
                pools = remove_pool id w.pools;
              }).pools
      removed true = o
      removed false = remove_pool-IsOrderly netip id w.pools o

-- What changes the pools.
pub data Operation : Type 0 where
  saves : AddressPool → Operation
  saves_node : AddressPool → String → Operation
  deletes : String → Operation

module _ (netip : Netip) where
  unfoldable pub performed : Env → Operation → World → World
  unfolding save_pool save_node_pool delete_pool
  performed env (saves pool) w = (save_pool netip env pool "" w).1
  performed env (saves_node pool node) w = (save_node_pool netip env pool node w).1
  performed env (deletes id) w = (delete_pool env id w).1

  -- The worlds that operations lead to from one without pools; the other tables may change.
  pub data IsReached : World → Type 0 where
    empty : {w : World} → w.pools ≡ [] → IsReached w
    other : {w v : World} → v.pools ≡ w.pools → IsReached w → IsReached v
    did :
        {w : World} (env : Env) (o : Operation)
        → ((n : ℕ) → env.uuid n ≢ "")
        → IsReached w
        → IsReached (performed env o w)

  performed-IsOrderly :
      (env : Env) (o : Operation) (w : World)
      → ((n : ℕ) → env.uuid n ≢ "")
      → IsOrderly netip w.pools
      → IsOrderly netip (performed env o w).pools
  unfolding performed Keeps
  performed-IsOrderly env (saves pool) w u o = save_pool-Keeps netip env pool "" w u o
  performed-IsOrderly env (saves_node pool node) w u o =
      save_node_pool-Keeps netip env pool node w u o
  performed-IsOrderly env (deletes id) w u o = delete_pool-Keeps netip env id w o

  -- Whatever pools are saved and deleted one after the other, and whichever of the transactions and
  -- queries fail, two pools that have a node in common have ranges that do not meet.
  pub IsReached-IsOrderly : {w : World} → IsReached w → IsOrderly netip w.pools
  IsReached-IsOrderly (empty {w} e) =
      subst (λ l. IsOrderly netip l) (sym e)
        (record { named = λ p m. elim m [ ]; apart = λ p q m k n. elim m [ ] })
  IsReached-IsOrderly (other e r) = subst (λ l. IsOrderly netip l) (sym e) (IsReached-IsOrderly r)
  IsReached-IsOrderly (did {w} env o u r) = performed-IsOrderly env o w u (IsReached-IsOrderly r)
