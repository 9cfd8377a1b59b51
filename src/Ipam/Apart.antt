-- ===== src/Ipam/Apart.antt =====
-- The ranges of pools that have a node in common, as `savePool` and `DeletePool` of
-- internal/ipam/pools.go change them.
use floatlab_core.Base.{
  ==_ne, Bool, Bool-cases, List, Memᴰ, String, [], any, ap, arith, false, if◌then◌else◌, inl, inr,
  nat_eq, none, not, refl, some, string_eq, subst, sym, true, ◌&&◌, ◌==◌, ◌||◌, ◌∙◌, ◌∷◌, ◌≡◌, ◌≢◌,
  ◌⊎◌,
}
use floatlab_core.Net.{Netip}
use floatlab_core.Ipam.{AddressPool, Outcome}
use floatlab_core.Ipam.Ranges.{contains_node, is_within}
use floatlab_core.Ipam.Pools.{check_overlaps, is_overlapping, is_shared, remove_pool, upsert}

module _ (netip : Netip) where
  -- Two pools that have a node in common have ranges that do not meet.
  unfoldable pub IsApart : AddressPool → AddressPool → Type 0
  IsApart p q =
      (node : String)
      → contains_node p.node_ids node ≡ true
      → contains_node q.node_ids node ≡ true
      → is_overlapping netip p q ≡ false

  -- The pools have ids, and those with different ids are apart.
  pub record IsOrderly (pools : List AddressPool) : Type 0 where
    pub named : (p : AddressPool) → Memᴰ p pools → p.id ≢ ""
    pub apart : (p q : AddressPool) → Memᴰ p pools → Memᴰ q pools → p.id ≢ q.id → IsApart p q

  IsApart-sym : (p q : AddressPool) → IsApart p q → IsApart q p
  unfolding IsApart is_overlapping
  IsApart-sym p q h node b a =
      swap (is_within (netip.parse_addr p.start_ip) (netip.parse_addr q.end_ip))
        (is_within (netip.parse_addr q.start_ip) (netip.parse_addr p.end_ip)) (h node a b)
    where
      swap : (a b : Bool) → (a && b) ≡ false → (b && a) ≡ false
      swap a b h = ground arith

or-true : (a : Bool) {b : Bool} → b ≡ true → (a || b) ≡ true
or-true true h = refl
or-true false h = h

any-true :
    (f : String → Bool) (nodes : List String) (node : String)
    → contains_node nodes node ≡ true
    → f node ≡ true
    → any f nodes ≡ true
unfolding contains_node
any-true f [] node h k = cc h
any-true f (v ∷ nodes) node h k = elim (Bool-cases (v == node)) [
  | inl t ↦ rw (ap f ((string_eq.beq_iff v node).0 t), k) refl
  | inr n ↦ or-true (f v) (any-true f nodes node (rw n at h) k)
]

-- The pools that an update leaves.
upsert-cases :
    (pool p : AddressPool) (pools : List AddressPool)
    → Memᴰ p (upsert pool pools)
    → (p ≡ pool) ⊎ Memᴰ p pools
unfolding upsert
upsert-cases pool p [] (Memᴰ.head e) = inl e
upsert-cases pool p [] (Memᴰ.tail m) = inr m
upsert-cases pool p (old ∷ pools) h = elim (Bool-cases (old.id == pool.id)) [
  | inl t ↦ first (rw t at h)
  | inr f ↦ later (upsert-cases pool p pools) (rw f at h)
]
  where
    first : Memᴰ p (pool ∷ pools) → (p ≡ pool) ⊎ Memᴰ p (old ∷ pools)
    first (Memᴰ.head e) = inl e
    first (Memᴰ.tail m) = inr (Memᴰ.tail m)

    later :
        (Memᴰ p (upsert pool pools) → (p ≡ pool) ⊎ Memᴰ p pools)
        → Memᴰ p (old ∷ upsert pool pools)
        → (p ≡ pool) ⊎ Memᴰ p (old ∷ pools)
    later ih (Memᴰ.head e) = inr (Memᴰ.head e)
    later ih (Memᴰ.tail m) = elim (ih m) [ inl e ↦ inl e | inr n ↦ inr (Memᴰ.tail n) ]

remove_pool-mem :
    (id : String) (p : AddressPool) (pools : List AddressPool)
    → Memᴰ p (remove_pool id pools)
    → Memᴰ p pools
unfolding remove_pool
remove_pool-mem id p [] h = h
remove_pool-mem id p (old ∷ pools) h = elim (Bool-cases (old.id == id)) [
  | inl t ↦ Memᴰ.tail (remove_pool-mem id p pools (rw t at h))
  | inr f ↦ later (remove_pool-mem id p pools) (rw f at h)
]
  where
    later :
        (Memᴰ p (remove_pool id pools) → Memᴰ p pools)
        → Memᴰ p (old ∷ remove_pool id pools)
        → Memᴰ p (old ∷ pools)
    later ih (Memᴰ.head e) = Memᴰ.head e
    later ih (Memᴰ.tail m) = Memᴰ.tail (ih m)

passes :
    (b c : Bool) (e : String) (k : Outcome)
    → (if b then k else if c then some e else k) ≡ none
    → (k ≡ none) × (b ≡ false → c ≡ false)
passes true c e k h = (h, λ f. cc f)
passes false true e k h = cc h
passes false false e k h = (h, λ _. refl)

module _ (netip : Netip) where
  shared-IsApart :
      (pool q : AddressPool)
      → (is_shared pool q && is_overlapping netip pool q) ≡ false
      → IsApart netip pool q
  unfolding is_shared IsApart
  shared-IsApart pool q h node a b =
      shared (not q.membership_resolved) (any (λ n. contains_node q.node_ids n) pool.node_ids)
        (is_overlapping netip pool q) h
        (any-true (λ n. contains_node q.node_ids n) pool.node_ids node a b)
    where
      shared : (a b c : Bool) → ((a || b) && c) ≡ false → b ≡ true → c ≡ false
      shared a b c h k = ground arith

  -- A pool that passed the test is apart from every other.
  pub check_overlaps-IsApart :
      (pool : AddressPool) (pools : List AddressPool)
      → check_overlaps netip pool pools ≡ none
      → (q : AddressPool) → Memᴰ q pools
      → pool.id ≢ q.id
      → IsApart netip pool q
  unfolding check_overlaps
  check_overlaps-IsApart pool [] h q m n = elim m [ ]
  check_overlaps-IsApart pool (old ∷ pools) h q (Memᴰ.head e) n =
      let (_, c) =
        passes (old.id == pool.id) (is_shared pool old && is_overlapping netip pool old) _ _ h in
      subst (λ x. IsApart netip pool x) (sym e)
        (shared-IsApart pool old
          (c (==_ne old.id pool.id (λ k. n (sym k ∙ ap (λ x. x.id) (sym e))))))
  check_overlaps-IsApart pool (old ∷ pools) h q (Memᴰ.tail m) n =
      check_overlaps-IsApart pool pools
        (passes (old.id == pool.id) (is_shared pool old && is_overlapping netip pool old) _ _ h).0 q
        m n

  -- A pool that is apart from the others is stored.
  pub upsert-IsOrderly :
      (pool : AddressPool) (pools : List AddressPool)
      → IsOrderly netip pools
      → pool.id ≢ ""
      → ((q : AddressPool) → Memᴰ q pools → pool.id ≢ q.id → IsApart netip pool q)
      → IsOrderly netip (upsert pool pools)
  upsert-IsOrderly pool pools o n h = record {
    named = λ p m. elim (upsert-cases pool p pools m) [
      | inl e ↦ λ z. n (ap (λ x. x.id) (sym e) ∙ z)
      | inr k ↦ o.named p k
    ];
    apart = λ p q m k d. elim (upsert-cases pool p pools m) [
      | inl e ↦ elim (upsert-cases pool q pools k) [
        | inl f ↦ absurd (d (ap (λ x. x.id) (e ∙ sym f)))
        | inr v ↦ subst (λ x. IsApart netip x q) (sym e) (h q v (λ z. d (ap (λ x. x.id) e ∙ z)))
      ]
      | inr u ↦ elim (upsert-cases pool q pools k) [
        | inl f ↦
            subst (λ x. IsApart netip p x) (sym f)
              (IsApart-sym netip pool p (h p u (λ z. d (sym z ∙ ap (λ x. x.id) (sym f)))))
        | inr v ↦ o.apart p q u v d
      ]
    ];
  }

  pub remove_pool-IsOrderly :
      (id : String) (pools : List AddressPool)
      → IsOrderly netip pools
      → IsOrderly netip (remove_pool id pools)
  remove_pool-IsOrderly id pools o = record {
    named = λ p m. o.named p (remove_pool-mem id p pools m);
    apart =
        λ p q m k d. o.apart p q (remove_pool-mem id p pools m) (remove_pool-mem id q pools k) d;
  }
