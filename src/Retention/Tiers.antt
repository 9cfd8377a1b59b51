-- ===== src/Retention/Tiers.antt =====
-- What a tier of `RetainedSnapshots` of pkg/store/policy.go keeps.
use floatlab_core.Base.{
  &&-eq-true, Bool, Bool-cases, List, Memᴰ, Option, String, [], ap, arith, false, if◌then◌else◌,
  inl, inr, nat_eq, none, not, refl, some, string_eq, subst, sym, true, ℕ, ◌&&◌, ◌++◌, ◌==◌, ◌||◌,
  ◌∙◌, ◌∷◌, ◌≡◌, ◌≢◌, ◌≤◌, ◌⊎◌,
}
use floatlab_core.Alerts.{negsuc, pos, ℤ}
use floatlab_core.Retention.{
  Calendar, SnapshotInfo, Tier, TimeUnit, int_eq, interval_bucket, interval_parts, retention_cutoff,
}
use floatlab_core.Retention.Sorted.{
  IsSorted, Point, mem-sort_points, points_of, sort_points, sort_points-IsSorted, sort_points-mem,
}
use floatlab_core.Retention.Keys.{
  future_keys, is_in_window, is_seen, key_of, keys_of, latest_points, retained_snapshots, tier_keys,
  tiers_keys,
}
use floatlab_core.Retention.Kept.{mem-left, mem-right, retained-parts}

module _ (calendar : Calendar) where
  int_eq-eq : (a b : ℤ) → int_eq calendar a b ≡ true → a ≡ b
  int_eq-eq (pos a) (pos b) h = ap pos ((nat_eq.beq_iff a b).0 h)
  int_eq-eq (negsuc a) (negsuc b) h = ap negsuc ((nat_eq.beq_iff a b).0 h)
  int_eq-eq (pos a) (negsuc b) h = cc h
  int_eq-eq (negsuc a) (pos b) h = cc h

  -- One of the points, of the dataset and the bucket of another and created no later, that is kept.
  pub record IsFirst (count : ℕ) (u : TimeUnit) (points : List Point) (keys : List String)
      (p q : Point) : Type 0 where
    pub among : Memᴰ q points
    pub dataset : q.snapshot.dataset ≡ p.snapshot.dataset
    pub bucket :
        interval_bucket calendar q.created count u ≡ interval_bucket calendar p.created count u
    pub earlier : q.created ≤ p.created
    pub kept : Memᴰ (key_of q) keys

  later-IsFirst :
      (count : ℕ) (u : TimeUnit) (points : List Point) (keys more : List String) (r p q : Point)
      → ((x : String) → Memᴰ x keys → Memᴰ x more)
      → IsFirst count u points keys p q
      → IsFirst count u (r ∷ points) more p q
  later-IsFirst count u points keys more r p q w f = record {
    among = Memᴰ.tail f.among;
    dataset = f.dataset;
    bucket = f.bucket;
    earlier = f.earlier;
    kept = w (key_of q) f.kept;
  }

  seen-cases :
      (d e : String) (a b : ℤ) (seen : List (String × ℤ))
      → is_seen calendar e b ((d, a) ∷ seen) ≡ true
      → ((d ≡ e) × (a ≡ b)) ⊎ (is_seen calendar e b seen ≡ true)
  unfolding is_seen
  seen-cases d e a b seen h = elim (Bool-cases (d == e && int_eq calendar a b)) [
    | inl t ↦ inl (
      (string_eq.beq_iff d e).0 (&&-eq-true (d == e) (int_eq calendar a b) t).0,
      int_eq-eq a b (&&-eq-true (d == e) (int_eq calendar a b) t).1,
    )
    | inr f ↦ inr (rw f at h)
  ]

  abbrev is_passed : Option ℕ → ℕ → ℕ → TimeUnit → List (String × ℤ) → Point → Bool
  is_passed cutoff now count u seen r =
      not (is_in_window cutoff now r)
      || is_seen calendar r.snapshot.dataset (interval_bucket calendar r.created count u) seen

  abbrev with_bucket : ℕ → TimeUnit → Point → List (String × ℤ) → List (String × ℤ)
  with_bucket count u r seen =
      (r.snapshot.dataset, interval_bucket calendar r.created count u) ∷ seen

  tier_keys-step :
      (cutoff : Option ℕ) (now count : ℕ) (u : TimeUnit) (seen : List (String × ℤ)) (r : Point)
      (points : List Point) (b : Bool)
      → is_passed cutoff now count u seen r ≡ b
      → tier_keys calendar cutoff now count u seen (r ∷ points) ≡ (
          if b
          then tier_keys calendar cutoff now count u seen points
          else key_of r ∷ tier_keys calendar cutoff now count u (with_bucket count u r seen) points)
  unfolding tier_keys
  tier_keys-step cutoff now count u seen r points b h =
      ap
        (λ c.
          if c
          then tier_keys calendar cutoff now count u seen points
          else key_of r ∷ tier_keys calendar cutoff now count u (with_bucket count u r seen) points)
        h

  -- A point in the window whose bucket is new is kept itself.
  own-IsFirst :
      (cutoff : Option ℕ) (now count : ℕ) (u : TimeUnit) (seen : List (String × ℤ)) (r p : Point)
      (points : List Point)
      → is_passed cutoff now count u seen r ≡ false
      → r.snapshot.dataset ≡ p.snapshot.dataset
      → interval_bucket calendar r.created count u ≡ interval_bucket calendar p.created count u
      → r.created ≤ p.created
      → IsFirst count u (r ∷ points) (tier_keys calendar cutoff now count u seen (r ∷ points)) p r
  own-IsFirst cutoff now count u seen r p points h d b e = record {
    among = Memᴰ.head refl;
    dataset = d;
    bucket = b;
    earlier = e;
    kept =
        subst (λ l. Memᴰ (key_of r) l)
          (sym (tier_keys-step cutoff now count u seen r points false h)) (Memᴰ.head refl);
  }

  not_passed : (w s : Bool) → w ≡ true → s ≡ false → (not w || s) ≡ false
  not_passed w s h k = ground arith

  abbrev IsKept : Option ℕ → ℕ → ℕ → TimeUnit → List Point → List (String × ℤ) → Point → Type 0
  IsKept cutoff now count u points seen p =
      (is_seen calendar p.snapshot.dataset (interval_bucket calendar p.created count u) seen ≡ true)
      ⊎ ((q : Point) × IsFirst count u points (tier_keys calendar cutoff now count u seen points) p
            q)

  head-IsKept :
      (cutoff : Option ℕ) (now count : ℕ) (u : TimeUnit) (points : List Point)
      (seen : List (String × ℤ)) (p r : Point)
      → is_in_window cutoff now p ≡ true
      → p ≡ r
      → IsKept cutoff now count u (r ∷ points) seen p
  head-IsKept cutoff now count u points seen p r w e =
      subst (λ x. IsKept cutoff now count u (r ∷ points) seen x) (sym e)
        (elim (Bool-cases
          (is_seen calendar r.snapshot.dataset (interval_bucket calendar r.created count u) seen)) [
            | inl t ↦ inl t
            | inr f ↦ inr (
              r,
              own-IsFirst cutoff now count u seen r r points
                  (not_passed (is_in_window cutoff now r) _
                    (subst (λ x. is_in_window cutoff now x ≡ true) e w) f)
                  refl refl (omega arith),
            )
          ])

  tier-covers :
      (cutoff : Option ℕ) (now count : ℕ) (u : TimeUnit) (points : List Point)
      (seen : List (String × ℤ)) (p : Point)
      → IsSorted points
      → is_in_window cutoff now p ≡ true
      → Memᴰ p points
      → IsKept cutoff now count u points seen p
  unfolding IsSorted
  tier-covers cutoff now count u [] seen p s w m = elim m [ ]
  tier-covers cutoff now count u (r ∷ points) seen p (l, s) w (Memᴰ.head e) =
      head-IsKept cutoff now count u points seen p r w e
  tier-covers cutoff now count u (r ∷ points) seen p (l, s) w (Memᴰ.tail m) =
      elim (Bool-cases (is_passed cutoff now count u seen r)) [
        | inl t ↦ elim (tier-covers cutoff now count u points seen p s w m) [
          | inl k ↦ inl k
          | inr (q, f) ↦ inr (
            q,
            later-IsFirst count u points _ _ r p q
                (λ x n.
                  subst (λ l. Memᴰ x l)
                    (sym (tier_keys-step cutoff now count u seen r points true t)) n)
                f,
          )
        ]
        | inr t ↦
            elim (tier-covers cutoff now count u points (with_bucket count u r seen) p s w m) [
              | inl k ↦
                  elim (seen-cases r.snapshot.dataset p.snapshot.dataset
                    (interval_bucket calendar r.created count u)
                    (interval_bucket calendar p.created count u) seen k) [
                      | inl (d, b) ↦
                          inr (r, own-IsFirst cutoff now count u seen r p points t d b (l p m))
                      | inr k' ↦ inl k'
                    ]
              | inr (q, f) ↦ inr (
                q,
                later-IsFirst count u points _ _ r p q
                    (λ x n.
                      subst (λ l. Memᴰ x l)
                        (sym (tier_keys-step cutoff now count u seen r points false t))
                        (Memᴰ.tail n))
                    f,
              )
            ]
      ]

  tier_parts :
      (f : Option ℕ → ℕ × TimeUnit → List String) (o : Option ℕ ⊎ String)
      (i : Option (ℕ × TimeUnit)) (rest : List String ⊎ String) (keys : List String)
      → elim o as (λ x. List String ⊎ String) [
        | inr e ↦ inr e
        | inl cutoff ↦ elim i as (λ x. List String ⊎ String) [
          | none ↦ rest
          | some p ↦ elim rest as (λ x. List String ⊎ String) [
            | inl keys ↦ inl (f cutoff p ++ keys)
            | inr e ↦ inr e
          ]
        ]
      ]
        ≡ inl keys
      → ((l : List String) × (rest ≡ inl l) × ((x : String) → Memᴰ x l → Memᴰ x keys))
        × ((cutoff : Option ℕ) (p : ℕ × TimeUnit)
            → o ≡ inl cutoff
            → i ≡ some p
            → (x : String) → Memᴰ x (f cutoff p)
            → Memᴰ x keys)
  tier_parts f (inr e) i rest keys h = cc h
  tier_parts f (inl c) none rest keys h = ((keys, h, λ x m. m), λ cutoff p q r. cc r)
  tier_parts f (inl c) (some p) (inr e) keys h = cc h
  tier_parts f (inl c) (some p) (inl l) keys h = (
    (l, refl, λ x m. subst (λ k. Memᴰ x k) (inl-inj h) (mem-right (f c p) l m)),
    λ cutoff q r t x m.
        subst (λ k. Memᴰ x k) (inl-inj h) (mem-left (f c p) l (subst (λ k. Memᴰ x k) (same r t) m)),
  )
    where
      inl-inj : {a b : List String} → ◌≡◌ {A = List String ⊎ String} (inl a) (inl b) → a ≡ b
      inl-inj h = cc h

      same :
          {d : Option ℕ} {q : ℕ × TimeUnit}
          → ◌≡◌ {A = Option ℕ ⊎ String} (inl c) (inl d)
          → some p ≡ some q
          → f d q ≡ f c p
      same r t = cc (r, t)

  -- The keys of a tier are among those of all.
  tiers_keys-mem :
      (now : ℕ) (points : List Point) (tiers : List Tier) (tier : Tier) (cutoff : Option ℕ)
      (count : ℕ) (u : TimeUnit) (keys : List String) (x : String)
      → tiers_keys calendar now points tiers ≡ inl keys
      → Memᴰ tier tiers
      → retention_cutoff calendar now tier ≡ inl cutoff
      → interval_parts tier.interval ≡ some (count, u)
      → Memᴰ x (tier_keys calendar cutoff now count u [] points)
      → Memᴰ x keys
  unfolding tiers_keys
  tiers_keys-mem now points [] tier cutoff count u keys x h m c i k = elim m [ ]
  tiers_keys-mem now points (t ∷ tiers) tier cutoff count u keys x h (Memᴰ.head e) c i k =
      (tier_parts (λ cutoff p. tier_keys calendar cutoff now p.0 p.1 [] points)
          (retention_cutoff calendar now t) (interval_parts t.interval)
          (tiers_keys calendar now points tiers) keys h).1
        cutoff (count, u) (ap (retention_cutoff calendar now) (sym e) ∙ c)
        (ap (λ y. interval_parts y.interval) (sym e) ∙ i) x k
  tiers_keys-mem now points (t ∷ tiers) tier cutoff count u keys x h (Memᴰ.tail m) c i k =
      let (l, r, w) =
        (tier_parts (λ cutoff p. tier_keys calendar cutoff now p.0 p.1 [] points)
          (retention_cutoff calendar now t) (interval_parts t.interval)
          (tiers_keys calendar now points tiers) keys h).0 in
      w x (tiers_keys-mem now points tiers tier cutoff count u l x r m c i k)

  nothing_seen : (d : String) (b : ℤ) → is_seen calendar d b [] ≢ true
  unfolding is_seen
  nothing_seen d b h = cc h

  -- For each tier, every automated snapshot in its window has one of its dataset and of its bucket
  -- among the kept that was created no later.
  pub retained_snapshots-IsFirst :
      (parse : String → Option ℕ) (snaps : List SnapshotInfo) (tiers : List Tier) (now : ℕ)
      (points : List Point) (keys : List String)
      → points_of parse snaps ≡ inl points
      → retained_snapshots calendar parse snaps tiers now ≡ inl keys
      → (tier : Tier) (cutoff : Option ℕ) (count : ℕ) (u : TimeUnit) → Memᴰ tier tiers
      → retention_cutoff calendar now tier ≡ inl cutoff
      → interval_parts tier.interval ≡ some (count, u)
      → (p : Point) → Memᴰ p points
      → is_in_window cutoff now p ≡ true
      → (q : Point) × IsFirst count u points keys p q
  retained_snapshots-IsFirst parse snaps tiers now points keys e h tier cutoff count u t c i p m w =
      let sorted : List Point = sort_points points in
      let (rest, k, f) = retained-parts calendar parse snaps tiers now points keys e h in
      elim (tier-covers cutoff now count u sorted [] p (sort_points-IsSorted points) w
        (sort_points-mem p points m)) [
          | inl s ↦ absurd (nothing_seen p.snapshot.dataset _ s)
          | inr (q, g) ↦ (
            q,
            record {
              among = mem-sort_points q points g.among;
              dataset = g.dataset;
              bucket = g.bucket;
              earlier = g.earlier;
              kept =
                  subst (λ x. Memᴰ (key_of q) x) (sym f)
                    (mem-right (future_keys now sorted) _ (
                      mem-right (keys_of (latest_points [] sorted)) rest (
                        tiers_keys-mem now sorted tiers tier cutoff count u rest (key_of q) k t c i
                          g.kept)));
            },
          )
        ]
