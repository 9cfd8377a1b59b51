-- ===== src/Retention/Kept.antt =====
-- What `RetainedSnapshots` of pkg/store/policy.go keeps of each dataset.
use floatlab_core.Base.{
  Bool-cases, List, Map, Memᴰ, Option, String, [], all, ap, arith, if◌then◌else◌, inl, inr, insert,
  lookup, lookup-insert, nat_eq, refl, some, some-inj, string_eq, subst, sym, ℕ, ◌++◌, ◌==◌, ◌∙◌,
  ◌∷◌, ◌≡◌, ◌≤◌, ◌⊎◌,
}
use floatlab_core.Retention.{Calendar, SnapshotInfo, Tier}
use floatlab_core.Retention.Sorted.{
  IsSorted, Point, mem-sort_points, points_of, sort_points, sort_points-IsSorted, sort_points-mem,
}
use floatlab_core.Retention.Keys.{
  future_keys, key_of, keys_of, latest_points, retained_snapshots, tiers_keys,
}

pub mem-left : {A : Type 0} {x : A} (l m : List A) → Memᴰ x l → Memᴰ x (l ++ m)
mem-left (a ∷ l) m (Memᴰ.head e) = Memᴰ.head e
mem-left (a ∷ l) m (Memᴰ.tail h) = Memᴰ.tail (mem-left l m h)
mem-left [] m h = elim h [ ]

pub mem-right : {A : Type 0} {x : A} (l m : List A) → Memᴰ x m → Memᴰ x (l ++ m)
mem-right [] m h = h
mem-right (a ∷ l) m h = Memᴰ.tail (mem-right l m h)

keys_of-mem :
    (dataset : String) (p : Point) (m : Map String Point)
    → lookup dataset m ≡ some p
    → Memᴰ (key_of p) (keys_of m)
unfolding keys_of lookup
keys_of-mem dataset p [] h = cc h
keys_of-mem dataset p ((d, q) ∷ m) h = elim (Bool-cases (d == dataset)) [
  | inl t ↦ Memᴰ.head (ap key_of (sym (some-inj (rw t at h))))
  | inr f ↦ Memᴰ.tail (keys_of-mem dataset p m (rw f at h))
]

-- One of the points, of the dataset of another and created no earlier.
pub record IsAsLate (points : List Point) (p q : Point) : Type 0 where
  pub among : Memᴰ q points
  pub dataset : q.snapshot.dataset ≡ p.snapshot.dataset
  pub later : p.created ≤ q.created

-- The map has such a point, and no point to come is before it.
IsCovered : List Point → Point → Map String Point → List Point → Type 0
IsCovered all p latest points =
    (q : Point) × (lookup p.snapshot.dataset latest ≡ some q)
    × IsAsLate all p q
    × ((z : Point) → Memᴰ z points → p.created ≤ z.created)

insert-covers :
    (all : List Point) (p r : Point) (points : List Point) (latest : Map String Point)
    → Memᴰ r all
    → r.snapshot.dataset ≡ p.snapshot.dataset
    → p.created ≤ r.created
    → ((z : Point) → Memᴰ z points → p.created ≤ z.created)
    → IsCovered all p (insert r.snapshot.dataset r latest) points
unfolding IsCovered
insert-covers all p r points latest m e k a = (
  r,
  lookup-insert r.snapshot.dataset p.snapshot.dataset r latest
      ∙ ap (λ b. if b then some r else lookup p.snapshot.dataset latest)
          ((string_eq.beq_iff r.snapshot.dataset p.snapshot.dataset).1 e),
  record { among = m; dataset = e; later = k },
  a,
)

step-IsCovered :
    (all : List Point) (p r : Point) (points : List Point) (latest : Map String Point)
    → Memᴰ r all
    → IsCovered all p latest (r ∷ points)
    → IsCovered all p (insert r.snapshot.dataset r latest) points
unfolding IsCovered
step-IsCovered all p r points latest i (q, h, k, a) =
    elim (Bool-cases (r.snapshot.dataset == p.snapshot.dataset)) [
      | inl t ↦
          insert-covers all p r points latest i
            ((string_eq.beq_iff r.snapshot.dataset p.snapshot.dataset).0 t) (a r (Memᴰ.head refl))
            (λ z m. a z (Memᴰ.tail m))
      | inr f ↦ (
        q,
        lookup-insert r.snapshot.dataset p.snapshot.dataset r latest
            ∙ ap (λ b. if b then some r else lookup p.snapshot.dataset latest) f
            ∙ h,
        k,
        λ z m. a z (Memᴰ.tail m),
      )
    ]

-- Every dataset has a last point, which is as late as any of its points.
latest-covers :
    (all points : List Point) (latest : Map String Point) (p : Point)
    → IsSorted points
    → ((z : Point) → Memᴰ z points → Memᴰ z all)
    → Memᴰ p points ⊎ IsCovered all p latest points
    → (q : Point) × (lookup p.snapshot.dataset (latest_points latest points) ≡ some q)
      × IsAsLate all p q
unfolding latest_points IsSorted IsCovered
latest-covers all [] latest p s w (inl m) = elim m [ ]
latest-covers all [] latest p s w (inr (q, h, k, a)) = (q, h, k)
latest-covers all (r ∷ points) latest p (l, s) w (inl (Memᴰ.head e)) =
    latest-covers all points (insert r.snapshot.dataset r latest) p s (λ z m. w z (Memᴰ.tail m))
      (inr (
        insert-covers all p r points latest (w r (Memᴰ.head refl))
          (ap (λ x. x.snapshot.dataset) (sym e))
          (subst (λ x. x.created ≤ r.created) (sym e) (omega arith))
          (λ z m. subst (λ x. x.created ≤ z.created) (sym e) (l z m))))
latest-covers all (r ∷ points) latest p (l, s) w (inl (Memᴰ.tail m)) =
    latest-covers all points (insert r.snapshot.dataset r latest) p s (λ z m. w z (Memᴰ.tail m))
      (inl m)
latest-covers all (r ∷ points) latest p (l, s) w (inr c) =
    latest-covers all points (insert r.snapshot.dataset r latest) p s (λ z m. w z (Memᴰ.tail m))
      (inr (step-IsCovered all p r points latest (w r (Memᴰ.head refl)) c))

module _ (calendar : Calendar) (parse : String → Option ℕ) where
  pub retained-parts :
      (snaps : List SnapshotInfo) (tiers : List Tier) (now : ℕ) (points : List Point)
      (keys : List String)
      → points_of parse snaps ≡ inl points
      → retained_snapshots calendar parse snaps tiers now ≡ inl keys
      → (rest : List String) × (tiers_keys calendar now (sort_points points) tiers ≡ inl rest)
        × (keys
            ≡ future_keys now (sort_points points)
              ++ (keys_of (latest_points [] (sort_points points)) ++ rest))
  unfolding retained_snapshots
  retained-parts snaps tiers now points keys e h =
      parts (tiers_keys calendar now (sort_points points) tiers) refl
        (of_points (points_of parse snaps) e h)
    where
      kept_of : List Point → List String ⊎ String → List String ⊎ String
      kept_of sorted t = elim t [
        | inr e ↦ inr e
        | inl keys ↦ inl (future_keys now sorted ++ (keys_of (latest_points [] sorted) ++ keys))
      ]

      of_points :
          (o : List Point ⊎ String)
          → o ≡ inl points
          → elim o as (λ x. List String ⊎ String) [
            | inr e ↦ inr e
            | inl unsorted ↦
                kept_of
                  (sort_points unsorted)
                  (tiers_keys calendar now (sort_points unsorted) tiers)
          ]
            ≡ inl keys
          → kept_of (sort_points points) (tiers_keys calendar now (sort_points points) tiers)
            ≡ inl keys
      of_points o e h =
          subst
            (λ o.
              elim o as (λ x. List String ⊎ String) [
                | inr e ↦ inr e
                | inl unsorted ↦
                    kept_of (sort_points unsorted)
                      (tiers_keys calendar now (sort_points unsorted) tiers)
              ]
              ≡ inl keys)
            e h

      parts :
          (t : List String ⊎ String)
          → tiers_keys calendar now (sort_points points) tiers ≡ t
          → kept_of (sort_points points) t ≡ inl keys
          → (rest : List String) × (tiers_keys calendar now (sort_points points) tiers ≡ inl rest)
            × (keys
                ≡ future_keys now (sort_points points)
                  ++ (keys_of (latest_points [] (sort_points points)) ++ rest))
      parts (inr e) q h = cc h
      parts (inl rest) q h = (rest, q, cc h)

  -- Whatever the tiers are, each automated snapshot has one of its dataset among the kept that was
  -- created no earlier: no dataset loses its newest one.
  pub retained_snapshots-IsAsLate :
      (snaps : List SnapshotInfo) (tiers : List Tier) (now : ℕ) (points : List Point)
      (keys : List String)
      → points_of parse snaps ≡ inl points
      → retained_snapshots calendar parse snaps tiers now ≡ inl keys
      → (p : Point) → Memᴰ p points
      → (q : Point) × Memᴰ (key_of q) keys × IsAsLate points p q
  retained_snapshots-IsAsLate snaps tiers now points keys e h p m =
      let sorted : List Point = sort_points points in
      let (q, l, k) =
        latest-covers points sorted [] p (sort_points-IsSorted points)
          (λ z n. mem-sort_points z points n) (inl (sort_points-mem p points m)) in
      let (rest, _, f) = retained-parts snaps tiers now points keys e h in
      (
        q,
        subst (λ x. Memᴰ (key_of q) x) (sym f)
            (mem-right (future_keys now sorted) _ (
              mem-left (keys_of (latest_points [] sorted)) rest
                (keys_of-mem p.snapshot.dataset q (latest_points [] sorted) l))),
        k,
      )
