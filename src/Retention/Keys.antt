-- ===== src/Retention/Keys.antt =====
-- `RetainedSnapshots` of pkg/store/policy.go.
use floatlab_core.Base.{
  Bool, List, Map, Option, String, [], any, concat, if◌then◌else◌, inl, inr, insert, leb, ltb,
  nat_eq, none, not, some, string_eq, true, ℕ, ◌&&◌, ◌++◌, ◌==◌, ◌||◌, ◌∷◌, ◌⊎◌,
}
use floatlab_core.Alerts.{ℤ}
use floatlab_core.Retention.{
  Calendar, SnapshotInfo, Tier, TimeUnit, int_eq, interval_bucket, interval_parts, retention_cutoff,
}
use floatlab_core.Retention.Sorted.{Point, points_of, sort_points}

abbrev pub key_of : Point → String
key_of p = concat p.snapshot.dataset (concat "@" p.snapshot.name)

-- The last point of each dataset, in the order of the points.
unfoldable pub latest_points : Map String Point → List Point → Map String Point
latest_points latest [] = latest
latest_points latest (p ∷ points) = latest_points (insert p.snapshot.dataset p latest) points

unfoldable pub keys_of : Map String Point → List String
keys_of [] = []
keys_of ((_, p) ∷ latest) = key_of p ∷ keys_of latest

unfoldable pub future_keys : ℕ → List Point → List String
future_keys now [] = []
future_keys now (p ∷ points) =
    let rest = future_keys now points in if ltb now p.created then key_of p ∷ rest else rest

abbrev pub is_in_window : Option ℕ → ℕ → Point → Bool
is_in_window cutoff now p =
    elim cutoff [ none ↦ true | some c ↦ ltb c p.created ] && leb p.created now

module _ (calendar : Calendar) where
  unfoldable pub is_seen : String → ℤ → List (String × ℤ) → Bool
  is_seen dataset bucket seen = any (λ e. e.0 == dataset && int_eq calendar e.1 bucket) seen

  -- The points that a tier keeps: the first of each bucket of a dataset.
  unfoldable pub tier_keys :
      Option ℕ → ℕ → ℕ → TimeUnit → List (String × ℤ) → List Point → List String
  unfolding is_seen interval_bucket
  tier_keys cutoff now count u seen [] = []
  tier_keys cutoff now count u seen (p ∷ points) =
      let bucket : ℤ = interval_bucket calendar p.created count u in
      let rest : List String = tier_keys cutoff now count u seen points in
      if not (is_in_window cutoff now p) || is_seen p.snapshot.dataset bucket seen
      then rest
      else key_of p ∷ tier_keys cutoff now count u ((p.snapshot.dataset, bucket) ∷ seen) points

  unfoldable pub tiers_keys : ℕ → List Point → List Tier → List String ⊎ String
  unfolding retention_cutoff interval_parts tier_keys
  tiers_keys now points [] = inl []
  tiers_keys now points (tier ∷ tiers) =
      let rest = tiers_keys now points tiers in
      elim (retention_cutoff calendar now tier) [
        | inr e ↦ inr e
        | inl cutoff ↦ elim (interval_parts tier.interval) [
          | none ↦ rest
          | some p ↦ elim rest [
            | inl keys ↦ inl (tier_keys cutoff now p.0 p.1 [] points ++ keys)
            | inr e ↦ inr e
          ]
        ]
      ]

  -- `RetainedSnapshots`: the keys of the snapshots to keep.
  unfoldable pub retained_snapshots :
      (String → Option ℕ) → List SnapshotInfo → List Tier → ℕ → List String ⊎ String
  unfolding points_of sort_points latest_points keys_of future_keys tiers_keys
  retained_snapshots parse snaps tiers now = elim (points_of parse snaps) [
    | inr e ↦ inr e
    | inl unsorted ↦
        let points : List Point = sort_points unsorted in
        elim (tiers_keys now points tiers) [
          | inr e ↦ inr e
          | inl keys ↦ inl (future_keys now points ++ (keys_of (latest_points [] points) ++ keys))
        ]
  ]
