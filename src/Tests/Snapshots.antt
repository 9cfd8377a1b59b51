-- ===== src/Tests/Snapshots.antt =====
-- Two snapshots of a dataset under a tier of an hour.
use floatlab_core.Base.{
  List, Memᴰ, Option, String, [], if◌then◌else◌, inl, insert, nat_eq, none, refl, some, string_eq,
  ℕ, ◌*◌, ◌/◌, ◌==◌, ◌∷◌, ◌≡◌,
}
use floatlab_core.Snapshot.{is_automated_snapshot}
use floatlab_core.Retention.{Calendar, SnapshotInfo, Tier, hour, interval_parts, retention_cutoff}
use floatlab_core.Retention.Sorted.{Point, points_of}
use floatlab_core.Retention.Keys.{key_of, retained_snapshots}
use floatlab_core.Retention.Kept.{IsAsLate, retained_snapshots-IsAsLate}
use floatlab_core.Retention.Tiers.{IsFirst, retained_snapshots-IsFirst}

abbrev calendar : Calendar
calendar = record { month_of = λ t. t / 2592000000000000; month_start = λ m. m * 2592000000000000 }

abbrev snapshot_at : String → String → SnapshotInfo
snapshot_at name t = record { dataset = "tank/web"; name = name; created_at = t }

abbrev parse : String → Option ℕ
parse s =
    if s == "early" then some 3600000000000 else if s == "late" then some 7200000000000 else none

abbrev hourly : Tier
hourly = record { interval = "1h"; retain = 3 }

abbrev early : Point
early = record { snapshot = snapshot_at "fl-0A0SM0" "early"; created = 3600000000000 }

abbrev late : Point
late = record { snapshot = snapshot_at "fl-0A0SM1" "late"; created = 7200000000000 }

abbrev snaps : List SnapshotInfo
snaps = late.snapshot ∷ early.snapshot ∷ []

abbrev points : List Point
points = late ∷ early ∷ []

abbrev keys : List String
keys = key_of late ∷ key_of early ∷ key_of late ∷ []

parsed : points_of parse snaps ≡ inl points
unfolding points_of is_automated_snapshot
parsed = refl

retained : retained_snapshots calendar parse snaps (hourly ∷ []) 9000000000000 ≡ inl keys
unfolding retained_snapshots is_automated_snapshot insert
retained = refl

retained_snapshots-IsAsLate_example : (q : Point) × Memᴰ (key_of q) keys × IsAsLate points early q
retained_snapshots-IsAsLate_example =
    retained_snapshots-IsAsLate calendar parse snaps (hourly ∷ []) 9000000000000 points keys parsed
      retained early (Memᴰ.tail (Memᴰ.head refl))

cut_off : retention_cutoff calendar 9000000000000 hourly ≡ inl none
unfolding retention_cutoff
cut_off = refl

one_hour : interval_parts "1h" ≡ some (1, hour)
unfolding interval_parts
one_hour = refl

retained_snapshots-IsFirst_example : (q : Point) × IsFirst calendar 1 hour points keys early q
retained_snapshots-IsFirst_example =
    retained_snapshots-IsFirst calendar parse snaps (hourly ∷ []) 9000000000000 points keys parsed
      retained hourly none 1 hour (Memᴰ.head refl) cut_off one_hour early
      (Memᴰ.tail (Memᴰ.head refl)) refl
