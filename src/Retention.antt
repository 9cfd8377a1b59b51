-- ===== src/Retention.antt =====
-- The retention of automated snapshots (pkg/store/policy.go): `SnapshotDue` and `RetainedSnapshots`. An
-- instant is its nanoseconds since Go's zero time, from which `Calendar` tells the month, counted from
-- year 0, and the first instant of a month; parsing an instant is a parameter.
pub mod Sorted
pub mod Keys
pub mod Kept
pub mod Tiers
use floatlab_core.Base.{
  Bool, List, Option, String, [], codes, false, if◌then◌else◌, inl, inr, is_digit, leb, ltb, nat_eq,
  none, not, some, string_eq, suc, ℕ, ◌%◌, ◌&&◌, ◌*◌, ◌+◌, ◌-◌, ◌/◌, ◌==◌, ◌||◌, ◌∷◌, ◌⊎◌,
}
use floatlab_core.Alerts.{negsuc, pos, ℤ}

pub data TimeUnit : Type 0 where
  minute hour day week month year : TimeUnit

pub record Tier : Type 0 where
  pub interval : String
  pub retain : ℕ

pub record SnapshotInfo : Type 0 where
  pub dataset : String
  pub name : String
  pub created_at : String

pub record Calendar : Type 0 where
  pub month_of : ℕ → ℕ
  pub month_start : ℕ → ℕ

abbrev pub second : ℕ
second = 1000000000

abbrev pub max_int : ℕ
max_int = 9223372036854775807

-- The digits at the start of a text, as a number, and what follows them.
unfoldable pub leading_number : ℕ → List ℕ → ℕ × List ℕ
leading_number n [] = (n, [])
leading_number n (c ∷ cs) =
    let rest = leading_number (n * 10 + (c - b'0')) cs in if is_digit c then rest else (n, c ∷ cs)

unfoldable pub unit_of : List ℕ → Option TimeUnit
unit_of (a ∷ []) =
    if a == b'm'
    then some minute
    else if a == b'h'
    then some hour
    else if a == b'd'
    then some day
    else if a == b'w'
    then some week
    else if a == b'y'
    then some year
    else none
unit_of (a ∷ b ∷ []) = if a == b'm' && b == b'o' then some month else none
unit_of _ = none

-- `intervalParts`
unfoldable pub interval_parts : String → Option (ℕ × TimeUnit)
unfolding leading_number unit_of
interval_parts interval = elim (codes interval) [
  | [] ↦ none
  | c ∷ cs ↦
      let parsed : ℕ × List ℕ = leading_number 0 (c ∷ cs) in
      if c == b'0' || not (is_digit c) || ltb max_int parsed.0
      then none
      else elim (unit_of parsed.1) [ none ↦ none | some u ↦ some (parsed.0, u) ]
]

-- `floorDiv`
unfoldable pub floor_div : ℤ → ℕ → ℤ
floor_div (pos n) d = pos (n / d)
floor_div (negsuc n) d = negsuc (n / d)

-- `t.Unix()` less some seconds.
unfoldable pub unix_less : ℕ → ℕ → ℤ
unix_less t k =
    let s : ℕ = t / second in
    let origin : ℕ = 62135596800 + k in
    if leb origin s then pos (s - origin) else negsuc (origin - s - 1)

module _ (calendar : Calendar) where
  -- `intervalBucket`
  unfoldable pub interval_bucket : ℕ → ℕ → TimeUnit → ℤ
  unfolding floor_div unix_less
  interval_bucket t count minute = floor_div (floor_div (unix_less t 0) 60) count
  interval_bucket t count hour = floor_div (floor_div (unix_less t 0) 3600) count
  interval_bucket t count day = floor_div (floor_div (unix_less t 0) 86400) count
  interval_bucket t count week = floor_div (floor_div (unix_less t 345600) 604800) count
  interval_bucket t count month = floor_div (pos (calendar.month_of t)) count
  interval_bucket t count year = floor_div (pos (calendar.month_of t / 12)) count

  abbrev pub int_eq : ℤ → ℤ → Bool
  int_eq (pos a) (pos b) = a == b
  int_eq (negsuc a) (negsuc b) = a == b
  int_eq _ _ = false

  -- `SnapshotDue`
  unfoldable pub snapshot_due : ℕ → String → Bool
  unfolding interval_parts interval_bucket
  snapshot_due now interval = elim (interval_parts interval) [
    | none ↦ false
    | some p ↦
        let t : ℕ = now / (60 * second) * (60 * second) in
        not (int_eq (interval_bucket t p.0 p.1) (interval_bucket (t - 60 * second) p.0 p.1))
  ]

  -- The instant some months back, on the last day of a month that is too short; none before year 0.
  unfoldable pub months_back : ℕ → ℕ → Option ℕ
  months_back now months =
      let first : ℕ = calendar.month_start (calendar.month_of now) in
      let m : ℕ = calendar.month_of now - months in
      let last : ℕ = (calendar.month_start (suc m) - calendar.month_start m) / (86400 * second) in
      let d : ℕ = (now - first) / (86400 * second) in
      if leb months (calendar.month_of now)
      then some (
          calendar.month_start m
          + now % (86400 * second)
          + (if ltb d last then d else last - 1) * (86400 * second))
      else none

  unfoldable pub scale_of : TimeUnit → Option ℕ
  scale_of minute = some 60
  scale_of hour = some 3600
  scale_of day = some 86400
  scale_of week = some 604800
  scale_of month = none
  scale_of year = none

  -- The start of a window of some spans: none is before every instant.
  unfoldable pub window_start : ℕ → ℕ → TimeUnit → Option ℕ ⊎ String
  unfolding scale_of months_back
  window_start now span u = elim (scale_of u) [
    | some scale ↦
        if ltb (max_int / second / scale) span
        then inr "snapshot retention duration overflows"
        else inl
            (if leb (span * scale * second) now then some (now - span * scale * second) else none)
    | none ↦
        let months : ℕ = elim u [ year ↦ span * 12 | _ ↦ span ] in
        if ltb (9999 * 12) months
        then inr "snapshot retention exceeds calendar range"
        else inl (months_back now months)
  ]

  -- `retentionCutoff`
  unfoldable pub retention_cutoff : ℕ → Tier → Option ℕ ⊎ String
  unfolding interval_parts window_start
  retention_cutoff now tier = elim (interval_parts tier.interval) [
    | none ↦ inr "invalid snapshot interval"
    | some p ↦
        if tier.retain == 0 || ltb (max_int / p.0) tier.retain
        then inr "invalid snapshot retention"
        else window_start now (p.0 * tier.retain) p.1
  ]
