-- ===== src/Alerts.antt =====
-- Alert rules and the step of one incident (pkg/alerts/evaluate.go). An instant is its count of
-- nanoseconds since Go's zero time, which is 0; a duration is an int64. A float64 is its 64 bits.
-- The digest of a rule's conditions (SHA-256 of their JSON) is a parameter.
pub mod Timer
pub mod Recovery
pub mod Observe
pub mod Store
pub mod Opening
pub mod Merge
pub mod Conflict
use floatlab_core.Base.{
  Bool, Map, Option, String, false, if◌then◌else◌, leb, ltb, nat_eq, none, not, some, string_eq,
  true, ℕ, ◌%◌, ◌&&◌, ◌*◌, ◌-◌, ◌/◌, ◌==◌, ◌||◌,
}

-- The library's integers, over the native numbers.
pub data ℤ : Type 0 where
  pos negsuc : ℕ → ℤ

unfoldable pub leb_int : ℤ → ℤ → Bool
leb_int (pos a) (pos b) = leb a b
leb_int (pos a) (negsuc b) = false
leb_int (negsuc a) (pos b) = true
leb_int (negsuc a) (negsuc b) = leb b a

abbrev pub max_duration : ℕ
max_duration = 9223372036854775807

abbrev pub at_most : ℕ → ℕ → ℕ
at_most bound n = if leb n bound then n else bound

-- `t.Sub(u)`, which stops at the ends of the int64.
unfoldable pub sub : ℕ → ℕ → ℤ
sub t u =
    if leb u t
    then pos (at_most max_duration (t - u))
    else negsuc (at_most max_duration (u - t - 1))

pub record Rule : Type 0 where
  pub id : String
  pub name : String
  pub condition : String
  pub recovery_condition : String
  pub freshness_query : String
  pub severity : String
  pub stack_id : String
  pub node_id : String
  pub message : String
  pub for_time : ℤ
  pub recovery_for : ℤ
  pub max_age : ℤ
  pub enabled : Bool
  pub compose : Bool

-- `Rule.Validate`; the result is the error.
unfoldable pub validate : Rule → Option String
validate r =
    if r.id == "" || r.name == "" || r.condition == ""
    then some "rule id, name and condition are required"
    else if r.recovery_condition == "" || r.freshness_query == ""
    then some "recovery_condition and freshness_query are required for persistent rules"
    else if not (r.severity == "info")
        && not (r.severity == "warning")
        && not (r.severity == "critical")
    then some "invalid rule severity"
    else if not (leb_int (pos 0) r.for_time)
        || not (leb_int (pos 0) r.recovery_for)
        || leb_int r.max_age (pos 0)
    then some "invalid rule duration"
    else none

pub record Observation : Type 0 where
  pub labels : Map String String
  pub value : ℕ
  pub at : ℕ
  pub firing : Bool
  pub recovered : Bool

pub data AlertStatus : Type 0 where
  unset unknown inactive pending firing resolved : AlertStatus

pub record State : Type 0 where
  pub rule_hash : String
  pub labels : Map String String
  pub status : AlertStatus
  pub error : String
  pub pending_since : ℕ
  pub recovery_since : ℕ
  pub last_observed : ℕ
  pub last_evaluated : ℕ
  pub alert_id : String
  pub severity : String
  pub value : Option ℕ

-- What `ruleHash` digests.
pub record Conditions : Type 0 where
  pub condition : String
  pub recovery_condition : String
  pub freshness_query : String
  pub stack_id : String
  pub node_id : String
  pub for_time : ℤ
  pub recovery_for : ℤ
  pub max_age : ℤ

abbrev pub conditions : Rule → Conditions
conditions r = record {
  condition = r.condition;
  recovery_condition = r.recovery_condition;
  freshness_query = r.freshness_query;
  stack_id = r.stack_id;
  node_id = r.node_id;
  for_time = r.for_time;
  recovery_for = r.recovery_for;
  max_age = r.max_age;
}

-- 30 seconds.
abbrev pub interval : ℕ
interval = 30000000000

-- `math.IsNaN` or `math.IsInf`: the bits of the exponent are all set.
unfoldable pub is_not_finite : ℕ → Bool
is_not_finite bits = (bits / 4503599627370496) % 2048 == 2047

abbrev pub Bool-eq : Bool → Bool → Bool
Bool-eq true b = b
Bool-eq false b = not b

-- The observation is not fresh evidence for one of the two predicates.
unfoldable pub is_unusable : Rule → Observation → ℕ → Bool
unfolding is_not_finite
is_unusable r o now =
    o.at == 0
    || ltb now o.at
    || not (leb_int (sub now o.at) r.max_age)
    || is_not_finite o.value
    || Bool-eq o.firing o.recovered

abbrev pub reset_timers : State → State
reset_timers s = record s { pending_since = 0; recovery_since = 0 }

abbrev pub or_now : ℕ → ℕ → ℕ
or_now since now = if since == 0 then now else since

module _ (digest : Conditions → String) where
  -- The first part of `advance`: other conditions, or more than three intervals without an
  -- evaluation, reset the timers.
  unfoldable pub begun : Rule → State → ℕ → State
  begun r old now =
      let next = record old { rule_hash = digest (conditions r); last_evaluated = now } in
      if not (old.rule_hash == next.rule_hash)
        || not (leb_int (sub now old.last_evaluated) (pos (3 * interval)))
      then reset_timers next
      else next

-- The branch of a firing observation.
unfoldable pub when_firing : Rule → State → State → ℕ → State
when_firing r old next now =
    if not (old.alert_id == "")
    then record next { recovery_since = 0; status = firing }
    else (let since = or_now next.pending_since now in
        record next {
          recovery_since = 0;
          pending_since = since;
          status = if leb_int r.for_time (sub now since) then firing else pending;
        })

-- The branch of an observation of recovery.
unfoldable pub when_recovered : Rule → State → State → ℕ → State
when_recovered r old next now =
    if old.alert_id == ""
    then record next { pending_since = 0; recovery_since = 0; status = inactive }
    else (let since = or_now next.recovery_since now in
        record next {
          pending_since = 0;
          recovery_since = since;
          status = if leb_int r.recovery_for (sub now since) then resolved else firing;
        })

-- A gap of more than the greatest age between two samples resets the timers.
unfoldable pub unless_gap : Rule → State → Observation → State → State
unless_gap r old o next =
    if not (old.last_observed == 0) && not (leb_int (sub o.at old.last_observed) r.max_age)
    then reset_timers next
    else next

-- The last part of `advance`, for a sample that is newer than the last one.
unfoldable pub take_sample : Rule → State → State → Observation → ℕ → State
unfolding when_firing when_recovered unless_gap
take_sample r old begun_state o now =
    let next = record (unless_gap r old o begun_state) {
      last_observed = o.at;
      value = some o.value;
    } in
    if o.firing then when_firing r old next now else when_recovered r old next now

module _ (digest : Conditions → String) where
  -- `advance`
  unfoldable pub advance : Rule → State → Option Observation → ℕ → State
  unfolding begun is_unusable take_sample
  advance r old none now = reset_timers (record (begun digest r old now) { status = unknown })
  advance r old (some o) now =
      if is_unusable r o now
      then reset_timers (record (begun digest r old now) { status = unknown })
      else (let next = record (begun digest r old now) { labels = o.labels } in
          if not (ltb old.last_observed o.at) then next else take_sample r old next o now)
