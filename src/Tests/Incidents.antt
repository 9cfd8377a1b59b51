-- ===== src/Tests/Incidents.antt =====
-- A run of an alert rule (pkg/alerts).
use floatlab_core.Base.{
  Map, Option, String, [], arith, false, lookup, nat_eq, none, refl, some, string_eq, sym, true, ℕ,
  ◌++◌, ◌↔◌, ◌∙◌, ◌∷◌, ◌≡◌, ◌≢◌,
}
use floatlab_core.Alerts.{
  Conditions, Observation, Rule, State, advance, firing, leb_int, pos, resolved, sub, unknown,
  validate,
}
use floatlab_core.Alerts.Timer.{IsEvidence}
use floatlab_core.Alerts.Recovery.{Sustained, advance-resolved, evaluated, untimed}
use floatlab_core.Alerts.Observe.{
  Sample, instance_id, is_in_scope, label, observe_samples, set_times,
}
use floatlab_core.Alerts.Conflict.{IsOf, conflict-unknown}
use floatlab_core.Alerts.Store.{
  Plan, failing, is_expired, is_open, of_status, open_incident, removed, resolve, retire, save_plan,
  unless_expired,
}
use floatlab_core.Alerts.Opening.{Decides, IsFresh, IsLater, save_plan_iff}

abbrev digest_condition : Conditions → String
digest_condition c = c.condition

abbrev disk_rule : Rule
disk_rule = record {
  id = "disk";
  name = "Disk full";
  condition = "disk > 90";
  recovery_condition = "disk < 80";
  freshness_query = "disk_age";
  severity = "warning";
  stack_id = "";
  node_id = "";
  message = "";
  for_time = pos 0;
  recovery_for = pos 30000000000;
  max_age = pos 120000000000;
  enabled = true;
  compose = false;
}

valid_rule : validate disk_rule ≡ none
unfolding validate leb_int
valid_rule = refl

abbrev firing_incident : State
firing_incident = record {
  rule_hash = "disk > 90";
  labels = [];
  status = firing;
  error = "";
  pending_since = 0;
  recovery_since = 0;
  last_observed = 100000000000;
  last_evaluated = 110000000000;
  alert_id = "incident";
  severity = "warning";
  value = none;
}

abbrev healthy_at : ℕ → Option Observation
healthy_at t = some (record { labels = []; value = 0; at = t; firing = false; recovered = true })

abbrev once : State
once = advance digest_condition disk_rule firing_incident (healthy_at 120000000000) 140000000000

once_status : once.status ≡ firing
unfolding advance leb_int sub
once_status = refl

firing≢resolved : firing ≢ resolved
firing≢resolved h = cc

still_firing : once.status ≢ resolved
still_firing h = firing≢resolved (sym once_status ∙ h)

resolved_now :
    (advance digest_condition disk_rule once (healthy_at 150000000000) 170000000000).status
    ≡ resolved
unfolding advance leb_int sub
resolved_now = refl

advance-resolved_example :
    Sustained digest_condition
      (advance digest_condition disk_rule once
        (healthy_at 150000000000)
        170000000000).recovery_since
      (advance digest_condition disk_rule once (healthy_at 150000000000) 170000000000)
    × (leb_int (pos 30000000000) (
          sub 170000000000
            (advance digest_condition disk_rule once
              (healthy_at 150000000000)
              170000000000).recovery_since)
        ≡ true)
    × ((obs : Observation) × (healthy_at 150000000000 ≡ some obs)
        × IsEvidence disk_rule once obs 170000000000)
advance-resolved_example =
    advance-resolved digest_condition disk_rule once (healthy_at 150000000000) 170000000000
      (evaluated disk_rule (healthy_at 120000000000) 140000000000 (untimed refl)) (omega arith)
      still_firing resolved_now

abbrev identify : String → Map String String → String
identify rule labels = rule

abbrev sample_of : ℕ → Sample
sample_of v = record { labels = []; value = v; observed_at = 150000000000 }

disk-IsOf : (v : ℕ) → IsOf identify disk_rule "disk" (sample_of v)
unfolding IsOf is_in_scope instance_id label
disk-IsOf v = (refl, refl)

conflict-unknown_example :
    (advance digest_condition disk_rule firing_incident
      (lookup "disk" (
        set_times (("disk", 150000000000) ∷ []) (
          observe_samples identify disk_rule
            ([] ++ ((true, sample_of 1) ∷ ([] ++ ((false, sample_of 2) ∷ []))))
            [])))
      170000000000).status
    ≡ unknown
conflict-unknown_example =
    conflict-unknown digest_condition identify disk_rule firing_incident 170000000000 "disk"
      (("disk", 150000000000) ∷ []) [] [] [] true false (sample_of 1) (sample_of 2) (disk-IsOf 1)
      (disk-IsOf 2)

abbrev opened_plan : Plan
opened_plan = record {
  status = failing;
  action = open_incident;
  message = "Disk full";
  severity = "warning";
  stack_id = "";
  node_id = "";
}

opens_now : save_plan disk_rule firing_incident firing_incident 150000000000 "" ≡ some opened_plan
unfolding save_plan of_status unless_expired is_open is_expired lookup
opens_now = refl

save_plan_iff_example :
    (Decides disk_rule firing_incident firing_incident 150000000000 "" open_incident ↔ (
      IsLater firing_incident 150000000000
      × ("" ≢ removed)
      × (firing_incident.status ≡ firing)
      × (firing_incident.recovery_since ≡ 0)
      × IsFresh disk_rule firing_incident 150000000000))
    × (Decides disk_rule firing_incident firing_incident 150000000000 "" resolve ↔ (
        IsLater firing_incident 150000000000
        × ("" ≢ removed)
        × (firing_incident.status ≡ resolved)))
    × (Decides disk_rule firing_incident firing_incident 150000000000 "" retire
        ↔ (IsLater firing_incident 150000000000 × ("" ≡ removed)))
save_plan_iff_example = save_plan_iff disk_rule firing_incident firing_incident 150000000000 ""
