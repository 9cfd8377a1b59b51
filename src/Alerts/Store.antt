-- ===== src/Alerts/Store.antt =====
-- What `save` of pkg/alerts/store.go decides before it writes: the result of the check, the action on
-- the incident and the state that it stores. The writes themselves are left out.
use floatlab_core.Base.{
  Bool, Option, String, false, if◌then◌else◌, lookup, ltb, nat_eq, none, not, some, string_eq, suc,
  true, ℕ, ◌&&◌, ◌+◌, ◌==◌, ◌||◌,
}
use floatlab_core.Alerts.{Rule, State, firing, inactive, pending, pos, resolved}

pub data CheckStatus : Type 0 where
  unknown_check failing healthy disabled : CheckStatus

pub data Action : Type 0 where
  keep open_incident resolve retire : Action

pub record Plan : Type 0 where
  pub status : CheckStatus
  pub action : Action
  pub message : String
  pub severity : String
  pub stack_id : String
  pub node_id : String

abbrev pub or_else : String → String → String
or_else s t = if s == "" then t else s

-- The switch on the status of the next state.
unfoldable pub of_status : State → CheckStatus × Action
of_status next = elim next.status [
  | pending ↦ (failing, keep)
  | inactive ↦ (healthy, keep)
  | resolved ↦ (healthy, resolve)
  | firing ↦ if next.recovery_since == 0 then (failing, open_incident) else (healthy, keep)
  | _ ↦ (unknown_check, keep)
]

-- The sample is missing or has expired; without a greatest age it expires at once.
unfoldable pub is_expired : Rule → State → ℕ → Bool
is_expired r next now =
    next.last_observed == 0
    || elim r.max_age [ pos (suc m) ↦ ltb (next.last_observed + suc m) now | _ ↦ ltb 0 now ]

unfoldable pub is_open : Action → Bool
is_open open_incident = true
is_open _ = false

-- A repeated sample keeps the active incident.
unfoldable pub unless_expired : Rule → State → ℕ → Action → Action
unfolding is_expired is_open
unless_expired r next now a = if is_open a && is_expired r next now then keep else a

abbrev pub removed : String
removed = "rule disabled or removed"

-- `save` up to its writes; an evaluation that is not later than the last one is left.
unfoldable pub save_plan : Rule → State → State → ℕ → String → Option Plan
unfolding of_status unless_expired
save_plan r old next now reason =
    if not (old.last_evaluated == 0) && not (ltb old.last_evaluated now)
    then none
    else (let decided = if reason == removed then (disabled, retire) else of_status next in
        some (record {
          status = decided.0;
          action = unless_expired r next now decided.1;
          message = or_else reason (or_else r.message r.name);
          severity = or_else r.severity (or_else old.severity "warning");
          stack_id =
              or_else (elim (lookup "stack_id" next.labels) [ none ↦ "" | some v ↦ v ]) r.stack_id;
          node_id =
              or_else (elim (lookup "node_id" next.labels) [ none ↦ "" | some v ↦ v ]) r.node_id;
        }))

-- `Extra`: the state that is stored with the incident.
unfoldable pub stored_state : Plan → String → State → State
stored_state p incident next = elim p.action [
  | keep ↦ record next { alert_id = incident }
  | open_incident ↦ record next { alert_id = incident; severity = p.severity }
  | _ ↦ record next { alert_id = incident; pending_since = 0; recovery_since = 0 }
]
