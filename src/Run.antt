-- ===== src/Run.antt =====
-- The state machine of a stack (pkg/run/machine.go). The table of transitions is indexed by the
-- package's init into a map of maps, which `apply` reads; a time is a parameter of the call.
mod Enums
pub mod Table
pub mod Machine
pub use Enums.*
use floatlab_core.Base.{
  string_eq, ℕ, String, Bool, true, false, not, ◌&&◌, Option, none, some, List, [], ◌∷◌, Map,
  lookup, insert, ◌==◌, if◌then◌else◌, map,
}

-- `transitionalStates`
abbrev pub is_transitional : State → Bool
is_transitional provisioning = true
is_transitional starting = true
is_transitional failing_over = true
is_transitional restoring = true
is_transitional stopping = true
is_transitional updating = true
is_transitional rolling_back = true
is_transitional _ = false

pub record Transition : Type 0 where
  pub from : State
  pub event : Event
  pub to : State

abbrev pub transitions : List Transition
transitions =
    record { from = idle; event = backup_restore_start; to = restoring }
    ∷ record { from = restoring; event = backup_restore_prepared; to = provisioning }
    ∷ record { from = idle; event = create_stack; to = provisioning }
    ∷ record { from = provisioning; event = provision_done; to = idle }
    ∷ record { from = provisioning; event = fail_stack; to = failed }
    ∷ record { from = idle; event = start_stack; to = starting }
    ∷ record { from = failed; event = start_stack; to = starting }
    ∷ record { from = starting; event = start_done; to = running_primary }
    ∷ record { from = starting; event = start_failed; to = failed }
    ∷ record { from = running_primary; event = fail_stack; to = failed }
    ∷ record { from = running_primary; event = failover_start; to = failing_over }
    ∷ record { from = failing_over; event = failover_done; to = running_backup }
    ∷ record { from = failing_over; event = failover_failed; to = failed }
    ∷ record { from = running_backup; event = restore_start; to = restoring }
    ∷ record { from = restoring; event = restore_done; to = running_primary }
    ∷ record { from = restoring; event = restore_failed; to = failed }
    ∷ record { from = running_primary; event = stop_stack; to = stopping }
    ∷ record { from = running_backup; event = stop_stack; to = stopping }
    ∷ record { from = idle; event = stop_stack; to = idle }
    ∷ record { from = stopping; event = stop_done; to = idle }
    ∷ record { from = running_primary; event = update_stack; to = updating }
    ∷ record { from = updating; event = update_done; to = running_primary }
    ∷ record { from = updating; event = update_failed; to = rolling_back }
    ∷ record { from = rolling_back; event = rollback_done; to = running_primary }
    ∷ record { from = rolling_back; event = rollback_failed; to = failed }
    ∷ []

abbrev pub TransitionMap : Type 0
TransitionMap = Map State (Map Event State)

-- `m[s]`, which is the nil map where `s` is missing; a nil map reads as an empty one.
unfoldable pub row : State → TransitionMap → Map Event State
row s m = elim (lookup s m) [ none ↦ [] | some r ↦ r ]

-- One round of the loop of `init`.
unfoldable pub add_transition : Transition → TransitionMap → TransitionMap
unfolding row
add_transition t m = insert t.from (insert t.event t.to (row t.from m)) m

unfoldable pub index : List Transition → TransitionMap → TransitionMap
unfolding add_transition
index [] m = m
index (t ∷ ts) m = index ts (add_transition t m)

unfoldable pub transition_map : TransitionMap
unfolding index
transition_map = index transitions []

pub record StackInstance : Type 0 where
  pub id : String
  pub state : State
  pub previous_state : State
  pub locked_by : String
  pub updated_at : ℕ

-- The two errors; the second wraps `ErrInvalidTransition` with its message's arguments.
pub data Error : Type 0 where
  transition_in_progress : Error
  no_transitions : State → Error
  invalid_transition : State → Event → Error

pub data Result : Type 0 where
  ok : StackInstance → Result
  err : Error → Result

-- `machine.Apply` after the guard of the lock.
unfoldable pub take_transition : ℕ → StackInstance → Event → Result
take_transition now inst ev = elim (lookup inst.state transition_map) [
  | none ↦ err (no_transitions inst.state)
  | some to_map ↦ elim (lookup ev to_map) [
    | none ↦ err (invalid_transition inst.state ev)
    | some next ↦ ok (record inst {
      previous_state = inst.state;
      state = next;
      updated_at = now;
      locked_by = if is_transitional next then "control" else "";
    })
  ]
]

-- Whether the guard of the lock refuses the event.
unfoldable pub is_locked_out : StackInstance → Event → Bool
is_locked_out inst ev =
    is_transitional inst.state
    && not (inst.locked_by == "")
    && elim (lookup ev (row inst.state transition_map)) [ none ↦ true | some _ ↦ false ]

-- `machine.Apply`
unfoldable pub apply : ℕ → StackInstance → Event → Result
unfolding take_transition is_locked_out
apply now inst ev =
    if is_locked_out inst ev then err transition_in_progress else take_transition now inst ev

-- `machine.ValidTransitions`; the order of a Go map is not fixed.
unfoldable pub valid_transitions : State → List Event
valid_transitions s = map (λ e. e.0) (row s transition_map)
