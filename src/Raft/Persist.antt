-- ===== src/Raft/Persist.antt =====
-- Snapshots of the replicated state: `Snapshot`, `Persist` and `Restore` of pkg/raft/fsm.go. The
-- package encoding/json enters as a parameter that writes and reads an object of objects of texts,
-- and writes and reads times; which members an instance has, and their names, is of the source. A
-- text that is none of the constants of `State` is outside of the model and does not decode.
use floatlab_core.Base.{
  Bool, List, Map, Option, String, [], false, if◌then◌else◌, lookup, nat_eq, none, some, string_eq,
  true, ℕ, ◌==◌, ◌∷◌,
}
use floatlab_core.Run.{
  StackInstance, State, event_eq, failed, failing_over, idle, provisioning, restoring, rolling_back,
  running_backup, running_primary, starting, state_eq, stopping, unset, updating,
}
use floatlab_core.Raft.{Fsm, Stacks}

-- What `json.Marshal` makes of the map: for each stack the members of its instance.
abbrev pub Members : Type 0
Members = Map String String

abbrev pub Objects : Type 0
Objects = Map String Members

-- encoding/json; `Content` is what is written to a sink. The keys of a map that it sorts are in no
-- order in the model. A time whose year has not four digits is refused.
pub record Json : Type 1 where
  pub Content : Type 0
  pub print : Objects → Content
  pub parse : Content → Option Objects
  pub format_time : ℕ → Option String
  pub parse_time : String → Option ℕ

-- The constants of `State`.
unfoldable pub state_name : State → String
state_name provisioning = "Provisioning"
state_name idle = "Idle"
state_name starting = "Starting"
state_name running_primary = "RunningPrimary"
state_name failing_over = "FailingOver"
state_name running_backup = "RunningBackup"
state_name restoring = "Restoring"
state_name stopping = "Stopping"
state_name updating = "Updating"
state_name rolling_back = "RollingBack"
state_name failed = "Failed"
state_name unset = ""

abbrev all_states : List State
all_states =
    provisioning ∷ idle ∷ starting ∷ running_primary ∷ failing_over ∷ running_backup ∷ restoring
    ∷ stopping ∷ updating ∷ rolling_back ∷ failed ∷ unset ∷ []

unfoldable pub find_state : String → List State → Option State
unfolding state_name
find_state s [] = none
find_state s (x ∷ xs) = let rest = find_state s xs in if state_name x == s then some x else rest

unfoldable pub state_named : String → Option State
unfolding find_state
state_named s = find_state s all_states

-- The text of a member; a member that is missing leaves the zero value.
abbrev pub member : String → Members → String
member name o = elim (lookup name o) [ none ↦ "" | some s ↦ s ]

module _ (json : Json) where
  -- A `StackInstance` has no tags: its members have the names of its fields.
  unfoldable pub marshal_instance : StackInstance → Option Members
  unfolding state_name
  marshal_instance inst = elim (json.format_time inst.updated_at) [
    | none ↦ none
    | some t ↦ some (
        ("ID", inst.id)
        ∷ ("State", state_name inst.state)
        ∷ ("PreviousState", state_name inst.previous_state)
        ∷ ("LockedBy", inst.locked_by)
        ∷ ("UpdatedAt", t)
        ∷ [])
  ]

  unfoldable pub unmarshal_time : Members → Option ℕ
  unmarshal_time o = elim (lookup "UpdatedAt" o) [ none ↦ some 0 | some t ↦ json.parse_time t ]

  unfoldable pub unmarshal_instance : Members → Option StackInstance
  unfolding state_named unmarshal_time
  unmarshal_instance o = elim (state_named (member "State" o)) [
    | none ↦ none
    | some s ↦ elim (state_named (member "PreviousState" o)) [
      | none ↦ none
      | some p ↦ elim (unmarshal_time o) [
        | none ↦ none
        | some t ↦ some (record {
          id = member "ID" o;
          state = s;
          previous_state = p;
          locked_by = member "LockedBy" o;
          updated_at = t;
        })
      ]
    ]
  ]

  unfoldable pub marshal : Stacks → Option Objects
  unfolding marshal_instance
  marshal [] = some []
  marshal ((id, inst) ∷ stacks) =
      let rest = marshal stacks in
      elim (marshal_instance inst) [
        | none ↦ none
        | some o ↦ elim rest [ none ↦ none | some os ↦ some ((id, o) ∷ os) ]
      ]

  unfoldable pub unmarshal : Objects → Option Stacks
  unfolding unmarshal_instance
  unmarshal [] = some []
  unmarshal ((id, o) ∷ os) =
      let rest = unmarshal os in
      elim (unmarshal_instance o) [
        | none ↦ none
        | some inst ↦ elim rest [ none ↦ none | some stacks ↦ some ((id, inst) ∷ stacks) ]
      ]

-- `fsmSnapshot`
pub record FsmSnapshot : Type 0 where
  pub stacks : Stacks

-- `FSM.Snapshot`. It copies each instance, and no operation changes an instance that it has put in
-- the map.
unfoldable pub snapshot : Fsm → FsmSnapshot
snapshot f = record { stacks = f.stacks }

-- A `SnapshotSink` of hashicorp/raft: what was written to it, and how it was left.
pub record Sink (json : Json) : Type 0 where
  pub written : Option json.Content
  pub closed : Bool
  pub cancelled : Bool

module _ (json : Json) where
  abbrev pub new_sink : Sink json
  new_sink = record { written = none; closed = false; cancelled = false }

  abbrev pub cancel : Sink json → Sink json
  cancel sink = record { written = sink.written; closed = sink.closed; cancelled = true }

  -- `fsmSnapshot.Persist`, where writing and closing answer with the errors that are given.
  unfoldable pub persist :
      Option String → Option String → FsmSnapshot → Sink json → Option String × Sink json
  unfolding marshal
  persist write_error close_error s sink = elim (marshal json s.stacks) [
    | none ↦ (some "json: error calling MarshalJSON", cancel sink)
    | some os ↦ elim write_error [
      | some e ↦ (some e, cancel sink)
      | none ↦ (
        close_error,
        record { written = some (json.print os); closed = true; cancelled = sink.cancelled },
      )
    ]
  ]

  -- `FSM.Restore`: what does not decode is an error and changes nothing.
  unfoldable pub restore : json.Content → Fsm → Option String × Fsm
  unfolding unmarshal
  restore content f = elim (json.parse content) [
    | none ↦ (some "fsm: restore", f)
    | some os ↦ elim (unmarshal json os) [
      | none ↦ (some "fsm: restore", f)
      | some stacks ↦ (none, record f { stacks = stacks })
    ]
  ]
