-- ===== src/Raft.antt =====
-- The replicated state of the stacks (pkg/raft/fsm.go), over the entries of pkg/run/events.go. A
-- channel of a subscriber is its buffer, the oldest entry first; the number of a subscriber is a
-- uint64. The JSON of a log entry enters as what decoding it gives; that of a snapshot is in
-- Raft/Persist.antt.
pub mod Replay
pub mod Delivery
pub mod Persist
pub mod Persisted
use floatlab_core.Base.{
  Bool, List, Map, Option, String, [], erase, false, if◌then◌else◌, insert, length, lookup, ltb,
  nat_eq, none, some, string_eq, true, ℕ, ◌%◌, ◌++◌, ◌+◌, ◌^◌, ◌∷◌,
}
use floatlab_core.Run.{Event, StackInstance, State, event_eq, state_eq, unset}

pub record StackStateChanged : Type 0 where
  pub stack_id : String
  pub from : State
  pub to : State
  pub event : Event
  pub timestamp : ℕ
  pub node_id : String

abbrev pub Stacks : Type 0
Stacks = Map String StackInstance

abbrev pub Channel : Type 0
Channel = List StackStateChanged

pub record Fsm : Type 0 where
  pub stacks : Stacks
  pub subs : Map ℕ Channel
  pub next_id : ℕ

-- `NewFSM`
unfoldable pub new_fsm : Fsm
new_fsm = record { stacks = []; subs = []; next_id = 0 }

-- The size of a subscriber's buffer.
abbrev pub channel_size : ℕ
channel_size = 64

-- `FSM.Subscribe`, with the number that its closing function keeps.
unfoldable pub subscribe : Fsm → ℕ × Fsm
subscribe f =
    (f.next_id, record f { subs = insert f.next_id [] f.subs; next_id = (f.next_id + 1) % 2 ^ 64 })

-- The function that `Subscribe` returns.
unfoldable pub unsubscribe : ℕ → Fsm → Fsm
unsubscribe id f = record f { subs = erase id f.subs }

-- A send that does not wait: a full buffer drops the entry.
unfoldable pub send : StackStateChanged → Channel → Channel
send entry ch = if ltb (length ch) channel_size then ch ++ entry ∷ [] else ch

unfoldable pub send_all : StackStateChanged → Map ℕ Channel → Map ℕ Channel
unfolding send
send_all entry [] = []
send_all entry ((id, ch) ∷ subs) = (id, send entry ch) ∷ send_all entry subs

-- `FSM.fanOut`
unfoldable pub fan_out : StackStateChanged → Fsm → Fsm
unfolding send_all
fan_out entry f = record f { subs = send_all entry f.subs }

-- The instance of a stack that no entry has named yet.
abbrev pub new_instance : String → StackInstance
new_instance id = record {
  id = id;
  state = unset;
  previous_state = unset;
  locked_by = "";
  updated_at = 0;
}

abbrev pub or_new : String → Option StackInstance → StackInstance
or_new id none = new_instance id
or_new id (some inst) = inst

-- `FSM.Apply` for a log entry that decodes.
unfoldable pub apply_entry : StackStateChanged → Fsm → Fsm
unfolding fan_out
apply_entry entry f =
    let inst = or_new entry.stack_id (lookup entry.stack_id f.stacks) in
    let updated = record inst {
      previous_state = inst.state;
      state = entry.to;
      updated_at = entry.timestamp;
    } in
    fan_out entry (record f { stacks = insert entry.stack_id updated f.stacks })

-- `FSM.Apply`: an entry that does not decode is an error and changes nothing.
unfoldable pub apply : Option StackStateChanged → Fsm → Bool × Fsm
unfolding apply_entry
apply none f = (false, f)
apply (some entry) f = (true, apply_entry entry f)

-- The log, entry by entry.
unfoldable pub replay : List StackStateChanged → Fsm → Fsm
unfolding apply_entry
replay [] f = f
replay (entry ∷ entries) f = replay entries (apply_entry entry f)

-- `FSM.State`
unfoldable pub state : String → Fsm → Option StackInstance
state id f = lookup id f.stacks
