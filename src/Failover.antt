-- ===== src/Failover.antt =====
-- The failover of a stack to its backup node and back (internal/failover/sequence.go): the effects
-- of a sequence. What the database, the nodes, the rendering of the compose file and the context
-- answer is the parameter `Env`, by the number of the effect. Of a context only whether it has
-- ended is read. The state machine of the log is the one of Raft.antt.
pub mod Sequence
pub mod Order
pub mod Story
pub mod Execute
pub mod Restored
pub mod Detector
pub mod Outage
pub mod History
pub mod Round
pub mod Started
use floatlab_core.Base.{
  Bool, List, Map, Option, String, false, lookup, nat_eq, none, some, string_eq, suc, true, ℕ, ◌∷◌,
}
use floatlab_core.Run.{Event, State, event_eq, state_eq}
use floatlab_core.Raft.{Fsm, StackStateChanged, apply_entry, fan_out}

pub record Stack : Type 0 where
  pub name : String
  pub primary_node_id : String
  pub backup_node_id : String
  pub zfs_dataset : String
  pub compose_yaml : String

pub data Command : Type 0 where
  create_snapshot send_snapshot compose_down : Command
  add_service del_service add_address compose_up : String → Command

-- The effects of a sequence on one stack.
pub data Call : Type 0 where
  get_stack query_service query_reservations render_compose check_context notify : Call
  check_destination set_active_node : String → Call
  begin_step : ℕ → String → Call
  end_step : ℕ → Bool → Call
  skip_step : ℕ → Call
  raft_apply : StackStateChanged → Call
  on_host : String → Command → Call

-- `Node.Apply` can run out of time for an entry that is committed later.
pub data ApplyOutcome : Type 0 where
  applied : ApplyOutcome
  in_doubt refused : String → ApplyOutcome

pub record Env : Type 0 where
  pub failure : ℕ → Call → Option String
  pub outcome : ℕ → ApplyOutcome
  pub stack : ℕ → Stack
  pub service : ℕ → Option String
  pub addresses : ℕ → List String
  pub compose : ℕ → String
  pub now : ℕ → ℕ

-- `active` holds the stacks of `Sequence.active`; `calls` what happened, the last call first, each
-- with its error.
pub record World : Type 0 where
  pub effects : ℕ
  pub active : Map {0, 0} String Unit
  pub fsm : Fsm
  pub calls : List (Call × Option String)

abbrev pub M : Type 0 → Type 0
M A = World → A × World

infixl 5 ◌>>=◌ ◌>>◌
abbrev pub ◌>>=◌ : {A B : Type 0} → M A → (A → M B) → M B
◌>>=◌ m f w = let (a, w') = m w in f a w'

abbrev pub ◌>>◌ : {A B : Type 0} → M A → M B → M B
m >> k = m >>= λ _. k

abbrev pub pure : {A : Type 0} → A → M A
pure a w = (a, w)

-- The result of an operation is its error.
abbrev pub Outcome : Type 0
Outcome = Option String

-- The next command, unless the one before failed.
infixr 4 ◌then_run◌
unfoldable pub ◌then_run◌ : M Outcome → M Outcome → M Outcome
m then_run k = do e ← m; elim e [ some x ↦ pure (some x) | none ↦ k ]

module _ (env : Env) where
  -- A call that answers with an error or nil.
  unfoldable pub call : Call → M Outcome
  call c w =
      let e = env.failure w.effects c in
      (e, record w { effects = suc w.effects; calls = (c, e) ∷ w.calls })

  -- A call whose answer is read by the number of its effect.
  unfoldable pub ask : {A : Type 0} → Call → (ℕ → A) → M (Outcome × A)
  ask c answer w =
      let e = env.failure w.effects c in
      ((e, answer w.effects), record w { effects = suc w.effects; calls = (c, e) ∷ w.calls })

  -- `s.raft.Apply` of an entry of the stack, at the time of the call.
  unfoldable pub raft : String → State → State → Event → M Outcome
  unfolding apply_entry fan_out
  raft id from to ev w =
      let entry : StackStateChanged = record {
        stack_id = id;
        from = from;
        to = to;
        event = ev;
        timestamp = env.now w.effects;
        node_id = "";
      } in
      elim (env.outcome w.effects) [
        | applied ↦ (
          none,
          record w {
            effects = suc w.effects;
            fsm = apply_entry entry w.fsm;
            calls = (raft_apply entry, none) ∷ w.calls;
          },
        )
        | in_doubt e ↦ (
          some e,
          record w {
            effects = suc w.effects;
            fsm = apply_entry entry w.fsm;
            calls = (raft_apply entry, some e) ∷ w.calls;
          },
        )
        | refused e ↦ (
          some e,
          record w { effects = suc w.effects; calls = (raft_apply entry, some e) ∷ w.calls },
        )
      ]

-- `Sequence.Abort`: whether a sequence of the stack is active; the end of its context is then what
-- the calls of the sequence answer.
unfoldable pub abort : String → World → Bool
abort id w = elim (lookup id w.active) [ none ↦ false | some _ ↦ true ]
