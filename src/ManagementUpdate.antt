-- ===== src/ManagementUpdate.antt =====
-- The offline upgrade transaction of the management stack
-- (internal/managementupdate/manager.go): the status, the effects of a transaction and `step`.
-- `Manager.Backend` is an interface: each of its methods gets the status, answers with an error or
-- nil, and may rewrite the captured part of the status. The disk answers each write. What they
-- answer, and the clock, is the parameter `Env`, by the number of the effect, so that a theorem over
-- `Env` is one over every behaviour of the system below. A Go error is its text, nil is `none`.
pub mod Transaction
pub mod Requests
pub mod History
pub mod Execute
pub mod Recovery
pub mod Start
pub mod Actions
pub mod Trace
pub mod Rules
pub mod Safety
pub mod Rounds
pub mod Checkpoints
pub mod Operations
pub mod Accepted
pub mod Taken
pub mod Reach
pub mod Ended
use floatlab_core.Base.{
  Bool, List, Map, Option, String, false, nat_eq, none, some, string_eq, suc, true, ℕ, ◌∷◌,
}

-- The values of `Status.State` and of `Status.CleanupState`, which can be empty.
pub data State : Type 0 where
  idle running succeeded failed rolled_back recovering recovery_failed : State

-- The values of `Status.Phase`.
pub data Phase : Type 0 where
  idle_phase prepare preflight fencing taking_snapshot installing checking authorizing : Phase
  committed restoring verifying_previous authorizing_previous rolled_back_phase : Phase
  cleaning cleaned : Phase

-- What the backend records in the status; of the manifest only the images are read here.
pub record Captured : Type 0 where
  pub source_release : String
  pub manifest_images : Map String String
  pub previous_compose : String
  pub candidate_compose : String
  pub datasets : List (String × String)
  pub policies : Map String String

pub record Status : Type 0 where
  pub upstream : String
  pub skip_dry_run : Bool
  pub operation_id : String
  pub actor : String
  pub phase : Phase
  pub state : State
  pub target_release : String
  pub error : String
  pub rollback_error : String
  pub started_at : ℕ
  pub updated_at : ℕ
  pub captured : Captured
  pub snapshot : String
  pub authorized : Bool
  pub action_keys : Map String String
  pub production_changed : Bool
  pub cleanup_state : Option State

-- The methods of `Backend`, and `Linux.releaseImages`.
pub data Op : Type 0 where
  do_prepare do_preflight do_fence do_snapshot do_install do_healthy do_restore do_authorize : Op
  do_cleanup do_release_images : Op

pub record Reply : Type 0 where
  pub failure : Option String
  pub captured : Captured

-- `update.WriteJSON` renames the new file into place and then flushes the directory, so that a
-- write that fails may have replaced the file or not.
pub data WriteOutcome : Type 0 where
  written : WriteOutcome
  torn lost : String → WriteOutcome

pub record Env : Type 0 where
  pub backend : ℕ → Op → Status → Reply
  pub write : ℕ → WriteOutcome
  pub now : ℕ → ℕ

-- What happened, the last event first: a call of the backend with its error, or a status that came
-- to stand in management.json.
pub data Event : Type 0 where
  called : Op → Option String → Event
  wrote : Status → Event

-- `disk` is management.json, `history` the files of management-history by their names. The events
-- are a record for the proofs.
pub record World : Type 0 where
  pub effects : ℕ
  pub disk : Option Status
  pub history : Map String Status
  pub running : Bool
  pub events : List Event

abbrev pub M : Type 0 → Type 0
M A = World → A × World

infixl 5 ◌>>=◌ ◌>>◌
abbrev pub ◌>>=◌ : {A B : Type 0} → M A → (A → M B) → M B
◌>>=◌ m f w = let (a, w') = m w in f a w'

abbrev pub ◌>>◌ : {A B : Type 0} → M A → M B → M B
m >> k = m >>= λ _. k

abbrev pub pure : {A : Type 0} → A → M A
pure a w = (a, w)

-- `terminal`
abbrev pub is_terminal : State → Bool
is_terminal idle = true
is_terminal succeeded = true
is_terminal failed = true
is_terminal rolled_back = true
is_terminal _ = false

module _ (env : Env) where
  -- `Manager.save`: the status gets the time even where the write fails.
  unfoldable pub save : Status → M (Option String × Status)
  save s w =
      let s' = record s { updated_at = env.now w.effects } in
      let w' = record w { effects = suc w.effects } in
      elim (env.write w.effects) [
        | written ↦ ((none, s'), record w' { disk = some s'; events = wrote s' ∷ w.events })
        | torn e ↦ ((some e, s'), record w' { disk = some s'; events = wrote s' ∷ w.events })
        | lost e ↦ ((some e, s'), w')
      ]

  -- A method of the backend.
  unfoldable pub call : Op → Status → M (Option String × Status)
  call op s w =
      let r = env.backend w.effects op s in
      (
        (r.failure, record s { captured = r.captured }),
        record w { effects = suc w.effects; events = called op r.failure ∷ w.events },
      )

  -- `Manager.step`
  unfoldable pub step : Status → Phase → Op → M (Option String × Status)
  step s phase op = do
    (saved, s₁) ← save (record s { phase = phase })
    elim saved [
      | some e ↦ pure (some e, s₁)
      | none ↦ do
        (err, s₂) ← call op s₁
        (save_err, s₃) ← save s₂
        pure (elim err [ some e ↦ some e | none ↦ save_err ], s₃)
    ]
