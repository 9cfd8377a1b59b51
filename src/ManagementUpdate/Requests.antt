-- ===== src/ManagementUpdate/Requests.antt =====
-- Requests, and what the operations of `Manager` read from the system
-- (internal/managementupdate/manager.go and internal/update/source.go).
use floatlab_core.Base.{
  Bool, Option, String, [], codes, concat, false, if◌then◌else◌, is_alnum, is_name, nat_eq, none,
  not, some, string_eq, suc, true, ℕ, ◌&&◌, ◌==◌, ◌||◌,
}
use floatlab_core.ManagementUpdate.{
  Captured, M, Phase, State, Status, cleaning, idle_phase, pure, recovering, succeeded, ◌>>=◌,
}

pub data Result (A : Type 0) : Type 0 where
  ok : A → Result A
  err : String → Result A

pub record Request : Type 0 where
  pub upstream : String
  pub skip_dry_run : Bool
  pub operation_id : String
  pub release : String
  pub actor : String
  pub idempotency_key : String

-- host.json, as `hostAvailable` finds it.
pub data HostFile : Type 0 where
  absent : HostFile
  unreadable : String → HostFile
  host_state : String → HostFile

-- What the operations ask of the system beside `Env`: whether `update.Acquire` gets the lock, whether
-- a read of a file fails, what host.json holds, and whether a text is a release of the management
-- (a check of `pkg/release` that rests on a third-party parser) or an upstream repository.
pub record Host : Type 0 where
  pub lock : ℕ → Option String
  pub read : ℕ → Option String
  pub host_file : ℕ → HostFile
  pub valid_release : String → Bool
  pub valid_upstream : String → Bool

-- The regular expression `operationID`.
unfoldable pub valid_operation_id : String → Bool
valid_operation_id s = is_name is_alnum (λ c. is_alnum c || (c == b'_' || c == b'-')) 63 (codes s)

-- `update.Repository`
unfoldable pub repository : String → String
repository upstream = if upstream == "" then "floatlab-hq/floatlab-core" else upstream

abbrev pub empty_captured : Captured
empty_captured = record {
  source_release = "";
  manifest_images = [];
  previous_compose = "";
  candidate_compose = "";
  datasets = [];
  policies = [];
}

-- `Status{State: "idle", Phase: "idle"}`
abbrev pub idle_status : Status
idle_status = record {
  upstream = "";
  skip_dry_run = false;
  operation_id = "";
  actor = "";
  phase = idle_phase;
  state = State.idle;
  target_release = "";
  error = "";
  rollback_error = "";
  started_at = 0;
  updated_at = 0;
  captured = empty_captured;
  snapshot = "";
  authorized = false;
  action_keys = [];
  production_changed = false;
  cleanup_state = none;
}

abbrev pub is_succeeded : State → Bool
is_succeeded succeeded = true
is_succeeded _ = false

abbrev pub is_recovering : State → Bool
is_recovering recovering = true
is_recovering _ = false

abbrev pub is_cleaning : Phase → Bool
is_cleaning cleaning = true
is_cleaning _ = false

-- `s.State = s.CleanupState`, or succeeded where that is empty.
abbrev pub state_after_cleaning : Status → State
state_after_cleaning s = elim s.cleanup_state [ some t ↦ t | none ↦ succeeded ]

-- Whether a request repeats the one that a status is of.
abbrev pub same_request : Status → Request → Bool
same_request s r =
    s.target_release == r.release
    && (repository s.upstream == repository r.upstream && bool_eq s.skip_dry_run r.skip_dry_run)
  where
    bool_eq : Bool → Bool → Bool
    bool_eq true b = b
    bool_eq false b = not b

abbrev pub json_name : String → String
json_name id = concat id ".json"

-- An effect that changes nothing here: the number of effects goes on.
unfoldable pub ask : {A : Type 0} → (ℕ → A) → M A
ask f w = (f w.effects, record w { effects = suc w.effects })

module _ (host : Host) where
  -- `Manager.read`
  unfoldable pub read_status : String → M (Result Status)
  unfolding ask
  read_status id = do
    failure ← ask host.read
    λ w. (
      elim failure [
        | some e ↦ err e
        | none ↦ elim w.disk [
          | none ↦ if id == "" then ok idle_status else err "operation not found"
          | some s ↦
              if not (id == "") && not (s.operation_id == id)
              then err "operation not found"
              else ok s
        ]
      ],
      w,
    )

  -- `Manager.hostAvailable`
  unfoldable pub host_available : M (Option String)
  unfolding ask
  host_available = do
    file ← ask host.host_file
    pure (elim file [
      | absent ↦ none
      | unreadable e ↦ some e
      | host_state s ↦
          if s == "" || (s == "committed" || (s == "recovered" || s == "failed"))
          then none
          else some (concat "host update " (concat s " blocks management updates"))
    ])
