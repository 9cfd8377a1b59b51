-- ===== src/ManagementUpdate/Actions.antt =====
-- `requestAction` of internal/managementupdate/manager.go, and its goroutine.
use floatlab_core.Base.{
  Bool, Option, String, byte_length, false, if◌then◌else◌, insert, lookup, ltb, nat_eq, none, not,
  some, string_eq, true, ◌&&◌, ◌==◌, ◌||◌,
}
use floatlab_core.ManagementUpdate.{
  Env, M, Status, call, cleaned, cleaning, do_cleanup, failed, is_terminal, pure, restoring,
  running, save, ◌>>=◌,
}
use floatlab_core.ManagementUpdate.Requests.{
  Host, Request, Result, ask, err, host_available, is_succeeded, ok, read_status,
  state_after_cleaning, valid_operation_id,
}
use floatlab_core.ManagementUpdate.Transaction.{rollback, save_quietly}
use floatlab_core.ManagementUpdate.History.{prune_history}

-- The actions of `requestAction`.
pub data Action : Type 0 where
  rollback_action cleanup_action : Action

abbrev pub action_key : Action → String
action_key rollback_action = "rollback"
action_key cleanup_action = "cleanup"

-- What `requestAction` writes into the status before the goroutine takes over.
unfoldable pub mark_action : Action → String → Status → Status
mark_action rollback_action key s = record s {
  action_keys = insert "rollback" key s.action_keys;
  state = running;
  phase = restoring;
  authorized = false;
}
mark_action cleanup_action key s = record s {
  action_keys = insert "cleanup" key s.action_keys;
  cleanup_state = some s.state;
  state = running;
  phase = cleaning;
}

abbrev pub is_rollback : Action → Bool
is_rollback rollback_action = true
is_rollback cleanup_action = false

-- The status after the backend's cleanup.
unfoldable pub cleaned_status : Option String → Status → Status
cleaned_status (some e) s = record s { error = e; state = failed }
cleaned_status none s = record s { state = state_after_cleaning s; phase = cleaned }

-- The first guard of `requestAction`.
unfoldable pub is_invalid_action : Request → Bool
is_invalid_action r =
    not (valid_operation_id r.operation_id)
    || (byte_length r.idempotency_key == 0
        || (ltb 255 (byte_length r.idempotency_key) || r.actor == ""))

-- `s.ActionKeys[action] == r.IdempotencyKey`
unfoldable pub is_repeated : Action → Request → Status → Bool
is_repeated action r s = elim (lookup (action_key action) s.action_keys) [
  | none ↦ false
  | some k ↦ k == r.idempotency_key
]

module _ (env : Env) (host : Host) where
  -- `requestAction` once the status is known to be at rest.
  unfoldable pub begin_action : Status → Request → Action → M (Result Status × Option Status)
  unfolding ask host_available mark_action
  begin_action s r action = do
    blocked ← host_available host
    elim blocked [
      | some e ↦ pure (err e, none)
      | none ↦ do
        locked ← ask host.lock
        elim locked [
          | some e ↦ pure (err e, none)
          | none ↦
              if is_rollback action && s.snapshot == ""
              then pure (err "no retained rollback checkpoint", none)
              else (do
                (saved, s₁) ← save env (mark_action action r.idempotency_key s)
                elim saved [
                  | some e ↦ pure (err e, none)
                  | none ↦ λ w. ((ok s₁, some s₁), record w { running = true })
                ])
        ]
    ]

  -- `Manager.requestAction`, which `RequestRollback` and `RequestCleanup` call.
  unfoldable pub request_action : Request → Action → M (Result Status × Option Status)
  unfolding read_status begin_action is_invalid_action is_repeated
  request_action r action =
      if is_invalid_action r
      then pure (err "valid operation_id, idempotency_key and actor required", none)
      else (do
        current ← read_status host r.operation_id
        elim current [
          | err e ↦ pure (err e, none)
          | ok s ↦ if is_repeated action r s then pure (ok s, none) else λ w.
              if w.running || not (is_terminal s.state)
              then ((err "transaction active or recovery pending", none), w)
              else begin_action s r action w
        ])

  -- A cleanup that succeeded also prunes the history.
  unfoldable pub after_cleanup : Status → M Status
  unfolding prune_history
  after_cleanup s = if is_succeeded s.state then (do _ ← prune_history env host; pure s) else pure s

  -- The end of the goroutine of a requested cleanup.
  unfoldable pub run_cleanup : Status → M Status
  unfolding after_cleanup save_quietly cleaned_status
  run_cleanup s = do
    (failure, _) ← call env do_cleanup (record s { snapshot = "" })
    s₂ ← save_quietly env (cleaned_status failure s)
    after_cleanup s₂

  -- The goroutine of `requestAction`.
  unfoldable pub run_action : Action → Status → M Status
  unfolding rollback run_cleanup
  run_action action s = do
    s' ← (if is_rollback action then (do (_, s₁) ← rollback env s; pure s₁) else run_cleanup s)
    λ w. (s', record w { running = false })
