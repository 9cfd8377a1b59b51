-- ===== src/ManagementUpdate/Execute.antt =====
-- `execute` of internal/managementupdate/manager.go and the goroutine of `Start` that calls it.
use floatlab_core.Base.{concat, false, nat_eq, none, some, string_eq, true}
use floatlab_core.ManagementUpdate.{
  Env, M, Status, authorizing, committed, do_authorize, pure, step, succeeded, ◌>>=◌,
}
use floatlab_core.ManagementUpdate.Requests.{Host}
use floatlab_core.ManagementUpdate.Transaction.{rollback, rounds, save_quietly, steps}
use floatlab_core.ManagementUpdate.History.{prune_history}

module _ (env : Env) (host : Host) where
  -- The end of `execute`, once the authorization has succeeded.
  unfoldable pub commit : Status → M Status
  unfolding prune_history save_quietly
  commit s₂ = do
    s₃ ← save_quietly env (record s₂ { state = succeeded; phase = committed })
    pruned ← prune_history env host
    elim pruned [
      | none ↦ pure s₃
      | some e ↦
          save_quietly env
            (record s₃ { error = concat "committed; previous resource cleanup pending: " e })
    ]

  -- `Manager.execute`
  unfoldable pub execute : Status → M Status
  unfolding rounds commit rollback
  execute s = do
    (stopped, s₁) ← rounds env steps s
    elim stopped [
      | true ↦ pure s₁
      | false ↦ do
        (failure, s₂) ← step env (record s₁ { authorized = true }) authorizing do_authorize
        elim failure [
          | some e ↦ do (_, s₃) ← rollback env (record s₂ { error = e }); pure s₃
          | none ↦ commit s₂
        ]
    ]

  -- The goroutine of `Start`.
  unfoldable pub run_started : Status → M Status
  unfolding execute
  run_started s = do s' ← execute s; λ w. (s', record w { running = false })
