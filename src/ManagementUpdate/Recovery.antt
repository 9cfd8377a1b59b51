-- ===== src/ManagementUpdate/Recovery.antt =====
-- `Recover`, `Rollback` and `Cleanup` of internal/managementupdate/manager.go.
use floatlab_core.Base.{Option, String, if◌then◌else◌, nat_eq, none, not, some, string_eq, ◌==◌}
use floatlab_core.ManagementUpdate.{
  Env, M, Status, call, cleaned, committed, do_authorize, do_cleanup, failed, is_terminal, pure,
  rolled_back, rolled_back_phase, save, succeeded, ◌>>=◌,
}
use floatlab_core.ManagementUpdate.Requests.{
  Host, Result, ask, err, is_cleaning, is_recovering, ok, read_status, state_after_cleaning,
}
use floatlab_core.ManagementUpdate.Transaction.{is_before_production, rollback}
use floatlab_core.ManagementUpdate.History.{prune_history}

module _ (env : Env) (host : Host) where
  -- The end of `Recover` where the status is authorized: only the authorization is repeated.
  unfoldable pub reauthorize : Status → M (Option String)
  reauthorize s = do
    (failure, s₁) ← call env do_authorize s
    elim failure [
      | some e ↦ pure (some e)
      | none ↦ do
        (saved, _) ← save env (
            if is_recovering s₁.state
            then record s₁ { state = rolled_back; phase = rolled_back_phase; rollback_error = "" }
            else record s₁ { state = succeeded; phase = committed })
        pure saved
    ]

  -- `Recover` where a cleanup was interrupted; it works on a copy with no snapshot.
  unfoldable pub finish_cleaning : Status → M (Option String)
  finish_cleaning s = do
    (failure, _) ← call env do_cleanup (record s { snapshot = "" })
    elim failure [
      | some e ↦ pure (some e)
      | none ↦ do
        (saved, _) ← save env (record s { state = state_after_cleaning s; phase = cleaned })
        pure saved
    ]

  -- `Recover` where nothing of production was changed.
  unfoldable pub abandon : Status → M (Option String)
  abandon s = do
    (failure, s₁) ←
        call env do_cleanup
          (record s { state = failed; error = "interrupted before production changes" })
    elim failure [ some e ↦ pure (some e) | none ↦ do (saved, _) ← save env s₁; pure saved ]

  -- `Recover` after it has read the status.
  unfoldable pub recover_status : Status → M (Option String)
  unfolding reauthorize finish_cleaning abandon
  recover_status s =
      if is_terminal s.state
      then pure none
      else if is_cleaning s.phase
      then finish_cleaning s
      else if s.authorized
      then reauthorize s
      else if is_before_production s.phase
      then abandon s
      else (do (failure, _) ← rollback env s; pure failure)

  -- `Manager.Recover`
  unfoldable pub recover : M (Option String)
  unfolding ask read_status recover_status
  recover = do
    locked ← ask host.lock
    elim locked [
      | some e ↦ pure (some e)
      | none ↦ do
        current ← read_status host ""
        elim current [ err e ↦ pure (some e) | ok s ↦ recover_status s ]
    ]

  -- `Manager.Rollback`, where no goroutine of the manager runs.
  unfoldable pub request_rollback_now : String → M (Result Status)
  unfolding ask read_status
  request_rollback_now id w =
      if w.running
      then (err "transaction active", w)
      else (do
        locked ← ask host.lock
        elim locked [
          | some e ↦ pure (err e)
          | none ↦ do
            current ← read_status host id
            elim current [
              | err e ↦ pure (err e)
              | ok s ↦
                  if s.snapshot == "" then pure (err "no retained rollback checkpoint") else (do
                    (failure, s₁) ← rollback env s
                    pure (elim failure [ none ↦ ok s₁ | some e ↦ err e ]))
            ]
        ])
          w

  -- `Manager.Cleanup`
  unfoldable pub cleanup : String → M (Result Status)
  unfolding ask read_status prune_history
  cleanup id = do
    locked ← ask host.lock
    elim locked [
      | some e ↦ pure (err e)
      | none ↦ do
        current ← read_status host id
        elim current [
          | err e ↦ pure (err e)
          | ok s ↦
              if not (is_terminal s.state)
              then pure (err "cannot clean up a pending transaction")
              else (do
                (failure, _) ← call env do_cleanup (record s { snapshot = "" })
                elim failure [
                  | some e ↦ pure (err e)
                  | none ↦ do
                    pruned ← prune_history env host
                    elim pruned [
                      | some e ↦ pure (err e)
                      | none ↦ do
                        (saved, s₁) ← save env s
                        pure (elim saved [ none ↦ ok s₁ | some e ↦ err e ])
                    ]
                ])
        ]
    ]
