-- ===== src/ManagementUpdate/Transaction.antt =====
-- `execute` and `rollback` of internal/managementupdate/manager.go.
use floatlab_core.Base.{
  Bool, List, Option, String, [], concat, false, if◌then◌else◌, nat_eq, none, some, string_eq, true,
  ◌&&◌, ◌∷◌,
}
use floatlab_core.ManagementUpdate.{
  Env, M, Op, Phase, Status, authorizing_previous, call, checking, do_authorize, do_cleanup,
  do_fence, do_healthy, do_install, do_preflight, do_prepare, do_restore, do_snapshot, failed,
  fencing, installing, preflight, prepare, pure, recovering, recovery_failed, restoring,
  rolled_back, rolled_back_phase, save, step, taking_snapshot, verifying_previous, ◌>>=◌,
}

abbrev pub message : Option String → String
message none = ""
message (some e) = e

-- Whether a phase comes before any change to production.
abbrev pub is_before_production : Phase → Bool
is_before_production prepare = true
is_before_production preflight = true
is_before_production _ = false

abbrev pub is_preflight : Phase → Bool
is_preflight preflight = true
is_preflight _ = false

-- What a round of the loop sets before its step.
abbrev pub enter : Phase → Status → Status
enter taking_snapshot s = record s { snapshot = concat "floatlab-update-" s.operation_id }
enter installing s = record s { production_changed = true }
enter _ s = s

module _ (env : Env) where
  -- `_ = m.save(s)`
  unfoldable pub save_quietly : Status → M Status
  save_quietly s = do (_, s') ← save env s; pure s'

  unfoldable pub recovery_failed_by : Option String → Status → M Status
  unfolding save_quietly
  recovery_failed_by e s =
      save_quietly (record s { state = recovery_failed; rollback_error = message e })

  -- `Manager.rollback`
  unfoldable pub rollback : Status → M (Option String × Status)
  rollback s = do
    (restored, s₁) ←
        step env (record s { state = recovering; authorized = false }) restoring do_restore
    elim restored [
      | some e ↦ do s₂ ← recovery_failed_by (some e) s₁; pure (some e, s₂)
      | none ↦ do
        (healthy, s₂) ← step env s₁ verifying_previous do_healthy
        elim healthy [
          | some e ↦ do s₃ ← recovery_failed_by (some e) s₂; pure (some e, s₃)
          | none ↦ do
            (authorized, s₃) ←
                step env (record s₂ { authorized = true }) authorizing_previous do_authorize
            elim authorized [
              | some e ↦ pure (some e, s₃)
              | none ↦ save env (record s₃ {
                state = rolled_back;
                phase = rolled_back_phase;
                rollback_error = "";
              })
            ]
        ]
    ]

  -- What ends the loop early: the transaction, failed or rolled back.
  unfoldable pub stop_by : Option String → Status → M Status
  unfolding save_quietly
  stop_by e s₀ =
      let s = record s₀ { error = message e } in
      if is_before_production s.phase
      then (do (_, s') ← call env do_cleanup (record s { state = failed }); save_quietly s')
      else (do (_, s') ← rollback s; pure s')

  -- One round of the loop of `execute`; the result says whether the loop is left.
  unfoldable pub round : Phase × Op → Status → M (Bool × Status)
  unfolding stop_by save_quietly
  round (phase, op) s = if is_preflight phase && s.skip_dry_run then pure (false, s) else (do
    (err, s₁) ← step env (enter phase s) phase op
    elim err [
      | some e ↦ do s₂ ← stop_by (some e) s₁; pure (true, s₂)
      | none ↦
          if is_preflight phase
          then (do
            (clean, s₂) ← call env do_cleanup s₁
            elim clean [
              | none ↦ pure (false, s₂)
              | some e ↦ do
                s₃ ←
                    save_quietly (record s₂ {
                      error = concat "preflight resource cleanup: " e;
                      state = failed;
                    })
                pure (true, s₃)
            ])
          else pure (false, s₁)
    ])

  unfoldable pub rounds : List (Phase × Op) → Status → M (Bool × Status)
  unfolding round
  rounds [] s = pure (false, s)
  rounds (r ∷ rs) s = do
    (stopped, s') ← round r s
    elim stopped [ true ↦ pure (true, s') | false ↦ rounds rs s' ]

abbrev pub steps : List (Phase × Op)
steps =
    (prepare, do_prepare)
    ∷ (preflight, do_preflight)
    ∷ (fencing, do_fence)
    ∷ (taking_snapshot, do_snapshot)
    ∷ (installing, do_install)
    ∷ (checking, do_healthy)
    ∷ []
