-- ===== src/ManagementUpdate/Safety.antt =====
-- What `rollback` of internal/managementupdate/manager.go keeps.
use floatlab_core.Base.{
  Option, String, ap, arith, false, nat_eq, none, refl, some, string_eq, true, ◌∙◌, ◌≡◌,
}
use floatlab_core.ManagementUpdate.{
  Env, M, Op, Phase, Status, World, authorizing_previous, do_authorize, do_healthy, do_restore,
  pure, recovering, recovery_failed, restoring, rolled_back, rolled_back_phase, save, step,
  verifying_previous, ◌>>=◌,
}
use floatlab_core.ManagementUpdate.Transaction.{recovery_failed_by, rollback, save_quietly}
use floatlab_core.ManagementUpdate.Trace.{
  Inv, is_verified, save-Inv, step-Inv, step-Stepped, step-status,
}
use floatlab_core.ManagementUpdate.Rules.{on_failure}

module _ (env : Env) where
  pub step_unauthorized :
      (s : Status) (phase : Phase) (op : Op) (w : World)
      → s.authorized ≡ false
      → (step env s phase op w).0.1.authorized ≡ false
  step_unauthorized s phase op w h = ap (λ t. t.authorized) (step-status env s phase op w) ∙ h

  -- A write of a status that is not authorized.
  pub unauthorized-Inv :
      (s : Status) (w : World) → Inv w → s.authorized ≡ false → Inv (save env s w).1
  unauthorized-Inv s w i h = save-Inv env s w i (rw h)

  -- An authorization over verified containers, and what `f` makes of the status after it.
  pub authorize_step :
      (phase : Phase) (s : Status) (w : World)
      → Inv w
      → is_verified w.events ≡ true
      → Inv (step env (record s { authorized = true }) phase do_authorize w).1
        × ((step env (record s { authorized = true }) phase do_authorize w).0.0 ≡ none
            → is_verified (step env (record s { authorized = true }) phase do_authorize w).1.events
              ≡ true)
  authorize_step phase s w i v =
      let s' = record s { authorized = true } in
      (
        step-Inv env s' phase do_authorize w i v v refl,
        λ n. (step-Stepped env s' phase do_authorize w n).kept refl ∙ v,
      )

  -- A write over verified containers.
  pub verified-Inv :
      (s : Status) (w : World) → Inv w → is_verified w.events ≡ true → Inv (save env s w).1
  verified-Inv s w i v = save-Inv env s w i (ground (arith, v))

  -- The end of a rollback.
  abbrev reauthorization : Status → M (Option String × Status)
  reauthorization s = do
    (authorized, s₃) ← step env (record s { authorized = true }) authorizing_previous do_authorize
    elim authorized [
      | some e ↦ pure (some e, s₃)
      | none ↦
          save env
            (record s₃ { state = rolled_back; phase = rolled_back_phase; rollback_error = "" })
    ]

  reauthorization-Inv :
      (s : Status) (w : World) → Inv w → is_verified w.events ≡ true → Inv (reauthorization s w).1
  reauthorization-Inv s w i v =
      let a = step env (record s { authorized = true }) authorizing_previous do_authorize w in
      let (i', keep) = authorize_step authorizing_previous s w i v in
      on_failure (λ r. Inv r.1) a.0.0 _ _ a.1 (λ e q. i') (λ n. verified-Inv _ a.1 i' (keep n))

  -- A rollback keeps the invariant from wherever it starts.
  pub rollback-Inv : (s : Status) (w : World) → Inv w → Inv (rollback env s w).1
  unfolding rollback save_quietly recovery_failed_by
  rollback-Inv s w i =
      let s₀ = record s { state = recovering; authorized = false } in
      let restored = step env s₀ restoring do_restore w in
      let s₁ = restored.0.1 in
      let w₁ = restored.1 in
      let i₁ : Inv w₁ = step-Inv env s₀ restoring do_restore w i refl tt refl in
      let u₁ : s₁.authorized ≡ false = step_unauthorized s₀ restoring do_restore w refl in
      let checked = step env s₁ verifying_previous do_healthy w₁ in
      let s₂ = checked.0.1 in
      let w₂ = checked.1 in
      let i₂ : Inv w₂ = step-Inv env s₁ verifying_previous do_healthy w₁ i₁ (rw u₁) tt (rw u₁) in
      let u₂ : s₂.authorized ≡ false = step_unauthorized s₁ verifying_previous do_healthy w₁ u₁ in
      on_failure (λ r. Inv r.1) restored.0.0 _ _ w₁
        (λ e q.
          unauthorized-Inv (record s₁ { state = recovery_failed; rollback_error = e }) w₁ i₁ u₁)
        (λ n₁.
          on_failure (λ r. Inv r.1) checked.0.0 _ _ w₂
            (λ e q.
              unauthorized-Inv (record s₂ { state = recovery_failed; rollback_error = e }) w₂ i₂ u₂)
            (λ n₂.
              reauthorization-Inv s₂ w₂ i₂
                ((step-Stepped env s₁ verifying_previous do_healthy w₁ n₂).healthy refl)))
