-- ===== src/ManagementUpdate/Taken.antt =====
-- What the requested actions of internal/managementupdate/manager.go keep, and their goroutines.
use floatlab_core.Base.{
  Option, String, ap, arith, nat_eq, none, not, refl, some, some-inj, string_eq, suc, sym, true,
  ◌&&◌, ◌==◌, ◌||◌, ◌∙◌, ◌≡◌,
}
use floatlab_core.ManagementUpdate.{Env, Status, World, call, do_cleanup, is_terminal, save}
use floatlab_core.ManagementUpdate.Transaction.{save_quietly}
use floatlab_core.ManagementUpdate.Trace.{Inv, call-Called, is_verified, save-Inv, save-Saved}
use floatlab_core.ManagementUpdate.Rules.{on_failure, on_pair, on_result, on_test}
use floatlab_core.ManagementUpdate.Safety.{rollback-Inv}
use floatlab_core.ManagementUpdate.Rounds.{cleanup-Inv}
use floatlab_core.ManagementUpdate.Requests.{
  Host, Request, Result, host_available, is_succeeded, read_status,
}
use floatlab_core.ManagementUpdate.Actions.{
  Action, after_cleanup, begin_action, cleaned_status, cleanup_action, is_invalid_action,
  is_repeated, is_rollback, mark_action, request_action, rollback_action, run_action, run_cleanup,
}
use floatlab_core.ManagementUpdate.Checkpoints.{prune_history-Pruned, ticked-Inv}
use floatlab_core.ManagementUpdate.Operations.{read_status-verified}

module _ (env : Env) (host : Host) where
  abbrev pub IsTrusted : Status → World → Type 0
  IsTrusted s w = s.authorized ≡ true → is_verified w.events ≡ true

  -- What a requested action leaves: an authorized status is one of verified containers.
  abbrev pub Taken : (Result Status × Option Status) × World → Type 0
  Taken r = Inv r.1 × ((s : Status) → r.0.1 ≡ some s → IsTrusted s r.1)

  untaken : (w : World) (s : Status) → none ≡ some s → IsTrusted s w
  untaken w s e = cc

  mark_action-IsTrusted :
      (action : Action) (key : String) (s : Status) (w : World)
      → IsTrusted s w
      → IsTrusted (mark_action action key s) w
  unfolding mark_action
  mark_action-IsTrusted rollback_action key s w t = λ e. cc
  mark_action-IsTrusted cleanup_action key s w t = t

  trusted-Inv : (s : Status) (w : World) → Inv w → IsTrusted s w → Inv (save env s w).1
  trusted-Inv s w i t = save-Inv env s w i (ground (arith, t))

  begin_action-Taken :
      (s : Status) (r : Request) (action : Action) (w : World)
      → Inv w
      → IsTrusted s w
      → Taken (begin_action env host s r action w)
  unfolding begin_action host_available
  begin_action-Taken s r action w i t =
      let w₁ = record w { effects = suc w.effects } in
      let w₂ = record w { effects = suc (suc w.effects) } in
      let i₂ = ticked-Inv w w₂.effects i in
      let m = mark_action action r.idempotency_key s in
      let tm : IsTrusted m w₂ = mark_action-IsTrusted action r.idempotency_key s w t in
      let b = save env m w₂ in
      let ib : Inv b.1 = trusted-Inv m w₂ i₂ tm in
      on_failure Taken (host_available host w).0 _ _ w₁
        (λ e q. (ticked-Inv w w₁.effects i, untaken w₁))
        (λ n.
          on_failure Taken (host.lock w₁.effects) _ _ w₂ (λ e q. (i₂, untaken w₂))
            (λ n.
              on_test Taken (is_rollback action && s.snapshot == "") _ _ w₂ (λ t. (i₂, untaken w₂))
                (λ f.
                  on_failure Taken b.0.0 _ _ b.1 (λ e q. (ib, untaken b.1))
                    (λ n. (
                      record { on_disk = ib.on_disk; safe = ib.safe },
                      λ s' e a.
                          (save-Saved env m w₂).verified
                          ∙ tm (
                              sym (ap (λ x. x.authorized) (save-Saved env m w₂).status)
                              ∙ (ap (λ x. x.authorized) (some-inj e) ∙ a)),
                    )))))

  pub request_action-Taken :
      (r : Request) (action : Action) (w : World)
      → Inv w
      → Taken (request_action env host r action w)
  unfolding request_action
  request_action-Taken r action w i =
      let w₁ = record w { effects = suc w.effects } in
      let i₁ = ticked-Inv w w₁.effects i in
      on_test Taken (is_invalid_action r) _ _ w (λ t. (i, untaken w))
        (λ f.
          on_result Taken (read_status host r.operation_id w).0 _ _ w₁
            (λ s e.
              on_test Taken (is_repeated action r s) _ _ w₁ (λ t. (i₁, untaken w₁))
                (λ f.
                  on_pair Taken (w.running || not (is_terminal s.state)) _ _ (λ t. (i₁, untaken w₁))
                    (λ f.
                      begin_action-Taken s r action w₁ i₁
                        (read_status-verified env host r.operation_id w i e))))
            (λ e q. (i₁, untaken w₁)))

  cleaned_status-authorized :
      (o : Option String) (s : Status) → (cleaned_status o s).authorized ≡ s.authorized
  unfolding cleaned_status
  cleaned_status-authorized none s = refl
  cleaned_status-authorized (some e) s = refl

  after_cleanup-Inv : (s : Status) (w : World) → Inv w → Inv (after_cleanup env host s w).1
  unfolding after_cleanup
  after_cleanup-Inv s w i =
      on_test (λ x. Inv x.1) (is_succeeded s.state) _ _ w
        (λ t. (prune_history-Pruned env host w i).0) (λ f. i)

  run_cleanup-Inv :
      (s : Status) (w : World) → Inv w → IsTrusted s w → Inv (run_cleanup env host s w).1
  unfolding run_cleanup save_quietly
  run_cleanup-Inv s w i t =
      let c = call env do_cleanup (record s { snapshot = "" }) w in
      let vc = (call-Called env do_cleanup (record s { snapshot = "" }) w).kept refl in
      let s₁ = cleaned_status c.0.0 s in
      let b = save env s₁ c.1 in
      let ib : Inv b.1 =
        trusted-Inv s₁ c.1 (cleanup-Inv env _ w i)
          (λ a. vc ∙ t (sym (cleaned_status-authorized c.0.0 s) ∙ a)) in
      after_cleanup-Inv b.0.1 b.1 ib

  pub run_action-Inv :
      (action : Action) (s : Status) (w : World)
      → Inv w
      → IsTrusted s w
      → Inv (run_action env host action s w).1
  unfolding run_action
  run_action-Inv rollback_action s w i t =
      let i' = rollback-Inv env s w i in record { on_disk = i'.on_disk; safe = i'.safe }
  run_action-Inv cleanup_action s w i t =
      let i' = run_cleanup-Inv s w i t in record { on_disk = i'.on_disk; safe = i'.safe }
