-- ===== src/ManagementUpdate/Accepted.antt =====
-- What `Start` of internal/managementupdate/manager.go keeps, and the goroutine that it starts.
use floatlab_core.Base.{
  Option, String, ap, false, if◌then◌else◌, lookup, nat_eq, none, not, refl, some, some-inj,
  string_eq, suc, sym, ◌==◌, ◌||◌, ◌∙◌, ◌≡◌,
}
use floatlab_core.ManagementUpdate.{Env, M, Status, World, is_terminal, pure, save}
use floatlab_core.ManagementUpdate.Trace.{Inv, save-Saved}
use floatlab_core.ManagementUpdate.Rules.{on_failure, on_option, on_pair, on_result, on_test}
use floatlab_core.ManagementUpdate.Safety.{unauthorized-Inv}
use floatlab_core.ManagementUpdate.Requests.{
  Host, Request, Result, host_available, json_name, read_status,
}
use floatlab_core.ManagementUpdate.History.{write_history}
use floatlab_core.ManagementUpdate.Execute.{run_started}
use floatlab_core.ManagementUpdate.Start.{begin, is_invalid, new_status, start}
use floatlab_core.ManagementUpdate.Checkpoints.{execute-Inv, ticked-Inv, write_history-Pruned}

module _ (env : Env) (host : Host) where
  -- What a request leaves: the invariant, and for the goroutine a status that is not authorized.
  abbrev pub Accepted : (Result Status × Option Status) × World → Type 0
  Accepted r = Inv r.1 × ((s : Status) → r.0.1 ≡ some s → s.authorized ≡ false)

  no_run : (s : Status) → none ≡ some s → s.authorized ≡ false
  no_run s e = cc

  abbrev archive : Status → M (Option String)
  archive old =
      if old.operation_id == ""
      then pure none
      else write_history env (json_name old.operation_id) old

  archive-Inv : (old : Status) (w : World) → Inv w → Inv (archive old w).1
  archive-Inv old w i =
      on_test (λ x. Inv x.1) (old.operation_id == "") _ _ w (λ t. i)
        (λ f. (write_history-Pruned env (json_name old.operation_id) old w i).0)

  saved_unauthorized :
      (s : Status) (w : World) → s.authorized ≡ false → (save env s w).0.1.authorized ≡ false
  saved_unauthorized s w u = ap (λ t. t.authorized) (save-Saved env s w).status ∙ u

  pub begin-Accepted :
      (old : Status) (r : Request) (w : World) → Inv w → Accepted (begin env host old r w)
  unfolding begin host_available
  begin-Accepted old r w i =
      let w₁ = record w { effects = suc w.effects } in
      let w₂ = record w { effects = suc (suc w.effects) } in
      let i₂ = ticked-Inv w w₂.effects i in
      on_pair Accepted (w.running || not (is_terminal old.state)) _ _ (λ t. (i, no_run))
        (λ f.
          on_failure Accepted (host.lock w.effects) _ _ w₁
            (λ e q. (ticked-Inv w w₁.effects i, no_run))
            (λ n.
              on_failure Accepted (host_available host w₁).0 _ _ w₂ (λ e q. (i₂, no_run))
                (λ n.
                  let a = archive old w₂ in
                  let ia : Inv a.1 = archive-Inv old w₂ i₂ in
                  on_failure Accepted a.0 _ _ a.1 (λ e q. (ia, no_run))
                    (λ n.
                      let w₃ = record a.1 { effects = suc a.1.effects } in
                      let new = new_status env host r (env.now a.1.effects) in
                      let b = save env new w₃ in
                      let ib : Inv b.1 =
                        unauthorized-Inv env new w₃ (ticked-Inv a.1 w₃.effects ia) refl in
                      on_failure Accepted b.0.0 _ _ b.1 (λ e q. (ib, no_run))
                        (λ n. (
                          record { on_disk = ib.on_disk; safe = ib.safe },
                          λ s e.
                              ap (λ t. t.authorized) (sym (some-inj e))
                              ∙ saved_unauthorized new w₃ refl,
                        ))))))

  -- A new request leaves a status that is not authorized; a repeated one starts nothing.
  pub start-Accepted : (r : Request) (w : World) → Inv w → Accepted (start env host r w)
  unfolding start
  start-Accepted r w i =
      let w₁ = record w { effects = suc w.effects } in
      let w₂ = record w { effects = suc (suc w.effects) } in
      let i₁ = ticked-Inv w w₁.effects i in
      let i₂ = ticked-Inv w w₂.effects i in
      on_test Accepted (is_invalid host r) _ _ w (λ t. (i, no_run))
        (λ f.
          on_test Accepted (not (host.valid_upstream r.upstream)) _ _ w (λ t. (i, no_run))
            (λ f.
              on_result Accepted (read_status host "" w).0 _ _ w₁
                (λ old e.
                  on_test Accepted (old.operation_id == r.operation_id) _ _ w₁ (λ t. (i₁, no_run))
                    (λ f.
                      on_option Accepted (host.read w₁.effects) _ _ (λ e q. (i₂, no_run))
                        (λ n.
                          on_option Accepted (lookup (json_name r.operation_id) w.history) _ _
                            (λ previous q. (i₂, no_run)) (λ n. begin-Accepted old r w₂ i₂))))
                (λ e q. (i₁, no_run))))

  -- The goroutine of `Start` keeps the invariant.
  pub run_started-Inv :
      (s : Status) (w : World) → Inv w → s.authorized ≡ false → Inv (run_started env host s w).1
  unfolding run_started
  run_started-Inv s w i u =
      let i' = execute-Inv env host s w i u in record { on_disk = i'.on_disk; safe = i'.safe }
