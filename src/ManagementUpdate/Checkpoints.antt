-- ===== src/ManagementUpdate/Checkpoints.antt =====
-- What every operation of internal/managementupdate/manager.go keeps, whatever fails below it and
-- wherever the process stops.
use floatlab_core.Base.{
  List, Option, String, [], arith, false, nat_eq, not, refl, string_eq, suc, true, ℕ, ◌==◌, ◌||◌,
  ◌∙◌, ◌∷◌, ◌≡◌,
}
use floatlab_core.ManagementUpdate.{
  Env, Status, World, authorizing, call, committed, do_authorize, do_cleanup, do_release_images,
  save, step, succeeded,
}
use floatlab_core.ManagementUpdate.Transaction.{rounds, save_quietly, steps}
use floatlab_core.ManagementUpdate.Trace.{Inv, call-Called, call-Inv, is_verified, save-Saved}
use floatlab_core.ManagementUpdate.Rules.{on_case, on_failure, on_result, on_test}
use floatlab_core.ManagementUpdate.Safety.{authorize_step, rollback-Inv, verified-Inv}
use floatlab_core.ManagementUpdate.Rounds.{cleanup-Inv, rounds-Looped}
use floatlab_core.ManagementUpdate.Requests.{
  Host, is_succeeded, json_name, read_status, valid_operation_id,
}
use floatlab_core.ManagementUpdate.History.{prune_file, prune_files, prune_history, write_history}
use floatlab_core.ManagementUpdate.Execute.{commit, execute}

module _ (env : Env) where
  -- Pruning keeps the invariant, and the containers as they are.
  abbrev pub Pruned : World → (Option String) × World → Type 0
  Pruned w r = Inv r.1 × (is_verified r.1.events ≡ is_verified w.events)

  pub write_history-Pruned :
      (name : String) (s : Status) (w : World) → Inv w → Pruned w (write_history env name s w)
  unfolding write_history
  write_history-Pruned name s w i = ground arith

  release-Inv : (s : Status) (w : World) → Inv w → Inv (call env do_release_images s w).1
  release-Inv s w i = call-Inv env do_release_images s w i tt (ground arith)

  prune_file-Pruned :
      (name : String) (s : Status) (w : World) → Inv w → Pruned w (prune_file env name s w)
  unfolding prune_file
  prune_file-Pruned name s w i =
      let c = call env do_cleanup s w in
      let ic : Inv c.1 = cleanup-Inv env s w i in
      let vc = (call-Called env do_cleanup s w).kept refl in
      let r = call env do_release_images c.0.1 c.1 in
      let ir : Inv r.1 = release-Inv c.0.1 c.1 ic in
      let vr = (call-Called env do_release_images c.0.1 c.1).kept refl in
      on_test (Pruned w)
        (not (valid_operation_id s.operation_id) || not (name == json_name s.operation_id)) _ _ w
        (λ t. (i, refl))
        (λ f.
          on_failure (Pruned w) c.0.0 _ _ c.1 (λ e q. (ic, vc))
            (λ n.
              on_failure (Pruned w) r.0.0 _ _ r.1 (λ e q. (ir, vr ∙ vc))
                (λ m. let (ih, vh) = write_history-Pruned name _ r.1 ir in (ih, vh ∙ (vr ∙ vc)))))

  prune_files-Pruned :
      (files : List (String × Status)) (w : World) → Inv w → Pruned w (prune_files env files w)
  unfolding prune_files
  prune_files-Pruned [] w i = (i, refl)
  prune_files-Pruned ((name, s) ∷ files) w i =
      let r = prune_file env name s w in
      let (i', v) = prune_file-Pruned name s w i in
      on_failure (Pruned w) r.0 _ _ r.1 (λ e q. (i', v))
        (λ n. let (i'', v') = prune_files-Pruned files r.1 i' in (i'', v' ∙ v))

-- An effect that changes nothing.
pub ticked-Inv : (w : World) (n : ℕ) → Inv w → Inv (record w { effects = n })
ticked-Inv w n i = record { on_disk = i.on_disk; safe = i.safe }

module _ (env : Env) (host : Host) where
  pub prune_history-Pruned : (w : World) → Inv w → Pruned env w (prune_history env host w)
  unfolding prune_history
  prune_history-Pruned w i =
      let w₁ = record w { effects = suc w.effects } in
      let w₂ = record w { effects = suc (suc w.effects) } in
      let r = read_status host "" w in
      on_result (Pruned env w) r.0 _ _ w₁
        (λ s e.
          on_test (Pruned env w) (not (is_succeeded s.state) || s.snapshot == "") _ _ w₁
            (λ t. (ticked-Inv w w₁.effects i, refl))
            (λ f.
              on_failure (Pruned env w) (host.read w₁.effects) _ _ w₂
                (λ e q. (ticked-Inv w w₂.effects i, refl))
                (λ n. prune_files-Pruned env w.history w₂ (ticked-Inv w w₂.effects i))))
        (λ e q. (ticked-Inv w w₁.effects i, refl))

  -- The end of the transaction, once its containers are verified.
  commit-Inv :
      (s : Status) (w : World) → Inv w → is_verified w.events ≡ true → Inv (commit env host s w).1
  unfolding commit save_quietly
  commit-Inv s w i v =
      let s₃ = save env (record s { state = succeeded; phase = committed }) w in
      let i₃ : Inv s₃.1 = verified-Inv env _ w i v in
      let v₃ =
        (save-Saved env (record s { state = succeeded; phase = committed }) w).verified ∙ v in
      let p = prune_history env host s₃.1 in
      let (i₄, v₄) = prune_history-Pruned s₃.1 i₃ in
      on_failure (λ x. Inv x.1) p.0 _ _ p.1 (λ e q. verified-Inv env _ p.1 i₄ (v₄ ∙ v₃)) (λ n. i₄)

  -- The transaction keeps the invariant, from a status that is not authorized.
  pub execute-Inv :
      (s : Status) (w : World) → Inv w → s.authorized ≡ false → Inv (execute env host s w).1
  unfolding execute
  execute-Inv s w i u =
      let r = rounds env steps s w in
      let (i', more) = rounds-Looped env s w i u in
      on_case (λ x. Inv x.1) r.0.0 _ _ r.1 (λ t. i')
        (λ f.
          let a = step env (record r.0.1 { authorized = true }) authorizing do_authorize r.1 in
          let (ia, keep) = authorize_step env authorizing r.0.1 r.1 i' (more f).1 in
          on_failure (λ x. Inv x.1) a.0.0 _ _ a.1
            (λ e q. rollback-Inv env (record a.0.1 { error = e }) a.1 ia)
            (λ n. commit-Inv a.0.1 a.1 ia (keep n)))
