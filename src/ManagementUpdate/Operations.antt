-- ===== src/ManagementUpdate/Operations.antt =====
-- What `Recover`, `Rollback`, `Cleanup`, `Start` and the requested actions of
-- internal/managementupdate/manager.go keep.
use floatlab_core.Base.{
  List, String, [], ap, arith, false, inl, inr, nat_eq, not, refl, some, some-inj, string_eq, suc,
  sym, true, ◌==◌, ◌||◌, ◌∙◌, ◌∷◌, ◌≡◌, ◌⊎◌,
}
use floatlab_core.ManagementUpdate.{
  Env, Event, Status, World, call, called, do_authorize, do_cleanup, failed, is_terminal, wrote,
}
use floatlab_core.ManagementUpdate.Transaction.{is_before_production}
use floatlab_core.ManagementUpdate.Trace.{
  Inv, IsSafe-now, call-Called, call-Inv, is_authorized_on_disk, is_verified, last_written,
  save-Inv,
}
use floatlab_core.ManagementUpdate.Rules.{on_failure, on_pair, on_result, on_test}
use floatlab_core.ManagementUpdate.Safety.{rollback-Inv, unauthorized-Inv, verified-Inv}
use floatlab_core.ManagementUpdate.Rounds.{cleanup-Inv}
use floatlab_core.ManagementUpdate.Requests.{Host, is_cleaning, ok, read_status}
use floatlab_core.ManagementUpdate.History.{prune_history}
use floatlab_core.ManagementUpdate.Recovery.{
  abandon, cleanup, finish_cleaning, reauthorize, recover, recover_status, request_rollback_now,
}
use floatlab_core.ManagementUpdate.Checkpoints.{prune_history-Pruned, ticked-Inv}

module _ (env : Env) (host : Host) where
  finish_cleaning-Inv :
      (s : Status) (w : World)
      → Inv w
      → (s.authorized ≡ true → is_verified w.events ≡ true)
      → Inv (finish_cleaning env host s w).1
  unfolding finish_cleaning
  finish_cleaning-Inv s w i v =
      let c = call env do_cleanup (record s { snapshot = "" }) w in
      let ic : Inv c.1 = cleanup-Inv env _ w i in
      on_failure (λ x. Inv x.1) c.0.0 _ _ c.1 (λ e q. ic)
        (λ n. save-Inv env _ c.1 ic (
          ground (arith, v, (call-Called env do_cleanup (record s { snapshot = "" }) w).kept refl)))

  reauthorize-Inv :
      (s : Status) (w : World)
      → Inv w
      → is_verified w.events ≡ true
      → Inv (reauthorize env host s w).1
  unfolding reauthorize
  reauthorize-Inv s w i v =
      let c = call env do_authorize s w in
      let ic : Inv c.1 = call-Inv env do_authorize s w i v (ground arith) in
      on_failure (λ x. Inv x.1) c.0.0 _ _ c.1 (λ e q. ic)
        (λ n. verified-Inv env _ c.1 ic ((call-Called env do_authorize s w).kept refl ∙ v))

  abandon-Inv :
      (s : Status) (w : World) → Inv w → s.authorized ≡ false → Inv (abandon env host s w).1
  unfolding abandon
  abandon-Inv s w i u =
      let s' = record s { state = failed; error = "interrupted before production changes" } in
      let c = call env do_cleanup s' w in
      let ic : Inv c.1 = cleanup-Inv env s' w i in
      on_failure (λ x. Inv x.1) c.0.0 _ _ c.1 (λ e q. ic)
        (λ n.
          unauthorized-Inv env _ c.1 ic
            (ap (λ t. t.authorized) (call-Called env do_cleanup s' w).status ∙ u))

  -- The statuses that `Recover` can begin with: those on disk.
  pub recover_status-Inv :
      (s : Status) (w : World)
      → Inv w
      → (s.authorized ≡ true → is_verified w.events ≡ true)
      → Inv (recover_status env host s w).1
  unfolding recover_status
  recover_status-Inv s w i v =
      on_test (λ x. Inv x.1) (is_terminal s.state) _ _ w (λ t. i)
        (λ f.
          on_test (λ x. Inv x.1) (is_cleaning s.phase) _ _ w (λ t. finish_cleaning-Inv s w i v)
            (λ f.
              on_test (λ x. Inv x.1) s.authorized _ _ w (λ t. reauthorize-Inv s w i (v t))
                (λ f.
                  on_test (λ x. Inv x.1) (is_before_production s.phase) _ _ w
                    (λ t. abandon-Inv s w i f) (λ f. rollback-Inv env s w i))))

shown_of_written :
    (t : List Event) {s : Status} → last_written t ≡ some s → is_authorized_on_disk t ≡ s.authorized
shown_of_written [] h = cc
shown_of_written (wrote s ∷ t) h = ap (λ x. x.authorized) (some-inj h)
shown_of_written (called op f ∷ t) h = shown_of_written t h

module _ (env : Env) (host : Host) where
  read_status-ok :
      (id : String) (w : World) {s : Status}
      → (read_status host id w).0 ≡ ok s
      → (w.disk ≡ some s) ⊎ (s.authorized ≡ false)
  unfolding read_status
  read_status-ok id w e = ground arith

  -- A status that is read from disk and authorized is one of verified containers.
  pub read_status-verified :
      (id : String) (w : World) {s : Status}
      → Inv w
      → (read_status host id w).0 ≡ ok s
      → s.authorized ≡ true
      → is_verified w.events ≡ true
  read_status-verified id w i e a = elim (read_status-ok id w e) [
    | inl d ↦
        ground (arith, shown_of_written w.events (sym i.on_disk ∙ d), IsSafe-now w.events i.safe)
    | inr u ↦ cc
  ]

  -- `Recover` keeps the invariant.
  pub recover-Inv : (w : World) → Inv w → Inv (recover env host w).1
  unfolding recover
  recover-Inv w i =
      let w₁ = record w { effects = suc w.effects } in
      let w₂ = record w { effects = suc (suc w.effects) } in
      let i₁ = ticked-Inv w w₁.effects i in
      on_failure (λ x. Inv x.1) (host.lock w.effects) _ _ w₁ (λ e q. i₁)
        (λ n.
          on_result (λ x. Inv x.1) (read_status host "" w₁).0 _ _ w₂
            (λ s e.
              recover_status-Inv env host s w₂ (ticked-Inv w w₂.effects i)
                (read_status-verified "" w₁ i₁ e))
            (λ e q. ticked-Inv w w₂.effects i))

  -- So does `Rollback`.
  pub request_rollback_now-Inv :
      (id : String) (w : World) → Inv w → Inv (request_rollback_now env host id w).1
  unfolding request_rollback_now
  request_rollback_now-Inv id w i =
      let w₁ = record w { effects = suc w.effects } in
      let w₂ = record w { effects = suc (suc w.effects) } in
      on_pair (λ x. Inv x.1) w.running _ _ (λ t. i)
        (λ f.
          on_failure (λ x. Inv x.1) (host.lock w.effects) _ _ w₁ (λ e q. ticked-Inv w w₁.effects i)
            (λ n.
              on_result (λ x. Inv x.1) (read_status host id w₁).0 _ _ w₂
                (λ s e.
                  on_test (λ x. Inv x.1) (s.snapshot == "") _ _ w₂ (λ t. ticked-Inv w w₂.effects i)
                    (λ f. rollback-Inv env s w₂ (ticked-Inv w w₂.effects i)))
                (λ e q. ticked-Inv w w₂.effects i)))

  -- And `Cleanup`, which writes the status back that it has read.
  pub cleanup-Inv_lem : (id : String) (w : World) → Inv w → Inv (cleanup env host id w).1
  unfolding cleanup
  cleanup-Inv_lem id w i =
      let w₁ = record w { effects = suc w.effects } in
      let w₂ = record w { effects = suc (suc w.effects) } in
      let i₂ = ticked-Inv w w₂.effects i in
      on_failure (λ x. Inv x.1) (host.lock w.effects) _ _ w₁ (λ e q. ticked-Inv w w₁.effects i)
        (λ n.
          on_result (λ x. Inv x.1) (read_status host id w₁).0 _ _ w₂
            (λ s e.
              on_test (λ x. Inv x.1) (not (is_terminal s.state)) _ _ w₂ (λ t. i₂)
                (λ f.
                  let c = call env do_cleanup (record s { snapshot = "" }) w₂ in
                  let ic : Inv c.1 = cleanup-Inv env _ w₂ i₂ in
                  on_failure (λ x. Inv x.1) c.0.0 _ _ c.1 (λ e q. ic)
                    (λ n.
                      let p = prune_history env host c.1 in
                      let (ip, vp) = prune_history-Pruned env host c.1 ic in
                      on_failure (λ x. Inv x.1) p.0 _ _ p.1 (λ e q. ip)
                        (λ n. save-Inv env s p.1 ip (
                          written_back s p.1 (λ a.
                            vp
                            ∙ ((call-Called env do_cleanup (record s { snapshot = "" }) w₂).kept
                                  refl
                                ∙ read_status-verified id w₁ (ticked-Inv w w₁.effects i) e a)))))))
            (λ e q. i₂))
    where
      written_back :
          (s : Status) (w : World)
          → (s.authorized ≡ true → is_verified w.events ≡ true)
          → (not s.authorized || is_verified w.events) ≡ true
      written_back s w h = ground arith
