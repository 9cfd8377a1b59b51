-- ===== src/HostNetwork/Decided.antt =====
-- The journal that `Confirm`, `Rollback` and `MigrateDefault` of internal/hostnetwork/manager.go leave.
use floatlab_core.Base.{
  Bool, String, arith, false, if◌then◌else◌, leb, lookup, nat_eq, none, not, not-eq-false, refl,
  some, string_eq, true, ◌&&◌, ◌==◌, ◌||◌, ◌≡◌, ◌≢◌,
}
use floatlab_core.HostNetwork.{Env, Journal, NetworkConfig, cancel_timer, confirmed}
use floatlab_core.HostNetwork.Disk.{ask, call, put_change, save, write_config}
use floatlab_core.HostNetwork.Config.{Parsers}
use floatlab_core.HostNetwork.Changes.{restore}
use floatlab_core.HostNetwork.Decisions.{
  commit_change, confirm, confirm_locked, is_awaiting, is_confirmed, is_settled, migrate_default,
  migrate_locked, rollback, rollback_locked, save_and_write,
}
use floatlab_core.HostNetwork.Sound.{IsSound, close-IsSound, is_open, set-IsSound}
use floatlab_core.HostNetwork.Keeps.{
  Keeps, ask-Keeps, bind-Keeps, call-Keeps, locked-Keeps, option-Keeps, pure-Keeps, save-Keeps,
  test-Keeps, then-Keeps, write_config-Keeps,
}
use floatlab_core.HostNetwork.Kept.{named, restore-Keeps}

module _ (parsers : Parsers) (revision_of : NetworkConfig → String) (env : Env) where
  -- A journal that asks for network.toml, and then does not.
  pub save_and_write-Keeps :
      (s : Journal) → IsSound s → Keeps (save_and_write parsers revision_of env s)
  unfolding save_and_write
  save_and_write-Keeps s i =
      let s₁ : Journal = record s { needs_config = true } in
      let s₂ : Journal = record s { needs_config = false } in
      then-Keeps (save env s₁) _
        (save-Keeps env s₁ (set-IsSound s s₁ i refl refl (λ _. refl) i.owned))
        (then-Keeps (write_config env s.confirmed_config) _
          (write_config-Keeps env s.confirmed_config)
          (save-Keeps env s₂ (set-IsSound s s₂ i refl refl (λ _. refl) i.owned)))

  confirm_locked-Keeps :
      (id : String) (s : Journal) → IsSound s → Keeps (confirm_locked parsers revision_of env id s)
  unfolding confirm_locked commit_change is_open
  confirm_locked-Keeps id s i =
      option-Keeps (lookup id s.changes) _ _
        (λ c h.
          test-Keeps (is_confirmed c.state) _ _ (λ _. pure-Keeps none)
            (λ _.
              test-Keeps (not (s.pending == id) || not (is_awaiting c.state)) _ _
                (λ _. pure-Keeps (some "change cannot be confirmed"))
                (λ f.
                  let e : s.pending ≡ id =
                    (string_eq.beq_iff s.pending id).0
                      (not-eq-false (s.pending == id) (ground arith)) in
                  let n : id ≢ "" = named i h in
                  bind-Keeps (ask env env.now) _ (ask-Keeps env env.now) (λ now.
                    test-Keeps (leb c.deadline now) _ _
                      (λ _.
                        bind-Keeps
                          (restore parsers revision_of env s id "confirmation deadline expired") _
                          (restore-Keeps parsers revision_of env s id
                            "confirmation deadline expired" i e n)
                          (λ o. pure-Keeps (elim o [
                            | some x ↦ some x
                            | none ↦ some "confirmation deadline expired"
                          ])))
                      (λ _.
                        let done : Journal =
                          put_change id (record c { state = confirmed })
                            (record s { confirmed_config = c.candidate; pending = "" }) in
                        then-Keeps (save_and_write parsers revision_of env done) _
                          (save_and_write-Keeps done (
                            close-IsSound id (record c { state = confirmed }) c.candidate s i e n
                              refl))
                          (bind-Keeps (call env (cancel_timer id)) _
                            (call-Keeps env (cancel_timer id)) (λ _. pure-Keeps none)))))))
        (λ _. pure-Keeps (some "network change not found"))

  pub confirm-Keeps : (id : String) → Keeps (confirm parsers revision_of env id)
  unfolding confirm
  confirm-Keeps id =
      locked-Keeps env (confirm_locked parsers revision_of env id) (confirm_locked-Keeps id)

  rollback_locked-Keeps :
      (id : String) (expired_only : Bool) (s : Journal)
      → IsSound s
      → Keeps (rollback_locked parsers revision_of env id expired_only s)
  unfolding rollback_locked
  rollback_locked-Keeps id expired_only s i =
      option-Keeps (lookup id s.changes) _ _
        (λ c h.
          test-Keeps (not (s.pending == id)) _ _
            (λ _. pure-Keeps (if is_settled c.state then none else some "change is not pending"))
            (λ f.
              let e : s.pending ≡ id =
                (string_eq.beq_iff s.pending id).0 (not-eq-false (s.pending == id) f) in
              bind-Keeps (ask env env.now) _ (ask-Keeps env env.now) (λ now.
                test-Keeps (expired_only && not (leb c.deadline now)) _ _
                  (λ _. pure-Keeps (some "rollback timer fired before deadline"))
                  (λ _.
                    restore-Keeps parsers revision_of env s id "network change not confirmed" i e
                      (named i h)))))
        (λ _. pure-Keeps (some "network change not found"))

  pub rollback-Keeps :
      (id : String) (expired_only : Bool) → Keeps (rollback parsers revision_of env id expired_only)
  unfolding rollback
  rollback-Keeps id expired_only =
      locked-Keeps env (rollback_locked parsers revision_of env id expired_only)
        (rollback_locked-Keeps id expired_only)

  migrate_locked-Keeps :
      (pool_id : String) (s : Journal)
      → IsSound s
      → Keeps (migrate_locked parsers revision_of env pool_id s)
  unfolding migrate_locked
  migrate_locked-Keeps pool_id s i =
      test-Keeps (not (s.pending == "")) _ _ (λ _. pure-Keeps (some "network change outstanding"))
        (λ f.
          test-Keeps (not (s.confirmed_config.default_pool_id == "")) _ _ (λ _. pure-Keeps none)
            (λ _.
              let s' : Journal = record s {
                confirmed_config = record s.confirmed_config { default_pool_id = pool_id };
              } in
              save_and_write-Keeps s' (
                set-IsSound s s' i refl refl
                  (λ n.
                    absurd
                      (n ((string_eq.beq_iff s.pending "").0 (not-eq-false (s.pending == "") f))))
                  i.owned)))

  pub migrate_default-Keeps :
      (pool_id : String) → Keeps (migrate_default parsers revision_of env pool_id)
  unfolding migrate_default
  migrate_default-Keeps pool_id =
      locked-Keeps env (migrate_locked parsers revision_of env pool_id)
        (migrate_locked-Keeps pool_id)
