-- ===== src/HostNetwork/Applied.antt =====
-- A request is still known to the journal while its change is applied: `apply` and `restore` of
-- internal/hostnetwork/manager.go.
use floatlab_core.Base.{
  List, Map, String, [], all, ap, concat, leb, nat_eq, none, not, refl, some, string_eq, suc, sym,
  zero, ℕ, ◌+◌, ◌==◌, ◌∷◌, ◌≡◌,
}
use floatlab_core.HostNetwork.{
  Change, Env, Journal, NetworkConfig, Service, World, apply_config, arm_timer,
  awaiting_confirmation, cancel_timer, failed,
}
use floatlab_core.HostNetwork.Disk.{
  ask, call, change_of, journal_of, put_change, save, write_config,
}
use floatlab_core.HostNetwork.Config.{Parsers, is_compatible, primary_addresses}
use floatlab_core.HostNetwork.Changes.{
  apply, apply_and_verify, apply_armed, apply_locked, confirmation_time, poll_services, restore,
  verify_services, with_reason,
}
use floatlab_core.HostNetwork.Held.{
  IsHeld, Retains, ask-Retains, bind-Retains, call-Retains, change_of-put, locked-Retains,
  option-Retains, pure-Retains, put-IsHeld, save-Retains, stamp, test-Retains, then-Retains,
  write_config-Retains,
}

-- The same, where the change is no longer the pending one.
closed :
    (c : Change) (s : Journal) (id : String) (new : Change) (x : NetworkConfig)
    → stamp new ≡ stamp (change_of id s)
    → IsHeld c s
    → IsHeld c (put_change id new (record s { confirmed_config = x; pending = "" }))
unfolding IsHeld
closed c s id new x e i = put-IsHeld c id new s e i

released :
    (c : Change) (s : Journal) (id : String) (new : Change)
    → stamp new ≡ stamp (change_of id s)
    → IsHeld c s
    → IsHeld c (put_change id new (record s { pending = "" }))
unfolding IsHeld
released c s id new e i = put-IsHeld c id new s e i

module _ (parsers : Parsers) (revision_of : NetworkConfig → String) (env : Env) where
  -- Rounds of `apply`, for any changes.
  unfoldable pub apply_rounds : List String → World → World
  apply_rounds [] w = w
  apply_rounds (id ∷ ids) w = apply_rounds ids (apply parsers revision_of env id w).1

module _ (parsers : Parsers) (revision_of : NetworkConfig → String) (env : Env) (c : Change) where
  poll_services-Retains :
      (n : ℕ) (services : Map String Service)
      → Retains c (poll_services parsers revision_of env n services)
  unfolding poll_services
  poll_services-Retains zero services = pure-Retains c _
  poll_services-Retains (suc n) services =
      bind-Retains c (ask env env.live) _ (ask-Retains c env env.live) (λ live.
        option-Retains c live _ _
          (λ l.
            test-Retains c
              (all (λ e. is_compatible parsers e.1.address (primary_addresses l.addresses services))
                services)
              _ _ (pure-Retains c none) (poll_services-Retains n services))
          (pure-Retains c (some "live state")))

  verify_services-Retains :
      (services : Map String Service) → Retains c (verify_services parsers revision_of env services)
  unfolding verify_services
  verify_services-Retains [] = pure-Retains c none
  verify_services-Retains (e ∷ services) =
      bind-Retains c (ask env env.polls) _ (ask-Retains c env env.polls)
        (λ n. poll_services-Retains (suc n) (e ∷ services))

  apply_and_verify-Retains :
      (old new : NetworkConfig) (services : Map String Service)
      → Retains c (apply_and_verify parsers revision_of env old new services)
  unfolding apply_and_verify
  apply_and_verify-Retains old new services =
      then-Retains c (call env (apply_config old new)) _ (call-Retains c env (apply_config old new))
        (test-Retains c _ _ _ (verify_services-Retains services) (pure-Retains c none))

  restore-Retains :
      (s : Journal) (id reason : String)
      → IsHeld c s
      → Retains c (restore parsers revision_of env s id reason)
  unfolding restore
  restore-Retains s id reason i =
      let d : Change = change_of id s in
      let gone : Journal =
        put_change id (with_reason parsers revision_of env reason d)
          (record s { confirmed_config = d.previous; pending = "" }) in
      bind-Retains c (apply_and_verify parsers revision_of env d.candidate d.previous s.services) _
        (apply_and_verify-Retains d.candidate d.previous s.services)
        (λ o.
          option-Retains c o _ _
            (λ x.
              let stuck : Journal =
                put_change id
                  (record d {
                    state = failed;
                    error = concat reason (concat ": rollback failed: " x);
                  })
                  s in
              bind-Retains c (save env stuck) _
                (save-Retains c env stuck (put-IsHeld c id _ s refl i))
                (λ _. pure-Retains c (some x)))
            (then-Retains c (write_config env d.previous) _ (write_config-Retains c env d.previous)
              (then-Retains c (save env gone) _
                (save-Retains c env gone
                  (closed c s id (with_reason parsers revision_of env reason d) d.previous refl i))
                (bind-Retains c (call env (cancel_timer id)) _
                  (call-Retains c env (cancel_timer id)) (λ _. pure-Retains c none)))))

  apply_armed-Retains :
      (s : Journal) (id : String) (d : Change)
      → stamp d ≡ stamp (change_of id s)
      → IsHeld c s
      → Retains c (apply_armed parsers revision_of env s id d)
  unfolding apply_armed
  apply_armed-Retains s id d e i =
      bind-Retains c (apply_and_verify parsers revision_of env d.previous d.candidate s.services) _
        (apply_and_verify-Retains d.previous d.candidate s.services)
        (λ o.
          option-Retains c o _ _
            (λ x.
              restore-Retains (put_change id (record d { error = x }) s) id "apply failed"
                (put-IsHeld c id (record d { error = x }) s e i))
            (bind-Retains c (ask env env.now) _ (ask-Retains c env env.now) (λ now.
              test-Retains c (leb d.deadline now) _ _
                (restore-Retains s id "confirmation deadline expired during apply" i)
                (save-Retains c env (put_change id (record d { state = awaiting_confirmation }) s)
                  (put-IsHeld c id (record d { state = awaiting_confirmation }) s e i)))))

  apply_locked-Retains :
      (id : String) (s : Journal)
      → IsHeld c s
      → Retains c (apply_locked parsers revision_of env id s)
  unfolding apply_locked
  apply_locked-Retains id s i = test-Retains c (not (s.pending == id)) _ _ (pure-Retains c none) (
      bind-Retains c (ask env env.now) _ (ask-Retains c env env.now) (λ now.
        let d : Change = record (change_of id s) { deadline = now + confirmation_time } in
        let s' : Journal = put_change id d s in
        let i' : IsHeld c s' = put-IsHeld c id d s refl i in
        let e : stamp d ≡ stamp (change_of id s') = ap stamp (sym (change_of-put id d s)) in
        then-Retains c (save env s') _ (save-Retains c env s' i') (
          bind-Retains c (call env (arm_timer id d.deadline)) _
            (call-Retains c env (arm_timer id d.deadline))
            (λ o.
              option-Retains c o _ _
                (λ x.
                  let unarmed : Change = record d {
                    state = failed;
                    error = concat "cannot arm rollback: " x;
                  } in
                  save-Retains c env (put_change id unarmed (record s' { pending = "" }))
                    (released c s' id unarmed e i'))
                (apply_armed-Retains s' id d e i')))))

  pub apply-Retains : (id : String) → Retains c (apply parsers revision_of env id)
  unfolding apply
  apply-Retains id =
      locked-Retains c env (apply_locked parsers revision_of env id) (apply_locked-Retains id)

  pub apply_rounds-IsHeld :
      (ids : List String) (w : World)
      → IsHeld c (journal_of w.journal)
      → IsHeld c (journal_of (apply_rounds parsers revision_of env ids w).journal)
  unfolding apply_rounds Retains
  apply_rounds-IsHeld [] w h = h
  apply_rounds-IsHeld (id ∷ ids) w h =
      apply_rounds-IsHeld ids (apply parsers revision_of env id w).1 (apply-Retains id w h)
