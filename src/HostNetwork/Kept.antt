-- ===== src/HostNetwork/Kept.antt =====
-- The journal that a change of internal/hostnetwork/manager.go leaves: `apply` and `restore`.
use floatlab_core.Base.{
  Map, String, [], all, ap, concat, if◌then◌else◌, leb, lookup, nat_eq, none, not, not-eq-false,
  refl, some, string_eq, suc, sym, zero, ℕ, ◌+◌, ◌==◌, ◌∙◌, ◌∷◌, ◌≡◌, ◌≢◌,
}
use floatlab_core.Base.Steps.{pure}
use floatlab_core.HostNetwork.{
  Change, Env, Journal, Live, M, NetworkConfig, Outcome, Service, apply_config, arm_timer,
  awaiting_confirmation, cancel_timer, failed,
}
use floatlab_core.HostNetwork.Disk.{
  ask, call, change_of, put_change, save, write_config, zero_change,
}
use floatlab_core.HostNetwork.Config.{Parsers, is_compatible, primary_addresses}
use floatlab_core.HostNetwork.Changes.{
  apply, apply_and_verify, apply_armed, apply_locked, confirmation_time, poll_services, restore,
  verify_services, with_reason,
}
use floatlab_core.HostNetwork.Sound.{IsHeld, IsSound, close-IsSound, is_open, put-IsSound}
use floatlab_core.HostNetwork.Keeps.{
  Keeps, ask-Keeps, bind-Keeps, call-Keeps, locked-Keeps, option-Keeps, pure-Keeps, save-Keeps,
  test-Keeps, then-Keeps, write_config-Keeps,
}

-- The pending change goes back to the confirmed configuration.
change_of-previous :
    (id : String) (s : Journal)
    → IsSound s
    → s.pending ≡ id
    → id ≢ ""
    → (change_of id s).previous ≡ s.confirmed_config
unfolding change_of IsHeld
change_of-previous id s i e n =
    let (c, h, p) = i.held (λ z. n (sym e ∙ z)) in
    ap (λ o. (elim o as (λ x. Change) [ none ↦ zero_change | some c ↦ c ]).previous)
      (ap (λ k. lookup k s.changes) (sym e) ∙ h)
    ∙ p

-- No change has the empty text for its id.
pub named :
    {s : Journal} {id : String} {c : Change} → IsSound s → lookup id s.changes ≡ some c → id ≢ ""
named {s} {id} {c} i h e = gone (sym i.unnamed ∙ ap (λ k. lookup k s.changes) (sym e) ∙ h)
  where
    gone : none ≢ some c
    gone h = cc

module _ (parsers : Parsers) (revision_of : NetworkConfig → String) (env : Env) where
  poll_services-Keeps :
      (n : ℕ) (services : Map String Service)
      → Keeps (poll_services parsers revision_of env n services)
  unfolding poll_services
  poll_services-Keeps zero services =
      pure-Keeps (some "DHCP lease is incompatible with active service pools")
  poll_services-Keeps (suc n) services =
      bind-Keeps (ask env env.live)
        (λ live. elim live as (λ x. M Outcome) [
          | none ↦ pure (some "live state")
          | some l ↦ polled l
        ])
        (ask-Keeps env env.live)
        (λ live.
          option-Keeps live polled (pure (some "live state"))
            (λ l _.
              test-Keeps
                (all
                  (λ e. is_compatible parsers e.1.address (primary_addresses l.addresses services))
                  services)
                (pure none) (poll_services parsers revision_of env n services)
                (λ _. pure-Keeps none) (λ _. poll_services-Keeps n services))
            (λ _. pure-Keeps (some "live state")))
    where
      polled : Live → M Outcome
      polled l =
          if all (λ e. is_compatible parsers e.1.address (primary_addresses l.addresses services))
            services
          then pure none
          else poll_services parsers revision_of env n services

  verify_services-Keeps :
      (services : Map String Service) → Keeps (verify_services parsers revision_of env services)
  unfolding verify_services
  verify_services-Keeps [] = pure-Keeps none
  verify_services-Keeps (e ∷ services) =
      bind-Keeps (ask env env.polls) _ (ask-Keeps env env.polls)
        (λ n. poll_services-Keeps (suc n) (e ∷ services))

  pub apply_and_verify-Keeps :
      (old new : NetworkConfig) (services : Map String Service)
      → Keeps (apply_and_verify parsers revision_of env old new services)
  unfolding apply_and_verify
  apply_and_verify-Keeps old new services =
      then-Keeps (call env (apply_config old new)) _ (call-Keeps env (apply_config old new))
        (test-Keeps _ _ _ (λ _. verify_services-Keeps services) (λ _. pure-Keeps none))

  pub restore-Keeps :
      (s : Journal) (id reason : String)
      → IsSound s
      → s.pending ≡ id
      → id ≢ ""
      → Keeps (restore parsers revision_of env s id reason)
  unfolding restore is_open
  restore-Keeps s id reason i e n =
      let c : Change = change_of id s in
      let back : c.previous ≡ s.confirmed_config = change_of-previous id s i e n in
      let gone : Journal =
        put_change id (with_reason parsers revision_of env reason c)
          (record s { confirmed_config = c.previous; pending = "" }) in
      bind-Keeps (apply_and_verify parsers revision_of env c.candidate c.previous s.services) _
        (apply_and_verify-Keeps c.candidate c.previous s.services)
        (λ o.
          option-Keeps o _ _
            (λ x _.
              let stuck : Journal =
                put_change id
                  (record c {
                    state = failed;
                    error = concat reason (concat ": rollback failed: " x);
                  })
                  s in
              bind-Keeps (save env stuck) _ (save-Keeps env stuck (put-IsSound id _ s i e n back))
                (λ _. pure-Keeps (some x)))
            (λ _. then-Keeps (write_config env c.previous) _ (write_config-Keeps env c.previous) (
              then-Keeps (save env gone) _
                (save-Keeps env gone (
                  close-IsSound id (with_reason parsers revision_of env reason c) c.previous s i e n
                    refl))
                (bind-Keeps (call env (cancel_timer id)) _ (call-Keeps env (cancel_timer id))
                  (λ _. pure-Keeps none)))))

  apply_armed-Keeps :
      (s : Journal) (id : String) (c : Change)
      → IsSound s
      → s.pending ≡ id
      → id ≢ ""
      → c.previous ≡ s.confirmed_config
      → Keeps (apply_armed parsers revision_of env s id c)
  unfolding apply_armed
  apply_armed-Keeps s id c i e n p =
      bind-Keeps (apply_and_verify parsers revision_of env c.previous c.candidate s.services) _
        (apply_and_verify-Keeps c.previous c.candidate s.services)
        (λ o.
          option-Keeps o _ _
            (λ x _.
              restore-Keeps (put_change id (record c { error = x }) s) id "apply failed"
                (put-IsSound id _ s i e n p) e n)
            (λ _. bind-Keeps (ask env env.now) _ (ask-Keeps env env.now) (λ now.
              test-Keeps (leb c.deadline now) _ _
                (λ _. restore-Keeps s id "confirmation deadline expired during apply" i e n)
                (λ _.
                  save-Keeps env (put_change id (record c { state = awaiting_confirmation }) s)
                    (put-IsSound id (record c { state = awaiting_confirmation }) s i e n p)))))

  apply_locked-Keeps :
      (id : String) (s : Journal)
      → id ≢ ""
      → IsSound s
      → Keeps (apply_locked parsers revision_of env id s)
  unfolding apply_locked is_open
  apply_locked-Keeps id s n i =
      test-Keeps (not (s.pending == id)) _ _ (λ _. pure-Keeps none)
        (λ f.
          let e : s.pending ≡ id =
            (string_eq.beq_iff s.pending id).0 (not-eq-false (s.pending == id) f) in
          bind-Keeps (ask env env.now) _ (ask-Keeps env env.now) (λ now.
            let c : Change = record (change_of id s) { deadline = now + confirmation_time } in
            let s' : Journal = put_change id c s in
            let p : c.previous ≡ s.confirmed_config = change_of-previous id s i e n in
            let i' : IsSound s' = put-IsSound id c s i e n p in
            then-Keeps (save env s') _ (save-Keeps env s' i') (
              bind-Keeps (call env (arm_timer id c.deadline)) _
                (call-Keeps env (arm_timer id c.deadline))
                (λ o.
                  option-Keeps o _ _
                    (λ x _.
                      let unarmed : Change = record c {
                        state = failed;
                        error = concat "cannot arm rollback: " x;
                      } in
                      save-Keeps env (put_change id unarmed (record s' { pending = "" }))
                        (close-IsSound id unarmed s'.confirmed_config s' i' e n refl))
                    (λ _. apply_armed-Keeps s' id c i' e n p)))))

  pub apply-Keeps : (id : String) → id ≢ "" → Keeps (apply parsers revision_of env id)
  unfolding apply
  apply-Keeps id n =
      locked-Keeps env (apply_locked parsers revision_of env id) (λ s. apply_locked-Keeps id s n)
