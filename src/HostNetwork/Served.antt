-- ===== src/HostNetwork/Served.antt =====
-- The journal that `SetService` of internal/hostnetwork/manager.go leaves.
use floatlab_core.Base.{
  Bool, Map, String, erase, false, insert, lookup, nat_eq, none, not, refl, some, string_eq, true,
  ◌==◌, ◌≢◌,
}
use floatlab_core.HostNetwork.{Env, Journal, Service, change_service}
use floatlab_core.HostNetwork.Disk.{ask, call, save}
use floatlab_core.HostNetwork.Config.{Parsers, parse_service}
use floatlab_core.HostNetwork.Services.{
  add_service, check_added, remove_service, service_eq, set_service, set_service_locked,
}
use floatlab_core.HostNetwork.Sound.{IsOwned, IsSound, set-IsSound}
use floatlab_core.HostNetwork.Ownership.{
  any_other-false, check_added-free, erase-IsOwned, insert-IsOwned, parse_service-named,
}
use floatlab_core.HostNetwork.Keeps.{
  Keeps, ask-Keeps, bind-Keeps, call-Keeps, locked-Keeps, option-Keeps, pure-Keeps, save-Keeps,
  test-Keeps, then-Keeps,
}

abbrev pub with_services : Map String Service → Journal → Journal
with_services m s = record s { services = m }

pub services-IsSound :
    (s : Journal) (m : Map String Service) → IsSound s → IsOwned m → IsSound (with_services m s)
services-IsSound s m i o = set-IsSound s (with_services m s) i refl refl (λ _. refl) o

module _ (parsers : Parsers) (env : Env) where
  add_service-Keeps :
      (service : Service) (s : Journal)
      → IsSound s
      → service.stack_id ≢ ""
      → Keeps (add_service parsers env service s)
  unfolding add_service
  add_service-Keeps service s i n =
      bind-Keeps (ask env env.live) _ (ask-Keeps env env.live) (λ live.
        option-Keeps live _ _
          (λ l _.
            option-Keeps (check_added parsers env s service l) _ _ (λ e _. pure-Keeps (some e))
              (λ h.
                let added : Journal =
                  with_services (insert service.stack_id service s.services) s in
                then-Keeps (save env added) _
                  (save-Keeps env added (
                    services-IsSound s _ i (
                      insert-IsOwned service s.services i.owned n (
                        any_other-false service s.services
                          (check_added-free parsers env s service l h)))))
                  (call-Keeps env (change_service service true))))
          (λ _. pure-Keeps (some "live state")))

  remove_service-Keeps :
      (service : Service) (s : Journal) → IsSound s → Keeps (remove_service parsers env service s)
  unfolding remove_service
  remove_service-Keeps service s i =
      option-Keeps (lookup service.stack_id s.services) _ _
        (λ old _.
          test-Keeps (not (service_eq old service)) _ _
            (λ _. pure-Keeps (some "service ownership mismatch"))
            (λ _.
              let removed : Journal = with_services (erase service.stack_id s.services) s in
              then-Keeps (call env (change_service old false)) _
                (call-Keeps env (change_service old false))
                (save-Keeps env removed
                  (services-IsSound s _ i (erase-IsOwned service.stack_id s.services i.owned)))))
        (λ _. pure-Keeps none)

  set_service_locked-Keeps :
      (service : Service) (add : Bool) (s : Journal)
      → IsSound s
      → Keeps (set_service_locked parsers env service add s)
  unfolding set_service_locked
  set_service_locked-Keeps service add s i =
      test-Keeps _ _ _ (λ _. pure-Keeps none)
        (λ _.
          test-Keeps (not (s.pending == "")) _ _
            (λ _. pure-Keeps (some "network configuration change outstanding"))
            (λ _.
              option-Keeps (parse_service parsers service) _ _
                (λ p h.
                  test-Keeps add _ _
                    (λ _.
                      add_service-Keeps service s i (parse_service-named parsers env service p h))
                    (λ _. remove_service-Keeps service s i))
                (λ _. pure-Keeps (some "invalid service address or ownership"))))

  pub set_service-Keeps :
      (service : Service) (add : Bool) → Keeps (set_service parsers env service add)
  unfolding set_service
  set_service-Keeps service add =
      locked-Keeps env (set_service_locked parsers env service add)
        (set_service_locked-Keeps service add)
