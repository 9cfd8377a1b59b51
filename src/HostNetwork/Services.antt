-- ===== src/HostNetwork/Services.antt =====
-- The addresses of services on a host: `SetService` and `SyncServices` of
-- internal/hostnetwork/manager.go. The order in which a loop takes the entries of a Go map is that of
-- the association list.
use floatlab_core.Base.{
  Bool, List, Map, String, [], any, erase, false, if◌then◌else◌, inl, inr, insert, lookup, nat_eq,
  none, not, some, string_eq, true, ◌&&◌, ◌==◌, ◌||◌, ◌∷◌, ◌⊎◌,
}
use floatlab_core.Base.Steps.{pure, ◌>>=◌}
use floatlab_core.HostNetwork.{Env, Journal, Live, M, Outcome, Service, change_service}
use floatlab_core.HostNetwork.Config.{
  Parsers, contains, is_compatible, parse_service, primary_addresses, validate_services,
}
use floatlab_core.HostNetwork.Disk.{ask, call, locked, save}

unfoldable pub service_eq : Service → Service → Bool
service_eq s t = s.stack_id == t.stack_id && s.address == t.address && s.pool_id == t.pool_id

-- `m[id]`
unfoldable pub service_of : String → Map String Service → Service
service_of id m = elim (lookup id m) [
  | none ↦ record { stack_id = ""; address = ""; pool_id = "" }
  | some s ↦ s
]

module _ (parsers : Parsers) (env : Env) where
  -- The tests of `SetService` before it adds: the subnet, the configuration, and who owns what.
  unfoldable pub check_added : Journal → Service → Live → Outcome
  unfolding is_compatible primary_addresses validate_services service_eq
  check_added s service live =
      if not (is_compatible parsers service.address (primary_addresses live.addresses s.services))
      then some "service address is incompatible with LAN subnet"
      else elim (validate_services parsers s.confirmed_config ((service.stack_id, service) ∷ [])) [
        | some e ↦ some e
        | none ↦
            if any (λ e. not (e.0 == service.stack_id) && e.1.address == service.address) s.services
            then some "service address already owned"
            else elim (lookup service.stack_id s.services) [
              | none ↦ none
              | some old ↦
                  if service_eq old service then none else some "stack already owns another address"
            ]
      ]

  unfoldable pub add_service : Service → Journal → M Outcome
  unfolding ask check_added save call
  add_service service s = do
    live ← ask env env.live
    elim live [
      | none ↦ pure (some "live state")
      | some l ↦ elim (check_added s service l) [
        | some e ↦ pure (some e)
        | none ↦ do
          unsaved ← save env (record s { services = insert service.stack_id service s.services })
          elim unsaved [ some x ↦ pure (some x) | none ↦ call env (change_service service true) ]
      ]
    ]

  unfoldable pub remove_service : Service → Journal → M Outcome
  unfolding service_eq call save
  remove_service service s = elim (lookup service.stack_id s.services) [
    | none ↦ pure none
    | some existing ↦
        if not (service_eq existing service) then pure (some "service ownership mismatch") else (do
          e ← call env (change_service existing false)
          elim e [
            | some x ↦ pure (some x)
            | none ↦ save env (record s { services = erase service.stack_id s.services })
          ])
  ]

  -- The function of `SetService` under the lock.
  unfoldable pub set_service_locked : Service → Bool → Journal → M Outcome
  unfolding parse_service add_service remove_service
  set_service_locked service add s =
      if not add && elim (lookup service.stack_id s.services) [ none ↦ true | some _ ↦ false ]
      then pure none
      else if not (s.pending == "")
      then pure (some "network configuration change outstanding")
      else elim (parse_service parsers service) [
        | none ↦ pure (some "invalid service address or ownership")
        | some _ ↦ if add then add_service service s else remove_service service s
      ]

  -- `SetService`
  unfoldable pub set_service : Service → Bool → M Outcome
  unfolding locked set_service_locked
  set_service service add = locked env (set_service_locked service add)

  -- The first loop of `SyncServices`: the services that are wanted, each once.
  unfoldable pub collect_wanted :
      List String → Map String Service → List Service → Map String Service ⊎ String
  unfolding parse_service is_compatible
  collect_wanted primary wanted [] = inl wanted
  collect_wanted primary wanted (service ∷ services) =
      let rest = collect_wanted primary (insert service.stack_id service wanted) services in
      elim (parse_service parsers service) [
        | none ↦ inr "invalid service address or ownership"
        | some _ ↦
            if elim (lookup service.stack_id wanted) [ none ↦ false | some _ ↦ true ]
              || any (λ e. e.1.address == service.address) wanted
            then inr "duplicate service ownership"
            else if not (is_compatible parsers service.address primary)
            then inr "service subnet is not compatible"
            else rest
      ]

  -- The loop that removes: over the services of the journal, which it changes.
  unfoldable pub drop_unwanted :
      Map String Service → Map String Service → Journal → M (Outcome × Journal)
  unfolding service_eq service_of call save
  drop_unwanted wanted [] s = pure (none, s)
  drop_unwanted wanted ((id, service) ∷ services) s =
      if service_eq (service_of id wanted) service then drop_unwanted wanted services s else (do
        e ← call env (change_service service false)
        elim e [
          | some x ↦ pure (some x, s)
          | none ↦ do
            let s' : Journal = record s { services = erase id s.services }
            unsaved ← save env s'
            elim unsaved [ some x ↦ pure (some x, s') | none ↦ drop_unwanted wanted services s' ]
        ])

  -- The loop that adds, over the wanted services.
  unfoldable pub add_wanted : List String → Map String Service → Journal → M Outcome
  unfolding service_eq service_of contains call save
  add_wanted addresses [] s = pure none
  add_wanted addresses ((id, service) ∷ wanted) s =
      if service_eq (service_of id s.services) service && contains addresses service.address
      then add_wanted addresses wanted s
      else (do
        let s' : Journal = record s { services = insert id service s.services }
        unsaved ← save env s'
        elim unsaved [
          | some x ↦ pure (some x)
          | none ↦ do
            e ← call env (change_service service true)
            elim e [ some x ↦ pure (some x) | none ↦ add_wanted addresses wanted s' ]
        ])

  -- `SyncServices` once it knows what is wanted.
  unfoldable pub sync_wanted : Live → Map String Service → Journal → M Outcome
  unfolding validate_services drop_unwanted add_wanted
  sync_wanted live wanted s = elim (validate_services parsers s.confirmed_config wanted) [
    | some e ↦ pure (some e)
    | none ↦ do
      (e, s') ← drop_unwanted wanted s.services s
      elim e [ some x ↦ pure (some x) | none ↦ add_wanted live.addresses wanted s' ]
  ]

  -- The function of `SyncServices` under the lock.
  unfoldable pub sync_services_locked : List Service → Journal → M Outcome
  unfolding ask collect_wanted primary_addresses sync_wanted
  sync_services_locked services s =
      if not (s.pending == "") then pure (some "network change outstanding") else (do
        live ← ask env env.live
        elim live [
          | none ↦ pure (some "live state")
          | some l ↦ elim (collect_wanted (primary_addresses l.addresses s.services) [] services) [
            | inr e ↦ pure (some e)
            | inl wanted ↦ sync_wanted l wanted s
          ]
        ])

  -- `SyncServices`
  unfoldable pub sync_services : List Service → M Outcome
  unfolding locked sync_services_locked
  sync_services services = locked env (sync_services_locked services)
