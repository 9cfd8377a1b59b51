-- ===== src/HostNetwork/Changes.antt =====
-- A change of the configuration: `Submit`, `apply`, `restore`, `Confirm` and `Rollback` of
-- internal/hostnetwork/manager.go.
use floatlab_core.Base.{
  Bool, List, Map, Option, String, [], all, byte_length, concat, if◌then◌else◌, leb, ltb, nat_eq,
  none, not, some, string_eq, suc, zero, ℕ, ◌&&◌, ◌+◌, ◌==◌, ◌||◌, ◌∷◌,
}
use floatlab_core.Base.Steps.{pure, ◌>>=◌}
use floatlab_core.HostNetwork.{
  Adapter, Change, Env, Journal, Live, M, NetworkConfig, Outcome, Request, Service, apply_config,
  applying, arm_timer, awaiting_confirmation, cancel_timer, failed, rolled_back,
}
use floatlab_core.HostNetwork.Config.{
  Parsers, contains, invalid, is_compatible, primary_addresses, valid, validate, validate_services,
}
use floatlab_core.HostNetwork.Disk.{
  ask, call, change_of, journal_of, locked, put_change, save, write_config, zero_change,
}

-- 60 seconds.
abbrev pub confirmation_time : ℕ
confirmation_time = 60000000

-- The changes by the key and the actor of their request.
unfoldable pub find_request : String → String → Map String Change → Option Change
find_request key actor [] = none
find_request key actor ((_, c) ∷ changes) =
    let rest = find_request key actor changes in
    if c.key == key && c.actor == actor then some c else rest

-- The permanent addresses of the adapters that can be used.
unfoldable pub eligible_macs : List Adapter → List String
eligible_macs [] = []
eligible_macs (a ∷ adapters) =
    let rest = eligible_macs adapters in if a.eligible then a.permanent_mac ∷ rest else rest

module _ (parsers : Parsers) (revision_of : NetworkConfig → String) (env : Env) where
  -- Whether the host keeps an uplink under the configuration and has the members of its bonds.
  unfoldable pub check_adapters : NetworkConfig → Live → Outcome
  unfolding contains eligible_macs
  check_adapters c live =
      let macs = eligible_macs live.adapters in
      if not (all (λ b. all (λ m. contains macs m) b.members) c.bonds)
      then some "bond member is not an available Ethernet adapter"
      else if all (λ m. contains c.excluded_macs m) macs
      then some "configuration must retain an Ethernet uplink"
      else none

  abbrev pub new_change : String → Request → NetworkConfig → Journal → Change
  new_change id p c s = record zero_change {
    id = id;
    state = applying;
    candidate = c;
    previous = s.confirmed_config;
    key = p.key;
    actor = p.actor;
    request_hash = concat p.revision (concat ":" (revision_of c));
  }

  -- `Submit` for a request that no change has: with no error, the second result is the new change.
  unfoldable pub create_change : Request → NetworkConfig → Journal → M (Outcome × Option Change)
  unfolding ask save check_adapters validate_services
  create_change p c s =
      if not (s.pending == "")
      then pure (some "a network change is outstanding", none)
      else if not (p.revision == revision_of s.confirmed_config)
      then pure (some "stale network revision", none)
      else elim (validate_services parsers c s.services) [
        | some e ↦ pure (some e, none)
        | none ↦ do
          live ← ask env env.live
          elim live [
            | none ↦ pure (some "live state", none)
            | some l ↦ elim (check_adapters c l) [
              | some e ↦ pure (some e, none)
              | none ↦ do
                id ← ask env env.uuid
                let created : Change = new_change id p c s
                e ← save env (put_change id created (record s { pending = id }))
                pure (e, elim e [ some _ ↦ none | none ↦ some created ])
            ]
          ]
      ]

  unfoldable pub is_request_invalid : Request → Bool
  is_request_invalid p = p.key == "" || ltb 255 (byte_length p.key) || p.actor == ""

  -- The function of `Submit` under the lock.
  unfoldable pub submit_locked : Request → Journal → M (Outcome × Option Change)
  unfolding is_request_invalid validate find_request create_change
  submit_locked p s =
      if is_request_invalid p
      then pure (some "idempotency key and authenticated actor required", none)
      else elim (validate parsers p.config) [
        | invalid e ↦ pure (some e, none)
        | valid c ↦ elim (find_request p.key p.actor s.changes) [
          | some old ↦
              if old.request_hash == concat p.revision (concat ":" (revision_of c))
              then pure (none, some old)
              else pure (some "idempotency key already used for another request", none)
          | none ↦ create_change p c s
        ]
      ]

  -- `Submit` up to the goroutine that it starts for a change it created.
  unfoldable pub submit : Request → M (Outcome × Option Change)
  unfolding ask submit_locked
  submit p = do
    e ← ask env env.lock
    elim e [ some x ↦ pure (some x, none) | none ↦ λ w. submit_locked p (journal_of w.journal) w ]

  -- The loop of `verifyServices`, until its context ends after some polls.
  unfoldable pub poll_services : ℕ → Map String Service → M Outcome
  unfolding ask is_compatible primary_addresses
  poll_services zero services = pure (some "DHCP lease is incompatible with active service pools")
  poll_services (suc n) services = do
    live ← ask env env.live
    elim live [
      | none ↦ pure (some "live state")
      | some l ↦
          if all (λ e. is_compatible parsers e.1.address (primary_addresses l.addresses services))
            services
          then pure none
          else poll_services n services
    ]

  -- `verifyServices`; the context allows at least one poll.
  unfoldable pub verify_services : Map String Service → M Outcome
  unfolding ask poll_services
  verify_services [] = pure none
  verify_services services = do n ← ask env env.polls; poll_services (suc n) services

  -- The backend applies a configuration, and one by DHCP is compared with the services.
  unfoldable pub apply_and_verify : NetworkConfig → NetworkConfig → Map String Service → M Outcome
  unfolding call verify_services
  apply_and_verify old new services = do
    e ← call env (apply_config old new)
    elim e [
      | some x ↦ pure (some x)
      | none ↦ if new.ipv4.mode == "dhcp" then verify_services services else pure none
    ]

  abbrev pub with_reason : String → Change → Change
  with_reason reason c = record c {
    state = rolled_back;
    error = if c.error == "" then reason else c.error;
  }

  -- `restore`
  unfoldable pub restore : Journal → String → String → M Outcome
  unfolding change_of apply_and_verify write_config save call
  restore s id reason = do
    let c : Change = change_of id s
    e ← apply_and_verify c.candidate c.previous s.services
    elim e [
      | some x ↦ do
        _ ← save env (
            put_change id
              (record c { state = failed; error = concat reason (concat ": rollback failed: " x) })
              s)
        pure (some x)
      | none ↦ do
        unwritten ← write_config env c.previous
        elim unwritten [
          | some x ↦ pure (some x)
          | none ↦ do
            unsaved ← save env (
                put_change id (with_reason reason c)
                  (record s { confirmed_config = c.previous; pending = "" }))
            elim unsaved [
              | some x ↦ pure (some x)
              | none ↦ do _ ← call env (cancel_timer id); pure none
            ]
        ]
    ]

  -- `apply` once the timer is armed.
  unfoldable pub apply_armed : Journal → String → Change → M Outcome
  unfolding apply_and_verify restore ask save
  apply_armed s id c = do
    e ← apply_and_verify c.previous c.candidate s.services
    elim e [
      | some x ↦ restore (put_change id (record c { error = x }) s) id "apply failed"
      | none ↦ do
        now ← ask env env.now
        (if leb c.deadline now
            then restore s id "confirmation deadline expired during apply"
            else save env (put_change id (record c { state = awaiting_confirmation }) s))
    ]

  -- The function of `apply` under the lock.
  unfoldable pub apply_locked : String → Journal → M Outcome
  unfolding change_of ask save call apply_armed
  apply_locked id s = if not (s.pending == id) then pure none else (do
    now ← ask env env.now
    let c : Change = record (change_of id s) { deadline = now + confirmation_time }
    let s' : Journal = put_change id c s
    unsaved ← save env s'
    elim unsaved [
      | some x ↦ pure (some x)
      | none ↦ do
        unarmed ← call env (arm_timer id c.deadline)
        elim unarmed [
          | some x ↦ save env (
              put_change id (record c { state = failed; error = concat "cannot arm rollback: " x })
                (record s' { pending = "" }))
          | none ↦ apply_armed s' id c
        ]
    ])

  -- `apply`, the goroutine of `Submit`.
  unfoldable pub apply : String → M Outcome
  unfolding locked apply_locked
  apply id = locked env (apply_locked id)
