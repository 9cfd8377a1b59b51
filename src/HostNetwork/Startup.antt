-- ===== src/HostNetwork/Startup.antt =====
-- `Initialize` of internal/hostnetwork/manager.go, at the start of the host's daemon.
use floatlab_core.Base.{
  List, Option, String, [], false, if◌then◌else◌, inl, inr, nat_eq, none, not, some, string_eq,
  true, ◌&&◌, ◌==◌, ◌∷◌, ◌⊎◌,
}
use floatlab_core.Base.Steps.{pure, ◌>>=◌}
use floatlab_core.HostNetwork.{
  Adapter, Change, Env, Journal, Live, M, NetworkConfig, Outcome, absent, archive_legacy, decoded,
  default_config, rolled_back, undecodable, unreadable,
}
use floatlab_core.HostNetwork.Config.{
  Parsers, contains, invalid, valid, validate, validate_services,
}
use floatlab_core.HostNetwork.Disk.{ask, call, change_of, locked, put_change, save, write_config}
use floatlab_core.HostNetwork.Changes.{apply_and_verify}

-- The first eligible adapter that is not excluded.
unfoldable pub first_uplink : List String → List Adapter → Option String
unfolding contains
first_uplink excluded [] = none
first_uplink excluded (a ∷ adapters) =
    let rest = first_uplink excluded adapters in
    if a.eligible && not (contains excluded a.permanent_mac) then some a.permanent_mac else rest

module _ (parsers : Parsers) (revision_of : NetworkConfig → String) (env : Env) where
  -- What network.toml asks for. One that cannot be used is replaced by the confirmed configuration,
  -- and one that is absent by the default after the legacy files are archived; a file that cannot be
  -- read leaves the default for a host with a confirmed configuration.
  unfoldable pub read_config : Journal → M (NetworkConfig ⊎ String)
  unfolding ask call validate
  read_config s = do
    file ← ask env env.file
    elim file [
      | decoded c ↦ elim (validate parsers c) [
        | valid v ↦ pure (inl v)
        | invalid e ↦ if s.has_confirmed then pure (inl s.confirmed_config) else pure (inr e)
      ]
      | undecodable e ↦ if s.has_confirmed then pure (inl s.confirmed_config) else pure (inr e)
      | unreadable ↦
          if s.has_confirmed then pure (inl default_config) else pure (inr "network.toml")
      | absent ↦ do
        e ← call env archive_legacy
        pure (elim e [ some x ↦ inr x | none ↦ inl default_config ])
    ]

  -- The configuration to apply, and the one that the kernel may hold.
  unfoldable pub choose : NetworkConfig → Journal → NetworkConfig × NetworkConfig
  unfolding change_of
  choose c s =
      let wanted : NetworkConfig = if s.needs_config then s.confirmed_config else c in
      if not (s.pending == "")
      then (s.confirmed_config, (change_of s.pending s).candidate)
      else elim s.startup [
        | none ↦ (wanted, s.confirmed_config)
        | some started ↦ (if s.has_confirmed then s.confirmed_config else wanted, started)
      ]

  -- A new boot has no services, and the configuration to write is taken note of.
  abbrev pub booted : String → Journal → Journal
  booted boot s = record s {
    needs_config = false;
    services = if s.boot_id == boot then s.services else [];
    boot_id = boot;
  }

  abbrev pub recovered_change : Change → Change
  recovered_change c = record c {
    state = rolled_back;
    error = "unconfirmed change recovered on startup";
  }

  -- The end of `Initialize`: the applied configuration is confirmed, and a pending change rolled back.
  unfoldable pub settle : NetworkConfig → Journal → M Outcome
  unfolding change_of save write_config
  settle c s = do
    let closed : Journal =
        if s.pending == ""
        then s
        else put_change s.pending (recovered_change (change_of s.pending s))
            (record s { pending = "" })
    let s' : Journal = record closed { confirmed_config = c; has_confirmed = true; startup = none }
    unsaved ← save env (record s' { needs_config = true })
    elim unsaved [
      | some x ↦ pure (some x)
      | none ↦ do
        unwritten ← write_config env c
        elim unwritten [
          | some x ↦ pure (some x)
          | none ↦ save env (record s' { needs_config = false })
        ]
    ]

  -- `Initialize` once the bridge has its address: ownership is saved before the kernel is touched.
  unfoldable pub start_up : NetworkConfig → NetworkConfig → Journal → M Outcome
  unfolding validate_services save apply_and_verify settle
  start_up c previous s = elim (validate_services parsers c s.services) [
    | some e ↦ pure (some e)
    | none ↦ do
      let s' : Journal = record s { startup = some c }
      unsaved ← save env s'
      elim unsaved [
        | some x ↦ pure (some x)
        | none ↦ do
          e ← apply_and_verify parsers revision_of env previous c s'.services
          elim e [ some x ↦ pure (some x) | none ↦ settle c s' ]
      ]
  ]

  unfoldable pub with_bridge : NetworkConfig → Live → Journal → Option Journal
  unfolding first_uplink
  with_bridge c live s =
      if not (s.bridge_mac == "")
      then some s
      else elim (first_uplink c.excluded_macs live.adapters) [
        | none ↦ none
        | some m ↦ if m == "" then none else some (record s { bridge_mac = m })
      ]

  -- `Initialize` for the boot that the kernel names.
  unfoldable pub initialize_boot : NetworkConfig → String → Journal → M Outcome
  unfolding choose validate ask with_bridge start_up
  initialize_boot file boot s = do
    let chosen : NetworkConfig × NetworkConfig = choose file s
    elim (validate parsers chosen.0) [
      | invalid e ↦ pure (some e)
      | valid c ↦ do
        live ← ask env env.live
        elim live [
          | none ↦ pure (some "live state")
          | some l ↦ elim (with_bridge c l (booted boot s)) [
            | none ↦ pure (some "no eligible Ethernet adapter for LAN bridge")
            | some s' ↦ start_up c chosen.1 s'
          ]
        ]
    ]

  -- The function of `Initialize` under the lock.
  unfoldable pub initialize_locked : Journal → M Outcome
  unfolding read_config ask initialize_boot
  initialize_locked s = do
    file ← read_config s
    elim file [
      | inr e ↦ pure (some e)
      | inl c ↦ do
        boot ← ask env env.boot_id
        elim boot [ none ↦ pure (some "boot_id") | some b ↦ initialize_boot c b s ]
    ]

  -- `Initialize`
  unfoldable pub initialize : M Outcome
  unfolding locked initialize_locked
  initialize = locked env initialize_locked
