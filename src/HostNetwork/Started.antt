-- ===== src/HostNetwork/Started.antt =====
-- The journal that `Initialize` of internal/hostnetwork/manager.go leave.
use floatlab_core.Base.{
  Bool, Bool-cases, Option, String, [], arith, false, if◌then◌else◌, inl, inr, nat_eq, none, not,
  refl, some, some-inj, string_eq, subst, true, ◌==◌, ◌≡◌, ◌⊎◌,
}
use floatlab_core.Base.Steps.{pure, ◌>>=◌}
use floatlab_core.HostNetwork.{
  ConfigFile, Env, Journal, Live, M, NetworkConfig, Outcome, absent, archive_legacy, decoded,
  default_config, undecodable, unreadable,
}
use floatlab_core.HostNetwork.Disk.{ask, call, change_of, put_change, save, write_config}
use floatlab_core.HostNetwork.Config.{Checked, Parsers, invalid, valid, validate, validate_services}
use floatlab_core.HostNetwork.Changes.{apply_and_verify}
use floatlab_core.HostNetwork.Startup.{
  booted, choose, first_uplink, initialize, initialize_boot, initialize_locked, read_config,
  recovered_change, settle, start_up, with_bridge,
}
use floatlab_core.HostNetwork.Sound.{
  IsOwned, IsSound, []-IsOwned, close-IsSound, is_open, set-IsSound,
}
use floatlab_core.HostNetwork.Keeps.{
  Keeps, ask-Keeps, bind-Keeps, call-Keeps, locked-Keeps, option-Keeps, pure-Keeps, save-Keeps,
  test-Keeps, then-Keeps, write_config-Keeps,
}
use floatlab_core.HostNetwork.Kept.{apply_and_verify-Keeps}

module _ (parsers : Parsers) (revision_of : NetworkConfig → String) (env : Env) where
  -- The pending change is rolled back before another configuration is confirmed.
  settle-Keeps :
      (c : NetworkConfig) (s : Journal) → IsSound s → Keeps (settle parsers revision_of env c s)
  unfolding settle is_open
  settle-Keeps c s i =
      closed-Keeps (if s.pending == "" then s else rolled_back_pending)
        (closed (Bool-cases (s.pending == "")))
    where
      rolled_back_pending : Journal
      rolled_back_pending =
          put_change s.pending (recovered_change parsers revision_of env (change_of s.pending s))
            (record s { pending = "" })

      closed :
          ((s.pending == "") ≡ true) ⊎ ((s.pending == "") ≡ false)
          → IsSound (if s.pending == "" then s else rolled_back_pending)
            × ((if s.pending == "" then s else rolled_back_pending).pending ≡ "")
      closed (inl t) = rw t (i, (string_eq.beq_iff s.pending "").0 t)
      closed (inr f) = rw f (
        close-IsSound s.pending (recovered_change parsers revision_of env (change_of s.pending s))
            s.confirmed_config s i refl (λ e. ground (arith, (string_eq.beq_iff s.pending "").1 e))
            refl,
        refl,
      )

      closed-Keeps :
          (t : Journal)
          → IsSound t × (t.pending ≡ "")
          → Keeps (
              save env (record t {
                confirmed_config = c;
                has_confirmed = true;
                startup = none;
                needs_config = true;
              })
              >>= λ u. elim u as (λ x. M Outcome) [
                | some x ↦ pure (some x)
                | none ↦ write_config env c >>= λ v. elim v as (λ x. M Outcome) [
                  | some x ↦ pure (some x)
                  | none ↦ save env (record t {
                    confirmed_config = c;
                    has_confirmed = true;
                    startup = none;
                    needs_config = false;
                  })
                ]
              ])
      closed-Keeps t (j, e) =
          let asking : Journal = record t {
            confirmed_config = c;
            has_confirmed = true;
            startup = none;
            needs_config = true;
          } in
          let wrote : Journal = record t {
            confirmed_config = c;
            has_confirmed = true;
            startup = none;
            needs_config = false;
          } in
          then-Keeps (save env asking) _
            (save-Keeps env asking (set-IsSound t asking j refl refl (λ n. absurd (n e)) j.owned))
            (then-Keeps (write_config env c) _ (write_config-Keeps env c)
              (save-Keeps env wrote (set-IsSound t wrote j refl refl (λ n. absurd (n e)) j.owned)))

  start_up-Keeps :
      (c previous : NetworkConfig) (s : Journal)
      → IsSound s
      → Keeps (start_up parsers revision_of env c previous s)
  unfolding start_up
  start_up-Keeps c previous s i =
      option-Keeps (validate_services parsers c s.services) _ _ (λ e _. pure-Keeps (some e))
        (λ _.
          let noted : Journal = record s { startup = some c } in
          let j : IsSound noted = set-IsSound s noted i refl refl (λ _. refl) i.owned in
          then-Keeps (save env noted) _ (save-Keeps env noted j) (
            then-Keeps (apply_and_verify parsers revision_of env previous c s.services) _
              (apply_and_verify-Keeps parsers revision_of env previous c s.services)
              (settle-Keeps c noted j)))

  with_bridge-IsSound :
      (c : NetworkConfig) (live : Live) (s t : Journal)
      → IsSound s
      → with_bridge parsers revision_of env c live s ≡ some t
      → IsSound t
  unfolding with_bridge
  with_bridge-IsSound c live s t i h = elim (Bool-cases (not (s.bridge_mac == ""))) [
    | inl y ↦ subst IsSound (some-inj (rw y at h)) i
    | inr n ↦ bridged (first_uplink c.excluded_macs live.adapters) (rw n at h)
  ]
    where
      bridged :
          (o : Option String)
          → elim o as (λ x. Option Journal) [
            | none ↦ none
            | some m ↦ if m == "" then none else some (record s { bridge_mac = m })
          ]
            ≡ some t
          → IsSound t
      bridged none h = cc h
      bridged (some m) h = elim (Bool-cases (m == "")) [
        | inl y ↦ none_some (rw y at h)
        | inr n ↦
            subst IsSound (some-inj (rw n at h))
              (set-IsSound s (record s { bridge_mac = m }) i refl refl (λ _. refl) i.owned)
      ]
        where
          none_some : {A : Type 0} → none ≡ some t → A
          none_some h = cc h

  booted-IsSound :
      (boot : String) (s : Journal) → IsSound s → IsSound (booted parsers revision_of env boot s)
  booted-IsSound boot s i =
      set-IsSound s (booted parsers revision_of env boot s) i refl refl (λ _. refl)
        (kept (s.boot_id == boot))
    where
      kept : (b : Bool) → IsOwned (if b then s.services else [])
      kept true = i.owned
      kept false = []-IsOwned

  initialize_boot-Keeps :
      (file : NetworkConfig) (boot : String) (s : Journal)
      → IsSound s
      → Keeps (initialize_boot parsers revision_of env file boot s)
  unfolding initialize_boot
  initialize_boot-Keeps file boot s i =
      checked (validate parsers (choose parsers revision_of env file s).0)
    where
      bridged : NetworkConfig → Live → M Outcome
      bridged c l =
          elim (with_bridge parsers revision_of env c l (booted parsers revision_of env boot s)) [
            | none ↦ pure (some "no eligible Ethernet adapter for LAN bridge")
            | some s' ↦
                start_up parsers revision_of env c (choose parsers revision_of env file s).1 s'
          ]

      checked :
          (v : Checked NetworkConfig)
          → Keeps (elim v as (λ x. M Outcome) [
            | invalid e ↦ pure (some e)
            | valid c ↦ ask env env.live >>= λ live. elim live as (λ x. M Outcome) [
              | none ↦ pure (some "live state")
              | some l ↦ bridged c l
            ]
          ])
      checked (invalid e) = pure-Keeps (some e)
      checked (valid c) = bind-Keeps (ask env env.live) _ (ask-Keeps env env.live) (λ live.
          option-Keeps live (bridged c) (pure (some "live state"))
            (λ l _.
              option-Keeps
                (with_bridge parsers revision_of env c l (booted parsers revision_of env boot s)) _
                _
                (λ t h. start_up-Keeps c (choose parsers revision_of env file s).1 t (
                  with_bridge-IsSound c l (booted parsers revision_of env boot s) t
                    (booted-IsSound boot s i) h))
                (λ _. pure-Keeps (some "no eligible Ethernet adapter for LAN bridge")))
            (λ _. pure-Keeps (some "live state")))

  read_config-Keeps : (s : Journal) → Keeps (read_config parsers revision_of env s)
  unfolding read_config
  read_config-Keeps s =
      bind-Keeps (ask env env.file) (λ f. read f) (ask-Keeps env env.file) read-Keeps
    where
      validated : Checked NetworkConfig → M (NetworkConfig ⊎ String)
      validated v = elim v [
        | valid v ↦ pure (inl v)
        | invalid e ↦ if s.has_confirmed then pure (inl s.confirmed_config) else pure (inr e)
      ]

      validated-Keeps : (v : Checked NetworkConfig) → Keeps (validated v)
      validated-Keeps (valid v) = pure-Keeps (inl v)
      validated-Keeps (invalid e) =
          test-Keeps s.has_confirmed _ _ (λ _. pure-Keeps (inl s.confirmed_config))
            (λ _. pure-Keeps (inr e))

      read : ConfigFile → M (NetworkConfig ⊎ String)
      read file = elim file [
        | decoded c ↦ validated (validate parsers c)
        | undecodable e ↦ if s.has_confirmed then pure (inl s.confirmed_config) else pure (inr e)
        | unreadable ↦
            if s.has_confirmed then pure (inl default_config) else pure (inr "network.toml")
        | absent ↦ call env archive_legacy >>= λ e.
            pure (elim e [ some x ↦ inr x | none ↦ inl default_config ])
      ]

      read-Keeps : (file : ConfigFile) → Keeps (read file)
      read-Keeps (decoded c) = validated-Keeps (validate parsers c)
      read-Keeps (undecodable e) =
          test-Keeps s.has_confirmed _ _ (λ _. pure-Keeps (inl s.confirmed_config))
            (λ _. pure-Keeps (inr e))
      read-Keeps unreadable =
          test-Keeps s.has_confirmed _ _ (λ _. pure-Keeps (inl default_config))
            (λ _. pure-Keeps (inr "network.toml"))
      read-Keeps absent =
          bind-Keeps (call env archive_legacy) _ (call-Keeps env archive_legacy)
            (λ e. pure-Keeps (elim e [ some x ↦ inr x | none ↦ inl default_config ]))

  initialize_locked-Keeps :
      (s : Journal) → IsSound s → Keeps (initialize_locked parsers revision_of env s)
  unfolding initialize_locked
  initialize_locked-Keeps s i =
      bind-Keeps (read_config parsers revision_of env s) (λ c. started c) (read_config-Keeps s)
        started-Keeps
    where
      started : NetworkConfig ⊎ String → M Outcome
      started file = elim file [
        | inr e ↦ pure (some e)
        | inl c ↦ ask env env.boot_id >>= λ boot. elim boot as (λ x. M Outcome) [
          | none ↦ pure (some "boot_id")
          | some b ↦ initialize_boot parsers revision_of env c b s
        ]
      ]

      started-Keeps : (file : NetworkConfig ⊎ String) → Keeps (started file)
      started-Keeps (inr e) = pure-Keeps (some e)
      started-Keeps (inl c) =
          bind-Keeps (ask env env.boot_id) _ (ask-Keeps env env.boot_id) (λ boot.
            option-Keeps boot (λ b. initialize_boot parsers revision_of env c b s)
              (pure (some "boot_id")) (λ b _. initialize_boot-Keeps c b s i)
              (λ _. pure-Keeps (some "boot_id")))

  pub initialize-Keeps : Keeps (initialize parsers revision_of env)
  unfolding initialize
  initialize-Keeps =
      locked-Keeps env (initialize_locked parsers revision_of env) initialize_locked-Keeps
