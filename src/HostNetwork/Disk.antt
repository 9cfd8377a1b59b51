-- ===== src/HostNetwork/Disk.antt =====
-- The journal, network.toml and the calls of the backend (internal/hostnetwork/manager.go).
use floatlab_core.Base.{
  Option, String, [], false, insert, lookup, nat_eq, none, some, string_eq, suc, ℕ, ◌∷◌,
}
use floatlab_core.Base.Steps.{pure, ◌>>=◌}
use floatlab_core.HostNetwork.{
  Call, Change, Env, Journal, M, NetworkConfig, Outcome, default_config, lost, no_state, torn,
  written,
}

-- The state of a journal that is not there.
abbrev pub new_journal : Journal
new_journal = record {
  has_confirmed = false;
  startup = none;
  boot_id = "";
  confirmed_config = default_config;
  bridge_mac = "";
  services = [];
  pending = "";
  needs_config = false;
  changes = [];
}

abbrev pub journal_of : Option Journal → Journal
journal_of none = new_journal
journal_of (some s) = s

-- The zero value of `diskChange`, which a missing key reads as.
abbrev pub zero_change : Change
zero_change = record {
  id = "";
  state = no_state;
  deadline = 0;
  error = "";
  candidate = record default_config {
    version = 0;
    dns_servers = [];
    ipv4 = record { mode = ""; address = ""; netmask = ""; gateway = "" };
  };
  previous = record default_config {
    version = 0;
    dns_servers = [];
    ipv4 = record { mode = ""; address = ""; netmask = ""; gateway = "" };
  };
  key = "";
  actor = "";
  request_hash = "";
}

unfoldable pub change_of : String → Journal → Change
change_of id s = elim (lookup id s.changes) [ none ↦ zero_change | some c ↦ c ]

abbrev pub put_change : String → Change → Journal → Journal
put_change id c s = record s { changes = insert id c s.changes }

module _ (env : Env) where
  -- `Manager.save`
  unfoldable pub save : Journal → M Outcome
  save s w =
      let w' = record w { effects = suc w.effects } in
      elim (env.write w.effects) [
        | written ↦ (none, record w' { journal = some s })
        | torn e ↦ (some e, record w' { journal = some s })
        | lost e ↦ (some e, w')
      ]

  -- `Manager.writeConfig`
  unfoldable pub write_config : NetworkConfig → M Outcome
  write_config c w =
      let w' = record w { effects = suc w.effects } in
      elim (env.write w.effects) [
        | written ↦ (none, record w' { toml = some c })
        | torn e ↦ (some e, record w' { toml = some c })
        | lost e ↦ (some e, w')
      ]

  -- A method of `Backend`.
  unfoldable pub call : Call → M Outcome
  call c w =
      let e = env.call w.effects c in
      (e, record w { effects = suc w.effects; calls = (c, e) ∷ w.calls })

  -- What is read from outside.
  unfoldable pub ask : {A : Type 0} → (ℕ → A) → M A
  ask f w = (f w.effects, record w { effects = suc w.effects })

  -- `Manager.locked`, with what opening and decoding the journal gives.
  unfoldable pub locked : (Journal → M Outcome) → M Outcome
  unfolding ask
  locked fn = do
    e ← ask env.lock
    elim e [ some x ↦ pure (some x) | none ↦ λ w. fn (journal_of w.journal) w ]
