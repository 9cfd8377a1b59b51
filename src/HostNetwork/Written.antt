-- ===== src/HostNetwork/Written.antt =====
-- What the writes of internal/hostnetwork/manager.go leave on the disk when they report no error.
use floatlab_core.Base.{String, nat_eq, none, refl, some, string_eq, suc, ◌∙◌, ◌≡◌}
use floatlab_core.Base.Steps.{on_option, pure, ◌>>=◌}
use floatlab_core.HostNetwork.{
  Env, Journal, M, NetworkConfig, Outcome, World, WriteOutcome, lost, torn, written,
}
use floatlab_core.HostNetwork.Disk.{journal_of, locked, save, write_config}

-- The disk holds this configuration as the confirmed one, in the journal and in network.toml, and
-- nothing is pending.
pub record IsSettled (c : NetworkConfig) (w : World) : Type 0 where
  pub journal : Journal
  pub on_disk : w.journal ≡ some journal
  pub confirmed_config : journal.confirmed_config ≡ c
  pub pending : journal.pending ≡ ""
  pub toml : w.toml ≡ some c

-- What an operation comes to that has an effect and goes on when that succeeds.
pub on_then :
    (P : Outcome × World → Type 0) (m k : M Outcome) (w : World)
    → ((x : String) (v : World) → P (some x, v))
    → ((m w).0 ≡ none → P (k (m w).1))
    → P ((m >>= λ e. elim e [ some x ↦ pure (some x) | none ↦ k ]) w)
on_then P m k w h l = on_option P (m w).0 (λ x. pure (some x)) k (m w).1 (λ x _. h x (m w).1) l

-- A result for those that report no error.
unfoldable pub Succeeds : (World → Type 0) → Outcome × World → Type 0
Succeeds Q r = r.0 ≡ none → Q r.1

pub some-Succeeds : (Q : World → Type 0) (x : String) (w : World) → Succeeds Q (some x, w)
unfolding Succeeds
some-Succeeds Q x w h = cc h

abbrev saved : Journal → World → WriteOutcome → Outcome × World
saved s w written = (none, record w { effects = suc w.effects; journal = some s })
saved s w (torn e) = (some e, record w { effects = suc w.effects; journal = some s })
saved s w (lost e) = (some e, record w { effects = suc w.effects })

abbrev configured : NetworkConfig → World → WriteOutcome → Outcome × World
configured c w written = (none, record w { effects = suc w.effects; toml = some c })
configured c w (torn e) = (some e, record w { effects = suc w.effects; toml = some c })
configured c w (lost e) = (some e, record w { effects = suc w.effects })

saved-none :
    (s : Journal) (w : World) (o : WriteOutcome)
    → (saved s w o).0 ≡ none
    → ((saved s w o).1.journal ≡ some s) × ((saved s w o).1.toml ≡ w.toml)
saved-none s w written h = (refl, refl)
saved-none s w (torn e) h = cc h
saved-none s w (lost e) h = cc h

configured-none :
    (c : NetworkConfig) (w : World) (o : WriteOutcome)
    → (configured c w o).0 ≡ none
    → (configured c w o).1.toml ≡ some c
configured-none c w written h = refl
configured-none c w (torn e) h = cc
configured-none c w (lost e) h = cc

module _ (env : Env) where
  pub save-written :
      (s : Journal) (w : World)
      → (save env s w).0 ≡ none
      → ((save env s w).1.journal ≡ some s) × ((save env s w).1.toml ≡ w.toml)
  unfolding save
  save-written s w = saved-none s w (env.write w.effects)

  pub write_config-written :
      (c : NetworkConfig) (w : World)
      → (write_config env c w).0 ≡ none
      → (write_config env c w).1.toml ≡ some c
  unfolding write_config
  write_config-written c w = configured-none c w (env.write w.effects)

  -- The three writes of a configuration that is confirmed.
  pub written_thrice :
      (s t : Journal) (c : NetworkConfig)
      → t.confirmed_config ≡ c
      → t.pending ≡ ""
      → (w : World)
      → Succeeds
          (λ v. IsSettled c v × (v.journal ≡ some t))
          ((save env s >>= λ e. elim e as (λ x. M Outcome) [
            | some x ↦ pure (some x)
            | none ↦ write_config env c >>= λ e. elim e as (λ x. M Outcome) [
              | some x ↦ pure (some x)
              | none ↦ save env t
            ]
          ])
            w)
  unfolding Succeeds
  written_thrice s t c e p w = on_then (Succeeds Q) (save env s) _ w (some-Succeeds Q) (λ _.
      let v : World = (save env s w).1 in
      on_then (Succeeds Q) (write_config env c) (save env t) v (some-Succeeds Q) (λ h k.
        let (j, m) = save-written t (write_config env c v).1 k in
        (
          record {
            journal = t;
            on_disk = j;
            confirmed_config = e;
            pending = p;
            toml = m ∙ write_config-written c v h;
          },
          j,
        )))
    where
      Q : World → Type 0
      Q v = IsSettled c v × (v.journal ≡ some t)

  -- Under the lock.
  pub locked-Succeeds :
      (Q : World → Type 0) (fn : Journal → M Outcome) (w : World)
      → ((v : World) → v.journal ≡ w.journal → Succeeds Q (fn (journal_of w.journal) v))
      → Succeeds Q (locked env fn w)
  unfolding locked
  locked-Succeeds Q fn w h =
      let v : World = record w { effects = suc w.effects } in
      on_option (Succeeds Q) (env.lock w.effects) (λ x. pure (some x))
        (λ u. fn (journal_of u.journal) u) v (λ x _. some-Succeeds Q x v) (λ _. h v refl)
