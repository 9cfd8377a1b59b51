-- ===== src/HostNetwork/Decisions.antt =====
-- `Confirm`, `Rollback` and `MigrateDefault` of internal/hostnetwork/manager.go.
use floatlab_core.Base.{
  Bool, String, false, if◌then◌else◌, leb, lookup, nat_eq, none, not, some, string_eq, true, ◌&&◌,
  ◌==◌, ◌||◌,
}
use floatlab_core.Base.Steps.{pure, ◌>>=◌}
use floatlab_core.HostNetwork.{
  Change, ChangeState, Env, Journal, M, NetworkConfig, Outcome, awaiting_confirmation, cancel_timer,
  confirmed, rolled_back,
}
use floatlab_core.HostNetwork.Config.{Parsers}
use floatlab_core.HostNetwork.Disk.{ask, call, locked, put_change, save, write_config}
use floatlab_core.HostNetwork.Changes.{restore}

unfoldable pub is_confirmed : ChangeState → Bool
is_confirmed confirmed = true
is_confirmed _ = false

unfoldable pub is_awaiting : ChangeState → Bool
is_awaiting awaiting_confirmation = true
is_awaiting _ = false

unfoldable pub is_settled : ChangeState → Bool
is_settled rolled_back = true
is_settled confirmed = true
is_settled _ = false

module _ (parsers : Parsers) (revision_of : NetworkConfig → String) (env : Env) where
  -- The journal and then network.toml: until that is written, the journal asks for it.
  unfoldable pub save_and_write : Journal → M Outcome
  unfolding save write_config
  save_and_write s = do
    unsaved ← save env (record s { needs_config = true })
    elim unsaved [
      | some x ↦ pure (some x)
      | none ↦ do
        unwritten ← write_config env s.confirmed_config
        elim unwritten [
          | some x ↦ pure (some x)
          | none ↦ save env (record s { needs_config = false })
        ]
    ]

  -- `Confirm` before the deadline.
  unfoldable pub commit_change : String → Change → Journal → M Outcome
  unfolding save_and_write call
  commit_change id c s = do
    e ← save_and_write (
        put_change id (record c { state = confirmed })
          (record s { confirmed_config = c.candidate; pending = "" }))
    elim e [ some x ↦ pure (some x) | none ↦ do _ ← call env (cancel_timer id); pure none ]

  -- The function of `Confirm` under the lock.
  unfoldable pub confirm_locked : String → Journal → M Outcome
  unfolding is_confirmed is_awaiting ask restore commit_change
  confirm_locked id s = elim (lookup id s.changes) [
    | none ↦ pure (some "network change not found")
    | some c ↦
        if is_confirmed c.state
        then pure none
        else if not (s.pending == id) || not (is_awaiting c.state)
        then pure (some "change cannot be confirmed")
        else (do
          now ← ask env env.now
          (if leb c.deadline now
              then (do
                e ← restore parsers revision_of env s id "confirmation deadline expired"
                pure (elim e [ some x ↦ some x | none ↦ some "confirmation deadline expired" ]))
              else commit_change id c s))
  ]

  -- `Confirm` up to the reading of the change that it answers with.
  unfoldable pub confirm : String → M Outcome
  unfolding locked confirm_locked
  confirm id = locked env (confirm_locked id)

  -- The function of `Rollback` under the lock.
  unfoldable pub rollback_locked : String → Bool → Journal → M Outcome
  unfolding is_settled ask restore
  rollback_locked id expired_only s = elim (lookup id s.changes) [
    | none ↦ pure (some "network change not found")
    | some c ↦
        if not (s.pending == id)
        then pure (if is_settled c.state then none else some "change is not pending")
        else (do
          now ← ask env env.now
          (if expired_only && not (leb c.deadline now)
              then pure (some "rollback timer fired before deadline")
              else restore parsers revision_of env s id "network change not confirmed"))
  ]

  -- `Rollback`, by a request or by the timer.
  unfoldable pub rollback : String → Bool → M Outcome
  unfolding locked rollback_locked
  rollback id expired_only = locked env (rollback_locked id expired_only)

  -- The function of `MigrateDefault` under the lock.
  unfoldable pub migrate_locked : String → Journal → M Outcome
  unfolding save_and_write
  migrate_locked pool_id s =
      if not (s.pending == "")
      then pure (some "network change outstanding")
      else if not (s.confirmed_config.default_pool_id == "")
      then pure none
      else save_and_write
          (record s { confirmed_config = record s.confirmed_config { default_pool_id = pool_id } })

  -- `MigrateDefault`
  unfoldable pub migrate_default : String → M Outcome
  unfolding locked migrate_locked
  migrate_default pool_id = locked env (migrate_locked pool_id)
