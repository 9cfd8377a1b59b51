-- ===== src/HostNetwork/Reach.antt =====
-- The journals that the operations of internal/hostnetwork/manager.go lead to, in any order. Each
-- operation has an environment of its own: a crash within one is an environment in which all writes
-- from some point on are lost.
use floatlab_core.Base.{
  Bool, List, Option, String, nat_eq, none, string_eq, subst, sym, ℕ, ◌≡◌, ◌≢◌,
}
use floatlab_core.HostNetwork.{Env, NetworkConfig, Request, Service, World}
use floatlab_core.HostNetwork.Disk.{journal_of}
use floatlab_core.HostNetwork.Config.{Parsers}
use floatlab_core.HostNetwork.Changes.{apply, submit}
use floatlab_core.HostNetwork.Decisions.{confirm, migrate_default, rollback}
use floatlab_core.HostNetwork.Services.{set_service, sync_services}
use floatlab_core.HostNetwork.Startup.{initialize}
use floatlab_core.HostNetwork.Sound.{IsSound, new_journal-IsSound}
use floatlab_core.HostNetwork.Keeps.{IsSoundOn, Keeps}
use floatlab_core.HostNetwork.Kept.{apply-Keeps}
use floatlab_core.HostNetwork.Decided.{confirm-Keeps, migrate_default-Keeps, rollback-Keeps}
use floatlab_core.HostNetwork.Served.{set_service-Keeps}
use floatlab_core.HostNetwork.Synced.{sync_services-Keeps}
use floatlab_core.HostNetwork.Submitted.{submit-Keeps}
use floatlab_core.HostNetwork.Started.{initialize-Keeps}

-- The operations of a manager, with what their callers and the environment provide: identifiers are
-- not empty.
pub data Operation : Type 0 where
  starts : Operation
  submits : Request → Operation
  applies confirms : String → Operation
  rolls_back : String → Bool → Operation
  sets_service : Service → Bool → Operation
  syncs_services : List Service → Operation
  migrates : String → Operation

unfoldable pub IsNamed : Env → Operation → Type 0
IsNamed env (submits p) = (n : ℕ) → env.uuid n ≢ ""
IsNamed env (applies id) = id ≢ ""
IsNamed env _ = Unit

module _ (parsers : Parsers) (revision_of : NetworkConfig → String) where
  unfoldable pub performed : Env → Operation → World → World
  unfolding initialize submit apply confirm rollback set_service sync_services migrate_default
  performed env starts w = (initialize parsers revision_of env w).1
  performed env (submits p) w = (submit parsers revision_of env p w).1
  performed env (applies id) w = (apply parsers revision_of env id w).1
  performed env (confirms id) w = (confirm parsers revision_of env id w).1
  performed env (rolls_back id expired_only) w =
      (rollback parsers revision_of env id expired_only w).1
  performed env (sets_service service add) w = (set_service parsers env service add w).1
  performed env (syncs_services services) w = (sync_services parsers env services w).1
  performed env (migrates pool_id) w = (migrate_default parsers revision_of env pool_id w).1

  -- The worlds that operations lead to from a host without a journal; someone may edit network.toml.
  pub data IsReached : World → Type 0 where
    fresh : {w : World} → w.journal ≡ none → IsReached w
    edited :
        {w : World} (c : Option NetworkConfig) → IsReached w → IsReached (record w { toml = c })
    did :
        {w : World} (env : Env) (o : Operation)
        → IsNamed env o
        → IsReached w
        → IsReached (performed env o w)

  performed-IsSoundOn :
      (env : Env) (o : Operation)
      → IsNamed env o
      → (w : World) → IsSoundOn w
      → IsSoundOn (performed env o w)
  unfolding performed IsNamed Keeps
  performed-IsSoundOn env starts n = initialize-Keeps parsers revision_of env
  performed-IsSoundOn env (submits p) n = submit-Keeps parsers revision_of env p n
  performed-IsSoundOn env (applies id) n = apply-Keeps parsers revision_of env id n
  performed-IsSoundOn env (confirms id) n = confirm-Keeps parsers revision_of env id
  performed-IsSoundOn env (rolls_back id expired_only) n =
      rollback-Keeps parsers revision_of env id expired_only
  performed-IsSoundOn env (sets_service service add) n = set_service-Keeps parsers env service add
  performed-IsSoundOn env (syncs_services services) n = sync_services-Keeps parsers env services
  performed-IsSoundOn env (migrates pool_id) n =
      migrate_default-Keeps parsers revision_of env pool_id

  -- Whatever operations ran on a host, in any order and whichever of their calls and writes failed, its
  -- journal is sound: a pending change is in it and would go back to the confirmed configuration, no
  -- other change is under way, and each service stands under its own stack with an address that no
  -- other stack has.
  pub IsReached-IsSound : {w : World} → IsReached w → IsSound (journal_of w.journal)
  unfolding IsSoundOn
  IsReached-IsSound (fresh {w} e) = subst (λ j. IsSound (journal_of j)) (sym e) new_journal-IsSound
  IsReached-IsSound (edited c r) = IsReached-IsSound r
  IsReached-IsSound (did {w} env o n r) = performed-IsSoundOn env o n w (IsReached-IsSound r)
