-- ===== src/ManagementUpdate/Reach.antt =====
-- The worlds that the operations of internal/managementupdate/manager.go reach, with a process that
-- may stop at any moment. `update.Acquire` holds a lock of the machine while a transaction runs, so
-- that an operation, its goroutine included, is one step.
use floatlab_core.Base.{
  List, Map, String, [], false, nat_eq, none, refl, some, string_eq, ℕ, ◌∷◌, ◌≡◌,
}
use floatlab_core.ManagementUpdate.{Env, Event, Status, World}
use floatlab_core.ManagementUpdate.Trace.{Inv, IsSafe, last_written}
use floatlab_core.ManagementUpdate.Requests.{Host, Request}
use floatlab_core.ManagementUpdate.Execute.{run_started}
use floatlab_core.ManagementUpdate.Recovery.{cleanup, recover, request_rollback_now}
use floatlab_core.ManagementUpdate.Start.{start}
use floatlab_core.ManagementUpdate.Actions.{Action, request_action, run_action}
use floatlab_core.ManagementUpdate.Operations.{
  cleanup-Inv_lem, recover-Inv, request_rollback_now-Inv,
}
use floatlab_core.ManagementUpdate.Accepted.{run_started-Inv, start-Accepted}
use floatlab_core.ManagementUpdate.Taken.{request_action-Taken, run_action-Inv}

-- An earlier moment of a history.
pub data Past (t : List Event) : List Event → Type 0 where
  now : Past t t
  before : {e : Event} {u : List Event} → Past t u → Past t (e ∷ u)

pub Past-IsSafe : {t u : List Event} → Past t u → IsSafe u → IsSafe t
Past-IsSafe now h = h
Past-IsSafe (before p) h = Past-IsSafe p h.2

pub data Reach : World → Type 0 where
  installed :
      (n : ℕ)
      → Reach (record { effects = n; disk = none; history = []; running = false; events = [] })
  starts :
      {w : World} (env : Env) (host : Host) (r : Request) → Reach w → Reach (start env host r w).1
  starts_and_runs :
      {w : World} (env : Env) (host : Host) (r : Request) (s : Status)
      → Reach w
      → (start env host r w).0.1 ≡ some s
      → Reach (run_started env host s (start env host r w).1).1
  recovers : {w : World} (env : Env) (host : Host) → Reach w → Reach (recover env host w).1
  rolls_back :
      {w : World} (env : Env) (host : Host) (id : String)
      → Reach w
      → Reach (request_rollback_now env host id w).1
  cleans :
      {w : World} (env : Env) (host : Host) (id : String)
      → Reach w
      → Reach (cleanup env host id w).1
  asks :
      {w : World} (env : Env) (host : Host) (r : Request) (a : Action)
      → Reach w
      → Reach (request_action env host r a w).1
  asks_and_runs :
      {w : World} (env : Env) (host : Host) (r : Request) (a : Action) (s : Status)
      → Reach w
      → (request_action env host r a w).0.1 ≡ some s
      → Reach (run_action env host a s (request_action env host r a w).1).1
  -- The process stops: what it has done up to some moment stands, and the manager starts anew.
  stops :
      {w : World} (n : ℕ) (t : List Event) (history : Map String Status)
      → Reach w
      → Past t w.events
      → Reach (record {
        effects = n;
        disk = last_written t;
        history = history;
        running = false;
        events = t;
      })

-- Whatever operations run, whatever of them fails, and wherever the process stops: management.json
-- holds the last status written; whenever it says authorized, the containers were found healthy and
-- no later call has touched them; a snapshot was only taken of fenced containers, an installation
-- made only over a snapshot, and an authorization given only to verified containers.
pub Reach-Inv : {w : World} → Reach w → Inv w
Reach-Inv (installed n) = record { on_disk = refl; safe = tt }
Reach-Inv (starts {w = w} env host r h) = (start-Accepted env host r w (Reach-Inv h)).0
Reach-Inv (starts_and_runs {w = w} env host r s h e) =
    let (i, u) = start-Accepted env host r w (Reach-Inv h) in run_started-Inv env host s _ i (u s e)
Reach-Inv (recovers {w = w} env host h) = recover-Inv env host w (Reach-Inv h)
Reach-Inv (rolls_back {w = w} env host id h) = request_rollback_now-Inv env host id w (Reach-Inv h)
Reach-Inv (cleans {w = w} env host id h) = cleanup-Inv_lem env host id w (Reach-Inv h)
Reach-Inv (asks {w = w} env host r a h) = (request_action-Taken env host r a w (Reach-Inv h)).0
Reach-Inv (asks_and_runs {w = w} env host r a s h e) =
    let (i, t) = request_action-Taken env host r a w (Reach-Inv h) in
    run_action-Inv env host a s _ i (t s e)
Reach-Inv (stops n t history h p) = record {
  on_disk = refl;
  safe = Past-IsSafe p (Reach-Inv h).safe;
}
