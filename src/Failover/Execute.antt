-- ===== src/Failover/Execute.antt =====
-- The entries that `Execute` of internal/failover/sequence.go leaves in the log, by how it ends.
use floatlab_core.Base.{List, String, nat_eq, none, some, string_eq, ◌∷◌, ◌≡◌}
use floatlab_core.Run.{
  event_eq, failover_done, failover_failed, failover_start, running_backup, state_eq,
}
use floatlab_core.Failover.{Outcome, World, ◌>>=◌}
use floatlab_core.Failover.Order.{Post, posts}
use floatlab_core.Failover.Story.{IsIn}

-- The ends of a failover, by the entries it has sent after those of `b`, the last first, each with
-- the error that sending it returned.
pub data Ending (id : String) (b : List Post) (r : Outcome × World) : Type 0 where
  not_started : (x : String) → r.0 ≡ some x → posts r.1 ≡ b → Ending id b r
  unconfirmed :
      (x : String) (e : Outcome)
      → r.0 ≡ some x
      → posts r.1 ≡ (failover_start, e) ∷ b
      → Ending id b r
  given_up :
      (x : String) (e : Outcome)
      → r.0 ≡ some x
      → posts r.1 ≡ (failover_failed, e) ∷ (failover_start, none) ∷ b
      → Ending id b r
  taken_back :
      (x : String) (e o : Outcome)
      → r.0 ≡ some x
      → posts r.1 ≡ (failover_failed, e) ∷ (failover_done, o) ∷ (failover_start, none) ∷ b
      → Ending id b r
  done :
      r.0 ≡ none
      → posts r.1 ≡ (failover_done, none) ∷ (failover_start, none) ∷ b
      → IsIn id running_backup r.1
      → Ending id b r
