-- ===== src/Failover/Restored.antt =====
-- The entries that `Restore` of internal/failover/sequence.go leaves in the log, by how it ends.
use floatlab_core.Base.{List, String, nat_eq, none, some, string_eq, ◌∷◌, ◌≡◌}
use floatlab_core.Run.{
  event_eq, restore_done, restore_failed, restore_start, running_primary, state_eq,
}
use floatlab_core.Failover.{Outcome, World, ◌>>=◌}
use floatlab_core.Failover.Order.{Post, posts}
use floatlab_core.Failover.Story.{IsIn}

-- The ends of a restore, by the entries it has sent after those of `b`, the last first, each with
-- the error that sending it returned.
pub data RestoreEnding (id : String) (b : List Post) (r : Outcome × World) : Type 0 where
  not_started : (x : String) → r.0 ≡ some x → posts r.1 ≡ b → RestoreEnding id b r
  left_open :
      (x : String) (e : Outcome)
      → r.0 ≡ some x
      → posts r.1 ≡ (restore_start, e) ∷ b
      → RestoreEnding id b r
  given_up :
      (x : String) (e : Outcome)
      → r.0 ≡ some x
      → posts r.1 ≡ (restore_failed, e) ∷ (restore_start, none) ∷ b
      → RestoreEnding id b r
  unconfirmed :
      (x y : String)
      → r.0 ≡ some x
      → posts r.1 ≡ (restore_done, some y) ∷ (restore_start, none) ∷ b
      → RestoreEnding id b r
  done :
      r.0 ≡ none
      → posts r.1 ≡ (restore_done, none) ∷ (restore_start, none) ∷ b
      → IsIn id running_primary r.1
      → RestoreEnding id b r
