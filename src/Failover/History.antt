-- ===== src/Failover/History.antt =====
-- The ticks of the detector since it began, and the outages among them
-- (internal/failover/detector.go).
use floatlab_core.Base.{
  Bool, List, Map, Option, String, [], false, nat_eq, none, some, string_eq, true, ℕ, ◌++◌, ◌-◌,
  ◌∷◌, ◌≡◌, ◌≢◌, ◌≤◌,
}
use floatlab_core.Run.{StackInstance, event_eq, running_primary, state_eq}
use floatlab_core.Raft.{Fsm, state}
use floatlab_core.Failover.Detector.{Watched, contains, tick}
use floatlab_core.Failover.Outage.{Absent}

-- What a tick reads of a stack: its list of stacks cannot be read, or does not have the stack, or
-- has it between other stacks.
pub data Round : Type 0 where
  unread : Fsm → Round
  unlisted : Fsm → List Watched → Round
  listed : Fsm → List Watched → List Watched → Watched → Round

-- A round is one of the stack, which no list has twice.
unfoldable pub IsOf : String → Round → Type 0
IsOf id (unread f) = ℕ
IsOf id (unlisted f ws) = Absent id ws
IsOf id (listed f us vs w) = (w.id ≡ id) × Absent id us × Absent id vs

-- The stack runs on its primary node, and the node does not answer.
unfoldable pub IsDown : String → Fsm → Watched → Type 0
IsDown id f w =
    ((i : StackInstance) × (state id f ≡ some i) × (i.state ≡ running_primary)) × (w.alive ≡ false)

module _ (parse : String → Option ℕ) where
  -- One tick, over the times that the ticks before it have left.
  abbrev pub run_round : Round → Map String ℕ → Map String ℕ × List String
  run_round (unread f) m = tick parse f none m
  run_round (unlisted f ws) m = tick parse f (some ws) m
  run_round (listed f us vs w) m = tick parse f (some (us ++ w ∷ vs)) m

  -- The times that the ticks leave, the last tick first; the detector begins with none.
  unfoldable pub times : List Round → Map String ℕ
  times [] = []
  times (r ∷ rs) = (run_round r (times rs)).0

  -- Whether the last tick starts the failover of the stack.
  unfoldable pub starts : String → List Round → Bool
  unfolding times
  starts id [] = false
  starts id (r ∷ rs) = contains id (run_round r (times rs)).1

  -- No outage of the stack is under way: there was no tick yet, or the last one that read its list
  -- did not have the stack, found it running well or elsewhere, or started its failover.
  pub data Clear (id : String) : List Round → Type 0 where
    at_first : Clear id []
    still_clear : (f : Fsm) (rs : List Round) → Clear id rs → Clear id (unread f ∷ rs)
    is_away : (f : Fsm) (ws : List Watched) (rs : List Round) → Clear id (unlisted f ws ∷ rs)
    is_up :
        (f : Fsm) (us vs : List Watched) (w : Watched) (rs : List Round)
        → ¬ IsDown id f w
        → Clear id (listed f us vs w ∷ rs)
    has_started :
        (f : Fsm) (us vs : List Watched) (w : Watched) (rs : List Round)
        → starts id (listed f us vs w ∷ rs) ≡ true
        → Clear id (listed f us vs w ∷ rs)

  -- An outage that has lasted without a break since the time `t` of its first tick, and in which no
  -- failover was started.
  pub data Outage (id : String) : List Round → ℕ → Type 0 where
    begins :
        (f : Fsm) (us vs : List Watched) (w : Watched) (rs : List Round)
        → IsDown id f w
        → Clear id rs
        → Outage id (listed f us vs w ∷ rs) w.now
    lasts :
        (f : Fsm) (us vs : List Watched) (w : Watched) (rs : List Round) (t : ℕ)
        → IsDown id f w
        → starts id (listed f us vs w ∷ rs) ≡ false
        → Outage id rs t
        → Outage id (listed f us vs w ∷ rs) t
    unseen : (f : Fsm) (rs : List Round) (t : ℕ) → Outage id rs t → Outage id (unread f ∷ rs) t

  -- The stack is to fail over by itself, and the time since `t` has come to its threshold.
  unfoldable pub IsOverdue : Watched → ℕ → Type 0
  IsOverdue w t =
      (w.failover_mode ≡ "auto")
      × (w.auto_trigger_after ≢ "")
      × ((threshold : ℕ) × (parse w.auto_trigger_after ≡ some threshold) × (threshold ≤ w.now - t))
