-- ===== src/Failover/Detector.antt =====
-- The detector of internal/failover/detector.go: `tick` and the map `downSince`. What the ping of a
-- stack's primary node answers and the clock at that moment come with the stack; the parsing of a
-- duration by the time package is a parameter, a negative one being as 0, which is always over.
use floatlab_core.Base.{
  Bool, List, Map, Option, String, [], erase, false, if◌then◌else◌, insert, leb, lookup, nat_eq,
  none, not, some, string_eq, ℕ, ◌&&◌, ◌-◌, ◌==◌, ◌||◌, ◌∷◌,
}
use floatlab_core.Run.{event_eq, running_primary, state_eq}
use floatlab_core.Raft.{Fsm, state}

pub record Watched : Type 0 where
  pub id : String
  pub failover_mode : String
  pub auto_trigger_after : String
  pub alive : Bool
  pub now : ℕ

-- `down_since` is the map of the detector; `active` and `started` are of one tick: the set
-- `activeIDs`, and the stacks whose failover it starts, the last first.
pub record Detection : Type 0 where
  pub down_since : Map String ℕ
  pub active : List String
  pub started : List String

unfoldable pub contains : String → List String → Bool
contains id [] = false
contains id (j ∷ ids) = j == id || contains id ids

-- `inst.State == run.StateRunningPrimary`
unfoldable pub is_on_primary : Fsm → String → Bool
is_on_primary f id = elim (state id f) [ none ↦ false | some inst ↦ inst.state == running_primary ]

abbrev pub forget : String → Detection → Detection
forget id d = record d { down_since = erase id d.down_since }

module _ (parse_duration : String → Option ℕ) where
  -- Whether the time since `t` has come to the stack's threshold.
  unfoldable pub is_due : Watched → ℕ → Bool
  is_due w t =
      w.failover_mode == "auto"
      && not (w.auto_trigger_after == "")
      && elim (parse_duration w.auto_trigger_after) [
        | none ↦ false
        | some threshold ↦ leb threshold (w.now - t)
      ]

  -- A stack whose primary node does not answer.
  unfoldable pub suspect : Watched → Detection → Detection
  unfolding is_due
  suspect w d = elim (lookup w.id d.down_since) [
    | none ↦ record d { down_since = insert w.id w.now d.down_since }
    | some t ↦
        if is_due w t
        then record d { down_since = erase w.id d.down_since; started = w.id ∷ d.started }
        else d
  ]

  -- One round of the loop of `tick`, by whether the stack runs on its primary node.
  unfoldable pub visit_if : Bool → Watched → Detection → Detection
  unfolding suspect
  visit_if on w d =
      if not on
      then forget w.id d
      else (let seen = record d { active = w.id ∷ d.active } in
          if w.alive then forget w.id seen else suspect w seen)

  unfoldable pub visit : Fsm → Watched → Detection → Detection
  unfolding visit_if is_on_primary
  visit f w d = visit_if (is_on_primary f w.id) w d

  unfoldable pub visits : Fsm → List Watched → Detection → Detection
  unfolding visit
  visits f [] d = d
  visits f (w ∷ ws) d = visits f ws (visit f w d)

-- The last loop of `tick`.
unfoldable pub keep_active : List String → Map String ℕ → Map String ℕ
unfolding contains
keep_active ids [] = []
keep_active ids ((id, t) ∷ m) =
    let rest = keep_active ids m in if contains id ids then (id, t) ∷ rest else rest

module _ (parse_duration : String → Option ℕ) where
  -- `Detector.tick`; a list of stacks that cannot be read changes nothing.
  unfoldable pub tick : Fsm → Option (List Watched) → Map String ℕ → Map String ℕ × List String
  unfolding visits keep_active
  tick f none m = (m, [])
  tick f (some ws) m =
      let d = visits parse_duration f ws (record { down_since = m; active = []; started = [] }) in
      (keep_active d.active d.down_since, d.started)
