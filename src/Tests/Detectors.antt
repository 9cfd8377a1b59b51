-- ===== src/Tests/Detectors.antt =====
-- A run of the detector (internal/failover/detector.go).
use floatlab_core.Base.{
  All, Bool, List, Map, Option, String, [], erase, false, insert, lookup, nat_eq, refl, some,
  string_eq, true, ℕ, ◌↔◌, ◌∷◌, ◌≡◌,
}
use floatlab_core.Run.{StackInstance, event_eq, running_primary, starting, state_eq}
use floatlab_core.Raft.{Fsm, state}
use floatlab_core.Failover.Detector.{
  Watched, contains, is_due, is_on_primary, keep_active, suspect, tick, visit, visit_if, visits,
}
use floatlab_core.Failover.Outage.{Absent}
use floatlab_core.Failover.History.{
  IsDown, IsOf, IsOverdue, Outage, Round, listed, starts, times, unread,
}
use floatlab_core.Failover.Started.{starts_iff}

abbrev stack_on : String → StackInstance
stack_on id = record {
  id = id;
  state = running_primary;
  previous_state = starting;
  locked_by = "";
  updated_at = 1;
}

abbrev two_running : Fsm
two_running = record {
  stacks = ("web", stack_on "web") ∷ ("db", stack_on "db") ∷ [];
  subs = [];
  next_id = 0;
}

abbrev watched : String → Bool → Watched
watched id alive = record {
  id = id;
  failover_mode = "auto";
  auto_trigger_after = "30s";
  alive = alive;
  now = 50;
}

abbrev seconds_30 : String → Option ℕ
seconds_30 s = some 30

abbrev since_10 : Map String ℕ
since_10 = ("web", 10) ∷ []

web_is_due :
    tick seconds_30 two_running (some (watched "db" true ∷ watched "web" false ∷ [])) since_10
    ≡ ([], "web" ∷ [])
unfolding tick visits visit visit_if suspect is_due is_on_primary keep_active contains lookup erase
    insert state
web_is_due = refl

db-Absent : Absent "web" (watched "db" true ∷ [])
unfolding Absent
db-Absent = (refl, tt)

none-Absent : Absent "web" []
unfolding Absent
none-Absent = tt

abbrev first_ping : Watched
first_ping = record {
  id = "web";
  failover_mode = "auto";
  auto_trigger_after = "30s";
  alive = false;
  now = 10;
}

abbrev ticks_before : List Round
ticks_before = unread two_running ∷ listed two_running [] [] first_ping ∷ []

web-IsOf : IsOf "web" (listed two_running (watched "db" true ∷ []) [] (watched "web" false))
unfolding IsOf
web-IsOf = (refl, db-Absent, none-Absent)

before-IsOf : All (IsOf "web") ticks_before
unfolding IsOf
before-IsOf = (0, ((refl, none-Absent, none-Absent), tt))

starts_iff_example :
    (starts seconds_30 "web"
        (listed two_running (watched "db" true ∷ []) [] (watched "web" false) ∷ ticks_before)
      ≡ true)
    ↔ (IsDown "web" two_running (watched "web" false)
        × ((t : ℕ) × Outage seconds_30 "web" ticks_before t
            × IsOverdue seconds_30 (watched "web" false) t))
starts_iff_example =
    starts_iff seconds_30 "web" two_running (watched "db" true ∷ []) [] (watched "web" false)
      ticks_before web-IsOf before-IsOf

-- The failover is started at 50, after an outage since 10.
web_starts :
    starts seconds_30 "web"
      (listed two_running (watched "db" true ∷ []) [] (watched "web" false) ∷ ticks_before)
    ≡ true
unfolding starts times tick visits visit visit_if suspect is_due is_on_primary keep_active contains
    lookup insert erase state
web_starts = refl
