-- ===== src/Tests/Stacks.antt =====
-- Runs of the state machine of the stacks and of its replicated state (pkg/run, pkg/raft).
use floatlab_core.Base.{
  Bool-cases, List, Memᴰ, String, [], ap, arith, false, if◌then◌else◌, inl, inr, insert, lookup,
  nat_eq, none, refl, some, some-inj, string_eq, sym, take, true, ℕ, ◌++◌, ◌==◌, ◌↔◌, ◌∙◌, ◌∷◌, ◌≡◌,
  ◌≢◌,
}
use floatlab_core.Run.{
  Event, StackInstance, State, apply, err, event_eq, failing_over, failover_start, idle, index, ok,
  provision_done, provisioning, row, running_primary, start_done, start_stack, starting, state_eq,
  take_transition, transition_map, transitions, unset, update_stack, valid_transitions,
}
use floatlab_core.Run.Machine.{
  IsLockedRight, Runs, Runs-IsLockedRight, Runs-running_primary, apply-err_iff, apply-ok_iff, here,
  moved, next, refusal, valid_transitions-mem_iff,
}
use floatlab_core.Raft.{
  Fsm, StackStateChanged, apply_entry, channel_size, fan_out, new_fsm, replay, state,
}
use floatlab_core.Raft.Replay.{IsUnlocked, entries_of, replay-unlocked, state-replay, summary}
use floatlab_core.Raft.Persist.{
  Json, Objects, marshal, marshal_instance, new_sink, persist, restore, snapshot, state_name,
}
use floatlab_core.Raft.Persisted.{IsLossless, restore-persist}
use floatlab_core.Raft.Delivery.{delivered}

abbrev idle_stack : StackInstance
idle_stack = record {
  id = "web";
  state = idle;
  previous_state = provisioning;
  locked_by = "";
  updated_at = 1;
}

abbrev starting_stack : StackInstance
starting_stack = record {
  id = "web";
  state = starting;
  previous_state = idle;
  locked_by = "control";
  updated_at = 2;
}

start_idle : apply 2 idle_stack start_stack ≡ ok starting_stack
unfolding apply transition_map index row lookup insert
start_idle = refl

apply-ok_iff_example : (apply 2 idle_stack start_stack ≡ ok starting_stack) ↔ (
    Memᴰ (record { from = idle; event = start_stack; to = starting }) transitions
    × (starting_stack ≡ moved 2 idle_stack starting))
apply-ok_iff_example = apply-ok_iff 2 idle_stack starting_stack start_stack

apply-err_iff_example :
    ((to : State) → ¬ Memᴰ (record { from = idle; event = failover_start; to = to }) transitions)
    ↔ (apply 2 idle_stack failover_start ≡ err (refusal idle_stack failover_start))
apply-err_iff_example = apply-err_iff 2 idle_stack failover_start

idle≢unset : idle ≢ unset
idle≢unset h = cc

idle_unlocked : IsLockedRight idle_stack
unfolding IsLockedRight
idle_unlocked = refl

started : Runs idle_stack starting_stack
started = next 2 start_stack here start_idle

Runs-IsLockedRight_example : (starting ≢ unset) × IsLockedRight starting_stack
Runs-IsLockedRight_example = Runs-IsLockedRight started idle≢unset idle_unlocked

valid_transitions-mem_iff_example :
    Memᴰ start_stack (valid_transitions idle)
    ↔ ((inst' : StackInstance) × (apply 2 idle_stack start_stack ≡ ok inst'))
valid_transitions-mem_iff_example = valid_transitions-mem_iff 2 idle_stack start_stack

Runs-running_primary_example :
    (inst' : StackInstance) × Runs idle_stack inst' × (inst'.state ≡ running_primary)
Runs-running_primary_example = Runs-running_primary idle_stack idle≢unset

abbrev entry : String → State → State → Event → ℕ → StackStateChanged
entry id from to ev time = record {
  stack_id = id;
  from = from;
  to = to;
  event = ev;
  timestamp = time;
  node_id = "";
}

abbrev entries : List StackStateChanged
entries =
    entry "web" unset running_primary start_done 1
    ∷ entry "db" unset idle provision_done 2
    ∷ entry "web" running_primary failing_over failover_start 3
    ∷ []

abbrev failing_web : StackInstance
failing_web = record {
  id = "web";
  state = failing_over;
  previous_state = running_primary;
  locked_by = "";
  updated_at = 3;
}

replay_web : state "web" (replay entries new_fsm) ≡ some failing_web
unfolding replay apply_entry fan_out state lookup insert new_fsm
replay_web = refl

state-replay_example :
    state "web" (replay entries new_fsm)
    ≡ summary (state "web" new_fsm) "web" (entries_of "web" entries)
state-replay_example = state-replay "web" entries new_fsm

-- An encoding/json that knows the times of the entries.
abbrev plain_json : Json
plain_json = record {
  Content = Objects;
  print = λ os. os;
  parse = λ os. some os;
  format_time = λ n. if n == 2 then some "2s" else if n == 3 then some "3s" else none;
  parse_time = λ t. if t == "2s" then some 2 else if t == "3s" then some 3 else none;
}

plain_json-IsLossless : IsLossless plain_json
plain_json-IsLossless = record { objects = λ os. refl; times = λ n t h. by_time n t h }
  where
    chosen : {a b : String} (n : ℕ) → a ≡ "2s" → some a ≡ some b → plain_json.parse_time b ≡ some 2
    chosen n e h = rw (sym (some-inj h) ∙ e) refl

    chosen_3 :
        {a b : String} (n : ℕ) → a ≡ "3s" → some a ≡ some b → plain_json.parse_time b ≡ some 3
    chosen_3 n e h = rw (sym (some-inj h) ∙ e) refl

    not_some : {t : String} → none ≢ some t
    not_some h = cc h

    by_time :
        (n : ℕ) (t : String) → plain_json.format_time n ≡ some t → plain_json.parse_time t ≡ some n
    by_time n t h = elim (Bool-cases (n == 2)) [
      | inl e ↦ chosen n refl (rw e at h) ∙ ap some (sym ((nat_eq.beq_iff n 2).0 e))
      | inr e ↦ elim (Bool-cases (n == 3)) [
        | inl d ↦ chosen_3 n refl (rw (e, d) at h) ∙ ap some (sym ((nat_eq.beq_iff n 3).0 d))
        | inr d ↦ absurd (not_some (rw (e, d) at h))
      ]
    ]

persists :
    (persist plain_json none none (snapshot (replay entries new_fsm)) (new_sink plain_json)).0
    ≡ none
unfolding persist marshal marshal_instance snapshot replay apply_entry fan_out lookup insert new_fsm
    state_name
persists = refl

restore-persist_example :
    let sink =
      (persist plain_json none none (snapshot (replay entries new_fsm)) (new_sink plain_json)).1 in
    (content : Objects) × (sink.written ≡ some content)
    × (sink.closed ≡ true)
    × (sink.cancelled ≡ false)
    × ((restore plain_json content new_fsm).0 ≡ none)
    × (state "web" (replay entries (restore plain_json content new_fsm).1)
        ≡ state "web" (replay (entries ++ entries) new_fsm))
restore-persist_example =
    restore-persist plain_json plain_json-IsLossless none none "web" entries entries new_fsm new_fsm
      persists

none-IsUnlocked : IsUnlocked (state "web" new_fsm)
unfolding IsUnlocked state new_fsm lookup
none-IsUnlocked i h = cc

replay-unlocked_example :
    apply 4 failing_web update_stack ≡ take_transition 4 failing_web update_stack
replay-unlocked_example =
    replay-unlocked "web" entries new_fsm failing_web 4 update_stack none-IsUnlocked replay_web

abbrev watched : Fsm
watched = record { stacks = []; subs = (0, []) ∷ []; next_id = 1 }

watched_channel : lookup 0 watched.subs ≡ some []
unfolding lookup
watched_channel = refl

delivered_example :
    lookup 0 (replay entries watched).subs ≡ some (take channel_size ([] ++ entries))
delivered_example = delivered 0 entries watched [] (omega arith) watched_channel
