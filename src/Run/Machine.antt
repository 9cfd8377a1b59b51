-- ===== src/Run/Machine.antt =====
-- `Apply` against the list of transitions: what it accepts, what it writes, how it refuses, and
-- where its steps lead.
use floatlab_core.Base.{
  Bool, Memᴰ, Option-cases, all, ap, arith, if◌then◌else◌, inl, inr, insert, lookup, lookup_of_mem,
  mem_of_lookup, nat_eq, none, not, refl, some, string_eq, sym, true, ℕ, ◌&&◌, ◌==◌, ◌↔◌, ◌∙◌, ◌≡◌,
  ◌≢◌, ◌⊎◌,
}
use floatlab_core.Run.{
  Error, Event, StackInstance, State, Transition, apply, err, event_eq, failed, failing_over,
  failover_done, idle, index, invalid_transition, is_transitional, no_transitions, ok,
  provision_done, provisioning, restore_done, restore_start, restoring, rollback_done, rolling_back,
  row, running_backup, running_primary, start_done, start_stack, starting, state_eq, stop_done,
  stopping, transition_in_progress, transition_map, transitions, unset, update_done, updating,
  valid_transitions,
}
use floatlab_core.Run.Table.{all_mem, target, target-mem, target_of_mem}

-- The instance that an accepted event leaves.
abbrev pub moved : ℕ → StackInstance → State → StackInstance
moved now inst next = record inst {
  previous_state = inst.state;
  state = next;
  updated_at = now;
  locked_by = if is_transitional next then "control" else "";
}

apply_of_target :
    (now : ℕ) (inst : StackInstance) (ev : Event) {to : State}
    → target transition_map inst.state ev ≡ some to
    → apply now inst ev ≡ ok (moved now inst to)
unfolding apply row lookup
apply_of_target now inst ev h = ground arith

-- The error of a refused event: the lock's, where a transition is in progress and the lock is held,
-- or that of a state with no transitions, or that of an event the state does not take.
abbrev pub refusal : StackInstance → Event → Error
refusal inst ev =
    if is_transitional inst.state && not (inst.locked_by == "")
    then transition_in_progress
    else (elim inst.state [ unset ↦ no_transitions unset | s ↦ invalid_transition s ev ])

has_row : (s : State) → s ≢ unset → lookup s transition_map ≢ none
unfolding transition_map index row lookup insert
has_row unset h = absurd (h refl)
has_row provisioning h = cc
has_row _ h = cc

row-unset : lookup unset transition_map ≡ none
unfolding transition_map index row lookup insert
row-unset = refl

apply_of_no_target :
    (now : ℕ) (inst : StackInstance) (ev : Event)
    → target transition_map inst.state ev ≡ none
    → apply now inst ev ≡ err (refusal inst ev)
unfolding apply row
apply_of_no_target now inst ev h = ground (arith, has_row inst.state, row-unset)

-- `Apply` accepts an event exactly if the list of transitions has an entry for the instance's state
-- and the event, whether the instance is locked or not. It then writes that entry's target, the
-- previous state, the time, and the lock, which is held exactly in the transitional states.
pub apply-ok_iff :
    (now : ℕ) (inst inst' : StackInstance) (ev : Event)
    → (apply now inst ev ≡ ok inst') ↔ (
        Memᴰ (record { from = inst.state; event = ev; to = inst'.state }) transitions
        × (inst' ≡ moved now inst inst'.state))
apply-ok_iff now inst inst' ev =
    (accepted (Option-cases (target transition_map inst.state ev)), taken)
  where
    accepted :
        (target transition_map inst.state ev ≡ none)
          ⊎ ((to : State) × (target transition_map inst.state ev ≡ some to))
        → apply now inst ev ≡ ok inst'
        → Memᴰ (record { from = inst.state; event = ev; to = inst'.state }) transitions
          × (inst' ≡ moved now inst inst'.state)
    accepted (inl n) h = cc (apply_of_no_target now inst ev n)
    accepted (inr (to', e)) h =
        let same : moved now inst to' ≡ inst' = cc (apply_of_target now inst ev e) in
        rw (← same) (target-mem inst.state ev e, refl)

    taken :
        Memᴰ (record { from = inst.state; event = ev; to = inst'.state }) transitions
          × (inst' ≡ moved now inst inst'.state)
        → apply now inst ev ≡ ok inst'
    taken (m, e) = apply_of_target now inst ev (target_of_mem _ m) ∙ ap ok (sym e)

-- An event that the list has no entry for is refused, and the error says why: a transition is in
-- progress, the state has no transitions at all, or it has none for the event.
pub apply-err_iff :
    (now : ℕ) (inst : StackInstance) (ev : Event)
    → ((to : State) → ¬ Memᴰ (record { from = inst.state; event = ev; to = to }) transitions)
      ↔ (apply now inst ev ≡ err (refusal inst ev))
apply-err_iff now inst ev = (
  λ h. refused h (Option-cases (target transition_map inst.state ev)),
  λ e to m. clash e (apply_of_target now inst ev (target_of_mem _ m)),
)
  where
    refused :
        ((to : State) → ¬ Memᴰ (record { from = inst.state; event = ev; to = to }) transitions)
        → (target transition_map inst.state ev ≡ none)
          ⊎ ((to : State) × (target transition_map inst.state ev ≡ some to))
        → apply now inst ev ≡ err (refusal inst ev)
    refused h (inl n) = apply_of_no_target now inst ev n
    refused h (inr (to', e)) = absurd (h to' (target-mem inst.state ev e))

    clash :
        {to : State}
        → apply now inst ev ≡ err (refusal inst ev)
        → apply now inst ev ≡ ok (moved now inst to)
        → ⊥
    clash e f = cc

-- The lock is held exactly in the transitional states.
unfoldable pub IsLockedRight : StackInstance → Type 0
IsLockedRight inst = inst.locked_by ≡ (if is_transitional inst.state then "control" else "")

-- A run of accepted events.
pub data Runs (inst : StackInstance) : StackInstance → Type 0 where
  here : Runs inst inst
  next :
      {a b : StackInstance} (now : ℕ) (ev : Event)
      → Runs inst a
      → apply now a ev ≡ ok b
      → Runs inst b

abbrev enters_a_state : Transition → Bool
enters_a_state t = not (t.to == unset)

all_enter : all enters_a_state transitions ≡ true
all_enter = refl

to-ne-unset : (t : Transition) → Memᴰ t transitions → t.to ≢ unset
to-ne-unset t m h = ground (arith, all_mem enters_a_state transitions all_enter m)

-- Whatever events an instance takes, it never falls back to the empty state, and its lock is held
-- exactly in the transitional states, given that this is so at the start.
pub Runs-IsLockedRight :
    {inst inst' : StackInstance}
    → Runs inst inst'
    → inst.state ≢ unset
    → IsLockedRight inst
    → (inst'.state ≢ unset) × IsLockedRight inst'
unfolding IsLockedRight
Runs-IsLockedRight here n h = (n, h)
Runs-IsLockedRight {inst' = b} (next {a = a} now ev r e) n h =
    let (m, same) = (apply-ok_iff now a b ev).0 e in (to-ne-unset _ m, ap (λ i. i.locked_by) same)

-- `ValidTransitions` lists exactly the events that `Apply` accepts in that state.
pub valid_transitions-mem_iff :
    (now : ℕ) (inst : StackInstance) (ev : Event)
    → Memᴰ ev (valid_transitions inst.state)
      ↔ ((inst' : StackInstance) × (apply now inst ev ≡ ok inst'))
unfolding valid_transitions
valid_transitions-mem_iff now inst ev = (
  λ m. let (to, e) = lookup_of_mem ev _ m in (moved now inst to, apply_of_target now inst ev e),
  λ h. mem_of_lookup ev _ (found (Option-cases (target transition_map inst.state ev)) h).1,
)
  where
    found :
        (target transition_map inst.state ev ≡ none)
          ⊎ ((to : State) × (target transition_map inst.state ev ≡ some to))
        → ((inst' : StackInstance) × (apply now inst ev ≡ ok inst'))
        → (to : State) × (target transition_map inst.state ev ≡ some to)
    found (inl n) (inst', h) = cc (apply_of_no_target now inst ev n)
    found (inr r) _ = r

-- One more event, by the entry of the table.
extend :
    {inst a : StackInstance} {from : State} (ev : Event) (to : State)
    → Runs inst a
    → a.state ≡ from
    → target transition_map from ev ≡ some to
    → Runs inst (moved 0 a to)
extend {a = a} ev to r s e = next 0 ev r (apply_of_target 0 a ev (rw s e))

-- The instance can be brought to run on its primary node.
abbrev CanRun : StackInstance → Type 0
CanRun inst = (inst' : StackInstance) × Runs inst inst' × (inst'.state ≡ running_primary)

module _ {inst a : StackInstance} (r : Runs inst a) where
  run_by :
      {from : State} (ev : Event)
      → a.state ≡ from
      → target transition_map from ev ≡ some running_primary
      → CanRun inst
  run_by ev s e = (moved 0 a running_primary, extend ev running_primary r s e, refl)

  run_from_starting : a.state ≡ starting → CanRun inst
  unfolding transition_map index row lookup insert
  run_from_starting s = run_by start_done s refl

  run_from_restoring : a.state ≡ restoring → CanRun inst
  unfolding transition_map index row lookup insert
  run_from_restoring s = run_by restore_done s refl

run_from_idle : {inst a : StackInstance} → Runs inst a → a.state ≡ idle → CanRun inst
unfolding transition_map index row lookup insert
run_from_idle r s = run_from_starting (extend start_stack starting r s refl) refl

run_from_backup : {inst a : StackInstance} → Runs inst a → a.state ≡ running_backup → CanRun inst
unfolding transition_map index row lookup insert
run_from_backup r s = run_from_restoring (extend restore_start restoring r s refl) refl

run_from : (s : State) (inst : StackInstance) → inst.state ≡ s → s ≢ unset → CanRun inst
unfolding transition_map index row lookup insert
run_from provisioning inst e n = run_from_idle (extend provision_done idle here e refl) refl
run_from idle inst e n = run_from_idle here e
run_from starting inst e n = run_from_starting here e
run_from running_primary inst e n = (inst, here, e)
run_from failing_over inst e n =
    run_from_backup (extend failover_done running_backup here e refl) refl
run_from running_backup inst e n = run_from_backup here e
run_from restoring inst e n = run_from_restoring here e
run_from stopping inst e n = run_from_idle (extend stop_done idle here e refl) refl
run_from updating inst e n = run_by here update_done e refl
run_from rolling_back inst e n = run_by here rollback_done e refl
run_from failed inst e n = run_from_starting (extend start_stack starting here e refl) refl
run_from unset inst e n = absurd (n refl)

-- From every state that a stack can be in there are events that bring it to run on its primary
-- node: no state, failed included, is a dead end.
pub Runs-running_primary :
    (inst : StackInstance)
    → inst.state ≢ unset
    → (inst' : StackInstance) × Runs inst inst' × (inst'.state ≡ running_primary)
Runs-running_primary inst n = run_from inst.state inst refl n
