-- ===== src/Raft/Replay.antt =====
-- What the log determines (pkg/raft/fsm.go).
use floatlab_core.Base.{
  Bool-cases, List, Option, String, [], ap, arith, false, if◌then◌else◌, inl, inr, lookup,
  lookup-insert, nat_eq, none, refl, some, some-inj, string_eq, sym, true, ℕ, ◌++◌, ◌==◌, ◌∙◌, ◌∷◌,
  ◌≡◌,
}
use floatlab_core.Run.{
  Event, StackInstance, apply, event_eq, is_locked_out, state_eq, take_transition,
}
use floatlab_core.Raft.{Fsm, StackStateChanged, apply_entry, fan_out, or_new, replay, state}

-- The entries of one stack, in their order.
unfoldable pub entries_of : String → List StackStateChanged → List StackStateChanged
entries_of id [] = []
entries_of id (e ∷ es) = let rest = entries_of id es in if e.stack_id == id then e ∷ rest else rest

-- What an entry makes of its own stack's instance.
unfoldable pub advance : Option StackInstance → String → StackStateChanged → StackInstance
advance o id e =
    let inst = or_new id o in
    record inst { previous_state = inst.state; state = e.to; updated_at = e.timestamp }

unfoldable pub summary :
    Option StackInstance → String → List StackStateChanged → Option StackInstance
unfolding advance
summary o id [] = o
summary o id (e ∷ es) = summary (some (advance o id e)) id es

state-apply_entry :
    (id : String) (e : StackStateChanged) (f : Fsm)
    → state id (apply_entry e f)
      ≡ (if e.stack_id == id then some (advance (state e.stack_id f) e.stack_id e) else state id f)
unfolding state apply_entry advance fan_out
state-apply_entry id e f =
    lookup-insert e.stack_id id (advance (lookup e.stack_id f.stacks) e.stack_id e) f.stacks

pub state-own :
    (id : String) (e : StackStateChanged) (f : Fsm)
    → (e.stack_id == id) ≡ true
    → state id (apply_entry e f) ≡ some (advance (state id f) id e)
state-own id e f t =
    state-apply_entry id e f
    ∙ ap (λ b. if b then some (advance (state e.stack_id f) e.stack_id e) else state id f) t
    ∙ ap (λ k. some (advance (state k f) k e)) ((string_eq.beq_iff e.stack_id id).0 t)

state-other :
    (id : String) (e : StackStateChanged) (f : Fsm)
    → (e.stack_id == id) ≡ false
    → state id (apply_entry e f) ≡ state id f
state-other id e f n =
    state-apply_entry id e f
    ∙ ap (λ b. if b then some (advance (state e.stack_id f) e.stack_id e) else state id f) n

-- After any entries the instance of a stack is what the entries that name it make, in their order,
-- of the instance it had: no entry of another stack has a part in it.
pub state-replay :
    (id : String) (es : List StackStateChanged) (f : Fsm)
    → state id (replay es f) ≡ summary (state id f) id (entries_of id es)
unfolding replay entries_of summary
state-replay id [] f = refl
state-replay id (e ∷ es) f =
    state-replay id es (apply_entry e f)
    ∙ (elim (Bool-cases (e.stack_id == id))
        as (λ _.
          summary (state id (apply_entry e f)) id (entries_of id es)
          ≡ summary (state id f) id
              (if e.stack_id == id then e ∷ entries_of id es else entries_of id es)) [
                | inl t ↦
                    ap (λ o. summary o id (entries_of id es)) (state-own id e f t)
                    ∙ ap
                        (λ b.
                          summary (state id f) id
                            (if b then e ∷ entries_of id es else entries_of id es))
                        (sym t)
                | inr n ↦
                    ap (λ o. summary o id (entries_of id es)) (state-other id e f n)
                    ∙ ap
                        (λ b.
                          summary (state id f) id
                            (if b then e ∷ entries_of id es else entries_of id es))
                        (sym n)
              ])

entries_of-append :
    (id : String) (es ds : List StackStateChanged)
    → entries_of id (es ++ ds) ≡ entries_of id es ++ entries_of id ds
unfolding entries_of
entries_of-append id [] ds = refl
entries_of-append id (e ∷ es) ds = ground (arith, entries_of-append id es ds)

pub replay-append :
    (es ds : List StackStateChanged) (f : Fsm) → replay (es ++ ds) f ≡ replay ds (replay es f)
unfolding replay
replay-append [] ds f = refl
replay-append (e ∷ es) ds f = replay-append es ds (apply_entry e f)

-- No one holds the lock of the instance.
unfoldable pub IsUnlocked : Option StackInstance → Type 0
IsUnlocked o = (i : StackInstance) → o ≡ some i → i.locked_by ≡ ""

summary-IsUnlocked :
    (id : String) (es : List StackStateChanged) (o : Option StackInstance)
    → IsUnlocked o
    → IsUnlocked (summary o id es)
unfolding summary IsUnlocked advance
summary-IsUnlocked id [] o u = u
summary-IsUnlocked id (e ∷ es) none u =
    summary-IsUnlocked id es (some (advance none id e))
      (λ i p. ap (λ x. x.locked_by) (sym (some-inj p)))
summary-IsUnlocked id (e ∷ es) (some j) u =
    summary-IsUnlocked id es (some (advance (some j) id e))
      (λ i p. ap (λ x. x.locked_by) (sym (some-inj p)) ∙ u j refl)

-- The log never locks a stack: after any entries over a state in which the stack is not locked (as
-- in the state of a new node), `Machine.Apply` does not refuse any event of its instance because
-- of a transition in progress, whichever state the instance is in.
pub replay-unlocked :
    (id : String) (es : List StackStateChanged) (f : Fsm) (inst : StackInstance) (now : ℕ)
    (ev : Event)
    → IsUnlocked (state id f)
    → state id (replay es f) ≡ some inst
    → apply now inst ev ≡ take_transition now inst ev
unfolding IsUnlocked is_locked_out apply
replay-unlocked id es f inst now ev u h =
    ground (arith, unlocked, string_eq.beq_iff inst.locked_by "")
  where
    unlocked : inst.locked_by ≡ ""
    unlocked =
        summary-IsUnlocked id (entries_of id es) (state id f) u inst
          (sym (state-replay id es f) ∙ h)
