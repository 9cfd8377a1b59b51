-- ===== src/Failover/Story.antt =====
-- The entries that a failover and a restore leave in the log, by how they end
-- (internal/failover/sequence.go).
use floatlab_core.Base.{
  ==_refl, List, String, ap, false, inl, inr, nat_eq, none, refl, some, string_eq, suc, true, ℕ,
  ◌∙◌, ◌∷◌, ◌≡◌, ◌≢◌, ◌⊎◌,
}
use floatlab_core.Run.{
  Event, StackInstance, State, event_eq, failed, failing_over, failover_failed, state_eq,
}
use floatlab_core.Raft.{StackStateChanged, apply_entry, state}
use floatlab_core.Raft.Replay.{advance, state-own}
use floatlab_core.Failover.{
  Call, Env, M, Outcome, World, applied, begin_step, call, end_step, in_doubt, raft, raft_apply,
  refused, ◌>>=◌,
}
use floatlab_core.Failover.Sequence.{fail, step}
use floatlab_core.Failover.Order.{IsQuiet, Post, call-IsQuiet, is_entry, posts, posts_of}

-- The replicated state of the stack.
unfoldable pub IsIn : String → State → World → Type 0
IsIn id s w = (i : StackInstance) × (state id w.fsm ≡ some i) × (i.state ≡ s)

-- What a test of an error comes to.
pub on_failure :
    (P : Outcome × World → Type 0) (o : Outcome) (f : String → M Outcome) (k : M Outcome)
    (w : World)
    → ((x : String) → o ≡ some x → P (f x w))
    → (o ≡ none → P (k w))
    → P ((elim o as (λ x. M Outcome) [ some x ↦ f x | none ↦ k ]) w)
on_failure P (some x) f k w h l = h x refl
on_failure P none f k w h l = l refl

pub on_error :
    (P : Outcome × World → Type 0) (m : M Outcome) (f : String → M Outcome) (k : M Outcome)
    (w : World)
    → ((x : String) → (m w).0 ≡ some x → P (f x (m w).1))
    → ((m w).0 ≡ none → P (k (m w).1))
    → P ((m >>= (λ e. elim e as (λ x. M Outcome) [ some x ↦ f x | none ↦ k ])) w)
on_error P m f k w h l = on_failure P (m w).0 f k (m w).1 h l

-- What sending an entry comes to: it is among the entries with the error that is returned.
unfoldable pub Sent : String → State → Event → World → Outcome × World → Type 0
Sent id to ev w r = (posts r.1 ≡ (ev, r.0) ∷ posts w) × (r.0 ≡ none → IsIn id to r.1)

-- What a step that sends an entry comes to: without its first record it sends nothing, and it
-- succeeds only where the log took the entry.
unfoldable pub StepSent : String → State → Event → World → Outcome × World → Type 0
StepSent id to ev w r =
    ((e : Outcome) × (posts r.1 ≡ (ev, e) ∷ posts w) × (r.0 ≡ none → (e ≡ none) × IsIn id to r.1))
    ⊎ (posts r.1 ≡ posts w) × ((x : String) × (r.0 ≡ some x))

pub some≢none : {x : String} → some x ≢ none
some≢none h = cc

module _ (env : Env) where
  pub raft-Sent :
      (id : String) (from to : State) (ev : Event) (w : World)
      → Sent id to ev w (raft env id from to ev w)
  unfolding raft Sent posts posts_of IsIn advance
  raft-Sent id from to ev w =
      elim (env.outcome w.effects)
        as (λ o. Sent id to ev w (elim o as (λ x. Outcome × World) [
          | applied ↦ (
            none,
            record w {
              effects = suc w.effects;
              fsm = apply_entry entry w.fsm;
              calls = (raft_apply entry, none) ∷ w.calls;
            },
          )
          | in_doubt e ↦ (
            some e,
            record w {
              effects = suc w.effects;
              fsm = apply_entry entry w.fsm;
              calls = (raft_apply entry, some e) ∷ w.calls;
            },
          )
          | refused e ↦ (
            some e,
            record w { effects = suc w.effects; calls = (raft_apply entry, some e) ∷ w.calls },
          )
        ])) [
          | applied ↦ (
            refl,
            λ _. (advance (state id w.fsm) id entry, state-own id entry w.fsm (==_refl id), refl),
          )
          | in_doubt e ↦ (refl, λ h. elim (some≢none h) [ ])
          | refused e ↦ (refl, λ h. elim (some≢none h) [ ])
        ]
    where
      entry : StackStateChanged
      entry = record {
        stack_id = id;
        from = from;
        to = to;
        event = ev;
        timestamp = env.now w.effects;
        node_id = "";
      }

  pub quiet-posts :
      {A : Type 0} {b : List Post} (m : M A) (w : World)
      → IsQuiet m
      → posts w ≡ b
      → posts (m w).1 ≡ b
  unfolding IsQuiet
  quiet-posts m w q h = (q w).0 ∙ h

  pub quiet-IsIn :
      {A : Type 0} (id : String) (s : State) (m : M A) (w : World)
      → IsQuiet m
      → IsIn id s w
      → IsIn id s (m w).1
  unfolding IsQuiet IsIn
  quiet-IsIn id s m w q (i, h, e) = (i, ap (λ f. state id f) (q w).1 ∙ h, e)

  pub step-StepSent :
      (n : ℕ) (name id : String) (from to : State) (ev : Event) (w : World)
      → StepSent id to ev w (step env n name (raft env id from to ev) w)
  unfolding step StepSent Sent is_entry
  step-StepSent n name id from to ev w =
      on_error (StepSent id to ev w) (call env (begin_step n name)) _ _ w
        (λ x h. inr (q (begin_step n name) w refl, (x, refl)))
        (λ h.
          on_error (StepSent id to ev w) (raft env id from to ev) _ _ _
            (λ x g. inl (
              o,
              q (end_step n false) _ refl
                  ∙ sent.0
                  ∙ ap (λ l. (ev, o) ∷ l) (q (begin_step n name) w refl),
              λ z. elim (some≢none z) [ ],
            ))
            (λ g. inl (
              o,
              q (end_step n true) _ refl
                  ∙ sent.0
                  ∙ ap (λ l. (ev, o) ∷ l) (q (begin_step n name) w refl),
              λ z. (
                g,
                quiet-IsIn id to (call env (end_step n true)) _ (call-IsQuiet env _ refl)
                    (sent.1 g),
              ),
            )))
    where
      q : (c : Call) (v : World) → is_entry c ≡ false → posts (call env c v).1 ≡ posts v
      q c v h = quiet-posts (call env c) v (call-IsQuiet env c h) refl

      o : Outcome
      o = (raft env id from to ev (call env (begin_step n name) w).1).0

      sent :
          Sent id to ev
            (call env (begin_step n name) w).1
            (raft env id from to ev (call env (begin_step n name) w).1)
      sent = raft-Sent id from to ev (call env (begin_step n name) w).1

  pub fail-posts :
      (id x : String) (w : World)
      → ((e : Outcome) × (posts (fail env id x w).1 ≡ (failover_failed, e) ∷ posts w))
        × ((fail env id x w).0 ≡ some x)
  unfolding fail Sent
  fail-posts id x w = (
    (
      (raft env id failing_over failed failover_failed w).0,
      (raft-Sent id failing_over failed failover_failed w).0,
    ),
    refl,
  )
