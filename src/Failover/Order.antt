-- ===== src/Failover/Order.antt =====
-- The entries of the log among the effects of internal/failover/sequence.go, and the operations
-- that send none.
use floatlab_core.Base.{
  Bool, List, Option, String, [], concat, false, if◌then◌else◌, nat_eq, none, refl, some, string_eq,
  true, ℕ, ◌==◌, ◌∙◌, ◌∷◌, ◌≡◌,
}
use floatlab_core.Run.{Event, event_eq, state_eq}
use floatlab_core.Failover.{
  Call, Env, M, Outcome, Stack, World, add_service, ask, begin_step, call, check_context,
  check_destination, compose_up, del_service, end_step, get_stack, notify, on_host, pure,
  query_reservations, query_service, raft_apply, render_compose, set_active_node, skip_step, ◌>>=◌,
  ◌then_run◌,
}
use floatlab_core.Failover.Sequence.{
  add_addresses, attempt_final_sync, return_service, runtime_compose, start_on, step, takeover_ips,
  wrapped,
}

-- An entry sent to the log: its event, and the error that sending it returned.
abbrev pub Post : Type 0
Post = Event × Outcome

-- The entries sent to the log, the last first.
unfoldable pub posts_of : List (Call × Option String) → List Post
posts_of [] = []
posts_of ((raft_apply entry, e) ∷ calls) = (entry.event, e) ∷ posts_of calls
posts_of ((_, _) ∷ calls) = posts_of calls

unfoldable pub posts : World → List Post
unfolding posts_of
posts w = posts_of w.calls

-- An operation that sends no entry.
unfoldable pub IsQuiet : {A : Type 0} → M A → Type 0
IsQuiet m = (w : World) → (posts (m w).1 ≡ posts w) × ((m w).1.fsm ≡ w.fsm)

-- A call that is no entry for the log.
unfoldable pub is_entry : Call → Bool
is_entry (raft_apply _) = true
is_entry _ = false

posts_of-other :
    (c : Call) (e : Option String) (calls : List (Call × Option String))
    → is_entry c ≡ false
    → posts_of ((c, e) ∷ calls) ≡ posts_of calls
unfolding is_entry posts_of
posts_of-other (raft_apply _) e calls h = cc
posts_of-other get_stack e calls h = refl
posts_of-other query_service e calls h = refl
posts_of-other query_reservations e calls h = refl
posts_of-other render_compose e calls h = refl
posts_of-other check_context e calls h = refl
posts_of-other notify e calls h = refl
posts_of-other (check_destination _) e calls h = refl
posts_of-other (set_active_node _) e calls h = refl
posts_of-other (begin_step _ _) e calls h = refl
posts_of-other (end_step _ _) e calls h = refl
posts_of-other (skip_step _) e calls h = refl
posts_of-other (on_host _ _) e calls h = refl

pub pure-IsQuiet : {A : Type 0} (a : A) → IsQuiet (pure a)
unfolding IsQuiet
pure-IsQuiet a w = (refl, refl)

pub bind-IsQuiet :
    {A B : Type 0} (m : M A) (f : A → M B)
    → IsQuiet m
    → ((a : A) → IsQuiet (f a))
    → IsQuiet (m >>= f)
unfolding IsQuiet
bind-IsQuiet m f h k w = ((k (m w).0 (m w).1).0 ∙ (h w).0, (k (m w).0 (m w).1).1 ∙ (h w).1)

pub error-IsQuiet :
    {S A : Type 0} (o : Option S) (f : S → M A) (g : M A)
    → ((x : S) → IsQuiet (f x))
    → IsQuiet g
    → IsQuiet (elim o as (λ x. M A) [ some x ↦ f x | none ↦ g ])
error-IsQuiet (some x) f g h k = h x
error-IsQuiet none f g h k = k

pub test-IsQuiet :
    {A : Type 0} (b : Bool) (f g : M A) → IsQuiet f → IsQuiet g → IsQuiet (if b then f else g)
test-IsQuiet true f g h k = h
test-IsQuiet false f g h k = k

pub then_run-IsQuiet : (m k : M Outcome) → IsQuiet m → IsQuiet k → IsQuiet (m then_run k)
unfolding ◌then_run◌
then_run-IsQuiet m k h l =
    bind-IsQuiet m _ h (λ e. error-IsQuiet e _ _ (λ x. pure-IsQuiet (some x)) l)

pub wrapped-IsQuiet : (p : String) (m : M Outcome) → IsQuiet m → IsQuiet (wrapped p m)
wrapped-IsQuiet p m h =
    bind-IsQuiet m _ h (λ e. pure-IsQuiet (elim e [ some x ↦ some (concat p x) | none ↦ none ]))

module _ (env : Env) where
  pub call-IsQuiet : (c : Call) → is_entry c ≡ false → IsQuiet (call env c)
  unfolding call IsQuiet posts
  call-IsQuiet c h w = (posts_of-other c (env.failure w.effects c) w.calls h, refl)

  pub ask-IsQuiet : {A : Type 0} (c : Call) (f : ℕ → A) → is_entry c ≡ false → IsQuiet (ask env c f)
  unfolding ask IsQuiet posts
  ask-IsQuiet c f h w = (posts_of-other c (env.failure w.effects c) w.calls h, refl)

  pub attempt_final_sync-IsQuiet : (s : Stack) → IsQuiet (attempt_final_sync env s)
  unfolding attempt_final_sync is_entry
  attempt_final_sync-IsQuiet s =
      test-IsQuiet (s.backup_node_id == "") _ _ (pure-IsQuiet (some "secondary node required")) (
        then_run-IsQuiet _ _ (wrapped-IsQuiet _ _ (call-IsQuiet _ refl))
          (wrapped-IsQuiet _ _ (call-IsQuiet _ refl)))

  pub add_addresses-IsQuiet :
      (node : String) (rows : List String) → IsQuiet (add_addresses env node rows)
  unfolding add_addresses is_entry
  add_addresses-IsQuiet node [] = pure-IsQuiet _
  add_addresses-IsQuiet node (a ∷ rows) =
      test-IsQuiet (a == "") _ _ (add_addresses-IsQuiet node rows) (
        then_run-IsQuiet _ _ (wrapped-IsQuiet _ _ (call-IsQuiet _ refl))
          (add_addresses-IsQuiet node rows))

  pub takeover_ips-IsQuiet : (s : Stack) → IsQuiet (takeover_ips env s)
  unfolding takeover_ips is_entry
  takeover_ips-IsQuiet s = test-IsQuiet (s.backup_node_id == "") _ _ (pure-IsQuiet none) (
      bind-IsQuiet (ask env query_service env.service) _ (ask-IsQuiet _ _ refl) (λ r.
        error-IsQuiet r.0 _ _ (λ x. pure-IsQuiet (some x))
          (error-IsQuiet r.1 _ _
            (λ a.
              then_run-IsQuiet _ _ (call-IsQuiet (set_active_node s.backup_node_id) refl)
                (call-IsQuiet (on_host s.backup_node_id (add_service a)) refl))
            (bind-IsQuiet (ask env query_reservations env.addresses) _ (ask-IsQuiet _ _ refl) (λ q.
              error-IsQuiet q.0 _ _ (λ x. pure-IsQuiet (some x))
                (add_addresses-IsQuiet s.backup_node_id q.1))))))

  pub start_on-IsQuiet : (node : String) (s : Stack) → IsQuiet (start_on env node s)
  unfolding start_on runtime_compose is_entry
  start_on-IsQuiet node s =
      bind-IsQuiet (runtime_compose env s) _
        (bind-IsQuiet (ask env query_service env.service) _ (ask-IsQuiet _ _ refl) (λ r.
          error-IsQuiet r.0 _ _ (λ x. pure-IsQuiet (some x, ""))
            (error-IsQuiet r.1 _ _ (λ a. ask-IsQuiet render_compose env.compose refl)
              (pure-IsQuiet (none, s.compose_yaml)))))
        (λ r.
          error-IsQuiet r.0 _ _ (λ x. pure-IsQuiet (some x))
            (call-IsQuiet (on_host node (compose_up r.1)) refl))

  pub return_service-IsQuiet : (s : Stack) → IsQuiet (return_service env s)
  unfolding return_service is_entry
  return_service-IsQuiet s =
      bind-IsQuiet (ask env query_service env.service) _ (ask-IsQuiet _ _ refl) (λ r.
        error-IsQuiet r.0 _ _ (λ x. pure-IsQuiet (some x))
          (error-IsQuiet r.1 _ _
            (λ a. then_run-IsQuiet _ _ (call-IsQuiet (set_active_node s.primary_node_id) refl) (
              then_run-IsQuiet _ _ (call-IsQuiet (on_host s.backup_node_id (del_service a)) refl)
                (call-IsQuiet (on_host s.primary_node_id (add_service a)) refl)))
            (pure-IsQuiet none)))

  pub step-IsQuiet :
      (n : ℕ) (name : String) (m : M Outcome) → IsQuiet m → IsQuiet (step env n name m)
  unfolding step is_entry
  step-IsQuiet n name m h =
      bind-IsQuiet (call env (begin_step n name)) _ (call-IsQuiet _ refl) (λ b.
        error-IsQuiet b _ _ (λ x. pure-IsQuiet (some x))
          (bind-IsQuiet m _ h (λ e.
            error-IsQuiet e _ _
              (λ x.
                bind-IsQuiet (call env (end_step n false)) _ (call-IsQuiet _ refl)
                  (λ y. pure-IsQuiet (some x)))
              (call-IsQuiet (end_step n true) refl))))
