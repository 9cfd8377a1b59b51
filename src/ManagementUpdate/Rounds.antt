-- ===== src/ManagementUpdate/Rounds.antt =====
-- What the loop of `execute` in internal/managementupdate/manager.go keeps, and what it leaves.
use floatlab_core.Base.{
  Bool, List, Option, String, [], ap, arith, false, nat_eq, none, refl, some, string_eq, true, ◌&&◌,
  ◌∙◌, ◌∷◌, ◌≡◌,
}
use floatlab_core.ManagementUpdate.{
  Env, Event, Op, Phase, Status, World, call, called, checking, do_cleanup, do_fence, do_healthy,
  do_install, do_preflight, do_prepare, do_snapshot, failed, fencing, installing, preflight,
  prepare, step, taking_snapshot, wrote,
}
use floatlab_core.ManagementUpdate.Transaction.{
  enter, is_before_production, is_preflight, message, round, rounds, save_quietly, steps, stop_by,
}
use floatlab_core.ManagementUpdate.Trace.{
  Inv, IsPermitted, call-Called, call-Inv, is_verified, last_call, step-Inv, step-Stepped,
}
use floatlab_core.ManagementUpdate.Rules.{on_case, on_failure, on_test}
use floatlab_core.ManagementUpdate.Safety.{rollback-Inv, step_unauthorized, unauthorized-Inv}

module _ (env : Env) where
  pub stop_by-Inv :
      (e : Option String) (s : Status) (w : World)
      → Inv w
      → s.authorized ≡ false
      → Inv (stop_by env e s w).1
  unfolding stop_by save_quietly
  stop_by-Inv e s₀ w i u =
      let s = record s₀ { error = message e } in
      let c = call env do_cleanup (record s { state = failed }) w in
      on_test (λ r. Inv r.1) (is_before_production s.phase) _ _ w
        (λ b.
          unauthorized-Inv env c.0.1 c.1
            (call-Inv env do_cleanup (record s { state = failed }) w i tt (ground arith))
            (ap (λ t. t.authorized)
                (call-Called env do_cleanup (record s { state = failed }) w).status
              ∙ u))
        (λ b. rollback-Inv env s w i)

  enter_unauthorized :
      (phase : Phase) (s : Status) → s.authorized ≡ false → (enter phase s).authorized ≡ false
  enter_unauthorized taking_snapshot s h = h
  enter_unauthorized installing s h = h
  enter_unauthorized _ s h = h

  -- A cleanup keeps the invariant at any time.
  pub cleanup-Inv : (s : Status) (w : World) → Inv w → Inv (call env do_cleanup s w).1
  cleanup-Inv s w i = call-Inv env do_cleanup s w i tt (ground arith)

  call_unauthorized :
      (op : Op) (s : Status) (w : World)
      → s.authorized ≡ false
      → (call env op s w).0.1.authorized ≡ false
  call_unauthorized op s w u = ap (λ t. t.authorized) (call-Called env op s w).status ∙ u

  -- What a round leaves: the invariant and, where it does not end the loop, a status that is not
  -- authorized and its own call as the last one.
  abbrev After : Phase → Op → (Bool × Status) × World → Type 0
  After phase op r =
      Inv r.1
      × (r.0.0 ≡ false
          → (r.0.1.authorized ≡ false)
            × (is_preflight phase ≡ false → last_call r.1.events ≡ some (op, true)))

  module _ (phase : Phase) (op : Op) (s : Status) (w : World) (i : Inv w) (u : s.authorized ≡ false)
      (p : IsPermitted op w.events) where
    abbrev a : (Option String × Status) × World
    a = step env (enter phase s) phase op w

    entered : (enter phase s).authorized ≡ false
    entered = enter_unauthorized phase s u

    i₁ : Inv a.1
    i₁ = step-Inv env (enter phase s) phase op w i (rw entered) p (rw entered)

    u₁ : a.0.1.authorized ≡ false
    u₁ = step_unauthorized env (enter phase s) phase op w entered

    pub round-After : After phase op (round env (phase, op) s w)
    unfolding round save_quietly
    round-After =
        on_test (After phase op) (is_preflight phase && s.skip_dry_run) _ _ w
          (λ skip. (i, λ f. (u, λ np. ground arith)))
          (λ go.
            on_failure (After phase op) a.0.0 _ _ a.1
              (λ e q. (stop_by-Inv (some e) a.0.1 a.1 i₁ u₁, λ f. cc))
              (λ n.
                on_test (After phase op) (is_preflight phase) _ _ a.1
                  (λ pre.
                    let c = call env do_cleanup a.0.1 a.1 in
                    on_failure (After phase op) c.0.0 _ _ c.1
                      (λ e q. (
                        unauthorized-Inv env _ c.1 (cleanup-Inv a.0.1 a.1 i₁)
                            (call_unauthorized do_cleanup a.0.1 a.1 u₁),
                        λ f. cc,
                      ))
                      (λ m. (
                        cleanup-Inv a.0.1 a.1 i₁,
                        λ f. (call_unauthorized do_cleanup a.0.1 a.1 u₁, λ np. cc),
                      )))
                  (λ np.
                    (i₁, λ f. (u₁, λ q. (step-Stepped env (enter phase s) phase op w n).calls)))))

verified_of_last_call :
    (t : List Event) → last_call t ≡ some (do_healthy, true) → is_verified t ≡ true
verified_of_last_call [] h = cc
verified_of_last_call (wrote s ∷ t) h = verified_of_last_call t h
verified_of_last_call (called op (some e) ∷ t) h = cc
verified_of_last_call (called do_healthy none ∷ t) h = refl
verified_of_last_call (called _ none ∷ t) h = cc

abbrev from_checking : List (Phase × Op)
from_checking = (checking, do_healthy) ∷ []

abbrev from_installing : List (Phase × Op)
from_installing = (installing, do_install) ∷ from_checking

abbrev from_snapshot : List (Phase × Op)
from_snapshot = (taking_snapshot, do_snapshot) ∷ from_installing

abbrev from_fencing : List (Phase × Op)
from_fencing = (fencing, do_fence) ∷ from_snapshot

abbrev from_preflight : List (Phase × Op)
from_preflight = (preflight, do_preflight) ∷ from_fencing

module _ (env : Env) where
  -- What the loop leaves: the invariant and, where it is not left early, verified containers.
  abbrev pub Looped : (Bool × Status) × World → Type 0
  Looped r =
      Inv r.1 × (r.0.0 ≡ false → (r.0.1.authorized ≡ false) × (is_verified r.1.events ≡ true))

  next_round :
      (phase : Phase) (op : Op) (rs : List (Phase × Op)) (s : Status) (w : World)
      → Inv w
      → s.authorized ≡ false
      → IsPermitted op w.events
      → ((s' : Status) (w' : World)
          → Inv w'
          → s'.authorized ≡ false
          → (is_preflight phase ≡ false → last_call w'.events ≡ some (op, true))
          → Looped (rounds env rs s' w'))
      → Looped (rounds env ((phase, op) ∷ rs) s w)
  unfolding rounds
  next_round phase op rs s w i u p rest =
      let r = round env (phase, op) s w in
      let (i', more) = round-After env phase op s w i u p in
      on_case Looped r.0.0 _ _ r.1 (λ t. (i', λ f. cc))
        (λ f. rest r.0.1 r.1 i' (more f).0 (more f).1)

  pub rounds-Looped :
      (s : Status) (w : World) → Inv w → s.authorized ≡ false → Looped (rounds env steps s w)
  unfolding rounds
  rounds-Looped s w i u = next_round prepare do_prepare from_preflight s w i u tt (λ s w i u c.
      next_round preflight do_preflight from_fencing s w i u tt (λ s w i u c.
        next_round fencing do_fence from_snapshot s w i u tt (λ s w i u c.
          next_round taking_snapshot do_snapshot from_installing s w i u (c refl) (λ s w i u c.
            next_round installing do_install from_checking s w i u (c refl) (λ s w i u c.
              next_round checking do_healthy [] s w i u tt
                (λ s w i u c. (i, λ f. (u, verified_of_last_call w.events (c refl)))))))))
