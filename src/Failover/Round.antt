-- ===== src/Failover/Round.antt =====
-- One tick of the detector over the ticks before it (internal/failover/detector.go).
use floatlab_core.Base.{
  &&-eq-true, Bool, List, Option, String, arith, false, if◌then◌else◌, leb, leb→le, lookup, nat_eq,
  none, not, not-eq-false, refl, some, string_eq, subst, true, ||-eq-false, ℕ, ◌&&◌, ◌++◌, ◌-◌,
  ◌==◌, ◌||◌, ◌↔◌, ◌∷◌, ◌≡◌, ◌≢◌, ◌≤◌,
}
use floatlab_core.Run.{StackInstance, event_eq, running_primary, state_eq}
use floatlab_core.Raft.{Fsm, state}
use floatlab_core.Failover.Detector.{Watched, contains, is_due, is_on_primary, tick}
use floatlab_core.Failover.Outage.{Absent, outage, tick-outage}
use floatlab_core.Failover.History.{IsDown, IsOf, IsOverdue, Round, listed, starts, times}

module _ (parse : String → Option ℕ) where
  pub is_due_iff : (w : Watched) (t : ℕ) → (is_due parse w t ≡ true) ↔ IsOverdue parse w t
  unfolding is_due IsOverdue
  is_due_iff w t =
      (λ h. over (parse w.auto_trigger_after) refl h, λ (m, a, (th, p, l)). under m a th p l)
    where
      over :
          (o : Option ℕ)
          → parse w.auto_trigger_after ≡ o
          → (w.failover_mode == "auto"
              && not (w.auto_trigger_after == "")
              && elim o as (λ x. Bool) [ none ↦ false | some th ↦ leb th (w.now - t) ])
            ≡ true
          → (w.failover_mode ≡ "auto")
            × (w.auto_trigger_after ≢ "")
            × ((threshold : ℕ) × (parse w.auto_trigger_after ≡ some threshold)
                × (threshold ≤ w.now - t))
      over none e h = ground arith
      over (some th) e h =
          let (k, l) =
            &&-eq-true (w.failover_mode == "auto" && not (w.auto_trigger_after == ""))
              (leb th (w.now - t)) h in
          let (m, a) =
            &&-eq-true (w.failover_mode == "auto") (not (w.auto_trigger_after == "")) k in
          (
            (string_eq.beq_iff w.failover_mode "auto").0 m,
            λ z. ground (arith, a, (string_eq.beq_iff w.auto_trigger_after "").1 z),
            (th, e, leb→le th (w.now - t) l),
          )

      under :
          w.failover_mode ≡ "auto"
          → w.auto_trigger_after ≢ ""
          → (th : ℕ) → parse w.auto_trigger_after ≡ some th
          → th ≤ w.now - t
          → is_due parse w t ≡ true
      under m a th p l =
          rw (is_due, p)
            (ground (
              arith,
              (string_eq.beq_iff w.failover_mode "auto").1 m,
              string_eq.beq_iff w.auto_trigger_after "",
            ))

  is_on_iff :
      (id : String) (f : Fsm)
      → (is_on_primary f id ≡ true)
        ↔ ((i : StackInstance) × (state id f ≡ some i) × (i.state ≡ running_primary))
  unfolding is_on_primary
  is_on_iff id f = (
    λ h. there (state id f) refl h,
    λ (i, e, q). rw (is_on_primary, e) ((state_eq.beq_iff i.state running_primary).1 q),
  )
    where
      there :
          (o : Option StackInstance)
          → state id f ≡ o
          → elim o as (λ x. Bool) [ none ↦ false | some i ↦ i.state == running_primary ] ≡ true
          → (i : StackInstance) × (state id f ≡ some i) × (i.state ≡ running_primary)
      there none e h = ground arith
      there (some i) e h = (i, e, (state_eq.beq_iff i.state running_primary).0 h)

  -- The tick of a round that has the stack, by what `outage` says of it.
  pub listed-outage :
      (id : String) (f : Fsm) (us vs : List Watched) (w : Watched) (rs : List Round)
      → IsOf id (listed f us vs w)
      → let o = outage parse (is_on_primary f id) w (lookup id (times parse rs)) in
        (lookup id (times parse (listed f us vs w ∷ rs)) ≡ o.0)
        × (starts parse id (listed f us vs w ∷ rs) ≡ o.1)
  unfolding IsOf times starts
  listed-outage id f us vs w rs (e, a, b) =
      subst
        (λ j.
          Absent j us
          → Absent j vs
          → (lookup j (tick parse f (some (us ++ w ∷ vs)) (times parse rs)).0
              ≡ (outage parse (is_on_primary f j) w (lookup j (times parse rs))).0)
            × (contains j (tick parse f (some (us ++ w ∷ vs)) (times parse rs)).1
                ≡ (outage parse (is_on_primary f j) w (lookup j (times parse rs))).1))
        e (tick-outage parse f us vs w (times parse rs)) a b

  -- The time and the start after a tick of an outage, by whether it is overdue.
  abbrev pub after : ℕ → Bool → Option ℕ × Bool
  after t due = if due then (none, true) else (some t, false)

  pub up_tick :
      (b : Bool) (w : Watched) (o : Option ℕ)
      → (not b || w.alive) ≡ true
      → outage parse b w o ≡ (none, false)
  unfolding outage
  up_tick b w o h = rw (outage, h) refl

  pub first_tick :
      (b : Bool) (w : Watched)
      → (not b || w.alive) ≡ false
      → outage parse b w none ≡ (some w.now, false)
  unfolding outage
  first_tick b w h = rw (outage, h) refl

  pub later_tick :
      (b : Bool) (w : Watched) (t : ℕ)
      → (not b || w.alive) ≡ false
      → outage parse b w (some t) ≡ after t (is_due parse w t)
  unfolding outage
  later_tick b w t h = rw (outage, h) refl

  pub IsDown-iff :
      (id : String) (f : Fsm) (w : Watched)
      → ((not (is_on_primary f id) || w.alive) ≡ false) ↔ IsDown id f w
  unfolding IsDown
  IsDown-iff id f w = (
    λ h.
        let (n, a) = ||-eq-false (not (is_on_primary f id)) w.alive h in
        ((is_on_iff id f).0 (not-eq-false (is_on_primary f id) n), a),
    λ (o, a). rw ((is_on_iff id f).1 o, a) refl,
  )

  pub started_none :
      (b : Bool) (w : Watched) (o : Option ℕ)
      → (outage parse b w o).1 ≡ true
      → (outage parse b w o).0 ≡ none
  unfolding outage
  started_none b w o h = ground arith

  pub not_started :
      (w : Watched) (t : ℕ) → (after t (is_due parse w t)).1 ≡ false → (is_due parse w t ≡ false)
  not_started w t h = ground arith
