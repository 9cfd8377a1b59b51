-- ===== src/Failover/Started.antt =====
-- When the detector starts a failover, over the ticks since it began
-- (internal/failover/detector.go).
use floatlab_core.Base.{
  All, Bool-cases, List, Option, String, [], ap, arith, false, if◌then◌else◌, inl, inr, lookup,
  nat_eq, none, not, refl, some, string_eq, sym, true, ℕ, ◌||◌, ◌↔◌, ◌∙◌, ◌∷◌, ◌≡◌, ◌≢◌, ◌⊎◌,
}
use floatlab_core.Run.{event_eq, state_eq}
use floatlab_core.Raft.{Fsm}
use floatlab_core.Failover.Detector.{
  Detection, Watched, contains, is_due, is_on_primary, tick, visits,
}
use floatlab_core.Failover.Outage.{Absent, Same, lookup-keep_active, outage, visits-Same}
use floatlab_core.Failover.History.{
  Clear, IsDown, IsOf, IsOverdue, Outage, Round, at_first, begins, has_started, is_away, is_up,
  lasts, listed, starts, still_clear, times, unlisted, unread, unseen,
}
use floatlab_core.Failover.Round.{
  IsDown-iff, after, first_tick, is_due_iff, later_tick, listed-outage, not_started, started_none,
  up_tick,
}

module _ (parse : String → Option ℕ) (id : String) where
  unlisted_none :
      (f : Fsm) (ws : List Watched) (rs : List Round)
      → Absent id ws
      → lookup id (times parse (unlisted f ws ∷ rs)) ≡ none
  unfolding times tick Same contains
  unlisted_none f ws rs a =
      let d : Detection = record { down_since = times parse rs; active = []; started = [] } in
      let e = visits parse f ws d in
      lookup-keep_active id e.active e.down_since
      ∙ ap (λ b. if b then lookup id e.down_since else none) (visits-Same parse f id ws d a).2

  times-Clear :
      (rs : List Round) → All (IsOf id) rs → Clear parse id rs → lookup id (times parse rs) ≡ none
  unfolding times tick IsOf lookup
  times-Clear _ q at_first = refl
  times-Clear _ q (still_clear f rs c) = times-Clear rs q.1 c
  times-Clear _ q (is_away f ws rs) = unlisted_none f ws rs q.0
  times-Clear _ q (is_up f us vs w rs n) = elim (Bool-cases (not (is_on_primary f id) || w.alive)) [
    | inl t ↦
        (listed-outage parse id f us vs w rs q.0).0
        ∙ ap (λ o. o.0) (up_tick parse (is_on_primary f id) w (lookup id (times parse rs)) t)
    | inr d ↦ absurd (n ((IsDown-iff parse id f w).0 d))
  ]
  times-Clear _ q (has_started f us vs w rs s) =
      let (a, b) = listed-outage parse id f us vs w rs q.0 in
      a ∙ started_none parse (is_on_primary f id) w (lookup id (times parse rs)) (sym b ∙ s)

  times-Outage :
      (rs : List Round) (t : ℕ)
      → All (IsOf id) rs
      → Outage parse id rs t
      → lookup id (times parse rs) ≡ some t
  unfolding times tick IsOf
  times-Outage _ _ q (begins f us vs w rs d c) =
      (listed-outage parse id f us vs w rs q.0).0
      ∙ ap (λ o. (outage parse (is_on_primary f id) w o).0) (times-Clear rs q.1 c)
      ∙ ap (λ o. o.0) (first_tick parse (is_on_primary f id) w ((IsDown-iff parse id f w).1 d))
  times-Outage _ _ q (lasts f us vs w rs t d s o) =
      let (a, b) = listed-outage parse id f us vs w rs q.0 in
      let e =
        ap (outage parse (is_on_primary f id) w) (times-Outage rs t q.1 o)
        ∙ later_tick parse (is_on_primary f id) w t ((IsDown-iff parse id f w).1 d) in
      a
      ∙ ap (λ o. o.0) e
      ∙ ap (λ x. (after parse t x).0) (not_started parse w t (sym (b ∙ ap (λ o. o.1) e) ∙ s))
  times-Outage _ _ q (unseen f rs t o) = times-Outage rs t q.1 o

  true≢false : true ≢ false
  true≢false h = cc

  false≢true : false ≢ true
  false≢true h = cc

  -- What the history says of the time that the detector has.
  Known : List Round → Type 0
  Known rs =
      (lookup id (times parse rs) ≡ none) × Clear parse id rs
      ⊎ ((t : ℕ) × (lookup id (times parse rs) ≡ some t) × Outage parse id rs t)

  listed-Known :
      (f : Fsm) (us vs : List Watched) (w : Watched) (rs : List Round)
      → IsOf id (listed f us vs w)
      → Known rs
      → Known (listed f us vs w ∷ rs)
  unfolding Known
  listed-Known f us vs w rs q k = elim (Bool-cases (not (is_on_primary f id) || w.alive)) [
    | inl u ↦ inl (
      a ∙ ap (λ o. o.0) (up_tick parse (is_on_primary f id) w (lookup id (times parse rs)) u),
      is_up f us vs w rs (λ d. absurd (true≢false (sym u ∙ (IsDown-iff parse id f w).1 d))),
    )
    | inr u ↦ elim k [
      | inl (n, c) ↦ inr (
        w.now,
        a
            ∙ ap (λ o. (outage parse (is_on_primary f id) w o).0) n
            ∙ ap (λ o. o.0) (first_tick parse (is_on_primary f id) w u),
        begins f us vs w rs ((IsDown-iff parse id f w).0 u) c,
      )
      | inr (t, l, o) ↦
          let e =
            ap (outage parse (is_on_primary f id) w) l
            ∙ later_tick parse (is_on_primary f id) w t u in
          elim (Bool-cases (is_due parse w t)) [
            | inl y ↦
                let z = e ∙ ap (after parse t) y in
                inl (a ∙ ap (λ o. o.0) z, has_started f us vs w rs (b ∙ ap (λ o. o.1) z))
            | inr y ↦
                let z = e ∙ ap (after parse t) y in
                inr (
                  t,
                  a ∙ ap (λ o. o.0) z,
                  lasts f us vs w rs t ((IsDown-iff parse id f w).0 u) (b ∙ ap (λ o. o.1) z) o,
                )
          ]
    ]
  ]
    where
      a :
          lookup id (times parse (listed f us vs w ∷ rs))
          ≡ (outage parse (is_on_primary f id) w (lookup id (times parse rs))).0
      a = (listed-outage parse id f us vs w rs q).0

      b :
          starts parse id (listed f us vs w ∷ rs)
          ≡ (outage parse (is_on_primary f id) w (lookup id (times parse rs))).1
      b = (listed-outage parse id f us vs w rs q).1

  known : (rs : List Round) → All (IsOf id) rs → Known rs
  unfolding Known times tick IsOf lookup
  known [] q = inl (refl, at_first)
  known (unread f ∷ rs) q = elim (known rs q.1) [
    | inl (n, c) ↦ inl (n, still_clear f rs c)
    | inr (t, l, o) ↦ inr (t, l, unseen f rs t o)
  ]
  known (unlisted f ws ∷ rs) q = inl (unlisted_none f ws rs q.0, is_away f ws rs)
  known (listed f us vs w ∷ rs) q = listed-Known f us vs w rs q.0 (known rs q.1)

  -- Over any ticks since the detector began, none of whose lists has the stack twice, a tick that
  -- lists the stack starts its failover exactly if the stack then runs on its primary node and the
  -- node does not answer, an outage has been under way without a break since the time `t` of an
  -- earlier tick, with no failover started in it, the stack is to fail over by itself, and the time
  -- since `t` has come to the threshold that the stack sets.
  pub starts_iff :
      (f : Fsm) (us vs : List Watched) (w : Watched) (rs : List Round)
      → IsOf id (listed f us vs w)
      → All (IsOf id) rs
      → (starts parse id (listed f us vs w ∷ rs) ≡ true)
        ↔ (IsDown id f w × ((t : ℕ) × Outage parse id rs t × IsOverdue parse w t))
  unfolding Known
  starts_iff f us vs w rs q qs = (there, back)
    where
      b :
          starts parse id (listed f us vs w ∷ rs)
          ≡ (outage parse (is_on_primary f id) w (lookup id (times parse rs))).1
      b = (listed-outage parse id f us vs w rs q).1

      at_due : (t : ℕ) → (after parse t (is_due parse w t)).1 ≡ true → is_due parse w t ≡ true
      at_due t h = ground arith

      there :
          starts parse id (listed f us vs w ∷ rs) ≡ true
          → IsDown id f w × ((t : ℕ) × Outage parse id rs t × IsOverdue parse w t)
      there h = elim (Bool-cases (not (is_on_primary f id) || w.alive)) [
        | inl u ↦ absurd (
            false≢true (
              sym (
                b
                ∙ ap (λ o. o.1)
                    (up_tick parse (is_on_primary f id) w (lookup id (times parse rs)) u))
              ∙ h))
        | inr u ↦ (
          (IsDown-iff parse id f w).0 u,
          elim (known rs qs) [
            | inl (n, c) ↦ absurd (
                false≢true (
                  sym (
                    b
                    ∙ ap (λ o. (outage parse (is_on_primary f id) w o).1) n
                    ∙ ap (λ o. o.1) (first_tick parse (is_on_primary f id) w u))
                  ∙ h))
            | inr (t, l, o) ↦ (
              t,
              o,
              (is_due_iff parse w t).0 (
                  at_due t (
                    sym (
                      b
                      ∙ ap (λ o. (outage parse (is_on_primary f id) w o).1) l
                      ∙ ap (λ o. o.1) (later_tick parse (is_on_primary f id) w t u))
                    ∙ h)),
            )
          ],
        )
      ]

      back :
          IsDown id f w × ((t : ℕ) × Outage parse id rs t × IsOverdue parse w t)
          → starts parse id (listed f us vs w ∷ rs) ≡ true
      back (d, (t, o, x)) =
          b
          ∙ ap (λ o. (outage parse (is_on_primary f id) w o).1) (times-Outage rs t qs o)
          ∙ ap (λ o. o.1)
              (later_tick parse (is_on_primary f id) w t ((IsDown-iff parse id f w).1 d))
          ∙ ap (λ x. (after parse t x).1) ((is_due_iff parse w t).1 x)
