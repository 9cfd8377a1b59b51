-- ===== src/Alerts/Recovery.antt =====
-- How an incident comes to be resolved (pkg/alerts/evaluate.go).
use floatlab_core.Base.{
  Bool, Bool-cases, Option, String, ap, arith, false, if◌then◌else◌, inl, inr, ltb, nat_eq, none,
  refl, some, string_eq, sym, true, ℕ, ◌∙◌, ◌≡◌, ◌≢◌,
}
use floatlab_core.Alerts.{
  AlertStatus, Conditions, Observation, Rule, State, advance, begun, is_unusable, leb_int, resolved,
  sub, take_sample, unknown, unless_gap, when_firing, when_recovered,
}
use floatlab_core.Alerts.Timer.{
  IsEvidence, IsPrompt, IsUsable, Timer, advance-Timer, advance-again, advance-newer,
  advance-unusable, observed, since, usable-recovered,
}

-- The evaluations since `t`, each at most three intervals after the one before, under the same
-- conditions, and each with evidence of recovery or with a fresh sample that is not newer.
pub data Sustained (digest : Conditions → String) (t : ℕ) : State → Type 0 where
  begins :
      (r : Rule) (old : State) (o : Observation)
      → IsEvidence r old o t
      → Sustained digest t (advance digest r old (some o) t)
  goes_on :
      (r : Rule) {old : State} (o : Observation) (now : ℕ)
      → Sustained digest t old
      → IsPrompt digest r old now
      → IsEvidence r old o now
      → Sustained digest t (advance digest r old (some o) now)
  rereads :
      (r : Rule) {old : State} (o : Observation) (now : ℕ)
      → Sustained digest t old
      → IsPrompt digest r old now
      → IsUsable r o now
      → ltb old.last_observed o.at ≡ false
      → Sustained digest t (advance digest r old (some o) now)
  stored :
      (alert_id severity error : String) {old : State}
      → Sustained digest t old
      → Sustained digest t (record old { alert_id = alert_id; severity = severity; error = error })

-- The states of an incident: evaluations by any rules at any times, and what `save` puts in.
pub data Reach (digest : Conditions → String) : State → Type 0 where
  untimed : {s : State} → s.recovery_since ≡ 0 → Reach digest s
  evaluated :
      (r : Rule) {old : State} (o : Option Observation) (now : ℕ)
      → Reach digest old
      → Reach digest (advance digest r old o now)
  stored :
      (alert_id severity error : String) {old : State}
      → Reach digest old
      → Reach digest (record old { alert_id = alert_id; severity = severity; error = error })

Running : (Conditions → String) → State → Type 0
Running digest s = s.recovery_since ≢ 0 → Sustained digest s.recovery_since s

Timer-Sustained :
    (digest : Conditions → String) (r : Rule) (old : State) (now t : ℕ) (o : Option Observation)
    → Timer digest r old now t o
    → Running digest old
    → t ≢ 0
    → Sustained digest t (advance digest r old o now)
unfolding Running
Timer-Sustained digest r old now t o (Timer.stopped z) run n = elim (n z) [ ]
Timer-Sustained digest r old now t _ (Timer.begins o e p) run n = rw p (begins r old o (e))
Timer-Sustained digest r old now t _ (Timer.goes_on o k e p) run n =
    rw p (goes_on r o now (run (λ z. n (p ∙ z))) k e)
Timer-Sustained digest r old now t _ (Timer.rereads o k u same p) run n =
    rw p (rereads r o now (run (λ z. n (p ∙ z))) k u same)

Reach-Running : {digest : Conditions → String} {s : State} → Reach digest s → Running digest s
unfolding Running
Reach-Running (untimed z) n = elim (n z) [ ]
Reach-Running {digest = digest} (evaluated r {old = old} o now h) n =
    Timer-Sustained digest r old now _ o (advance-Timer digest r old o now) (Reach-Running h) n
Reach-Running (stored id sev e h) n = stored id sev e (Reach-Running h n)

branch-resolved :
    (r : Rule) (old next : State) (b : Bool) (now : ℕ)
    → now ≢ 0
    → (if b then when_firing r old next now else when_recovered r old next now).status ≡ resolved
    → let s = if b then when_firing r old next now else when_recovered r old next now in
      (b ≡ false)
      × (old.alert_id ≢ "")
      × (s.recovery_since ≢ 0)
      × (leb_int r.recovery_for (sub now s.recovery_since) ≡ true)
unfolding when_firing when_recovered
branch-resolved r old next true now n h = ground arith
branch-resolved r old next false now n h = ground (arith, string_eq.beq_iff old.alert_id "")

take_sample-resolved :
    (r : Rule) (old next : State) (o : Observation) (now : ℕ)
    → now ≢ 0
    → (take_sample r old next o now).status ≡ resolved
    → (o.firing ≡ false)
      × (old.alert_id ≢ "")
      × ((take_sample r old next o now).recovery_since ≢ 0)
      × (leb_int r.recovery_for (sub now (take_sample r old next o now).recovery_since) ≡ true)
unfolding take_sample
take_sample-resolved r old next o now n h =
    branch-resolved r old
      (record (unless_gap r old o next) { last_observed = o.at; value = some o.value }) o.firing now
      n h

observed-status :
    (digest : Conditions → String) (r : Rule) (old : State) (o : Observation) (now : ℕ)
    → (observed digest r old o now).status ≡ old.status
unfolding observed begun
observed-status digest r old o now = ground (arith)

none-unknown :
    (digest : Conditions → String) (r : Rule) (old : State) (now : ℕ)
    → (advance digest r old none now).status ≡ unknown
unfolding advance
none-unknown digest r old now = refl

unknown≢resolved : unknown ≢ resolved
unknown≢resolved h = cc

status_of : State → AlertStatus
status_of s = s.status

-- What an evaluation that resolves has found.
IsResolvedBy :
    (digest : Conditions → String) → Rule → State → Option Observation → ℕ → State → Type 0
IsResolvedBy digest r old o now s =
    (s.recovery_since ≢ 0)
    × (leb_int r.recovery_for (sub now s.recovery_since) ≡ true)
    × ((obs : Observation) × (o ≡ some obs) × IsEvidence r old obs now)

advance-IsResolvedBy :
    (digest : Conditions → String) (r : Rule) (old : State) (o : Option Observation) (now : ℕ)
    → now ≢ 0
    → old.status ≢ resolved
    → (advance digest r old o now).status ≡ resolved
    → IsResolvedBy digest r old o now (advance digest r old o now)
unfolding IsResolvedBy IsUsable IsEvidence status_of since
advance-IsResolvedBy digest r old none now n fresh h =
    elim (unknown≢resolved (sym (none-unknown digest r old now) ∙ h)) [ ]
advance-IsResolvedBy digest r old (some o) now n fresh h = elim (Bool-cases (is_unusable r o now)) [
  | inl t ↦
      elim (unknown≢resolved (sym (ap status_of (advance-unusable digest r old o now t)) ∙ h)) [ ]
  | inr u ↦ elim (Bool-cases (ltb old.last_observed o.at)) [
    | inl newer ↦
        let e = advance-newer digest r old o now u newer in
        let (f, a, t, d) =
          take_sample-resolved r old (observed digest r old o now) o now n
            (sym (ap status_of e) ∙ h) in
        (
          (λ z. t (sym (ap since e) ∙ z)),
          rw e d,
          (o, refl, (u, f, usable-recovered r o now u f, newer, a)),
        )
    | inr same ↦
        elim (fresh (
          sym (
            ap status_of (advance-again digest r old o now u same)
            ∙ observed-status digest r old o now)
          ∙ h)) [ ]
  ]
]

-- An evaluation that resolves an incident has evidence of recovery: a fresh, finite sample of the
-- recovery predicate alone, newer than every sample before. Each evaluation for at least the rule's
-- `RecoveryFor` had it too, or had a fresh sample that was not newer; none of them came more than
-- three intervals after the one before, or under other conditions.
pub advance-resolved :
    (digest : Conditions → String) (r : Rule) (old : State) (o : Option Observation) (now : ℕ)
    → Reach digest old
    → now ≢ 0
    → old.status ≢ resolved
    → (advance digest r old o now).status ≡ resolved
    → Sustained digest (advance digest r old o now).recovery_since (advance digest r old o now)
      × (leb_int r.recovery_for (sub now (advance digest r old o now).recovery_since) ≡ true)
      × ((obs : Observation) × (o ≡ some obs) × IsEvidence r old obs now)
unfolding IsResolvedBy Running
advance-resolved digest r old o now reach n fresh h =
    let (t, d, e) = advance-IsResolvedBy digest r old o now n fresh h in
    (Reach-Running (evaluated r o now reach) t, d, e)
