-- ===== src/Alerts/Timer.antt =====
-- What one evaluation makes of the recovery timer of an incident (`advance` of pkg/alerts/evaluate.go).
use floatlab_core.Base.{
  Bool, Bool-cases, Option, String, ap, arith, false, if◌then◌else◌, inl, inr, ltb, nat_eq, none,
  refl, some, string_eq, true, ℕ, ◌*◌, ◌∙◌, ◌≡◌, ◌≢◌, ◌⊎◌,
}
use floatlab_core.Alerts.{
  Conditions, Observation, Rule, State, advance, begun, conditions, interval, is_unusable, leb_int,
  pos, reset_timers, sub, take_sample, unknown, unless_gap, when_firing, when_recovered,
}

-- The observation counts for or against the rule's recovery.
unfoldable pub IsUsable : Rule → Observation → ℕ → Type 0
IsUsable r o now = is_unusable r o now ≡ false

-- No timer was reset before the observation was looked at.
unfoldable pub IsPrompt : (digest : Conditions → String) → Rule → State → ℕ → Type 0
IsPrompt digest r old now =
    (old.rule_hash ≡ digest (conditions r))
    × (leb_int (sub now old.last_evaluated) (pos (3 * interval)) ≡ true)

-- Evidence of recovery in a sample newer than all before.
unfoldable pub IsEvidence : Rule → State → Observation → ℕ → Type 0
unfolding IsUsable
IsEvidence r old o now =
    IsUsable r o now
    × (o.firing ≡ false)
    × (o.recovered ≡ true)
    × (ltb old.last_observed o.at ≡ true)
    × (old.alert_id ≢ "")

pub data Timer (digest : Conditions → String) (r : Rule) (old : State) (now since : ℕ)
    : Option Observation → Type 0 where
  stopped : {o : Option Observation} → since ≡ 0 → Timer digest r old now since o
  begins :
      (o : Observation)
      → IsEvidence r old o now
      → since ≡ now
      → Timer digest r old now since (some o)
  goes_on :
      (o : Observation)
      → IsPrompt digest r old now
      → IsEvidence r old o now
      → since ≡ old.recovery_since
      → Timer digest r old now since (some o)
  rereads :
      (o : Observation)
      → IsPrompt digest r old now
      → IsUsable r o now
      → ltb old.last_observed o.at ≡ false
      → since ≡ old.recovery_since
      → Timer digest r old now since (some o)

when_firing-stopped :
    (r : Rule) (old next : State) (now : ℕ) → (when_firing r old next now).recovery_since ≡ 0
unfolding when_firing
when_firing-stopped r old next now = ground arith

begun-cases :
    (digest : Conditions → String) (r : Rule) (old : State) (now : ℕ)
    → ((begun digest r old now).recovery_since ≡ 0)
      ⊎ (IsPrompt digest r old now × ((begun digest r old now).recovery_since ≡ old.recovery_since))
unfolding begun IsPrompt
begun-cases digest r old now =
    ground (arith, string_eq.beq_iff old.rule_hash (digest (conditions r)))

when_recovered-cases :
    (r : Rule) (old next : State) (now : ℕ)
    → ((when_recovered r old next now).recovery_since ≡ 0)
      ⊎ ((old.alert_id ≢ "")
          × (((when_recovered r old next now).recovery_since ≡ now)
              ⊎ ((when_recovered r old next now).recovery_since ≡ next.recovery_since)))
unfolding when_recovered
when_recovered-cases r old next now = ground (arith, string_eq.beq_iff old.alert_id "")

unless_gap-cases :
    (r : Rule) (old : State) (o : Observation) (next : State)
    → ((unless_gap r old o next).recovery_since ≡ 0)
      ⊎ ((unless_gap r old o next).recovery_since ≡ next.recovery_since)
unfolding unless_gap
unless_gap-cases r old o next = ground arith

branch-cases :
    (r : Rule) (old next : State) (b : Bool) (now : ℕ)
    → ((if b then when_firing r old next now else when_recovered r old next now).recovery_since ≡ 0)
      ⊎ ((b ≡ false)
          × (old.alert_id ≢ "")
          × (((if b
                  then when_firing r old next now
                  else when_recovered r old next now).recovery_since
                ≡ now)
              ⊎ ((if b
                    then when_firing r old next now
                    else when_recovered r old next now).recovery_since
                  ≡ next.recovery_since)))
branch-cases r old next true now = inl (when_firing-stopped r old next now)
branch-cases r old next false now = elim (when_recovered-cases r old next now) [
  | inl z ↦ inl z
  | inr p ↦ inr (refl, p.0, p.1)
]

-- What a newer sample makes of the timer.
take_sample-cases :
    (r : Rule) (old next : State) (o : Observation) (now : ℕ)
    → ((take_sample r old next o now).recovery_since ≡ 0)
      ⊎ ((o.firing ≡ false)
          × (old.alert_id ≢ "")
          × (((take_sample r old next o now).recovery_since ≡ now)
              ⊎ ((take_sample r old next o now).recovery_since ≡ next.recovery_since)))
unfolding take_sample
take_sample-cases r old next o now =
    elim (branch-cases r old
      (record (unless_gap r old o next) { last_observed = o.at; value = some o.value }) o.firing
      now) [
        | inl z ↦ inl z
        | inr (f, a, inl p) ↦ inr (f, a, inl p)
        | inr (f, a, inr p) ↦ elim (unless_gap-cases r old o next) [
          | inl z ↦ inl (p ∙ z)
          | inr k ↦ inr (f, a, inr (p ∙ k))
        ]
      ]

pub usable-recovered :
    (r : Rule) (o : Observation) (now : ℕ)
    → IsUsable r o now
    → o.firing ≡ false
    → o.recovered ≡ true
unfolding IsUsable is_unusable
usable-recovered r o now u f = ground arith

unfoldable pub observed : (digest : Conditions → String) → Rule → State → Observation → ℕ → State
observed digest r old o now = record (begun digest r old now) { labels = o.labels }

pub advance-newer :
    (digest : Conditions → String) (r : Rule) (old : State) (o : Observation) (now : ℕ)
    → is_unusable r o now ≡ false
    → ltb old.last_observed o.at ≡ true
    → advance digest r old (some o) now ≡ take_sample r old (observed digest r old o now) o now
unfolding advance observed
advance-newer digest r old o now u n = rw (u, n)

pub advance-again :
    (digest : Conditions → String) (r : Rule) (old : State) (o : Observation) (now : ℕ)
    → is_unusable r o now ≡ false
    → ltb old.last_observed o.at ≡ false
    → advance digest r old (some o) now ≡ observed digest r old o now
unfolding advance observed
advance-again digest r old o now u n = rw (u, n)

pub advance-unusable :
    (digest : Conditions → String) (r : Rule) (old : State) (o : Observation) (now : ℕ)
    → is_unusable r o now ≡ true
    → advance digest r old (some o) now
      ≡ reset_timers (record (begun digest r old now) { status = unknown })
unfolding advance
advance-unusable digest r old o now u = rw u

advance-nothing :
    (digest : Conditions → String) (r : Rule) (old : State) (now : ℕ)
    → (advance digest r old none now).recovery_since ≡ 0
unfolding advance
advance-nothing digest r old now = refl

unfoldable pub since : State → ℕ
since s = s.recovery_since

-- What an evaluation makes of the recovery timer.
pub advance-Timer :
    (digest : Conditions → String) (r : Rule) (old : State) (o : Option Observation) (now : ℕ)
    → Timer digest r old now (advance digest r old o now).recovery_since o
unfolding IsUsable IsEvidence observed since
advance-Timer digest r old none now = stopped (advance-nothing digest r old now)
advance-Timer digest r old (some o) now = elim (Bool-cases (is_unusable r o now)) [
  | inl t ↦ stopped (ap since (advance-unusable digest r old o now t))
  | inr u ↦ elim (Bool-cases (ltb old.last_observed o.at)) [
    | inl newer ↦ elim (take_sample-cases r old (observed digest r old o now) o now) [
      | inl z ↦ stopped (ap since (advance-newer digest r old o now u newer) ∙ z)
      | inr (f, a, inl p) ↦
          begins o (u, f, usable-recovered r o now u f, newer, a)
            (ap since (advance-newer digest r old o now u newer) ∙ p)
      | inr (f, a, inr p) ↦ elim (begun-cases digest r old now) [
        | inl z ↦ stopped (ap since (advance-newer digest r old o now u newer) ∙ p ∙ z)
        | inr (k, q) ↦
            goes_on o k (u, f, usable-recovered r o now u f, newer, a)
              (ap since (advance-newer digest r old o now u newer) ∙ p ∙ q)
      ]
    ]
    | inr same ↦ elim (begun-cases digest r old now) [
      | inl z ↦ stopped (ap since (advance-again digest r old o now u same) ∙ z)
      | inr (k, q) ↦ rereads o k u same (ap since (advance-again digest r old o now u same) ∙ q)
    ]
  ]
]
