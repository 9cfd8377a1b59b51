-- ===== src/Alerts/Merge.antt =====
-- How one more sample changes the observations of an identity (pkg/alerts/evaluator.go).
use floatlab_core.Base.{
  ==_refl, Bool, Map, Option, String, ap, false, if◌then◌else◌, insert, lookup, lookup-insert,
  nat_eq, none, not, refl, some, string_eq, true, ◌==◌, ◌∙◌, ◌≡◌,
}
use floatlab_core.Alerts.{Observation}
use floatlab_core.Alerts.Observe.{Sample, both_hold, labels_of, put_sample}

-- The identity has an observation, and one for which both predicates hold.
unfoldable pub IsSeen : String → Map String Observation → Type 0
IsSeen id m = (o : Observation) × (lookup id m ≡ some o)

unfoldable pub IsTorn : String → Map String Observation → Type 0
IsTorn id m = (o : Observation) × (lookup id m ≡ some o) × (o.firing ≡ true) × (o.recovered ≡ true)

pub insert-own :
    (id : String) (o : Observation) (m : Map String Observation)
    → lookup id (insert id o m) ≡ some o
insert-own id o m =
    lookup-insert id id o m ∙ ap (λ b. if b then some o else lookup id m) (==_refl id)

pub insert-other :
    (id j : String) (o : Observation) (m : Map String Observation)
    → (j == id) ≡ false
    → lookup id (insert j o m) ≡ lookup id m
insert-other id j o m n = lookup-insert j id o m ∙ ap (λ b. if b then o' else lookup id m) n
  where
    o' : Option Observation
    o' = some o

-- A second sample of the identity tears it, and a first one makes it seen.
pub put-IsTorn :
    (id : String) (fires : Bool) (s : Sample) (m : Map String Observation)
    → IsSeen id m
    → IsTorn id (put_sample id fires s m)
unfolding IsSeen IsTorn put_sample
put-IsTorn id fires s m (o, h) =
    (both_hold o, ap (λ x. lookup id x) (opened h) ∙ insert-own id (both_hold o) m, refl, refl)
  where
    opened : lookup id m ≡ some o → put_sample id fires s m ≡ insert id (both_hold o) m
    opened h =
        ap
          (λ x. elim x as (λ y. Map String Observation) [
            | some previous ↦ insert id (both_hold previous) m
            | none ↦
                insert id
                  (record {
                    labels = labels_of s;
                    value = s.value;
                    at = s.observed_at;
                    firing = fires;
                    recovered = not fires;
                  })
                  m
          ])
          h

pub put-other :
    (id j : String) (fires : Bool) (s : Sample) (m : Map String Observation)
    → (j == id) ≡ false
    → lookup id (put_sample j fires s m) ≡ lookup id m
unfolding put_sample
put-other id j fires s m n =
    elim (lookup j m)
      as (λ x.
        lookup id (elim x as (λ y. Map String Observation) [
          | some previous ↦ insert j (both_hold previous) m
          | none ↦
              insert j
                (record {
                  labels = labels_of s;
                  value = s.value;
                  at = s.observed_at;
                  firing = fires;
                  recovered = not fires;
                })
                m
        ])
        ≡ lookup id m) [
          | some previous ↦ insert-other id j (both_hold previous) m n
          | none ↦ insert-other id j _ m n
        ]

pub put-IsSeen :
    (id : String) (fires : Bool) (s : Sample) (m : Map String Observation)
    → IsSeen id (put_sample id fires s m)
unfolding IsSeen put_sample
put-IsSeen id fires s m =
    elim (lookup id m)
      as (λ x.
        (o : Observation) × (lookup id (elim x as (λ y. Map String Observation) [
          | some previous ↦ insert id (both_hold previous) m
          | none ↦
              insert id
                (record {
                  labels = labels_of s;
                  value = s.value;
                  at = s.observed_at;
                  firing = fires;
                  recovered = not fires;
                })
                m
        ])
          ≡ some o)) [
            | some previous ↦ (both_hold previous, insert-own id (both_hold previous) m)
            | none ↦ (_, insert-own id _ m)
          ]
