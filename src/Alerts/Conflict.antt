-- ===== src/Alerts/Conflict.antt =====
-- Samples of one identity that contradict each other (pkg/alerts).
use floatlab_core.Base.{
  Bool, Bool-cases, List, Map, String, [], ap, arith, false, if◌then◌else◌, inl, inr, lookup,
  nat_eq, none, not, refl, some, some-inj, string_eq, subst, sym, true, ℕ, ◌++◌, ◌==◌, ◌∙◌, ◌∷◌,
  ◌≡◌,
}
use floatlab_core.Alerts.{Conditions, Observation, Rule, State, advance, is_unusable, unknown}
use floatlab_core.Alerts.Observe.{
  Sample, instance_id, is_in_scope, labels_of, observe_sample, observe_samples, put_sample,
  set_times,
}
use floatlab_core.Alerts.Merge.{IsSeen, IsTorn, put-IsSeen, put-IsTorn, put-other}
use floatlab_core.Alerts.Timer.{advance-unusable}

-- The sample is in the rule's scope and has the identity.
unfoldable pub IsOf : (String → Map String String → String) → Rule → String → Sample → Type 0
IsOf digest r id s = (is_in_scope r s ≡ true) × (instance_id digest r (labels_of s) ≡ id)

module _ (digest : String → Map String String → String) (r : Rule) (id : String) where
  sample-IsSeen :
      (fires : Bool) (s : Sample) (m : Map String Observation)
      → IsOf digest r id s
      → IsSeen id (observe_sample digest r fires s m)
  unfolding observe_sample IsOf
  sample-IsSeen fires s m (p, q) =
      subst
        (λ x.
          IsSeen id
            (if not x then m else put_sample (instance_id digest r (labels_of s)) fires s m))
        (sym p) (subst (λ j. IsSeen id (put_sample j fires s m)) (sym q) (put-IsSeen id fires s m))

  sample-IsTorn :
      (fires : Bool) (s : Sample) (m : Map String Observation)
      → IsOf digest r id s
      → IsSeen id m
      → IsTorn id (observe_sample digest r fires s m)
  unfolding observe_sample IsOf
  sample-IsTorn fires s m (p, q) h =
      subst
        (λ x.
          IsTorn id
            (if not x then m else put_sample (instance_id digest r (labels_of s)) fires s m))
        (sym p)
        (subst (λ j. IsTorn id (put_sample j fires s m)) (sym q) (put-IsTorn id fires s m h))

  IsTorn-IsSeen : (m : Map String Observation) → IsTorn id m → IsSeen id m
  unfolding IsTorn IsSeen
  IsTorn-IsSeen m (o, h, a, b) = (o, h)

  -- No later sample takes away what is seen or torn.
  sample-keeps :
      (P : Map String Observation → Type 0)
      → ((m n : Map String Observation) → lookup id n ≡ lookup id m → P m → P n)
      → ((fires : Bool) (s : Sample) (m : Map String Observation)
          → P m
          → P (put_sample id fires s m))
      → (fires : Bool) (s : Sample) (m : Map String Observation) → P m
      → P (observe_sample digest r fires s m)
  unfolding observe_sample
  sample-keeps P local own fires s m h =
      elim (is_in_scope r s)
        as (λ x.
          P (if not x then m else put_sample (instance_id digest r (labels_of s)) fires s m)) [
            | false ↦ h
            | true ↦ elim (Bool-cases (instance_id digest r (labels_of s) == id)) [
              | inl e ↦
                  subst (λ j. P (put_sample j fires s m)) (sym ((string_eq.beq_iff _ id).0 e))
                    (own fires s m h)
              | inr n ↦ local m _ (put-other id _ fires s m n) h
            ]
          ]

  samples-keep :
      (P : Map String Observation → Type 0)
      → ((m n : Map String Observation) → lookup id n ≡ lookup id m → P m → P n)
      → ((fires : Bool) (s : Sample) (m : Map String Observation)
          → P m
          → P (put_sample id fires s m))
      → (ss : List (Bool × Sample)) (m : Map String Observation) → P m
      → P (observe_samples digest r ss m)
  unfolding observe_samples
  samples-keep P local own [] m h = h
  samples-keep P local own ((fires, s) ∷ ss) m h =
      samples-keep P local own ss _ (sample-keeps P local own fires s m h)

  samples-append :
      (us vs : List (Bool × Sample)) (m : Map String Observation)
      → observe_samples digest r (us ++ vs) m
        ≡ observe_samples digest r vs (observe_samples digest r us m)
  unfolding observe_samples
  samples-append [] vs m = refl
  samples-append ((fires, s) ∷ us) vs m = samples-append us vs _

  IsSeen-local :
      (m n : Map String Observation) → lookup id n ≡ lookup id m → IsSeen id m → IsSeen id n
  unfolding IsSeen
  IsSeen-local m n e (o, h) = (o, e ∙ h)

  IsTorn-local :
      (m n : Map String Observation) → lookup id n ≡ lookup id m → IsTorn id m → IsTorn id n
  unfolding IsTorn
  IsTorn-local m n e (o, h, a, b) = (o, e ∙ h, a, b)

  IsTorn-own :
      (fires : Bool) (s : Sample) (m : Map String Observation)
      → IsTorn id m
      → IsTorn id (put_sample id fires s m)
  IsTorn-own fires s m h = put-IsTorn id fires s m (IsTorn-IsSeen m h)

  -- Two samples of one identity tear it, whatever the other samples are.
  twice-IsTorn :
      (us vs ws : List (Bool × Sample)) (a b : Bool) (s t : Sample) (m : Map String Observation)
      → IsOf digest r id s
      → IsOf digest r id t
      → IsTorn id (observe_samples digest r (us ++ ((a, s) ∷ (vs ++ ((b, t) ∷ ws)))) m)
  unfolding observe_samples
  twice-IsTorn us vs ws a b s t m p q =
      subst (IsTorn id) (sym (samples-append us ((a, s) ∷ (vs ++ ((b, t) ∷ ws))) m)) (
        subst (IsTorn id) (sym (samples-append vs ((b, t) ∷ ws) _)) (
          samples-keep (IsTorn id) IsTorn-local IsTorn-own ws _ (
            sample-IsTorn b t _ q (
              samples-keep (IsSeen id) IsSeen-local (λ f x n h. put-IsSeen id f x n) vs _
                (sample-IsSeen a s _ p)))))

set_times-IsTorn :
    (fresh : Map String ℕ) (id : String) (m : Map String Observation)
    → IsTorn id m
    → IsTorn id (set_times fresh m)
unfolding set_times IsTorn lookup
set_times-IsTorn fresh id [] (o, h, a, b) = absurd_none h
  where
    absurd_none : {P : Type 0} → none ≡ some o → P
    absurd_none h = cc
set_times-IsTorn fresh id ((j, o) ∷ m) (o', h, a, b) = elim (Bool-cases (j == id)) [
  | inl e ↦
      let same = some-inj (ap (λ x. if x then some o else lookup id m) (sym e) ∙ h) in
      (
        timed,
        ap (λ x. if x then some timed else lookup id (set_times fresh m)) e,
        ap (λ x. x.firing) same ∙ a,
        ap (λ x. x.recovered) same ∙ b,
      )
  | inr n ↦
      let (p, q, c, d) =
        set_times-IsTorn fresh id m
          (o', ap (λ x. if x then some o else lookup id m) (sym n) ∙ h, a, b) in
      (p, ap (λ x. if x then some timed else lookup id (set_times fresh m)) n ∙ q, c, d)
]
  where
    timed : Observation
    timed = record o { at = elim (lookup j fresh) [ none ↦ 0 | some t ↦ t ] }

torn-unusable :
    (r : Rule) (o : Observation) (now : ℕ)
    → o.firing ≡ true
    → o.recovered ≡ true
    → is_unusable r o now ≡ true
unfolding is_unusable
torn-unusable r o now a b = ground arith

unusable-unknown :
    (digest : Conditions → String) (r : Rule) (old : State) (o : Observation) (now : ℕ)
    → is_unusable r o now ≡ true
    → (advance digest r old (some o) now).status ≡ unknown
unusable-unknown digest r old o now u = ap (λ s. s.status) (advance-unusable digest r old o now u)

torn-unknown :
    (digest : Conditions → String) (r : Rule) (old : State) (id : String)
    (m : Map String Observation) (now : ℕ)
    → IsTorn id m
    → (advance digest r old (lookup id m) now).status ≡ unknown
unfolding IsTorn
torn-unknown digest r old id m now (o, h, a, b) =
    ap (λ x. (advance digest r old x now).status) h
    ∙ unusable-unknown digest r old o now (torn-unusable r o now a b)

-- Two samples in the rule's scope with the same identity, from either predicate and whatever the
-- other samples and the freshness are, leave the incident unknown: neither a conflict between the
-- predicates nor a duplicate can fire or resolve it.
pub conflict-unknown :
    (digest : Conditions → String) (identify : String → Map String String → String) (r : Rule)
    (old : State) (now : ℕ) (id : String) (fresh : Map String ℕ) (us vs ws : List (Bool × Sample))
    (a b : Bool) (s t : Sample)
    → IsOf identify r id s
    → IsOf identify r id t
    → (advance digest r old
        (lookup id (
          set_times fresh (observe_samples identify r (us ++ ((a, s) ∷ (vs ++ ((b, t) ∷ ws)))) [])))
        now).status
      ≡ unknown
conflict-unknown digest identify r old now id fresh us vs ws a b s t p q =
    torn-unknown digest r old id _ now
      (set_times-IsTorn fresh id _ (twice-IsTorn identify r id us vs ws a b s t [] p q))
