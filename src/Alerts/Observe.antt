-- ===== src/Alerts/Observe.antt =====
-- `Evaluator.observe` of pkg/alerts/evaluator.go and `instanceID` of pkg/alerts/evaluate.go. What the
-- three queries give is a list of samples, or nothing where the query fails. The digest of an
-- identity (SHA-256 of the JSON of its labels) and the conversion of a float64 of seconds to an
-- instant are parameters.
use floatlab_core.Base.{
  Bool, List, Map, Option, String, [], erase, false, if◌then◌else◌, insert, lookup, map, nat_eq,
  none, not, some, string_eq, true, ℕ, ◌&&◌, ◌++◌, ◌==◌, ◌||◌, ◌∷◌,
}
use floatlab_core.Alerts.{Observation, Rule}

pub record Sample : Type 0 where
  pub labels : Map String String
  pub value : ℕ
  pub observed_at : ℕ

-- `labels[key]`, which is "" for a missing key.
unfoldable pub label : String → Map String String → String
label k m = elim (lookup k m) [ none ↦ "" | some v ↦ v ]

-- The labels but for the name of the metric.
abbrev pub labels_of : Sample → Map String String
labels_of s = erase "__name__" s.labels

-- The rule's scope holds the sample.
unfoldable pub is_in_scope : Rule → Sample → Bool
unfolding label
is_in_scope r s =
    (r.stack_id == "" || label "stack_id" (labels_of s) == r.stack_id)
    && (r.node_id == "" || label "node_id" (labels_of s) == r.node_id)

abbrev pub both_hold : Observation → Observation
both_hold o = record o { firing = true; recovered = true }

-- What a sample in scope makes of the observations: a second one of an identity makes both predicates
-- hold.
unfoldable pub put_sample : String → Bool → Sample → Map String Observation → Map String Observation
put_sample id fires s m = elim (lookup id m) [
  | some previous ↦ insert id (both_hold previous) m
  | none ↦
      insert id
        (record {
          labels = labels_of s;
          value = s.value;
          at = s.observed_at;
          firing = fires;
          recovered = not fires;
        })
        m
]

module _ (digest : String → Map String String → String) where
  -- `instanceID`
  unfoldable pub instance_id : Rule → Map String String → String
  instance_id r labels = digest r.id (if r.compose then erase "node_id" labels else labels)

  -- One round of the loop over the samples of a predicate.
  unfoldable pub observe_sample :
      Rule → Bool → Sample → Map String Observation → Map String Observation
  unfolding is_in_scope instance_id put_sample
  observe_sample r fires s m =
      if not (is_in_scope r s) then m else put_sample (instance_id r (labels_of s)) fires s m

  unfoldable pub observe_samples :
      Rule → List (Bool × Sample) → Map String Observation → Map String Observation
  unfolding observe_sample
  observe_samples r [] m = m
  observe_samples r ((fires, s) ∷ rest) m = observe_samples r rest (observe_sample r fires s m)

  -- `freshness`, by its last sample for each identity.
  unfoldable pub freshness_of : (ℕ → ℕ) → Rule → List Sample → Map String ℕ → Map String ℕ
  unfolding instance_id
  freshness_of instant r [] m = m
  freshness_of instant r (s ∷ rest) m =
      freshness_of instant r rest (insert (instance_id r (labels_of s)) (instant s.value) m)

-- The last loop: an identity without freshness gets the zero time.
unfoldable pub set_times : Map String ℕ → Map String Observation → Map String Observation
set_times fresh [] = []
set_times fresh ((id, o) ∷ m) =
    (id, record o { at = elim (lookup id fresh) [ none ↦ 0 | some t ↦ t ] }) ∷ set_times fresh m

abbrev pub tagged : Bool → List Sample → List (Bool × Sample)
tagged fires samples = map (λ s. (fires, s)) samples

module _ (digest : String → Map String String → String) (instant : ℕ → ℕ) where
  -- `Evaluator.observe`
  unfoldable pub observe : Rule → (String → Option (List Sample)) → Option (Map String Observation)
  unfolding observe_samples freshness_of set_times
  observe r query = do
    matches ← asked r.condition
    recoveries ← asked r.recovery_condition
    let found : Map String Observation =
        observe_samples digest r (tagged true matches ++ tagged false recoveries) []
    fresh ← asked r.freshness_query
    some (
        if r.freshness_query == ""
        then found
        else set_times (freshness_of digest instant r fresh []) found)
    where
      asked : String → Option (List Sample)
      asked q = if q == "" then some [] else query q

      ◌>>=◌ : {A B : Type 0} → Option A → (A → Option B) → Option B
      ◌>>=◌ none k = none
      ◌>>=◌ (some a) k = k a
