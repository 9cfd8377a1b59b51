-- ===== src/HostNetwork/Repeated.antt =====
-- A request that comes again: `Submit` of internal/hostnetwork/manager.go.
use floatlab_core.Base.{
  ==_refl, Bool, Bool-cases, List, Map, Option, String, [], ap, concat, false, if◌then◌else◌, inl,
  inr, insert, nat_eq, none, not, refl, some, string_eq, subst, suc, sym, true, ◌&&◌, ◌==◌, ◌∙◌,
  ◌∷◌, ◌≡◌, ◌≢◌,
}
use floatlab_core.Base.Steps.{on_option, on_test, pure}
use floatlab_core.HostNetwork.{Change, Env, Journal, M, NetworkConfig, Outcome, Request, World}
use floatlab_core.HostNetwork.Disk.{ask, journal_of, put_change, save}
use floatlab_core.HostNetwork.Config.{Checked, Parsers, invalid, valid, validate, validate_services}
use floatlab_core.HostNetwork.Changes.{
  check_adapters, create_change, find_request, is_request_invalid, new_change, submit,
  submit_locked,
}
use floatlab_core.HostNetwork.Written.{save-written}
use floatlab_core.HostNetwork.Held.{IsHeld, find_request-key, stamp}
use floatlab_core.HostNetwork.Applied.{apply_rounds, apply_rounds-IsHeld}

-- A change that no entry stood for is found once it is in the map.
find_request-insert :
    (key actor id : String) (c : Change) (m : Map String Change)
    → (c.key == key && c.actor == actor) ≡ true
    → find_request key actor m ≡ none
    → find_request key actor (insert id c m) ≡ some c
unfolding find_request insert
find_request-insert key actor id c [] t h = rw t refl
find_request-insert key actor id c ((j, d) ∷ m) t h = elim (Bool-cases (j == id)) [
  | inl q ↦ rw q (rw t refl)
  | inr q ↦ elim (Bool-cases (d.key == key && d.actor == actor)) [
    | inl r ↦ absurd (found (rw r at h))
    | inr r ↦ rw q (rw r (find_request-insert key actor id c m t (rw r at h)))
  ]
]
  where
    found : some d ≢ none
    found e = cc e

module _ (parsers : Parsers) (revision_of : NetworkConfig → String) (env : Env) where
  abbrev pub hash_of : Request → NetworkConfig → String
  hash_of p x = concat p.revision (concat ":" (revision_of x))

  -- The journal on the disk has the change for the request.
  pub record IsKnown (p : Request) (c : Change) (x : NetworkConfig) (w : World) : Type 0 where
    pub found : find_request p.key p.actor (journal_of w.journal).changes ≡ some c
    pub hash : (c.request_hash == hash_of p x) ≡ true

  unfoldable Answers : Request → NetworkConfig → Change → (Outcome × Option Change) × World → Type 0
  Answers p x c r = r.0 ≡ (none, some c) → IsKnown p c x r.1

  refused :
      (p : Request) (x : NetworkConfig) (c : Change) (e : String) (w : World)
      → Answers p x c ((some e, none), w)
  unfolding Answers
  refused p x c e w h = cc h

  create_change-Answers :
      (p : Request) (x : NetworkConfig) (s : Journal) (c : Change) (w : World)
      → find_request p.key p.actor s.changes ≡ none
      → Answers p x c (create_change parsers revision_of env p x s w)
  unfolding create_change Answers
  create_change-Answers p x s c w n =
      on_test (Answers p x c) (not (s.pending == "")) _ _ w (λ _. refused p x c _ w)
        (λ _.
          on_test (Answers p x c) (not (p.revision == revision_of s.confirmed_config)) _ _ w
            (λ _. refused p x c _ w)
            (λ _.
              on_option (Answers p x c) (validate_services parsers x s.services) _ _ w
                (λ e _. refused p x c e w)
                (λ _.
                  let v : World = (ask env env.live w).1 in
                  on_option (Answers p x c) (ask env env.live w).0 _ _ v
                    (λ l _.
                      on_option (Answers p x c) (check_adapters parsers revision_of env x l) _ _ v
                        (λ e _. refused p x c e v)
                        (λ _.
                          let id : String = (ask env env.uuid v).0 in
                          let u : World = (ask env env.uuid v).1 in
                          let new : Change = new_change parsers revision_of env id p x s in
                          let t : Journal = put_change id new (record s { pending = id }) in
                          λ h.
                            let (e, q) = parts (save env t u).0 h in
                            let j : (save env t u).1.journal ≡ some t =
                              (save-written env t u e).0 in
                            let f : find_request p.key p.actor (insert id new s.changes)
                                ≡ some new =
                              find_request-insert p.key p.actor id new s.changes
                                (both (==_refl p.key) (==_refl p.actor)) n in
                            record {
                              found =
                                  ap (λ k. find_request p.key p.actor (journal_of k).changes) j
                                  ∙ f
                                  ∙ ap some q;
                              hash =
                                  ap (λ d. d.request_hash == hash_of p x) (sym q)
                                  ∙ ==_refl (hash_of p x);
                            }))
                    (λ _. refused p x c "live state" v))))
    where
      parts :
          {d : Change} (e : Outcome)
          → ◌≡◌ {A = Outcome × Option Change}
              (e, elim e as (λ x. Option Change) [ some _ ↦ none | none ↦ some d ])
              (none, some c)
          → (e ≡ none) × (d ≡ c)
      parts none h = (refl, cc h)
      parts (some x) h = cc h

      both : {a b : Bool} → a ≡ true → b ≡ true → (a && b) ≡ true
      both h k = cc

  -- A request is well formed, and the journal has the change for it.
  pub record IsTaken (p : Request) (c : Change) (w : World) : Type 0 where
    pub config : NetworkConfig
    pub well_formed : is_request_invalid parsers revision_of env p ≡ false
    pub validated : validate parsers p.config ≡ valid config
    pub known : IsKnown p c config w

  unfoldable pub Takes : Request → Change → (Outcome × Option Change) × World → Type 0
  Takes p c r = r.0 ≡ (none, some c) → IsTaken p c r.1

  untaken : (p : Request) (c : Change) (e : String) (w : World) → Takes p c ((some e, none), w)
  unfolding Takes
  untaken p c e w h = cc h

  submit_locked-Takes :
      (p : Request) (c : Change) (w : World)
      → Takes p c (submit_locked parsers revision_of env p (journal_of w.journal) w)
  unfolding submit_locked Takes Answers
  submit_locked-Takes p c w =
      on_test (Takes p c) (is_request_invalid parsers revision_of env p) _ _ w
        (λ _. untaken p c _ w) (λ f. checked f (validate parsers p.config) refl)
    where
      s : Journal
      s = journal_of w.journal

      same : {d : Change} → ◌≡◌ {A = Outcome × Option Change} (none, some d) (none, some c) → d ≡ c
      same h = cc h

      checked :
          is_request_invalid parsers revision_of env p ≡ false
          → (v : Checked NetworkConfig) → validate parsers p.config ≡ v
          → Takes p c (
              (elim v as (λ x. M (Outcome × Option Change)) [
                | invalid e ↦ pure (some e, none)
                | valid x ↦ elim (find_request p.key p.actor s.changes) [
                  | some old ↦
                      if old.request_hash == hash_of p x
                      then pure (none, some old)
                      else pure (some "idempotency key already used for another request", none)
                  | none ↦ create_change parsers revision_of env p x s
                ]
              ])
                w)
      checked f (invalid e) q = untaken p c e w
      checked f (valid x) q =
          on_option (Takes p c) (find_request p.key p.actor s.changes) _ _ w
            (λ old e.
              on_test (Takes p c) (old.request_hash == hash_of p x) _ _ w
                (λ t h. record {
                  config = x;
                  well_formed = f;
                  validated = q;
                  known = record {
                    found = e ∙ ap some (same h);
                    hash = subst (λ d. (d.request_hash == hash_of p x) ≡ true) (same h) t;
                  };
                })
                (λ _. untaken p c _ w))
            (λ n h. record {
              config = x;
              well_formed = f;
              validated = q;
              known = create_change-Answers p x s c w n h;
            })

  pub submit-Takes :
      (p : Request) (c : Change) (w : World) → Takes p c (submit parsers revision_of env p w)
  unfolding submit
  submit-Takes p c w =
      let v : World = (ask env env.lock w).1 in
      on_option (Takes p c) (ask env env.lock w).0 _ _ v (λ x _. untaken p c x v)
        (λ _. submit_locked-Takes p c v)

  -- A request that is taken gets its change, and the disk stays as it is.
  taken-answer :
      (p : Request) (c : Change) (v : World)
      → IsTaken p c v
      → submit_locked parsers revision_of env p (journal_of v.journal) v ≡ ((none, some c), v)
  unfolding submit_locked
  taken-answer p c v t = rw (t.well_formed, t.validated, t.known.found, t.known.hash) refl

  -- The journal still has the change of a request after rounds of `apply`, perhaps further on in its
  -- course.
  pub later-IsTaken :
      (p : Request) (c : Change) (ids : List String) (w v : World)
      → v.journal ≡ (apply_rounds parsers revision_of env ids w).journal
      → IsTaken p c w
      → (d : Change) × IsTaken p d v × (stamp d ≡ stamp c)
  unfolding IsHeld
  later-IsTaken p c ids w v e t =
      let (k, a) = find_request-key p.key p.actor c (journal_of w.journal).changes t.known.found in
      let (d, f, q) = apply_rounds-IsHeld parsers revision_of env c ids w (
        c,
        ap (λ x. find_request x c.actor (journal_of w.journal).changes) k
            ∙ ap (λ x. find_request p.key x (journal_of w.journal).changes) a
            ∙ t.known.found,
        refl,
      ) in
      (
        d,
        record {
          config = t.config;
          well_formed = t.well_formed;
          validated = t.validated;
          known = record {
            found =
                ap (λ j. find_request p.key p.actor (journal_of j).changes) e
                ∙ ap
                    (λ x.
                      find_request x p.actor
                        (journal_of (apply_rounds parsers revision_of env ids w).journal).changes)
                    (sym k)
                ∙ ap
                    (λ x.
                      find_request c.key x
                        (journal_of (apply_rounds parsers revision_of env ids w).journal).changes)
                    (sym a)
                ∙ f;
            hash = ap (λ x. x.3 == hash_of p t.config) q ∙ t.known.hash;
          };
        },
        q,
      )

  -- A request was answered with a change, and `apply`, which `Submit` starts, has run since, any number
  -- of times, to any end and whatever of its calls and writes failed. While no other operation has
  -- written the journal, the request that comes again gets the change with the same id, request and
  -- candidate, if the lock is obtained; and nothing is written for it.
  pub submit-again :
      (p : Request) (c : Change) (w : World)
      → (submit parsers revision_of env p w).0 ≡ (none, some c)
      → (ids : List String) (v : World)
      → v.journal
        ≡ (apply_rounds parsers revision_of env ids (submit parsers revision_of env p w).1).journal
      → env.lock v.effects ≡ none
      → (d : Change) × (submit parsers revision_of env p v
          ≡ ((none, some d), record v { effects = suc v.effects }))
        × (stamp d ≡ stamp c)
  unfolding submit ask Takes
  submit-again p c w h ids v e n =
      let (d, t, q) =
        later-IsTaken p c ids (submit parsers revision_of env p w).1
          (record v { effects = suc v.effects }) e (submit-Takes p c w h) in
      (d, rw n (taken-answer p d (record v { effects = suc v.effects }) t), q)
