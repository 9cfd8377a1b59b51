-- ===== src/Alerts/Opening.antt =====
-- What `save` decides about an incident (pkg/alerts/store.go).
use floatlab_core.Base.{
  Bool, Bool-cases, String, ap, arith, false, if◌then◌else◌, inl, inr, ltb, nat_eq, none, not, refl,
  some, some-inj, string_eq, suc, true, zero, ||-eq-false, ℕ, ◌&&◌, ◌+◌, ◌<◌, ◌==◌, ◌↔◌, ◌∙◌, ◌≡◌,
  ◌≢◌, ◌≤◌, ◌⊎◌,
}
use floatlab_core.Alerts.{Rule, State, firing, negsuc, pos, resolved, ℤ}
use floatlab_core.Alerts.Store.{
  Action, Plan, disabled, is_expired, is_open, of_status, open_incident, removed, resolve, retire,
  save_plan, unless_expired,
}

-- The evaluation is later than the last one, if there was one.
unfoldable pub IsLater : State → ℕ → Type 0
IsLater old now = (old.last_evaluated ≡ 0) ⊎ (old.last_evaluated < now)

-- The time of a sample and a greatest age allow the evaluation at `now`; no positive age allows none
-- but the zero instant.
unfoldable pub IsWithin : ℤ → ℕ → ℕ → Type 0
IsWithin (pos zero) t now = now ≡ 0
IsWithin (pos (suc m)) t now = now ≤ t + suc m
IsWithin (negsuc m) t now = now ≡ 0

-- There is a sample, and it is no older than the rule allows.
unfoldable pub IsFresh : Rule → State → ℕ → Type 0
IsFresh r next now = (next.last_observed ≢ 0) × IsWithin r.max_age next.last_observed now

-- The action is the one that `save` decides.
unfoldable pub Decides : Rule → State → State → ℕ → String → Action → Type 0
Decides r old next now reason a =
    (p : Plan) × (save_plan r old next now reason ≡ some p) × (p.action ≡ a)

within :
    (a : ℤ) (t now : ℕ)
    → (elim a as (λ x. Bool) [ pos (suc m) ↦ ltb (t + suc m) now | _ ↦ ltb 0 now ] ≡ false)
      ↔ IsWithin a t now
unfolding IsWithin
within (pos zero) t now = (λ h. ground arith, λ h. ground arith)
within (pos (suc m)) t now = (λ h. ground arith, λ h. ground arith)
within (negsuc m) t now = (λ h. ground arith, λ h. ground arith)

is_expired_iff :
    (r : Rule) (next : State) (now : ℕ) → (is_expired r next now ≡ false) ↔ IsFresh r next now
unfolding is_expired IsFresh
is_expired_iff r next now = (
  λ h.
      let (z, e) = ||-eq-false (next.last_observed == 0) _ h in
      (
        λ q. ground (arith, z, (nat_eq.beq_iff next.last_observed 0).1 q),
        (within r.max_age next.last_observed now).0 e,
      ),
  λ (n, e).
      ground
        (arith, (within r.max_age next.last_observed now).1 e, nat_eq.beq_iff next.last_observed 0),
)

IsLater-iff :
    (old : State) (now : ℕ)
    → ((not (old.last_evaluated == 0) && not (ltb old.last_evaluated now)) ≡ false)
      ↔ IsLater old now
unfolding IsLater
IsLater-iff old now = (there, back)
  where
    there :
        (not (old.last_evaluated == 0) && not (ltb old.last_evaluated now)) ≡ false
        → (old.last_evaluated ≡ 0) ⊎ (old.last_evaluated < now)
    there h = elim (Bool-cases (old.last_evaluated == 0)) [
      | inl z ↦ inl ((nat_eq.beq_iff old.last_evaluated 0).0 z)
      | inr n ↦ inr (ground arith)
    ]

    back :
        (old.last_evaluated ≡ 0) ⊎ (old.last_evaluated < now)
        → (not (old.last_evaluated == 0) && not (ltb old.last_evaluated now)) ≡ false
    back (inl z) = ground (arith, (nat_eq.beq_iff old.last_evaluated 0).1 z)
    back (inr l) = ground arith

-- The action of a plan that is made.
action_of : Rule → State → ℕ → String → Action
action_of r next now reason =
    unless_expired r next now (if reason == removed then (disabled, retire) else of_status next).1

module _ (r : Rule) (old next : State) (now : ℕ) (reason : String) where
  Decides-action :
      (a : Action)
      → Decides r old next now reason a ↔ (IsLater old now × (action_of r next now reason ≡ a))
  unfolding Decides save_plan action_of
  Decides-action a = (
    λ (p, e, q).
        let (g, x) =
          guarded (not (old.last_evaluated == 0) && not (ltb old.last_evaluated now)) _ p e in
        ((IsLater-iff old now).0 g, ap (λ y. y.action) x ∙ q),
    λ (l, q). (_, made _ _ ((IsLater-iff old now).1 l), q),
  )
    where
      guarded :
          (g : Bool) (x p : Plan) → (if g then none else some x) ≡ some p → (g ≡ false) × (x ≡ p)
      guarded true x p h = cc
      guarded false x p h = (refl, some-inj h)

      made : (g : Bool) (x : Plan) → g ≡ false → (if g then none else some x) ≡ some x
      made g x h = rw h refl

  opens : (action_of r next now reason ≡ open_incident) ↔ (
      (reason ≢ removed) × (next.status ≡ firing) × (next.recovery_since ≡ 0) × IsFresh r next now)
  unfolding action_of unless_expired of_status is_open
  opens = (
    λ h. (
      λ q. ground (arith, string_eq.beq_iff reason removed),
      ground (arith, string_eq.beq_iff reason removed),
      ground (arith, string_eq.beq_iff reason removed),
      (is_expired_iff r next now).0 (ground (arith, string_eq.beq_iff reason removed)),
    ),
    λ (n, s, z, f).
        ground (arith, string_eq.beq_iff reason removed, (is_expired_iff r next now).1 f),
  )

  resolves :
      (action_of r next now reason ≡ resolve) ↔ ((reason ≢ removed) × (next.status ≡ resolved))
  unfolding action_of unless_expired of_status is_open
  resolves = (
    λ h. (
      λ q. ground (arith, string_eq.beq_iff reason removed),
      ground (arith, string_eq.beq_iff reason removed),
    ),
    λ (n, s). ground (arith, string_eq.beq_iff reason removed),
  )

  retires : (action_of r next now reason ≡ retire) ↔ (reason ≡ removed)
  unfolding action_of unless_expired of_status is_open
  retires = (
    λ h. (string_eq.beq_iff reason removed).0 (ground arith),
    λ h. rw (action_of, (string_eq.beq_iff reason removed).1 h) refl,
  )

  -- What `save` decides. It opens an incident exactly if the evaluation is later than the last one,
  -- the rule is not being retired, the state is firing with no recovery running, and there is a sample
  -- that is no older than the rule allows. It resolves one exactly if the evaluation is later, the rule
  -- is not being retired and the state is resolved; and retires one exactly if the evaluation is later
  -- and the reason is that the rule was disabled or removed.
  pub save_plan_iff :
      (Decides r old next now reason open_incident ↔ (
        IsLater old now
        × (reason ≢ removed)
        × (next.status ≡ firing)
        × (next.recovery_since ≡ 0)
        × IsFresh r next now))
      × (Decides r old next now reason resolve
          ↔ (IsLater old now × (reason ≢ removed) × (next.status ≡ resolved)))
      × (Decides r old next now reason retire ↔ (IsLater old now × (reason ≡ removed)))
  save_plan_iff = (
    (
      λ d.
          let (l, a) = (Decides-action open_incident).0 d in
          let (n, s, z, f) = opens.0 a in (l, n, s, z, f),
      λ (l, n, s, z, f). (Decides-action open_incident).1 (l, opens.1 (n, s, z, f)),
    ),
    (
      λ d. let (l, a) = (Decides-action resolve).0 d in let (n, s) = resolves.0 a in (l, n, s),
      λ (l, n, s). (Decides-action resolve).1 (l, resolves.1 (n, s)),
    ),
    (
      λ d. let (l, a) = (Decides-action retire).0 d in (l, retires.0 a),
      λ (l, n). (Decides-action retire).1 (l, retires.1 n),
    ),
  )
