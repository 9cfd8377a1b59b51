-- ===== src/HostNetwork/Held.antt =====
-- What the journal keeps of a request while its change is applied: `apply` and `restore` of
-- internal/hostnetwork/manager.go.
use floatlab_core.Base.{
  &&-eq-true, ==_refl, Bool, Bool-cases, Map, Option, String, [], ap, false, if◌then◌else◌, inl,
  inr, insert, lookup, lookup-insert, nat_eq, none, refl, some, some-inj, string_eq, suc, sym, true,
  ℕ, ◌&&◌, ◌==◌, ◌∙◌, ◌∷◌, ◌≡◌,
}
use floatlab_core.Base.Steps.{pure, ◌>>=◌}
use floatlab_core.HostNetwork.{
  Call, Change, Env, Journal, M, NetworkConfig, Outcome, World, WriteOutcome, lost, torn, written,
}
use floatlab_core.HostNetwork.Disk.{
  ask, call, change_of, journal_of, locked, put_change, save, write_config, zero_change,
}
use floatlab_core.HostNetwork.Changes.{find_request}

-- What stands for a request in its change.
abbrev pub stamp : Change → String × String × String × String × NetworkConfig
stamp c = (c.id, c.key, c.actor, c.request_hash, c.candidate)

change_in : String → Map String Change → Change
change_in id m = elim (lookup id m) [ none ↦ zero_change | some c ↦ c ]

find_request-put :
    (key actor id : String) (c new : Change) (m : Map String Change)
    → find_request key actor m ≡ some c
    → stamp new ≡ stamp (change_in id m)
    → (d : Change) × (find_request key actor (insert id new m) ≡ some d) × (stamp d ≡ stamp c)
unfolding find_request insert lookup change_in
find_request-put key actor id c new [] h e = cc h
find_request-put key actor id c new ((j, old) ∷ m) h e = elim (Bool-cases (j == id)) [
  | inl q ↦ elim (Bool-cases (old.key == key && old.actor == actor)) [
    | inl r ↦ rw q (rw (as_old q ∙ r) (new, refl, own q ∙ ap stamp (some-inj (rw r at h))))
    | inr r ↦ rw q (rw (as_old q ∙ r) (c, rw r at h, refl))
  ]
  | inr q ↦ elim (Bool-cases (old.key == key && old.actor == actor)) [
    | inl r ↦ rw q (rw r (old, refl, ap stamp (some-inj (rw r at h))))
    | inr r ↦
        rw q (rw r (find_request-put key actor id c new m (rw r at h) (rw (change_in, q) at e)))
  ]
]
  where
    own : (j == id) ≡ true → stamp new ≡ stamp old
    own q = rw (change_in, q) at e

    as_old :
        (j == id) ≡ true
        → (new.key == key && new.actor == actor) ≡ (old.key == key && old.actor == actor)
    as_old q = ap (λ t. t.1 == key && t.2 == actor) (own q)

-- The journal has the change `c`, perhaps further on in its course.
unfoldable pub IsHeld : Change → Journal → Type 0
IsHeld c s = (d : Change) × (find_request c.key c.actor s.changes ≡ some d) × (stamp d ≡ stamp c)

pub put-IsHeld :
    (c : Change) (id : String) (new : Change) (s : Journal)
    → stamp new ≡ stamp (change_of id s)
    → IsHeld c s
    → IsHeld c (put_change id new s)
unfolding IsHeld change_of change_in
put-IsHeld c id new s e (d, f, q) =
    let (d', f', q') = find_request-put c.key c.actor id d new s.changes f e in (d', f', q' ∙ q)

-- The change that a request is answered with is one of the request.
pub find_request-key :
    (key actor : String) (c : Change) (m : Map String Change)
    → find_request key actor m ≡ some c
    → (c.key ≡ key) × (c.actor ≡ actor)
unfolding find_request
find_request-key key actor c [] h = cc h
find_request-key key actor c ((j, d) ∷ m) h = elim (Bool-cases (d.key == key && d.actor == actor)) [
  | inl r ↦
      let e : d ≡ c = some-inj (rw r at h) in
      let (k, a) = &&-eq-true (d.key == key) _ r in
      (
        ap (λ x. x.key) (sym e) ∙ (string_eq.beq_iff d.key key).0 k,
        ap (λ x. x.actor) (sym e) ∙ (string_eq.beq_iff d.actor actor).0 a,
      )
  | inr r ↦ find_request-key key actor c m (rw r at h)
]

-- The change under `id` after it is put there.
pub change_of-put : (id : String) (c : Change) (s : Journal) → change_of id (put_change id c s) ≡ c
unfolding change_of
change_of-put id c s =
    ap (λ o. elim o as (λ x. Change) [ none ↦ zero_change | some c ↦ c ])
      (lookup-insert id id c s.changes
        ∙ ap (λ b. if b then some c else lookup id s.changes) (==_refl id))

unfoldable pub Retains : Change → {A : Type 0} → M A → Type 0
Retains c m = (w : World) → IsHeld c (journal_of w.journal) → IsHeld c (journal_of (m w).1.journal)

module _ (c : Change) where
  pub pure-Retains : {A : Type 0} (a : A) → Retains c (pure {W = World} a)
  unfolding Retains
  pure-Retains a w h = h

  pub bind-Retains :
      {A B : Type 0} (m : M A) (f : A → M B)
      → Retains c m
      → ((a : A) → Retains c (f a))
      → Retains c (m >>= f)
  unfolding Retains
  bind-Retains m f h k w i = k (m w).0 (m w).1 (h w i)

  pub option-Retains :
      {S A : Type 0} (o : Option S) (f : S → M A) (g : M A)
      → ((x : S) → Retains c (f x))
      → Retains c g
      → Retains c (elim o as (λ x. M A) [ some x ↦ f x | none ↦ g ])
  option-Retains (some x) f g h k = h x
  option-Retains none f g h k = k

  pub test-Retains :
      {A : Type 0} (b : Bool) (f g : M A)
      → Retains c f
      → Retains c g
      → Retains c (if b then f else g)
  test-Retains true f g h k = h
  test-Retains false f g h k = k

  pub then-Retains :
      (m k : M Outcome)
      → Retains c m
      → Retains c k
      → Retains c (m >>= λ e. elim e [ some x ↦ pure (some x) | none ↦ k ])
  then-Retains m k h l =
      bind-Retains m _ h (λ e. option-Retains e _ _ (λ x. pure-Retains (some x)) l)

  module _ (env : Env) where
    pub save-Retains : (s : Journal) → IsHeld c s → Retains c (save env s)
    unfolding Retains save
    save-Retains s h w i = outcome (env.write w.effects)
      where
        outcome :
            (o : WriteOutcome)
            → IsHeld c (
                journal_of
                  (elim o as (λ x. Outcome × World) [
                    | written ↦ (none, record w { effects = suc w.effects; journal = some s })
                    | torn e ↦ (some e, record w { effects = suc w.effects; journal = some s })
                    | lost e ↦ (some e, record w { effects = suc w.effects })
                  ]).1.journal)
        outcome written = h
        outcome (torn e) = h
        outcome (lost e) = i

    pub write_config-Retains : (x : NetworkConfig) → Retains c (write_config env x)
    unfolding Retains write_config
    write_config-Retains x w i = outcome (env.write w.effects)
      where
        outcome :
            (o : WriteOutcome)
            → IsHeld c (
                journal_of
                  (elim o as (λ x. Outcome × World) [
                    | written ↦ (none, record w { effects = suc w.effects; toml = some x })
                    | torn e ↦ (some e, record w { effects = suc w.effects; toml = some x })
                    | lost e ↦ (some e, record w { effects = suc w.effects })
                  ]).1.journal)
        outcome written = i
        outcome (torn e) = i
        outcome (lost e) = i

    pub call-Retains : (x : Call) → Retains c (call env x)
    unfolding Retains call
    call-Retains x w i = i

    pub ask-Retains : {A : Type 0} (f : ℕ → A) → Retains c (ask env f)
    unfolding Retains ask
    ask-Retains f w i = i

    reading-Retains :
        {A : Type 0} (fn : Journal → M A)
        → ((s : Journal) → IsHeld c s → Retains c (fn s))
        → Retains c (λ w. fn (journal_of w.journal) w)
    unfolding Retains
    reading-Retains fn h w i = h (journal_of w.journal) i w i

    pub locked-Retains :
        (fn : Journal → M Outcome)
        → ((s : Journal) → IsHeld c s → Retains c (fn s))
        → Retains c (locked env fn)
    unfolding locked
    locked-Retains fn h =
        bind-Retains _ _ (ask-Retains env.lock)
          (λ e. option-Retains e _ _ (λ x. pure-Retains (some x)) (reading-Retains fn h))
