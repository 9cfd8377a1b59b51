-- ===== src/HostNetwork/Keeps.antt =====
-- The rules to follow the operations of internal/hostnetwork/manager.go to the journal they leave.
use floatlab_core.Base.{
  Bool, Option, false, if◌then◌else◌, nat_eq, none, refl, some, string_eq, suc, true, ℕ, ◌≡◌,
}
use floatlab_core.Base.Steps.{pure, ◌>>=◌}
use floatlab_core.HostNetwork.{
  Call, Env, Journal, M, NetworkConfig, Outcome, World, WriteOutcome, lost, torn, written,
}
use floatlab_core.HostNetwork.Disk.{ask, call, journal_of, locked, save, write_config}
use floatlab_core.HostNetwork.Sound.{IsSound}

-- The journal on the disk is sound.
unfoldable pub IsSoundOn : World → Type 0
IsSoundOn w = IsSound (journal_of w.journal)

unfoldable pub Keeps : {A : Type 0} → M A → Type 0
Keeps m = (w : World) → IsSoundOn w → IsSoundOn (m w).1

pub pure-Keeps : {A : Type 0} (a : A) → Keeps (pure a)
unfolding Keeps
pure-Keeps a w i = i

pub bind-Keeps :
    {A B : Type 0} (m : M A) (f : A → M B) → Keeps m → ((a : A) → Keeps (f a)) → Keeps (m >>= f)
unfolding Keeps
bind-Keeps m f h k w i = k (m w).0 (m w).1 (h w i)

pub option-Keeps :
    {S A : Type 0} (o : Option S) (f : S → M A) (g : M A)
    → ((x : S) → o ≡ some x → Keeps (f x))
    → (o ≡ none → Keeps g)
    → Keeps (elim o as (λ x. M A) [ some x ↦ f x | none ↦ g ])
option-Keeps (some x) f g h k = h x refl
option-Keeps none f g h k = k refl

pub test-Keeps :
    {A : Type 0} (b : Bool) (f g : M A)
    → (b ≡ true → Keeps f)
    → (b ≡ false → Keeps g)
    → Keeps (if b then f else g)
test-Keeps true f g h k = h refl
test-Keeps false f g h k = k refl

-- An effect that may fail, and what follows when it does not.
pub then-Keeps :
    (m k : M Outcome)
    → Keeps m
    → Keeps k
    → Keeps (m >>= λ e. elim e [ some x ↦ pure (some x) | none ↦ k ])
then-Keeps m k h l =
    bind-Keeps m _ h (λ e. option-Keeps e _ _ (λ x _. pure-Keeps (some x)) (λ _. l))

pub reading-Keeps :
    {A : Type 0} (fn : Journal → M A)
    → ((s : Journal) → IsSound s → Keeps (fn s))
    → Keeps (λ w. fn (journal_of w.journal) w)
unfolding Keeps IsSoundOn
reading-Keeps fn h w i = h (journal_of w.journal) i w i

module _ (env : Env) where
  pub save-Keeps : (s : Journal) → IsSound s → Keeps (save env s)
  unfolding Keeps IsSoundOn save
  save-Keeps s h w i = outcome (env.write w.effects)
    where
      outcome :
          (o : WriteOutcome)
          → IsSound (
              journal_of
                (elim o as (λ x. Outcome × World) [
                  | written ↦ (none, record w { effects = suc w.effects; journal = some s })
                  | torn e ↦ (some e, record w { effects = suc w.effects; journal = some s })
                  | lost e ↦ (some e, record w { effects = suc w.effects })
                ]).1.journal)
      outcome written = h
      outcome (torn e) = h
      outcome (lost e) = i

  pub write_config-Keeps : (c : NetworkConfig) → Keeps (write_config env c)
  unfolding Keeps IsSoundOn write_config
  write_config-Keeps c w i = outcome (env.write w.effects)
    where
      outcome :
          (o : WriteOutcome)
          → IsSound (
              journal_of
                (elim o as (λ x. Outcome × World) [
                  | written ↦ (none, record w { effects = suc w.effects; toml = some c })
                  | torn e ↦ (some e, record w { effects = suc w.effects; toml = some c })
                  | lost e ↦ (some e, record w { effects = suc w.effects })
                ]).1.journal)
      outcome written = i
      outcome (torn e) = i
      outcome (lost e) = i

  pub call-Keeps : (c : Call) → Keeps (call env c)
  unfolding Keeps IsSoundOn call
  call-Keeps c w i = i

  pub ask-Keeps : {A : Type 0} (f : ℕ → A) → Keeps (ask env f)
  unfolding Keeps IsSoundOn ask
  ask-Keeps f w i = i

  pub ask_then-Keeps :
      {A B : Type 0} (f : ℕ → A) (g : A → M B)
      → ((n : ℕ) → Keeps (g (f n)))
      → Keeps (ask env f >>= g)
  unfolding Keeps IsSoundOn ask
  ask_then-Keeps f g h w i = h w.effects (record w { effects = suc w.effects }) i

  pub locked-Keeps :
      (fn : Journal → M Outcome)
      → ((s : Journal) → IsSound s → Keeps (fn s))
      → Keeps (locked env fn)
  unfolding locked
  locked-Keeps fn h =
      bind-Keeps _ _ (ask-Keeps env.lock)
        (λ e. option-Keeps e _ _ (λ x _. pure-Keeps (some x)) (λ _. reading-Keeps fn h))
