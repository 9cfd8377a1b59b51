-- ===== src/ManagementUpdate/Rules.antt =====
-- Rules to follow the tests of a do block of ManagementUpdate.antt.
use floatlab_core.Base.{
  Bool, Option, String, false, if◌then◌else◌, nat_eq, none, refl, some, string_eq, true, ◌≡◌,
}
use floatlab_core.ManagementUpdate.{M, World}
use floatlab_core.ManagementUpdate.Requests.{Result, err, ok}

-- A test of an error.
pub on_failure {ℓ} :
    {A : Type 0} (P : A × World → Type ℓ) (o : Option String) (k₁ : String → M A) (k₂ : M A)
    (w : World)
    → ((e : String) → o ≡ some e → P (k₁ e w))
    → (o ≡ none → P (k₂ w))
    → P ((elim o as (λ x. M A) [ some e ↦ k₁ e | none ↦ k₂ ]) w)
on_failure P (some e) k₁ k₂ w f g = f e refl
on_failure P none k₁ k₂ w f g = g refl

-- A condition.
pub on_test {ℓ} :
    {A : Type 0} (P : A × World → Type ℓ) (b : Bool) (k₁ k₂ : M A) (w : World)
    → (b ≡ true → P (k₁ w))
    → (b ≡ false → P (k₂ w))
    → P ((if b then k₁ else k₂) w)
on_test P true k₁ k₂ w f g = f refl
on_test P false k₁ k₂ w f g = g refl

-- A match on a result that is a Boolean.
pub on_case {ℓ} :
    {A : Type 0} (P : A × World → Type ℓ) (b : Bool) (k₁ k₂ : M A) (w : World)
    → (b ≡ true → P (k₁ w))
    → (b ≡ false → P (k₂ w))
    → P ((elim b as (λ x. M A) [ true ↦ k₁ | false ↦ k₂ ]) w)
on_case P true k₁ k₂ w f g = f refl
on_case P false k₁ k₂ w f g = g refl

-- A match on the result of a read.
pub on_result {ℓ} :
    {A B : Type 0} (P : B × World → Type ℓ) (r : Result A) (k₁ : A → M B) (k₂ : String → M B)
    (w : World)
    → ((a : A) → r ≡ ok a → P (k₁ a w))
    → ((e : String) → r ≡ err e → P (k₂ e w))
    → P ((elim r as (λ x. M B) [ ok a ↦ k₁ a | err e ↦ k₂ e ]) w)
on_result P (ok a) k₁ k₂ w f g = f a refl
on_result P (err e) k₁ k₂ w f g = g e refl

-- An optional value that is there or not.
pub on_option {ℓ} :
    {A B : Type 0} (P : B × World → Type ℓ) (o : Option A) (k₁ : A → B × World) (k₂ : B × World)
    → ((a : A) → o ≡ some a → P (k₁ a))
    → (o ≡ none → P k₂)
    → P (elim o as (λ x. B × World) [ some a ↦ k₁ a | none ↦ k₂ ])
on_option P (some a) k₁ k₂ f g = f a refl
on_option P none k₁ k₂ f g = g refl

-- A condition on a result that has its world.
pub on_pair {ℓ} :
    {B : Type 0} (P : B × World → Type ℓ) (b : Bool) (k₁ k₂ : B × World)
    → (b ≡ true → P k₁)
    → (b ≡ false → P k₂)
    → P (if b then k₁ else k₂)
on_pair P true k₁ k₂ f g = f refl
on_pair P false k₁ k₂ f g = g refl
