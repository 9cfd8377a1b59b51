-- ===== src/Base/Steps.antt =====
-- Operations on a state, and rules to follow their tests. A Go error is its text, nil is `none`.
use floatlab_core.Base.{
  String, Bool, Option, false, if◌then◌else◌, nat_eq, none, refl, some, string_eq, true, ◌≡◌,
}

-- An operation answers and leaves a state.
abbrev pub Step : Type 0 → Type 0 → Type 0
Step W A = W → A × W

infixl 5 ◌>>=◌ ◌>>◌
abbrev pub ◌>>=◌ : {W A B : Type 0} → Step W A → (A → Step W B) → Step W B
◌>>=◌ m f w = let (a, w') = m w in f a w'

abbrev pub ◌>>◌ : {W A B : Type 0} → Step W A → Step W B → Step W B
m >> k = m >>= λ _. k

abbrev pub pure : {W A : Type 0} → A → Step W A
pure a w = (a, w)

-- What an operation comes to that tests an optional value, an error for one.
pub on_option :
    {W S A : Type 0} (P : A × W → Type 0) (o : Option S) (f : S → Step W A) (k : Step W A) (w : W)
    → ((x : S) → o ≡ some x → P (f x w))
    → (o ≡ none → P (k w))
    → P ((elim o as (λ x. Step W A) [ some x ↦ f x | none ↦ k ]) w)
on_option P (some x) f k w h l = h x refl
on_option P none f k w h l = l refl

-- What it comes to that tests a condition.
pub on_test :
    {W A : Type 0} (P : A × W → Type 0) (b : Bool) (f k : Step W A) (w : W)
    → (b ≡ true → P (f w))
    → (b ≡ false → P (k w))
    → P ((if b then f else k) w)
on_test P true f k w h l = h refl
on_test P false f k w h l = l refl

-- A check that reports no error went past its tests.
pub guard-none :
    (b : Bool) (e : String) {k : Option String}
    → (if b then some e else k) ≡ none
    → (b ≡ false) × (k ≡ none)
guard-none true e h = cc h
guard-none false e h = (refl, h)

pub option-none :
    {A : Type 0} (o : Option A) (e : String) (k : A → Option String)
    → elim o as (λ x. Option String) [ none ↦ some e | some a ↦ k a ] ≡ none
    → (a : A) × (o ≡ some a) × (k a ≡ none)
option-none none e k h = cc h
option-none (some a) e k h = (a, refl, h)
