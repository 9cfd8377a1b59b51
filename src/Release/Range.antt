-- ===== src/Release/Range.antt =====
-- Which hosts a range admits (pkg/release/version.go).
use floatlab_core.Base.{
  Bool, String, false, if◌then◌else◌, nat_eq, not, refl, string_eq, subst, sym, true, ◌&&◌, ◌↔◌,
  ◌∙◌, ◌≡◌,
}
use floatlab_core.Release.{
  Compatibility, HostRange, Result, VersionResult, Versions, check_host, compatible, err, judged,
  ok, parse, range_contains, unknown, validate, ◌>>=◌,
}

-- The bounds parse to a range that is not empty, and the version parses to one within it.
pub record IsWithin {V : Type 0} (versions : Versions V) (r : HostRange) (s : String) : Type 0 where
  pub version : V
  pub min : V
  pub max : V
  pub parsed : parse versions s ≡ ok version
  pub parsed_min : parse versions r.min ≡ ok min
  pub parsed_max : parse versions r.max ≡ ok max
  pub ordered : versions.less_than min max ≡ true
  pub not_below : versions.less_than version min ≡ false
  pub below : versions.less_than version max ≡ true

-- `Contains` over what parsing the bounds and the version gives.
abbrev contains_of : {V : Type 0} → (V → V → Bool) → Result V → Result V → Result V → Result Bool
contains_of lt bottom top version = do
  _ ← (do
    min ← bottom
    max ← top
    (if lt min max then ok tt else err "host minimum must be less than maximum"))
  v ← version
  min ← bottom
  max ← top
  ok (not (lt v min) && lt v max)

range_contains-of :
    {V : Type 0} (versions : Versions V) (r : HostRange) (s : String)
    → range_contains versions r s
      ≡ contains_of versions.less_than
          (parse versions r.min)
          (parse versions r.max)
          (parse versions s)
unfolding range_contains validate
range_contains-of versions r s = refl

-- What the result `ok true` comes from.
abbrev Within : {V : Type 0} → (V → V → Bool) → Result V → Result V → Result V → Type 0
Within {V = V} lt bottom top version =
    (v min max : V) × (version ≡ ok v)
    × (bottom ≡ ok min)
    × (top ≡ ok max)
    × (lt min max ≡ true)
    × (lt v min ≡ false)
    × (lt v max ≡ true)

tests-true :
    (p q s : Bool)
    → ((if p then ok tt else err "host minimum must be less than maximum") >>= λ _. ok (not q && s))
      ≡ ok true
    → (p ≡ true) × (q ≡ false) × (s ≡ true)
tests-true true false true h = (refl, refl, refl)
tests-true true true s h = cc
tests-true true false false h = cc
tests-true false q s h = cc

error-true :
    {P : Type 0} (p : Bool) (e : String)
    → ((if p then ok tt else err "host minimum must be less than maximum") >>= λ _. err e) ≡ ok true
    → P
error-true true e h = cc
error-true false e h = cc

contains_of-true :
    {V : Type 0} (lt : V → V → Bool) (bottom top version : Result V)
    → contains_of lt bottom top version ≡ ok true
    → Within lt bottom top version
contains_of-true lt (err e) top version h = cc
contains_of-true lt (ok a) (err e) version h = cc
contains_of-true lt (ok a) (ok b) (err e) h = error-true (lt a b) e h
contains_of-true lt (ok a) (ok b) (ok v) h =
    let (x, y, z) = tests-true (lt a b) (lt v a) (lt v b) h in (v, a, b, refl, refl, refl, x, y, z)

contains_of-Within :
    {V : Type 0} (lt : V → V → Bool) (bottom top version : Result V)
    → Within lt bottom top version
    → contains_of lt bottom top version ≡ ok true
contains_of-Within lt bottom top version (v, a, b, p, q, r, x, y, z) = rw (p, q, r, x, y, z)

range_contains_iff :
    {V : Type 0} (versions : Versions V) (r : HostRange) (s : String)
    → (range_contains versions r s ≡ ok true) ↔ IsWithin versions r s
range_contains_iff versions r s = (
  λ h.
      let (v, a, b, p, q, t, x, y, z) =
        contains_of-true versions.less_than _ _ _ (sym (range_contains-of versions r s) ∙ h) in
      record {
        version = v;
        min = a;
        max = b;
        parsed = p;
        parsed_min = q;
        parsed_max = t;
        ordered = x;
        not_below = y;
        below = z;
      },
  λ w.
      range_contains-of versions r s
      ∙ contains_of-Within versions.less_than _ _ _ (
        w.version, w.min, w.max, w.parsed, w.parsed_min, w.parsed_max, w.ordered, w.not_below,
        w.below,
      ),
)

judged-compatible :
    (known : Compatibility) (c : Result Bool)
    → known.status ≡ unknown
    → (judged known c).status ≡ compatible
    → c ≡ ok true
unfolding judged
judged-compatible known (err e) k h = cc
judged-compatible known (ok true) k h = refl
judged-compatible known (ok false) k h = cc

judged-true :
    (known : Compatibility) (c : Result Bool) → c ≡ ok true → (judged known c).status ≡ compatible
unfolding judged
judged-true known (err e) h = cc
judged-true known (ok true) h = refl
judged-true known (ok false) h = cc

ok-inj : {A : Type 0} {a b : A} → ok a ≡ ok b → a ≡ b
ok-inj h = cc

unanswered : {P : Type 0} (e : String) → unknown ≡ compatible → P
unanswered e h = cc

not_an_error : {A P : Type 0} {a : A} {e : String} → err e ≡ ok a → P
not_an_error h = cc

-- A host is found compatible exactly if it answers, its answer decodes, and the version in it parses
-- to one that the required range holds: not less than its minimum and less than its maximum, which
-- are themselves in this order.
pub check_host-compatible_iff :
    {V : Type 0} (versions : Versions V) (r : HostRange) (answer : Result (Result VersionResult))
    → ((check_host versions r answer).status ≡ compatible)
      ↔ ((info : VersionResult) × (answer ≡ ok (ok info)) × IsWithin versions r info.host_version)
unfolding check_host
check_host-compatible_iff versions r (err e) = (λ h. unanswered e h, λ h. not_an_error h.1)
check_host-compatible_iff versions r (ok (err e)) =
    (λ h. unanswered e h, λ h. not_an_error (ok-inj h.1))
check_host-compatible_iff versions r (ok (ok info)) = (
  λ h. (
    info,
    refl,
    (range_contains_iff versions r info.host_version).0 (judged-compatible known _ refl h),
  ),
  λ w. judged-true known _ (
      (range_contains_iff versions r info.host_version).1
        (subst (λ i. IsWithin versions r i.host_version) (sym (ok-inj (ok-inj w.1))) w.2)),
)
  where
    known : Compatibility
    known = record {
      status = unknown;
      host_version = info.host_version;
      git_commit = info.git_commit;
      required = r;
      error = "";
    }
