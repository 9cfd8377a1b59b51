-- ===== src/Release.antt =====
-- Release versions and the hosts that they admit (pkg/release/version.go). The third-party version
-- type with its parser, its order and its prerelease is a parameter; a text is its code points.
pub mod Range
use floatlab_core.Base.{
  Bool, List, Option, String, [], all, any, codes, concat, false, if◌then◌else◌, is_alnum, is_digit,
  length, nat_eq, none, not, some, string_eq, true, ℕ, ◌&&◌, ◌==◌, ◌||◌, ◌∷◌,
}

pub data Result (A : Type 0) : Type 0 where
  ok : A → Result A
  err : String → Result A

-- The parts between the separators, in their order; there is at least one.
unfoldable pub split_on : ℕ → List ℕ → List (List ℕ)
split_on sep [] = [] ∷ []
split_on sep (c ∷ cs) =
    let rest = split_on sep cs in
    if c == sep
    then [] ∷ rest
    else elim rest [ [] ↦ (c ∷ []) ∷ [] | part ∷ parts ↦ (c ∷ part) ∷ parts ]

-- What stands before the first separator, and what stands after it.
unfoldable pub cut_at : ℕ → List ℕ → List ℕ × Option (List ℕ)
cut_at sep [] = ([], none)
cut_at sep (c ∷ cs) =
    let rest = cut_at sep cs in if c == sep then ([], some cs) else (c ∷ rest.0, rest.1)

-- `0|[1-9][0-9]*`
unfoldable pub is_number : List ℕ → Bool
is_number [] = false
is_number (c ∷ cs) = if c == b'0' then length cs == 0 else is_digit c && all is_digit cs

-- `[0-9A-Za-z-]+`
unfoldable pub is_identifier : List ℕ → Bool
is_identifier s = not (length s == 0) && all (λ c. is_alnum c || c == b'-') s

-- The regular expression `semver`.
unfoldable pub is_semver : List ℕ → Bool
unfolding split_on cut_at is_number is_identifier
is_semver s =
    let (core, pre) = cut_at b'-' s in
    length (split_on b'.' core) == 3
    && all is_number (split_on b'.' core)
    && elim pre [ none ↦ true | some p ↦ all is_identifier (split_on b'.' p) ]

-- The regular expression `numericLeadingZero`.
unfoldable pub is_numeric_leading_zero : List ℕ → Bool
is_numeric_leading_zero [] = false
is_numeric_leading_zero (c ∷ cs) = c == b'0' && not (length cs == 0) && all is_digit cs

pub record Versions (V : Type 0) : Type 0 where
  pub new_semver : String → Result V
  pub prerelease : V → List ℕ
  pub less_than : V → V → Bool

pub record HostRange : Type 0 where
  pub min : String
  pub max : String

pub record VersionResult : Type 0 where
  pub host_version : String
  pub git_commit : String

pub data CompatibilityStatus : Type 0 where
  unknown incompatible compatible : CompatibilityStatus

pub record Compatibility : Type 0 where
  pub status : CompatibilityStatus
  pub host_version : String
  pub git_commit : String
  pub required : HostRange
  pub error : String

infixl 5 ◌>>=◌
abbrev pub ◌>>=◌ : {A B : Type 0} → Result A → (A → Result B) → Result B
◌>>=◌ (ok a) k = k a
◌>>=◌ (err e) k = err e

-- The end of `CheckHost`, by what `Contains` gives.
unfoldable pub judged : Compatibility → Result Bool → Compatibility
judged known (err e) = record known { error = e }
judged known (ok true) = record known { status = compatible }
judged known (ok false) = record known { status = incompatible }

module _ {V : Type 0} (versions : Versions V) where
  -- `Parse`
  unfoldable pub parse : String → Result V
  unfolding is_semver is_numeric_leading_zero
  parse s = if not (is_semver (codes s)) then err (concat "invalid release version " s) else (do
    v ← versions.new_semver s
    (if any is_numeric_leading_zero (split_on b'.' (versions.prerelease v))
        then err "invalid numeric prerelease"
        else ok v))

  -- `HostRange.Validate`
  unfoldable pub validate : HostRange → Result Unit
  unfolding parse
  validate r = do
    min ← parse r.min
    max ← parse r.max
    (if versions.less_than min max then ok tt else err "host minimum must be less than maximum")

  -- `HostRange.Contains`; after `Validate` the bounds parse.
  unfoldable pub range_contains : HostRange → String → Result Bool
  unfolding validate parse
  range_contains r s = do
    _ ← validate r
    v ← parse s
    min ← parse r.min
    max ← parse r.max
    ok (not (versions.less_than v min) && versions.less_than v max)

  -- `CheckHost`, for what the host answers and what decoding it gives.
  unfoldable pub check_host : HostRange → Result (Result VersionResult) → Compatibility
  unfolding range_contains judged
  check_host required answer =
      let start : Compatibility = record {
        status = unknown;
        host_version = "";
        git_commit = "";
        required = required;
        error = "";
      } in
      elim answer [
        | err e ↦ record start { error = e }
        | ok decoded ↦ elim decoded [
          | err e ↦ record start { error = e }
          | ok info ↦
              judged
                (record start { host_version = info.host_version; git_commit = info.git_commit })
                (range_contains required info.host_version)
        ]
      ]
