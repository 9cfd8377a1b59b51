-- ===== src/Tests/Releases.antt =====
-- A run of the check of a host's release (pkg/release/version.go).
use floatlab_core.Base.{
  List, String, [], codes, false, if◌then◌else◌, is_digit, ltb, nat_eq, refl, string_eq, ℕ, ◌*◌,
  ◌+◌, ◌-◌, ◌↔◌, ◌∷◌, ◌≡◌,
}
use floatlab_core.Release.{
  HostRange, Result, VersionResult, Versions, check_host, compatible, cut_at, is_identifier,
  is_number, is_numeric_leading_zero, is_semver, judged, ok, parse, range_contains, split_on,
  validate,
}
use floatlab_core.Release.Range.{IsWithin, check_host-compatible_iff}

-- Versions with one digit in each place, as their decimal number.
abbrev number_of : ℕ → List ℕ → ℕ
number_of n [] = n
number_of n (c ∷ cs) =
    let a = number_of (n * 10 + (c - 48)) cs in
    let b = number_of n cs in if is_digit c then a else b

abbrev one_digit : Versions ℕ
one_digit = record {
  new_semver = λ s. ok (number_of 0 (codes s));
  prerelease = λ v. [];
  less_than = ltb;
}

abbrev first_hosts : HostRange
first_hosts = record { min = "0.1.0"; max = "0.2.0" }

abbrev host_answer : String → Result (Result VersionResult)
host_answer v = ok (ok (record { host_version = v; git_commit = "abc" }))

in_range : (check_host one_digit first_hosts (host_answer "0.1.3")).status ≡ compatible
unfolding check_host judged range_contains validate parse is_semver split_on cut_at is_number
    is_identifier is_numeric_leading_zero
in_range = refl

leading_zero : is_semver (codes "01.1.0") ≡ false
unfolding is_semver split_on cut_at is_number is_identifier
leading_zero = refl

check_host-compatible_iff_example :
    ((check_host one_digit first_hosts (host_answer "0.1.3")).status ≡ compatible) ↔ (
      (info : VersionResult) × (host_answer "0.1.3" ≡ ok (ok info))
      × IsWithin one_digit first_hosts info.host_version)
check_host-compatible_iff_example =
    check_host-compatible_iff one_digit first_hosts (host_answer "0.1.3")
