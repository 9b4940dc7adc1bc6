-- ===== src/Semver/Failing.antt =====
-- With which errors `Parse` fails, and on which texts.
use example_docker_volume_pl.Common.{
  ℕ, suc, ◌≡◌, ◌≢◌, Option, none, some, List, [], ◌∷◌, arith, panic, length, take, ltb,
  if◌then◌else◌,
}
use example_docker_volume_pl.Common.State.{error_of}
use example_docker_volume_pl.Common.Text.{Str, codes, split, split_two}
use example_docker_volume_pl.Common.Number.{parse_uint}
use example_docker_volume_pl.Semver.{VersionInfo, Error, invalid_at, too_many, parse_numbers, parse}

-- What stands in front of the build and of the pre-release.
abbrev pub core_of : Str → Str
core_of v = (split_two b'-' (split_two b'+' v).0).0

-- The first text that is no number of 64 bits, with its position.
abbrev pub first_bad : ℕ → List Str → Option (ℕ × Str)
first_bad i [] = none
first_bad i (p ∷ ps) = elim (parse_uint 10 64 p) [
  | none ↦ some (i, p)
  | some n ↦ first_bad (suc i) ps
]

-- Of a fourth number and those behind it only the fourth is looked at.
abbrev pub expected_error : Str → List Str → Option Error
expected_error core ps = elim (first_bad 0 (take 4 ps)) [
  | some (i, p) ↦ some (invalid_at core i p)
  | none ↦ if ltb 3 (length ps) then some (too_many core) else none
]

parse_numbers-error :
    (core : Str) (ps : List Str) (r : VersionInfo)
    → (error_of (parse_numbers core 0 ps r) ≡ expected_error core ps)
      × (parse_numbers core 0 ps r ≢ panic)
unfolding parse_numbers
parse_numbers-error core [] r = ground arith
parse_numbers-error core (a ∷ []) r = ground arith
parse_numbers-error core (a ∷ b ∷ []) r = ground arith
parse_numbers-error core (a ∷ b ∷ c ∷ []) r = ground arith
parse_numbers-error core (a ∷ b ∷ c ∷ d ∷ es) r = ground arith

-- `Parse` ends in a version or an error: the error names the first number of the text that cannot
-- be read, or says that there are more than three numbers, if the first four can be read.
pub parse-error :
    (v : Str)
    → (error_of (parse v) ≡ expected_error (core_of v) (split (core_of v) (codes ".")))
      × (parse v ≢ panic)
unfolding parse
parse-error v = parse_numbers-error (core_of v) (split (core_of v) (codes ".")) _
