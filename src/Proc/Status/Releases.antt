-- ===== src/Proc/Status/Releases.antt =====
-- Releases of the kernel against three numbers, by precedence and by `Compare`.
use Prim.Native.Nat.{Ordering}
use example_docker_volume_pl.Common.{ℕ, ◌≡◌, refl, Bool, true, false, not, [], arith}
use example_docker_volume_pl.Common.Int.{ℤ, is_negative, is_nonneg, is_nonpos}
use example_docker_volume_pl.Semver.{VersionInfo, compare}
use example_docker_volume_pl.Semver.Precedence.{rank, precedence, sign, compare-rank}

-- A version of three numbers.
abbrev pub linux : ℕ → ℕ → ℕ → VersionInfo
linux a b c = record { major = a; minor = b; patch = c; pre_release = []; build = [] }

-- The precedence of a release, as against three numbers.
abbrev pub against : ℕ → ℕ → ℕ → VersionInfo → Ordering
against a b c r = precedence.cmp (rank r) (a, (b, (c, [])))

abbrev pub at_least : ℕ → ℕ → ℕ → VersionInfo → Bool
at_least a b c r = elim (against a b c r) [ Ordering.lt ↦ false | _ ↦ true ]

abbrev pub at_most : ℕ → ℕ → ℕ → VersionInfo → Bool
at_most a b c r = elim (against a b c r) [ Ordering.gt ↦ false | _ ↦ true ]

is_nonneg-sign : (o : Ordering) → is_nonneg (sign o) ≡ elim o [ Ordering.lt ↦ false | _ ↦ true ]
is_nonneg-sign Ordering.lt = refl
is_nonneg-sign Ordering.eq = refl
is_nonneg-sign Ordering.gt = refl

pub is_negative_lem : (i : ℤ) → is_negative i ≡ not (is_nonneg i)
is_negative_lem i = ground arith

is_nonpos-sign : (o : Ordering) → is_nonpos (sign o) ≡ elim o [ Ordering.gt ↦ false | _ ↦ true ]
is_nonpos-sign Ordering.lt = refl
is_nonpos-sign Ordering.eq = refl
is_nonpos-sign Ordering.gt = refl

pub nonneg-compare :
    (a b c : ℕ) (r : VersionInfo) → is_nonneg (compare r (linux a b c)) ≡ at_least a b c r
nonneg-compare a b c r = rw (compare-rank r (linux a b c)) (is_nonneg-sign (against a b c r))

pub nonpos-compare :
    (a b c : ℕ) (r : VersionInfo) → is_nonpos (compare r (linux a b c)) ≡ at_most a b c r
nonpos-compare a b c r = rw (compare-rank r (linux a b c)) (is_nonpos-sign (against a b c r))

-- A release from 2.6.33 on is one from 2.6.0 on.
pub at_least_weaken : (r : VersionInfo) → at_least 2 6 33 r ≡ true → at_least 2 6 0 r ≡ true
at_least_weaken r h = ground arith
