-- ===== src/Semver/Total.antt =====
-- `Compare` orders the versions: it is total, and it tells apart what differs in precedence.
use Prim.Native.Nat.{Ordering}
use example_docker_volume_pl.Common.{true, ◌≡◌, refl, ap, sym, ◌∙◌, ◌↔◌, arith}
use example_docker_volume_pl.Common.Int.{pos, negate, is_nonpos}
use example_docker_volume_pl.Common.Order.{Order, swap}
use example_docker_volume_pl.Semver.{VersionInfo, compare}
use example_docker_volume_pl.Semver.Precedence.{sign, rank, precedence, compare-rank}

sign-swap : (o : Ordering) → sign (swap o) ≡ negate (sign o)
sign-swap Ordering.lt = refl
sign-swap Ordering.eq = refl
sign-swap Ordering.gt = refl

sign-zero : (o : Ordering) → sign o ≡ pos 0 → o ≡ Ordering.eq
sign-zero Ordering.lt h = absurd (cc)
sign-zero Ordering.eq h = refl
sign-zero Ordering.gt h = absurd (cc)

module _ {ℓ} {A : Type ℓ} (o : Order A) where
  -- "At most" is transitive.
  at_most_trans :
      (a b c : A)
      → is_nonpos (sign (o.cmp a b)) ≡ true
      → is_nonpos (sign (o.cmp b c)) ≡ true
      → is_nonpos (sign (o.cmp a c)) ≡ true
  at_most_trans a b c h k =
      ground
        (arith, o.cmp_trans a b c, o.cmp_eq a b, o.cmp_eq b c, ap (λ u. o.cmp u c), ap (o.cmp a))

-- `Compare` of two versions the other way round has the opposite sign, and it is 0 just where the
-- versions have the same numbers and the same identifiers of a pre-release; the build and the Go
-- type of an integer do not count.
pub compare-negate :
    (a b : VersionInfo)
    → (compare b a ≡ negate (compare a b)) × ((compare a b ≡ pos 0) ↔ (rank a ≡ rank b))
compare-negate a b = (
  rw (compare-rank b a, compare-rank a b, precedence.cmp_swap (rank a) (rank b)) (sign-swap _),
  (
    λ h. precedence.cmp_eq (rank a) (rank b) (sign-zero _ (sym (compare-rank a b) ∙ h)),
    λ e.
        compare-rank a b
        ∙ ap sign (ap (precedence.cmp (rank a)) (sym e) ∙ precedence.cmp_refl (rank a)),
  ),
)

-- If `Compare` finds a version at most a second, and that at most a third, it finds the first at
-- most the third.
pub compare_trans :
    (a b c : VersionInfo)
    → is_nonpos (compare a b) ≡ true
    → is_nonpos (compare b c) ≡ true
    → is_nonpos (compare a c) ≡ true
compare_trans a b c h k = rw (compare-rank a c) (
    at_most_trans precedence (rank a) (rank b) (rank c) (rw (compare-rank a b) at h)
      (rw (compare-rank b c) at k))
