-- ===== src/Semver/Classes.antt =====
-- Versions up to precedence: `Compare` on the classes of versions of the same precedence.
use mathlib.Core.Quot
use mathlib.Core.Quot.{Quot, Quot-set}
use example_docker_volume_pl.Common.{◌≡◌, refl, ap, sym, ◌∙◌, ◌↔◌}
use example_docker_volume_pl.Common.Int.{ℤ, pos, negate}
use example_docker_volume_pl.Semver.{VersionInfo, compare}
use example_docker_volume_pl.Semver.Precedence.{rank, precedence, sign, compare-rank}
use example_docker_volume_pl.Semver.Total.{compare-negate}

pub ℤ-IsSet : IsSet ℤ
ℤ-IsSet = hlevel

-- The same precedence.
abbrev pub Same : VersionInfo → VersionInfo → Type 0
Same a b = rank a ≡ rank b

-- What is left of a version when its build and the Go types of its identifiers are forgotten.
abbrev pub Class : Type 0
Class = Quot Same

pub compare-left : (c a b : VersionInfo) → Same a b → compare a c ≡ compare b c
compare-left c a b h =
    compare-rank a c ∙ (ap (λ r. sign (precedence.cmp r (rank c))) h ∙ sym (compare-rank b c))

pub compare-right : (c a b : VersionInfo) → Same a b → compare c a ≡ compare c b
compare-right c a b h =
    compare-rank c a ∙ (ap (λ r. sign (precedence.cmp (rank c) r)) h ∙ sym (compare-rank c b))

-- `Compare` with a version, on classes.
against_class : VersionInfo → Class → ℤ
against_class a = Quot.lift ℤ-IsSet (compare a) (compare-right a)

-- `Compare` on classes.
unfoldable pub class_compare : Class → Class → ℤ
unfolding against_class
class_compare x y = Quot.lift ℤ-IsSet (λ a. against_class a y) (λ a b h. respects a b h y) x
  where
    respects : (a b : VersionInfo) → Same a b → (y : Class) → against_class a y ≡ against_class b y
    respects a b h = Quot.ind (λ y. ℤ-IsSet _ _) (λ c. compare-left c a b h)

class_compare-negate : (x y : Class) → class_compare y x ≡ negate (class_compare x y)
unfolding class_compare
class_compare-negate =
    Quot.ind (λ x. hlevel) (λ a. Quot.ind (λ y. ℤ-IsSet _ _) (λ b. (compare-negate a b).0))

zero_same : (x y : Class) → class_compare x y ≡ pos 0 → x ≡ y
unfolding class_compare
zero_same =
    Quot.ind (λ x. hlevel (Quot-set))
      (λ a. Quot.ind (λ y. hlevel (Quot-set)) (λ b h. Quot.sound ((compare-negate a b).1.0 h)))

class_compare_refl : (x : Class) → class_compare x x ≡ pos 0
unfolding class_compare
class_compare_refl = Quot.ind (λ x. ℤ-IsSet _ _) (λ a. (compare-negate a a).1.1 refl)

-- On the classes of versions with the same precedence `Compare` is well defined: the other way
-- round it has the opposite sign, and it is 0 just on equal classes.
pub class_compare-zero_iff :
    (x y : Class)
    → (class_compare y x ≡ negate (class_compare x y)) × ((class_compare x y ≡ pos 0) ↔ (x ≡ y))
class_compare-zero_iff x y = (
  class_compare-negate x y,
  (zero_same x y, λ e. ap (λ z. class_compare x z) (sym e) ∙ class_compare_refl x),
)
