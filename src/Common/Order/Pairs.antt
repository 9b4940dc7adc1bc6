-- ===== src/Common/Order/Pairs.antt =====
-- The orders of pairs and of disjoint sums.
use Prim.Native.Nat.{Ordering}
use mathlib.Core.Path.{◌≡◌, refl, ap}
use mathlib.Core.Logic.{◌⊎◌, inl, inr}
use native.Mathlib.Omega.{arith}
use example_docker_volume_pl.Common.Order.{Order, swap, next}

-- The first parts decide, then the second.
module _ {ℓ κ} {A : Type ℓ} {B : Type κ} (o : Order A) (p : Order B) where
  abbrev pub pair_cmp : A × B → A × B → Ordering
  pair_cmp (a, b) (c, d) = next (o.cmp a c) (p.cmp b d)

  pub pair_refl : (x : A × B) → pair_cmp x x ≡ Ordering.eq
  pair_refl (a, b) = rw (o.cmp_refl a, p.cmp_refl b)

  pub pair_swap : (x y : A × B) → pair_cmp y x ≡ swap (pair_cmp x y)
  pair_swap (a, b) (c, d) = ground (arith, o.cmp_swap a c, p.cmp_swap b d)

  pub pair_eq : (x y : A × B) → pair_cmp x y ≡ Ordering.eq → x ≡ y
  pair_eq (a, b) (c, d) h = ground (arith, o.cmp_eq a c, p.cmp_eq b d)

  pub pair_trans :
      (x y z : A × B)
      → pair_cmp x y ≡ Ordering.lt
      → pair_cmp y z ≡ Ordering.lt
      → pair_cmp x z ≡ Ordering.lt
  pair_trans (a, b) (c, d) (e, f) h k = ground (
    arith,
    o.cmp_trans a c e,
    o.cmp_eq a c,
    o.cmp_eq c e,
    p.cmp_trans b d f,
    o.cmp_refl c,
    ap (λ u. o.cmp u e),
    ap (o.cmp a),
  )

  abbrev pub pair_order : Order (A × B)
  pair_order = record {
    cmp = pair_cmp;
    cmp_refl = pair_refl;
    cmp_swap = pair_swap;
    cmp_eq = pair_eq;
    cmp_trans = pair_trans;
  }

-- Everything on the left is below everything on the right.
module _ {ℓ κ} {A : Type ℓ} {B : Type κ} (o : Order A) (p : Order B) where
  abbrev pub sum_cmp : A ⊎ B → A ⊎ B → Ordering
  sum_cmp (inl a) (inl b) = o.cmp a b
  sum_cmp (inl a) (inr b) = Ordering.lt
  sum_cmp (inr a) (inl b) = Ordering.gt
  sum_cmp (inr a) (inr b) = p.cmp a b

  pub sum_refl : (x : A ⊎ B) → sum_cmp x x ≡ Ordering.eq
  sum_refl (inl a) = o.cmp_refl a
  sum_refl (inr b) = p.cmp_refl b

  pub sum_swap : (x y : A ⊎ B) → sum_cmp y x ≡ swap (sum_cmp x y)
  sum_swap (inl a) (inl b) = o.cmp_swap a b
  sum_swap (inl a) (inr b) = refl
  sum_swap (inr a) (inl b) = refl
  sum_swap (inr a) (inr b) = p.cmp_swap a b

  pub sum_eq : (x y : A ⊎ B) → sum_cmp x y ≡ Ordering.eq → x ≡ y
  sum_eq (inl a) (inl b) h = ap inl (o.cmp_eq a b h)
  sum_eq (inl a) (inr b) h = absurd (cc)
  sum_eq (inr a) (inl b) h = absurd (cc)
  sum_eq (inr a) (inr b) h = ap inr (p.cmp_eq a b h)

  pub sum_trans :
      (x y z : A ⊎ B)
      → sum_cmp x y ≡ Ordering.lt
      → sum_cmp y z ≡ Ordering.lt
      → sum_cmp x z ≡ Ordering.lt
  sum_trans (inl a) (inl b) (inl c) h k = o.cmp_trans a b c h k
  sum_trans (inl a) y (inr c) h k = refl
  sum_trans (inl a) (inr b) (inl c) h k = absurd (cc)
  sum_trans (inr a) (inl b) z h k = absurd (cc)
  sum_trans (inr a) (inr b) (inl c) h k = absurd (cc)
  sum_trans (inr a) (inr b) (inr c) h k = p.cmp_trans a b c h k

  abbrev pub sum_order : Order (A ⊎ B)
  sum_order = record {
    cmp = sum_cmp;
    cmp_refl = sum_refl;
    cmp_swap = sum_swap;
    cmp_eq = sum_eq;
    cmp_trans = sum_trans;
  }
