-- ===== src/Common/Order.antt =====
-- Total orders given by a comparison, and the orders of pairs and lists that they make.
pub mod Pairs
pub mod Lists
use Prim.Native.Nat.{ℕ, compare, Ordering}
use mathlib.Core.Path.{◌≡◌, refl, ap}
use mathlib.Core.Logic.{◌⊎◌, inl, inr}
use mathlib.Core.List.{List, [], ◌∷◌}
use native.Mathlib.Omega.{arith}

abbrev pub swap : Ordering → Ordering
swap Ordering.lt = Ordering.gt
swap Ordering.eq = Ordering.eq
swap Ordering.gt = Ordering.lt

-- The second comparison decides where the first does not.
abbrev pub next : Ordering → Ordering → Ordering
next Ordering.lt o = Ordering.lt
next Ordering.eq o = o
next Ordering.gt o = Ordering.gt

pub record Order {ℓ} (A : Type ℓ) : Type ℓ where
  pub cmp : A → A → Ordering
  pub cmp_refl : (a : A) → cmp a a ≡ Ordering.eq
  pub cmp_swap : (a b : A) → cmp b a ≡ swap (cmp a b)
  pub cmp_eq : (a b : A) → cmp a b ≡ Ordering.eq → a ≡ b
  pub cmp_trans :
      (a b c : A) → cmp a b ≡ Ordering.lt → cmp b c ≡ Ordering.lt → cmp a c ≡ Ordering.lt

pub nat_trans :
    (a b c : ℕ) → compare a b ≡ Ordering.lt → compare b c ≡ Ordering.lt → compare a c ≡ Ordering.lt
nat_trans a b c h k = ground arith

pub nat_swap : (a b : ℕ) → compare b a ≡ swap (compare a b)
nat_swap a b = ground arith

pub nat_refl : (a : ℕ) → compare a a ≡ Ordering.eq
nat_refl a = ground arith

pub nat_eq : (a b : ℕ) → compare a b ≡ Ordering.eq → a ≡ b
nat_eq a b h = ground arith

abbrev pub nat_order : Order ℕ
nat_order = record {
  cmp = compare;
  cmp_refl = nat_refl;
  cmp_swap = nat_swap;
  cmp_eq = nat_eq;
  cmp_trans = nat_trans;
}
