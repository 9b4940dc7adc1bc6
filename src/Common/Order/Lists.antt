-- ===== src/Common/Order/Lists.antt =====
-- The orders of lists.
use Prim.Native.Nat.{Ordering}
use mathlib.Core.Path.{◌≡◌, refl, ap}
use mathlib.Core.List.{List, [], ◌∷◌}
use native.Mathlib.Omega.{arith}
use example_docker_volume_pl.Common.Order.{Order, swap, next}

-- The first elements that differ decide; a longer list is above its beginning.
module _ {ℓ} {A : Type ℓ} (o : Order A) where
  abbrev pub list_cmp : List A → List A → Ordering
  list_cmp [] [] = Ordering.eq
  list_cmp [] (y ∷ ys) = Ordering.lt
  list_cmp (x ∷ xs) [] = Ordering.gt
  list_cmp (x ∷ xs) (y ∷ ys) = next (o.cmp x y) (list_cmp xs ys)

  pub list_refl : (x : List A) → list_cmp x x ≡ Ordering.eq
  list_refl [] = refl
  list_refl (x ∷ xs) = rw (o.cmp_refl x, list_refl xs)

  pub list_swap : (x y : List A) → list_cmp y x ≡ swap (list_cmp x y)
  list_swap [] [] = refl
  list_swap [] (y ∷ ys) = refl
  list_swap (x ∷ xs) [] = refl
  list_swap (x ∷ xs) (y ∷ ys) = ground (arith, o.cmp_swap x y, list_swap xs ys)

  pub list_eq : (x y : List A) → list_cmp x y ≡ Ordering.eq → x ≡ y
  list_eq [] [] h = refl
  list_eq [] (y ∷ ys) h = absurd (cc)
  list_eq (x ∷ xs) [] h = absurd (cc)
  list_eq (x ∷ xs) (y ∷ ys) h = ground (arith, o.cmp_eq x y, list_eq xs ys)

  pub list_trans :
      (x y z : List A)
      → list_cmp x y ≡ Ordering.lt
      → list_cmp y z ≡ Ordering.lt
      → list_cmp x z ≡ Ordering.lt
  list_trans [] [] z h k = absurd (cc)
  list_trans [] (y ∷ ys) [] h k = absurd (cc)
  list_trans [] (y ∷ ys) (z ∷ zs) h k = refl
  list_trans (x ∷ xs) [] z h k = absurd (cc)
  list_trans (x ∷ xs) (y ∷ ys) [] h k = absurd (cc)
  list_trans (x ∷ xs) (y ∷ ys) (z ∷ zs) h k = ground (
    arith,
    o.cmp_trans x y z,
    o.cmp_eq x y,
    o.cmp_eq y z,
    list_trans xs ys zs,
    ap (λ u. o.cmp u z),
    ap (o.cmp x),
  )

  abbrev pub list_order : Order (List A)
  list_order = record {
    cmp = list_cmp;
    cmp_refl = list_refl;
    cmp_swap = list_swap;
    cmp_eq = list_eq;
    cmp_trans = list_trans;
  }

-- The empty list is above all others, which are ordered as before.
module _ {ℓ} {A : Type ℓ} (o : Order A) where
  abbrev pub top_cmp : List A → List A → Ordering
  top_cmp [] [] = Ordering.eq
  top_cmp [] (y ∷ ys) = Ordering.gt
  top_cmp (x ∷ xs) [] = Ordering.lt
  top_cmp (x ∷ xs) (y ∷ ys) = list_cmp o (x ∷ xs) (y ∷ ys)

  pub top_refl : (x : List A) → top_cmp x x ≡ Ordering.eq
  top_refl [] = refl
  top_refl (x ∷ xs) = list_refl o (x ∷ xs)

  pub top_swap : (x y : List A) → top_cmp y x ≡ swap (top_cmp x y)
  top_swap [] [] = refl
  top_swap [] (y ∷ ys) = refl
  top_swap (x ∷ xs) [] = refl
  top_swap (x ∷ xs) (y ∷ ys) = list_swap o (x ∷ xs) (y ∷ ys)

  pub top_eq : (x y : List A) → top_cmp x y ≡ Ordering.eq → x ≡ y
  top_eq [] [] h = refl
  top_eq [] (y ∷ ys) h = absurd (cc)
  top_eq (x ∷ xs) [] h = absurd (cc)
  top_eq (x ∷ xs) (y ∷ ys) h = list_eq o (x ∷ xs) (y ∷ ys) h

  pub top_trans :
      (x y z : List A)
      → top_cmp x y ≡ Ordering.lt
      → top_cmp y z ≡ Ordering.lt
      → top_cmp x z ≡ Ordering.lt
  top_trans [] [] z h k = absurd (cc)
  top_trans [] (y ∷ ys) z h k = absurd (cc)
  top_trans (x ∷ xs) [] [] h k = refl
  top_trans (x ∷ xs) [] (z ∷ zs) h k = absurd (cc)
  top_trans (x ∷ xs) (y ∷ ys) [] h k = refl
  top_trans (x ∷ xs) (y ∷ ys) (z ∷ zs) h k = list_trans o (x ∷ xs) (y ∷ ys) (z ∷ zs) h k

  abbrev pub top_order : Order (List A)
  top_order = record {
    cmp = top_cmp;
    cmp_refl = top_refl;
    cmp_swap = top_swap;
    cmp_eq = top_eq;
    cmp_trans = top_trans;
  }
