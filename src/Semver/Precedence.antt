-- ===== src/Semver/Precedence.antt =====
-- `Compare` is the precedence of versions in the specification of Semantic Versioning, a total order.
use Prim.Native.Nat.{Ordering}
use example_docker_volume_pl.Common.{
  All, Bool, true, false, ◌&&◌, leb, ◌+◌, ◌*◌, ℕ, suc, ◌-◌, ◌^◌, ◌≡◌, refl, ap, sym, ◌∙◌, ◌⊎◌, inl,
  inr, List, [], ◌∷◌, map, ltb, if◌then◌else◌, arith, length,
}
use example_docker_volume_pl.Common.Int.{ℤ, pos, negsuc}
use example_docker_volume_pl.Common.Order.{Order, nat_order, next}
use example_docker_volume_pl.Common.Order.Pairs.{pair_order, sum_order}
use example_docker_volume_pl.Common.Order.Lists.{list_order, list_cmp, top_order, top_cmp}
use example_docker_volume_pl.Common.Text.{Str}
use example_docker_volume_pl.Common.Number.{decimal, itoa}
use example_docker_volume_pl.Utils.Numbers.{
  Any, Width, text, unsigned, signed, other, word, w8, w16, w32, w64, as_int64, as_uint64, to_int64,
}
use example_docker_volume_pl.Semver.{
  VersionInfo, comparable, make_comparable_slice, cmp_uint64, strings_compare, cmp_element,
  cmp_loop, cmp_any, compare, or_else,
}

-- An identifier of a pre-release is a number or a text; all numbers are below all texts.
abbrev pub Identifier : Type 0
Identifier = ℕ ⊎ Str

abbrev pub identifier_order : Order Identifier
identifier_order = sum_order nat_order (list_order nat_order)

abbrev pub bits : Width → ℕ
bits word = 64
bits w8 = 8
bits w16 = 16
bits w32 = 32
bits w64 = 64

-- The identifier that `Compare` makes of a value: a number that is not negative, or a text.
abbrev pub identifier_of : Any → Identifier
identifier_of (text s) = inr s
identifier_of (unsigned w n) = inl n
identifier_of (signed w n) =
    if ltb n (2 ^ (bits w - 1)) then inl n else inr (b'-' ∷ decimal (2 ^ bits w - n))
identifier_of (other s) = inr s

-- The three numbers, and the identifiers of the pre-release.
abbrev pub Rank : Type 0
Rank = ℕ × (ℕ × (ℕ × List Identifier))

abbrev pub rank : VersionInfo → Rank
rank v = (v.major, (v.minor, (v.patch, map identifier_of v.pre_release)))

-- The order of versions by what they hold: the numbers decide first, then the identifiers, one by one; a
-- version without a pre-release is above those with one.
abbrev pub precedence : Order Rank
precedence =
    pair_order nat_order (pair_order nat_order (pair_order nat_order (top_order identifier_order)))

-- -1, 0 and 1.
abbrev pub sign : Ordering → ℤ
sign Ordering.lt = negsuc 0
sign Ordering.eq = pos 0
sign Ordering.gt = pos 1

cmp_uint64-sign : (a b : ℕ) → cmp_uint64 a b ≡ sign (nat_order.cmp a b)
cmp_uint64-sign a b = ground arith

or_else-sign : (o p : Ordering) → or_else (sign o) (sign p) ≡ sign (next o p)
or_else-sign Ordering.lt p = refl
or_else-sign Ordering.eq p = refl
or_else-sign Ordering.gt p = refl

strings_compare-sign : (s t : Str) → strings_compare s t ≡ sign (list_cmp nat_order s t)
unfolding strings_compare
strings_compare-sign [] [] = refl
strings_compare-sign [] (y ∷ ys) = refl
strings_compare-sign (x ∷ xs) [] = refl
strings_compare-sign (x ∷ xs) (y ∷ ys) = ground (arith, strings_compare-sign xs ys)

-- What `MakeComparableSlice` makes of the elements.
abbrev element : Identifier → Any
element (inl n) = unsigned w64 n
element (inr s) = text s

comparable_lem : (v : Any) → comparable v ≡ element (identifier_of v)
unfolding as_int64 as_uint64 to_int64 itoa
comparable_lem (text s) = refl
comparable_lem (unsigned w n) = refl
comparable_lem (signed word n) = ground arith
comparable_lem (signed w8 n) = ground arith
comparable_lem (signed w16 n) = ground arith
comparable_lem (signed w32 n) = ground arith
comparable_lem (signed w64 n) = ground arith
comparable_lem (other s) = refl

cmp_element-sign :
    (a b : Identifier) → cmp_element (element a) (element b) ≡ sign (identifier_order.cmp a b)
unfolding cmp_element
cmp_element-sign (inl a) (inl b) = cmp_uint64-sign a b
cmp_element-sign (inl a) (inr b) = refl
cmp_element-sign (inr a) (inl b) = refl
cmp_element-sign (inr a) (inr b) = strings_compare-sign a b

make_comparable_slice_lem :
    (vs : List Any) → make_comparable_slice vs ≡ map element (map identifier_of vs)
unfolding make_comparable_slice
make_comparable_slice_lem [] = refl
make_comparable_slice_lem (v ∷ vs) = rw (comparable_lem v, make_comparable_slice_lem vs)

cmp_uint64-suc : (a b : ℕ) → cmp_uint64 (suc a) (suc b) ≡ cmp_uint64 a b
cmp_uint64-suc a b = ground arith

-- The loop decides as the lists of identifiers do, with the lengths at its end.
cmp_loop-sign :
    (xs ys : List Identifier)
    → cmp_loop (map element xs) (map element ys) (cmp_uint64 (length xs) (length ys))
      ≡ sign (list_cmp identifier_order xs ys)
unfolding cmp_loop
cmp_loop-sign [] [] = refl
cmp_loop-sign [] (y ∷ ys) = ground arith
cmp_loop-sign (x ∷ xs) [] = ground arith
cmp_loop-sign (x ∷ xs) (y ∷ ys) =
    rw (cmp_element-sign x y, cmp_uint64-suc (length xs) (length ys), cmp_loop-sign xs ys)
      (or_else-sign (identifier_order.cmp x y) (list_cmp identifier_order xs ys))

length-map_both : {A B : Type 0} (f : A → B) (xs : List A) → length (map f xs) ≡ length xs
length-map_both f [] = refl
length-map_both f (x ∷ xs) = ap suc (length-map_both f xs)

-- The loop on two slices.
loop_of_slices :
    (us vs : List Any)
    → cmp_loop
        (make_comparable_slice us)
        (make_comparable_slice vs)
        (cmp_uint64 (length us) (length vs))
      ≡ sign (list_cmp identifier_order (map identifier_of us) (map identifier_of vs))
loop_of_slices us vs =
    rw
      (
        make_comparable_slice_lem us,
        make_comparable_slice_lem vs,
        sym (length-map_both identifier_of us),
        sym (length-map_both identifier_of vs),
      )
      (cmp_loop-sign (map identifier_of us) (map identifier_of vs))

-- Where neither slice is empty the loop runs.
cmp_any-cons :
    (x y : Any) (xs ys : List Any)
    → cmp_any (x ∷ xs) (y ∷ ys)
      ≡ cmp_loop
          (make_comparable_slice (x ∷ xs))
          (make_comparable_slice (y ∷ ys))
          (cmp_uint64 (length (x ∷ xs)) (length (y ∷ ys)))
unfolding cmp_any
cmp_any-cons x y xs ys = ground arith

cmp_any-sign :
    (xs ys : List Any)
    → cmp_any xs ys ≡ sign (top_cmp identifier_order (map identifier_of xs) (map identifier_of ys))
unfolding cmp_any
cmp_any-sign [] [] = refl
cmp_any-sign [] (y ∷ ys) = ground arith
cmp_any-sign (x ∷ xs) [] = ground arith
cmp_any-sign (x ∷ xs) (y ∷ ys) = cmp_any-cons x y xs ys ∙ loop_of_slices (x ∷ xs) (y ∷ ys)

-- `Compare` is the sign of the order.
pub compare-rank : (a b : VersionInfo) → compare a b ≡ sign (precedence.cmp (rank a) (rank b))
unfolding compare
compare-rank a b = rw (cmp_any-sign a.pre_release b.pre_release) (ground arith)

-- The number that a text of decimal digits stands for.
abbrev pub digits_value : Str → ℕ → ℕ
digits_value [] n = n
digits_value (c ∷ s) n = digits_value s (n * 10 + (c - b'0'))

abbrev pub all_digits : Str → Bool
all_digits [] = true
all_digits (c ∷ s) = leb b'0' c && leb c b'9' && all_digits s

-- Item 11 of the specification: an identifier of digits only is a number, however long; any other is a
-- text.
abbrev pub specified : Identifier → Identifier
specified (inl n) = inl n
specified (inr []) = inr []
specified (inr (c ∷ s)) = if all_digits (c ∷ s) then inl (digits_value (c ∷ s) 0) else inr (c ∷ s)

abbrev pub specified_rank : VersionInfo → Rank
specified_rank v =
    (v.major, (v.minor, (v.patch, map (λ x. specified (identifier_of x)) v.pre_release)))

-- No identifier is kept as a text although it has digits only, as `Parse` keeps numbers of more than
-- 64 bits.
abbrev pub IsNumbered : Identifier → Type 0
IsNumbered (inl n) = Unit {0}
IsNumbered (inr []) = Unit {0}
IsNumbered (inr (c ∷ s)) = all_digits (c ∷ s) ≡ false

abbrev pub AllNumbered : VersionInfo → Type 0
AllNumbered v = All (λ x. IsNumbered (identifier_of x)) v.pre_release

specified_lem : (i : Identifier) → IsNumbered i → specified i ≡ i
specified_lem (inl n) h = refl
specified_lem (inr []) h = refl
specified_lem (inr (c ∷ s)) h = ground (arith, h)

specified-All :
    (vs : List Any)
    → All (λ x. IsNumbered (identifier_of x)) vs
    → map (λ x. specified (identifier_of x)) vs ≡ map identifier_of vs
specified-All [] h = refl
specified-All (v ∷ vs) (h, hs) = λ j. specified_lem (identifier_of v) h j ∷ specified-All vs hs j

specified_rank-rank : (v : VersionInfo) → AllNumbered v → specified_rank v ≡ rank v
specified_rank-rank v h j = (v.major, (v.minor, (v.patch, specified-All v.pre_release h j)))

-- `Compare` is the sign of the precedence that item 11 of the specification of Semantic Versioning
-- gives, for versions without an identifier of digits that is kept as a text.
pub compare-sign :
    (a b : VersionInfo)
    → AllNumbered a
    → AllNumbered b
    → compare a b ≡ sign (precedence.cmp (specified_rank a) (specified_rank b))
compare-sign a b h k = compare-rank a b ∙ (λ j.
    sign (precedence.cmp (sym (specified_rank-rank a h) j) (sym (specified_rank-rank b k) j)))
