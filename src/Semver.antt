-- ===== src/Semver.antt =====
-- src/semver/semver.go: versions, read from texts and compared.
pub mod Precedence
pub mod Total
pub mod Reading
pub mod Failing
pub mod Classes
use example_docker_volume_pl.Common.{
  ℕ, zero, suc, ◌^◌, ◌≡◌, refl, Bool, Option, none, some, List, [], ◌∷◌, ◌==◌, ltb, leb,
  if◌then◌else◌, length, Outcome, ok, err,
}
use example_docker_volume_pl.Common.Int.{ℤ, pos, negsuc, negate, is_nonzero}
use example_docker_volume_pl.Common.Text.{Str, codes, split, split_two}
use example_docker_volume_pl.Common.Number.{parse_uint, itoa}
use example_docker_volume_pl.Utils.Numbers.{
  Any, text, unsigned, signed, other, w64, as_int64, as_uint64,
}

pub record VersionInfo : Type 0 where
  pub major : ℕ
  pub minor : ℕ
  pub patch : ℕ
  pub pre_release : List Any
  pub build : List Any

-- What `Parse` finds wrong with the numbers of a version.
pub data Error : Type 0 where
  invalid_at : Str → ℕ → Str → Error
  too_many : Str → Error

-- An integer below zero becomes the text of `%d`.
abbrev pub comparable_int : ℕ → Any
comparable_int as' = if ltb as' (2 ^ 63) then unsigned w64 as' else text (itoa as')

abbrev pub comparable : Any → Any
comparable (text a) = text a
comparable (unsigned w a) = unsigned w64 (as_uint64 (unsigned w a)).0
comparable (signed w a) = comparable_int (as_int64 (signed w a)).0
comparable (other a) = text a

-- `MakeComparableSlice`
unfoldable pub make_comparable_slice : List Any → List Any
unfolding as_uint64 as_int64 itoa
make_comparable_slice [] = []
make_comparable_slice (v ∷ vs) = comparable v ∷ make_comparable_slice vs

-- A part of the build or of the pre-release: a number where it is one.
abbrev pub identifier : Str → Any
identifier e = elim (parse_uint 10 64 e) [ none ↦ text e | some v ↦ unsigned w64 v ]

abbrev pub identifiers : List Str → List Any
identifiers [] = []
identifiers (e ∷ es) = identifier e ∷ identifiers es

-- The parts of a text that may be missing.
abbrev pub optional_identifiers : Option Str → List Any
optional_identifiers none = []
optional_identifiers (some s) = identifiers (split s (codes "."))

-- The `switch` over the position of a number; `none` is its default.
abbrev pub set_number : ℕ → ℕ → VersionInfo → Option VersionInfo
set_number zero v result = some (record result { major = v })
set_number (suc zero) v result = some (record result { minor = v })
set_number (suc (suc zero)) v result = some (record result { patch = v })
set_number (suc (suc (suc i))) v result = none

-- The loop over the numbers.
unfoldable pub parse_numbers : Str → ℕ → List Str → VersionInfo → Outcome Error VersionInfo
parse_numbers core i [] result = ok result
parse_numbers core i (e ∷ es) result = elim (parse_uint 10 64 e) [
  | none ↦ err (invalid_at core i e)
  | some v ↦ elim (set_number i v result) [
    | none ↦ err (too_many core)
    | some result' ↦ parse_numbers core (suc i) es result'
  ]
]

-- `Parse`
unfoldable pub parse : Str → Outcome Error VersionInfo
unfolding parse_numbers split_two split
parse v =
    let (rest, build) = split_two b'+' v in
    let (core, pre_release) = split_two b'-' rest in
    parse_numbers core 0 (split core (codes ".")) (record {
      major = 0;
      minor = 0;
      patch = 0;
      pre_release = optional_identifiers pre_release;
      build = optional_identifiers build;
    })

-- `cmpUint64`
abbrev pub cmp_uint64 : ℕ → ℕ → ℤ
cmp_uint64 ui1 ui2 = if ltb ui2 ui1 then pos 1 else if ltb ui1 ui2 then negsuc 0 else pos 0

-- `strings.Compare`: the bytes of UTF-8 are ordered as the code points are.
unfoldable pub strings_compare : Str → Str → ℤ
strings_compare [] [] = pos 0
strings_compare [] (y ∷ ys) = negsuc 0
strings_compare (x ∷ xs) [] = pos 1
strings_compare (x ∷ xs) (y ∷ ys) =
    if ltb x y then negsuc 0 else if ltb y x then pos 1 else strings_compare xs ys

-- One round of the loop of `cmpAny`; it goes on where this is 0.
unfoldable pub cmp_element : Any → Any → ℤ
unfolding strings_compare
cmp_element (text a1) (text a2) = strings_compare a1 a2
cmp_element (text a1) (unsigned w a2) = pos 1
cmp_element (text a1) (signed w a2) = pos 1
cmp_element (text a1) (other a2) = pos 1
cmp_element (unsigned w64 a1) (unsigned w64 a2) = cmp_uint64 a1 a2
cmp_element (unsigned w64 a1) v2 = negsuc 0
cmp_element v1 v2 = pos 0

abbrev pub or_else : ℤ → ℤ → ℤ
or_else c rest = if is_nonzero c then c else rest

-- The loop, over as many elements as the shorter slice has, and what follows it.
unfoldable pub cmp_loop : List Any → List Any → ℤ → ℤ
unfolding cmp_element
cmp_loop [] ys rest = rest
cmp_loop (v1 ∷ xs) [] rest = rest
cmp_loop (v1 ∷ xs) (v2 ∷ ys) rest = or_else (cmp_element v1 v2) (cmp_loop xs ys rest)

-- `cmpAny`; the lengths are exact as floating point numbers.
unfoldable pub cmp_any : List Any → List Any → ℤ
unfolding cmp_loop make_comparable_slice
cmp_any any1 any2 =
    let l1 = length any1 in
    let l2 = length any2 in
    let lm = if ltb l2 l1 then l2 else l1 in
    if lm == 0
    then negate (cmp_uint64 l1 l2)
    else cmp_loop (make_comparable_slice any1) (make_comparable_slice any2) (cmp_uint64 l1 l2)

-- `Compare`
unfoldable pub compare : VersionInfo → VersionInfo → ℤ
unfolding cmp_any
compare a b = or_else (cmp_uint64 a.major b.major) (
    or_else (cmp_uint64 a.minor b.minor)
      (or_else (cmp_uint64 a.patch b.patch) (cmp_any a.pre_release b.pre_release)))
