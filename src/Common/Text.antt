-- ===== src/Common/Text.antt =====
-- Go strings as lists of code points, and the functions of `strings` that the program calls.
pub mod Trim
pub mod Split
use Prim.Native.Char.{code}
use Prim.Native.String.{String}
use Prim.Native.Nat.{ℕ, zero, suc, ◌+◌, ◌-◌}
use mathlib.Core.Bool.{Bool, true, false, ◌&&◌, ◌||◌}
use mathlib.Core.List.{List, [], ◌∷◌, ◌++◌, map}
use mathlib.Core.Logic.{◌↔◌, ◌≢◌}
use mathlib.Core.Option.{Option, none, some}
use mathlib.Core.Path.{◌≡◌, refl, ap}
use native.Mathlib.Omega.{arith}
use example_docker_volume_pl.Common.Tests.{ltb, leb, ◌==◌, if◌then◌else◌}
use example_docker_volume_pl.Common.Lists.{length, All}

abbrev pub Str : Type 0
Str = List ℕ

-- The code points of a literal.
abbrev pub codes : String → Str
codes String.[] = []
codes (String.◌∷◌ c s) = code c ∷ codes s

unfoldable pub str_eq : Str → Str → Bool
str_eq [] [] = true
str_eq [] (y ∷ ys) = false
str_eq (x ∷ xs) [] = false
str_eq (x ∷ xs) (y ∷ ys) = x == y && str_eq xs ys

pub str_eq_refl : (s : Str) → str_eq s s ≡ true
unfolding str_eq
str_eq_refl [] = refl
str_eq_refl (x ∷ xs) = ground (arith, str_eq_refl xs)

pub str_eq_sound : (s t : Str) → str_eq s t ≡ true → s ≡ t
unfolding str_eq
str_eq_sound [] [] h = refl
str_eq_sound [] (y ∷ ys) h = absurd (cc)
str_eq_sound (x ∷ xs) [] h = absurd (cc)
str_eq_sound (x ∷ xs) (y ∷ ys) h = ground (arith, str_eq_sound xs ys)

pub str_eq_iff : (s t : Str) → (str_eq s t ≡ true) ↔ (s ≡ t)
str_eq_iff s t = (str_eq_sound s t, λ e. ground (arith, ap (str_eq s) e, str_eq_refl s))

pub str_eq_ne : (s t : Str) → s ≢ t → str_eq s t ≡ false
str_eq_ne s t h = ground (arith, str_eq_iff s t)

pub str_eq_sym : (i j : Str) → str_eq i j ≡ str_eq j i
str_eq_sym i j = ground (arith, str_eq_iff i j, str_eq_iff j i)

-- The white space of `unicode.IsSpace`.
unfoldable pub is_space : ℕ → Bool
is_space c =
    (leb 9 c && leb c 13)
    || c == 32
    || c == 0x85
    || c == 0xa0
    || c == 0x1680
    || (leb 0x2000 c && leb c 0x200a)
    || c == 0x2028
    || c == 0x2029
    || c == 0x202f
    || c == 0x205f
    || c == 0x3000

unfoldable pub trim_left : Str → Str
trim_left [] = []
trim_left (c ∷ s) = if is_space c then trim_left s else c ∷ s

-- One more character in front of a text whose right end is trimmed.
put_front : ℕ → Str → Str
put_front c [] = if is_space c then [] else c ∷ []
put_front c (d ∷ s) = c ∷ d ∷ s

unfoldable pub trim_right : Str → Str
unfolding put_front
trim_right [] = []
trim_right (c ∷ s) = put_front c (trim_right s)

-- `strings.TrimSpace`
unfoldable pub trim_space : Str → Str
unfolding trim_left trim_right is_space
trim_space s = trim_right (trim_left s)

-- The text neither begins nor ends with white space.
abbrev pub IsTrim : Str → Type 0
IsTrim s = (trim_left s ≡ s) × (trim_right s ≡ s)

unfoldable pub starts_with : Str → Str → Bool
starts_with [] s = true
starts_with (p ∷ ps) [] = false
starts_with (p ∷ ps) (c ∷ s) = p == c && starts_with ps s

-- A character in front of the first part.
abbrev pub push_first : ℕ → List Str → List Str
push_first c [] = (c ∷ []) ∷ []
push_first c (p ∷ ps) = (c ∷ p) ∷ ps

-- The first number counts what is left of a separator that has been found.
split_go : Str → ℕ → Str → List Str
unfolding starts_with
split_go sep k [] = [] ∷ []
split_go sep (suc k) (c ∷ s) = split_go sep k s
split_go sep zero (c ∷ s) = elim (starts_with sep (c ∷ s)) [
  | true ↦ [] ∷ split_go sep (length sep - 1) s
  | false ↦ push_first c (split_go sep zero s)
]

-- `strings.Split` at a separator that is not empty.
unfoldable pub split : Str → Str → List Str
unfolding split_go
split s sep = split_go sep zero s

-- `strings.SplitN(s, sep, 2)` at a separator of one character: the second part is there or not.
unfoldable pub split_two : ℕ → Str → Str × Option Str
split_two sep [] = ([], none)
split_two sep (c ∷ s) = let r = split_two sep s in if c == sep then ([], some s) else (c ∷ r.0, r.1)

-- `strings.Join`
unfoldable pub join : List Str → Str → Str
join [] sep = []
join (p ∷ []) sep = p
join (p ∷ q ∷ ps) sep = p ++ (sep ++ join (q ∷ ps) sep)

-- `strings.ToLower`, as far as it yields ASCII: `İ` and the Kelvin sign become `i` and `k`; what
-- else becomes another character outside ASCII is kept.
lower : ℕ → ℕ
lower c =
    if leb b'A' c && leb c b'Z'
    then c + 32
    else if c == 0x130
    then b'i'
    else if c == 0x212a
    then b'k'
    else c

unfoldable pub to_lower : Str → Str
unfolding lower
to_lower = map lower

-- `strings.ToUpper` on ASCII text.
upper : ℕ → ℕ
upper c = if leb b'a' c && leb c b'z' then c - 32 else c

unfoldable pub to_upper : Str → Str
unfolding upper
to_upper = map upper

-- `slices.Contains`
unfoldable pub contains : List Str → Str → Bool
unfolding str_eq
contains [] s = false
contains (x ∷ xs) s = str_eq x s || contains xs s

-- `strings.ReplaceAll` with a pattern that is not empty.
unfoldable pub replace_all : Str → Str → Str → Str
unfolding split join
replace_all s old new = join (split s old) new

abbrev pub Lacks : ℕ → Str → Type 0
Lacks b = All (λ c. c ≢ b)
