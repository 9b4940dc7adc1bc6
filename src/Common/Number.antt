-- ===== src/Common/Number.antt =====
-- `strconv.ParseUint`: digits alone, at least one, and a value that fits.
pub mod Decimal
pub mod Signed
use Prim.Native.Nat.{ℕ, zero, suc, ◌/◌, ◌%◌, ◌+◌, ◌-◌, ◌*◌, ◌^◌}
use mathlib.Core.Bool.{true, false, ◌&&◌}
use mathlib.Core.List.{[], ◌∷◌}
use mathlib.Core.Option.{Option, none, some}
use example_docker_volume_pl.Common.Tests.{ltb, leb, if◌then◌else◌}
use example_docker_volume_pl.Common.Text.{Str}

-- The value of a digit of base 16; `none` for any other character.
pub digit : ℕ → Option ℕ
digit c =
    if leb b'0' c && leb c b'9'
    then some (c - b'0')
    else if leb b'a' c && leb c b'f'
    then some (c - b'a' + 10)
    else if leb b'A' c && leb c b'F'
    then some (c - b'A' + 10)
    else none

-- One more digit behind a number that has been read.
abbrev add_digit : ℕ → ℕ → Option ℕ → Option ℕ
add_digit base n none = none
add_digit base n (some d) = if ltb d base then some (n * base + d) else none

abbrev and_then {ℓ κ} : {A : Type ℓ} {B : Type κ} → Option A → (A → Option B) → Option B
and_then none f = none
and_then (some a) f = f a

scan : ℕ → Str → ℕ → Option ℕ
unfolding digit
scan base [] n = some n
scan base (c ∷ s) n = and_then (add_digit base n (digit c)) (scan base s)

abbrev fits : ℕ → Option ℕ → Option ℕ
fits bits none = none
fits bits (some n) = if ltb n (2 ^ bits) then some n else none

unfoldable pub parse_uint : ℕ → ℕ → Str → Option ℕ
unfolding scan
parse_uint base bits [] = none
parse_uint base bits (c ∷ s) = fits bits (scan base (c ∷ s) 0)

-- The decimal digits of a number in front of what follows; the fuel is one more than the number.
digits : ℕ → ℕ → Str → Str
digits zero n out = out
digits (suc fuel) n out = elim (ltb n 10) [
  | true ↦ (b'0' + n) ∷ out
  | false ↦ digits fuel (n / 10) ((b'0' + n % 10) ∷ out)
]

-- `strconv.Itoa` and `%d` of a number that is not negative.
unfoldable pub decimal : ℕ → Str
unfolding digits
decimal n = digits (suc n) n []

-- `strconv.Itoa` of an `int` of 64 bits, by its bit pattern.
unfoldable pub itoa : ℕ → Str
unfolding decimal
itoa n = if ltb n (2 ^ 63) then decimal n else b'-' ∷ decimal (2 ^ 64 - n)
