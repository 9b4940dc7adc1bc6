-- ===== src/Common/Number/Signed.antt =====
-- `strconv.ParseInt` and `Atoi`: a number with a sign.
use Prim.Native.Nat.{ℕ, ◌-◌, ◌^◌, ◌<◌}
use mathlib.Core.List.{[], ◌∷◌}
use mathlib.Core.Logic.{◌≢◌}
use mathlib.Core.Option.{Option, none, some}
use mathlib.Core.Path.{◌≡◌, refl}
use native.Mathlib.Omega.{arith}
use example_docker_volume_pl.Common.Tests.{◌==◌, ltb, leb, if◌then◌else◌}
use example_docker_volume_pl.Common.Text.{Str, Lacks}
use example_docker_volume_pl.Common.Number.{parse_uint, decimal}
use example_docker_volume_pl.Common.Number.Decimal.{
  parse_uint-decimal, decimal-Lacks, decimal-ne-nil,
}

-- `strconv.ParseInt` to base 10 with 64 bits, as a bit pattern.
abbrev pub positive : Option ℕ → Option ℕ
positive none = none
positive (some n) = if ltb n (2 ^ 63) then some n else none

abbrev pub negative : Option ℕ → Option ℕ
negative none = none
negative (some n) = if leb n (2 ^ 63) then some (if n == 0 then 0 else 2 ^ 64 - n) else none

unfoldable pub parse_int : Str → Option ℕ
unfolding parse_uint
parse_int [] = none
parse_int (c ∷ s) =
    if c == b'-'
    then negative (parse_uint 10 64 s)
    else if c == b'+'
    then positive (parse_uint 10 64 s)
    else positive (parse_uint 10 64 (c ∷ s))

parse_int-unsigned :
    (s : Str) → s ≢ [] → Lacks b'-' s → Lacks b'+' s → parse_int s ≡ positive (parse_uint 10 64 s)
unfolding parse_int
parse_int-unsigned [] ne h k = absurd (ne refl)
parse_int-unsigned (c ∷ s) ne (h, _) (k, _) = ground arith

positive-some : (n : ℕ) → n < 2 ^ 63 → positive (some n) ≡ some n
positive-some n h = ground arith

pub parse_int-decimal : (n : ℕ) → n < 2 ^ 63 → parse_int (decimal n) ≡ some n
parse_int-decimal n h =
    rw
      (
        parse_int-unsigned (decimal n) (decimal-ne-nil n) (decimal-Lacks b'-' n (omega arith))
            (decimal-Lacks b'+' n (omega arith)),
        parse_uint-decimal 64 n (omega arith),
      )
      (positive-some n h)
