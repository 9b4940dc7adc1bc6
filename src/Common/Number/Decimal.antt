-- ===== src/Common/Number/Decimal.antt =====
-- A number is read back from its decimal digits.
use Prim.Native.Nat.{ℕ, zero, suc, ◌/◌, ◌%◌, ◌+◌, ◌^◌, ◌≤◌, ◌<◌}
use mathlib.Core.List.{[], ◌∷◌}
use mathlib.Core.Logic.{◌≢◌}
use mathlib.Core.Option.{some}
use mathlib.Core.Path.{◌≡◌, refl}
use native.Mathlib.Omega.{arith}
use example_docker_volume_pl.Common.Lists.{All}
use example_docker_volume_pl.Common.Text.{Str, Lacks}
use example_docker_volume_pl.Common.Number.{digit, scan, parse_uint, digits, decimal}

scan-digits : (fuel n : ℕ) (out : Str) → n < fuel → scan 10 (digits fuel n out) 0 ≡ scan 10 out n
unfolding scan digits digit
scan-digits zero n out h = elim h [ ]
scan-digits (suc fuel) n out h = ground (arith, scan-digits fuel (n / 10) ((b'0' + n % 10) ∷ out))

abbrev IsDigit : ℕ → Type 0
IsDigit c = (b'0' ≤ c) × (c ≤ b'9')

digits-All : (fuel n : ℕ) (out : Str) → All IsDigit out → All IsDigit (digits fuel n out)
unfolding digits
digits-All zero n out h = h
digits-All (suc fuel) n out h = ground (arith, digits-All fuel (n / 10) ((b'0' + n % 10) ∷ out))

Digits-Lacks : (b : ℕ) (s : Str) → b < b'0' → All IsDigit s → Lacks b s
Digits-Lacks b [] h d = tt
Digits-Lacks b (c ∷ s) h (d, ds) = (omega arith, Digits-Lacks b s h ds)

-- The digits hold none of the characters below them.
pub decimal-Lacks : (b n : ℕ) → b < b'0' → Lacks b (decimal n)
unfolding decimal
decimal-Lacks b n h = Digits-Lacks b (digits (suc n) n []) h (digits-All (suc n) n [] tt)

digits-ne-nil : (fuel n : ℕ) (c : ℕ) (out : Str) → digits fuel n (c ∷ out) ≢ []
unfolding digits
digits-ne-nil zero n c out = λ e. cc
digits-ne-nil (suc fuel) n c out =
    ground (arith, digits-ne-nil fuel (n / 10) (b'0' + n % 10) (c ∷ out))

pub decimal-ne-nil : (n : ℕ) → decimal n ≢ []
unfolding decimal digits
decimal-ne-nil n = ground (arith, digits-ne-nil n (n / 10) (b'0' + n % 10) [])

parse_uint-scan :
    (s : Str) (n bits : ℕ)
    → s ≢ []
    → scan 10 s 0 ≡ some n
    → n < 2 ^ bits
    → parse_uint 10 bits s ≡ some n
unfolding parse_uint
parse_uint-scan [] n bits ne h b = absurd (ne refl)
parse_uint-scan (c ∷ s) n bits ne h b = ground (arith, h)

pub parse_uint-decimal : (bits n : ℕ) → n < 2 ^ bits → parse_uint 10 bits (decimal n) ≡ some n
unfolding decimal scan
parse_uint-decimal bits n h =
    parse_uint-scan (decimal n) n bits (decimal-ne-nil n) (scan-digits (suc n) n [] (omega arith)) h
