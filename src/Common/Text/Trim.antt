-- ===== src/Common/Text/Trim.antt =====
-- Laws of `trim_space`.
use example_docker_volume_pl.Common.Tests.{Bool-cases}
use example_docker_volume_pl.Common.Lists.{length}
use Prim.Native.Nat.{ℕ, ◌≤◌}
use mathlib.Core.Bool.{false}
use mathlib.Core.List.{[], ◌∷◌, ◌++◌, append_assoc}
use mathlib.Core.Logic.{inl, inr, ◌≢◌}
use mathlib.Core.Path.{◌≡◌, refl, ap}
use native.Mathlib.Omega.{arith}
use example_docker_volume_pl.Common.Text.{
  Str, IsTrim, is_space, trim_left, trim_right, trim_space, put_front, Lacks,
}

put_front-trim : (c : ℕ) (s : Str) → trim_right s ≡ s → trim_right (put_front c s) ≡ put_front c s
unfolding trim_right put_front
put_front-trim c [] e = ground arith
put_front-trim c (d ∷ s) e = ground arith

trim_right_idem : (s : Str) → trim_right (trim_right s) ≡ trim_right s
unfolding trim_right
trim_right_idem [] = refl
trim_right_idem (c ∷ s) = put_front-trim c (trim_right s) (trim_right_idem s)

length-trim_left : (s : Str) → length (trim_left s) ≤ length s
unfolding trim_left
length-trim_left [] = omega arith
length-trim_left (c ∷ s) = ground (arith, length-trim_left s)

-- A text that begins with white space is changed by trimming.
trim_left-space : (c : ℕ) (s : Str) → trim_left (c ∷ s) ≡ c ∷ s → is_space c ≡ false
unfolding trim_left
trim_left-space c s e = elim (Bool-cases (is_space c)) [
  | inl space ↦ absurd (omega (arith, ap length (rw space at e), length-trim_left s))
  | inr other ↦ other
]

trim_left-trim_right : (s : Str) → trim_left s ≡ s → trim_left (trim_right s) ≡ trim_right s
unfolding trim_left trim_right put_front
trim_left-trim_right [] e = refl
trim_left-trim_right (c ∷ s) e = ground (arith, trim_left-space c s e)

trim_left_idem : (s : Str) → trim_left (trim_left s) ≡ trim_left s
unfolding trim_left
trim_left_idem [] = refl
trim_left_idem (c ∷ s) = ground (arith, trim_left_idem s)

-- Trimming twice is trimming once.
pub trim_space_idem : (s : Str) → trim_space (trim_space s) ≡ trim_space s
unfolding trim_space
trim_space_idem s =
    rw (trim_left-trim_right (trim_left s) (trim_left_idem s)) (trim_right_idem (trim_left s))

trim_left-Lacks : (b : ℕ) (s : Str) → Lacks b s → Lacks b (trim_left s)
unfolding trim_left
trim_left-Lacks b [] h = tt
trim_left-Lacks b (c ∷ s) h = ground (arith, trim_left-Lacks b s)

trim_right-Lacks : (b : ℕ) (s : Str) → Lacks b s → Lacks b (trim_right s)
unfolding trim_right put_front
trim_right-Lacks b [] h = tt
trim_right-Lacks b (c ∷ s) h = ground (arith, trim_right-Lacks b s)

-- Trimming brings in no character.
pub trim_space-Lacks : (b : ℕ) (s : Str) → Lacks b s → Lacks b (trim_space s)
unfolding trim_space
trim_space-Lacks b s h = trim_right-Lacks b (trim_left s) (trim_left-Lacks b s h)

pub trim_space-IsTrim : (s : Str) → IsTrim (trim_space s)
unfolding trim_space
trim_space-IsTrim s =
    (trim_left-trim_right (trim_left s) (trim_left_idem s), trim_right_idem (trim_left s))

pub IsTrim-trim_space : (s : Str) → IsTrim s → trim_space s ≡ s
unfolding trim_space
IsTrim-trim_space s h = rw h.0 h.1

trim_left-append : (s t : Str) → s ≢ [] → trim_left s ≡ s → trim_left (s ++ t) ≡ s ++ t
unfolding trim_left
trim_left-append [] t ne e = absurd (ne refl)
trim_left-append (c ∷ s) t ne e = ground (arith, trim_left-space c s e)

trim_right-append : (s t : Str) → t ≢ [] → trim_right t ≡ t → trim_right (s ++ t) ≡ s ++ t
unfolding trim_right put_front
trim_right-append [] t ne e = e
trim_right-append (c ∷ s) [] ne e = absurd (ne refl)
trim_right-append (c ∷ []) (d ∷ t) ne e = rw e
trim_right-append (c ∷ x ∷ s) (d ∷ t) ne e = rw (trim_right-append (x ∷ s) (d ∷ t) ne e)

-- A text whose two ends are trimmed and not empty, whatever stands between them.
pub append-IsTrim : (s m t : Str) → s ≢ [] → t ≢ [] → IsTrim s → IsTrim t → IsTrim (s ++ (m ++ t))
append-IsTrim s m t ns nt hs ht = (
  trim_left-append s (m ++ t) ns hs.0,
  rw (← append_assoc s m t) (trim_right-append (s ++ m) t nt ht.1),
)

pub IsTrim-cons : (c : ℕ) → is_space c ≡ false → IsTrim (c ∷ [])
unfolding trim_left trim_right put_front
IsTrim-cons c h = ground arith
