-- ===== src/Common/Text/Split.antt =====
-- Laws of `split`, `split_two` and `join`.
use Prim.Native.Nat.{ℕ, zero}
use example_docker_volume_pl.Common.Lists.{All}
use mathlib.Core.List.{List, [], ◌∷◌, ◌++◌, cons-ne-nil}
use mathlib.Core.Logic.{◌≢◌}
use mathlib.Core.Option.{none, some}
use mathlib.Core.Path.{◌≡◌, refl, ap}
use native.Mathlib.Omega.{arith}
use example_docker_volume_pl.Common.Text.{Str, push_first, split_go, split, split_two, join, Lacks}

-- A part without the separator stands whole in front of what follows.
split_go-part : (b : ℕ) (p : Str) → Lacks b p → split_go (b ∷ []) zero p ≡ p ∷ []
unfolding split_go
split_go-part b [] h = refl
split_go-part b (c ∷ p) h = ground (arith, split_go-part b p)

split_go-part_sep :
    (b : ℕ) (p rest : Str)
    → Lacks b p
    → split_go (b ∷ []) zero (p ++ b ∷ rest) ≡ p ∷ split_go (b ∷ []) zero rest
unfolding split_go
split_go-part_sep b [] rest h = ground arith
split_go-part_sep b (c ∷ p) rest h = ground (arith, split_go-part_sep b p rest)

-- Splitting a join gives the parts back, if there is a part and none holds the separator.
pub split-join :
    (b : ℕ) (ps : List Str) → ps ≢ [] → All (Lacks b) ps → split (join ps (b ∷ [])) (b ∷ []) ≡ ps
unfolding split join
split-join b [] h _ = absurd (h refl)
split-join b (p ∷ []) h (hp, _) = split_go-part b p hp
split-join b (p ∷ q ∷ ps) h (hp, hq) =
    rw (split_go-part_sep b p (join (q ∷ ps) (b ∷ [])) hp)
      (ap (◌∷◌ p) (split-join b (q ∷ ps) (cons-ne-nil q ps) hq))

push_first-Lacks :
    (b c : ℕ) (ps : List Str) → c ≢ b → All (Lacks b) ps → All (Lacks b) (push_first c ps)
push_first-Lacks b c [] h _ = ((h, tt), tt)
push_first-Lacks b c (p ∷ ps) h (hp, hps) = ((h, hp), hps)

-- Each part of a split lacks the separator.
pub split-Lacks : (b : ℕ) (s : Str) → All (Lacks b) (split s (b ∷ []))
unfolding split split_go
split-Lacks b [] = (tt, tt)
split-Lacks b (c ∷ s) =
    ground (arith, split-Lacks b s, push_first-Lacks b c (split_go (b ∷ []) zero s))

pub split_two-part : (b : ℕ) (p : Str) → Lacks b p → split_two b p ≡ (p, none)
unfolding split_two
split_two-part b [] h = refl
split_two-part b (c ∷ p) h = ground (arith, split_two-part b p)

pub split_two-part_sep :
    (b : ℕ) (p rest : Str) → Lacks b p → split_two b (p ++ b ∷ rest) ≡ (p, some rest)
unfolding split_two
split_two-part_sep b [] rest h = ground arith
split_two-part_sep b (c ∷ p) rest h = ground (arith, split_two-part_sep b p rest)
