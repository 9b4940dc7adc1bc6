-- ===== src/Mount/Options/Keys.antt =====
-- The list of mount options as a map from keys to values, and what `Set` does to it.
use example_docker_volume_pl.Common.{
  ◌≡◌, refl, false, Option, none, some, List, [], ◌∷◌, arith, if◌then◌else◌,
}
use example_docker_volume_pl.Common.Text.{Str, str_eq, str_eq_iff, str_eq_sym}
use example_docker_volume_pl.Mount.Options.{
  MountOption, index_of, delete_at, remove_found, write_found, apply_option, deletion_mark,
}

abbrev pub Absent : Str → List MountOption → Type 0
Absent k [] = Unit {0}
Absent k (o ∷ os) = (str_eq o.key k ≡ false) × Absent k os

-- No key stands twice.
abbrev pub IsKeyed : List MountOption → Type 0
IsKeyed [] = Unit {0}
IsKeyed (o ∷ os) = Absent o.key os × IsKeyed os

-- The value of a key, if an option has it.
unfoldable pub value_of : Str → List MountOption → Option Str
value_of k [] = none
value_of k (o ∷ os) = if str_eq o.key k then some o.value else value_of k os

-- The two branches of a round, by recursion on the list.
upsert : MountOption → List MountOption → List MountOption
upsert opt [] = opt ∷ []
upsert opt (o ∷ os) = if str_eq o.key opt.key then opt ∷ os else o ∷ upsert opt os

remove : Str → List MountOption → List MountOption
remove k [] = []
remove k (o ∷ os) = if str_eq o.key k then os else o ∷ remove k os

upsert_lem :
    (opt : MountOption) (os : List MountOption)
    → write_found (index_of opt.key os) opt os ≡ upsert opt os
unfolding index_of delete_at upsert
upsert_lem opt [] = refl
upsert_lem opt (o ∷ os) = ground (arith, upsert_lem opt os)

remove_lem : (k : Str) (os : List MountOption) → remove_found (index_of k os) os ≡ remove k os
unfolding index_of delete_at remove
remove_lem k [] = refl
remove_lem k (o ∷ os) = ground (arith, remove_lem k os)

upsert-Absent :
    (k : Str) (opt : MountOption) (os : List MountOption)
    → str_eq opt.key k ≡ false
    → Absent k os
    → Absent k (upsert opt os)
unfolding upsert
upsert-Absent k opt [] e h = (e, tt)
upsert-Absent k opt (o ∷ os) e h = ground (arith, upsert-Absent k opt os)

remove-Absent : (k j : Str) (os : List MountOption) → Absent k os → Absent k (remove j os)
unfolding remove
remove-Absent k j [] h = tt
remove-Absent k j (o ∷ os) h = ground (arith, remove-Absent k j os)

Absent-eq : (k j : Str) (os : List MountOption) → k ≡ j → Absent k os → Absent j os
Absent-eq k j os e h = rw e at h

upsert-IsKeyed : (opt : MountOption) (os : List MountOption) → IsKeyed os → IsKeyed (upsert opt os)
unfolding upsert
upsert-IsKeyed opt [] h = (tt, tt)
upsert-IsKeyed opt (o ∷ os) h = ground (
  arith,
  upsert-IsKeyed opt os,
  upsert-Absent o.key opt os,
  str_eq_iff o.key opt.key,
  str_eq_sym o.key opt.key,
  Absent-eq o.key opt.key os,
)

remove-IsKeyed : (k : Str) (os : List MountOption) → IsKeyed os → IsKeyed (remove k os)
unfolding remove
remove-IsKeyed k [] h = tt
remove-IsKeyed k (o ∷ os) h = ground (arith, remove-IsKeyed k os, remove-Absent o.key k os)

pub value_of-Absent : (k : Str) (os : List MountOption) → Absent k os → value_of k os ≡ none
unfolding value_of
value_of-Absent k [] h = refl
value_of-Absent k (o ∷ os) h = ground (arith, value_of-Absent k os)

value_of-upsert :
    (k : Str) (opt : MountOption) (os : List MountOption)
    → value_of k (upsert opt os) ≡ (if str_eq opt.key k then some opt.value else value_of k os)
unfolding upsert value_of
value_of-upsert k opt [] = refl
value_of-upsert k opt (o ∷ os) = ground (
  arith,
  value_of-upsert k opt os,
  str_eq_iff opt.key k,
  str_eq_iff o.key k,
  str_eq_iff o.key opt.key,
)

value_of-remove :
    (k j : Str) (os : List MountOption)
    → IsKeyed os
    → value_of k (remove j os) ≡ (if str_eq j k then none else value_of k os)
unfolding remove value_of
value_of-remove k j [] h = ground arith
value_of-remove k j (o ∷ os) h = ground (
  arith,
  value_of-remove k j os,
  str_eq_iff j k,
  str_eq_iff o.key k,
  str_eq_iff o.key j,
  value_of-Absent o.key os,
)

-- What one option says of a key whose value is `old`: another key leaves it, the mark unsets it.
abbrev pub said : Str → MountOption → Option Str → Option Str
said k opt old =
    if str_eq opt.key k
    then if str_eq opt.value deletion_mark then none else some opt.value
    else old

pub value_of-apply_option :
    (k : Str) (opt : MountOption) (os : List MountOption)
    → IsKeyed os
    → value_of k (apply_option opt os) ≡ said k opt (value_of k os)
unfolding apply_option
value_of-apply_option k opt os h = ground (
  arith,
  upsert_lem opt os,
  remove_lem opt.key os,
  value_of-upsert k opt os,
  value_of-remove k opt.key os,
)

pub apply_option-IsKeyed :
    (opt : MountOption) (os : List MountOption) → IsKeyed os → IsKeyed (apply_option opt os)
unfolding apply_option
apply_option-IsKeyed opt os h = ground (
  arith,
  upsert_lem opt os,
  remove_lem opt.key os,
  upsert-IsKeyed opt os h,
  remove-IsKeyed opt.key os h,
)
