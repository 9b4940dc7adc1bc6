-- ===== src/Common/Map.antt =====
-- A Go map with string keys, as an association list. The order of the list is one order in which
-- `range` may visit the map.
pub mod Laws
use mathlib.Core.Bool.{Bool, true, false}
use mathlib.Core.List.{List, [], ◌∷◌, ◌++◌}
use mathlib.Core.Option.{Option, none, some}
use mathlib.Core.Path.{◌≡◌}
use example_docker_volume_pl.Common.Tests.{if◌then◌else◌}
use example_docker_volume_pl.Common.Text.{Str, str_eq}

abbrev pub Map {ℓ} : Type ℓ → Type ℓ
Map V = List (Str × V)

module _ {ℓ} {V : Type ℓ} where
  unfoldable pub lookup : Str → Map V → Option V
  lookup k [] = none
  lookup k ((j, v) ∷ m) = if str_eq j k then some v else lookup k m

  -- `m[k] = v`
  unfoldable pub insert : Str → V → Map V → Map V
  insert k v [] = (k, v) ∷ []
  insert k v ((j, w) ∷ m) = if str_eq j k then (k, v) ∷ m else (j, w) ∷ insert k v m

  -- `delete(m, k)`
  unfoldable pub delete : Str → Map V → Map V
  delete k [] = []
  delete k ((j, w) ∷ m) = if str_eq j k then delete k m else (j, w) ∷ delete k m

  -- No key stands twice.
  abbrev pub IsFresh : Str → Map V → Type 0
  IsFresh k [] = Unit {0}
  IsFresh k ((j, w) ∷ m) = (str_eq j k ≡ false) × IsFresh k m

  abbrev pub IsMap : Map V → Type 0
  IsMap [] = Unit {0}
  IsMap ((j, w) ∷ m) = IsFresh j m × IsMap m
