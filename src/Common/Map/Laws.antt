-- ===== src/Common/Map/Laws.antt =====
-- Laws of maps, in the form that asks no side condition.
use mathlib.Core.Bool.{false}
use mathlib.Core.List.{[], ◌∷◌}
use mathlib.Core.Option.{none, some}
use mathlib.Core.Path.{◌≡◌, refl}
use native.Mathlib.Omega.{arith}
use example_docker_volume_pl.Common.Tests.{if◌then◌else◌}
use example_docker_volume_pl.Common.Text.{Str, str_eq, str_eq_iff, str_eq_sym}
use example_docker_volume_pl.Common.Map.{Map, lookup, insert, delete, IsFresh, IsMap}

module _ {ℓ} {V : Type ℓ} where
  pub lookup-insert :
      (k j : Str) (v : V) (m : Map V)
      → lookup j (insert k v m) ≡ (if str_eq k j then some v else lookup j m)
  unfolding lookup insert
  lookup-insert k j v [] = refl
  lookup-insert k j v ((i, w) ∷ m) =
      ground (arith, str_eq_iff k j, str_eq_iff i k, str_eq_iff i j, lookup-insert k j v m)

  pub lookup-delete :
      (k j : Str) (m : Map V) → lookup j (delete k m) ≡ (if str_eq k j then none else lookup j m)
  unfolding lookup delete
  lookup-delete k j [] = ground arith
  lookup-delete k j ((i, w) ∷ m) =
      ground (arith, str_eq_iff k j, str_eq_iff i k, str_eq_iff i j, lookup-delete k j m)

  insert-IsFresh :
      (k j : Str) (v : V) (m : Map V) → str_eq k j ≡ false → IsFresh j m → IsFresh j (insert k v m)
  unfolding insert
  insert-IsFresh k j v [] e f = (e, tt)
  insert-IsFresh k j v ((i, w) ∷ m) e f = ground (arith, insert-IsFresh k j v m)

  delete-IsFresh : (k j : Str) (m : Map V) → IsFresh j m → IsFresh j (delete k m)
  unfolding delete
  delete-IsFresh k j [] f = tt
  delete-IsFresh k j ((i, w) ∷ m) f = ground (arith, delete-IsFresh k j m)

  IsFresh-eq : (i j : Str) (m : Map V) → i ≡ j → IsFresh i m → IsFresh j m
  IsFresh-eq i j m e f = rw e at f

  pub insert-IsMap : (k : Str) (v : V) (m : Map V) → IsMap m → IsMap (insert k v m)
  unfolding insert
  insert-IsMap k v [] h = (tt, tt)
  insert-IsMap k v ((i, w) ∷ m) h = ground (
    arith,
    str_eq_iff i k,
    insert-IsMap k v m,
    insert-IsFresh k i v m,
    IsFresh-eq i k m,
    str_eq_sym i k,
  )

  pub delete-IsMap : (k : Str) (m : Map V) → IsMap m → IsMap (delete k m)
  unfolding delete
  delete-IsMap k [] h = tt
  delete-IsMap k ((i, w) ∷ m) h = ground (arith, delete-IsMap k m, delete-IsFresh k i m)

  pub lookup-IsFresh : (k : Str) (m : Map V) → IsFresh k m → lookup k m ≡ none
  unfolding lookup
  lookup-IsFresh k [] f = refl
  lookup-IsFresh k ((i, w) ∷ m) f = ground (arith, lookup-IsFresh k m)
