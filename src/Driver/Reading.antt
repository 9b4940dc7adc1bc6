-- ===== src/Driver/Reading.antt =====
-- The requests that only read: `Get`, `Path` and `List`.
use example_docker_volume_pl.Common.{◌≡◌, refl, ap, some, List, [], ◌∷◌, map, All, ok}
use example_docker_volume_pl.Common.State.{return}
use example_docker_volume_pl.Common.State.Laws.{>>=-step}
use example_docker_volume_pl.Common.Text.{Str, str_eq_refl, str_eq_sym}
use example_docker_volume_pl.Common.Map.{Map, lookup, IsMap, IsFresh}
use example_docker_volume_pl.Os.{Os}
use example_docker_volume_pl.Driver.{Volume, Library, Driver, mount_point}
use example_docker_volume_pl.Driver.Handlers.{Answer, answer, find_volume, get, path, list}
use example_docker_volume_pl.Driver.Counts.Mount.{find_volume-some}

-- The entries of the second map are those of the first.
abbrev Within : Map Volume → Map Volume → Type 0
Within m = All (λ nv. lookup nv.0 m ≡ some nv.1)

Within-fresh :
    (k : Str) (v : Volume) (m n : Map Volume) → IsFresh k n → Within m n → Within ((k, v) ∷ m) n
unfolding lookup
Within-fresh k v m [] f h = tt
Within-fresh k v m ((j, w) ∷ n) (e, f) (p, h) = (rw (str_eq_sym k j, e) p, Within-fresh k v m n f h)

Within-self : (m : Map Volume) → IsMap m → Within m m
unfolding lookup
Within-self [] h = tt
Within-self ((k, v) ∷ m) (f, h) = (rw (str_eq_refl k), Within-fresh k v m m f (Within-self m h))

module _ (os : Os) (lib : Library) where
  open os use {World}

  -- What `Get` and `Path` answer to the name of an answer.
  abbrev pub IsAnswered : Driver World → Answer → Type 0
  IsAnswered s x = (get os lib x.name s ≡ (ok x, s)) × (path os lib x.name s ≡ (ok x.mountpoint, s))

  get-found :
      (s : Driver World) (name : Str) (v : Volume)
      → lookup name s.volumes ≡ some v
      → IsAnswered s (answer os lib name v)
  unfolding get path answer
  get-found s name v e = (
    >>=-step (find_volume name) (λ v. return (answer os lib name v)) (find_volume-some name s e),
    >>=-step (find_volume name) (λ v. return (mount_point os lib v)) (find_volume-some name s e),
  )

  answers :
      (s : Driver World) (m : Map Volume)
      → Within s.volumes m
      → All (IsAnswered s) (map (λ nv. answer os lib nv.0 nv.1) m)
  answers s [] h = tt
  answers s ((name, v) ∷ m) (e, h) = (get-found s name v e, answers s m h)

  answers-names :
      (m : Map Volume)
      → map (λ x. x.name) (map (λ nv. answer os lib nv.0 nv.1) m) ≡ map (λ nv. nv.0) m
  unfolding answer
  answers-names [] = refl
  answers-names (nv ∷ m) = ap (λ names. nv.0 ∷ names) (answers-names m)

  -- `List` succeeds and changes nothing; the names of its answers are those of the volumes, each once,
  -- and each answer is what `Get` answers to its name, with the mount point that `Path` answers, if no
  -- name stands twice.
  pub list-get :
      (s : Driver World)
      → IsMap s.volumes
      → (xs : List Answer) × (list os lib s ≡ (ok xs, s))
        × (map (λ x. x.name) xs ≡ map (λ nv. nv.0) s.volumes)
        × All (IsAnswered s) xs
  unfolding list
  list-get s h = (
    map (λ nv. answer os lib nv.0 nv.1) s.volumes,
    refl,
    answers-names s.volumes,
    answers s s.volumes (Within-self s.volumes h),
  )
