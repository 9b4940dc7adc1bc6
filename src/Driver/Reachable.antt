-- ===== src/Driver/Reachable.antt =====
-- The states that the handlers lead to, in any order of requests, whatever each of them answers.
use example_docker_volume_pl.Common.{ℕ, ◌+◌, ◌<◌, ◌^◌, ◌≡◌, some}
use example_docker_volume_pl.Common.Text.{Str}
use example_docker_volume_pl.Common.Map.{Map, lookup}
use example_docker_volume_pl.Os.{Os}
use example_docker_volume_pl.Driver.{Volume, Library, Driver}
use example_docker_volume_pl.Driver.Handlers.{create, remove_volume}
use example_docker_volume_pl.Driver.Counts.{IsWell, mounted}
use example_docker_volume_pl.Driver.Counts.Sequences.{Request, handle, handle-Handled}
use example_docker_volume_pl.Driver.Volumes.Create.{create-Kept}
use example_docker_volume_pl.Driver.Volumes.Remove.{remove_volume-Kept}

module _ (os : Os) (lib : Library) (btime : ℕ) where
  open os use {World}

  -- One request: `Create`, `Remove`, or one that changes mounts, which must leave the counts within
  -- the range of an `int`. The requests that only read change nothing.
  pub data Step : Driver World → Driver World → Type 0 where
    create_step :
        (s : Driver World) (name : Str) (options : Map Str)
        → Step s (create os lib btime name options s).1
    remove_step : (s : Driver World) (name : Str) → Step s (remove_volume os lib btime name s).1
    mount_step :
        (s : Driver World) (r : Request)
        → ((n i : Str) → mounted s n i + 1 < 2 ^ 63)
        → Step s (handle os lib r s)

  pub data Reachable : Driver World → Driver World → Type 0 where
    start : (s : Driver World) → Reachable s s
    next : {s t u : Driver World} → Reachable s t → Step t u → Reachable s u

  Step-IsWell : {s t : Driver World} → Step s t → IsWell s → IsWell t
  Step-IsWell (create_step s name options) h = (create-Kept os lib btime s name options h).0
  Step-IsWell (remove_step s name) h = (remove_volume-Kept os lib btime s name h).0
  Step-IsWell (mount_step s r b) h = (handle-Handled os lib r s h b).0

  -- From a well-formed driver, any sequence of requests, those that fail included, as long as no
  -- count can leave the range of an `int`, leads to drivers that are well-formed, here stated of each
  -- with a volume that has a table of mounts; and two names with volumes there that have the same
  -- table are the same name.
  pub Reachable-IsWell :
      {s t : Driver World} (n m : Str) (v w : Volume) (a : ℕ)
      → IsWell s
      → Reachable s t
      → lookup n t.volumes ≡ some v
      → lookup m t.volumes ≡ some w
      → v.mounts ≡ some a
      → w.mounts ≡ some a
      → IsWell t × (n ≡ m)
  Reachable-IsWell {t} n m v w a h r e f p q =
      let k = every r h in (k, k.own_table n m v w a e f p q)
    where
      every : {s t : Driver World} → Reachable s t → IsWell s → IsWell t
      every (start s) h = h
      every (next r step) h = Step-IsWell step (every r h)
