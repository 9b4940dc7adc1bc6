-- ===== src/Driver/Start.antt =====
-- src/driver.go: `pluginDriver_NewWithVolumeProcess`, the start of the driver.
pub mod Steps
pub mod TakingOver
pub mod Loading
pub mod Restart
pub mod Ignoring
pub mod Unwatched
use example_docker_volume_pl.Common.{ℕ, [], ◌∷◌, ◌++◌, if◌then◌else◌, Outcome, ok, err, panic}
use example_docker_volume_pl.Common.State.{M, ◌>>=◌, ◌>>◌, return, raise, modify, of_outcome}
use example_docker_volume_pl.Common.Text.{Str, codes}
use example_docker_volume_pl.Common.Map.{Map}
use example_docker_volume_pl.Os.{Os, Stat}
use example_docker_volume_pl.Utils.{User, check_access}
use example_docker_volume_pl.Driver.{
  Volume, Error, system, access, no_directory, Library, Driver, on_world, demand, load, mount_point,
}
use example_docker_volume_pl.Driver.Handlers.{set_up, mounts_of}

abbrev pub control_file_name : Str
control_file_name = codes "volumes.json"

-- `utils.CheckAccess` once the user is known: what `Lstat` says of the path, and the rights. The
-- error of a path that is missing is ENOENT.
unfoldable pub access_to : User → ℕ → Stat → Outcome Error (Unit {0})
access_to user perm Stat.not_exist = err (system 2)
access_to user perm (Stat.unreadable e) = err (system e)
access_to user perm (Stat.found is_dir file) = elim (check_access user perm file) [
  | ok _ ↦ ok tt
  | err e ↦ err (access e)
  | panic ↦ panic
]

module _ (os : Os) (lib : Library) (btime : ℕ) where
  open os use {World, lstat, mkdir_all, open_file, current_user}
  open lib use {join_path}

  -- The folder of the volumes is made where it is missing.
  unfoldable pub ensure_folder : Str → M Error (Driver World) (Unit {0})
  ensure_folder path = do
    status ← on_world (lstat path)
    elim status [
      | Stat.not_exist ↦ demand (mkdir_all path)
      | Stat.unreadable e ↦ raise (system e)
      | Stat.found is_dir file ↦ if is_dir then return tt else raise (no_directory path)
    ]

  -- One round of the loop over the volumes.
  unfoldable pub take_over : Volume → M Error (Driver World) Volume
  take_over v = do
    current ← on_world current_user
    user ← of_outcome (elim current [ ok user ↦ ok user | err e ↦ err (system e) | panic ↦ panic ])
    status ← on_world (lstat (mount_point os lib v))
    of_outcome (access_to user 0o7 status)
    _ ← mounts_of v
    set_up os lib btime v

  -- The loop.
  unfoldable pub take_over_all : Map Volume → M Error (Driver World) (Map Volume)
  take_over_all [] s = (ok [], s)
  take_over_all ((name, v) ∷ volumes) s =
      let (r, t) = take_over (record v { mount_point = mount_point os lib v }) s in
      let (r', t') = take_over_all volumes t in
      elim r [
        | err e ↦ (err e, t)
        | panic ↦ (panic, t)
        | ok v' ↦ elim r' [
          | err e ↦ (err e, t')
          | panic ↦ (panic, t')
          | ok volumes' ↦ (ok ((name, v') ∷ volumes'), t')
        ]
      ]

  -- The function: from a driver without volumes to one with those of the control file.
  unfoldable pub new_driver : M Error (Driver World) (Unit {0})
  unfolding take_over_all
  new_driver = do
    λ s. ensure_folder s.propagated_mount s
    λ s. demand (open_file (join_path s.propagated_mount control_file_name)) s
    loaded ← load os lib
    modify (λ s. record s { tables = s.tables ++ loaded.1 })
    volumes ← take_over_all loaded.0
    modify (λ s. record s { volumes = volumes })
