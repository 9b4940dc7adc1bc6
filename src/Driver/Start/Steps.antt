-- ===== src/Driver/Start/Steps.antt =====
-- The statements of `pluginDriver_NewWithVolumeProcess`, by name.
use example_docker_volume_pl.Common.{
  ℕ, List, [], ◌++◌, length, if◌then◌else◌, Outcome, ok, err, panic,
}
use example_docker_volume_pl.Common.State.{M, ◌>>=◌, ◌>>◌, return, raise, modify, of_outcome}
use example_docker_volume_pl.Common.Text.{Str, str_eq}
use example_docker_volume_pl.Common.Map.{Map}
use example_docker_volume_pl.Os.{Os, OsError, Stat}
use example_docker_volume_pl.Utils.{User}
use example_docker_volume_pl.Driver.{
  Volume, Library, Driver, Error, system, no_directory, with_json, on_world, demand, mount_point,
  unpack,
}
use example_docker_volume_pl.Driver.Handlers.{set_up, mounts_of}
use example_docker_volume_pl.Driver.Start.{access_to, take_over_all, control_file_name}

abbrev pub user_of : Outcome OsError User → Outcome Error User
user_of current = elim current [ ok user ↦ ok user | err e ↦ err (system e) | panic ↦ panic ]

module _ (os : Os) (lib : Library) (btime : ℕ) where
  open os use {World, lstat, mkdir_all, open_file}
  open lib use {join_path, unmarshal}

  abbrev pub answered : Str → Stat → M Error (Driver World) (Unit {0})
  answered path status = elim status [
    | Stat.not_exist ↦ demand (mkdir_all path)
    | Stat.unreadable e ↦ raise (system e)
    | Stat.found is_dir file ↦ if is_dir then return tt else raise (no_directory path)
  ]

  abbrev pub open_control : M Error (Driver World) (Unit {0})
  open_control s = demand (open_file (join_path s.propagated_mount control_file_name)) s

  abbrev pub parsed : M Error (Driver World) (Map Volume × List (Map ℕ))
  parsed s = if str_eq s.file [] then (ok ([], []), s) else elim (with_json (unmarshal s.file)) [
    | ok saved ↦ (ok (unpack os lib (length s.tables) saved), s)
    | err e ↦ (err e, s)
    | panic ↦ (panic, s)
  ]

  abbrev pub then_set_up : Volume → M Error (Driver World) Volume
  then_set_up v = mounts_of v >>= λ _. set_up os lib btime v

  abbrev pub then_access : Volume → User → M Error (Driver World) Volume
  then_access v user = on_world (lstat (mount_point os lib v)) >>= λ status.
      of_outcome (access_to user 0o7 status) >> then_set_up v

  abbrev pub with_tables : List (Map ℕ) → M Error (Driver World) (Unit {0})
  with_tables more = modify (λ s. record s { tables = s.tables ++ more })

  abbrev pub with_volumes : Map Volume → M Error (Driver World) (Unit {0})
  with_volumes volumes = modify (λ s. record s { volumes = volumes })

  abbrev pub rest_of : Map Volume × List (Map ℕ) → M Error (Driver World) (Unit {0})
  rest_of loaded = with_tables loaded.1 >> (take_over_all os lib btime loaded.0 >>= with_volumes)
