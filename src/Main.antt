-- ===== src/Main.antt =====
-- src/main.go: the two closures that give the driver its volume process. The flags, the checks, the
-- entry point and the attributes of log messages are in the modules below.
pub mod Flags
pub mod Parsing
pub mod Params
pub mod Entry
pub mod Checks
pub mod Exit
pub mod Log
use example_docker_volume_pl.Common.{
  false, Option, none, some, List, [], ◌∷◌, ◌++◌, ltb, if◌then◌else◌, ok,
}
use example_docker_volume_pl.Common.Text.{Str, codes, str_eq, trim_space, replace_all}
use example_docker_volume_pl.Utils.{select}
use example_docker_volume_pl.Mount.Options.{MountOption}
use example_docker_volume_pl.Mount.Options as MountOptions
use example_docker_volume_pl.Proc.Options.{Options, slice}
use example_docker_volume_pl.Proc.Options as CommandOptions
use example_docker_volume_pl.Driver.{VolumeProcess, Processing}

abbrev pub mount_point_placeholder : Str
mount_point_placeholder = codes "{mountPoint}"

-- `GetVolumeProcess`: a new `exec.Command` each time, and the two objects of the plugin.
unfoldable pub volume_process : Str → Options → Option (List MountOption) → VolumeProcess
volume_process binary_path options mount_options = record {
  command = record {
    path = binary_path;
    args = binary_path ∷ [];
    has_context = false;
    has_files = false;
    has_process = false;
  };
  options = some options;
  mount_options = some mount_options;
}

-- The arguments from the command line options, with the mount point in its places.
unfoldable pub command_arguments : Option Options → Str → List Str
command_arguments none mount_point = []
command_arguments (some o) mount_point =
    if ltb 0 (CommandOptions.options_len o)
    then select (slice o) (λ str. replace_all str mount_point_placeholder mount_point)
    else []

-- The arguments from the mount options, behind the option that announces them.
unfoldable pub mount_arguments : Str → Option (Option (List MountOption)) → List Str
mount_arguments announcement none = []
mount_arguments announcement (some m) =
    if ltb 0 (MountOptions.options_len m)
    then (if str_eq (trim_space announcement) [] then [] else trim_space announcement ∷ [])
      ++ MountOptions.options_string m ∷ []
    else []

-- `SetVolumeProcessOptions`; the argument is the flag `mount-options-volume-process-option`.
unfoldable pub set_volume_process_options : Str → Processing
set_volume_process_options announcement cmd o m mount_point = ok (record cmd {
  args = cmd.args ++ (command_arguments o mount_point ++ mount_arguments announcement m);
})
