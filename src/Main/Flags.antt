-- ===== src/Main/Flags.antt =====
-- src/main.go: the settings of the plugin, from the environment and the command line.
use example_docker_volume_pl.Common.{
  ℕ, Bool, true, false, Option, none, some, List, [], ◌∷◌, if◌then◌else◌, ok, err, panic,
}
use example_docker_volume_pl.Common.Options.{◌>>=◌}
use example_docker_volume_pl.Common.Text.{
  Str, codes, str_eq, trim_space, to_upper, replace_all, contains,
}
use example_docker_volume_pl.Common.Number.{parse_uint}
use example_docker_volume_pl.Mount.Options.{MountOption}
use example_docker_volume_pl.Mount.Options as MountOptions
use example_docker_volume_pl.Proc.Options.{Options, new_options}
use example_docker_volume_pl.Proc.Options as CommandOptions

-- `os.LookupEnv`
abbrev pub Environment : Type 0
Environment = Str → Option Str

-- `os_LookupEnv`
unfoldable pub lookup_env : Environment → Str → Option Str
unfolding to_upper replace_all
lookup_env env key = env (to_upper (replace_all key (codes "-") (codes "_")))

-- `strconv.ParseBool`
unfoldable pub parse_bool : Str → Option Bool
unfolding contains
parse_bool str =
    if contains
      (codes "1" ∷ codes "t" ∷ codes "T" ∷ codes "true" ∷ codes "TRUE" ∷ codes "True" ∷ []) str
    then some true
    else if contains
        (codes "0" ∷ codes "f" ∷ codes "F" ∷ codes "false" ∷ codes "FALSE" ∷ codes "False" ∷ []) str
    then some false
    else none

-- `flags_String`, `flags_Bool` and `flags_Uint`: the value before the command line is read.
unfoldable pub flags_string : Environment → Str → Str → Str
unfolding lookup_env
flags_string env name value = elim (lookup_env env name) [ none ↦ value | some e ↦ e ]

unfoldable pub flags_bool : Environment → Str → Bool → Bool
unfolding lookup_env parse_bool
flags_bool env name value = elim (lookup_env env name) [
  | none ↦ value
  | some e ↦ elim (parse_bool e) [ none ↦ value | some b ↦ b ]
]

unfoldable pub flags_uint : Environment → Str → ℕ → ℕ
unfolding lookup_env parse_uint
flags_uint env name value = elim (lookup_env env name) [
  | none ↦ value
  | some e ↦ elim (parse_uint 10 32 e) [ none ↦ value | some b ↦ b ]
]

-- The variables of `entryPoint` that the flags point to.
pub record Settings : Type 0 where
  pub show_help : Bool
  pub show_version : Bool
  pub show_build_info : Bool
  pub log_level : Str
  pub log_source : Bool
  pub propagated_mount : Str
  pub volume_process_binary : Str
  pub recovery_mode : Str
  pub recovery_max_per_min : ℕ
  pub volume_process_options : Options
  pub announcement : Str
  pub mount_options : Option (List MountOption)

-- The command line options that the environment gives, or the mount point alone.
abbrev pub volume_process_options_env : Environment → Str
volume_process_options_env env = elim (lookup_env env (codes "VOLUME_PROCESS_OPTIONS")) [
  | none ↦ codes "{mountPoint}"
  | some e ↦ if str_eq (trim_space e) [] then codes "{mountPoint}" else e
]

-- What is set before the command line is read; `none` where an option of the environment cannot be
-- set, which ends the program.
abbrev pub mount_options_env : Environment → Option (Option (List MountOption))
mount_options_env env = elim (lookup_env env (codes "MOUNT_OPTIONS")) [
  | none ↦ some (some [])
  | some e ↦ elim (MountOptions.set_options (some []) e) [
    | ok os ↦ some (some os)
    | err _ ↦ none
    | panic ↦ none
  ]
]

abbrev pub command_options_env : Environment → Option Options
command_options_env env =
    elim (CommandOptions.set_options (new_options (codes "&") true)
      (volume_process_options_env env)) [ ok o ↦ some o | err _ ↦ none | panic ↦ none ]

unfoldable pub from_environment : Environment → Option Settings
unfolding flags_string flags_bool flags_uint
from_environment env = do
  command_options ← command_options_env env
  mount_options ← mount_options_env env
  some (record {
    show_help = false;
    show_version = false;
    show_build_info = false;
    log_level = flags_string env (codes "log-level") (codes "info");
    log_source = flags_bool env (codes "log-source") false;
    propagated_mount = flags_string env (codes "propagated-mount") (codes "/data");
    volume_process_binary = flags_string env (codes "volume-process-binary") [];
    recovery_mode = flags_string env (codes "volume-process-recovery-mode") (codes "ignore");
    recovery_max_per_min = flags_uint env (codes "volume-process-recovery-max-per-min") 3;
    volume_process_options = command_options;
    announcement = flags_string env (codes "mount-options-volume-process-option") [];
    mount_options = mount_options;
  })
