-- ===== src/Main/Entry.antt =====
-- src/main.go: `entryPoint`, from the arguments to the exit code.
use example_docker_volume_pl.Common.{
  ℕ, ◌*◌, Bool, true, false, Option, none, some, List, [], ◌∷◌, if◌then◌else◌, Outcome, ok, err,
  panic,
}
use example_docker_volume_pl.Common.Number.Signed.{parse_int}
use example_docker_volume_pl.Common.Text.{Str, str_eq, trim_space}
use example_docker_volume_pl.Os.{Os, OsError}
use example_docker_volume_pl.Proc.Recovery.{RecoveryMode, ignore, recovery_mode_parse}
use example_docker_volume_pl.Driver.{Library, Driver}
use example_docker_volume_pl.Driver.Start.{new_driver}
use example_docker_volume_pl.Main.{volume_process, set_volume_process_options}
use example_docker_volume_pl.Main.Flags.{Settings, Environment, from_environment}
use example_docker_volume_pl.Main.Parsing.{parse_args}
use example_docker_volume_pl.Main.Params.{param_errors, invalid_recovery_mode}

abbrev pub exit_code_ok : ℕ
exit_code_ok = 0

abbrev pub exit_code_error : ℕ
exit_code_error = 1

abbrev pub exit_code_usage : ℕ
exit_code_usage = 2

abbrev pub exit_code_param : ℕ
exit_code_param = 3

-- What the runtime exits with on a panic.
abbrev pub exit_code_panic : ℕ
exit_code_panic = 2

abbrev pub exit_code_help : ℕ
exit_code_help = 127

-- What the program asks of the world beyond the driver: `exec.LookPath`, `user.Lookup("root")` with
-- its group, `debug.ReadBuildInfo`, and `ServeUnix` of the plugin framework with what it leaves.
pub record Host (W : Type 0) : Type 0 where
  pub look_path : Str → W → Outcome OsError Str × W
  pub root_group : W → Outcome OsError Str × W
  pub has_build_info : Bool
  pub serve : ℕ → Driver W → Option OsError × Driver W

-- Where the program has ended, and its exit code: before it has a driver, or with one.
pub data Ended (W : Type 0) : Type 0 where
  early : ℕ → W → Ended W
  late : ℕ → Driver W → Ended W

module _ (os : Os) (lib : Library) (btime : ℕ) (host : Host (os.World)) where
  open os use {World, lstat}
  open host use {look_path, root_group, has_build_info, serve}

  -- The driver that `pluginDriver_New` begins with; `file` is the content of the control file.
  unfoldable pub initial : Settings → Str → World → Driver World
  initial s file w = record {
    propagated_mount = s.propagated_mount;
    volumes = [];
    tables = [];
    file = file;
    outside = record {
      world = w;
      process = none;
      processing = none;
      monitors = [];
      restarting = λ _. false;
      recovery_mode = ignore;
      rate_limit = none;
    };
  }

  -- `GetVolumeProcess` and `SetVolumeProcessOptions`, if a binary is given; false is an error of
  -- `LookPath`.
  unfoldable pub with_process : Settings → Driver World → Bool × Driver World
  unfolding trim_space str_eq
  with_process s d =
      if str_eq (trim_space s.volume_process_binary) []
      then (true, d)
      else (let (found, w) = look_path s.volume_process_binary d.outside.world in
          let d' = record d { outside = record d.outside { world = w } } in
          elim found [
            | err _ ↦ (false, d')
            | panic ↦ (false, d')
            | ok binary_path ↦ (
              true,
              record d' {
                outside = record d'.outside {
                  process =
                      some (volume_process binary_path s.volume_process_options s.mount_options);
                  processing = some (set_volume_process_options s.announcement);
                };
              },
            )
          ])

  -- The recovery mode and its limit, a minute long.
  unfoldable pub with_recovery : RecoveryMode → Settings → Driver World → Driver World
  with_recovery mode s d = record d {
    outside = record d.outside {
      recovery_mode = mode;
      rate_limit = some (record { limit = s.recovery_max_per_min; duration = 60 * 1000000000 });
    };
  }

  -- What follows the driver: the group of root, and serving.
  unfoldable pub run : Driver World → Ended World
  unfolding parse_int
  run d =
      let (group, w) = root_group d.outside.world in
      let d' = record d { outside = record d.outside { world = w } } in
      elim group [
        | err _ ↦ late exit_code_error d'
        | panic ↦ late exit_code_panic d'
        | ok text ↦ elim (parse_int text) [
          | none ↦ late exit_code_error d'
          | some gid ↦
              let (failed, d'') = serve gid d' in
              elim failed [ none ↦ late exit_code_ok d'' | some e ↦ late exit_code_error d'' ]
        ]
      ]

  -- From the checked settings on. The driver is made before its volume process is set.
  unfoldable pub start : RecoveryMode → Settings → Driver World → Ended World
  unfolding new_driver with_process with_recovery run
  start mode s d =
      let (r, d') = new_driver os lib btime d in
      let (found, d'') = with_process s d' in
      elim r [
        | err _ ↦ late exit_code_error d'
        | panic ↦ late exit_code_panic d'
        | ok _ ↦ elim found [
          | false ↦ late exit_code_error d''
          | true ↦ run (with_recovery mode s d'')
        ]
      ]

  -- The checks, and then the driver.
  unfoldable pub checked : List (RecoveryMode × Str) → Str → Settings → World → Ended World
  unfolding param_errors start initial
  checked visited file s w =
      let (status, w') = lstat s.propagated_mount w in
      elim (param_errors visited status s) [
        | e ∷ es ↦ early exit_code_param w'
        | [] ↦
            start (recovery_mode_parse visited s.recovery_mode invalid_recovery_mode) s
              (initial s file w')
      ]

  -- The options that only print, and the rest.
  unfoldable pub after_parsing : List (RecoveryMode × Str) → Str → Settings → World → Ended World
  unfolding checked
  after_parsing visited file s w = elim s.show_help [
    | true ↦ early exit_code_help w
    | false ↦ elim s.show_version [
      | true ↦ early exit_code_ok w
      | false ↦ elim s.show_build_info [
        | true ↦ early (if has_build_info then exit_code_ok else exit_code_error) w
        | false ↦ checked visited file s w
      ]
    ]
  ]

  -- `entryPoint`; `file` is what the control file holds.
  unfoldable pub entry_point :
      Environment → List (RecoveryMode × Str) → Str → List Str → World → Ended World
  unfolding from_environment parse_args after_parsing
  entry_point env visited file args w = elim (from_environment env) [
    | none ↦ early exit_code_error w
    | some defaults ↦ elim (parse_args args defaults) [
      | none ↦ early exit_code_usage w
      | some s ↦ after_parsing visited file s w
    ]
  ]
