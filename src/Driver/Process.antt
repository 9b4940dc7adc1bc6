-- ===== src/Driver/Process.antt =====
-- src/driver.go: `SetupProcess`, the process of a volume.
pub mod Frame
pub mod SettingUp
pub mod Sharing
use example_docker_volume_pl.Common.{
  ℕ, ◌+◌, ◌*◌, true, Option, none, some, List, [], ltb, if◌then◌else◌, Outcome, ok, err, panic,
}
use example_docker_volume_pl.Common.State.{M, ◌>>=◌, ◌>>◌, fail_if, modify, of_outcome}
use example_docker_volume_pl.Common.Text.{Str, str_eq, codes, trim_space}
use example_docker_volume_pl.Common.Map.{lookup, insert}
use example_docker_volume_pl.Os.{Os, OsError, Cmd}
use example_docker_volume_pl.Mount.Options.{MountOption}
use example_docker_volume_pl.Mount.Options as MountOptions
use example_docker_volume_pl.Proc.Options.{Options, new_options}
use example_docker_volume_pl.Proc.Options as CommandOptions
use example_docker_volume_pl.Proc.Info.{ProcessInfo, unique_id}
use example_docker_volume_pl.Proc.Info as Info
use example_docker_volume_pl.Proc.Query.{
  get_process_info_with_timeout, get_process_info_from_unique_id,
}
use example_docker_volume_pl.Proc.Monitor.{ProcessMonitor, monitor_process, second}
use example_docker_volume_pl.Proc.Monitor as Monitor
use example_docker_volume_pl.Driver.{
  Volume, Error, system, uses_context, uses_files, already_started, command_options, mount_options,
  no_processing, processing, query, VolumeProcess, Outside,
}
use example_docker_volume_pl.Driver.VolumeOptions.{
  process_options_separator, command_error, set_command, set_mount, apply_volume_option,
  volume_option, keep_shared, count_options,
}

-- The receiver, and what the function reaches outside it.
pub record Setup (W : Type 0) : Type 0 where
  pub volume : Volume
  pub outside : Outside W

module _ (os : Os) (btime : ℕ) (mount_point : Volume → Str) where
  open os use {World, start_process, release, find_process}

  abbrev on_world : {A : Type 0} → (World → A × World) → M Error (Setup World) A
  on_world f s =
      let (a, w) = f s.outside.world in
      (ok a, record s { outside = record s.outside { world = w } })

  -- The option `c` of the volume goes into the command options.
  unfoldable pub use_command_option : VolumeProcess → M Error (Setup World) (Option Options)
  use_command_option p s =
      elim (apply_volume_option (volume_option (codes "c") s.volume) set_command p.options) [
        | ok o ↦ (
          ok o,
          record s {
            outside = record s.outside {
              process = some (record p { options = keep_shared p.options o });
            };
          },
        )
        | err e ↦ (err e, s)
        | panic ↦ (panic, s)
      ]

  -- The option `o` goes into the mount options; the process is read again, as it has changed.
  unfoldable pub use_mount_option : M Error (Setup World) (Option (Option (List MountOption)))
  use_mount_option s = elim s.outside.process [
    | none ↦ (ok none, s)
    | some p ↦
        elim (apply_volume_option (volume_option (codes "o") s.volume) set_mount p.mount_options) [
          | ok o ↦ (
            ok o,
            record s {
              outside = record s.outside {
                process = some (record p { mount_options = keep_shared p.mount_options o });
              };
            },
          )
          | err e ↦ (err e, s)
          | panic ↦ (panic, s)
        ]
  ]

  -- `SetVolumeProcessOptions` is called where there are options; `MountPoint` caches its text.
  unfoldable pub process_options :
      Cmd → Option Options → Option (Option (List MountOption)) → M Error (Setup World) Cmd
  process_options cmd o m s =
      if ltb 0 (count_options o m)
      then elim s.outside.processing [
        | none ↦ (err (no_processing (count_options o m)), s)
        | some f ↦
            let v = record s.volume { mount_point = mount_point s.volume } in
            (
              (elim (f cmd o m v.mount_point) [
                | ok cmd' ↦ ok cmd'
                | err e ↦ err (processing e)
                | panic ↦ panic
              ]),
              record s { volume = v },
            )
      ]
      else (ok cmd, s)

  -- The process is started and looked up, and its unique id goes into the volume.
  unfoldable pub spawn : Cmd → M Error (Setup World) (Unit {0})
  spawn cmd = do
    started ← on_world (start_process cmd.path cmd.args)
    pid ← of_outcome (elim started [ ok pid ↦ ok pid | err e ↦ err (system e) | panic ↦ panic ])
    failed ← on_world (release pid)
    fail_if (elim failed [ none ↦ none | some e ↦ some (system e) ])
    result ← on_world (get_process_info_with_timeout os btime (5 * second) second pid)
    prc ← of_outcome (elim result [ ok prc ↦ ok prc | err e ↦ err (query e) | panic ↦ panic ])
    modify (λ s. record s { volume = record s.volume { puid = unique_id prc } })

  -- The first half of `SetupProcess`, for a volume without a process.
  unfoldable pub start_volume_process : VolumeProcess → M Error (Setup World) (Unit {0})
  start_volume_process p = do
    fail_if (command_error p.command)
    o ← use_command_option p
    m ← use_mount_option
    cmd ← process_options p.command o m
    spawn cmd

  unfoldable pub start_if_none : M Error (Setup World) (Unit {0})
  start_if_none s = elim s.outside.process [
    | none ↦ (ok tt, s)
    | some p ↦ if str_eq (trim_space s.volume.puid) [] then start_volume_process p s else (ok tt, s)
  ]

  abbrev pub with_world : World → Setup World → Setup World
  with_world w s = record s { outside = record s.outside { world = w } }

  -- The new monitor is kept under the unique id; what goes wrong is a warning.
  unfoldable pub keep_monitor :
      Outcome Monitor.Error ProcessMonitor → M Error (Setup World) (Unit {0})
  keep_monitor (err e) s = (ok tt, s)
  keep_monitor panic s = (panic, s)
  keep_monitor (ok m) s = (
    ok tt,
    record s {
      outside = record s.outside { monitors = insert s.volume.puid m s.outside.monitors };
    },
  )

  -- A monitor for a process that has none yet.
  unfoldable pub watch : ℕ → M Error (Setup World) (Unit {0})
  unfolding keep_monitor
  watch pid s = elim (lookup s.volume.puid s.outside.monitors) [
    | some _ ↦ (ok tt, s)
    | none ↦
        let (r, w) =
          monitor_process os btime pid s.outside.recovery_mode s.outside.rate_limit
            s.outside.world in
        keep_monitor r (with_world w s)
  ]

  unfoldable pub watch_found : Option OsError → ℕ → M Error (Setup World) (Unit {0})
  unfolding watch
  watch_found none pid s = watch pid s
  watch_found (some e) pid s = (ok tt, s)

  -- What the unique id has led to. An id that is not valid is a warning, too.
  unfoldable pub take_process : Outcome Info.Error ProcessInfo → M Error (Setup World) (Unit {0})
  unfolding watch_found
  take_process (err e) s = (ok tt, s)
  take_process panic s = (panic, s)
  take_process (ok prc) s =
      let (failed, w) = find_process prc.pid s.outside.world in
      watch_found failed prc.pid (with_world w s)

  -- The second half: the process that the unique id names is picked up.
  unfoldable pub pick_up : M Error (Setup World) (Unit {0})
  unfolding take_process
  pick_up s =
      if str_eq (trim_space s.volume.puid) []
      then (ok tt, s)
      else let (r, w) = get_process_info_from_unique_id os btime s.volume.puid s.outside.world in
        take_process r (with_world w s)

  -- `SetupProcess`
  unfoldable pub setup_process : M Error (Setup World) (Unit {0})
  setup_process = do start_if_none; pick_up
