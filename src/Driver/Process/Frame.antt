-- ===== src/Driver/Process/Frame.antt =====
-- What `SetupProcess` leaves alone.
use example_docker_volume_pl.Common.{
  ℕ, ◌≡◌, Bool, true, false, if◌then◌else◌, Option, none, some, List, [], Outcome, ok, arith,
}
use example_docker_volume_pl.Common.State.{◌>>=◌, fail_if}
use example_docker_volume_pl.Common.State.Laws.{Keeps, >>=-Keeps}
use example_docker_volume_pl.Common.Text.{Str, str_eq, trim_space}
use example_docker_volume_pl.Os.{Os, Cmd}
use example_docker_volume_pl.Mount.Options.{MountOption}
use example_docker_volume_pl.Proc.Options.{Options}
use example_docker_volume_pl.Driver.{Volume, Error, VolumeProcess}
use example_docker_volume_pl.Driver.Process.{
  Setup, use_command_option, use_mount_option, process_options, spawn, start_volume_process,
  start_if_none, keep_monitor, watch, take_process, watch_found, pick_up, setup_process,
}
use example_docker_volume_pl.Driver.VolumeOptions.{command_error}

-- The volume is the given one, but for its process and the cached mount point.
abbrev pub Same : Volume → Volume → Type 0
Same v w =
    (w.base_path ≡ v.base_path)
    × (w.path ≡ v.path)
    × (w.created_at ≡ v.created_at)
    × (w.mounts ≡ v.mounts)
    × (w.options ≡ v.options)

module _ (os : Os) (btime : ℕ) (mount_point : Volume → Str) (v : Volume) where
  open os use {World}

  abbrev I : Setup World → Type 0
  I s = Same v s.volume

  fail_if-I : (e : Option Error) → Keeps I (fail_if e)
  fail_if-I none s h = h
  fail_if-I (some e) s h = h

  use_command_option-I : (p : VolumeProcess) → Keeps I (use_command_option os btime mount_point p)
  unfolding use_command_option
  use_command_option-I p s h = ground arith

  use_mount_option-I : Keeps I (use_mount_option os btime mount_point)
  unfolding use_mount_option
  use_mount_option-I s h = ground arith

  process_options-I :
      (cmd : Cmd) (o : Option Options) (m : Option (Option (List MountOption)))
      → Keeps I (process_options os btime mount_point cmd o m)
  unfolding process_options
  process_options-I cmd o m s h = ground arith

  watch-I : (pid : ℕ) → Keeps I (watch os btime mount_point pid)
  unfolding watch keep_monitor
  watch-I pid s h = ground arith

  pick_up-I : Keeps I (pick_up os btime mount_point)
  unfolding pick_up take_process watch_found watch keep_monitor
  pick_up-I s h = ground arith

  spawn-I : (cmd : Cmd) → Keeps I (spawn os btime mount_point cmd)
  unfolding spawn
  spawn-I cmd s h = ground arith

  start_volume_process-I :
      (p : VolumeProcess) → Keeps I (start_volume_process os btime mount_point p)
  unfolding start_volume_process
  start_volume_process-I p =
      >>=-Keeps I (fail_if (command_error p.command))
        (λ _. use_command_option os btime mount_point p >>= λ o.
          use_mount_option os btime mount_point >>= λ m.
          process_options os btime mount_point p.command o m >>= spawn os btime mount_point)
        (fail_if-I (command_error p.command))
        (λ _.
          >>=-Keeps I (use_command_option os btime mount_point p)
            (λ o. use_mount_option os btime mount_point >>= λ m.
              process_options os btime mount_point p.command o m >>= spawn os btime mount_point)
            (use_command_option-I p)
            (λ o.
              >>=-Keeps I (use_mount_option os btime mount_point)
                (λ m.
                  process_options os btime mount_point p.command o m >>= spawn os btime mount_point)
                use_mount_option-I
                (λ m.
                  >>=-Keeps I (process_options os btime mount_point p.command o m)
                    (spawn os btime mount_point) (process_options-I p.command o m) spawn-I)))

  started :
      (s : Setup World) (o : Option VolumeProcess) (b : Bool)
      → I s
      → let r : Outcome Error (Unit {0}) × Setup World = elim o [
        | none ↦ (ok tt, s)
        | some p ↦ if b then start_volume_process os btime mount_point p s else (ok tt, s)
      ] in
        I r.1
  started s none b h = h
  started s (some p) true h = start_volume_process-I p s h
  started s (some p) false h = h

  start_if_none-I : Keeps I (start_if_none os btime mount_point)
  unfolding start_if_none
  start_if_none-I s h = started s s.outside.process (str_eq (trim_space s.volume.puid) []) h

  pub setup_process-I : Keeps I (setup_process os btime mount_point)
  unfolding setup_process
  setup_process-I =
      >>=-Keeps I (start_if_none os btime mount_point) (λ _. pick_up os btime mount_point)
        start_if_none-I (λ _. pick_up-I)
