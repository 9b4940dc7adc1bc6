-- ===== src/Driver/Start/Ignoring.antt =====
-- The monitors of the volumes that are loaded do not know the recovery mode of the command line.
use example_docker_volume_pl.Common.{
  ap, All, ℕ, ◌≡◌, ◌∙◌, Option, none, some, [], ◌∷◌, if◌then◌else◌, Outcome, ok, err, panic, arith,
}
use example_docker_volume_pl.Common.State.Laws.{Keeps, >>=-Keeps, IfOk}
use example_docker_volume_pl.Common.Text.{Str, str_eq, trim_space}
use example_docker_volume_pl.Common.Map.{Map, insert}
use example_docker_volume_pl.Os.{Os, OsError}
use example_docker_volume_pl.Proc.Query.{get_process_info_from_unique_id}
use example_docker_volume_pl.Proc.Info.{ProcessInfo}
use example_docker_volume_pl.Proc.Info as Info
use example_docker_volume_pl.Proc.Recovery.{ignore, to_int}
use example_docker_volume_pl.Proc.Monitor.{
  ProcessMonitor, monitor_process, check_end, stop, Verdict, stops,
}
use example_docker_volume_pl.Proc.Monitor as Monitor
use example_docker_volume_pl.Proc.Monitor.Making.{IsMade, monitor_process-IsMade}
use example_docker_volume_pl.Driver.{Volume, Outside, VolumeProcess, Error}
use example_docker_volume_pl.Driver.Process.{
  Setup, start_if_none, with_world, keep_monitor, watch, watch_found, take_process, pick_up,
  setup_process, start_volume_process,
}

-- Every monitor leaves its process where it ends.
abbrev pub AllIgnore : Map ProcessMonitor → Type 0
AllIgnore [] = Unit {0}
AllIgnore ((_, m) ∷ monitors) = (m.recovery_mode ≡ ignore) × AllIgnore monitors

insert-AllIgnore :
    (k : Str) (m : ProcessMonitor) (monitors : Map ProcessMonitor)
    → m.recovery_mode ≡ ignore
    → AllIgnore monitors
    → AllIgnore (insert k m monitors)
unfolding insert
insert-AllIgnore k m [] h a = (h, tt)
insert-AllIgnore k m ((j, w) ∷ monitors) h (a, as') = ground (arith, insert-AllIgnore k m monitors)

-- No process is set, the mode is the first one, and so is that of all monitors.
abbrev pub Ignores : {W : Type 0} → Outside W → Type 0
Ignores o = (o.process ≡ none) × (o.recovery_mode ≡ ignore) × AllIgnore o.monitors

-- Where the process of a monitor ends, the goroutine stops, without an error.
module _ (os : Os) (btime : ℕ) where
  open os use {World}

  abbrev pub Stops : ProcessMonitor → Type 0
  Stops m = (w : World) → check_end os btime m w ≡ (ok (stops (stop none m)), w)

  check_end-ignore : (m : ProcessMonitor) → m.recovery_mode ≡ ignore → Stops m
  unfolding check_end to_int
  check_end-ignore m h w = ground (arith, ap to_int h)

  pub AllIgnore-Stops :
      (monitors : Map ProcessMonitor) → AllIgnore monitors → All (λ km. Stops km.1) monitors
  AllIgnore-Stops [] h = tt
  AllIgnore-Stops ((_, m) ∷ monitors) (h, hs) = (check_end-ignore m h, AllIgnore-Stops monitors hs)

module _ (os : Os) (btime : ℕ) (mount_point : Volume → Str) where
  open os use {World, stat, find_process}

  abbrev J : Setup World → Type 0
  J s = Ignores s.outside

  keep_monitor-J :
      (r : Outcome Monitor.Error ProcessMonitor) (s : Setup World)
      → J s
      → IfOk (IsMade os btime s.outside.recovery_mode s.outside.rate_limit) r s.outside.world
      → J (keep_monitor os btime mount_point r s).1
  unfolding keep_monitor
  keep_monitor-J (ok m) s (p, q, a) h =
      (p, q, insert-AllIgnore s.volume.puid m s.outside.monitors (h.0 ∙ q) a)
  keep_monitor-J (err e) s h k = h
  keep_monitor-J panic s h k = h

  watch-J : (pid : ℕ) → Keeps J (watch os btime mount_point pid)
  unfolding watch
  watch-J pid s h =
      let (r, w) =
        monitor_process os btime pid s.outside.recovery_mode s.outside.rate_limit s.outside.world in
      ground (
        arith,
        keep_monitor-J r (with_world os btime mount_point w s) h (
            monitor_process-IsMade os btime pid s.outside.recovery_mode s.outside.rate_limit
              s.outside.world tt),
      )

  watch_found-J :
      (failed : Option OsError) (pid : ℕ) → Keeps J (watch_found os btime mount_point failed pid)
  unfolding watch_found
  watch_found-J none pid s h = watch-J pid s h
  watch_found-J (some e) pid s h = h

  take_process-J :
      (r : Outcome Info.Error ProcessInfo) → Keeps J (take_process os btime mount_point r)
  unfolding take_process
  take_process-J (err e) s h = h
  take_process-J panic s h = h
  take_process-J (ok prc) s h =
      let (failed, w) = find_process prc.pid s.outside.world in
      watch_found-J failed prc.pid (with_world os btime mount_point w s) h

  pick_up-J : Keeps J (pick_up os btime mount_point)
  unfolding pick_up
  pick_up-J s h =
      let (r, w) = get_process_info_from_unique_id os btime s.volume.puid s.outside.world in
      ground (arith, take_process-J r (with_world os btime mount_point w s) h)

  started :
      (o : Option VolumeProcess) (s : Setup World)
      → o ≡ none
      → J s
      → let u : Outcome Error (Unit {0}) × Setup World = elim o [
        | none ↦ (ok tt, s)
        | some p ↦
            if str_eq (trim_space s.volume.puid) []
            then start_volume_process os btime mount_point p s
            else (ok tt, s)
      ] in
        J u.1
  started none s e h = h
  started (some p) s e h = absurd (cc)

  -- Nothing is started, and a process that is picked up is not restarted.
  pub setup_process-J : Keeps J (setup_process os btime mount_point)
  unfolding setup_process start_if_none
  setup_process-J =
      >>=-Keeps J (start_if_none os btime mount_point) (λ _. pick_up os btime mount_point)
        (λ s h. started s.outside.process s h.0 h) (λ _. pick_up-J)
