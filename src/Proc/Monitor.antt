-- ===== src/Proc/Monitor.antt =====
-- src/proc/proc.go, the process monitor: the goroutine that waits for a process and restarts it, and
-- the two functions that end one.
pub mod Rounds
pub mod Making
pub mod Restarts
pub mod Ending
pub mod Receiving
use example_docker_volume_pl.Common.{
  ℕ, ◌+◌, ◌*◌, ◌^◌, Bool, true, false, ◌||◌, Option, none, some, List, [], ◌∷◌, ◌==◌, ltb,
  if◌then◌else◌, Outcome, ok, err, panic,
}
use example_docker_volume_pl.Common.State.{
  M, ◌>>=◌, ◌>>◌, return, raise, crash, call, fail_if, get, modify, of_outcome, with_errors,
}
use example_docker_volume_pl.Common.Text.{Str}
use example_docker_volume_pl.Metric.{MetricBase, MetricRateLimit, new_metric_base, update, rate}
use example_docker_volume_pl.Metric
use example_docker_volume_pl.Os.{Os, OsError, Stat, Cmd, Signal, interrupt, kill, Waited}
use example_docker_volume_pl.Proc.Info
use example_docker_volume_pl.Proc.Info.{ProcessInfo}
use example_docker_volume_pl.Proc.Query.{get_process_info, get_process_info_with_timeout}
use example_docker_volume_pl.Proc.Recovery.{RecoveryMode, to_int}
use example_docker_volume_pl.Proc.Recovery

-- What goes wrong with a monitor. `missing` is the executable of a process.
pub data Error : Type 0 where
  system : OsError → Error
  query : Info.Error → Error
  missing : Str → Error
  metric : Metric.Error → Error
  gave_up : ℕ → ℕ → Error
  timeout_too_short : Error
  kill_timeout : ℕ → Error

-- `message` is the buffer of the channel `chError`, of capacity one: empty, or an error that may be
-- nil. `running` tells whether the goroutine has not ended yet.
pub record ProcessMonitor : Type 0 where
  pub cancel : Bool
  pub message : Option (Option Error)
  pub process : ℕ
  pub process_info : ProcessInfo
  pub first_info : ProcessInfo
  pub recovery_mode : RecoveryMode
  pub metric : MetricBase ℕ
  pub running : Bool

abbrev pub second : ℕ
second = 1000000000

-- `MetricRateLimit{Limit: 3, Duration: 1 * time.Minute}`
abbrev pub default_rate_limit : MetricRateLimit
default_rate_limit = record { limit = 3; duration = 60 * second }

abbrev pub limit_or_default : Option MetricRateLimit → MetricRateLimit
limit_or_default none = default_rate_limit
limit_or_default (some limit) = limit

-- `Cmdline[0]`
abbrev pub executable : ProcessInfo → Str
executable pi = elim pi.cmdline [ [] ↦ [] | c ∷ _ ↦ c ]

-- `chError <- err` and the end of the loop.
unfoldable pub stop : Option Error → ProcessMonitor → ProcessMonitor
stop e m = record m { message = some e; running = false }

abbrev pub with_metric : Outcome Metric.Error (MetricBase ℕ) → Outcome Error (MetricBase ℕ)
with_metric (ok m) = ok m
with_metric (err e) = err (metric e)
with_metric panic = panic

-- The executable must not be missing; any other error of `Stat` is passed over.
abbrev pub missing_error : Str → Stat → Option Error
missing_error path Stat.not_exist = some (missing path)
missing_error path (Stat.unreadable e) = none
missing_error path (Stat.found is_dir file) = none

abbrev pub system_error : Option OsError → Option Error
system_error none = none
system_error (some e) = some (system e)

-- The part of the loop behind a restart that the rate allows: the new process is looked up, and the
-- monitor goes on with it. A process that is started but not found is left to itself.
unfoldable pub adopt :
    ℕ → ℕ → Outcome Info.Error ProcessInfo → ProcessMonitor → Outcome Error ProcessMonitor
adopt pid time (err e) m = ok (stop (some (query e)) m)
adopt pid time panic m = panic
adopt pid time (ok pi) m = elim (update m.metric time pid) [
  | ok rate_metric ↦ ok (record m { process = pid; process_info = pi; metric = rate_metric })
  | err e ↦ err (metric e)
  | panic ↦ panic
]

-- What the goroutine does after the end of its process: it stops with this monitor, or restarts.
pub data Verdict : Type 0 where
  stops : ProcessMonitor → Verdict
  restarts : Verdict

-- The monitor and the world that its goroutine shares with its callers. `restarting` tells whether the
-- goroutine is between the check that lets it restart the process and the new process.
pub record Watch (W : Type 0) : Type 0 where
  pub monitor : ProcessMonitor
  pub restarting : Bool
  pub world : W

-- The state after a round; a panic ends the program.
abbrev pub settle :
    {W : Type 0}
    → ProcessMonitor
    → Outcome Error ProcessMonitor × W
    → Outcome Error (Unit {0}) × Watch W
settle before (r, w) = elim r [
  | ok m ↦ (ok tt, record { monitor = m; restarting = false; world = w })
  | err e ↦ (err e, record { monitor = before; restarting = false; world = w })
  | panic ↦ (panic, record { monitor = before; restarting = false; world = w })
]

module _ (os : Os) (btime : ℕ) where
  open os use {World, stat, now, start_process, find_process, send_signal, wait}

  -- `MonitorProcess` up to the start of the goroutine.
  unfoldable pub monitor_process :
      ℕ → RecoveryMode → Option MetricRateLimit → M Error World ProcessMonitor
  monitor_process pid recovery_mode rate_limit = do
    found ← call (find_process pid)
    fail_if (system_error found)
    pi ← with_errors query (get_process_info os btime pid)
    status ← call (stat (executable pi))
    fail_if (missing_error (executable pi) status)
    rate_metric ← of_outcome (with_metric (new_metric_base (limit_or_default rate_limit)))
    return (record {
      cancel = false;
      message = none;
      process = pid;
      process_info = pi;
      first_info = pi;
      recovery_mode = recovery_mode;
      metric = rate_metric;
      running = true;
    })

  -- What follows `os.StartProcess` in the loop.
  unfoldable pub started :
      ProcessMonitor → Outcome OsError ℕ → World → Outcome Error ProcessMonitor × World
  started m (err e) w = (ok (stop (some (system e)) m), w)
  started m panic w = (panic, w)
  started m (ok pid) w =
      let (found, w1) = get_process_info_with_timeout os btime (5 * second) second pid w in
      let (time, w2) = now w1 in (adopt pid time found m, w2)

  unfoldable pub restart_process : ProcessMonitor → World → Outcome Error ProcessMonitor × World
  restart_process m w =
      let (result, w1) = start_process (executable m.first_info) m.first_info.cmdline w in
      started m result w1

  -- The loop once the process has ended, up to the restart: whether the goroutine stops.
  unfoldable pub check_end : ProcessMonitor → World → Outcome Error Verdict × World
  unfolding to_int
  check_end m w =
      if m.cancel || to_int m.recovery_mode == 0
      then (ok (stops (stop none m)), w)
      else if to_int m.recovery_mode == 2
      then (panic, w)
      else let (time, w1) = now w in
        let (count, duration, limit_reached) = rate m.metric time in
        if limit_reached
        then (ok (stops (stop (some (gave_up count duration)) m)), w1)
        else (ok restarts, w1)

  -- The loop once the process has ended, where nobody else comes between the check and the restart.
  unfoldable pub after_end : ProcessMonitor → World → Outcome Error ProcessMonitor × World
  unfolding check_end
  after_end m w =
      let (verdict, w1) = check_end m w in
      elim verdict [
        | ok v ↦ elim v [ stops m' ↦ (ok m', w1) | restarts ↦ restart_process m w1 ]
        | err e ↦ (err e, w1)
        | panic ↦ (panic, w1)
      ]

  -- One round of the goroutine, if it is running, by what `Process.Wait` has returned.
  unfoldable pub round : Waited → ProcessMonitor → World → Outcome Error ProcessMonitor × World
  round waited m w =
      if m.running
      then elim waited [
        | Waited.running ↦ (ok m, w)
        | Waited.wait_failed e ↦ (ok (stop (some (system e)) m), w)
        | Waited.ended ↦ after_end m w
      ]
      else (ok m, w)

  -- The rest of a restart. The new process replaces the one in the monitor, whatever has become of the
  -- monitor since the check.
  unfoldable pub finish_restart : M Error (Watch World) (Unit {0})
  finish_restart s = settle s.monitor (restart_process s.monitor s.world)

  -- The goroutine waits for the process at most the given time, and does what follows its end.
  unfoldable pub next_round : ℕ → M Error (Watch World) (Unit {0})
  next_round timeout s =
      let (waited, w) = wait s.monitor.process timeout s.world in
      settle s.monitor (round waited s.monitor w)

  -- The goroutine while a caller waits at most the given time.
  unfoldable pub let_run : ℕ → M Error (Watch World) (Unit {0})
  unfolding next_round
  let_run timeout s =
      if s.restarting then (finish_restart >> next_round timeout) s else next_round timeout s

  -- A message that is there is received; `none` is the default branch of `ReceiveNonBlocking`.
  unfoldable pub receive_message : M Error (Watch World) (Option (Option Error))
  receive_message s =
      (ok s.monitor.message, record s { monitor = record s.monitor { message = none } })

  -- `return err` with a message, and what follows where there is none.
  abbrev pub answer_or :
      Option (Option Error) → M Error (Watch World) (Unit {0}) → M Error (Watch World) (Unit {0})
  answer_or message rest s = elim message [ some e ↦ fail_if e s | none ↦ rest s ]

  -- `processMonitor.cancel = true` and the signal.
  unfoldable pub interrupt_process : Signal → M Error (Watch World) (Unit {0})
  interrupt_process signal s =
      let (failed, w) = send_signal s.monitor.process signal s.world in
      fail_if (system_error failed)
        (record s { monitor = record s.monitor { cancel = true }; world = w })

  -- `KillProcess`
  unfoldable pub kill_process : ℕ → M Error (Watch World) (Unit {0})
  kill_process timeout = do
    fail_if (if ltb timeout second then some timeout_too_short else none)
    message ← receive_message
    answer_or message do
      interrupt_process kill
      let_run timeout
      answer ← receive_message
      answer_or answer (raise (kill_timeout timeout))

  -- `CancelProcess`
  unfoldable pub cancel_process : ℕ → M Error (Watch World) (Unit {0})
  cancel_process timeout = do
    fail_if (if ltb timeout second then some timeout_too_short else none)
    message ← receive_message
    answer_or message do
      interrupt_process interrupt
      let_run timeout
      answer ← receive_message
      answer_or answer (kill_process timeout)
