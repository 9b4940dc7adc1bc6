-- ===== src/Proc/Monitor/Making.antt =====
-- The monitor that `MonitorProcess` makes.
use example_docker_volume_pl.Common.{
  ℕ, ◌≡◌, refl, true, false, Option, none, Outcome, ok, err, panic,
}
use example_docker_volume_pl.Common.State.{
  M, ◌>>=◌, ◌>>◌, return, call, fail_if, of_outcome, with_errors,
}
use example_docker_volume_pl.Common.State.Laws.{Gives, Keeps-Gives, >>=-Gives}
use example_docker_volume_pl.Os.{Os, Stat}
use example_docker_volume_pl.Metric.{MetricRateLimit, MetricBase, new_metric_base}
use example_docker_volume_pl.Metric as Metric
use example_docker_volume_pl.Proc.Query.{get_process_info}
use example_docker_volume_pl.Proc.Info.{ProcessInfo}
use example_docker_volume_pl.Proc.Recovery.{RecoveryMode}
use example_docker_volume_pl.Proc.Monitor.{
  ProcessMonitor, Error, with_metric, limit_or_default, missing_error, executable, query,
  system_error, monitor_process,
}

module _ (os : Os) (btime : ℕ) where
  open os use {World, stat, find_process}

  abbrev pub Anything : World → Type 0
  Anything w = Unit {0}

  -- It runs, in its mode and with a new metric.
  abbrev pub IsMade : RecoveryMode → Option MetricRateLimit → ProcessMonitor → World → Type 0
  IsMade mode limit m w =
      (m.recovery_mode ≡ mode)
      × (m.running ≡ true)
      × (new_metric_base (limit_or_default limit) ≡ ok m.metric)

  -- Whatever a step answers, the next ones decide.
  step :
      {A : Type 0} (mode : RecoveryMode) (limit : Option MetricRateLimit) (m : M Error World A)
      (f : A → M Error World ProcessMonitor)
      → ((a : A) → Gives Anything (IsMade mode limit) (f a))
      → Gives Anything (IsMade mode limit) (m >>= f)
  step mode limit m f h =
      >>=-Gives (λ _ _. Unit {0}) (IsMade mode limit) m f (Keeps-Gives m (λ _ _. tt)) h

  metric-Gives :
      (r : Outcome Metric.Error (MetricBase ℕ))
      → Gives Anything (λ b _. r ≡ ok b) (of_outcome (with_metric r))
  metric-Gives (ok b) w h = refl
  metric-Gives (err e) w h = tt
  metric-Gives panic w h = tt

  pub monitor_process-IsMade :
      (pid : ℕ) (mode : RecoveryMode) (limit : Option MetricRateLimit)
      → Gives Anything (IsMade mode limit) (monitor_process os btime pid mode limit)
  unfolding monitor_process
  monitor_process-IsMade pid mode limit =
      let made : ProcessInfo → MetricBase ℕ → M Error World ProcessMonitor = λ pi rate_metric.
        return (record {
          cancel = false;
          message = none;
          process = pid;
          process_info = pi;
          first_info = pi;
          recovery_mode = mode;
          metric = rate_metric;
          running = true;
        }) in
      let metric : M Error World (MetricBase ℕ) =
        of_outcome (with_metric (new_metric_base (limit_or_default limit))) in
      let file : ProcessInfo → Stat → M Error World ProcessMonitor =
        λ pi status. fail_if (missing_error (executable pi) status) >> (metric >>= made pi) in
      let info : M Error World ProcessInfo = with_errors query (get_process_info os btime pid) in
      let rest : ProcessInfo → M Error World ProcessMonitor =
        λ pi. call (stat (executable pi)) >>= file pi in
      step mode limit (call (find_process pid))
        (λ found. fail_if (system_error found) >> (info >>= rest))
        (λ found.
          step mode limit (fail_if (system_error found)) (λ _. info >>= rest)
            (λ _. step mode limit info rest (λ pi.
              step mode limit (call (stat (executable pi))) (file pi) (λ status.
                step mode limit (fail_if (missing_error (executable pi) status))
                  (λ _. metric >>= made pi)
                  (λ _.
                    >>=-Gives (λ b _. new_metric_base (limit_or_default limit) ≡ ok b)
                      (IsMade mode limit) metric (made pi)
                      (metric-Gives (new_metric_base (limit_or_default limit)))
                      (λ rate_metric w e. (refl, refl, e)))))))
