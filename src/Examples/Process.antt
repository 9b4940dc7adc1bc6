-- ===== src/Examples/Process.antt =====
-- Processes: reading one, and watching one.
use example_docker_volume_pl.Common.{
  ℕ, ◌*◌, ◌%◌, ◌^◌, ◌≤◌, ◌≡◌, inr, refl, true, false, none, some, List, [], ◌∷◌, ◌++◌, ◌==◌,
  if◌then◌else◌, arith, ok, err,
}
use example_docker_volume_pl.Common.Text.{Str, codes, str_eq, starts_with, is_space}
use example_docker_volume_pl.Common.Number.{itoa, parse_uint}
use example_docker_volume_pl.Utils.{scan_all, scan_strings}
use example_docker_volume_pl.Os.{Os, opened, running, ended}
use example_docker_volume_pl.Metric.{
  MetricRateLimit, MetricBase, new_metric_base, count_recent, rate, update, updated,
}
use example_docker_volume_pl.Proc.Info.{ProcessInfo, unique_id, other_start_time}
use example_docker_volume_pl.Proc.Stat.{
  make_process_info, words, stat_fields, get_stat, get_cmdline, validate, get_stat_opened,
  first_error, opened_messages, stored, trim_parens,
}
use example_docker_volume_pl.Proc.Stat.Messages.{make_process_info-order}
use example_docker_volume_pl.Proc.Query.{
  get_process_info, read_files, proc_path, directory_error, get_process_info_with_timeout,
  get_process_info_from_unique_id,
}
use example_docker_volume_pl.Proc.Query.Identity.{get_process_info_from_unique_id-unique_id}
use example_docker_volume_pl.Proc.Recovery.{restart, to_int}
use example_docker_volume_pl.Proc.Monitor.{
  restarts, check_end, ProcessMonitor, Watch, second, round, after_end, restart_process, started,
  adopt, cancel_process, monitor_process,
}
use example_docker_volume_pl.Proc.Monitor.Rounds.{
  IsSound, round-IsSound, Stays, rounds, rounds-Stays,
}
use example_docker_volume_pl.Proc.Monitor.Restarts.{
  history, restart_in, Watched, begun, again, monitor_process-limit,
}
use example_docker_volume_pl.Proc.Monitor.Ending.{cancel_process-ended}
use example_docker_volume_pl.Examples.World.{system, stat_text}

abbrev bytes : List ℕ
bytes = 1 ∷ 171 ∷ []

abbrev cmdline : Str
cmdline = codes "a" ++ 0 ∷ []

abbrev pub info : ProcessInfo
info = record {
  pid = 7;
  comm = codes "a";
  state = codes "S";
  start_time = 10;
  cmdline = codes "a" ∷ [];
}

made :
    make_process_info
      (λ n. n)
      5
      (true, true, true)
      7
      (opened stat_text none none)
      (opened cmdline none none)
    ≡ ok info
unfolding make_process_info get_stat get_stat_opened stat_fields words is_space str_eq first_error
    opened_messages parse_uint get_cmdline validate stored scan_all trim_parens scan_strings
made = refl

make_process_info-order_example :
    make_process_info
      (λ n. n)
      5
      (false, true, false)
      7
      (opened stat_text none none)
      (opened cmdline none none)
    ≡ ok info
make_process_info-order_example =
    make_process_info-order (λ n. n) 5 (true, true, true) (false, true, false) 7
      (opened stat_text none none) (opened cmdline none none) made

found_info : get_process_info system 5 7 tt ≡ (ok info, tt)
unfolding get_process_info directory_error proc_path itoa starts_with read_files make_process_info
    get_stat get_stat_opened stat_fields words is_space str_eq first_error opened_messages
    parse_uint get_cmdline validate stored scan_all trim_parens scan_strings
found_info = refl

get_process_info_from_unique_id-unique_id_example :
    get_process_info_from_unique_id system 5 (unique_id info) tt
    ≡ ((if 10 == 10 % 2 ^ 64 then ok info else err (other_start_time 7)), tt)
get_process_info_from_unique_id-unique_id_example =
    get_process_info_from_unique_id-unique_id system 5 info info tt tt (omega arith) (omega arith)
      found_info

found_in_time : get_process_info_with_timeout system 5 second second 7 tt ≡ (ok info, tt)
unfolding get_process_info_with_timeout get_process_info directory_error proc_path itoa starts_with
    read_files make_process_info get_stat get_stat_opened stat_fields words is_space str_eq
    first_error opened_messages parse_uint get_cmdline validate stored scan_all trim_parens
    scan_strings
found_in_time = refl

-- A monitor that restarts its process, and one that has been told to end it.
abbrev limit : MetricRateLimit
limit = record { limit = 2; duration = 60 * second }

abbrev fresh : MetricBase ℕ
fresh = record { rate_limit = limit; capacity = 3; events = [] }

abbrev watcher : ProcessMonitor
watcher = record {
  cancel = false;
  message = none;
  process = 7;
  process_info = info;
  first_info = info;
  recovery_mode = restart;
  metric = fresh;
  running = true;
}

abbrev cancelled : ProcessMonitor
cancelled = record watcher { cancel = true }

rounds-Stays_example :
    Stays system 5 cancelled tt (rounds system 5 (running ∷ ended ∷ ended ∷ []) cancelled tt)
rounds-Stays_example = rounds-Stays system 5 (running ∷ ended ∷ ended ∷ []) cancelled tt refl

abbrev restarted : ProcessMonitor
restarted = record watcher { metric = updated fresh 100 7 }

restarted_after : round system 5 ended watcher tt ≡ (ok restarted, tt)
unfolding round after_end check_end restart_process started adopt to_int rate update updated
    get_process_info_with_timeout get_process_info directory_error proc_path itoa starts_with
    read_files make_process_info get_stat get_stat_opened stat_fields words is_space str_eq
    first_error opened_messages parse_uint get_cmdline validate stored scan_all trim_parens
    scan_strings
restarted_after = refl

round-IsSound_example : IsSound restarted
round-IsSound_example = round-IsSound system 5 ended watcher tt (inr refl) restarted_after

may_restart : check_end system 5 watcher tt ≡ (ok restarts, tt)
unfolding check_end to_int rate
may_restart = refl

restarted_late :
    restart_process system 5 cancelled tt ≡ (ok (record restarted { cancel = true }), tt)
unfolding restart_process started adopt update updated get_process_info_with_timeout
    get_process_info directory_error proc_path itoa starts_with read_files make_process_info
    get_stat get_stat_opened stat_fields words is_space str_eq first_error opened_messages
    parse_uint get_cmdline validate stored scan_all trim_parens scan_strings
restarted_late = refl

-- The monitor has restarted its process once, and has been cancelled meanwhile.
restarted-Watched :
    Watched system 5 fresh
      (record restarted { cancel = true })
      (restart_in system 5 tt cancelled tt ∷ [])
restarted-Watched =
    again (begun watcher refl refl) tt tt may_restart cancelled refl refl tt tt restarted_late refl

watcher-made : monitor_process system 5 7 restart (some limit) tt ≡ (ok watcher, tt)
unfolding monitor_process new_metric_base get_process_info directory_error proc_path itoa
    starts_with read_files make_process_info get_stat get_stat_opened stat_fields words is_space
    str_eq first_error opened_messages parse_uint get_cmdline validate stored scan_all trim_parens
    scan_strings
watcher-made = refl

monitor_process-limit_example :
    count_recent 130 limit.duration (history (restart_in system 5 tt cancelled tt ∷ [])) ≤ 2
monitor_process-limit_example =
    monitor_process-limit system 5 7 restart (some limit) tt tt watcher-made restarted-Watched
      (tt, omega arith, tt) 130 (omega arith)

abbrev watched : Watch (Unit {0})
watched = record { monitor = watcher; restarting = false; world = tt }

cancel_process-ended_example : cancel_process system 5 (2 * second) watched ≡ (
  ok tt,
  record {
    monitor = record watcher { cancel = true; message = none; running = false };
    restarting = false;
    world = tt;
  },
)
cancel_process-ended_example =
    cancel_process-ended system 5 (2 * second) watched tt tt (omega arith) refl refl refl refl refl

-- A system in which a process that has ended cannot be signalled.
abbrev deaf : Os
deaf = record system { send_signal = λ p s w. (some 3, w) }

abbrev restarting_watch : Watch (Unit {0})
restarting_watch = record watched { restarting = true }
