-- ===== src/Proc/Monitor/Restarts.antt =====
-- The whole run of a monitoring goroutine, round after round, and how often it restarts.
use Prim.Native.Nat.{min}
use example_docker_volume_pl.Common.{
  Option, ℕ, ◌+◌, ◌*◌, ◌≤◌, ◌<◌, ◌≡◌, sym, ap, ◌∙◌, true, false, List, [], ◌∷◌, ◌++◌, leb, Outcome,
  ok, err, panic, arith,
}
use example_docker_volume_pl.Metric.{
  MetricBase, MetricEvent, MetricRateLimit, new_metric_base, update, updated, rate, count_recent,
}
use example_docker_volume_pl.Metric.Window.{IsHistory}
use example_docker_volume_pl.Metric.Rate.{replay, replay-concat, replay-config, replay-rate}
use example_docker_volume_pl.Metric.Counting.{
  AllBefore, AllBefore-later, AllBefore-append, IsHistory-append, count_recent_one_more,
}
use example_docker_volume_pl.Os.{Os, OsError}
use example_docker_volume_pl.Proc.Info.{ProcessInfo}
use example_docker_volume_pl.Proc.Info as Info
use example_docker_volume_pl.Proc.Query.{get_process_info_with_timeout}
use example_docker_volume_pl.Proc.Monitor.{
  monitor_process, limit_or_default, ProcessMonitor, stop, adopt, started, executable, second,
  restart_process, restarts, check_end,
}
use example_docker_volume_pl.Common.State.Laws.{Gives-ok}
use example_docker_volume_pl.Proc.Recovery.{RecoveryMode}
use example_docker_volume_pl.Proc.Monitor.Making.{Anything, IsMade, monitor_process-IsMade}
use mathlib.Core.Path.{subst}

-- A restart: when the rate was looked at, and the event that was recorded for it.
pub record Restart : Type 0 where
  pub checked : ℕ
  pub event : MetricEvent ℕ

-- The events of restarts, of which the latest comes first, in their order.
abbrev pub history : List Restart → List (MetricEvent ℕ)
history [] = []
history (r ∷ rs) = history rs ++ r.event ∷ []

-- The latest restart is not later than a time.
abbrev pub IsBefore : List Restart → ℕ → Type 0
IsBefore [] t = Unit {0}
IsBefore (r ∷ rs) t = r.event.time ≤ t

-- The clock was never set back.
abbrev pub IsOrdered : List Restart → Type 0
IsOrdered [] = Unit {0}
IsOrdered (r ∷ rs) = IsBefore rs r.checked × (r.checked ≤ r.event.time) × IsOrdered rs

history-AllBefore :
    (rs : List Restart) (t : ℕ) → IsOrdered rs → IsBefore rs t → AllBefore t (history rs)
history-AllBefore [] t o b = tt
history-AllBefore (r ∷ rs) t (p, q, o) b =
    AllBefore-append t (history rs) r.event
      (AllBefore-later r.checked t (history rs) (omega arith) (history-AllBefore rs r.checked o p))
      b

history-IsHistory : (rs : List Restart) → IsOrdered rs → IsHistory 0 (history rs)
history-IsHistory [] o = tt
history-IsHistory (r ∷ rs) (p, q, o) =
    IsHistory-append 0 (history rs) r.event (omega arith) (history-IsHistory rs o)
      (AllBefore-later r.checked r.event.time (history rs) q (history-AllBefore rs r.checked o p))

adopt-update :
    (pid time : ℕ) (r : Outcome Info.Error ProcessInfo) (m : ProcessMonitor) {m' : ProcessMonitor}
    → adopt pid time r m ≡ ok m'
    → m'.running ≡ true
    → (0 < m.metric.capacity) × (m'.metric ≡ updated m.metric time pid)
unfolding adopt stop update
adopt-update pid time (ok pi) m e h = ground arith
adopt-update pid time (err x) m e h = absurd (ground arith)
adopt-update pid time panic m e h = absurd (cc)

module _ (os : Os) (btime : ℕ) where
  open os use {World, now, start_process}

  -- What is recorded for a process that has been started: its number, and the time at which it has
  -- been found.
  abbrev pub event_after : Outcome OsError ℕ → World → MetricEvent ℕ
  event_after (err e) w = record { time = 0; value = 0 }
  event_after panic w = record { time = 0; value = 0 }
  event_after (ok pid) w = record {
    time = (now (get_process_info_with_timeout os btime (5 * second) second pid w).1).0;
    value = pid;
  }

  -- A restart: the check is made in the first world, and the process started in the second one.
  abbrev pub restart_in : World → ProcessMonitor → World → Restart
  restart_in w m v =
      let (result, v1) = start_process (executable m.first_info) m.first_info.cmdline v in
      record { checked = (now w).0; event = event_after result v1 }

  -- A goroutine that runs, from its start with a metric on, and its restarts, the latest first.
  -- Between two rounds, and in a round between the check and the restart, others may do what they like
  -- to the world, and to the monitor what leaves its metric and `running` as they are: cancel it or
  -- read its channel.
  pub data Watched (new : MetricBase ℕ) : ProcessMonitor → List Restart → Type 0 where
    begun : (m : ProcessMonitor) → m.running ≡ true → m.metric ≡ new → Watched new m []
    touched :
        {m m' : ProcessMonitor} {rs : List Restart}
        → Watched new m rs
        → m'.running ≡ m.running
        → m'.metric ≡ m.metric
        → Watched new m' rs
    again :
        {m m' : ProcessMonitor} {rs : List Restart}
        → Watched new m rs
        → (w w1 : World) → check_end os btime m w ≡ (ok restarts, w1)
        → (n : ProcessMonitor) → n.running ≡ m.running
        → n.metric ≡ m.metric
        → (v v' : World) → restart_process os btime n v ≡ (ok m', v')
        → m'.running ≡ true
        → Watched new m' (restart_in w n v ∷ rs)

  started-update :
      (m : ProcessMonitor) (r : Outcome OsError ℕ) (w : World) {m' : ProcessMonitor} {w' : World}
      → started os btime m r w ≡ (ok m', w')
      → m'.running ≡ true
      → let event = event_after r w in
        (0 < m.metric.capacity) × (m'.metric ≡ updated m.metric event.time event.value)
  unfolding started stop
  started-update m (err x) w e h = absurd (ground arith)
  started-update m panic w e h = absurd (cc)
  started-update m (ok pid) w e h =
      let (found, w1) = get_process_info_with_timeout os btime (5 * second) second pid w in
      adopt-update pid (now w1).0 found m (ap (λ r. r.0) e) h

  Watched-running :
      (new : MetricBase ℕ) {m : ProcessMonitor} {rs : List Restart}
      → Watched new m rs
      → m.running ≡ true
  Watched-running new (begun m h e) = h
  Watched-running new (touched x h e) = h ∙ Watched-running new x
  Watched-running new (again x w w1 c n a b v v' e h) = h

  -- The metric has recorded just the restarts.
  Watched-metric :
      (new : MetricBase ℕ) {m : ProcessMonitor} {rs : List Restart}
      → Watched new m rs
      → m.metric ≡ replay new (history rs)
  unfolding replay restart_process
  Watched-metric new (begun m h e) = e
  Watched-metric new (touched x h e) = e ∙ Watched-metric new x
  Watched-metric new (again {m} {m'} {rs} x w w1 c n a b v v' e h) =
      let r = start_process (executable n.first_info) n.first_info.cmdline v in
      let event = event_after r.0 r.1 in
      (started-update n r.0 r.1 e h).1
      ∙ ap (λ b. updated b event.time event.value) (b ∙ Watched-metric new x)
      ∙ sym (replay-concat new (history rs) event)

  check_end-restarts :
      (m : ProcessMonitor) (w : World) {w1 : World}
      → check_end os btime m w ≡ (ok restarts, w1)
      → (rate m.metric (now w).0).2 ≡ false
  unfolding check_end
  check_end-restarts m w c = ground arith

  under_limit :
      (limit : MetricRateLimit) (rs : List Restart) (m : ProcessMonitor) (time : ℕ)
      → rate m.metric time ≡ (
        min (limit.limit + 1) (count_recent time limit.duration (history rs)),
        limit.duration,
        leb limit.limit (count_recent time limit.duration (history rs)),
      )
      → (rate m.metric time).2 ≡ false
      → count_recent time limit.duration (history rs) < limit.limit
  under_limit limit rs m time e below = ground (arith, ap (λ r. r.2) e)

  -- At each time from the latest restart on, at most the limit are recent.
  Watched-limit :
      (limit : MetricRateLimit) {new : MetricBase ℕ} {m : ProcessMonitor} {rs : List Restart}
      → new_metric_base limit ≡ ok new
      → Watched new m rs
      → IsOrdered rs
      → (time : ℕ) → IsBefore rs time
      → count_recent time limit.duration (history rs) ≤ limit.limit
  unfolding count_recent restart_process
  Watched-limit limit made (begun m h e) o time b = omega arith
  Watched-limit limit made (touched x h e) o time b = Watched-limit limit made x o time b
  Watched-limit limit {new} made (again {m} {m'} {rs} x w w1 c n a b v v' e h) (p, q, o) time l =
      let restart = restart_in w n v in
      let r = start_process (executable n.first_info) n.first_info.cmdline v in
      let below = check_end-restarts m w c in
      let room : 0 < new.capacity =
        subst (λ k. 0 < k)
          (ap (λ k. k.capacity) (b ∙ Watched-metric new x) ∙ (replay-config new (history rs)).1)
          (started-update n r.0 r.1 e h).0 in
      let counted =
        replay-rate limit (history rs) restart.checked made room (history-IsHistory rs o) in
      let same = ap (λ b. rate b restart.checked) (Watched-metric new x) in
      let fewer : count_recent restart.checked limit.duration (history rs) < limit.limit =
        under_limit limit rs m restart.checked (same ∙ counted) below in
      count_recent_one_more restart.checked time limit.duration limit.limit (history rs)
        restart.event fewer (omega arith)

  -- A monitor that `MonitorProcess` has made, however many rounds it has gone through since and
  -- whatever others did meanwhile: at each time from its latest restart on, at most as many restarts
  -- as the limit says (3 if none is given) lie within the limit's duration before that time, if the
  -- clock was never set back.
  pub monitor_process-limit :
      (pid : ℕ) (mode : RecoveryMode) (limit : Option MetricRateLimit) (w w' : World)
      {first m : ProcessMonitor} {rs : List Restart}
      → monitor_process os btime pid mode limit w ≡ (ok first, w')
      → Watched first.metric m rs
      → IsOrdered rs
      → (time : ℕ) → IsBefore rs time
      → count_recent time (limit_or_default limit).duration (history rs)
        ≤ (limit_or_default limit).limit
  monitor_process-limit pid mode limit w w' made watched ordered time before =
      let (_, _, fresh) =
        Gives-ok (Anything os btime) (IsMade os btime mode limit)
          (monitor_process os btime pid mode limit) (monitor_process-IsMade os btime pid mode limit)
          tt made in
      Watched-limit (limit_or_default limit) fresh watched ordered time before
