-- ===== src/Metric.antt =====
-- src/metric/metric.go: how often something happened within the last stretch of time. A time is a
-- number of nanoseconds of the monotonic clock; `time.Now()` is an argument.
pub mod Window
pub mod Rate
pub mod Counting
use Prim.Native.Nat.{max}
use example_docker_volume_pl.Common.{
  ℕ, ◌+◌, ◌-◌, ◌^◌, ◌≤◌, Bool, List, [], ◌∷◌, ◌++◌, ltb, leb, ◌==◌, if◌then◌else◌, length, drop,
  Outcome, ok, err, panic,
}

-- `MIN_RATE_LIMIT_DURATION`, a second.
abbrev pub min_rate_limit_duration : ℕ
min_rate_limit_duration = 1000000000

pub record MetricRateLimit : Type 0 where
  pub limit : ℕ
  pub duration : ℕ

pub record MetricEvent {ℓ} (T : Type ℓ) : Type ℓ where
  pub time : ℕ
  pub value : T

pub record MetricBase {ℓ} (T : Type ℓ) : Type ℓ where
  pub rate_limit : MetricRateLimit
  pub capacity : ℕ
  pub events : List (MetricEvent T)

pub data Error : Type 0 where
  duration_too_short : Error

-- `NewMetricBase`. The sum `int(rateLimit.Limit) + 1` is negative if the limit is 2^63 - 1 or more,
-- and `make` panics; but for the greatest `uint` it wraps around to a capacity of 0.
unfoldable pub new_metric_base {ℓ} : {T : Type ℓ} → MetricRateLimit → Outcome Error (MetricBase T)
new_metric_base rate_limit =
    if ltb rate_limit.duration min_rate_limit_duration
    then err duration_too_short
    else if rate_limit.limit + 1 == 2 ^ 64
    then ok (record { rate_limit = rate_limit; capacity = 0; events = [] })
    else if ltb (rate_limit.limit + 1) (2 ^ 63)
    then ok (record { rate_limit = rate_limit; capacity = rate_limit.limit + 1; events = [] })
    else panic

module _ {ℓ} {T : Type ℓ} where
  -- `Update`, where there is room for an event.
  unfoldable pub updated : MetricBase T → ℕ → T → MetricBase T
  updated m now value =
      let len_events = length m.events in
      let kept =
        if leb m.capacity len_events
        then drop (len_events - m.capacity + 1) m.events
        else m.events in
      record m { events = kept ++ record { time = now; value = value } ∷ [] }

  -- `Update`. Without room, `slices.Delete` is asked for more events than there are, and panics.
  unfoldable pub update : MetricBase T → ℕ → T → Outcome Error (MetricBase T)
  unfolding updated
  update m now value = if ltb 0 m.capacity then ok (updated m now value) else panic

  -- An event after `now - duration`, written without a subtraction.
  abbrev pub is_recent : ℕ → ℕ → MetricEvent T → Bool
  is_recent now duration event = ltb now (event.time + duration)

  -- The loop of `Rate`.
  unfoldable pub count_recent : ℕ → ℕ → List (MetricEvent T) → ℕ
  count_recent now duration [] = 0
  count_recent now duration (event ∷ events) =
      let rest = count_recent now duration events in
      if is_recent now duration event then rest + 1 else rest

  -- `Rate`
  unfoldable pub rate : MetricBase T → ℕ → ℕ × ℕ × Bool
  unfolding count_recent
  rate m now =
      let count = count_recent now m.rate_limit.duration m.events in
      (count, m.rate_limit.duration, leb m.rate_limit.limit count)
