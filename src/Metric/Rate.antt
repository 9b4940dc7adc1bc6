-- ===== src/Metric/Rate.antt =====
-- `Rate` counts as if no event had ever been dropped, up to one more than the limit.
use Prim.Native.Nat.{min}
use example_docker_volume_pl.Common.{
  ℕ, ◌+◌, ◌-◌, ◌≤◌, ◌<◌, ◌≡◌, ◌⊎◌, inl, inr, sym, ◌^◌, Outcome, err, panic, refl, List, [], ◌∷◌,
  ◌++◌, leb, length, arith, append_assoc, ◌∙◌, ap, ok, append-nil, length-drop,
}
use example_docker_volume_pl.Metric.{
  MetricEvent, MetricBase, MetricRateLimit, Error, new_metric_base, update, updated, count_recent,
  rate, min_rate_limit_duration,
}
use example_docker_volume_pl.Metric.Window.{
  count_recent-le, IsHistory, last, count_recent-drop, update-last,
}

module _ {T : Type 0} where
  -- The metric after the updates of a history, the earliest first.
  unfoldable pub replay : MetricBase T → List (MetricEvent T) → MetricBase T
  replay m [] = m
  replay m (e ∷ es) = replay (updated m e.time e.value) es

  pub replay-concat :
      (m : MetricBase T) (es : List (MetricEvent T)) (e : MetricEvent T)
      → replay m (es ++ e ∷ []) ≡ updated (replay m es) e.time e.value
  unfolding replay
  replay-concat m [] e = refl
  replay-concat m (v ∷ es) e = replay-concat (updated m v.time v.value) es e

  pub replay-config :
      (m : MetricBase T) (es : List (MetricEvent T))
      → ((replay m es).rate_limit ≡ m.rate_limit) × ((replay m es).capacity ≡ m.capacity)
  unfolding replay updated
  replay-config m [] = (refl, refl)
  replay-config m (e ∷ es) = replay-config (updated m e.time e.value) es

  replay-last :
      (m : MetricBase T) (past es : List (MetricEvent T))
      → 0 < m.capacity
      → m.events ≡ last m.capacity past
      → (replay m es).events ≡ last m.capacity (past ++ es)
  unfolding replay updated
  replay-last m past [] room e = rw append-nil e
  replay-last m past (v ∷ es) room e = rw (← append_assoc past (v ∷ []) es) (
      replay-last (updated m v.time v.value) (past ++ v ∷ []) es room
        (update-last m past v.time v.value room e))

  new_metric_base-ok :
      (limit : MetricRateLimit) {m : MetricBase T}
      → new_metric_base limit ≡ ok m
      → (m.rate_limit ≡ limit) × (m.events ≡ []) × (min_rate_limit_duration ≤ limit.duration)
  unfolding new_metric_base
  new_metric_base-ok limit e = ground arith

  -- There is room, but for the greatest limit.
  pub new_metric_base-room :
      (limit : MetricRateLimit) {m : MetricBase T}
      → new_metric_base limit ≡ ok m
      → limit.limit < 2 ^ 64 - 1
      → m.capacity ≡ limit.limit + 1
  unfolding new_metric_base
  new_metric_base-room limit e h = ground arith

  new_metric_base-capacity :
      (limit : MetricRateLimit) {m : MetricBase T}
      → new_metric_base limit ≡ ok m
      → 0 < m.capacity
      → m.capacity ≡ limit.limit + 1
  unfolding new_metric_base
  new_metric_base-capacity limit e h = ground arith

  -- The events that a new metric with room holds after a history.
  replay-new :
      (limit : MetricRateLimit) {m : MetricBase T} (es : List (MetricEvent T))
      → new_metric_base limit ≡ ok m
      → 0 < m.capacity
      → ((replay m es).events ≡ last (limit.limit + 1) es) × ((replay m es).rate_limit ≡ limit)
  replay-new limit {m} es e h =
      let (made, empty, _) = new_metric_base-ok limit e in
      let room = new_metric_base-capacity limit e h in
      let (kept, _) = replay-config m es in
      let nothing : 0 - m.capacity ≡ 0 = omega arith in
      (
        replay-last m [] es (omega arith) (rw (empty, nothing)) ∙ ap (λ n. last n es) room,
        kept ∙ made,
      )

  pub replay-rate :
      (limit : MetricRateLimit) {m : MetricBase T} (es : List (MetricEvent T)) (now : ℕ)
      → new_metric_base limit ≡ ok m
      → 0 < m.capacity
      → IsHistory 0 es
      → let count = count_recent now limit.duration es in
        rate (replay m es) now
        ≡ (min (limit.limit + 1) count, limit.duration, leb limit.limit count)
  unfolding rate
  replay-rate limit {m} es now e room h =
      let (events, made) = replay-new limit es e room in
      let count = count_recent-drop now limit.duration 0 (length es - (limit.limit + 1)) es h in
      ground (arith, events, made, count, count_recent-le now limit.duration es)

  -- `Update` for each event of a history, the earliest first.
  unfoldable pub update_all : MetricBase T → List (MetricEvent T) → Outcome Error (MetricBase T)
  unfolding update
  update_all m [] = ok m
  update_all m (e ∷ es) = elim (update m e.time e.value) [
    | ok m' ↦ update_all m' es
    | err x ↦ err x
    | panic ↦ panic
  ]

  update_all-replay :
      (m : MetricBase T) (es : List (MetricEvent T))
      → 0 < m.capacity
      → update_all m es ≡ ok (replay m es)
  unfolding update_all replay update updated
  update_all-replay m [] h = refl
  update_all-replay m (e ∷ es) h = ground (arith, update_all-replay (updated m e.time e.value) es h)

  -- On a new metric, whose limit is not the greatest `uint`, any history of updates succeeds, and then
  -- `Rate` reports how many of all its events lie within the duration before `now`, but at most one
  -- more than the limit, and the limit counts as reached exactly if that many of all the events do;
  -- the times of the history must not fall.
  pub rate-replay :
      (limit : MetricRateLimit) {new : MetricBase T} (es : List (MetricEvent T)) (now : ℕ)
      → new_metric_base limit ≡ ok new
      → limit.limit < 2 ^ 64 - 1
      → IsHistory 0 es
      → (m : MetricBase T) × (update_all new es ≡ ok m)
        × (let count = count_recent now limit.duration es in
            rate m now ≡ (min (limit.limit + 1) count, limit.duration, leb limit.limit count))
  rate-replay limit {new} es now e fits h =
      let room : 0 < new.capacity = omega (arith, new_metric_base-room limit e fits) in
      (replay new es, update_all-replay new es room, replay-rate limit es now e room h)

  -- Only a metric without room fails, and that at the first update.
  update_all-cases :
      (m : MetricBase T) (es : List (MetricEvent T)) {r : MetricBase T}
      → update_all m es ≡ ok r
      → (r ≡ m) ⊎ (0 < m.capacity)
  unfolding update_all update
  update_all-cases m [] e = inl (ground arith)
  update_all-cases m (x ∷ es) e = inr (ground arith)

  -- A metric that has been made has a duration of a second at least, and whatever updates have
  -- succeeded on it, it holds at most one event more than the limit.
  pub update_all-length :
      (limit : MetricRateLimit) {new m : MetricBase T} (es : List (MetricEvent T))
      → new_metric_base limit ≡ ok new
      → update_all new es ≡ ok m
      → (length m.events ≤ limit.limit + 1) × (min_rate_limit_duration ≤ limit.duration)
  update_all-length limit {new} {m} es e done = (cases (update_all-cases new es done), made.2)
    where
      made :
          (new.rate_limit ≡ limit) × (new.events ≡ []) × (min_rate_limit_duration ≤ limit.duration)
      made = new_metric_base-ok limit e

      cases : (m ≡ new) ⊎ (0 < new.capacity) → length m.events ≤ limit.limit + 1
      cases (inl same) =
          let none_yet : length m.events ≡ 0 = ap (λ b. length b.events) same ∙ ap length made.1 in
          omega arith
      cases (inr room) =
          let (events, _) = replay-new limit es e room in
          let same = sym done ∙ update_all-replay new es room in
          let bound : length (replay new es).events ≤ limit.limit + 1 =
            rw events (omega (arith, length-drop (length es - (limit.limit + 1)) es)) in
          ground (arith, bound, same)
