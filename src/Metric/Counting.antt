-- ===== src/Metric/Counting.antt =====
-- Counts of recent events: one event more, and a later time.
use example_docker_volume_pl.Common.{
  ℕ, ◌+◌, ◌≤◌, ◌<◌, ◌≡◌, List, [], ◌∷◌, ◌++◌, if◌then◌else◌, arith,
}
use example_docker_volume_pl.Metric.{MetricEvent, is_recent, count_recent}
use example_docker_volume_pl.Metric.Window.{IsHistory}

module _ {T : Type 0} where
  -- No event is later than a time.
  abbrev pub AllBefore : ℕ → List (MetricEvent T) → Type 0
  AllBefore t [] = Unit {0}
  AllBefore t (e ∷ es) = (e.time ≤ t) × AllBefore t es

  pub AllBefore-later :
      (t u : ℕ) (es : List (MetricEvent T)) → t ≤ u → AllBefore t es → AllBefore u es
  AllBefore-later t u [] h a = tt
  AllBefore-later t u (e ∷ es) h (b, a) = (omega arith, AllBefore-later t u es h a)

  pub AllBefore-append :
      (t : ℕ) (es : List (MetricEvent T)) (e : MetricEvent T)
      → AllBefore t es
      → e.time ≤ t
      → AllBefore t (es ++ e ∷ [])
  AllBefore-append t [] e a h = (h, tt)
  AllBefore-append t (d ∷ es) e (b, a) h = (b, AllBefore-append t es e a h)

  pub IsHistory-append :
      (from : ℕ) (es : List (MetricEvent T)) (e : MetricEvent T)
      → from ≤ e.time
      → IsHistory from es
      → AllBefore e.time es
      → IsHistory from (es ++ e ∷ [])
  IsHistory-append from [] e f h a = (f, tt)
  IsHistory-append from (d ∷ es) e f (g, h) (b, a) = (g, IsHistory-append d.time es e b h a)

  pub count_recent-append :
      (now d : ℕ) (es : List (MetricEvent T)) (e : MetricEvent T)
      → count_recent now d (es ++ e ∷ [])
        ≡ count_recent now d es + (if is_recent now d e then 1 else 0)
  unfolding count_recent
  count_recent-append now d [] e = ground arith
  count_recent-append now d (x ∷ es) e = ground (arith, count_recent-append now d es e)

  -- Less is recent at a later time.
  pub count_recent-later :
      (t u d : ℕ) (es : List (MetricEvent T)) → t ≤ u → count_recent u d es ≤ count_recent t d es
  unfolding count_recent
  count_recent-later t u d [] h = omega arith
  count_recent-later t u d (e ∷ es) h = ground (arith, count_recent-later t u d es h)

  -- Where fewer than a limit were recent, at most the limit are recent later, with one event more.
  pub count_recent_one_more :
      (t u d limit : ℕ) (es : List (MetricEvent T)) (e : MetricEvent T)
      → count_recent t d es < limit
      → t ≤ u
      → count_recent u d (es ++ e ∷ []) ≤ limit
  count_recent_one_more t u d limit es e h le =
      ground (arith, count_recent-append u d es e, count_recent-later t u d es le)
