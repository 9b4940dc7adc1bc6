-- ===== src/Metric/Window.antt =====
-- The bounded list of events is the end of the whole history.
use Prim.Native.Nat.{min}
use example_docker_volume_pl.Common.{
  ℕ, zero, suc, ◌+◌, ◌-◌, ◌≤◌, ◌<◌, ◌≡◌, refl, true, List, [], ◌∷◌, ◌++◌, leb, if◌then◌else◌,
  length, drop, arith, length-append, length-drop, ap, sym, dec_lt,
}
use example_docker_volume_pl.Metric.{MetricEvent, MetricBase, updated, count_recent}

module _ {T : Type 0} where
  -- The times of the events do not fall along the list and do not pass `now`.
  abbrev pub IsHistory : ℕ → List (MetricEvent T) → Type 0
  IsHistory from [] = Unit {0}
  IsHistory from (e ∷ es) = (from ≤ e.time) × IsHistory e.time es

  -- The last events of a history, as many as there is room for.
  abbrev pub last : ℕ → List (MetricEvent T) → List (MetricEvent T)
  last n es = drop (length es - n) es

  pub count_recent-le : (now d : ℕ) (es : List (MetricEvent T)) → count_recent now d es ≤ length es
  unfolding count_recent
  count_recent-le now d [] = omega arith
  count_recent-le now d (e ∷ es) = ground (arith, count_recent-le now d es)

  -- Behind a recent event all events are recent.
  count_recent_all :
      (now d from : ℕ) (es : List (MetricEvent T))
      → now < from + d
      → IsHistory from es
      → count_recent now d es ≡ length es
  unfolding count_recent
  count_recent_all now d from [] h s = refl
  count_recent_all now d from (e ∷ es) h s = ground (arith, count_recent_all now d e.time es)

  -- What is dropped in front counts only if all that is kept counts.
  pub count_recent-drop :
      (now d from k : ℕ) (es : List (MetricEvent T))
      → IsHistory from es
      → count_recent now d (drop k es) ≡ min (length es - k) (count_recent now d es)
  unfolding count_recent
  count_recent-drop now d from zero es s = omega (arith, count_recent-le now d es)
  count_recent-drop now d from (suc k) [] s = omega arith
  count_recent-drop now d from (suc k) (e ∷ es) s =
      ground (arith, count_recent-drop now d e.time k es s.1, count_recent_all now d e.time es)

  drop-append :
      (k : ℕ) (es fs : List (MetricEvent T)) → k ≤ length es → drop k (es ++ fs) ≡ drop k es ++ fs
  drop-append zero es fs h = refl
  drop-append (suc k) [] fs h = absurd (omega arith)
  drop-append (suc k) (e ∷ es) fs h = drop-append k es fs (omega arith)

  drop_one-drop : (k : ℕ) (es : List (MetricEvent T)) → drop 1 (drop k es) ≡ drop (suc k) es
  drop_one-drop zero [] = refl
  drop_one-drop zero (e ∷ es) = refl
  drop_one-drop (suc k) [] = refl
  drop_one-drop (suc k) (e ∷ es) = drop_one-drop k es

  -- What `Update` keeps of the events before it appends one.
  abbrev pub kept : ℕ → List (MetricEvent T) → List (MetricEvent T)
  kept capacity es = if leb capacity (length es) then drop (length es - capacity + 1) es else es

  kept-last :
      (n : ℕ) (past es : List (MetricEvent T))
      → 0 < n
      → es ≡ last n past
      → kept n es ≡ drop (length past + 1 - n) past
  kept-last n past es room e = elim (dec_lt (length past) n) [
    | yes h ↦
        let none_over : length past - n ≡ 0 = omega arith in
        let room_left : length past + 1 - n ≡ 0 = omega arith in
        rw (e, none_over, room_left) (ground arith)
    | no h ↦
        let full : length es ≡ n = omega (arith, ap length e, length-drop (length past - n) past) in
        let test : leb n (length es) ≡ true = ground arith in
        let one : length es - n + 1 ≡ 1 = omega arith in
        let later : length past + 1 - n ≡ suc (length past - n) = omega arith in
        rw (test, one, later, e) (drop_one-drop (length past - n) past)
  ]

  -- An updated of a list that holds the end of a history holds the end of the longer history.
  pub update-last :
      (m : MetricBase T) (past : List (MetricEvent T)) (now : ℕ) (v : T)
      → 0 < m.capacity
      → m.events ≡ last m.capacity past
      → (updated m now v).events ≡ last m.capacity (past ++ record { time = now; value = v } ∷ [])
  unfolding updated
  update-last m past now v room e =
      let new : List (MetricEvent T) = record { time = now; value = v } ∷ [] in
      rw (kept-last m.capacity past m.events room e, length-append past new)
        (sym (drop-append (length past + 1 - m.capacity) past new (omega arith)))
