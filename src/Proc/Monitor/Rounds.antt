-- ===== src/Proc/Monitor/Rounds.antt =====
-- What one round of the monitoring goroutine does.
use example_docker_volume_pl.Common.{
  ℕ, refl, ◌≡◌, ◌⊎◌, inl, inr, Bool, some, true, false, none, List, [], ◌∷◌, ◌*◌, Outcome, ok, err,
  panic, arith, ap, ◌∙◌,
}
use example_docker_volume_pl.Metric.{update}
use example_docker_volume_pl.Os.{Os, Waited, ended}
use example_docker_volume_pl.Proc.Info.{ProcessInfo}
use example_docker_volume_pl.Proc.Query.{get_process_info_with_timeout}
use example_docker_volume_pl.Proc.Info
use example_docker_volume_pl.Proc.Monitor.{
  Error, ProcessMonitor, stop, adopt, started, restart_process, executable, second, check_end,
  after_end, round,
}

-- The goroutine has sent nothing while it runs, so the channel has room for its last message.
abbrev pub IsSound : ProcessMonitor → Type 0
IsSound m = (m.running ≡ false) ⊎ (m.message ≡ none)

adopt-IsSound :
    (pid time : ℕ) (r : Outcome Info.Error ProcessInfo) (m : ProcessMonitor) {m' : ProcessMonitor}
    → m.message ≡ none
    → adopt pid time r m ≡ ok m'
    → IsSound m'
unfolding adopt stop update
adopt-IsSound pid time (ok pi) m h e = inr (ground arith)
adopt-IsSound pid time (err x) m h e = inl (ground arith)
adopt-IsSound pid time panic m h e = absurd (cc)

module _ (os : Os) (btime : ℕ) where
  open os use {World}

  started-IsSound :
      (m : ProcessMonitor) (r : Outcome ℕ ℕ) (w : World) {m' : ProcessMonitor} {w' : World}
      → m.message ≡ none
      → started os btime m r w ≡ (ok m', w')
      → IsSound m'
  unfolding started stop
  started-IsSound m (err x) w h e = inl (ground arith)
  started-IsSound m panic w h e = absurd (cc)
  started-IsSound m (ok pid) w h e =
      let (found, w1) = get_process_info_with_timeout os btime (5 * second) second pid w in
      adopt-IsSound pid (os.now w1).0 found m h (ap (λ r. r.0) e)

  after_end-IsSound :
      (m : ProcessMonitor) (w : World) {m' : ProcessMonitor} {w' : World}
      → m.message ≡ none
      → after_end os btime m w ≡ (ok m', w')
      → IsSound m'
  unfolding after_end check_end restart_process stop
  after_end-IsSound m w {m'} {w'} h e =
      let w1 = (os.now w).1 in
      let (result, w2) = os.start_process (executable m.first_info) m.first_info.cmdline w1 in
      ground (arith, started-IsSound m result w2 {m' = m'} {w' = w'})

  -- A round keeps the channel empty while the goroutine runs.
  pub round-IsSound :
      (waited : Waited) (m : ProcessMonitor) (w : World) {m' : ProcessMonitor} {w' : World}
      → IsSound m
      → round os btime waited m w ≡ (ok m', w')
      → IsSound m'
  unfolding round stop
  round-IsSound Waited.running m w {m'} {w'} h e = ground arith
  round-IsSound (Waited.wait_failed x) m w {m'} {w'} h e = ground arith
  round-IsSound ended m w {m'} {w'} h e = ground (arith, after_end-IsSound m w {m' = m'} {w' = w'})

  -- A round of a monitor that is cancelled starts nothing.
  abbrev pub Stays : ProcessMonitor → World → Outcome Error ProcessMonitor × World → Type 0
  Stays m w r =
      (m' : ProcessMonitor) × (r ≡ (ok m', w))
      × (m'.cancel ≡ true)
      × (m'.process ≡ m.process)
      × (m'.metric ≡ m.metric)

  round_running : (m : ProcessMonitor) (w : World) → round os btime Waited.running m w ≡ (ok m, w)
  unfolding round
  round_running m w = ground arith

  round-Stays :
      (waited : Waited) (m : ProcessMonitor) (w : World)
      → m.cancel ≡ true
      → Stays m w (round os btime waited m w)
  unfolding round after_end check_end stop
  round-Stays Waited.running m w c = (m, round_running m w, c, refl, refl)
  round-Stays (Waited.wait_failed x) m w c = failed m.running refl
    where
      failed : (b : Bool) → m.running ≡ b → Stays m w (round os btime (Waited.wait_failed x) m w)
      failed true e = (stop (some (Error.system x)) m, ground arith, c, refl, refl)
      failed false e = (m, ground arith, c, refl, refl)
  round-Stays ended m w c = finished m.running refl
    where
      finished : (b : Bool) → m.running ≡ b → Stays m w (round os btime ended m w)
      finished true e = (stop none m, ground arith, c, refl, refl)
      finished false e = (m, ground arith, c, refl, refl)

  -- Rounds one after the other.
  unfoldable pub rounds :
      List Waited → ProcessMonitor → World → Outcome Error ProcessMonitor × World
  unfolding round
  rounds [] m w = (ok m, w)
  rounds (waited ∷ ws) m w =
      let (r, w') = round os btime waited m w in
      elim r [ ok m' ↦ rounds ws m' w' | err e ↦ (err e, w') | panic ↦ (panic, w') ]

  -- After it has been cancelled between two rounds, whatever `Wait` returns in however many rounds
  -- from there and in whichever recovery mode: the goroutine does not panic, starts no process, leaves
  -- the monitor on the same process, and counts no restart.
  pub rounds-Stays :
      (ws : List Waited) (m : ProcessMonitor) (w : World)
      → m.cancel ≡ true
      → Stays m w (rounds ws m w)
  unfolding rounds
  rounds-Stays [] m w c = (m, refl, c, refl, refl)
  rounds-Stays (waited ∷ ws) m w c =
      let (m1, e, c1, p1, q1) = round-Stays waited m w c in
      let (m2, f, c2, p2, q2) = rounds-Stays ws m1 w c1 in
      let first =
        ap
          (λ (r : Outcome Error ProcessMonitor × World). elim r.0 [
            | ok n ↦ rounds ws n r.1
            | err x ↦ (err x, r.1)
            | panic ↦ (panic, r.1)
          ])
          e in
      (m2, first ∙ f, c2, p2 ∙ p1, q2 ∙ q1)
