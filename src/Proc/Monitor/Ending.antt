-- ===== src/Proc/Monitor/Ending.antt =====
-- `CancelProcess` and `KillProcess`.
use example_docker_volume_pl.Common.{
  ℕ, ◌≤◌, ◌≡◌, ◌∙◌, refl, ap, true, false, none, if◌then◌else◌, ltb, ok, arith,
}
use example_docker_volume_pl.Common.State.{M, ◌>>=◌, ◌>>◌}
use example_docker_volume_pl.Common.State.Laws.{>>=-step}
use example_docker_volume_pl.Os.{Os, ended, Signal, interrupt}
use example_docker_volume_pl.Proc.Monitor.{
  check_end, next_round, finish_restart, Error, Watch, second, stop, settle, after_end, round,
  let_run, receive_message, answer_or, interrupt_process, kill_process, cancel_process,
}

module _ (os : Os) (btime : ℕ) where
  open os use {World, wait, send_signal, start_process}

  -- What `KillProcess` and `CancelProcess` have in common, behind the test of the time.
  abbrev heard : M Error (Watch World) (Unit {0}) → M Error (Watch World) (Unit {0})
  heard last = receive_message os btime >>= λ answer. answer_or os btime answer last

  interrupt_process-ok :
      (signal : Signal) (s : Watch World) (w : World)
      → send_signal s.monitor.process signal s.world ≡ (none, w)
      → interrupt_process os btime signal s
        ≡ (ok tt, record s { monitor = record s.monitor { cancel = true }; world = w })
  unfolding interrupt_process
  interrupt_process-ok signal s w e = rw e

  let_run-ended :
      (timeout : ℕ) (s : Watch World) (w : World)
      → s.monitor.running ≡ true
      → s.monitor.cancel ≡ true
      → s.restarting ≡ false
      → wait s.monitor.process timeout s.world ≡ (ended, w)
      → let_run os btime timeout s
        ≡ (ok tt, record { monitor = stop none s.monitor; restarting = false; world = w })
  unfolding let_run next_round round after_end check_end stop
  let_run-ended timeout s w r c q e =
      ap
        (λ b.
          if b
          then (finish_restart os btime >> next_round os btime timeout) s
          else next_round os btime timeout s)
        q
      ∙ ap (λ p. settle s.monitor (round os btime p.0 s.monitor p.1)) e
      ∙ settled
    where
      settled :
          settle s.monitor (round os btime ended s.monitor w)
          ≡ (ok tt, record { monitor = stop none s.monitor; restarting = false; world = w })
      settled = ground arith

  -- A process that ends within the time after the interrupt: where the goroutine runs and is not in
  -- the middle of a restart, no message waits, the time is a second at least and the signal arrives,
  -- `CancelProcess` succeeds, whatever the recovery mode, and leaves a monitor that has stopped, with
  -- the cancel mark and no message.
  pub cancel_process-ended :
      (timeout : ℕ) (s : Watch World) (w1 w2 : World)
      → second ≤ timeout
      → s.monitor.running ≡ true
      → s.restarting ≡ false
      → s.monitor.message ≡ none
      → send_signal s.monitor.process interrupt s.world ≡ (none, w1)
      → wait s.monitor.process timeout w1 ≡ (ended, w2)
      → cancel_process os btime timeout s ≡ (
        ok tt,
        record {
          monitor = record s.monitor { cancel = true; message = none; running = false };
          restarting = false;
          world = w2;
        },
      )
  unfolding cancel_process receive_message stop
  cancel_process-ended timeout s w1 w2 t r q m e f =
      let b : ltb timeout second ≡ false = ground arith in
      let last = kill_process os btime timeout in
      let s1 : Watch World = record {
        monitor = record s.monitor { cancel = true; message = none };
        restarting = s.restarting;
        world = w1;
      } in
      let step1 =
        >>=-step (interrupt_process os btime interrupt)
          (λ _. let_run os btime timeout >> heard last)
          (interrupt_process-ok interrupt
            (record s { monitor = record s.monitor { message = none } }) w1 e) in
      let step2 =
        >>=-step (let_run os btime timeout) (λ _. heard last)
          (let_run-ended timeout s1 w2 r refl q f) in
      rw (b, m) (step1 ∙ step2)
