-- ===== src/Proc/Query/Identity.antt =====
-- Finding a process again by its identity.
use example_docker_volume_pl.Common.{
  ℕ, zero, suc, ◌%◌, ◌^◌, ◌<◌, ◌≡◌, refl, some, List, [], ◌∷◌, ◌++◌, ◌==◌, if◌then◌else◌, length,
  drop, Outcome, ok, err, panic, arith, All-append, append-nil, ap, ◌∙◌,
}
use example_docker_volume_pl.Common.State.{fail_if}
use example_docker_volume_pl.Common.State.Laws.{>>=-ok}
use example_docker_volume_pl.Utils.{atob}
use example_docker_volume_pl.Os.{Os}
use example_docker_volume_pl.Proc.Info.{
  ProcessInfo, Error, other_start_time, be_bytes, uint64, unique_id,
}
use example_docker_volume_pl.Proc.Info.UniqueId.{atob-hex, be_bytes-IsBytes, uint64-be_bytes}
use example_docker_volume_pl.Proc.Stat.Messages.{make_process_info-valid}
use example_docker_volume_pl.Proc.Query.{
  read_files, directory_error, get_process_info, get_process_info_with_timeout, try_rounds,
  get_process_info_from_unique_id, proc_path,
}

atob-unique_id :
    (pi : ProcessInfo) → atob (unique_id pi) ≡ ok (be_bytes 8 pi.pid ++ be_bytes 8 pi.start_time)
unfolding unique_id
atob-unique_id pi = atob-hex (be_bytes 8 pi.pid ++ be_bytes 8 pi.start_time) (
    All-append (λ b. b < 256) (be_bytes 8 pi.pid) (be_bytes 8 pi.start_time)
      (be_bytes-IsBytes 8 pi.pid) (be_bytes-IsBytes 8 pi.start_time))

drop-be_bytes : (n : ℕ) (rest : List ℕ) → drop 8 (be_bytes 8 n ++ rest) ≡ rest
unfolding be_bytes
drop-be_bytes n rest = refl

uint64_all : (n : ℕ) → n < 2 ^ 64 → uint64 (be_bytes 8 n) ≡ some n
uint64_all n h = rw append-nil at (uint64-be_bytes n [] h)

module _ (os : Os) (btime : ℕ) where
  open os use {World, sleep, lstat}

  -- The text that `UniqueId` made of a process finds what `GetProcessInfo` finds under its number,
  -- if that has the same start time, and an error if it has another one; the number and the start
  -- time must fit 64 bits.
  pub get_process_info_from_unique_id-unique_id :
      (pi found : ProcessInfo) (w w' : World)
      → pi.pid < 2 ^ 64
      → pi.start_time < 2 ^ 64
      → get_process_info os btime pi.pid w ≡ (ok found, w')
      → get_process_info_from_unique_id os btime (unique_id pi) w ≡ (
        (if pi.start_time == found.start_time % 2 ^ 64
            then ok found
            else err (other_start_time found.pid)),
        w',
      )
  unfolding get_process_info_from_unique_id
  get_process_info_from_unique_id-unique_id pi found w w' hp hs e = ground (
    arith,
    atob-unique_id pi,
    uint64-be_bytes pi.pid (be_bytes 8 pi.start_time) hp,
    drop-be_bytes pi.pid (be_bytes 8 pi.start_time),
    uint64_all pi.start_time hs,
  )

  read_files-valid :
      (pid : ℕ) (w : World) {w' : World} {pi : ProcessInfo}
      → read_files os btime pid w ≡ (ok pi, w')
      → (pi.pid ≡ pid) × (0 < length pi.cmdline)
  unfolding read_files
  read_files-valid pid w e = make_process_info-valid os.ticks btime _ pid _ _ (ap (λ r. r.0) e)

  get_process_info-valid :
      (pid : ℕ) (w : World) {w' : World} {pi : ProcessInfo}
      → get_process_info os btime pid w ≡ (ok pi, w')
      → (pi.pid ≡ pid) × (0 < length pi.cmdline)
  unfolding get_process_info
  get_process_info-valid pid w e =
      let (status, w1) = lstat (proc_path pid) w in
      let (_, w2, _, found) =
        >>=-ok (fail_if (directory_error pid status)) (λ _. read_files os btime pid) w1 e in
      read_files-valid pid w2 found

  -- One round, by what `GetProcessInfo` has returned.
  try_rounds-valid :
      (rounds : ℕ) (errs : List Error) (pause pid : ℕ) (w : World) {w' : World} {pi : ProcessInfo}
      → try_rounds os btime rounds errs pause pid w ≡ (ok pi, w')
      → (pi.pid ≡ pid) × (0 < length pi.cmdline)
  unfolding try_rounds
  try_rounds-valid zero errs pause pid w e = absurd (cc)
  try_rounds-valid (suc rounds) errs pause pid w {w'} {pi} e =
      go (get_process_info os btime pid w).0 refl
        (λ x.
          try_rounds-valid rounds (errs ++ x ∷ []) pause pid
            (sleep pause (get_process_info os btime pid w).1))
        e
    where
      go :
          (r : Outcome Error ProcessInfo)
          → (get_process_info os btime pid w).0 ≡ r
          → ((x : Error)
              → try_rounds os btime rounds
                  (errs ++ x ∷ [])
                  pause
                  pid
                  (sleep pause (get_process_info os btime pid w).1)
                ≡ (ok pi, w')
              → (pi.pid ≡ pid) × (0 < length pi.cmdline))
          → ◌≡◌ {A = Outcome Error ProcessInfo × World}
              (elim r [
                | ok pi ↦ (ok pi, (get_process_info os btime pid w).1)
                | err x ↦
                    try_rounds os btime rounds
                      (errs ++ x ∷ [])
                      pause
                      pid
                      (sleep pause (get_process_info os btime pid w).1)
                | panic ↦ (panic, (get_process_info os btime pid w).1)
              ])
              (ok pi, w')
          → (pi.pid ≡ pid) × (0 < length pi.cmdline)
      go (ok found) r again h =
          get_process_info-valid pid w {w' = w'}
            (λ i. ((r ∙ ap (λ q. q.0) h) i, (ap (λ q. q.1) h) i))
      go (err x) r again h = again x h
      go panic r again h = absurd (cc)

  -- A process that is found within the time has the number that was asked for, and an argument.
  pub get_process_info_with_timeout-valid :
      (timeout pause pid : ℕ) (w : World) {w' : World} {pi : ProcessInfo}
      → get_process_info_with_timeout os btime timeout pause pid w ≡ (ok pi, w')
      → (pi.pid ≡ pid) × (0 < length pi.cmdline)
  unfolding get_process_info_with_timeout
  get_process_info_with_timeout-valid timeout pause pid w e =
      let (rounds, w'') = os.polls timeout w in try_rounds-valid rounds [] pause pid w'' e
