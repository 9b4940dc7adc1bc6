-- ===== src/Proc/Query.antt =====
-- src/proc/proc.go: asking the system for a process, by its number, with a time limit, or by the text
-- that identifies it.
pub mod Identity
use mathlib.Core.List.{foldl}
use example_docker_volume_pl.Common.{
  ℕ, zero, suc, ◌+◌, ◌-◌, ◌*◌, ◌/◌, ◌%◌, ◌^◌, ◌≡◌, refl, Bool, true, false, not, ◌&&◌, ◌||◌, Option,
  none, some, List, [], ◌∷◌, ◌++◌, ◌==◌, ltb, if◌then◌else◌, length, get_elem?, drop, take, Outcome,
  ok, err, panic,
}
use example_docker_volume_pl.Common.State.{M, ◌>>=◌, ◌>>◌, call, fail_if, of_outcome}
use example_docker_volume_pl.Common.Text.{Str, codes, str_eq, is_space}
use example_docker_volume_pl.Common.Number.{parse_uint, itoa}
use example_docker_volume_pl.Utils.{atob, scan_all}
use example_docker_volume_pl.Utils
use example_docker_volume_pl.Os.{Os, OsError, Stat, Reading}
use example_docker_volume_pl.Proc.Info.{
  ProcessInfo, Error, system, no_such_pid, not_a_directory, bad_field, wrong_pid, no_arguments,
  timed_out, joined, bad_unique_id, other_start_time, uint64,
}
use example_docker_volume_pl.Proc.Stat.{make_process_info}

-- `filepath.Join(ProcPath, strconv.Itoa(pid))`; the number is the bit pattern of the `int`.
unfoldable pub proc_path : ℕ → Str
proc_path pid = codes "/proc/" ++ itoa pid

-- The errors for a path that is no directory.
unfoldable pub directory_error : ℕ → Stat → Option Error
directory_error pid Stat.not_exist = some (no_such_pid pid)
directory_error pid (Stat.unreadable e) = some (system e)
directory_error pid (Stat.found is_dir _) = if is_dir then none else some (not_a_directory pid)

-- The time of the last boot, which `Reset` has read, is `btime`.
module _ (os : Os) (btime : ℕ) where
  open os use {World, lstat, read_proc, schedule, ticks, polls, sleep}

  -- The part of `GetProcessInfo` behind the test of the directory.
  unfoldable pub read_files : ℕ → M Error World ProcessInfo
  read_files pid = do
    stat_file ← call (read_proc (proc_path pid ++ codes "/stat"))
    cmdline_file ← call (read_proc (proc_path pid ++ codes "/cmdline"))
    order ← call schedule
    of_outcome (make_process_info ticks btime order pid stat_file cmdline_file)

  -- `GetProcessInfo`
  unfoldable pub get_process_info : ℕ → M Error World ProcessInfo
  get_process_info pid = do
    status ← call (lstat (proc_path pid))
    fail_if (directory_error pid status)
    read_files pid

  -- The loop of `GetProcessInfoWithTimeout`: the first number is how often it still goes round
  -- before the context is done, the list holds the errors of the tries so far.
  try_rounds : ℕ → List Error → ℕ → ℕ → M Error World ProcessInfo
  try_rounds zero errs pause pid w = (err (foldl joined (timed_out (length errs)) errs), w)
  try_rounds (suc rounds) errs pause pid w =
      let (r, w') = get_process_info pid w in
      elim r [
        | ok pi ↦ (ok pi, w')
        | err e ↦ try_rounds rounds (errs ++ e ∷ []) pause pid (sleep pause w')
        | panic ↦ (panic, w')
      ]

  -- `GetProcessInfoWithTimeout`
  unfoldable pub get_process_info_with_timeout : ℕ → ℕ → ℕ → M Error World ProcessInfo
  unfolding try_rounds
  get_process_info_with_timeout timeout pause pid = do
    rounds ← call (polls timeout)
    try_rounds rounds [] pause pid

  -- `GetProcessInfoFromUniqueId`. `Uint64` panics on less than eight bytes.
  unfoldable pub get_process_info_from_unique_id : Str → M Error World ProcessInfo
  get_process_info_from_unique_id id w = elim (atob id) [
    | err e ↦ (err (bad_unique_id e), w)
    | panic ↦ (panic, w)
    | ok bytes ↦ elim (uint64 bytes) [
      | none ↦ (panic, w)
      | some pid ↦
          let (r, w') = get_process_info pid w in
          elim r [
            | err e ↦ (err e, w')
            | panic ↦ (panic, w')
            | ok pi ↦ elim (uint64 (drop 8 bytes)) [
              | none ↦ (panic, w')
              | some stt ↦
                  if stt == pi.start_time % 2 ^ 64
                  then (ok pi, w')
                  else (err (other_start_time pi.pid), w')
            ]
          ]
    ]
  ]
