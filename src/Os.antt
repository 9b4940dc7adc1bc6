-- ===== src/Os.antt =====
-- The operating system as the program meets it: the calls of Go's packages `os`, `os/exec`,
-- `os/user`, `time` and `bufio` whose answers it does not determine. Each call may change the world.
use example_docker_volume_pl.Common.{ℕ, Bool, Option, List, Outcome}
use example_docker_volume_pl.Common.Text.{Str}
use example_docker_volume_pl.Utils.{FileInfo, User}

-- A number for each error of the system.
abbrev pub OsError : Type 0
OsError = ℕ

-- What `Lstat` and `Stat` say of a path.
pub data Stat : Type 0 where
  found : Bool → FileInfo → Stat
  not_exist : Stat
  unreadable : OsError → Stat

-- A small file that is opened, read to its end and closed.
pub data Reading : Type 0 where
  not_opened : OsError → Reading
  opened : Str → Option OsError → Option OsError → Reading

-- The command of `os/exec`. The flags stand for `Cancel != nil || WaitDelay != 0`, for a standard
-- file that is set, and for a process that has been started.
pub record Cmd : Type 0 where
  pub path : Str
  pub args : List Str
  pub has_context : Bool
  pub has_files : Bool
  pub has_process : Bool

-- `os.Interrupt` and the signal of `Process.Kill`.
pub data Signal : Type 0 where
  interrupt kill : Signal

-- What `Process.Wait` returned, within a time limit: nothing yet, the state of a process that
-- ended, or an error.
pub data Waited : Type 0 where
  running : Waited
  ended : Waited
  wait_failed : OsError → Waited

pub record Os : Type 1 where
  pub World : Type 0
  pub lstat : Str → World → Stat × World
  pub stat : Str → World → Stat × World
  pub mkdir_all : Str → World → Option OsError × World
  pub remove : Str → World → Option OsError × World
  -- The control file: opening it, and the three calls on it that may fail.
  pub open_file : Str → World → Option OsError × World
  pub seek : World → Option OsError × World
  pub truncate : World → Option OsError × World
  pub read_all : World → Option OsError × World
  -- Where a write fails, the number of bytes that it has written.
  pub write : World → Option (ℕ × OsError) × World
  pub now : World → ℕ × World
  pub current_user : World → Outcome OsError User × World
  -- A file below /proc.
  pub read_proc : Str → World → Reading × World
  -- `uname`: the bytes of the release, with the null characters behind it.
  pub uname : World → Outcome OsError (List ℕ) × World
  -- How often a loop goes round before its context is done, and a pause.
  pub polls : ℕ → World → ℕ × World
  pub sleep : ℕ → World → World
  -- Which goroutine is heard first and then, and which of two map entries is visited first.
  pub schedule : World → (Bool × Bool × Bool) × World
  pub start_process : Str → List Str → World → Outcome OsError ℕ × World
  pub release : ℕ → World → Option OsError × World
  pub find_process : ℕ → World → Option OsError × World
  pub send_signal : ℕ → Signal → World → Option OsError × World
  -- Waiting for a process, at most for a time.
  pub wait : ℕ → ℕ → World → Waited × World
  -- The duration of so many clock ticks, which the program computes in floating point.
  pub ticks : ℕ → ℕ
