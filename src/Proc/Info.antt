-- ===== src/Proc/Info.antt =====
-- src/proc/proc.go: what the program knows of a process, and the text that identifies one.
pub mod UniqueId
use mathlib.Core.List.{foldl}
use example_docker_volume_pl.Common.{
  ℕ, zero, suc, ◌+◌, ◌-◌, ◌*◌, ◌/◌, ◌%◌, ◌^◌, ◌≡◌, refl, Bool, true, false, not, ◌&&◌, ◌||◌, Option,
  none, some, List, [], ◌∷◌, ◌++◌, ◌==◌, ltb, if◌then◌else◌, length, get_elem?, drop, take, Outcome,
  ok, err, panic,
}
use example_docker_volume_pl.Common.State.{M, ◌>>=◌, ◌>>◌, call, fail_if, of_outcome}
use example_docker_volume_pl.Common.Text.{Str, codes, str_eq, is_space}
use example_docker_volume_pl.Common.Number.{parse_uint, itoa}
use example_docker_volume_pl.Utils.{atob, scan_all}
use example_docker_volume_pl.Utils.Hashes.{hex}
use example_docker_volume_pl.Utils
use example_docker_volume_pl.Os.{Os, OsError, Stat, Reading}

-- `State` is a text, as in the source.
pub record ProcessInfo : Type 0 where
  pub pid : ℕ
  pub comm : Str
  pub state : Str
  pub start_time : ℕ
  pub cmdline : List Str

-- `joined` is `errors.Join`.
pub data Error : Type 0 where
  system : OsError → Error
  no_such_pid : ℕ → Error
  not_a_directory : ℕ → Error
  bad_field : ℕ → Error
  wrong_pid : ℕ → Error
  no_arguments : Error
  timed_out : ℕ → Error
  joined : Error → Error → Error
  bad_unique_id : Utils.Error → Error
  other_start_time : ℕ → Error

-- `binary.BigEndian.PutUint64`, here with the number of bytes.
unfoldable pub be_bytes : ℕ → ℕ → List ℕ
be_bytes zero n = []
be_bytes (suc k) n = n / 256 ^ k % 256 ∷ be_bytes k n

-- `ProcessInfo.UniqueId`; the start time is in nanoseconds since the epoch.
unfoldable pub unique_id : ProcessInfo → Str
unfolding be_bytes
unique_id pi = hex (be_bytes 8 pi.pid ++ be_bytes 8 pi.start_time)

-- The value of bytes, the most significant first.
unfoldable pub be_value : List ℕ → ℕ → ℕ
be_value [] n = n
be_value (b ∷ bytes) n = be_value bytes (n * 256 + b)

-- `binary.BigEndian.Uint64`, which panics on a slice of less than eight bytes: `none`.
unfoldable pub uint64 : List ℕ → Option ℕ
unfolding be_value
uint64 bytes = if ltb (length bytes) 8 then none else some (be_value (take 8 bytes) 0)
