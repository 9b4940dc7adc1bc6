-- ===== src/Proc/Status.antt =====
-- src/proc/proc.go: the states of a process and their names, which depend on the kernel's release.
pub mod Releases
pub mod Adding
pub mod Names
use example_docker_volume_pl.Common.{
  ℕ, Bool, true, false, ◌&&◌, Option, none, some, List, [], ◌∷◌, if◌then◌else◌, Outcome, ok, err,
  panic,
}
use example_docker_volume_pl.Common.Int.{is_negative, is_nonneg, is_nonpos}
use example_docker_volume_pl.Common.Map.{Map, lookup, insert}
use example_docker_volume_pl.Common.State.{
  M, ◌>>=◌, ◌>>◌, return, crash, modify, of_outcome, with_errors,
}
use example_docker_volume_pl.Common.Text.{Str, codes}
use example_docker_volume_pl.Os.{OsError}
use example_docker_volume_pl.Semver.{VersionInfo, parse, compare}
use example_docker_volume_pl.Semver

-- A text, as in the source; the constants of the type.
abbrev pub ProcessStatus : Type 0
ProcessStatus = Str

abbrev pub running : ProcessStatus
running = codes "R"

abbrev pub sleeping : ProcessStatus
sleeping = codes "S"

abbrev pub waiting : ProcessStatus
waiting = codes "D"

abbrev pub zombie : ProcessStatus
zombie = codes "Z"

abbrev pub stopped : ProcessStatus
stopped = codes "T"

abbrev pub tracing : ProcessStatus
tracing = codes "t"

abbrev pub paging : ProcessStatus
paging = codes "W"

abbrev pub dead : ProcessStatus
dead = codes "X"

abbrev pub dead_small : ProcessStatus
dead_small = codes "x"

abbrev pub wakekill : ProcessStatus
wakekill = codes "K"

abbrev pub waking : ProcessStatus
waking = codes "W"

abbrev pub parked : ProcessStatus
parked = codes "P"

abbrev pub idle : ProcessStatus
idle = codes "I"

-- The variables of the package that `Reset` sets: `BTime` in seconds (the bit pattern of an
-- `int64`), `Release` and `ProcessStatusNames`.
pub record Globals : Type 0 where
  pub btime : ℕ
  pub release : Option VersionInfo
  pub process_status_names : Map Str

-- What goes wrong in `Reset`.
pub data Error : Type 0 where
  system : OsError → Error
  bad_btime : Str → Error
  bad_version : Semver.Error → Error
  already_exists : ProcessStatus → Error

-- `ProcessStatus.String`
unfoldable pub process_status_string : Map Str → ProcessStatus → Str
unfolding lookup
process_status_string names ps = elim (lookup ps names) [
  | some process_status_name ↦ process_status_name
  | none ↦ ps
]

-- `addNew`
unfoldable pub add_new : List (ProcessStatus × Str) → M Error Globals (Unit {0})
unfolding lookup insert
add_new [] g = (ok tt, g)
add_new ((state, text) ∷ add) g = elim (lookup state g.process_status_names) [
  | some _ ↦ (err (already_exists state), g)
  | none ↦
      add_new add (record g { process_status_names = insert state text g.process_status_names })
]

-- `if cond { if err := addNew(…); err != nil { return err } }`
unfoldable pub add_if : Bool → List (ProcessStatus × Str) → M Error Globals (Unit {0})
unfolding add_new
add_if cond add g = if cond then add_new add g else (ok tt, g)

abbrev pub first_states : List (ProcessStatus × Str)
first_states =
    (running, codes "Running")
    ∷ (sleeping, codes "Sleeping in an interruptible wait")
    ∷ (waiting, codes "Waiting in uninterruptible disk sleep")
    ∷ (zombie, codes "Zombie")
    ∷ (stopped, codes "Stopped (on a signal) or (before Linux 2.6.33) trace stopped")
    ∷ []

abbrev pub tracing_states : List (ProcessStatus × Str)
tracing_states = (tracing, codes "Tracing stop (Linux 2.6.33 onward)") ∷ []

abbrev pub paging_states : List (ProcessStatus × Str)
paging_states = (paging, codes "Paging (only before Linux 2.6.0)") ∷ []

abbrev pub dead_states : List (ProcessStatus × Str)
dead_states = (dead, codes "Dead (from Linux 2.6.0 onward)") ∷ []

abbrev pub waking_states : List (ProcessStatus × Str)
waking_states =
    (dead_small, codes "Dead (Linux 2.6.33 to 3.13 only)")
    ∷ (wakekill, codes "Wakekill (Linux 2.6.33 to 3.13 only)")
    ∷ (waking, codes "Waking (Linux 2.6.33 to 3.13 only)")
    ∷ []

abbrev pub parked_states : List (ProcessStatus × Str)
parked_states = (parked, codes "Parked (Linux 3.9 to 3.13 only)") ∷ []

abbrev pub idle_states : List (ProcessStatus × Str)
idle_states = (idle, codes "Idle (Linux 4.14 onward)") ∷ []

-- The states behind the first ones, where the release is none too old or too new for them.
unfoldable pub add_by_release :
    VersionInfo
    → VersionInfo
    → VersionInfo
    → VersionInfo
    → VersionInfo
    → VersionInfo
    → M Error Globals (Unit {0})
unfolding add_if
add_by_release linux_2_6_0 linux_2_6_33 linux_3_9 linux_3_13 linux_4_14 release = do
  add_if (is_nonneg (compare release linux_2_6_33)) tracing_states
  add_if (is_negative (compare release linux_2_6_0)) paging_states
  add_if (is_nonneg (compare release linux_2_6_0)) dead_states
  add_if (is_nonneg (compare release linux_2_6_33) && is_nonpos (compare release linux_3_13))
      waking_states
  add_if (is_nonneg (compare release linux_3_9) && is_nonpos (compare release linux_3_13))
      parked_states
  add_if (is_nonneg (compare release linux_4_14)) idle_states

-- `semver.Parse` of a text of the source.
abbrev pub version : Str → M Error Globals VersionInfo
version v = with_errors bad_version (of_outcome (parse v))

-- `*release`
abbrev pub deref : Option VersionInfo → M Error Globals VersionInfo
deref none = crash
deref (some r) = return r

-- `if nil == release { release = Release }`
abbrev pub release_or : Option VersionInfo → Globals → Option VersionInfo
release_or none g = g.release
release_or (some r) g = some r

-- `loadProcessStatusNames` once `release` is set.
unfoldable pub load_for : Option VersionInfo → M Error Globals (Unit {0})
unfolding add_by_release add_new parse compare
load_for release = do
  linux_2_6_0 ← version (codes "2.6.0")
  linux_2_6_33 ← version (codes "2.6.33")
  linux_3_9 ← version (codes "3.9")
  linux_3_13 ← version (codes "3.13")
  linux_4_14 ← version (codes "4.14")
  modify (λ g. record g { process_status_names = [] })
  add_new first_states
  r ← deref release
  add_by_release linux_2_6_0 linux_2_6_33 linux_3_9 linux_3_13 linux_4_14 r

-- `loadProcessStatusNames`
unfoldable pub load_process_status_names : Option VersionInfo → M Error Globals (Unit {0})
unfolding load_for
load_process_status_names release g = load_for (release_or release g) g
