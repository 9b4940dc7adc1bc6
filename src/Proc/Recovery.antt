-- ===== src/Proc/Recovery.antt =====
-- src/proc/proc_recovery.go: the recovery modes and their names.
pub mod Parsing
use example_docker_volume_pl.Common.{ℕ, List, [], ◌∷◌, if◌then◌else◌}
use example_docker_volume_pl.Common.Text.{Str, codes, str_eq, trim_space, to_lower}
use example_docker_volume_pl.Common.Number.{itoa}

-- The constants of `RecoveryMode`, and any other `int` by its bit pattern.
pub data RecoveryMode : Type 0 where
  ignore restart panic : RecoveryMode
  other : ℕ → RecoveryMode

-- The bit pattern of a mode.
unfoldable pub to_int : RecoveryMode → ℕ
to_int ignore = 0
to_int restart = 1
to_int panic = 2
to_int (other n) = n

-- `recoveryModeNames`, in one order in which `range` may visit it.
abbrev pub recovery_mode_names : List (RecoveryMode × Str)
recovery_mode_names =
    (ignore, codes "Ignore") ∷ (restart, codes "Restart") ∷ (panic, codes "Panic") ∷ []

-- `RecoveryMode.String`
unfoldable pub recovery_mode_string : RecoveryMode → Str
recovery_mode_string ignore = codes "Ignore"
recovery_mode_string restart = codes "Restart"
recovery_mode_string panic = codes "Panic"
recovery_mode_string (other n) = itoa n

-- The loop over the map, in the order of the list.
unfoldable pub find_mode : Str → RecoveryMode → List (RecoveryMode × Str) → RecoveryMode
unfolding to_lower str_eq
find_mode name default_mode [] = default_mode
find_mode name default_mode ((k, v) ∷ rest) =
    if str_eq name (to_lower v) then k else find_mode name default_mode rest

-- `RecoveryModeParse`; the list is the map in the order in which it is visited.
unfoldable pub recovery_mode_parse : List (RecoveryMode × Str) → Str → RecoveryMode → RecoveryMode
unfolding find_mode trim_space
recovery_mode_parse visited name default_mode =
    let name' = trim_space name in
    if str_eq name' [] then default_mode else find_mode (to_lower name') default_mode visited
