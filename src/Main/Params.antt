-- ===== src/Main/Params.antt =====
-- src/main.go: the checks of the parameters in `entryPoint`.
use example_docker_volume_pl.Common.{
  ℕ, ◌-◌, ◌^◌, ◌&&◌, none, some, List, [], ◌∷◌, ◌++◌, ◌==◌, ltb, if◌then◌else◌,
}
use example_docker_volume_pl.Common.Map.{Map, lookup}
use example_docker_volume_pl.Common.Text.{Str, codes}
use example_docker_volume_pl.Os.{OsError, Stat}
use example_docker_volume_pl.Proc.Recovery.{
  RecoveryMode, ignore, restart, recovery_mode_parse, to_int,
}
use example_docker_volume_pl.Proc.Recovery as Recovery
use example_docker_volume_pl.Main.Flags.{Settings}

-- The levels of `log/slog`, by their names.
pub data Level : Type 0 where
  debug info warn error : Level

abbrev pub log_level_strings : Map Level
log_level_strings =
    (codes "debug", debug)
    ∷ (codes "info", info)
    ∷ (codes "warn", warn)
    ∷ (codes "error", error)
    ∷ []

-- The texts of `errors`.
pub data ParamError : Type 0 where
  not_accessible : OsError → ParamError
  not_a_directory : ParamError
  bad_log_level : Str → ParamError
  bad_recovery_mode : Str → ParamError
  bad_rate_limit : Str → ℕ → ParamError

-- The error of a path that is missing is ENOENT.
unfoldable pub mount_errors : Stat → List ParamError
mount_errors Stat.not_exist = not_accessible 2 ∷ []
mount_errors (Stat.unreadable e) = not_accessible e ∷ []
mount_errors (Stat.found is_dir file) = if is_dir then [] else not_a_directory ∷ []

unfoldable pub level_errors : Str → List ParamError
unfolding lookup
level_errors text = elim (lookup text log_level_strings) [
  | none ↦ bad_log_level text ∷ []
  | some l ↦ []
]

-- `RecoveryMode(-1)`
abbrev pub invalid_recovery_mode : RecoveryMode
invalid_recovery_mode = Recovery.other (2 ^ 64 - 1)

unfoldable pub recovery_errors : RecoveryMode → Str → ℕ → List ParamError
unfolding to_int
recovery_errors mode text limit =
    if to_int mode == to_int invalid_recovery_mode
    then bad_recovery_mode text ∷ []
    else if to_int mode == to_int restart && ltb limit 1
    then bad_rate_limit text limit ∷ []
    else []

-- The checks, from the answer of `Lstat` on. The list is the map of the names of modes in the order
-- in which it is visited.
unfoldable pub param_errors : List (RecoveryMode × Str) → Stat → Settings → List ParamError
unfolding mount_errors level_errors recovery_errors recovery_mode_parse
param_errors visited status s =
    mount_errors status
    ++ (level_errors s.log_level
        ++ recovery_errors (recovery_mode_parse visited s.recovery_mode invalid_recovery_mode)
            s.recovery_mode s.recovery_max_per_min)
