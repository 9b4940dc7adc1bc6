-- ===== src/Main/Checks.antt =====
-- What the checks of `entryPoint` let through.
use example_docker_volume_pl.Common.{
  ℕ, ◌≡◌, ◌≤◌, refl, ◌⊎◌, ◌↔◌, true, false, List, [], ◌∷◌, ◌++◌, arith,
}
use example_docker_volume_pl.Common.Map.{lookup}
use example_docker_volume_pl.Common.Text.{Str, codes, str_eq_iff, to_lower, trim_space}
use example_docker_volume_pl.Os.{Stat}
use example_docker_volume_pl.Utils.{FileInfo}
use example_docker_volume_pl.Proc.Recovery.{RecoveryMode, to_int}
use example_docker_volume_pl.Proc.Recovery.Parsing.{IsVisit, mode_named, recovery_mode_parse-mode}
use example_docker_volume_pl.Main.Flags.{Settings}
use example_docker_volume_pl.Main.Params.{
  ParamError, mount_errors, level_errors, recovery_errors, param_errors, invalid_recovery_mode,
}

-- The path is a folder.
abbrev pub IsFolder : Stat → Type 0
IsFolder status = (file : FileInfo) × (status ≡ Stat.found true file)

abbrev pub IsLevel : Str → Type 0
IsLevel text =
    (text ≡ codes "debug")
    ⊎ ((text ≡ codes "info") ⊎ ((text ≡ codes "warn") ⊎ (text ≡ codes "error")))

-- A name of a mode, in small letters, with a limit where processes are restarted.
abbrev pub IsMode : Str → ℕ → Type 0
IsMode name limit =
    (name ≡ codes "ignore") ⊎ ((name ≡ codes "panic") ⊎ ((name ≡ codes "restart") × (1 ≤ limit)))

-- The settings that pass.
abbrev pub IsChecked : Stat → Settings → Type 0
IsChecked status s =
    IsFolder status
    × IsLevel s.log_level
    × IsMode (to_lower (trim_space s.recovery_mode)) s.recovery_max_per_min

append-nil_parts : (xs ys : List ParamError) → xs ++ ys ≡ [] → (xs ≡ []) × (ys ≡ [])
append-nil_parts [] ys h = (refl, h)
append-nil_parts (x ∷ xs) ys h = absurd (cc)

mount_errors-nil : (status : Stat) → mount_errors status ≡ [] → IsFolder status
unfolding mount_errors
mount_errors-nil Stat.not_exist h = absurd (cc)
mount_errors-nil (Stat.unreadable e) h = absurd (cc)
mount_errors-nil (Stat.found true file) h = (file, refl)
mount_errors-nil (Stat.found false file) h = absurd (cc)

mount_errors-folder : (status : Stat) → IsFolder status → mount_errors status ≡ []
unfolding mount_errors
mount_errors-folder status (file, e) = rw e refl

level_errors_iff : (text : Str) → (level_errors text ≡ []) ↔ IsLevel text
unfolding level_errors lookup
level_errors_iff text = ground (
  arith,
  str_eq_iff (codes "debug") text,
  str_eq_iff (codes "info") text,
  str_eq_iff (codes "warn") text,
  str_eq_iff (codes "error") text,
)

recovery_errors_iff :
    (name text : Str) (limit : ℕ)
    → (recovery_errors (mode_named name invalid_recovery_mode) text limit ≡ []) ↔ IsMode name limit
unfolding recovery_errors to_int
recovery_errors_iff name text limit = ground (
  arith,
  str_eq_iff name (codes "ignore"),
  str_eq_iff name (codes "restart"),
  str_eq_iff name (codes "panic"),
)

-- The checks find nothing wrong just where the path of the volumes is a folder, the log level is one
-- of the four, and the recovery mode is one of the three, in any mix of letters, with a limit of at
-- least 1 where processes are restarted; in whichever order the map of the modes is visited.
pub param_errors-nil_iff :
    (visited : List (RecoveryMode × Str)) (status : Stat) (s : Settings)
    → IsVisit visited
    → (param_errors visited status s ≡ []) ↔ IsChecked status s
unfolding param_errors
param_errors-nil_iff visited status s v =
    let mode = recovery_mode_parse-mode visited s.recovery_mode invalid_recovery_mode v in
    let name = to_lower (trim_space s.recovery_mode) in
    let modes = recovery_errors_iff name s.recovery_mode s.recovery_max_per_min in
    let levels = level_errors_iff s.log_level in
    (
      λ h.
          let (a, rest) = append-nil_parts (mount_errors status) _ h in
          let (b, c) = append-nil_parts (level_errors s.log_level) _ rest in
          (mount_errors-nil status a, levels.0 b, modes.0 (rw mode at c)),
      λ (f, l, m). rw (mount_errors-folder status f, levels.1 l, mode) (modes.1 m),
    )
