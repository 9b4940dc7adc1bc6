-- ===== src/Main/Exit.antt =====
-- How `entryPoint` ends.
use example_docker_volume_pl.Common.{
  ℕ, ◌≡◌, refl, ap, ◌∙◌, Bool, true, false, Option, none, some, List, [], ◌∷◌, arith, if◌then◌else◌,
  Outcome, ok, err, panic,
}
use example_docker_volume_pl.Common.Options.{◌>>=◌}
use example_docker_volume_pl.Common.Text.{Str, codes, str_eq, str_eq_refl, trim_space}
use example_docker_volume_pl.Os.{Os}
use example_docker_volume_pl.Driver.{Library, Driver}
use example_docker_volume_pl.Mount.Options as MountOptions
use example_docker_volume_pl.Proc.Recovery.{RecoveryMode, recovery_mode_parse}
use example_docker_volume_pl.Proc.Recovery.Parsing.{IsVisit}
use example_docker_volume_pl.Main.Flags.{
  Settings, Environment, lookup_env, from_environment, mount_options_env, command_options_env,
}
use example_docker_volume_pl.Main.Parsing.{parse_args}
use example_docker_volume_pl.Main.Entry.{
  Host, Ended, early, late, exit_code_error, exit_code_usage, exit_code_param, exit_code_help,
  exit_code_ok, initial, start, checked, after_parsing, entry_point,
}
use example_docker_volume_pl.Main.Params.{ParamError, param_errors, invalid_recovery_mode}
use example_docker_volume_pl.Main.Checks.{IsChecked, param_errors-nil_iff}

-- The settings of the environment and the command line together.
abbrev pub settings_of : Environment → List Str → Option Settings
settings_of env args = from_environment env >>= parse_args args

-- Nothing asks for a text only.
abbrev pub IsQuiet : Settings → Type 0
IsQuiet s = (s.show_help ≡ false) × (s.show_version ≡ false) × (s.show_build_info ≡ false)

set_options-blank :
    (e : Str) → trim_space e ≡ [] → MountOptions.set_options (some []) e ≡ err MountOptions.no_value
unfolding MountOptions.set_options
set_options-blank e t = ground (arith, ap (λ s. str_eq s []) t, str_eq_refl [])

mount_options_env-blank :
    (env : Environment) (e : Str)
    → lookup_env env (codes "MOUNT_OPTIONS") ≡ some e
    → trim_space e ≡ []
    → mount_options_env env ≡ none
mount_options_env-blank env e h t =
    ap
      (λ (o : Option Str). elim o as (λ _. Option (Option (List MountOptions.MountOption))) [
        | none ↦ some (some [])
        | some e ↦ read (MountOptions.set_options (some []) e)
      ])
      h
    ∙ ap read (set_options-blank e t)
  where
    read :
        Outcome MountOptions.Error (List MountOptions.MountOption)
        → Option (Option (List MountOptions.MountOption))
    read (ok os) = some (some os)
    read (err _) = none
    read panic = none

none_second :
    {A B C : Type 0} (o : Option A) (m : Option B) (k : A → B → Option C)
    → m ≡ none
    → (o >>= λ a. m >>= k a) ≡ none
none_second none m k h = refl
none_second (some a) m k h = ap (λ m. m >>= k a) h

from_environment-blank :
    (env : Environment) (e : Str)
    → lookup_env env (codes "MOUNT_OPTIONS") ≡ some e
    → trim_space e ≡ []
    → from_environment env ≡ none
unfolding from_environment
from_environment-blank env e h t =
    none_second (command_options_env env) (mount_options_env env) _
      (mount_options_env-blank env e h t)

module _ {W : Type 0} {code : ℕ} {d : Driver W} where
  if_late :
      (b : Bool) (c : ℕ) (w : W) (e : Ended W)
      → ◌≡◌ {A = Ended W} (elim b [ true ↦ early c w | false ↦ e ]) (late code d)
      → (b ≡ false) × (e ≡ late code d)
  if_late true c w e h = absurd (cc)
  if_late false c w e h = (refl, h)

  some_late :
      (o : Option Settings) (c : ℕ) (w : W) (f : Settings → Ended W)
      → ◌≡◌ {A = Ended W} (elim o [ none ↦ early c w | some s ↦ f s ]) (late code d)
      → (s : Settings) × (o ≡ some s) × (f s ≡ late code d)
  some_late none c w f h = absurd (cc)
  some_late (some s) c w f h = (s, refl, h)

  nil_late :
      (es : List ParamError) (c : ℕ) (w : W) (e : Ended W)
      → ◌≡◌ {A = Ended W} (elim es [ x ∷ xs ↦ early c w | [] ↦ e ]) (late code d)
      → es ≡ []
  nil_late [] c w e h = refl
  nil_late (x ∷ xs) c w e h = absurd (cc)

module _ (os : Os) (lib : Library) (btime : ℕ) (host : Host (os.World)) where
  open os use {World, lstat}

  checked-late :
      (visited : List (RecoveryMode × Str)) (file : Str) (s : Settings) (w : World) (code : ℕ)
      (d : Driver World)
      → checked os lib btime host visited file s w ≡ late code d
      → param_errors visited (lstat s.propagated_mount w).0 s ≡ []
  unfolding checked
  checked-late visited file s w code d h =
      nil_late (param_errors visited (lstat s.propagated_mount w).0 s) exit_code_param
        (lstat s.propagated_mount w).1
        (start os lib btime host (recovery_mode_parse visited s.recovery_mode invalid_recovery_mode)
          s (initial os lib btime host s file (lstat s.propagated_mount w).1))
        h

  after_parsing-late :
      (visited : List (RecoveryMode × Str)) (file : Str) (s : Settings) (w : World) (code : ℕ)
      (d : Driver World)
      → after_parsing os lib btime host visited file s w ≡ late code d
      → IsQuiet s × (param_errors visited (lstat s.propagated_mount w).0 s ≡ [])
  unfolding after_parsing
  after_parsing-late visited file s w code d h =
      let e3 = checked os lib btime host visited file s w in
      let code3 = if host.has_build_info then exit_code_ok else exit_code_error in
      let e2 : Ended World = elim s.show_build_info [ true ↦ early code3 w | false ↦ e3 ] in
      let e1 : Ended World = elim s.show_version [ true ↦ early exit_code_ok w | false ↦ e2 ] in
      let (help, h1) = if_late s.show_help exit_code_help w e1 h in
      let (version, h2) = if_late s.show_version exit_code_ok w e2 h1 in
      let (info, h3) = if_late s.show_build_info code3 w e3 h2 in
      ((help, version, info), checked-late visited file s w code d h3)

  -- The program makes a driver only of settings that pass the checks: the flags for help, version and
  -- build information are not set, the path of the volumes is a folder, the log level and the
  -- recovery mode are known, and a mode that restarts has a limit of at least 1.
  pub entry_point-late :
      (env : Environment) (visited : List (RecoveryMode × Str)) (file : Str) (args : List Str)
      (w : World) (code : ℕ) (d : Driver World)
      → IsVisit visited
      → entry_point os lib btime host env visited file args w ≡ late code d
      → (s : Settings) × (settings_of env args ≡ some s)
        × IsQuiet s
        × IsChecked (lstat s.propagated_mount w).0 s
  unfolding entry_point
  entry_point-late env visited file args w code d v h =
      let parsed : Settings → Ended World = λ defaults. elim (parse_args args defaults) [
        | none ↦ early exit_code_usage w
        | some s ↦ after_parsing os lib btime host visited file s w
      ] in
      let (defaults, e, h1) = some_late (from_environment env) exit_code_error w parsed h in
      let (s, f, h2) =
        some_late (parse_args args defaults) exit_code_usage w
          (λ s. after_parsing os lib btime host visited file s w) h1 in
      let (quiet, errors) = after_parsing-late visited file s w code d h2 in
      (
        s,
        ap (λ o. o >>= parse_args args) e ∙ f,
        quiet,
        (param_errors-nil_iff visited (lstat s.propagated_mount w).0 s v).0 errors,
      )

  -- Mount options in the environment that are white space only end the program with an error, unlike
  -- blank options of the volume process, whatever the command line says.
  pub entry_point-blank :
      (env : Environment) (visited : List (RecoveryMode × Str)) (file : Str) (args : List Str)
      (w : World) (e : Str)
      → lookup_env env (codes "MOUNT_OPTIONS") ≡ some e
      → trim_space e ≡ []
      → entry_point os lib btime host env visited file args w ≡ early exit_code_error w
  unfolding entry_point
  entry_point-blank env visited file args w e h t =
      ap
        (λ (o : Option Settings). elim o as (λ _. Ended World) [
          | none ↦ early exit_code_error w
          | some defaults ↦ elim (parse_args args defaults) [
            | none ↦ early exit_code_usage w
            | some s ↦ after_parsing os lib btime host visited file s w
          ]
        ])
        (from_environment-blank env e h t)
