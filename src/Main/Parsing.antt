-- ===== src/Main/Parsing.antt =====
-- src/main.go: what `flag.FlagSet.Parse` does with the command line of the plugin.
use example_docker_volume_pl.Common.{
  ℕ, Bool, true, false, ◌&&◌, ◌||◌, not, Option, none, some, List, [], ◌∷◌, ◌==◌, ltb, leb,
  if◌then◌else◌, length, Outcome, ok, err, panic, drop,
}
use example_docker_volume_pl.Common.Options.{◌>>=◌}
use example_docker_volume_pl.Common.Text.{Str, codes, str_eq, split_two, starts_with, to_lower}
use example_docker_volume_pl.Common.Number.{parse_uint}
use example_docker_volume_pl.Utils.{where_true}
use example_docker_volume_pl.Mount.Options as MountOptions
use example_docker_volume_pl.Proc.Options as CommandOptions
use example_docker_volume_pl.Main.Flags.{Settings, parse_bool}

is_digit : Bool → ℕ → Bool
is_digit hex c =
    (leb b'0' c && leb c b'9')
    || (hex && leb b'a' c && leb c b'f')
    || (hex && leb b'A' c && leb c b'F')

-- `underscoreOK` of `strconv`, behind the prefix: the flags say whether a digit stands before, and
-- whether an underscore does.
underscores_ok : Bool → Str → Bool → Bool → Bool
unfolding is_digit
underscores_ok hex [] digit under = not under
underscores_ok hex (c ∷ s) digit under = elim (is_digit hex c) [
  | true ↦ underscores_ok hex s true false
  | false ↦ elim (c == b'_') [
    | true ↦ if digit then underscores_ok hex s false true else false
    | false ↦ if under then false else underscores_ok hex s false false
  ]
]

without_underscores : Str → Str
without_underscores s = where_true s (λ c. not (c == b'_'))

-- The digits behind a prefix; a zero before them counts as a digit.
in_base : ℕ → Bool → Str → Option ℕ
unfolding underscores_ok without_underscores parse_uint
in_base base zero_before s =
    if underscores_ok (base == 16) s zero_before false
    then (if str_eq s [] then some 0 else parse_uint base 64 (without_underscores s))
    else none

-- `strconv.ParseUint` to base 0, which reads the base from the text.
unfoldable pub parse_uint_any : Str → Option ℕ
unfolding in_base
parse_uint_any s =
    if starts_with (codes "0b") (to_lower s) && ltb 2 (length s)
    then in_base 2 true (drop 2 s)
    else if starts_with (codes "0o") (to_lower s) && ltb 2 (length s)
    then in_base 8 true (drop 2 s)
    else if starts_with (codes "0x") (to_lower s) && ltb 2 (length s)
    then in_base 16 true (drop 2 s)
    else if starts_with (codes "0") s
    then in_base 8 true (drop 1 s)
    else if str_eq s []
    then none
    else in_base 10 false s

-- The flags that `entryPoint` defines.
pub data Flag : Type 0 where
  help version build_info log_level log_source propagated_mount : Flag
  volume_process_binary recovery_mode recovery_max_per_min : Flag
  command_option announcement mount_option : Flag

abbrev pub flag_names : List (Str × Flag)
flag_names =
    (codes "help", help)
    ∷ (codes "version", version)
    ∷ (codes "build-info", build_info)
    ∷ (codes "log-level", log_level)
    ∷ (codes "log-source", log_source)
    ∷ (codes "propagated-mount", propagated_mount)
    ∷ (codes "volume-process-binary", volume_process_binary)
    ∷ (codes "volume-process-recovery-mode", recovery_mode)
    ∷ (codes "volume-process-recovery-max-per-min", recovery_max_per_min)
    ∷ (codes "c", command_option)
    ∷ (codes "mount-options-volume-process-option", announcement)
    ∷ (codes "o", mount_option)
    ∷ []

abbrev pub find_flag : Str → List (Str × Flag) → Option Flag
find_flag name [] = none
find_flag name ((n, f) ∷ rest) = if str_eq n name then some f else find_flag name rest

abbrev pub is_bool : Flag → Bool
is_bool help = true
is_bool version = true
is_bool build_info = true
is_bool log_source = true
is_bool f = false

abbrev pub to_option {ℓ κ} : {E : Type ℓ} {A : Type κ} → Outcome E A → Option A
to_option (ok a) = some a
to_option (err e) = none
to_option panic = none

-- `Set` of a flag's value.
unfoldable pub set_flag : Flag → Str → Settings → Option Settings
unfolding parse_bool parse_uint_any
set_flag help value s = do b ← parse_bool value; some (record s { show_help = b })
set_flag version value s = do b ← parse_bool value; some (record s { show_version = b })
set_flag build_info value s = do b ← parse_bool value; some (record s { show_build_info = b })
set_flag log_level value s = some (record s { log_level = value })
set_flag log_source value s = do b ← parse_bool value; some (record s { log_source = b })
set_flag propagated_mount value s = some (record s { propagated_mount = value })
set_flag volume_process_binary value s = some (record s { volume_process_binary = value })
set_flag recovery_mode value s = some (record s { recovery_mode = value })
set_flag recovery_max_per_min value s = do
  n ← parse_uint_any value
  some (record s { recovery_max_per_min = n })
set_flag command_option value s = do
  o ← to_option (CommandOptions.set_options s.volume_process_options value)
  some (record s { volume_process_options = o })
set_flag announcement value s = some (record s { announcement = value })
set_flag mount_option value s = do
  os ← to_option (MountOptions.set_options s.mount_options value)
  some (record s { mount_options = some os })

-- What an argument is: a flag with or without a value behind `=`, the end of the flags, or wrong.
pub data Argument : Type 0 where
  named : Str → Option Str → Argument
  other : Argument
  bad : Argument

-- The name behind the dashes.
abbrev pub name_of : Str → Argument
name_of [] = bad
name_of (c ∷ s) =
    if c == b'-' || c == b'='
    then bad
    else (let (name, value) = split_two b'=' (c ∷ s) in named name value)

unfoldable pub argument : Str → Argument
unfolding split_two
argument [] = other
argument (c ∷ []) = other
argument (c ∷ d ∷ s) =
    if c == b'-'
    then (if d == b'-' then (if str_eq s [] then other else name_of s) else name_of (d ∷ s))
    else other

-- `Parse`: `none` is an error. What follows the last flag is not looked at.
unfoldable pub parse_args : List Str → Settings → Option Settings
unfolding argument str_eq set_flag
parse_args [] s = some s
parse_args (a ∷ []) s = elim (argument a) [
  | other ↦ some s
  | bad ↦ none
  | named name value ↦ elim (find_flag name flag_names) [
    | none ↦ none
    | some f ↦ elim value [
      | some v ↦ set_flag f v s
      | none ↦ if is_bool f then set_flag f (codes "true") s else none
    ]
  ]
]
parse_args (a ∷ b ∷ rest) s = elim (argument a) [
  | other ↦ some s
  | bad ↦ none
  | named name value ↦ elim (find_flag name flag_names) [
    | none ↦ none
    | some f ↦ elim value [
      | some v ↦ set_flag f v s >>= parse_args (b ∷ rest)
      | none ↦ elim (is_bool f) [
        | true ↦ set_flag f (codes "true") s >>= parse_args (b ∷ rest)
        | false ↦ set_flag f b s >>= parse_args rest
      ]
    ]
  ]
]
