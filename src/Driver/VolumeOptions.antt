-- ===== src/Driver/VolumeOptions.antt =====
-- src/driver.go: the options of a volume that `SetupProcess` reads, and what it asks of the command.
use example_docker_volume_pl.Common.{
  ℕ, ◌+◌, true, Option, none, some, List, [], if◌then◌else◌, Outcome, ok, err, panic,
}
use example_docker_volume_pl.Common.Text.{Str, codes}
use example_docker_volume_pl.Common.Map.{lookup}
use example_docker_volume_pl.Os.{Cmd}
use example_docker_volume_pl.Mount.Options.{MountOption}
use example_docker_volume_pl.Mount.Options as MountOptions
use example_docker_volume_pl.Proc.Options.{Options, new_options}
use example_docker_volume_pl.Proc.Options as CommandOptions
use example_docker_volume_pl.Driver.{
  Volume, Error, uses_context, uses_files, already_started, command_options, mount_options,
}

-- `VOLUME_PROCESS_OPTIONS_SEPARATOR` of main.go.
abbrev pub process_options_separator : Str
process_options_separator = codes "&"

-- What the command must not be.
unfoldable pub command_error : Cmd → Option Error
command_error cmd =
    if cmd.has_context
    then some uses_context
    else if cmd.has_files
    then some uses_files
    else if cmd.has_process
    then some already_started
    else none

-- `volumeProcessOptions.Set`, on new options where the pointer is nil.
unfoldable pub set_command : Str → Option Options → Outcome Error Options
set_command value options =
    let o : Options = elim options [
      | none ↦ new_options process_options_separator true
      | some o ↦ o
    ] in
    elim (CommandOptions.set_options o value) [
      | ok o' ↦ ok o'
      | err e ↦ err (command_options e)
      | panic ↦ panic
    ]

unfoldable pub set_mount :
    Str → Option (Option (List MountOption)) → Outcome Error (Option (List MountOption))
set_mount value options =
    let o : Option (List MountOption) = elim options [ none ↦ some [] | some o ↦ o ] in
    elim (MountOptions.set_options o value) [
      | ok os ↦ ok (some os)
      | err e ↦ err (mount_options e)
      | panic ↦ panic
    ]

-- One of the two options of the volume is applied, where it is there.
unfoldable pub apply_volume_option :
    {A : Type 0}
    → Option Str
    → (Str → Option A → Outcome Error A)
    → Option A
    → Outcome Error (Option A)
apply_volume_option none f o = ok o
apply_volume_option (some value) f o = elim (f value o) [
  | ok a ↦ ok (some a)
  | err e ↦ err e
  | panic ↦ panic
]

-- `(*v.Options)[key]`
unfoldable pub volume_option : Str → Volume → Option Str
volume_option k v = elim v.options [ none ↦ none | some m ↦ lookup k m ]

-- An object that a pointer of `GetVolumeProcess` leads to is changed for good; where that pointer is
-- nil, the new object is this call's own.
unfoldable pub keep_shared : {A : Type 0} → Option A → Option A → Option A
keep_shared none now = none
keep_shared (some old) none = some old
keep_shared (some old) (some now) = some now

unfoldable pub count_options : Option Options → Option (Option (List MountOption)) → ℕ
count_options o m =
    (elim o [ none ↦ 0 | some o ↦ CommandOptions.options_len o ])
    + elim m [ none ↦ 0 | some m ↦ MountOptions.options_len m ]
