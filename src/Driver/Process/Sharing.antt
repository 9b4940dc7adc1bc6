-- ===== src/Driver/Process/Sharing.antt =====
-- What one volume leaves to the next: the options of the volume process are shared.
use example_docker_volume_pl.Common.{◌≡◌, ap, ◌∙◌, Option, none, some, Outcome, ok, err, panic}
use example_docker_volume_pl.Common.Text.{Str, codes}
use example_docker_volume_pl.Os.{Os}
use example_docker_volume_pl.Proc.Options.{Options}
use example_docker_volume_pl.Proc.Options as CommandOptions
use example_docker_volume_pl.Driver.{Volume, VolumeProcess, Error, command_options}
use example_docker_volume_pl.Driver.Process.{Setup, use_command_option}
use example_docker_volume_pl.Driver.VolumeOptions.{
  apply_volume_option, set_command, volume_option, keep_shared,
}
use example_docker_volume_pl.Common.{ℕ}

module _ (os : Os) (btime : ℕ) (mount_point : Volume → Str) where
  open os use {World}

  set_command-some :
      (value : Str) (o o' : Options)
      → CommandOptions.set_options o value ≡ ok o'
      → set_command value (some o) ≡ ok o'
  unfolding set_command
  set_command-some value o o' e =
      ap
        (λ (r : Outcome CommandOptions.Error Options). elim r as (λ _. Outcome Error Options) [
          | ok o' ↦ ok o'
          | err e ↦ err (command_options e)
          | panic ↦ panic
        ])
        e

  applied :
      (value : Str) (o o' : Options)
      → CommandOptions.set_options o value ≡ ok o'
      → apply_volume_option (some value) set_command (some o) ≡ ok (some o')
  unfolding apply_volume_option
  applied value o o' e =
      ap
        (λ (r : Outcome Error Options). elim r as (λ _. Outcome Error (Option Options)) [
          | ok a ↦ ok (some a)
          | err e ↦ err e
          | panic ↦ panic
        ])
        (set_command-some value o o' e)

  -- The function, by what applying the option gives.
  used :
      (p : VolumeProcess) (s : Setup World) (o' : Option Options)
      → apply_volume_option (volume_option (codes "c") s.volume) set_command p.options ≡ ok o'
      → use_command_option os btime mount_point p s ≡ (
        ok o',
        record s {
          outside = record s.outside {
            process = some (record p { options = keep_shared p.options o' });
          };
        },
      )
  unfolding use_command_option
  used p s o' e =
      ap
        (λ (r : Outcome Error (Option Options)).
          elim r as (λ _. Outcome Error (Option Options) × Setup World) [
            | ok o ↦ (
              ok o,
              record s {
                outside = record s.outside {
                  process = some (record p { options = keep_shared p.options o });
                };
              },
            )
            | err e ↦ (err e, s)
            | panic ↦ (panic, s)
          ])
        e

  -- The options that one volume asks for go to the next: where `GetVolumeProcess` has options, a
  -- volume has the option `c` and `Set` accepts it, the process is the same but for its options,
  -- and a volume set up next that has no option `c` gets the options of the first one, too.
  pub use_command_option-shared :
      (p : VolumeProcess) (s : Setup World) (w : Volume) (o o' : Options) (value : Str)
      → p.options ≡ some o
      → volume_option (codes "c") s.volume ≡ some value
      → CommandOptions.set_options o value ≡ ok o'
      → volume_option (codes "c") w ≡ none
      → let t = (use_command_option os btime mount_point p s).1 in
        (t.outside.process ≡ some (record p { options = some o' }))
        × ((use_command_option os btime mount_point
              (record p { options = some o' })
              (record t { volume = w })).0
            ≡ ok (some o'))
  unfolding keep_shared apply_volume_option
  use_command_option-shared p s w o o' value e f g h =
      let first =
        used p s (some o')
          ((λ j. apply_volume_option (f j) set_command (e j)) ∙ applied value o o' g) in
      let t = (use_command_option os btime mount_point p s).1 in
      let second =
        used (record p { options = some o' }) (record t { volume = w }) (some o')
          (λ j. apply_volume_option (h j) set_command (some o')) in
      (
        ap (λ r. r.1.outside.process) first
            ∙ (λ j. some (record p { options = keep_shared (e j) (some o') })),
        ap (λ r. r.0) second,
      )
