-- ===== src/Examples/Sharing.antt =====
-- Two volumes with one process.
use example_docker_volume_pl.Common.{◌≡◌, refl, some, [], ◌∷◌, ok}
use example_docker_volume_pl.Common.Text.{codes, str_eq, trim_space, split, contains}
use example_docker_volume_pl.Common.Map.{lookup}
use example_docker_volume_pl.Proc.Options.{Options, append_options}
use example_docker_volume_pl.Proc.Options as CommandOptions
use example_docker_volume_pl.Proc.Options.Setting.{trimming}
use example_docker_volume_pl.Driver.{VolumeProcess}
use example_docker_volume_pl.Driver.Process.{Setup, use_command_option}
use example_docker_volume_pl.Driver.VolumeOptions.{volume_option}
use example_docker_volume_pl.Driver.Process.Sharing.{use_command_option-shared}
use example_docker_volume_pl.Main.{volume_process}
use example_docker_volume_pl.Examples.World.{system}
use example_docker_volume_pl.Examples.Drivers.{a, b, volume, empty}

abbrev process : VolumeProcess
unfolding volume_process
process = volume_process (codes "bin") (trimming b'&' (a ∷ [])) (some [])

abbrev both : Options
both = trimming b'&' (a ∷ b ∷ [])

-- The first volume asks for `b`.
abbrev setup : Setup (Unit {0})
setup = record {
  volume = record volume { options = some ((codes "c", b) ∷ []) };
  outside = record empty.outside { process = some process };
}

use_command_option-shared_example :
    ((use_command_option system 0 (λ v. []) process setup).1.outside.process
      ≡ some (record process { options = some both }))
    × ((use_command_option system 0
          (λ v. [])
          (record process { options = some both })
          (record (use_command_option system 0 (λ v. []) process setup).1 { volume = volume })).0
        ≡ ok (some both))
unfolding volume_process volume_option lookup str_eq CommandOptions.set_options
    CommandOptions.option_texts append_options trim_space split contains
use_command_option-shared_example =
    use_command_option-shared system 0 (λ v. []) process setup volume (trimming b'&' (a ∷ [])) both
      b refl refl refl refl
