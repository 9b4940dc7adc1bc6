-- ===== src/Examples/Persistence.antt =====
-- Saving a driver with a mounted volume, and loading it.
use example_docker_volume_pl.Common.{ℕ, ◌≡◌, refl, Bool, true, leb, ◌&&◌, List, [], ◌∷◌, ◌++◌, ok}
use example_docker_volume_pl.Common.Text.{Str}
use example_docker_volume_pl.Common.Map.{Map}
use example_docker_volume_pl.Driver.{
  Volume, Driver, snapshot, snapshot_volume, save, load, write_file,
}
use example_docker_volume_pl.Driver.Documents.{SameDocument, IsDocument}
use example_docker_volume_pl.Driver.Persistence.{load-save}
use example_docker_volume_pl.Examples.World.{system}
use example_docker_volume_pl.Examples.Codec.{codec, codec-document}
use example_docker_volume_pl.Examples.Drivers.{empty, busy}

-- Texts of ASCII.
abbrev pub is_ascii : Str → Bool
is_ascii [] = true
is_ascii (c ∷ s) = leb c 127 && is_ascii s

pub busy-IsDocument : IsDocument is_ascii (snapshot busy.tables busy.volumes)
unfolding snapshot snapshot_volume
busy-IsDocument = ((tt, tt), ((refl, refl, refl, refl, ((tt, tt), (refl, tt)), tt), tt))

-- A driver with the file that the busy one has left.
abbrev pub with_its_file : Driver (Unit {0})
with_its_file = record empty { file = (save system codec busy).1.file }

load-save_example :
    (volumes : Map Volume) × (tables : List (Map ℕ)) × ((load system codec with_its_file).0
      ≡ ok (volumes, tables))
    × SameDocument (snapshot busy.tables busy.volumes) (snapshot ([] ++ tables) volumes)
unfolding save write_file
load-save_example =
    load-save system codec is_ascii (λ d bytes valid. codec-document d bytes) busy
      (save system codec busy).1 with_its_file tt tt busy-IsDocument refl refl refl refl
