-- ===== src/Examples/Drivers.antt =====
-- Drivers to apply theorems to.
use example_docker_volume_pl.Common.{false, refl, none, some, [], ◌∷◌}
use example_docker_volume_pl.Common.Text.{Str, codes}
use example_docker_volume_pl.Common.Map.{lookup, insert}
use example_docker_volume_pl.Proc.Recovery.{RecoveryMode}
use example_docker_volume_pl.Driver.{Volume, Driver}
use example_docker_volume_pl.Driver.Handlers.{table}
use example_docker_volume_pl.Driver.Counts.{IsWell}
use example_docker_volume_pl.Driver.Volumes.{IsWellOf-insert}

abbrev pub a : Str
a = codes "a"

abbrev pub b : Str
b = codes "b"

abbrev pub volume : Volume
volume = record {
  base_path = codes "/mnt";
  path = codes "fa";
  mount_point = [];
  created_at = 1;
  mounts = some 0;
  options = none;
  puid = [];
}

abbrev pub empty : Driver (Unit {0})
empty = record {
  propagated_mount = codes "/mnt";
  volumes = [];
  tables = [];
  file = [];
  outside = record {
    world = tt;
    process = none;
    processing = none;
    monitors = [];
    restarting = λ _. false;
    recovery_mode = RecoveryMode.ignore;
    rate_limit = none;
  };
}

pub empty-IsWell : IsWell empty
unfolding lookup table
empty-IsWell = record {
  volumes-IsMap = tt;
  has_table = λ n v e. absurd (cc);
  own_table = λ n m v w a e f p q. absurd (cc);
  table-IsTable = λ a i c e. absurd (cc);
}

-- One volume without a mount.
abbrev pub idle : Driver (Unit {0})
idle = record empty { volumes = (a, volume) ∷ []; tables = [] ∷ [] }

pub idle-IsWell : IsWell idle
unfolding insert
idle-IsWell = IsWellOf-insert [] [] a volume refl empty-IsWell

-- The same volume with two mounts for one ID.
abbrev pub busy : Driver (Unit {0})
busy = record idle { tables = ((b, 2) ∷ []) ∷ [] }
