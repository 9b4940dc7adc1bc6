-- ===== src/Driver.antt =====
-- src/driver.go: the data of the driver, and what its handlers have in common.
pub mod VolumeOptions
pub mod Process
pub mod Handlers
pub mod Start
pub mod Saving
pub mod Counts
pub mod Volumes
pub mod Race
pub mod Documents
pub mod Persistence
pub mod Reachable
pub mod Reading
use example_docker_volume_pl.Common.{
  ℕ, ◌+◌, ◌-◌, ◌%◌, ◌^◌, Bool, ◌&&◌, Option, none, some, List, [], ◌∷◌, ltb, if◌then◌else◌, length,
  get_elem?, set, take, Outcome, ok, err, panic,
}
use example_docker_volume_pl.Common.State.{
  M, ◌>>=◌, ◌>>◌, return, raise, crash, call, fail_if, modify, of_outcome,
}
use example_docker_volume_pl.Common.Text.{Str, str_eq}
use example_docker_volume_pl.Common.Map.{Map, lookup}
use example_docker_volume_pl.Os.{Os, OsError, Cmd}
use example_docker_volume_pl.Metric.{MetricRateLimit}
use example_docker_volume_pl.Mount.Options.{MountOption}
use example_docker_volume_pl.Mount.Options as MountOptions
use example_docker_volume_pl.Proc.Options.{Options}
use example_docker_volume_pl.Proc.Options as CommandOptions
use example_docker_volume_pl.Proc.Info as Info
use example_docker_volume_pl.Proc.Recovery.{RecoveryMode}
use example_docker_volume_pl.Proc.Monitor.{ProcessMonitor}
use example_docker_volume_pl.Utils

-- `pluginDriverVolume`. `mounts` is the address of the table behind the pointer `Mounts`, `none` the
-- nil pointer. A reference count is the bit pattern of an `int`.
pub record Volume : Type 0 where
  pub base_path : Str
  pub path : Str
  pub mount_point : Str
  pub created_at : ℕ
  pub mounts : Option ℕ
  pub options : Option (Map Str)
  pub puid : Str

-- A volume as the control file holds it: the exported fields, and the table itself.
pub record Saved : Type 0 where
  pub base_path : Str
  pub path : Str
  pub created_at : ℕ
  pub mounts : Option (Map ℕ)
  pub options : Option (Map Str)
  pub puid : Str

pub data Error : Type 0 where
  system : OsError → Error
  json : OsError → Error
  not_found : Str → Error
  already_exists : Str → Error
  path_exists : Str → Error
  active_mounts : Str → ℕ → Error
  no_directory : Str → Error
  access : Utils.Error → Error
  uses_context : Error
  uses_files : Error
  already_started : Error
  command_options : CommandOptions.Error → Error
  mount_options : MountOptions.Error → Error
  no_processing : ℕ → Error
  processing : ℕ → Error
  query : Info.Error → Error

-- The functions of Go's packages that the driver calls: `filepath.Join`, `sha256.Sum256`,
-- `json.MarshalIndent` and `json.Unmarshal`, and `Time.Format(time.RFC3339)`.
pub record Library : Type 0 where
  pub join_path : Str → Str → Str
  pub sha256 : List ℕ → List ℕ
  pub marshal : Map Saved → Outcome OsError Str
  pub unmarshal : Str → Outcome OsError (Map Saved)
  pub rfc3339 : ℕ → Str

-- What `GetVolumeProcess` returns: a new command each time, but always the same two pointers. The
-- objects behind them are here; `none` is a nil pointer.
pub record VolumeProcess : Type 0 where
  pub command : Cmd
  pub options : Option Options
  pub mount_options : Option (Option (List MountOption))

-- `SetVolumeProcessOptions`: the command that it leaves, or its error.
abbrev pub Processing : Type 0
Processing = Cmd → Option Options → Option (Option (List MountOption)) → Str → Outcome ℕ Cmd

-- What lies outside the volumes: the world, the process that the flags have set up, and the monitors
-- (`processMonitors`). `restarting` tells whose goroutine is in the middle of a restart.
pub record Outside (W : Type 0) : Type 0 where
  pub world : W
  pub process : Option VolumeProcess
  pub processing : Option Processing
  pub monitors : Map ProcessMonitor
  pub restarting : Str → Bool
  pub recovery_mode : RecoveryMode
  pub rate_limit : Option MetricRateLimit

-- `pluginDriver`, with the tables that its volumes point to and the content of the control file.
pub record Driver (W : Type 0) : Type 0 where
  pub propagated_mount : Str
  pub volumes : Map Volume
  pub tables : List (Map ℕ)
  pub file : Str
  pub outside : Outside W

abbrev pub system_error : Option OsError → Option Error
system_error none = none
system_error (some e) = some (system e)

abbrev pub with_json : {A : Type 0} → Outcome OsError A → Outcome Error A
with_json (ok a) = ok a
with_json (err e) = err (json e)
with_json panic = panic

-- A call of the system.
abbrev pub on_world : {W A : Type 0} → (W → A × W) → M Error (Driver W) A
on_world f s =
    let (a, w) = f s.outside.world in (ok a, record s { outside = record s.outside { world = w } })

-- The same, where the error that it returns ends the function.
abbrev pub demand : {W : Type 0} → (W → Option OsError × W) → M Error (Driver W) (Unit {0})
demand f = do e ← on_world f; fail_if (system_error e)

-- The table at an address. Only a nil pointer has none.
abbrev pub table_at : List (Map ℕ) → Option ℕ → Option (Map ℕ)
table_at tables none = none
table_at tables (some a) = get_elem? tables a

unfoldable pub snapshot_volume : List (Map ℕ) → Volume → Saved
snapshot_volume tables v = record {
  base_path = v.base_path;
  path = v.path;
  created_at = v.created_at;
  mounts = table_at tables v.mounts;
  options = v.options;
  puid = v.puid;
}

-- What `json.MarshalIndent` is given, with every pointer followed.
unfoldable pub snapshot : List (Map ℕ) → Map Volume → Map Saved
snapshot tables [] = []
snapshot tables ((name, v) ∷ volumes) = (name, snapshot_volume tables v) ∷ snapshot tables volumes

module _ (os : Os) (lib : Library) where
  open os use {World, seek, truncate, write, read_all}
  open lib use {join_path, marshal, unmarshal}

  -- `MountPoint`: the cached text, or a new one.
  unfoldable pub mount_point : Volume → Str
  mount_point v = if str_eq v.mount_point [] then join_path v.base_path v.path else v.mount_point

  -- `file.Write`: where it fails, a part has been written.
  unfoldable pub write_file : Str → M Error (Driver World) (Unit {0})
  write_file bytes = do
    failed ← on_world write
    λ s. elim failed [
      | none ↦ (ok tt, record s { file = bytes })
      | some ne ↦ (err (system ne.1), record s { file = take ne.0 bytes })
    ]

  -- `pluginDriver_Save`
  unfoldable pub save : M Error (Driver World) (Unit {0})
  unfolding snapshot
  save = do
    demand seek
    demand truncate
    modify (λ s. record s { file = [] })
    bytes ← λ s. (with_json (marshal (snapshot s.tables s.volumes)), s)
    write_file bytes

  -- The pointers of a document that has been read lead to new tables, behind those there are.
  unfoldable pub unpack : ℕ → Map Saved → Map Volume × List (Map ℕ)
  unpack next [] = ([], [])
  unpack next ((name, v) ∷ saved) =
      let volume : Option ℕ → Volume = λ m. record {
        base_path = v.base_path;
        path = v.path;
        mount_point = [];
        created_at = v.created_at;
        mounts = m;
        options = v.options;
        puid = v.puid;
      } in
      let more = unpack (elim v.mounts [ none ↦ next | some _ ↦ next + 1 ]) saved in
      elim v.mounts [
        | none ↦ ((name, volume none) ∷ more.0, more.1)
        | some t ↦ ((name, volume (some next)) ∷ more.0, t ∷ more.1)
      ]

  -- `pluginDriver_Load`. The result replaces the volumes; the tables come behind those there are.
  unfoldable pub load : M Error (Driver World) (Map Volume × List (Map ℕ))
  unfolding unpack
  load = do
    demand seek
    demand read_all
    λ s. if str_eq s.file [] then (ok ([], []), s) else elim (with_json (unmarshal s.file)) [
      | ok saved ↦ (ok (unpack (length s.tables) saved), s)
      | err e ↦ (err e, s)
      | panic ↦ (panic, s)
    ]
