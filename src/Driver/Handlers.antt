-- ===== src/Driver/Handlers.antt =====
-- src/driver.go: the handlers of the plugin's requests. A handler runs here from its start to its end;
-- what the mutex leaves open between two handlers is in Race.
use example_docker_volume_pl.Common.{
  ℕ, ◌+◌, ◌-◌, ◌*◌, ◌%◌, ◌^◌, Bool, ◌&&◌, Option, none, some, List, [], ◌∷◌, ◌++◌, ltb,
  if◌then◌else◌, map, length, get_elem?, set, ok, err, panic,
}
use example_docker_volume_pl.Common.State.{M, ◌>>=◌, ◌>>◌, return, fail_if}
use example_docker_volume_pl.Common.Text.{Str, codes}
use example_docker_volume_pl.Common.Map.{Map, lookup, insert, delete}
use example_docker_volume_pl.Utils.Hashes.{sha256_string_to_string}
use example_docker_volume_pl.Os.{Os, Stat}
use example_docker_volume_pl.Proc.Monitor.{second, cancel_process}
use example_docker_volume_pl.Driver.{
  Volume, Error, not_found, already_exists, path_exists, active_mounts, system, Library, Driver,
  on_world, demand, mount_point, save,
}
use example_docker_volume_pl.Driver.Process.{setup_process}

-- `ReferenceCount++`, and the test `ReferenceCount > 0`, on bit patterns.
abbrev pub incremented : ℕ → ℕ
incremented n = (n + 1) % 2 ^ 64

abbrev pub is_positive : ℕ → Bool
is_positive n = ltb 0 n && ltb n (2 ^ 63)

-- `volume.Volume`, as `Get` and `List` answer it.
pub record Answer : Type 0 where
  pub name : Str
  pub mountpoint : Str
  pub created_at : Str

-- `d.Volumes[req.Name]`, with the error where there is none.
unfoldable pub find_volume : {W : Type 0} → Str → M Error (Driver W) Volume
find_volume name s = elim (lookup name s.volumes) [
  | none ↦ (err (not_found name), s)
  | some v ↦ (ok v, s)
]

-- `*vol.Mounts`: the address of the table.
unfoldable pub mounts_of : {W : Type 0} → Volume → M Error (Driver W) ℕ
mounts_of v s = elim v.mounts [ none ↦ (panic, s) | some a ↦ (ok a, s) ]

-- The table at an address that is in use.
unfoldable pub table : List (Map ℕ) → ℕ → Map ℕ
table tables a = elim (get_elem? tables a) [ none ↦ [] | some t ↦ t ]

-- The table after `Mount`.
unfoldable pub add_mount : Str → Map ℕ → Map ℕ
add_mount id mounts = elim (lookup id mounts) [
  | none ↦ insert id 1 mounts
  | some count ↦ insert id (incremented count) mounts
]

-- The part of `Unmount` behind the lock, on the table there is then; the count is the one that
-- `Unmount` has read before.
unfoldable pub drop_mount : Str → ℕ → Map ℕ → Map ℕ
drop_mount id count mounts =
    let left = if is_positive count then count - 1 else count in
    let mounts' = if is_positive count then insert id left mounts else mounts in
    if is_positive left then mounts' else delete id mounts'

unfoldable pub write_table : {W : Type 0} → ℕ → (Map ℕ → Map ℕ) → M Error (Driver W) (Unit {0})
unfolding table
write_table a f s = (ok tt, record s { tables = set s.tables a (f (table s.tables a)) })

-- The number of mounts forbids removing.
unfoldable pub active_error : Str → Map ℕ → Option Error
active_error name mounts =
    if ltb 0 (length mounts) then some (active_mounts name (length mounts)) else none

-- `errors.Is(err, os.ErrNotExist)`: only then does the folder get made.
abbrev pub folder_error : Str → Stat → Option Error
folder_error path Stat.not_exist = none
folder_error path (Stat.unreadable e) = some (system e)
folder_error path (Stat.found is_dir file) = some (path_exists path)

-- `Capabilities`: the scope.
abbrev pub capabilities : Str
capabilities = codes "local"

module _ (os : Os) (lib : Library) where
  open os use {World}
  open lib use {rfc3339}

  unfoldable pub answer : Str → Volume → Answer
  answer name v = record {
    name = name;
    mountpoint = mount_point os lib v;
    created_at = rfc3339 v.created_at;
  }

  -- `Get`
  unfoldable pub get : Str → M Error (Driver World) Answer
  get name = do v ← find_volume name; return (answer name v)

  -- `Path`
  unfoldable pub path : Str → M Error (Driver World) Str
  path name = do v ← find_volume name; return (mount_point os lib v)

  -- `List`
  unfoldable pub list : M Error (Driver World) (List Answer)
  list s = (ok (map (λ nv. answer nv.0 nv.1) s.volumes), s)

  -- `Mount`
  unfoldable pub mount : Str → Str → M Error (Driver World) Str
  mount name id = do
    v ← find_volume name
    a ← mounts_of v
    write_table a (add_mount id)
    save os lib
    return (mount_point os lib v)

  -- `Unmount` behind the lock.
  unfoldable pub unmount_locked : Str → ℕ → ℕ → M Error (Driver World) (Unit {0})
  unmount_locked id a count = do write_table a (drop_mount id count); save os lib

  -- `Unmount`. A mount that is not there is no error.
  unfoldable pub unmount : Str → Str → M Error (Driver World) (Unit {0})
  unmount name id = do
    v ← find_volume name
    a ← mounts_of v
    λ s. elim (lookup id (table s.tables a)) [
      | none ↦ (ok tt, s)
      | some count ↦ unmount_locked id a count s
    ]

abbrev pub exists_error : Str → Option Volume → Option Error
exists_error name none = none
exists_error name (some v) = some (already_exists name)

-- `Create` and `Remove`, which deal with processes.
module _ (os : Os) (lib : Library) (btime : ℕ) where
  open os use {World, lstat, mkdir_all, remove, now}
  open lib use {join_path, sha256}

  -- `SetupProcess` on a volume. An error is a warning only; the volume may have been changed.
  unfoldable pub set_up : Volume → M Error (Driver World) Volume
  set_up v s =
      let (r, t) =
        setup_process os btime (mount_point os lib) (record { volume = v; outside = s.outside }) in
      let s' = record s { outside = t.outside } in
      elim r [ panic ↦ (panic, s') | ok _ ↦ (ok t.volume, s') | err _ ↦ (ok t.volume, s') ]

  -- `d.Volumes[name] = res`, with a new table.
  unfoldable pub add_volume : Str → Volume → M Error (Driver World) (Unit {0})
  add_volume name v s = (ok tt, record s { volumes = insert name v s.volumes })

  -- `&map[string]pluginDriverMount{}`
  unfoldable pub new_table : {W : Type 0} → M Error (Driver W) ℕ
  new_table s = (ok (length s.tables), record s { tables = s.tables ++ [] ∷ [] })

  -- `Create` from the new volume on.
  unfoldable pub register : Str → Map Str → ℕ → M Error (Driver World) (Unit {0})
  register name options time = do
    base ← λ s. (ok s.propagated_mount, s)
    a ← new_table
    v ← set_up (record {
      base_path = base;
      path = sha256_string_to_string sha256 name;
      mount_point = [];
      created_at = time;
      mounts = some a;
      options = some options;
      puid = [];
    })
    add_volume name v
    save os lib

  -- `Create` behind the test of the name.
  unfoldable pub make_folder : Str → Map Str → Str → M Error (Driver World) (Unit {0})
  make_folder name options folder = do
    status ← on_world (lstat folder)
    fail_if (folder_error folder status)
    demand (mkdir_all folder)
    time ← on_world now
    register name options time

  -- `Create`. The options of a request are a map, be it empty.
  unfoldable pub create : Str → Map Str → M Error (Driver World) (Unit {0})
  create name options = do
    λ s. fail_if (exists_error name (lookup name s.volumes)) s
    λ s.
        make_folder name options
          (join_path s.propagated_mount (sha256_string_to_string sha256 name)) s

  -- The monitor of a volume that is removed: it is cancelled, in the middle of a restart or not, which
  -- may fail, and forgotten.
  unfoldable pub forget_monitor : Str → M Error (Driver World) (Unit {0})
  forget_monitor puid s = elim (lookup puid s.outside.monitors) [
    | none ↦ (ok tt, s)
    | some m ↦
        let (r, w) = cancel_process os btime (2 * second) (record {
          monitor = m;
          restarting = s.outside.restarting puid;
          world = s.outside.world;
        }) in
        let s' = record s {
          outside = record s.outside { world = w.world; monitors = delete puid s.outside.monitors };
        } in
        elim r [ panic ↦ (panic, s') | ok _ ↦ (ok tt, s') | err _ ↦ (ok tt, s') ]
  ]

  unfoldable pub delete_volume : Str → M Error (Driver World) (Unit {0})
  delete_volume name s = (ok tt, record s { volumes = delete name s.volumes })

  -- `Remove`
  unfoldable pub remove_volume : Str → M Error (Driver World) (Unit {0})
  unfolding active_error
  remove_volume name = do
    v ← find_volume name
    a ← mounts_of v
    λ s. fail_if (active_error name (table s.tables a)) s
    forget_monitor v.puid
    demand (remove (mount_point os lib v))
    delete_volume name
    save os lib
