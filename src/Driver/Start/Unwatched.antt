-- ===== src/Driver/Start/Unwatched.antt =====
-- `pluginDriver_NewWithVolumeProcess` as `pluginDriver_New` calls it: without a volume process.
use example_docker_volume_pl.Common.{
  All, ℕ, true, false, Option, none, some, List, [], ◌∷◌, length, if◌then◌else◌, Outcome, ok, err,
  panic, Bool,
}
use example_docker_volume_pl.Common.State.{◌>>=◌, ◌>>◌, fail_if, of_outcome}
use example_docker_volume_pl.Common.State.Laws.{Keeps, >>=-Keeps}
use example_docker_volume_pl.Common.Text.{Str, str_eq}
use example_docker_volume_pl.Common.Map.{Map}
use example_docker_volume_pl.Os.{Os, OsError, Stat}
use example_docker_volume_pl.Driver.{
  Volume, Saved, Library, Driver, Error, with_json, system_error, on_world, demand, mount_point,
  unpack, load,
}
use example_docker_volume_pl.Driver.Handlers.{set_up, mounts_of}
use example_docker_volume_pl.Driver.Process.{Setup, setup_process}
use example_docker_volume_pl.Driver.Start.{
  access_to, ensure_folder, take_over, take_over_all, new_driver, control_file_name,
}
use example_docker_volume_pl.Driver.Start.Steps.{
  user_of, answered, parsed, then_set_up, then_access, with_tables, with_volumes, rest_of,
  open_control,
}
use example_docker_volume_pl.Driver.Start.Ignoring.{
  Ignores, Stops, AllIgnore-Stops, setup_process-J,
}

module _ (os : Os) (lib : Library) (btime : ℕ) where
  open os use {World, lstat, mkdir_all, open_file, current_user, seek, read_all}
  open lib use {join_path, unmarshal}

  abbrev J : Driver World → Type 0
  J s = Ignores s.outside

  fail_if-J : (e : Option Error) → Keeps J (fail_if e)
  fail_if-J none s h = h
  fail_if-J (some e) s h = h

  demand-J : (f : World → Option OsError × World) → Keeps J (demand f)
  demand-J f s h =
      fail_if-J (system_error (f s.outside.world).0)
        (record s { outside = record s.outside { world = (f s.outside.world).1 } }) h

  answered-J : (path : Str) (status : Stat) → Keeps J (answered os lib btime path status)
  answered-J path Stat.not_exist s h = demand-J (mkdir_all path) s h
  answered-J path (Stat.unreadable e) s h = h
  answered-J path (Stat.found true file) s h = h
  answered-J path (Stat.found false file) s h = h

  ensure_folder-J : (path : Str) → Keeps J (ensure_folder os lib btime path)
  unfolding ensure_folder
  ensure_folder-J path =
      >>=-Keeps J (on_world (lstat path)) (answered os lib btime path) (λ s h. h) (answered-J path)

  abbrev Parsed : Type 0
  Parsed = Outcome Error (Map Volume × List (Map ℕ)) × Driver World

  parsed-J : Keeps J (parsed os lib btime)
  parsed-J s h = cases (str_eq s.file []) (with_json (unmarshal s.file))
    where
      cases :
          (b : Bool) (r : Outcome Error (Map Saved))
          → let u : Parsed = if b then (ok ([], []), s) else elim r [
            | ok saved ↦ (ok (unpack os lib (length s.tables) saved), s)
            | err e ↦ (err e, s)
            | panic ↦ (panic, s)
          ] in
            J u.1
      cases true r = h
      cases false (ok saved) = h
      cases false (err e) = h
      cases false panic = h

  load-J : Keeps J (load os lib)
  unfolding load
  load-J =
      >>=-Keeps J (demand seek) (λ _. demand read_all >> parsed os lib btime) (demand-J seek)
        (λ _.
          >>=-Keeps J (demand read_all) (λ _. parsed os lib btime) (demand-J read_all)
            (λ _. parsed-J))

  set_up-J : (v : Volume) → Keeps J (set_up os lib btime v)
  unfolding set_up
  set_up-J v s h =
      let setup : Setup World = record { volume = v; outside = s.outside } in
      ended (setup_process os btime (mount_point os lib) setup).0
        (setup_process os btime (mount_point os lib) setup).1
        (setup_process-J os btime (mount_point os lib) setup h)
    where
      ended :
          (r : Outcome Error (Unit {0})) (t : Setup World)
          → Ignores t.outside
          → let s' : Driver World = record s { outside = t.outside } in
            let u : Outcome Error Volume × Driver World = elim r [
              | panic ↦ (panic, s')
              | ok _ ↦ (ok t.volume, s')
              | err _ ↦ (ok t.volume, s')
            ] in
            J u.1
      ended (ok _) t k = k
      ended (err _) t k = k
      ended panic t k = k

  mounts_of-J : (v : Volume) → Keeps J (mounts_of v)
  unfolding mounts_of
  mounts_of-J v s h = cases v.mounts
    where
      cases :
          (o : Option ℕ)
          → let r : Outcome Error ℕ × Driver World = elim o [
            | none ↦ (panic, s)
            | some a ↦ (ok a, s)
          ] in
            J r.1
      cases none = h
      cases (some a) = h

  take_over-J : (v : Volume) → Keeps J (take_over os lib btime v)
  unfolding take_over
  take_over-J v =
      >>=-Keeps J (on_world current_user)
        (λ current. of_outcome (user_of current) >>= then_access os lib btime v) (λ s h. h)
        (λ current.
          >>=-Keeps J (of_outcome (user_of current)) (then_access os lib btime v) (λ s h. h)
            (λ user.
              >>=-Keeps J (on_world (lstat (mount_point os lib v)))
                (λ status. of_outcome (access_to user 0o7 status) >> then_set_up os lib btime v)
                (λ s h. h)
                (λ status.
                  >>=-Keeps J (of_outcome (access_to user 0o7 status))
                    (λ _. then_set_up os lib btime v) (λ s h. h)
                    (λ _.
                      >>=-Keeps J (mounts_of v) (λ _. set_up os lib btime v) (mounts_of-J v)
                        (λ _. set_up-J v)))))

  both_ended :
      (name : Str) (r : Outcome Error Volume) (t : Driver World) (r' : Outcome Error (Map Volume))
      (t' : Driver World)
      → J t
      → J t'
      → let u : Outcome Error (Map Volume) × Driver World = elim r [
        | err e ↦ (err e, t)
        | panic ↦ (panic, t)
        | ok v' ↦ elim r' [
          | err e ↦ (err e, t')
          | panic ↦ (panic, t')
          | ok volumes' ↦ (ok ((name, v') ∷ volumes'), t')
        ]
      ] in
        J u.1
  both_ended name (err e) t r' t' h k = h
  both_ended name panic t r' t' h k = h
  both_ended name (ok v') t (err e) t' h k = k
  both_ended name (ok v') t panic t' h k = k
  both_ended name (ok v') t (ok ws) t' h k = k

  take_over_all-J : (vs : Map Volume) → Keeps J (take_over_all os lib btime vs)
  unfolding take_over_all
  take_over_all-J [] s h = h
  take_over_all-J ((name, v) ∷ vs) s h =
      let first = take_over os lib btime (record v { mount_point = mount_point os lib v }) s in
      let rest = take_over_all os lib btime vs first.1 in
      let k = take_over-J (record v { mount_point = mount_point os lib v }) s h in
      both_ended name first.0 first.1 rest.0 rest.1 k (take_over_all-J vs first.1 k)

  rest_of-J : (loaded : Map Volume × List (Map ℕ)) → Keeps J (rest_of os lib btime loaded)
  rest_of-J loaded =
      >>=-Keeps J (with_tables os lib btime loaded.1)
        (λ _. take_over_all os lib btime loaded.0 >>= with_volumes os lib btime) (λ s h. h)
        (λ _.
          >>=-Keeps J (take_over_all os lib btime loaded.0) (with_volumes os lib btime)
            (take_over_all-J loaded.0) (λ ws s h. h))

  new_driver-J : (s : Driver World) → J s → J (new_driver os lib btime s).1
  unfolding new_driver
  new_driver-J s h =
      >>=-Keeps J (λ s. ensure_folder os lib btime s.propagated_mount s)
        (λ _. open_control os lib btime >> (load os lib >>= rest_of os lib btime))
        (λ s. ensure_folder-J s.propagated_mount s)
        (λ _.
          >>=-Keeps J (open_control os lib btime) (λ _. load os lib >>= rest_of os lib btime)
            (λ s. demand-J (open_file (join_path s.propagated_mount control_file_name)) s)
            (λ _. >>=-Keeps J (load os lib) (rest_of os lib btime) load-J rest_of-J))
        s h

  -- A driver that begins without a volume process, without monitors and in the mode `Ignore`, as that
  -- of the command line does, has only monitors in that mode when it has started, whether its start
  -- succeeds or not; and where the process of one of them ends, its goroutine stops, without a restart.
  pub new_driver-Ignores :
      (s : Driver World)
      → Ignores s.outside
      → Ignores (new_driver os lib btime s).1.outside
        × All (λ km. Stops os btime km.1) (new_driver os lib btime s).1.outside.monitors
  new_driver-Ignores s h =
      let k = new_driver-J s h in
      (k, AllIgnore-Stops os btime (new_driver os lib btime s).1.outside.monitors k.2)
