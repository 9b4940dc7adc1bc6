-- ===== src/Driver/Start/Loading.antt =====
-- What a driver without volumes holds behind `pluginDriver_NewWithVolumeProcess`.
use example_docker_volume_pl.Common.{
  ℕ, ◌≡◌, refl, sym, ap, ◌∙◌, true, false, Option, none, some, List, [], ◌++◌, length, Outcome, ok,
}
use mathlib.Core.Path.{subst}
use example_docker_volume_pl.Common.State.{◌>>=◌, ◌>>◌, fail_if}
use example_docker_volume_pl.Common.State.Laws.{
  Keeps, >>=-Keeps, IfOk, Gives, Keeps-Gives, >>=-Gives,
}
use example_docker_volume_pl.Common.State.Ends.{Leads, Leads-Gives}
use example_docker_volume_pl.Common.Text.{Str, str_eq}
use example_docker_volume_pl.Common.Map.{Map}
use example_docker_volume_pl.Os.{Os, OsError, Stat}
use example_docker_volume_pl.Driver.{
  Volume, Saved, Library, Driver, Error, system_error, on_world, demand, unpack, load,
}
use example_docker_volume_pl.Driver.Saving.{Holds}
use example_docker_volume_pl.Driver.Start.{
  ensure_folder, take_over_all, new_driver, control_file_name,
}
use example_docker_volume_pl.Driver.Start.Steps.{
  answered, parsed, with_volumes, rest_of, open_control,
}
use example_docker_volume_pl.Driver.Start.TakingOver.{SameAll, take_over_all-Leads}

module _ (os : Os) (lib : Library) (btime : ℕ) (folder file : Str) (d : Map Saved) where
  open os use {World, lstat, mkdir_all, open_file, seek, read_all}
  open lib use {join_path, unmarshal}

  -- A driver without volumes, over that file.
  abbrev pub Empty : Driver World → Type 0
  Empty s = Holds folder [] [] s × (s.file ≡ file)

  fail_if-Empty : (e : Option Error) → Keeps Empty (fail_if e)
  fail_if-Empty none s h = h
  fail_if-Empty (some e) s h = h

  demand-Empty : (f : World → Option OsError × World) → Keeps Empty (demand f)
  demand-Empty f s h =
      fail_if-Empty (system_error (f s.outside.world).0)
        (record s { outside = record s.outside { world = (f s.outside.world).1 } }) h

  answered-Empty : (path : Str) (status : Stat) → Keeps Empty (answered os lib btime path status)
  answered-Empty path Stat.not_exist s h = demand-Empty (mkdir_all path) s h
  answered-Empty path (Stat.unreadable e) s h = h
  answered-Empty path (Stat.found true file) s h = h
  answered-Empty path (Stat.found false file) s h = h

  ensure_folder-Empty : (path : Str) → Keeps Empty (ensure_folder os lib btime path)
  unfolding ensure_folder
  ensure_folder-Empty path =
      >>=-Keeps Empty (on_world (lstat path)) (answered os lib btime path) (λ s h. h)
        (answered-Empty path)

  -- What has been loaded is the document, with its tables numbered from 0.
  abbrev Loaded : Map Volume × List (Map ℕ) → Driver World → Type 0
  Loaded r t = (r ≡ unpack os lib 0 d) × Empty t

  parsed_eq :
      (s : Driver World)
      → str_eq s.file [] ≡ false
      → unmarshal s.file ≡ ok d
      → length s.tables ≡ 0
      → (parsed os lib btime) s ≡ (ok (unpack os lib 0 d), s)
  parsed_eq s e f g = rw (e, f, g) refl

  parsed-Loaded :
      str_eq file [] ≡ false → unmarshal file ≡ ok d → Gives Empty Loaded (parsed os lib btime)
  parsed-Loaded e f s ((fo, vo, to), fi) =
      subst (λ (r : Outcome Error (Map Volume × List (Map ℕ)) × Driver World). IfOk Loaded r.0 r.1)
        (sym (parsed_eq s (ap (λ b. str_eq b []) fi ∙ e) (ap unmarshal fi ∙ f) (ap length to)))
        (refl, ((fo, vo, to), fi))

  load-Loaded : str_eq file [] ≡ false → unmarshal file ≡ ok d → Gives Empty Loaded (load os lib)
  unfolding load
  load-Loaded e f =
      >>=-Gives (λ _. Empty) Loaded (demand seek) (λ _. demand read_all >> parsed os lib btime)
        (Keeps-Gives (demand seek) (demand-Empty seek))
        (λ _.
          >>=-Gives (λ _. Empty) Loaded (demand read_all) (λ _. parsed os lib btime)
            (Keeps-Gives (demand read_all) (demand-Empty read_all)) (λ _. parsed-Loaded e f))

  -- The tables and volumes of the document, the volumes set up again.
  abbrev pub Restarted : Driver World → Type 0
  Restarted t = SameAll (unpack os lib 0 d).0 t.volumes × (t.tables ≡ (unpack os lib 0 d).1)

  rest_of-Restarted :
      (loaded : Map Volume × List (Map ℕ))
      → Gives (Loaded loaded) (λ _. Restarted) (rest_of os lib btime loaded)
  rest_of-Restarted loaded s (e, ((fo, vo, to), fi)) =
      let H = Holds folder [] (unpack os lib 0 d).1 in
      >>=-Gives (λ ws t. SameAll (unpack os lib 0 d).0 ws × H t) (λ _. Restarted)
        (take_over_all os lib btime loaded.0) (with_volumes os lib btime)
        (Leads-Gives H (λ ws t. SameAll (unpack os lib 0 d).0 ws × H t) H
          (take_over_all os lib btime loaded.0)
          (subst
            (λ r.
              Leads H (λ ws t. SameAll (unpack os lib 0 d).0 ws × H t) H
                (take_over_all os lib btime r))
            (sym (ap (λ r. r.0) e))
            (take_over_all-Leads os lib btime folder [] (unpack os lib 0 d).1
              (unpack os lib 0 d).0)))
        (λ ws t (m, (_, _, tt')). (m, tt')) (record s { tables = s.tables ++ loaded.1 })
        (fo, vo, ap (λ ts. ts ++ loaded.1) to ∙ ap (λ r. r.1) e)

  pub new_driver-Restarted :
      str_eq file [] ≡ false
      → unmarshal file ≡ ok d
      → Gives Empty (λ _. Restarted) (new_driver os lib btime)
  unfolding new_driver
  new_driver-Restarted e f =
      >>=-Gives (λ _. Empty) (λ _. Restarted) (λ s. ensure_folder os lib btime s.propagated_mount s)
        (λ _. open_control os lib btime >> (load os lib >>= rest_of os lib btime))
        (Keeps-Gives (λ s. ensure_folder os lib btime s.propagated_mount s)
          (λ s. ensure_folder-Empty s.propagated_mount s))
        (λ _.
          >>=-Gives (λ _. Empty) (λ _. Restarted) (open_control os lib btime)
            (λ _. load os lib >>= rest_of os lib btime)
            (Keeps-Gives (open_control os lib btime)
              (λ s. demand-Empty (open_file (join_path s.propagated_mount control_file_name)) s))
            (λ _.
              >>=-Gives Loaded (λ _. Restarted) (load os lib) (rest_of os lib btime)
                (load-Loaded e f) rest_of-Restarted))
