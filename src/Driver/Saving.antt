-- ===== src/Driver/Saving.antt =====
-- What `pluginDriver_Save` leaves alone, and what it writes.
use example_docker_volume_pl.Common.{
  ℕ, ◌≡◌, sym, Option, none, some, List, [], take, Outcome, ok, err, panic,
}
use example_docker_volume_pl.Common.State.{M, ◌>>=◌, ◌>>◌, fail_if, modify}
use example_docker_volume_pl.Common.State.Laws.{
  Keeps, >>=-Keeps, IfOk, Gives, Keeps-Gives, >>=-Gives,
}
use example_docker_volume_pl.Common.Text.{Str}
use example_docker_volume_pl.Common.Map.{Map}
use example_docker_volume_pl.Os.{Os, OsError}
use example_docker_volume_pl.Driver.{
  Volume, Error, system, Library, Driver, system_error, with_json, demand, snapshot, write_file,
  save,
}

module _ {W : Type 0} where
  -- The volumes, their tables and the folder are these, whatever the file and the world.
  abbrev pub Holds : Str → Map Volume → List (Map ℕ) → Driver W → Type 0
  Holds folder volumes tables s =
      (s.propagated_mount ≡ folder) × (s.volumes ≡ volumes) × (s.tables ≡ tables)

  module _ (folder : Str) (volumes : Map Volume) (tables : List (Map ℕ)) where
    pub fail_if-Holds : (e : Option Error) → Keeps (Holds folder volumes tables) (fail_if e)
    fail_if-Holds none s h = h
    fail_if-Holds (some e) s h = h

    pub demand-Holds : (f : W → Option OsError × W) → Keeps (Holds folder volumes tables) (demand f)
    demand-Holds f s h =
        fail_if-Holds (system_error (f s.outside.world).0)
          (record s { outside = record s.outside { world = (f s.outside.world).1 } }) h

module _ (os : Os) (lib : Library) (folder : Str) (volumes : Map Volume)
    (tables : List (Map ℕ)) where
  open os use {World, seek, truncate, write}
  open lib use {marshal}

  written :
      (bytes : Str) (failed : Option (ℕ × OsError)) (t : Driver World)
      → Holds folder volumes tables t
      → let r : Outcome Error (Unit {0}) × Driver World = elim failed [
        | none ↦ (ok tt, record t { file = bytes })
        | some ne ↦ (err (system ne.1), record t { file = take ne.0 bytes })
      ] in
        Holds folder volumes tables r.1
  written bytes none t h = h
  written bytes (some ne) t h = h

  write_file-Holds : (bytes : Str) → Keeps (Holds folder volumes tables) (write_file os lib bytes)
  unfolding write_file
  write_file-Holds bytes s h =
      written bytes (write s.outside.world).0
        (record s { outside = record s.outside { world = (write s.outside.world).1 } }) h

  abbrev write_marshalled : M Error (Driver World) (Unit {0})
  write_marshalled =
      (λ s. (with_json (marshal (snapshot s.tables s.volumes)), s)) >>= write_file os lib

  -- Saving changes neither the volumes nor the tables, whether it succeeds or not.
  pub save-Holds : Keeps (Holds folder volumes tables) (save os lib)
  unfolding save
  save-Holds =
      let H = Holds folder volumes tables in
      >>=-Keeps H (demand seek)
        (λ _. demand truncate >> (modify (λ s. record s { file = [] }) >> write_marshalled))
        (demand-Holds folder volumes tables seek)
        (λ _.
          >>=-Keeps H (demand truncate)
            (λ _. modify (λ s. record s { file = [] }) >> write_marshalled)
            (demand-Holds folder volumes tables truncate)
            (λ _ s h.
              >>=-Keeps H (λ s. (with_json (marshal (snapshot s.tables s.volumes)), s))
                (write_file os lib) (λ s h. h) (λ bytes. write_file-Holds bytes)
                (record s { file = [] }) h))

  -- The file holds the text of these volumes with their mounts.
  abbrev pub IsSaved : Driver World → Type 0
  IsSaved s = (Holds folder volumes tables s) × (marshal (snapshot tables volumes) ≡ ok s.file)

  abbrev Marshalled : Str → Driver World → Type 0
  Marshalled bytes s =
      (Holds folder volumes tables s) × (marshal (snapshot tables volumes) ≡ ok bytes)

  marshalled :
      (r : Outcome OsError Str) (s : Driver World)
      → Holds folder volumes tables s
      → marshal (snapshot tables volumes) ≡ r
      → IfOk Marshalled (with_json r) s
  marshalled (ok bytes) s h e = (h, e)
  marshalled (err x) s h e = tt
  marshalled panic s h e = tt

  file_written :
      (bytes : Str) (failed : Option (ℕ × OsError)) (t : Driver World)
      → Marshalled bytes t
      → let r : Outcome Error (Unit {0}) × Driver World = elim failed [
        | none ↦ (ok tt, record t { file = bytes })
        | some ne ↦ (err (system ne.1), record t { file = take ne.0 bytes })
      ] in
        IfOk (λ _. IsSaved) r.0 r.1
  file_written bytes none t h = h
  file_written bytes (some ne) t h = tt

  write_file-Gives :
      (bytes : Str) → Gives (Marshalled bytes) (λ _. IsSaved) (write_file os lib bytes)
  unfolding write_file
  write_file-Gives bytes s h =
      file_written bytes (write s.outside.world).0
        (record s { outside = record s.outside { world = (write s.outside.world).1 } }) h

  marshal-Gives :
      Gives
        (Holds folder volumes tables)
        Marshalled
        (λ s. (with_json (marshal (snapshot s.tables s.volumes)), s))
  marshal-Gives s (f, v, t) =
      marshalled (marshal (snapshot s.tables s.volumes)) s (f, v, t)
        (sym (λ i. marshal (snapshot (t i) (v i))))

  -- Saving that succeeds: the file holds the text of all volumes with their mounts.
  pub save-Gives : Gives (Holds folder volumes tables) (λ _. IsSaved) (save os lib)
  unfolding save
  save-Gives =
      let H : Unit {0} → Driver World → Type 0 = λ _. Holds folder volumes tables in
      let F : Unit {0} → Driver World → Type 0 = λ _. IsSaved in
      >>=-Gives H F (demand seek)
        (λ _. demand truncate >> (modify (λ s. record s { file = [] }) >> write_marshalled))
        (Keeps-Gives (demand seek) (demand-Holds folder volumes tables seek))
        (λ _.
          >>=-Gives H F (demand truncate)
            (λ _. modify (λ s. record s { file = [] }) >> write_marshalled)
            (Keeps-Gives (demand truncate) (demand-Holds folder volumes tables truncate))
            (λ _ s h.
              >>=-Gives Marshalled F (λ s. (with_json (marshal (snapshot s.tables s.volumes)), s))
                (write_file os lib) marshal-Gives write_file-Gives (record s { file = [] }) h))
