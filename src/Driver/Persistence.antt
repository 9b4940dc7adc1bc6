-- ===== src/Driver/Persistence.antt =====
-- The control file: what `pluginDriver_Load` reads is what `pluginDriver_Save` has written.
use example_docker_volume_pl.Common.{
  Bool, ℕ, ◌+◌, ◌≡◌, refl, sym, ap, ◌∙◌, false, Option, none, some, List, [], ◌∷◌, ◌++◌, length,
  get_elem?, append_assoc, length-append, if◌then◌else◌, ok, err, panic,
}
use mathlib.Core.Path.{subst}
use example_docker_volume_pl.Common.Text.{Str, str_eq}
use example_docker_volume_pl.Common.Map.{Map}
use example_docker_volume_pl.Os.{Os, OsError}
use example_docker_volume_pl.Driver.{
  Volume, Saved, Library, Driver, Error, with_json, snapshot, snapshot_volume, unpack, load, save,
  demand, system_error,
}
use example_docker_volume_pl.Common.State.{M, ◌>>◌, fail_if}
use example_docker_volume_pl.Common.State.Laws.{Gives-ok, >>=-step}
use example_docker_volume_pl.Driver.Documents.{IsDocument, SameDocument}
use example_docker_volume_pl.Driver.Saving.{Holds, IsSaved, save-Gives}

-- More tables behind those there are change no volume that points to the old ones.
get_elem?-prefix :
    (front more : List (Map ℕ)) (t : Map ℕ) → get_elem? (front ++ t ∷ more) (length front) ≡ some t
get_elem?-prefix [] more t = refl
get_elem?-prefix (x ∷ front) more t = get_elem?-prefix front more t

module _ (os : Os) (lib : Library) where
  open os use {World, seek, read_all}
  open lib use {marshal, unmarshal}

  -- Unpacking a document behind any tables, and taking the snapshot, gives the document.
  abbrev pub IsUnpacked : Map Saved → List (Map ℕ) → Type 0
  IsUnpacked saved tables =
      snapshot (tables ++ (unpack os lib (length tables) saved).1)
        (unpack os lib (length tables) saved).0
      ≡ saved

  unpacked :
      (name : Str) (v : Saved) (m : Option (Map ℕ)) (saved : Map Saved) (tables : List (Map ℕ))
      → ((tables : List (Map ℕ)) → IsUnpacked saved tables)
      → IsUnpacked ((name, record v { mounts = m }) ∷ saved) tables
  unfolding snapshot unpack snapshot_volume
  unpacked name v none saved tables ih =
      ap (λ rest. (name, record v { mounts = none }) ∷ rest) (ih tables)
  unpacked name v (some t) saved tables ih =
      let e : length (tables ++ t ∷ []) ≡ length tables + 1 = length-append tables (t ∷ []) in
      let more = unpack os lib (length tables + 1) saved in
      let g = get_elem?-prefix tables more.1 t in
      let r =
        subst
          (λ k.
            snapshot ((tables ++ t ∷ []) ++ (unpack os lib k saved).1) (unpack os lib k saved).0
            ≡ saved)
          e (ih (tables ++ t ∷ [])) in
      let r' = ap (λ ts. snapshot ts more.0) (sym (append_assoc tables (t ∷ []) more.1)) ∙ r in
      λ j. (name, record v { mounts = g j }) ∷ r' j

  pub snapshot-unpack : (saved : Map Saved) (tables : List (Map ℕ)) → IsUnpacked saved tables
  unfolding snapshot unpack
  snapshot-unpack [] tables = refl
  snapshot-unpack ((name, v) ∷ saved) tables =
      unpacked name v v.mounts saved tables (λ ts. snapshot-unpack saved ts)

  abbrev parsed : M Error (Driver World) (Map Volume × List (Map ℕ))
  parsed s = if str_eq s.file [] then (ok ([], []), s) else elim (with_json (unmarshal s.file)) [
    | ok saved ↦ (ok (unpack os lib (length s.tables) saved), s)
    | err e ↦ (err e, s)
    | panic ↦ (panic, s)
  ]

  demand-ok :
      (f : World → Option OsError × World) (u : Driver World) (w : World)
      → f u.outside.world ≡ (none, w)
      → demand f u ≡ (ok tt, record u { outside = record u.outside { world = w } })
  demand-ok f u w e =
      ap
        (λ (r : Option OsError × World).
          (fail_if (system_error r.0) (record u { outside = record u.outside { world = r.1 } })))
        e

  load-eq :
      (u : Driver World) (w1 w2 : World)
      → seek u.outside.world ≡ (none, w1)
      → read_all w1 ≡ (none, w2)
      → load os lib u ≡ parsed (record u { outside = record u.outside { world = w2 } })
  unfolding load
  load-eq u w1 w2 e f =
      let u1 : Driver World = record u { outside = record u.outside { world = w1 } } in
      >>=-step (demand seek) (λ _. demand read_all >> parsed) (demand-ok seek u w1 e)
      ∙ >>=-step (demand read_all) (λ _. parsed) (demand-ok read_all u1 w2 f)

  parsed-ok :
      (u : Driver World) (saved : Map Saved)
      → str_eq u.file [] ≡ false
      → unmarshal u.file ≡ ok saved
      → (parsed u).0 ≡ ok (unpack os lib (length u.tables) saved)
  parsed-ok u saved e f = rw (e, f)

  -- Where `encoding/json` writes a document with valid texts as bytes that are not empty and reads it
  -- back, up to the order of its keys: a driver with valid texts that has saved its volumes leaves a
  -- file from which any driver with that file, if the two calls of the system succeed, loads volumes
  -- and tables that are together the same document: every volume with its folder, time, options,
  -- process, and mounts.
  pub load-save :
      (is_text : Str → Bool)
      (round_trip : (d : Map Saved) (bytes : Str)
        → IsDocument is_text d
        → marshal d ≡ ok bytes
        → (str_eq bytes [] ≡ false)
          × ((e : Map Saved) × (unmarshal bytes ≡ ok e) × SameDocument d e))
      (s t u : Driver World) (w1 w2 : World)
      → IsDocument is_text (snapshot s.tables s.volumes)
      → save os lib s ≡ (ok tt, t)
      → u.file ≡ t.file
      → seek u.outside.world ≡ (none, w1)
      → read_all w1 ≡ (none, w2)
      → (volumes : Map Volume) × (tables : List (Map ℕ)) × ((load os lib u).0
          ≡ ok (volumes, tables))
        × SameDocument (snapshot s.tables s.volumes) (snapshot (u.tables ++ tables) volumes)
  load-save is_text round_trip s t u w1 w2 valid e f g h =
      let (_, m) =
        Gives-ok (Holds s.propagated_mount s.volumes s.tables)
          (λ _. IsSaved os lib s.propagated_mount s.volumes s.tables) (save os lib)
          (save-Gives os lib s.propagated_mount s.volumes s.tables) (refl, refl, refl) e in
      let d = snapshot s.tables s.volumes in
      let (n, (read, r, same)) = round_trip d t.file valid m in
      let u2 : Driver World = record u { outside = record u.outside { world = w2 } } in
      let more = unpack os lib (length u.tables) read in
      (
        more.0,
        more.1,
        ap (λ r. r.0) (load-eq u w1 w2 g h)
            ∙ parsed-ok u2 read (ap (λ b. str_eq b []) f ∙ n) (ap unmarshal f ∙ r),
        subst (SameDocument d) (sym (snapshot-unpack read u.tables)) same,
      )
