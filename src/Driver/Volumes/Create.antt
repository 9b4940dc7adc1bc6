-- ===== src/Driver/Volumes/Create.antt =====
-- `Create`.
use example_docker_volume_pl.Common.{
  ℕ, ◌≡◌, refl, ap, ◌∙◌, Option, none, some, if◌then◌else◌, arith, Outcome, ok, err, panic,
}
use mathlib.Core.Path.{subst}
use example_docker_volume_pl.Common.State.{◌>>◌, fail_if}
use example_docker_volume_pl.Common.State.Ends.{Ends, Leads-map}
use example_docker_volume_pl.Common.Text.{Str, str_eq, str_eq_refl}
use example_docker_volume_pl.Common.Map.{Map, lookup, insert}
use example_docker_volume_pl.Common.Map.Laws.{lookup-insert}
use example_docker_volume_pl.Utils.Hashes.{sha256_string_to_string}
use example_docker_volume_pl.Os.{Os}
use example_docker_volume_pl.Driver.{Volume, Library, Driver, Error, snapshot}
use example_docker_volume_pl.Driver.Handlers.{create, exists_error, make_folder}
use example_docker_volume_pl.Driver.Counts.{mounts_in, mounted, IsWell}
use example_docker_volume_pl.Driver.Volumes.Keeping.{Before, Kept, Before-Kept}
use example_docker_volume_pl.Driver.Volumes.Creating.{WithVolume-Kept, Created, make_folder-Leads}

lookup-insert_self :
    (name : Str) (v : Volume) (m : Map Volume) → lookup name (insert name v m) ≡ some v
lookup-insert_self name v m = ground (arith, lookup-insert name name v m, str_eq_refl name)

module _ (os : Os) (lib : Library) (btime : ℕ) where
  open os use {World}
  open lib use {marshal, join_path, sha256}

  abbrev CreatedNew : Driver World → Str → Map Str → Unit {0} → Driver World → Type 0
  CreatedNew s name options x t =
      (lookup name s.volumes ≡ none) × Created os lib btime s name options x t

  create-Ends :
      (s : Driver World) (name : Str) (options : Map Str) (o : Option Volume)
      → IsWell s
      → lookup name s.volumes ≡ o
      → let r =
          (fail_if (exists_error name o) >> λ s.
          make_folder os lib btime name options
            (join_path s.propagated_mount (sha256_string_to_string sha256 name))
            s)
            s in
        Ends (CreatedNew s name options) (Kept s name) r.0 r.1
  create-Ends s name options (some v) h e = Before-Kept s name h s (refl, refl, refl)
  create-Ends s name options none h e =
      let folder = join_path s.propagated_mount (sha256_string_to_string sha256 name) in
      Leads-map (Created os lib btime s name options) (CreatedNew s name options) (Kept s name)
        (Kept s name) (λ _ u c. (e, c)) (λ u k. k) {P = Before s}
        (make_folder os lib btime name options folder)
        (make_folder-Leads os lib btime s name options h e folder) s (refl, refl, refl)

  -- However `Create` ends, a well-formed driver stays well-formed, no mount count changes, and every
  -- volume of another name is the same.
  pub create-Kept :
      (s : Driver World) (name : Str) (options : Map Str)
      → IsWell s
      → IsWell (create os lib btime name options s).1
        × ((n i : Str) → mounted (create os lib btime name options s).1 n i ≡ mounted s n i)
        × ((n : Str)
            → lookup n (create os lib btime name options s).1.volumes ≡ (
                if str_eq name n
                then lookup name (create os lib btime name options s).1.volumes
                else lookup n s.volumes))
  unfolding create
  create-Kept s name options h =
      ended (create os lib btime name options s)
        (create-Ends s name options (lookup name s.volumes) h refl)
    where
      ended :
          (r : Outcome Error (Unit {0}) × Driver World)
          → Ends (CreatedNew s name options) (Kept s name) r.0 r.1
          → Kept s name r.1
      ended (ok _, t) (e, (v, time, same, (b, _))) =
          WithVolume-Kept os lib btime s name options h e v same.3 t b
      ended (err _, t) k = k
      ended (panic, t) k = k

  -- Where `Create` succeeds, for a well-formed driver, the name was free; now it has a volume at the
  -- folder named after the hash of the name, with the options of the request, that is mounted for no
  -- ID, and the control file holds all volumes.
  pub create-ok :
      (s t : Driver World) (name : Str) (options : Map Str)
      → IsWell s
      → create os lib btime name options s ≡ (ok tt, t)
      → (lookup name s.volumes ≡ none)
        × ((v : Volume) × ((lookup name t.volumes ≡ some v)
              × (v.base_path ≡ s.propagated_mount)
              × (v.path ≡ sha256_string_to_string sha256 name)
              × (v.options ≡ some options)))
        × ((i : Str) → mounted t name i ≡ 0)
        × (marshal (snapshot t.tables t.volumes) ≡ ok t.file)
  unfolding create
  create-ok s t name options h e =
      let q : Ends {E = Error} (CreatedNew s name options) (Kept s name) (ok tt) t =
        subst (λ r. Ends (CreatedNew s name options) (Kept s name) r.0 r.1) e
          (create-Ends s name options (lookup name s.volumes) h refl) in
      let (f, (v, time, (b, p, c, m, o), ((d, vs, ts), w))) = q in
      (
        f,
        (v, ((λ j. lookup name (vs j)) ∙ lookup-insert_self name v s.volumes, b, p, o)),
        λ i.
            (WithVolume-Kept os lib btime s name options h f v m t (d, vs, ts)).1 name i
            ∙ ap (λ o. mounts_in s.tables o i) f,
        (λ j. marshal (snapshot (ts j) (vs j))) ∙ w,
      )
