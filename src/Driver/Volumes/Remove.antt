-- ===== src/Driver/Volumes/Remove.antt =====
-- `Remove`.
use example_docker_volume_pl.Common.{
  ℕ, ◌<◌, ◌≡◌, refl, sym, ap, ◌∙◌, Option, none, some, [], ◌∷◌, length, if◌then◌else◌, arith,
  Outcome, ok, err, panic,
}
use mathlib.Core.Path.{subst}
use example_docker_volume_pl.Common.State.{M, ◌>>=◌, ◌>>◌, fail_if}
use example_docker_volume_pl.Common.State.Laws.{>>=-step, >>=-stop}
use example_docker_volume_pl.Common.State.Ends.{Ends-with, Ends}
use example_docker_volume_pl.Common.Text.{Str, str_eq}
use example_docker_volume_pl.Common.Map.{Map, lookup, delete}
use example_docker_volume_pl.Common.Map.Laws.{lookup-delete}
use example_docker_volume_pl.Os.{Os}
use example_docker_volume_pl.Driver.{Volume, Library, Driver, Error, active_mounts, snapshot}
use example_docker_volume_pl.Driver.Handlers.{
  table, find_volume, mounts_of, active_error, remove_volume,
}
use example_docker_volume_pl.Driver.Saving.{IsSaved}
use example_docker_volume_pl.Driver.Counts.{count_in, mounts_in, mounted, IsWell}
use example_docker_volume_pl.Driver.Counts.Mount.{
  find_volume-some, find_volume-none, mounts_of-some,
}
use example_docker_volume_pl.Driver.Counts.Requests.{mounts_in-table}
use example_docker_volume_pl.Driver.Volumes.Keeping.{Kept, Before-Kept}
use example_docker_volume_pl.Driver.Volumes.Removing.{Deleted-Kept, rest, rest-Leads}

active_error-none : (name : Str) (t : Map ℕ) → active_error name t ≡ none → t ≡ []
unfolding active_error
active_error-none name [] e = refl
active_error-none name (x ∷ t) e = absurd (ground arith)

-- A count that is not 0 stands in a table that is not empty.
active_error-some :
    (name id : Str) (t : Map ℕ)
    → 0 < count_in t id
    → active_error name t ≡ some (active_mounts name (length t))
unfolding active_error lookup
active_error-some name id [] h = absurd (ground arith)
active_error-some name id (x ∷ t) h = ground arith

module _ (os : Os) (lib : Library) (btime : ℕ) where
  open os use {World}
  open lib use {marshal}

  abbrev removing : Str → Volume → ℕ → M Error (Driver World) (Unit {0})
  removing name v a =
      (λ s. fail_if (active_error name (table s.tables a)) s) >> rest os lib btime name v

  remove_volume-found :
      (s : Driver World) (name : Str) (v : Volume) (a : ℕ)
      → lookup name s.volumes ≡ some v
      → v.mounts ≡ some a
      → remove_volume os lib btime name s ≡ removing name v a s
  unfolding remove_volume
  remove_volume-found s name v a e m =
      >>=-step (find_volume name) (λ v. mounts_of v >>= removing name v) (find_volume-some name s e)
      ∙ >>=-step (mounts_of v) (removing name v) (mounts_of-some v s m)

  -- What a removal that succeeds leaves.
  abbrev Gone : Driver World → Str → Unit {0} → Driver World → Type 0
  Gone s name _ t =
      ((i : Str) → mounted s name i ≡ 0)
      × IsSaved os lib s.propagated_mount (delete name s.volumes) s.tables t

  abbrev Removed : Driver World → Str → Outcome Error (Unit {0}) × Driver World → Type 0
  Removed s name r = Ends (Gone s name) (Kept s name) r.0 r.1

  no_mounts :
      (s : Driver World) (name : Str) (v : Volume) (a : ℕ)
      → lookup name s.volumes ≡ some v
      → v.mounts ≡ some a
      → table s.tables a ≡ []
      → (i : Str) → mounted s name i ≡ 0
  unfolding lookup
  no_mounts s name v a e m f i =
      mounts_in-table s.volumes s.tables name v a e m name i refl ∙ ap (λ t. count_in t i) f

  removing-Removed :
      (s : Driver World) (name : Str) (v : Volume) (a : ℕ) (o : Option Error)
      → IsWell s
      → lookup name s.volumes ≡ some v
      → v.mounts ≡ some a
      → active_error name (table s.tables a) ≡ o
      → Removed s name ((fail_if o >> rest os lib btime name v) s)
  removing-Removed s name v a (some x) h e m f = Before-Kept s name h s (refl, refl, refl)
  removing-Removed s name v a none h e m f =
      let z = no_mounts s name v a e m (active_error-none name (table s.tables a) f) in
      Ends-with ((i : Str) → mounted s name i ≡ 0)
        (λ _. IsSaved os lib s.propagated_mount (delete name s.volumes) s.tables) (Kept s name)
        (rest os lib btime name v s).0 (rest os lib btime name v s).1 z
        (rest-Leads os lib btime s name v h z s (refl, refl, refl))

  remove_volume-Removed :
      (s : Driver World) (name : Str) (o : Option Volume)
      → IsWell s
      → lookup name s.volumes ≡ o
      → Removed s name (remove_volume os lib btime name s)
  unfolding remove_volume
  remove_volume-Removed s name none h e =
      subst (Removed s name)
        (sym (
          >>=-stop (find_volume name) (λ v. mounts_of v >>= removing name v)
            (find_volume-none name s e)))
        (Before-Kept s name h s (refl, refl, refl))
  remove_volume-Removed s name (some v) h e =
      let (a, m, l) = h.has_table name v e in
      subst (Removed s name) (sym (remove_volume-found s name v a e m))
        (removing-Removed s name v a (active_error name (table s.tables a)) h e m refl)

  known_volume :
      (s : Driver World) (name id : Str)
      → 0 < mounted s name id
      → (v : Volume) × (lookup name s.volumes ≡ some v)
  known_volume s name id p =
      elim (lookup name s.volumes)
          as (λ o. 0 < mounts_in s.tables o id → (v : Volume) × (o ≡ some v)) [
            | none ↦ λ q. absurd (ground arith)
            | some v ↦ λ q. (v, refl)
          ]
        p

  -- The table of the volume with a name.
  abbrev pub mounts_under : Driver World → Str → Map ℕ
  mounts_under s name = elim (lookup name s.volumes) [
    | none ↦ []
    | some v ↦ elim v.mounts [ none ↦ [] | some a ↦ table s.tables a ]
  ]

  mounts_under-table :
      (s : Driver World) (name : Str) (v : Volume) (a : ℕ)
      → lookup name s.volumes ≡ some v
      → v.mounts ≡ some a
      → mounts_under s name ≡ table s.tables a
  mounts_under-table s name v a e m = ground (arith, e, m)

  -- A volume with a mount is not removed: for a well-formed driver and a volume that is mounted for
  -- some ID, `Remove` fails with the number of the IDs in its table of mounts, and nothing whatever has
  -- changed.
  pub remove_volume-active :
      (s : Driver World) (name id : Str)
      → IsWell s
      → 0 < mounted s name id
      → remove_volume os lib btime name s
        ≡ (err (active_mounts name (length (mounts_under s name))), s)
  remove_volume-active s name id h p =
      let (v, e) = known_volume s name id p in
      let (a, m, l) = h.has_table name v e in
      let c : 0 < count_in (table s.tables a) id =
        subst (λ c. 0 < c) (mounts_in-table s.volumes s.tables name v a e m name id refl) p in
      remove_volume-found s name v a e m
      ∙ ap (λ (o : Option Error). (fail_if o >> rest os lib btime name v) s)
          (active_error-some name id (table s.tables a) c)
      ∙ ap (λ t. (err (active_mounts name (length t)), s)) (sym (mounts_under-table s name v a e m))

  -- However `Remove` ends, a well-formed driver stays well-formed, no mount count changes, and every
  -- volume of another name is the same.
  pub remove_volume-Kept :
      (s : Driver World) (name : Str)
      → IsWell s
      → IsWell (remove_volume os lib btime name s).1
        × ((n i : Str) → mounted (remove_volume os lib btime name s).1 n i ≡ mounted s n i)
        × ((n : Str)
            → lookup n (remove_volume os lib btime name s).1.volumes ≡ (
                if str_eq name n
                then lookup name (remove_volume os lib btime name s).1.volumes
                else lookup n s.volumes))
  remove_volume-Kept s name h =
      ended (remove_volume os lib btime name s)
        (remove_volume-Removed s name (lookup name s.volumes) h refl)
    where
      ended : (r : Outcome Error (Unit {0}) × Driver World) → Removed s name r → Kept s name r.1
      ended (ok _, t) (z, (d, _)) = Deleted-Kept os lib btime s name h z t d
      ended (err _, t) k = k
      ended (panic, t) k = k

  -- Where `Remove` succeeds, for a well-formed driver, the volume had no mount, it is gone while every
  -- other is there, and the control file holds the volumes that are left.
  pub remove_volume-ok :
      (s t : Driver World) (name : Str)
      → IsWell s
      → remove_volume os lib btime name s ≡ (ok tt, t)
      → ((i : Str) → mounted s name i ≡ 0)
        × ((n : Str) → lookup n t.volumes ≡ (if str_eq name n then none else lookup n s.volumes))
        × (marshal (snapshot t.tables t.volumes) ≡ ok t.file)
  remove_volume-ok s t name h e =
      let (z, ((f, v, a), w)) =
        subst (Removed s name) e (remove_volume-Removed s name (lookup name s.volumes) h refl) in
      (
        z,
        λ n. (λ j. lookup n (v j)) ∙ lookup-delete name n s.volumes,
        (λ j. marshal (snapshot (a j) (v j))) ∙ w,
      )
