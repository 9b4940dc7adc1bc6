-- ===== src/Driver/Counts/Requests.antt =====
-- The driver counts mounts: single requests, and whole sequences of them against the plain
-- specification that adds one and takes one away.
use example_docker_volume_pl.Common.{
  ℕ, ◌+◌, ◌-◌, ◌<◌, ◌^◌, ◌≡◌, refl, sym, ap, ◌∙◌, ◌&&◌, Option, none, some, List, set,
  if◌then◌else◌, arith, ok, err,
}
use mathlib.Core.Path.{subst}
use example_docker_volume_pl.Common.State.{◌>>=◌, ◌>>◌, return}
use example_docker_volume_pl.Common.State.Laws.{>>=-stop}
use example_docker_volume_pl.Common.Text.{Str, str_eq, str_eq_iff}
use example_docker_volume_pl.Common.Map.{Map, lookup}
use example_docker_volume_pl.Os.{Os}
use example_docker_volume_pl.Driver.{Volume, Library, Driver, not_found, save, mount_point}
use example_docker_volume_pl.Driver.Handlers.{
  table, add_mount, drop_mount, find_volume, mounts_of, write_table, mount, unmount, unmount_locked,
}
use example_docker_volume_pl.Driver.Saving.{Holds}
use example_docker_volume_pl.Driver.Counts.{
  count_or_zero, count_in, mounts_in, mounted, IsWellOf, IsWell, add_mount-count, drop_mount-count,
  add_mount-IsTable, drop_mount-IsTable,
}
use example_docker_volume_pl.Driver.Counts.Mount.{
  find_volume-none, mount-Holds, unmount-eq, unmount_locked-Holds, mounted-write, IsWellOf-write,
}

module _ {W : Type 0} {folder : Str} {volumes : Map Volume} {tables : List (Map ℕ)}
    (u : Driver W) where
  pub Holds-mounted :
      Holds folder volumes tables u
      → (n i : Str) → mounted u n i ≡ mounts_in tables (lookup n volumes) i
  Holds-mounted (f, v, t) n i j = mounts_in (t j) (lookup n (v j)) i

  pub Holds-IsWell : Holds folder volumes tables u → IsWellOf volumes tables → IsWell u
  Holds-IsWell (f, v, t) = subst (λ x. x) (sym (λ j. IsWellOf (v j) (t j)))

module _ (volumes : Map Volume) (tables : List (Map ℕ)) (name : Str) (v : Volume) (a : ℕ)
    (e : lookup name volumes ≡ some v) (m : v.mounts ≡ some a) where
  pub mounts_in-table :
      (n i : Str) → name ≡ n → mounts_in tables (lookup n volumes) i ≡ count_in (table tables a) i
  mounts_in-table n i p = rw (sym p, e, m)

  mounts_in-changed :
      (f : ℕ → ℕ) (id : Str) (t : Map ℕ)
      → ((i : Str)
          → count_in t i ≡ (
              if str_eq id i then f (count_in (table tables a) i) else count_in (table tables a) i))
      → (n i : Str)
      → (if str_eq name n then count_in t i else mounts_in tables (lookup n volumes) i) ≡ (
          if str_eq name n && str_eq id i
          then f (mounts_in tables (lookup n volumes) i)
          else mounts_in tables (lookup n volumes) i)
  mounts_in-changed f id t h n i = ground (arith, h i, str_eq_iff name n, mounts_in-table n i)

module _ (os : Os) (lib : Library) where
  open os use {World}

  -- A volume that is mounted once more: for a well-formed driver that has the volume, and a count that
  -- stays an `int`, the count of that name and ID grows by one and every other count stays, whether
  -- the control file could be written or not; and the driver is well-formed again.
  pub mount-mounted :
      (name id : Str) (s : Driver World) (v : Volume)
      → IsWell s
      → lookup name s.volumes ≡ some v
      → mounted s name id + 1 < 2 ^ 63
      → IsWell (mount os lib name id s).1
        × ((n i : Str)
            → mounted (mount os lib name id s).1 n i
              ≡ (if str_eq name n && str_eq id i then mounted s n i + 1 else mounted s n i))
  mount-mounted name id s v h e b =
      let (a, m, l) = h.has_table name v e in
      let d : count_in (table s.tables a) id + 1 < 2 ^ 63 =
        subst (λ c. c + 1 < 2 ^ 63) (mounts_in-table s.volumes s.tables name v a e m name id refl)
          b in
      let t = add_mount id (table s.tables a) in
      let u = mount-Holds os lib name id s v a e m in
      (
        Holds-IsWell (mount os lib name id s).1 u (
            IsWellOf-write s.volumes s.tables name v a t h e m
              (add_mount-IsTable id (table s.tables a) d (h.table-IsTable a))),
        λ n i.
            Holds-mounted (mount os lib name id s).1 u n i
            ∙ mounted-write s.volumes s.tables name v a t h e m n i
            ∙ mounts_in-changed s.volumes s.tables name v a e m (λ c. c + 1) id t
                (λ i. add_mount-count id i (table s.tables a) d) n i,
      )

  -- The second alternative of `Unmount` on the volume: the mount is there.
  pub unmount-Holds :
      (name id : Str) (s : Driver World) (v : Volume) (a c : ℕ)
      → lookup name s.volumes ≡ some v
      → v.mounts ≡ some a
      → lookup id (table s.tables a) ≡ some c
      → Holds s.propagated_mount s.volumes
          (set s.tables a (drop_mount id c (table s.tables a)))
          (unmount os lib name id s).1
  unmount-Holds name id s v a c e m f =
      subst
        (λ r.
          Holds s.propagated_mount s.volumes (set s.tables a (drop_mount id c (table s.tables a)))
            r.1)
        (sym (
          unmount-eq os lib name id s v a e m
          ∙ ap
              (λ (o : Option ℕ). elim o [
                | none ↦ (ok tt, s)
                | some count ↦ unmount_locked os lib id a count s
              ])
              f))
        (unmount_locked-Holds os lib id a c s)

  -- The mount is not there: nothing happens.
  pub unmount-absent :
      (name id : Str) (s : Driver World) (v : Volume) (a : ℕ)
      → lookup name s.volumes ≡ some v
      → v.mounts ≡ some a
      → lookup id (table s.tables a) ≡ none
      → unmount os lib name id s ≡ (ok tt, s)
  unmount-absent name id s v a e m f =
      unmount-eq os lib name id s v a e m
      ∙ ap
          (λ (o : Option ℕ). elim o [
            | none ↦ (ok tt, s)
            | some count ↦ unmount_locked os lib id a count s
          ])
          f

  pub unmount-missing :
      (name id : Str) (s : Driver World)
      → lookup name s.volumes ≡ none
      → unmount os lib name id s ≡ (err (not_found name), s)
  unfolding unmount
  unmount-missing name id s e =
      >>=-stop (find_volume name)
        (λ v. mounts_of v >>= λ a s. elim (lookup id (table s.tables a)) [
          | none ↦ (ok tt, s)
          | some count ↦ unmount_locked os lib id a count s
        ])
        (find_volume-none name s e)

  pub mount-missing :
      (name id : Str) (s : Driver World)
      → lookup name s.volumes ≡ none
      → mount os lib name id s ≡ (err (not_found name), s)
  unfolding mount
  mount-missing name id s e =
      >>=-stop (find_volume name)
        (λ v. mounts_of v >>= λ a.
          write_table a (add_mount id) >> (save os lib >>= λ _. return (mount_point os lib v)))
        (find_volume-none name s e)

  -- The counts of the second driver are those of the first, less a mount.
  abbrev Unmounted : Str → Str → Driver World → Driver World → Type 0
  Unmounted name id s u =
      IsWell u
      × ((n i : Str)
          → mounted u n i
            ≡ (if str_eq name n && str_eq id i then mounted s n i - 1 else mounted s n i))

  mounted-eq :
      (name id n i : Str) (s : Driver World) → name ≡ n → id ≡ i → mounted s n i ≡ mounted s name id
  mounted-eq name id n i s p q j = mounted s (sym p j) (sym q j)

  Unmounted-self :
      (name id : Str) (s : Driver World) → IsWell s → mounted s name id ≡ 0 → Unmounted name id s s
  Unmounted-self name id s h z =
      (h, λ n i. ground (arith, str_eq_iff name n, str_eq_iff id i, mounted-eq name id n i s))

  Unmounted-count :
      (name id : Str) (s : Driver World) (v : Volume) (a : ℕ) (o : Option ℕ)
      → IsWell s
      → lookup name s.volumes ≡ some v
      → v.mounts ≡ some a
      → lookup id (table s.tables a) ≡ o
      → Unmounted name id s (unmount os lib name id s).1
  Unmounted-count name id s v a none h e m f =
      subst (λ r. Unmounted name id s r.1) (sym (unmount-absent name id s v a e m f))
        (Unmounted-self name id s h
          (mounts_in-table s.volumes s.tables name v a e m name id refl ∙ ap count_or_zero f))
  Unmounted-count name id s v a (some c) h e m f =
      let t = drop_mount id c (table s.tables a) in
      let u = unmount-Holds name id s v a c e m f in
      (
        Holds-IsWell (unmount os lib name id s).1 u (
            IsWellOf-write s.volumes s.tables name v a t h e m
              (drop_mount-IsTable id c (table s.tables a) (h.table-IsTable a) f)),
        λ n i.
            Holds-mounted (unmount os lib name id s).1 u n i
            ∙ mounted-write s.volumes s.tables name v a t h e m n i
            ∙ mounts_in-changed s.volumes s.tables name v a e m (λ c. c - 1) id t
                (λ i. drop_mount-count id i c (table s.tables a) (h.table-IsTable a) f) n i,
      )

  Unmounted-volume :
      (name id : Str) (s : Driver World) (o : Option Volume)
      → IsWell s
      → lookup name s.volumes ≡ o
      → Unmounted name id s (unmount os lib name id s).1
  Unmounted-volume name id s none h e =
      subst (λ r. Unmounted name id s r.1) (sym (unmount-missing name id s e))
        (Unmounted-self name id s h (rw e))
  Unmounted-volume name id s (some v) h e =
      let (a, m, l) = h.has_table name v e in
      Unmounted-count name id s v a (lookup id (table s.tables a)) h e m refl

  -- A volume that is unmounted: for a well-formed driver, the count of that name and ID goes down by
  -- one, and stays 0 where it was, every other count stays, whether the control file could be written
  -- or not; and the driver is well-formed again.
  pub unmount-mounted :
      (name id : Str) (s : Driver World)
      → IsWell s
      → IsWell (unmount os lib name id s).1
        × ((n i : Str)
            → mounted (unmount os lib name id s).1 n i
              ≡ (if str_eq name n && str_eq id i then mounted s n i - 1 else mounted s n i))
  unmount-mounted name id s h = Unmounted-volume name id s (lookup name s.volumes) h refl
