-- ===== src/Driver/Race.antt =====
-- What the mutex leaves open: `Unmount` reads the count before it takes the lock.
use example_docker_volume_pl.Common.{
  ℕ, ◌-◌, ◌<◌, ◌^◌, ◌≡◌, refl, sym, ap, ◌∙◌, some, length, length-set, set, arith,
}
use mathlib.Core.Path.{subst}
use example_docker_volume_pl.Common.Text.{Str, str_eq_refl}
use example_docker_volume_pl.Common.Map.{Map, lookup}
use example_docker_volume_pl.Os.{Os}
use example_docker_volume_pl.Driver.{Volume, Library, Driver}
use example_docker_volume_pl.Driver.Handlers.{table, drop_mount, unmount_locked}
use example_docker_volume_pl.Driver.Counts.{
  count_or_zero, count_in, mounted, IsWell, lookup-drop_mount,
}
use example_docker_volume_pl.Driver.Counts.Mount.{unmount_locked-Holds, table-set_self, address}
use example_docker_volume_pl.Driver.Counts.Requests.{Holds-mounted, mounts_in-table}

-- A count that is written does not depend on the table.
drop_mount-written :
    (id : Str) (c : ℕ) (t : Map ℕ) → 0 < c → c < 2 ^ 63 → count_in (drop_mount id c t) id ≡ c - 1
drop_mount-written id c t p q = ground (arith, lookup-drop_mount id id c t p q, str_eq_refl id)

module _ (os : Os) (lib : Library) where
  open os use {World}

  -- Two requests to unmount the same volume for the same ID that both read the count before either
  -- takes the lock: for a well-formed driver, they take away one mount instead of two.
  pub unmount_locked-race :
      (name id : Str) (s : Driver World) (v : Volume) (a c : ℕ)
      → IsWell s
      → lookup name s.volumes ≡ some v
      → v.mounts ≡ some a
      → lookup id (table s.tables a) ≡ some c
      → mounted (unmount_locked os lib id a c (unmount_locked os lib id a c s).1).1 name id
        ≡ mounted s name id - 1
  unmount_locked-race name id s v a c h e m f =
      let (p, q) = h.table-IsTable a id c f in
      let s1 = (unmount_locked os lib id a c s).1 in
      let (d, vs, ts) = unmount_locked-Holds os lib id a c s in
      let l = address s.volumes s.tables name v a (table s.tables a) h e m in
      let l1 : a < length s1.tables =
        subst (λ k. a < k)
          (sym (ap length ts ∙ length-set s.tables a (drop_mount id c (table s.tables a)))) l in
      let t = drop_mount id c (table s1.tables a) in
      Holds-mounted (unmount_locked os lib id a c s1).1 (unmount_locked-Holds os lib id a c s1) name
        id
      ∙ mounts_in-table s1.volumes (set s1.tables a t) name v a (ap (lookup name) vs ∙ e) m name id
          refl
      ∙ ap (λ t. count_in t id) (table-set_self s1.tables a t l1)
      ∙ drop_mount-written id c (table s1.tables a) p q
      ∙ ap (λ c. c - 1)
          (sym (mounts_in-table s.volumes s.tables name v a e m name id refl ∙ ap count_or_zero f))
