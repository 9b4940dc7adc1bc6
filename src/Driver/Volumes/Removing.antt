-- ===== src/Driver/Volumes/Removing.antt =====
-- `Remove` behind the test for mounts, step by step.
use example_docker_volume_pl.Common.{ℕ, ◌≡◌, sym, ap, ◌∙◌, List, arith}
use example_docker_volume_pl.Common.State.{M, ◌>>◌}
use example_docker_volume_pl.Common.State.Laws.{Keeps}
use example_docker_volume_pl.Common.State.Ends.{Leads, Keeps-Leads, Gives-Leads, >>=-Leads}
use example_docker_volume_pl.Common.Text.{Str, str_eq_iff}
use example_docker_volume_pl.Common.Map.{Map, lookup, delete}
use example_docker_volume_pl.Common.Map.Laws.{lookup-delete}
use example_docker_volume_pl.Os.{Os}
use example_docker_volume_pl.Driver.{Volume, Library, Driver, Error, demand, save, mount_point}
use example_docker_volume_pl.Driver.Handlers.{forget_monitor, delete_volume}
use example_docker_volume_pl.Driver.Saving.{Holds, demand-Holds, save-Holds, save-Gives, IsSaved}
use example_docker_volume_pl.Driver.Counts.{mounts_in, mounted, IsWell}
use example_docker_volume_pl.Driver.Counts.Requests.{Holds-mounted, Holds-IsWell}
use example_docker_volume_pl.Driver.Volumes.{IsWellOf-delete}
use example_docker_volume_pl.Driver.Volumes.Keeping.{Before, Kept, other_volumes, Before-Kept}

module _ (os : Os) (lib : Library) (btime : ℕ) where
  open os use {World, remove}
  open lib use {marshal}

  forget_monitor-Holds :
      (folder : Str) (volumes : Map Volume) (tables : List (Map ℕ)) (puid : Str)
      → Keeps (Holds folder volumes tables) (forget_monitor os lib btime puid)
  unfolding forget_monitor
  forget_monitor-Holds folder volumes tables puid s h = ground arith

  module _ (s : Driver World) (name : Str) where
    abbrev pub Deleted : Driver World → Type 0
    Deleted = Holds s.propagated_mount (delete name s.volumes) s.tables

    under : (n i : Str) → ((i : Str) → mounted s name i ≡ 0) → name ≡ n → mounted s n i ≡ 0
    under n i z p = (λ j. mounted s (sym p j) i) ∙ z i

    counts_after :
        (n i : Str)
        → ((i : Str) → mounted s name i ≡ 0)
        → mounts_in s.tables (lookup n (delete name s.volumes)) i ≡ mounted s n i
    counts_after n i z =
        ground (arith, lookup-delete name n s.volumes, str_eq_iff name n, under n i z)

    pub Deleted-Kept :
        IsWell s
        → ((i : Str) → mounted s name i ≡ 0)
        → (t : Driver World) → Deleted t
        → Kept s name t
    Deleted-Kept h z t d = (
      Holds-IsWell t d (IsWellOf-delete s.volumes s.tables name h),
      λ n i. Holds-mounted t d n i ∙ counts_after n i z,
      λ n.
          other_volumes s name t.volumes n
            (λ e. (λ j. lookup n (d.1 j)) ∙ ground (arith, lookup-delete name n s.volumes)),
    )

  abbrev pub rest : Str → Volume → M Error (Driver World) (Unit {0})
  rest name v =
      forget_monitor os lib btime v.puid
      >> (demand (remove (mount_point os lib v))
          >> (delete_volume os lib btime name >> save os lib))

  pub rest-Leads :
      (s : Driver World) (name : Str) (v : Volume)
      → IsWell s
      → ((i : Str) → mounted s name i ≡ 0)
      → Leads
          (Before s)
          (λ _. IsSaved os lib s.propagated_mount (delete name s.volumes) s.tables)
          (Kept s name)
          (rest name v)
  unfolding delete_volume
  rest-Leads s name v h z =
      let B = Before s in
      let K = Kept s name in
      let F : Unit {0} → Driver World → Type 0 =
        λ _. IsSaved os lib s.propagated_mount (delete name s.volumes) s.tables in
      >>=-Leads (λ _. B) F K (forget_monitor os lib btime v.puid)
        (λ _.
          demand (remove (mount_point os lib v))
          >> (delete_volume os lib btime name >> save os lib))
        (Keeps-Leads B K (forget_monitor os lib btime v.puid) (Before-Kept s name h)
          (forget_monitor-Holds s.propagated_mount s.volumes s.tables v.puid))
        (λ _.
          >>=-Leads (λ _. B) F K (demand (remove (mount_point os lib v)))
            (λ _. delete_volume os lib btime name >> save os lib)
            (Keeps-Leads B K (demand (remove (mount_point os lib v))) (Before-Kept s name h)
              (demand-Holds s.propagated_mount s.volumes s.tables (remove (mount_point os lib v))))
            (λ _ t b.
              Gives-Leads F K (Deleted s name) (save os lib) (Deleted-Kept s name h z)
                (save-Holds os lib s.propagated_mount (delete name s.volumes) s.tables)
                (save-Gives os lib s.propagated_mount (delete name s.volumes) s.tables)
                (record t { volumes = delete name t.volumes }) (b.0, ap (delete name) b.1, b.2)))
