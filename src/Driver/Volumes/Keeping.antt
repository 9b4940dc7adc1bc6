-- ===== src/Driver/Volumes/Keeping.antt =====
-- What `Create` and `Remove` keep, however they end.
use example_docker_volume_pl.Common.{◌≡◌, sym, false, arith, if◌then◌else◌}
use example_docker_volume_pl.Common.Text.{Str, str_eq, str_eq_iff}
use example_docker_volume_pl.Common.Map.{Map, lookup}
use example_docker_volume_pl.Driver.{Volume, Driver}
use example_docker_volume_pl.Driver.Saving.{Holds}
use example_docker_volume_pl.Driver.Counts.{mounted, IsWell}
use example_docker_volume_pl.Driver.Counts.Requests.{Holds-mounted, Holds-IsWell}

module _ {W : Type 0} (s : Driver W) where
  abbrev pub Before : Driver W → Type 0
  Before = Holds s.propagated_mount s.volumes s.tables

  module _ (name : Str) where
    -- No count has changed, and no volume of another name.
    abbrev pub Kept : Driver W → Type 0
    Kept t =
        IsWell t
        × ((n i : Str) → mounted t n i ≡ mounted s n i)
        × ((n : Str)
            → lookup n t.volumes
              ≡ (if str_eq name n then lookup name t.volumes else lookup n s.volumes))

    lookup_under : (m : Map Volume) (n : Str) → name ≡ n → lookup n m ≡ lookup name m
    lookup_under m n p j = lookup (sym p j) m

    pub other_volumes :
        (m : Map Volume) (n : Str)
        → (str_eq name n ≡ false → lookup n m ≡ lookup n s.volumes)
        → lookup n m ≡ (if str_eq name n then lookup name m else lookup n s.volumes)
    other_volumes m n f = ground (arith, str_eq_iff name n, lookup_under m n, f)

    pub Before-Kept : IsWell s → (t : Driver W) → Before t → Kept t
    Before-Kept h t b = (
      Holds-IsWell t b h,
      Holds-mounted t b,
      λ n. other_volumes t.volumes n (λ e j. lookup n (b.1 j)),
    )
