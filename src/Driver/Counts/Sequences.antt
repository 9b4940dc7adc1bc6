-- ===== src/Driver/Counts/Sequences.antt =====
-- A whole sequence of requests against the plain specification of the counts.
use example_docker_volume_pl.Common.{
  ℕ, ◌+◌, ◌-◌, ◌≤◌, ◌<◌, ◌^◌, ◌≡◌, refl, sym, ap, ◌∙◌, Bool, true, false, ◌&&◌, Option, none, some,
  List, [], ◌∷◌, length, if◌then◌else◌, arith,
}
use mathlib.Core.Path.{subst}
use example_docker_volume_pl.Common.Text.{Str, str_eq}
use example_docker_volume_pl.Common.Map.{lookup}
use example_docker_volume_pl.Os.{Os}
use example_docker_volume_pl.Driver.{Volume, Library, Driver}
use example_docker_volume_pl.Driver.Handlers.{table, mount, unmount}
use example_docker_volume_pl.Driver.Counts.{mounted, IsWell}
use example_docker_volume_pl.Driver.Counts.Mount.{mount-Holds}
use example_docker_volume_pl.Driver.Counts.Requests.{
  mount-missing, unmount-missing, unmount-absent, unmount-Holds, mount-mounted, unmount-mounted,
}

-- A request that changes the mounts.
pub data Request : Type 0 where
  mount_request unmount_request : Str → Str → Request

-- The volumes, by name, that there are.
abbrev pub is_some : {A : Type 0} → Option A → Bool
is_some none = false
is_some (some a) = true

-- The specification: a mount adds one to the count of its name and ID, if the name is known, and an
-- unmount takes one away.
abbrev pub counted : (Str → Bool) → Request → (Str → Str → ℕ) → Str → Str → ℕ
counted known (mount_request name id) f n i =
    if known name && (str_eq name n && str_eq id i) then f n i + 1 else f n i
counted known (unmount_request name id) f n i =
    if str_eq name n && str_eq id i then f n i - 1 else f n i

abbrev pub counted_all : (Str → Bool) → List Request → (Str → Str → ℕ) → Str → Str → ℕ
counted_all known [] f = f
counted_all known (r ∷ rs) f = counted_all known rs (counted known r f)

module _ (os : Os) (lib : Library) where
  open os use {World}

  -- The handler of a request; what it answers is passed over.
  abbrev pub handle : Request → Driver World → Driver World
  handle (mount_request name id) s = (mount os lib name id s).1
  handle (unmount_request name id) s = (unmount os lib name id s).1

  abbrev pub handle_all : List Request → Driver World → Driver World
  handle_all [] s = s
  handle_all (r ∷ rs) s = handle_all rs (handle r s)

  mount-volumes :
      (name id : Str) (s : Driver World) (o : Option Volume)
      → IsWell s
      → lookup name s.volumes ≡ o
      → (mount os lib name id s).1.volumes ≡ s.volumes
  mount-volumes name id s none h e = ap (λ r. r.1.volumes) (mount-missing os lib name id s e)
  mount-volumes name id s (some v) h e =
      let (a, m, l) = h.has_table name v e in (mount-Holds os lib name id s v a e m).1

  unmount-table :
      (name id : Str) (s : Driver World) (v : Volume) (a : ℕ) (o : Option ℕ)
      → lookup name s.volumes ≡ some v
      → v.mounts ≡ some a
      → lookup id (table s.tables a) ≡ o
      → (unmount os lib name id s).1.volumes ≡ s.volumes
  unmount-table name id s v a none e m f =
      ap (λ r. r.1.volumes) (unmount-absent os lib name id s v a e m f)
  unmount-table name id s v a (some c) e m f = (unmount-Holds os lib name id s v a c e m f).1

  unmount-volumes :
      (name id : Str) (s : Driver World) (o : Option Volume)
      → IsWell s
      → lookup name s.volumes ≡ o
      → (unmount os lib name id s).1.volumes ≡ s.volumes
  unmount-volumes name id s none h e = ap (λ r. r.1.volumes) (unmount-missing os lib name id s e)
  unmount-volumes name id s (some v) h e =
      let (a, m, l) = h.has_table name v e in
      unmount-table name id s v a (lookup id (table s.tables a)) e m refl

  abbrev pub known : Driver World → Str → Bool
  known s n = is_some (lookup n s.volumes)

  -- What one request does.
  abbrev pub Handled : Request → Driver World → Driver World → Type 0
  Handled r s u =
      IsWell u
      × (u.volumes ≡ s.volumes)
      × ((n i : Str) → mounted u n i ≡ counted (known s) r (mounted s) n i)

  mount-Handled :
      (name id : Str) (s : Driver World) (o : Option Volume)
      → IsWell s
      → mounted s name id + 1 < 2 ^ 63
      → lookup name s.volumes ≡ o
      → Handled (mount_request name id) s (mount os lib name id s).1
  mount-Handled name id s none h b e =
      subst (λ r. Handled (mount_request name id) s r.1) (sym (mount-missing os lib name id s e))
        (h, refl, λ n i. rw e)
  mount-Handled name id s (some v) h b e =
      let (w, c) = mount-mounted os lib name id s v h e b in
      (w, mount-volumes name id s (some v) h e, λ n i. rw e (c n i))

  pub handle-Handled :
      (r : Request) (s : Driver World)
      → IsWell s
      → ((n i : Str) → mounted s n i + 1 < 2 ^ 63)
      → Handled r s (handle r s)
  handle-Handled (mount_request name id) s h b =
      mount-Handled name id s (lookup name s.volumes) h (b name id) refl
  handle-Handled (unmount_request name id) s h b =
      let (w, c) = unmount-mounted os lib name id s h in
      (w, unmount-volumes name id s (lookup name s.volumes) h refl, c)

  counted-le :
      (k : Str → Bool) (r : Request) (f : Str → Str → ℕ) (n i : Str) → counted k r f n i ≤ f n i + 1
  counted-le k (mount_request name id) f n i = ground arith
  counted-le k (unmount_request name id) f n i = ground arith

  -- The driver refines the specification: from a well-formed driver, and as long as no count can leave
  -- the range of an `int`, after any sequence of mounts and unmounts, those of unknown names and those
  -- whose file could not be written included, every count is the one that the specification gives, and
  -- the driver is well-formed.
  pub handle_all-mounted :
      (rs : List Request) (s : Driver World)
      → IsWell s
      → ((n i : Str) → mounted s n i + length rs < 2 ^ 63)
      → IsWell (handle_all rs s)
        × ((n i : Str)
            → mounted (handle_all rs s) n i
              ≡ counted_all (λ n. is_some (lookup n s.volumes)) rs (mounted s) n i)
  handle_all-mounted [] s h b = (h, λ n i. refl)
  handle_all-mounted (r ∷ rs) s h b =
      let (w, v, c) = handle-Handled r s h (λ n i. omega (arith, b n i)) in
      let (w', c') =
        handle_all-mounted rs (handle r s) w
          (λ n i. omega (arith, b n i, c n i, counted-le (known s) r (mounted s) n i)) in
      (w', λ n i. c' n i ∙ λ j. counted_all (λ n. is_some (lookup n (v j))) rs (λ n i. c n i j) n i)
