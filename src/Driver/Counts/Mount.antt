-- ===== src/Driver/Counts/Mount.antt =====
-- What `Mount` and `Unmount` do to the counts.
use example_docker_volume_pl.Common.{
  ℕ, ◌<◌, ◌≡◌, refl, sym, ◌∙◌, Option, none, some, List, length, set, if◌then◌else◌, arith, ok, err,
  length-set, get_elem?-set_self, get_elem?-set_ne, ℕ_discrete, ◌==◌,
}
use mathlib.Core.Path.{subst}
use example_docker_volume_pl.Common.State.{M, ◌>>=◌, ◌>>◌, return}
use example_docker_volume_pl.Common.State.Laws.{>>=-Keeps, >>=-step}
use example_docker_volume_pl.Common.Text.{Str, str_eq, str_eq_iff}
use example_docker_volume_pl.Common.Map.{Map, lookup}
use example_docker_volume_pl.Os.{Os}
use example_docker_volume_pl.Driver.{Volume, Library, Driver, Error, not_found, save, mount_point}
use example_docker_volume_pl.Driver.Handlers.{
  table, add_mount, drop_mount, write_table, find_volume, mounts_of, mount, unmount, unmount_locked,
}
use example_docker_volume_pl.Driver.Saving.{Holds, save-Holds}
use example_docker_volume_pl.Driver.Counts.{count_in, IsTable, mounts_in, IsWellOf}

pub table-set :
    (tables : List (Map ℕ)) (a b : ℕ) (t : Map ℕ)
    → a < length tables
    → table (set tables a t) b ≡ (if a == b then t else table tables b)
unfolding table
table-set tables a b t h = elim (ℕ_discrete a b) [
  | yes e ↦ ground (arith, get_elem?-set_self tables a t)
  | no n ↦ ground (arith, get_elem?-set_ne tables {i = a} {j = b} t n)
]

pub table-set_self :
    (tables : List (Map ℕ)) (a : ℕ) (t : Map ℕ) → a < length tables → table (set tables a t) a ≡ t
unfolding table
table-set_self tables a t h = rw (get_elem?-set_self tables a t h, table)

module _ {W : Type 0} where
  pub find_volume-some :
      (name : Str) (s : Driver W) {v : Volume}
      → lookup name s.volumes ≡ some v
      → find_volume name s ≡ (ok v, s)
  unfolding find_volume
  find_volume-some name s e = rw (e, find_volume)

  pub find_volume-none :
      (name : Str) (s : Driver W)
      → lookup name s.volumes ≡ none
      → find_volume name s ≡ (err (not_found name), s)
  unfolding find_volume
  find_volume-none name s e = rw (e, find_volume)

  pub mounts_of-some :
      (v : Volume) (s : Driver W) {a : ℕ} → v.mounts ≡ some a → mounts_of v s ≡ (ok a, s)
  unfolding mounts_of
  mounts_of-some v s e = rw (e, mounts_of)

volume_of_name :
    (volumes : Map Volume) (n m : Str) (v w : Volume)
    → lookup n volumes ≡ some v
    → lookup m volumes ≡ some w
    → n ≡ m
    → v.mounts ≡ w.mounts
volume_of_name volumes n m v w e f p = grind arith

module _ (volumes : Map Volume) (tables : List (Map ℕ)) (name : Str) (v : Volume) (a : ℕ)
    (t : Map ℕ) (h : IsWellOf volumes tables) (e : lookup name volumes ≡ some v)
    (m : v.mounts ≡ some a) where
  open h use {volumes-IsMap, has_table, own_table, table-IsTable}

  pub address : a < length tables
  address = let (b, x, l) = has_table name v e in ground arith

  mounts_in-written :
      (n i : Str) (o : Option Volume)
      → lookup n volumes ≡ o
      → mounts_in (set tables a t) o i
        ≡ (if str_eq name n then count_in t i else mounts_in tables o i)
  mounts_in-written n i none f = ground (arith, str_eq_iff name n)
  mounts_in-written n i (some w) f =
      let (b, x, l) = has_table n w f in
      ground (
        arith,
        table-set tables a b t address,
        str_eq_iff name n,
        own_table name n v w a e f m,
        volume_of_name volumes name n v w e f,
      )

  -- Only the table of one volume is another one: the counts of that volume are those of the new
  -- table, and all others stay.
  pub mounted-write :
      (n i : Str)
      → mounts_in (set tables a t) (lookup n volumes) i
        ≡ (if str_eq name n then count_in t i else mounts_in tables (lookup n volumes) i)
  mounted-write n i = mounts_in-written n i (lookup n volumes) refl

  pub IsWellOf-write : IsTable t → IsWellOf volumes (set tables a t)
  IsWellOf-write p = record {
    volumes-IsMap = volumes-IsMap;
    has_table = λ n w f. let (b, x, l) = has_table n w f in (b, x, rw (length-set tables a t) l);
    own_table = own_table;
    table-IsTable =
        λ b i c f. ground (arith, table-set tables a b t address, p i c, table-IsTable b i c);
  }

module _ (os : Os) (lib : Library) where
  open os use {World}

  saved-Holds :
      {A : Type 0} (s : Driver World) (a : ℕ) (f : Map ℕ → Map ℕ) (x : A)
      → Holds s.propagated_mount s.volumes
          (set s.tables a (f (table s.tables a)))
          ((save os lib >>= λ _. return x)
            (record s { tables = set s.tables a (f (table s.tables a)) })).1
  saved-Holds s a f x =
      let tables = set s.tables a (f (table s.tables a)) in
      >>=-Keeps (Holds s.propagated_mount s.volumes tables) (save os lib) (λ _. return x)
        (save-Holds os lib s.propagated_mount s.volumes tables) (λ _ s h. h)
        (record s { tables = tables }) (refl, refl, refl)

  -- `Mount` on a volume that is there: its table has one mount more, and whether the file could be
  -- written or not, all else stays.
  pub mount-Holds :
      (name id : Str) (s : Driver World) (v : Volume) (a : ℕ)
      → lookup name s.volumes ≡ some v
      → v.mounts ≡ some a
      → Holds s.propagated_mount s.volumes
          (set s.tables a (add_mount id (table s.tables a)))
          (mount os lib name id s).1
  unfolding mount write_table
  mount-Holds name id s v a e m =
      let rest : Volume → ℕ → M Error (Driver World) Str = λ v a.
        write_table a (add_mount id) >> (save os lib >>= λ _. return (mount_point os lib v)) in
      subst
        (λ r.
          Holds s.propagated_mount s.volumes (set s.tables a (add_mount id (table s.tables a))) r.1)
        (sym (
          >>=-step (find_volume name) (λ v. mounts_of v >>= rest v) (find_volume-some name s e)
          ∙ >>=-step (mounts_of v) (rest v) (mounts_of-some v s m)))
        (saved-Holds s a (add_mount id) (mount_point os lib v))

  pub unmount-eq :
      (name id : Str) (s : Driver World) (v : Volume) (a : ℕ)
      → lookup name s.volumes ≡ some v
      → v.mounts ≡ some a
      → unmount os lib name id s ≡ elim (lookup id (table s.tables a)) [
        | none ↦ (ok tt, s)
        | some count ↦ unmount_locked os lib id a count s
      ]
  unfolding unmount
  unmount-eq name id s v a e m =
      >>=-step (find_volume name)
        (λ v. mounts_of v >>= λ a s. elim (lookup id (table s.tables a)) [
          | none ↦ (ok tt, s)
          | some count ↦ unmount_locked os lib id a count s
        ])
        (find_volume-some name s e)
      ∙ >>=-step (mounts_of v)
          (λ a s. elim (lookup id (table s.tables a)) [
            | none ↦ (ok tt, s)
            | some count ↦ unmount_locked os lib id a count s
          ])
          (mounts_of-some v s m)

  pub unmount_locked-Holds :
      (id : Str) (a count : ℕ) (s : Driver World)
      → Holds s.propagated_mount s.volumes
          (set s.tables a (drop_mount id count (table s.tables a)))
          (unmount_locked os lib id a count s).1
  unfolding unmount_locked write_table
  unmount_locked-Holds id a count s =
      let tables = set s.tables a (drop_mount id count (table s.tables a)) in
      save-Holds os lib s.propagated_mount s.volumes tables (record s { tables = tables })
        (refl, refl, refl)
