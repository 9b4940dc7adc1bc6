-- ===== src/Driver/Counts.antt =====
-- The reference counts, as the rest of the world sees them: how often a volume is mounted for an ID.
pub mod Mount
pub mod Requests
pub mod Sequences
use example_docker_volume_pl.Common.{
  ℕ, zero, suc, ◌+◌, ◌-◌, ◌≤◌, ◌<◌, ◌%◌, ◌^◌, ◌≡◌, refl, Bool, true, false, ◌&&◌, Option, none,
  some, List, length, get_elem?, set, if◌then◌else◌, ltb, arith,
}
use example_docker_volume_pl.Common.Text.{Str, str_eq, str_eq_iff}
use example_docker_volume_pl.Common.Map.{Map, lookup, insert, delete, IsMap}
use example_docker_volume_pl.Common.Map.Laws.{lookup-insert, lookup-delete}
use example_docker_volume_pl.Driver.{Volume, Driver}
use example_docker_volume_pl.Driver.Handlers.{
  is_positive, incremented, table, add_mount, drop_mount,
}

abbrev pub count_or_zero : Option ℕ → ℕ
count_or_zero none = 0
count_or_zero (some c) = c

abbrev pub count_in : Map ℕ → Str → ℕ
count_in t i = count_or_zero (lookup i t)

-- The counts of a table are positive as `int`s.
abbrev pub IsTable : Map ℕ → Type 0
IsTable t = (i : Str) (c : ℕ) → lookup i t ≡ some c → (0 < c) × (c < 2 ^ 63)

abbrev pub mounts_in : List (Map ℕ) → Option Volume → Str → ℕ
mounts_in tables none i = 0
mounts_in tables (some v) i = elim v.mounts [ none ↦ 0 | some a ↦ count_in (table tables a) i ]

-- How often the volume of that name is mounted for that ID.
abbrev pub mounted : {W : Type 0} → Driver W → Str → Str → ℕ
mounted s n i = mounts_in s.tables (lookup n s.volumes) i

-- The driver's invariant: no name twice, every volume has a table of its own, and every count is
-- positive.
pub record IsWellOf (volumes : Map Volume) (tables : List (Map ℕ)) : Type 0 where
  pub volumes-IsMap : IsMap volumes
  pub has_table :
      (n : Str) (v : Volume)
      → lookup n volumes ≡ some v
      → (a : ℕ) × (v.mounts ≡ some a) × (a < length tables)
  pub own_table :
      (n m : Str) (v w : Volume) (a : ℕ)
      → lookup n volumes ≡ some v
      → lookup m volumes ≡ some w
      → v.mounts ≡ some a
      → w.mounts ≡ some a
      → n ≡ m
  pub table-IsTable : (a : ℕ) → IsTable (table tables a)

abbrev pub IsWell : {W : Type 0} → Driver W → Type 0
IsWell s = IsWellOf s.volumes s.tables

pub incremented-eq : (n : ℕ) → n + 1 < 2 ^ 63 → incremented n ≡ n + 1
incremented-eq n h = ground arith

lookup-added :
    (id i : Str) (t : Map ℕ) (o : Option ℕ)
    → count_or_zero o + 1 < 2 ^ 63
    → lookup i (elim o [ none ↦ insert id 1 t | some c ↦ insert id (incremented c) t ])
      ≡ (if str_eq id i then some (count_or_zero o + 1) else lookup i t)
lookup-added id i t none h = lookup-insert id i 1 t
lookup-added id i t (some c) h = rw (incremented-eq c h) (lookup-insert id i (c + 1) t)

pub lookup-add_mount :
    (id i : Str) (t : Map ℕ)
    → count_in t id + 1 < 2 ^ 63
    → lookup i (add_mount id t) ≡ (if str_eq id i then some (count_in t id + 1) else lookup i t)
unfolding add_mount
lookup-add_mount id i t h = lookup-added id i t (lookup id t) h

is_positive-suc : (n : ℕ) → suc n < 2 ^ 63 → is_positive (suc n) ≡ true
is_positive-suc n h = ground arith

pub lookup-drop_mount :
    (id i : Str) (c : ℕ) (t : Map ℕ)
    → 0 < c
    → c < 2 ^ 63
    → lookup i (drop_mount id c t)
      ≡ (if str_eq id i then if ltb 1 c then some (c - 1) else none else lookup i t)
unfolding drop_mount
lookup-drop_mount id i zero t p q = absurd (omega arith)
lookup-drop_mount id i (suc zero) t p q =
    ground (arith, lookup-delete id i (insert id 0 t), lookup-insert id i 0 t)
lookup-drop_mount id i (suc (suc n)) t p q = ground (arith, lookup-insert id i (suc n) t)

pub add_mount-count :
    (id i : Str) (t : Map ℕ)
    → count_in t id + 1 < 2 ^ 63
    → count_in (add_mount id t) i ≡ (if str_eq id i then count_in t i + 1 else count_in t i)
add_mount-count id i t h = ground (arith, lookup-add_mount id i t, str_eq_iff id i)

pub drop_mount-count :
    (id i : Str) (c : ℕ) (t : Map ℕ)
    → IsTable t
    → lookup id t ≡ some c
    → count_in (drop_mount id c t) i ≡ (if str_eq id i then count_in t i - 1 else count_in t i)
drop_mount-count id i c t h e =
    let (p, q) = h id c e in ground (arith, lookup-drop_mount id i c t p q, str_eq_iff id i)

pub add_mount-IsTable :
    (id : Str) (t : Map ℕ) → count_in t id + 1 < 2 ^ 63 → IsTable t → IsTable (add_mount id t)
add_mount-IsTable id t b h i c e = ground (arith, lookup-add_mount id i t b, h i c)

pub drop_mount-IsTable :
    (id : Str) (c : ℕ) (t : Map ℕ) → IsTable t → lookup id t ≡ some c → IsTable (drop_mount id c t)
drop_mount-IsTable id c t h e i d f =
    let (p, q) = h id c e in ground (arith, lookup-drop_mount id i c t p q, h i d)
