-- ===== src/Driver/Volumes.antt =====
-- `Create` and `Remove`: which volumes there are.
pub mod Keeping
pub mod Creating
pub mod Create
pub mod Removing
pub mod Remove
use example_docker_volume_pl.Common.{
  ℕ, zero, suc, ◌⊎◌, inl, inr, length-append, ◌+◌, ◌*◌, ◌≤◌, ◌<◌, ◌^◌, ◌≡◌, ◌≢◌, refl, sym, ap, ◌∙◌,
  Bool, true, false, ◌&&◌, Option, none, some, List, [], ◌∷◌, ◌++◌, length, get_elem?,
  if◌then◌else◌, ltb, arith, Outcome, ok, err, panic, ◌==◌,
}
use example_docker_volume_pl.Common.State.{M, ◌>>=◌, ◌>>◌, return, fail_if}
use example_docker_volume_pl.Common.State.Laws.{
  Keeps, >>=-Keeps, IfOk, Gives, Keeps-Gives, >>=-Gives,
}
use example_docker_volume_pl.Common.Text.{Str, str_eq, str_eq_iff, str_eq_refl}
use example_docker_volume_pl.Common.Map.{Map, lookup, insert, delete, IsMap}
use example_docker_volume_pl.Common.Map.Laws.{
  lookup-insert, lookup-delete, insert-IsMap, delete-IsMap,
}
use example_docker_volume_pl.Os.{Os, OsError}
use example_docker_volume_pl.Driver.{
  Volume, Library, Driver, Error, not_found, already_exists, active_mounts, demand, save,
  mount_point,
}
use example_docker_volume_pl.Driver.Handlers.{
  table, find_volume, mounts_of, new_table, set_up, add_volume, create, exists_error, active_error,
  forget_monitor, delete_volume, remove_volume,
}
use example_docker_volume_pl.Driver.Process.Frame.{Same, setup_process-I}
use example_docker_volume_pl.Driver.Saving.{Holds, demand-Holds, fail_if-Holds, save-Holds}
use example_docker_volume_pl.Driver.Counts.{count_in, IsTable, mounts_in, mounted, IsWellOf, IsWell}

-- A lookup in the other map that succeeds did so in the first, under another name.
pub lookup-delete-some :
    {V : Type 0} (k n : Str) (m : Map V) (v : V)
    → lookup n (delete k m) ≡ some v
    → (str_eq k n ≡ false) × (lookup n m ≡ some v)
lookup-delete-some k n m v e = ground (arith, lookup-delete k n m)

pub IsWellOf-delete :
    (volumes : Map Volume) (tables : List (Map ℕ)) (name : Str)
    → IsWellOf volumes tables
    → IsWellOf (delete name volumes) tables
IsWellOf-delete volumes tables name h = record {
  volumes-IsMap = delete-IsMap name volumes h.volumes-IsMap;
  has_table = λ n v e. h.has_table n v (lookup-delete-some name n volumes v e).1;
  own_table = λ n m v w a e f.
      h.own_table n m v w a (lookup-delete-some name n volumes v e).1
        (lookup-delete-some name m volumes w f).1;
  table-IsTable = h.table-IsTable;
}

lookup-insert-some :
    {V : Type 0} (k n : Str) (v : V) (m : Map V) (w : V)
    → lookup n (insert k v m) ≡ some w
    → ((k ≡ n) × (w ≡ v)) ⊎ ((str_eq k n ≡ false) × (lookup n m ≡ some w))
lookup-insert-some k n v m w e = ground (arith, lookup-insert k n v m, str_eq_iff k n)

-- A new empty table is no other than none, and the others stay.
pub table-new : (tables : List (Map ℕ)) (a : ℕ) → table (tables ++ [] ∷ []) a ≡ table tables a
unfolding table
table-new [] zero = refl
table-new [] (suc a) = refl
table-new (t ∷ tables) zero = refl
table-new (t ∷ tables) (suc a) = table-new tables a

table-beyond : (tables : List (Map ℕ)) → table tables (length tables) ≡ []
unfolding table
table-beyond [] = refl
table-beyond (t ∷ tables) = table-beyond tables

pub mounts_in-new :
    (tables : List (Map ℕ)) (o : Option Volume) (i : Str)
    → mounts_in (tables ++ [] ∷ []) o i ≡ mounts_in tables o i
mounts_in-new tables none i = refl
mounts_in-new tables (some w) i =
    elim w.mounts
      as (λ a.
        Path ℕ (elim a [ none ↦ 0 | some a ↦ count_in (table (tables ++ [] ∷ []) a) i ])
          (elim a [ none ↦ 0 | some a ↦ count_in (table tables a) i ])) [
            | none ↦ refl
            | some a ↦ rw (table-new tables a)
          ]

module _ (volumes : Map Volume) (tables : List (Map ℕ)) (name : Str) (v : Volume)
    (m : v.mounts ≡ some (length tables)) (h : IsWellOf volumes tables) where
  new_has_table :
      (n : Str) (w : Volume)
      → ((name ≡ n) × (w ≡ v)) ⊎ ((str_eq name n ≡ false) × (lookup n volumes ≡ some w))
      → (a : ℕ) × (w.mounts ≡ some a) × (a < length (tables ++ [] ∷ []))
  new_has_table n w (inl (p, q)) =
      (length tables, ap (λ u. u.mounts) q ∙ m, omega (arith, length-append tables ([] ∷ [])))
  new_has_table n w (inr (p, q)) =
      let (a, x, l) = h.has_table n w q in (a, x, omega (arith, length-append tables ([] ∷ [])))

  -- The address of an older volume is no new one.
  older_address :
      (n : Str) (w : Volume) (a : ℕ)
      → lookup n volumes ≡ some w
      → w.mounts ≡ some a
      → a < length tables
  older_address n w a e p = let (b, x, l) = h.has_table n w e in ground arith

  new_own_table :
      (n k : Str) (w x : Volume) (a : ℕ)
      → ((name ≡ n) × (w ≡ v)) ⊎ ((str_eq name n ≡ false) × (lookup n volumes ≡ some w))
      → ((name ≡ k) × (x ≡ v)) ⊎ ((str_eq name k ≡ false) × (lookup k volumes ≡ some x))
      → w.mounts ≡ some a
      → x.mounts ≡ some a
      → n ≡ k
  new_own_table n k w x a (inl (e, f)) (inl (e', f')) p q = sym e ∙ e'
  new_own_table n k w x a (inl (e, f)) (inr (e', f')) p q =
      let l = older_address k x a f' q in
      let r : v.mounts ≡ some a = sym (ap (λ u. u.mounts) f) ∙ p in absurd (ground arith)
  new_own_table n k w x a (inr (e, f)) (inl (e', f')) p q =
      let l = older_address n w a f p in
      let r : v.mounts ≡ some a = sym (ap (λ u. u.mounts) f') ∙ q in absurd (ground arith)
  new_own_table n k w x a (inr (e, f)) (inr (e', f')) p q = h.own_table n k w x a f f' p q

  -- The new volume has the new table.
  pub IsWellOf-insert : IsWellOf (insert name v volumes) (tables ++ [] ∷ [])
  IsWellOf-insert = record {
    volumes-IsMap = insert-IsMap name v volumes h.volumes-IsMap;
    has_table = λ n w e. new_has_table n w (lookup-insert-some name n v volumes w e);
    own_table = λ n k w x a e f p q.
        new_own_table n k w x a (lookup-insert-some name n v volumes w e)
          (lookup-insert-some name k v volumes x f) p q;
    table-IsTable = λ a i c e. h.table-IsTable a i c (rw (table-new tables a) at e);
  }

  mounts_in-fresh : (i : Str) → mounts_in (tables ++ [] ∷ []) (some v) i ≡ 0
  unfolding lookup
  mounts_in-fresh i = rw (m, table-new tables (length tables), table-beyond tables)

  none_under : (n : Str) → lookup name volumes ≡ none → name ≡ n → lookup n volumes ≡ none
  none_under n e p = rw (sym p) e

  pub mounts_in-insert :
      (n i : Str)
      → lookup name volumes ≡ none
      → mounts_in (tables ++ [] ∷ []) (lookup n (insert name v volumes)) i
        ≡ mounts_in tables (lookup n volumes) i
  mounts_in-insert n i e = ground (
    arith,
    lookup-insert name n v volumes,
    str_eq_iff name n,
    mounts_in-new tables (lookup n volumes) i,
    mounts_in-fresh i,
    none_under n e,
  )

pub IsWellOf-new :
    (volumes : Map Volume) (tables : List (Map ℕ))
    → IsWellOf volumes tables
    → IsWellOf volumes (tables ++ [] ∷ [])
IsWellOf-new volumes tables h = record {
  volumes-IsMap = h.volumes-IsMap;
  has_table = λ n w e.
      let (a, x, l) = h.has_table n w e in (a, x, omega (arith, length-append tables ([] ∷ [])));
  own_table = h.own_table;
  table-IsTable = λ a i c e. h.table-IsTable a i c (rw (table-new tables a) at e);
}
