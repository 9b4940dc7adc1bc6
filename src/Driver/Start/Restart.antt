-- ===== src/Driver/Start/Restart.antt =====
-- The plugin stops and starts again: the new driver counts as the old one did.
use example_docker_volume_pl.Common.{
  arith, ℕ, Bool, true, ◌≡◌, refl, sym, ap, ◌∙◌, false, Option, none, some, List, [], ◌∷◌,
  get_elem?, ok, if◌then◌else◌,
}
use example_docker_volume_pl.Common.State.Laws.{Gives-ok}
use example_docker_volume_pl.Common.Text.{Str, str_eq}
use example_docker_volume_pl.Common.Map.{Map, lookup}
use example_docker_volume_pl.Os.{Os}
use example_docker_volume_pl.Driver.{
  Volume, Saved, Library, Driver, snapshot, snapshot_volume, unpack, save,
}
use example_docker_volume_pl.Driver.Handlers.{table}
use example_docker_volume_pl.Driver.Counts.{count_in, mounts_in, mounted}
use example_docker_volume_pl.Driver.Persistence.{snapshot-unpack}
use example_docker_volume_pl.Driver.Process.Frame.{Same}
use example_docker_volume_pl.Driver.Documents.{SameTable, SameSaved, IsDocument, SameDocument}
use example_docker_volume_pl.Driver.Saving.{Holds, IsSaved, save-Gives}
use example_docker_volume_pl.Driver.Start.{new_driver}
use example_docker_volume_pl.Driver.Start.Loading.{Empty, Restarted, new_driver-Restarted}
use example_docker_volume_pl.Driver.Start.TakingOver.{SameAll}

-- The count that a document has for a volume and an ID.
abbrev table_count : Option (Map ℕ) → Str → ℕ
table_count none i = 0
table_count (some t) i = count_in t i

abbrev saved_count : Option Saved → Str → ℕ
saved_count none i = 0
saved_count (some v) i = table_count v.mounts i

table_count-same :
    (m n : Option (Map ℕ)) (i : Str) → SameTable m n → table_count m i ≡ table_count n i
table_count-same none none i h = refl
table_count-same none (some n) i h = elim h [ ]
table_count-same (some m) none i h = elim h [ ]
table_count-same (some m) (some n) i h = ground (arith, h i)

SameSaved-count : (v w : Option Saved) (i : Str) → SameSaved v w → saved_count v i ≡ saved_count w i
SameSaved-count none none i h = refl
SameSaved-count none (some w) i h = elim h [ ]
SameSaved-count (some v) none i h = elim h [ ]
SameSaved-count (some v) (some w) i (_, _, _, m, _, _) = table_count-same v.mounts w.mounts i m

if_both :
    {A B : Type 0} (f : A → ℕ) (g : B → ℕ) (b : Bool) {x y : A} {x' y' : B}
    → f x ≡ g x'
    → f y ≡ g y'
    → f (if b then x else y) ≡ g (if b then x' else y')
if_both f g true h k = h
if_both f g false h k = k

module _ (tables : List (Map ℕ)) (i : Str) where
  count_at : (o : Option (Map ℕ)) → count_in (elim o [ none ↦ [] | some t ↦ t ]) i ≡ table_count o i
  unfolding lookup
  count_at none = refl
  count_at (some t) = refl

  snapshot_volume-count :
      (v : Volume) → mounts_in tables (some v) i ≡ saved_count (some (snapshot_volume tables v)) i
  unfolding snapshot_volume table
  snapshot_volume-count v = cases v.mounts
    where
      cases :
          (o : Option ℕ)
          → elim o [ none ↦ 0 | some a ↦ count_in (table tables a) i ]
            ≡ table_count (elim o [ none ↦ none | some a ↦ get_elem? tables a ]) i
      cases none = refl
      cases (some a) = count_at (get_elem? tables a)

  snapshot-count :
      (volumes : Map Volume) (n : Str)
      → mounts_in tables (lookup n volumes) i ≡ saved_count (lookup n (snapshot tables volumes)) i
  unfolding lookup snapshot
  snapshot-count [] n = refl
  snapshot-count ((m, v) ∷ volumes) n =
      if_both (λ o. mounts_in tables o i) (λ o. saved_count o i) (str_eq m n)
        (snapshot_volume-count v) (snapshot-count volumes n)

  Same-count : (v w : Volume) → Same v w → mounts_in tables (some v) i ≡ mounts_in tables (some w) i
  Same-count v w (_, _, _, m, _) =
      sym (λ j. elim (m j) [ none ↦ 0 | some a ↦ count_in (table tables a) i ])

  SameAll-count :
      (vs ws : Map Volume) (n : Str)
      → SameAll vs ws
      → mounts_in tables (lookup n vs) i ≡ mounts_in tables (lookup n ws) i
  unfolding lookup
  SameAll-count [] [] n h = refl
  SameAll-count [] (x ∷ ws) n h = elim h [ ]
  SameAll-count (x ∷ vs) [] n h = elim h [ ]
  SameAll-count ((k, v) ∷ vs) ((m, w) ∷ ws) n (e, h, hs) =
      if_both (λ o. mounts_in tables o i) (λ o. mounts_in tables o i) (str_eq k n)
        (Same-count v w h) (SameAll-count vs ws n hs)
      ∙ ap (λ k. mounts_in tables (if str_eq k n then some w else lookup n ws) i) e

module _ (os : Os) (lib : Library) (btime : ℕ) where
  open os use {World}
  open lib use {marshal, unmarshal}

  Restarted-count :
      (folder file : Str) (d : Map Saved) (v : Driver World)
      → Restarted os lib btime folder file d v
      → (n i : Str) → mounted v n i ≡ saved_count (lookup n d) i
  Restarted-count folder file d v (same, tables) n i =
      let loaded = unpack os lib 0 d in
      ap (λ ts. mounts_in ts (lookup n v.volumes) i) tables
      ∙ (sym (SameAll-count loaded.1 i loaded.0 v.volumes n same)
          ∙ (snapshot-count loaded.1 i loaded.0 n
              ∙ ap (λ d. saved_count (lookup n d) i) (snapshot-unpack os lib d [])))

  -- Where `encoding/json` writes a document with valid texts as bytes that are not empty and reads it
  -- back, up to the order of its keys: if a
  -- driver with valid texts has saved its volumes and a new driver, without volumes, starts over the same file, then the new one, once
  -- it has started, counts every volume and ID as often mounted as the old one did, whatever has
  -- become of the processes in between.
  pub new_driver-mounted :
      (is_text : Str → Bool)
      (round_trip : (d : Map Saved) (bytes : Str)
        → IsDocument is_text d
        → marshal d ≡ ok bytes
        → (str_eq bytes [] ≡ false)
          × ((e : Map Saved) × (unmarshal bytes ≡ ok e) × SameDocument d e))
      (s t u v : Driver World) (n i : Str)
      → IsDocument is_text (snapshot s.tables s.volumes)
      → save os lib s ≡ (ok tt, t)
      → u.file ≡ t.file
      → u.volumes ≡ []
      → u.tables ≡ []
      → new_driver os lib btime u ≡ (ok tt, v)
      → mounted v n i ≡ mounted s n i
  new_driver-mounted is_text round_trip s t u v n i valid e f g h k =
      let (_, m) =
        Gives-ok (Holds s.propagated_mount s.volumes s.tables)
          (λ _. IsSaved os lib s.propagated_mount s.volumes s.tables) (save os lib)
          (save-Gives os lib s.propagated_mount s.volumes s.tables) (refl, refl, refl) e in
      let d = snapshot s.tables s.volumes in
      let (ne, (read, r, same)) = round_trip d t.file valid m in
      let restarted =
        Gives-ok (Empty os lib btime u.propagated_mount t.file read)
          (λ _. Restarted os lib btime u.propagated_mount t.file read) (new_driver os lib btime)
          (new_driver-Restarted os lib btime u.propagated_mount t.file read ne r) ((refl, g, h), f)
          k in
      Restarted-count u.propagated_mount t.file read v restarted n i
      ∙ sym (SameSaved-count (lookup n d) (lookup n read) i (same n))
      ∙ sym (snapshot-count s.tables i s.volumes n)
