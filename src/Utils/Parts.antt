-- ===== src/Utils/Parts.antt =====
-- The options of a text: split at a separator, trimmed, and the empty ones left out. Both kinds of
-- options read their text so.
use example_docker_volume_pl.Common.{
  ℕ, ◌≡◌, ◌≢◌, refl, Bool, not, List, [], ◌∷◌, ◌++◌, arith, All, append-ne-nil,
}
use example_docker_volume_pl.Common.Text.{
  Str, str_eq, str_eq_iff, trim_space, split, join, Lacks, IsTrim,
}
use example_docker_volume_pl.Common.Text.Trim.{
  IsTrim-trim_space, trim_space-IsTrim, trim_space-Lacks, append-IsTrim,
}
use example_docker_volume_pl.Common.Text.Split.{split-join, split-Lacks}
use example_docker_volume_pl.Utils.{select, where_true}

abbrev pub is_nonempty : Str → Bool
is_nonempty str = not (str_eq str [])

abbrev pub parts : Str → Str → List Str
parts value separator = where_true (select (split value separator) trim_space) is_nonempty

module _ (b : ℕ) where
  -- What one option may be: trimmed, not empty, without the separator.
  abbrev pub IsText : Str → Type 0
  IsText t = IsTrim t × (t ≢ []) × Lacks b t

  pub join-ne-nil : (t : Str) (ts : List Str) → All IsText (t ∷ ts) → join (t ∷ ts) (b ∷ []) ≢ []
  unfolding join
  join-ne-nil t [] h = h.0.1
  join-ne-nil t (u ∷ ts) h = append-ne-nil t (b ∷ [] ++ join (u ∷ ts) (b ∷ [])) h.0.1

  -- Texts that are joined begin with the first and end with the last.
  pub join-IsTrim :
      (t : Str) (ts : List Str) → All IsText (t ∷ ts) → IsTrim (join (t ∷ ts) (b ∷ []))
  unfolding join
  join-IsTrim t [] h = h.0.0
  join-IsTrim t (u ∷ ts) h =
      append-IsTrim t (b ∷ []) (join (u ∷ ts) (b ∷ [])) h.0.1 (join-ne-nil u ts h.1) h.0.0
        (join-IsTrim u ts h.1)

  select-where :
      (ts : List Str) → All IsText ts → where_true (select ts trim_space) is_nonempty ≡ ts
  select-where [] h = refl
  select-where (t ∷ ts) (h, hs) =
      ground (arith, select-where ts hs, IsTrim-trim_space t h.0, str_eq_iff t [])

  All-Lacks : (ts : List Str) → All IsText ts → All (Lacks b) ts
  All-Lacks [] h = tt
  All-Lacks (t ∷ ts) (h, hs) = (h.2, All-Lacks ts hs)

  -- The options of a joined text are the joined ones.
  pub parts-join :
      (ts : List Str) → ts ≢ [] → All IsText ts → parts (join ts (b ∷ [])) (b ∷ []) ≡ ts
  parts-join ts ne h = rw (split-join b ts ne (All-Lacks ts h)) (select-where ts h)

  where-IsText :
      (ts : List Str)
      → All (Lacks b) ts
      → All IsText (where_true (select ts trim_space) is_nonempty)
  where-IsText [] h = tt
  where-IsText (t ∷ ts) (h, hs) = ground (
    arith,
    where-IsText ts hs,
    trim_space-IsTrim t,
    trim_space-Lacks b t h,
    str_eq_iff (trim_space t) [],
  )

  -- The options of any text are such as `join` takes.
  pub parts-IsText : (value : Str) → All IsText (parts value (b ∷ []))
  parts-IsText value = where-IsText (split value (b ∷ [])) (split-Lacks b value)
