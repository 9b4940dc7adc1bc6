-- ===== src/Driver/Documents.antt =====
-- What `encoding/json` promises of the control file: a document is read back up to the order of its
-- keys, if its texts are valid.
use example_docker_volume_pl.Common.{ℕ, ◌≡◌, Bool, true, Option, none, some, All}
use example_docker_volume_pl.Common.Text.{Str}
use example_docker_volume_pl.Common.Map.{Map, lookup, IsMap}
use example_docker_volume_pl.Driver.{Saved}

-- The same value for each key.
abbrev pub SameTable : {V : Type 0} → Option (Map V) → Option (Map V) → Type 0
SameTable none none = Unit {0}
SameTable none (some n) = ⊥
SameTable (some m) none = ⊥
SameTable (some m) (some n) = (k : Str) → lookup k m ≡ lookup k n

abbrev pub SameSaved : Option Saved → Option Saved → Type 0
SameSaved none none = Unit {0}
SameSaved none (some w) = ⊥
SameSaved (some v) none = ⊥
SameSaved (some v) (some w) =
    (v.base_path ≡ w.base_path)
    × (v.path ≡ w.path)
    × (v.created_at ≡ w.created_at)
    × SameTable v.mounts w.mounts
    × SameTable v.options w.options
    × (v.puid ≡ w.puid)

-- The same volumes with the same content, in any order.
abbrev pub SameDocument : Map Saved → Map Saved → Type 0
SameDocument d e = (name : Str) → SameSaved (lookup name d) (lookup name e)

module _ (is_text : Str → Bool) where
  abbrev pub IsText : Str → Type 0
  IsText s = is_text s ≡ true

  abbrev pub IsCounted : Option (Map ℕ) → Type 0
  IsCounted none = Unit {0}
  IsCounted (some m) = IsMap m × All (λ kv. IsText kv.0) m

  abbrev pub IsTexts : Option (Map Str) → Type 0
  IsTexts none = Unit {0}
  IsTexts (some m) = IsMap m × All (λ kv. IsText kv.0 × IsText kv.1) m

  -- No key stands twice, and all texts are valid: `is_text` tells which are, those in UTF-8.
  abbrev pub IsDocument : Map Saved → Type 0
  IsDocument d =
      IsMap d
      × All
          (λ nv.
            IsText nv.0
            × IsText nv.1.base_path
            × IsText nv.1.path
            × IsText nv.1.puid
            × IsCounted nv.1.mounts
            × IsTexts nv.1.options)
          d
