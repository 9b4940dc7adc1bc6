-- ===== src/Proc/Options.antt =====
-- src/proc/options.go: the command line options of a volume process.
pub mod Setting
use example_docker_volume_pl.Common.{
  ℕ, ◌≡◌, refl, Bool, true, false, not, ◌&&◌, Option, none, some, List, [], ◌∷◌, ◌++◌,
  if◌then◌else◌, length, Outcome, ok, err,
}
use example_docker_volume_pl.Common.Text.{Str, str_eq, trim_space, split, join, contains}
use example_docker_volume_pl.Utils.{select, where_true}

abbrev pub default_separator : Str
default_separator = b' ' ∷ []

-- The list behind the pointer `options` is a value here; `none` is the nil pointer.
pub record Options : Type 0 where
  pub options : Option (List Str)
  pub separator : Str
  pub trim : Bool

-- What goes wrong in `Set` and `SetSlice`.
pub data Error : Type 0 where
  not_initialized : Error
  no_value : Error

-- `NewOptions`; a capacity changes nothing that can be seen.
unfoldable pub new_options : Str → Bool → Options
new_options separator trim =
    let separator' = if trim then trim_space separator else separator in
    record {
      options = some [];
      separator = if str_eq separator' [] then default_separator else separator';
      trim = trim;
    }

-- The loop of `Set`.
unfoldable pub append_options : Bool → List Str → List Str → List Str
append_options trim [] os = os
append_options trim (option ∷ rest) os =
    let option' = if trim then trim_space option else option in
    append_options trim rest (if trim && contains os option' then os else os ++ option' ∷ [])

-- The texts of the single options.
unfoldable pub option_texts : Bool → Str → Str → List Str
option_texts trim value separator =
    let options = split value separator in
    if trim then where_true (select options trim_space) (λ str. not (str_eq str [])) else options

-- `Options.Set`. The result is the object whose list has been changed.
unfoldable pub set_options : Options → Str → Outcome Error Options
set_options o value =
    let value' = if o.trim then trim_space value else value in
    elim o.options [
      | none ↦ err not_initialized
      | some os ↦
          if str_eq value' []
          then err no_value
          else ok (record o {
            options = some (append_options o.trim (option_texts o.trim value' o.separator) os);
          })
    ]

-- `Options.SetSlice`; a nil pointer is `none`.
unfoldable pub set_slice : Options → Option (List Str) → Outcome Error Options
set_slice o value = elim o.options [
  | none ↦ err not_initialized
  | some os ↦ elim value [ none ↦ err no_value | some v ↦ set_options o (join v o.separator) ]
]

-- `Options.Slice`
abbrev pub slice : Options → List Str
slice o = elim o.options [ none ↦ [] | some os ↦ os ]

-- `Options.String`
unfoldable pub options_string : Options → Str
options_string o = join (slice o) o.separator

-- `Options.Len`
unfoldable pub options_len : Options → ℕ
options_len o = length (slice o)
