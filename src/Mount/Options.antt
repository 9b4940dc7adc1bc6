-- ===== src/Mount/Options.antt =====
-- src/mount/options.go: mount options as in mtab. The list behind the pointer `options` is a value
-- here; who shares it is modelled in the driver.
pub mod Keys
pub mod Setting
pub mod Reading
use example_docker_volume_pl.Common.{
  ℕ, zero, suc, ◌-◌, ◌≡◌, refl, Bool, true, false, not, Option, none, some, List, [], ◌∷◌, ◌++◌,
  map, arith, ◌==◌, if◌then◌else◌, length, set, drop, Outcome, ok, err, panic,
}
use example_docker_volume_pl.Common.Text.{Str, codes, str_eq, trim_space, split, split_two, join}
use example_docker_volume_pl.Utils.{select, where_true}
use example_docker_volume_pl.Common.Map.{Map, insert}

-- `DeletionMark`, which no code assigns.
abbrev pub deletion_mark : Str
deletion_mark = b'-' ∷ []

abbrev pub separator : Str
separator = b',' ∷ []

-- The struct `Option`; this name is taken by the type of optional values.
pub record MountOption : Type 0 where
  pub key : Str
  pub value : Str

-- The value is empty where the text holds no `=` or nothing but white space behind it.
unfoldable pub parse_option : Str → MountOption
parse_option option =
    let kvp = split_two b'=' option in
    record { key = trim_space kvp.0; value = elim kvp.1 [ none ↦ [] | some v ↦ trim_space v ] }

unfoldable pub option_string : MountOption → Str
option_string o = if str_eq o.value [] then o.key else o.key ++ b'=' ∷ o.value

-- What goes wrong in `Set` and `SetMap`.
pub data Error : Type 0 where
  not_initialized : Error
  no_value : Error

-- `slices.IndexFunc` for a key; `none` is -1.
unfoldable pub index_of : Str → List MountOption → Option ℕ
unfolding str_eq
index_of k [] = none
index_of k (o ∷ os) =
    let rest = index_of k os in
    if str_eq o.key k then some 0 else elim rest [ none ↦ none | some i ↦ some (suc i) ]

-- `slices.Delete(s, i, i+1)`
unfoldable pub delete_at : ℕ → List MountOption → List MountOption
delete_at i [] = []
delete_at zero (o ∷ os) = os
delete_at (suc i) (o ∷ os) = o ∷ delete_at i os

-- The branch for the deletion mark; the index is that of the key.
abbrev pub remove_found : Option ℕ → List MountOption → List MountOption
unfolding delete_at
remove_found none os = os
remove_found (some i) os = delete_at i os

-- The other branch: the option of that key is replaced, or a new one comes last.
abbrev pub write_found : Option ℕ → MountOption → List MountOption → List MountOption
write_found none opt os = os ++ opt ∷ []
write_found (some i) opt os = set os i opt

-- One round of the loop in `Set`.
unfoldable pub apply_option : MountOption → List MountOption → List MountOption
unfolding index_of delete_at
apply_option opt os =
    let idx = index_of opt.key os in
    if str_eq opt.value deletion_mark then remove_found idx os else write_found idx opt os

unfoldable pub apply_options : List Str → List MountOption → List MountOption
unfolding apply_option
apply_options [] os = os
apply_options (option ∷ rest) os = apply_options rest (apply_option (parse_option option) os)

-- The texts of the single options: trimmed, and those that are empty left out.
unfoldable pub option_texts : Str → List Str
option_texts value =
    let options = split value separator in
    let options = select options trim_space in where_true options (λ str. not (str_eq str []))

-- `Options` holds `none` before `NewOptions`. The result is the new list.
unfoldable pub set_options : Option (List MountOption) → Str → Outcome Error (List MountOption)
set_options none value = err not_initialized
set_options (some os) value =
    let trimmed = trim_space value in
    if str_eq trimmed [] then err no_value else ok (apply_options (option_texts trimmed) os)

-- One entry of the map as `SetMap` writes it.
abbrev pub pair_text : Str × Str → Str
pair_text (k, v) = trim_space k ++ b'=' ∷ trim_space v

-- The order of the list is the order in which `range` visits the map; a nil pointer is `none`.
unfoldable pub set_map :
    Option (List MountOption) → Option (Map Str) → Outcome Error (List MountOption)
set_map none value = err not_initialized
set_map (some os) none = err no_value
set_map (some os) (some m) = set_options (some os) (join (map pair_text m) separator)

abbrev held : Option (List MountOption) → List MountOption
held none = []
held (some os) = os

-- `Options.String`
unfoldable pub options_string : Option (List MountOption) → Str
options_string options = join (map option_string (held options)) separator

insert_all : List MountOption → Map Str → Map Str
unfolding insert
insert_all [] m = m
insert_all (o ∷ os) m = insert_all os (insert o.key o.value m)

-- `Options.Map`
unfoldable pub options_map : Option (List MountOption) → Map Str
unfolding insert_all
options_map options = insert_all (held options) []

-- `Options.Len`
unfoldable pub options_len : Option (List MountOption) → ℕ
options_len options = length (held options)
