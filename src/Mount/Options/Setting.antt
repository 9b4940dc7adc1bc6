-- ===== src/Mount/Options/Setting.antt =====
-- `Set`, `Map` and their errors over the whole text.
use example_docker_volume_pl.Common.{
  ◌≡◌, ◌≢◌, ◌↔◌, refl, Option, none, some, List, [], ◌∷◌, map, arith, ok, err,
}
use example_docker_volume_pl.Common.Text.{Str, str_eq_iff, trim_space}
use example_docker_volume_pl.Common.Map.{Map, lookup, insert}
use example_docker_volume_pl.Common.Map.Laws.{lookup-insert}
use example_docker_volume_pl.Mount.Options.{
  MountOption, not_initialized, no_value, apply_option, apply_options, parse_option, option_texts,
  set_options, options_map, insert_all,
}
use example_docker_volume_pl.Mount.Options.Keys.{
  IsKeyed, value_of, value_of-Absent, said, value_of-apply_option, apply_option-IsKeyed,
}

-- What a sequence of options says of a key, the later ones last.
pub spoken : Str → List MountOption → Option Str → Option Str
spoken k [] old = old
spoken k (o ∷ os) old = spoken k os (said k o old)

apply_options-IsKeyed :
    (texts : List Str) (os : List MountOption) → IsKeyed os → IsKeyed (apply_options texts os)
unfolding apply_options
apply_options-IsKeyed [] os h = h
apply_options-IsKeyed (t ∷ ts) os h =
    apply_options-IsKeyed ts (apply_option (parse_option t) os)
      (apply_option-IsKeyed (parse_option t) os h)

value_of-apply_options :
    (k : Str) (texts : List Str) (os : List MountOption)
    → IsKeyed os
    → value_of k (apply_options texts os) ≡ spoken k (map parse_option texts) (value_of k os)
unfolding apply_options spoken
value_of-apply_options k [] os h = refl
value_of-apply_options k (t ∷ ts) os h = rw (
  value_of-apply_options k ts (apply_option (parse_option t) os)
      (apply_option-IsKeyed (parse_option t) os h),
  value_of-apply_option k (parse_option t) os h,
)

-- If no option has a key twice, then none has after a `Set` that succeeds.
pub set_options-IsKeyed :
    (os : List MountOption) (value : Str) {os' : List MountOption}
    → IsKeyed os
    → set_options (some os) value ≡ ok os'
    → IsKeyed os'
unfolding set_options
set_options-IsKeyed os value h e =
    ground (arith, apply_options-IsKeyed (option_texts (trim_space value)) os h)

-- After a `Set` that succeeds, on options without a key twice, each key has the value that the
-- last option of the text for this key gives it; it is unset if that value is the deletion mark,
-- and it has its old value if the text has no option for it.
pub value_of-set_options :
    (os : List MountOption) (value k : Str) {os' : List MountOption}
    → IsKeyed os
    → set_options (some os) value ≡ ok os'
    → value_of k os' ≡ spoken k (map parse_option (option_texts (trim_space value))) (value_of k os)
unfolding set_options
value_of-set_options os value k h e =
    ground (arith, value_of-apply_options k (option_texts (trim_space value)) os h)

-- `Set` fails on options that `NewOptions` did not make; on others it succeeds exactly on a text
-- that is more than white space, and its only other error is that for a missing value.
pub set_options-ok_iff :
    (os : List MountOption) (value : Str)
    → (set_options none value ≡ err not_initialized)
      × (((os' : List MountOption) × (set_options (some os) value ≡ ok os'))
          ↔ (trim_space value ≢ []))
      × ((set_options (some os) value ≡ err no_value) ↔ (trim_space value ≡ []))
unfolding set_options
set_options-ok_iff os value = (refl, (ok_nonblank, nonblank_ok), (err_blank, blank_err))
  where
    ok_nonblank :
        ((os' : List MountOption) × (set_options (some os) value ≡ ok os')) → trim_space value ≢ []
    ok_nonblank (os', e) b = ground (arith, str_eq_iff (trim_space value) [])

    nonblank_ok :
        trim_space value ≢ [] → (os' : List MountOption) × (set_options (some os) value ≡ ok os')
    nonblank_ok ne = (
      apply_options (option_texts (trim_space value)) os,
      ground (arith, str_eq_iff (trim_space value) []),
    )

    err_blank : set_options (some os) value ≡ err no_value → trim_space value ≡ []
    err_blank e = ground (arith, str_eq_iff (trim_space value) [])

    blank_err : trim_space value ≡ [] → set_options (some os) value ≡ err no_value
    blank_err b = ground (arith, str_eq_iff (trim_space value) [])

lookup-insert_all :
    (k : Str) (os : List MountOption) (m : Map Str)
    → IsKeyed os
    → lookup k (insert_all os m)
      ≡ (let v = value_of k os in elim v [ none ↦ lookup k m | some x ↦ some x ])
unfolding insert_all value_of
lookup-insert_all k [] m h = refl
lookup-insert_all k (o ∷ os) m h = ground (
  arith,
  lookup-insert_all k os (insert o.key o.value m) h.1,
  lookup-insert o.key k o.value m,
  str_eq_iff o.key k,
  value_of-Absent o.key os h.0,
)

-- `Map` has, for every key, the value that the options have for it, if no key stands twice.
pub lookup-options_map :
    (k : Str) (os : List MountOption)
    → IsKeyed os
    → lookup k (options_map (some os)) ≡ value_of k os
unfolding options_map lookup
lookup-options_map k os h = ground (arith, lookup-insert_all k os [] h)
