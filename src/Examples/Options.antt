-- ===== src/Examples/Options.antt =====
-- Mount options and command line options, and metrics.
use example_docker_volume_pl.Common.{
  ℕ, ◌+◌, ◌≤◌, ◌≡◌, ◌≢◌, ◌↔◌, refl, true, false, ◌||◌, none, some, List, [], ◌∷◌, map, length, leb,
  arith, ok, err,
}
use Prim.Native.Nat.{min}
use example_docker_volume_pl.Common.Text.{
  Str, codes, str_eq, trim_space, trim_left, trim_right, is_space, split, contains, IsTrim,
  split_two,
}
use example_docker_volume_pl.Metric.{
  MetricRateLimit, MetricEvent, MetricBase, new_metric_base, count_recent, rate, update, updated,
  min_rate_limit_duration,
}
use example_docker_volume_pl.Metric.Window.{IsHistory}
use example_docker_volume_pl.Metric.Rate.{replay, rate-replay, update_all, update_all-length}
use example_docker_volume_pl.Mount.Options.{
  MountOption, parse_option, option_string, apply_options, deletion_mark,
}
use example_docker_volume_pl.Mount.Options as MountOptions
use example_docker_volume_pl.Mount.Options.Keys.{IsKeyed, value_of}
use example_docker_volume_pl.Mount.Options.Setting.{
  spoken, value_of-set_options, set_options-ok_iff,
}
use example_docker_volume_pl.Mount.Options.Reading.{IsPrintable, set_options-options_string}
use example_docker_volume_pl.Proc.Options.{Options, new_options, append_options, slice}
use example_docker_volume_pl.Proc.Options as CommandOptions
use example_docker_volume_pl.Proc.Options.Setting.{
  IsDistinct, trimming, set_options-trim, set_options-options_string_again,
}

abbrev a : Str
a = codes "a"

abbrev b : Str
b = codes "b"

abbrev x : MountOption
x = record { key = a; value = b }

x-IsKeyed : IsKeyed (x ∷ [])
x-IsKeyed = (tt, tt)

abbrev result : List MountOption
result = x ∷ record { key = b; value = [] } ∷ []

read : MountOptions.set_options (some (x ∷ [])) b ≡ ok result
unfolding MountOptions.set_options trim_space str_eq apply_options MountOptions.option_texts split
    parse_option split_two
read = refl

value_of-set_options_example :
    value_of b result
    ≡ spoken b (map parse_option (MountOptions.option_texts (trim_space b))) (value_of b (x ∷ []))
value_of-set_options_example = value_of-set_options (x ∷ []) b b x-IsKeyed read

set_options-ok_iff_example :
    (MountOptions.set_options none b ≡ err MountOptions.not_initialized)
    × (((os' : List MountOption) × (MountOptions.set_options (some (x ∷ [])) b ≡ ok os'))
        ↔ (trim_space b ≢ []))
    × ((MountOptions.set_options (some (x ∷ [])) b ≡ err MountOptions.no_value)
        ↔ (trim_space b ≡ []))
set_options-ok_iff_example = set_options-ok_iff (x ∷ []) b

a-IsTrim : IsTrim a
unfolding trim_left trim_right is_space
a-IsTrim = (refl, refl)

b-IsTrim : IsTrim b
unfolding trim_left trim_right is_space
b-IsTrim = (refl, refl)

x-IsPrintable : IsPrintable x
unfolding str_eq
x-IsPrintable = record {
  trimmed_key = a-IsTrim;
  trimmed_value = b-IsTrim;
  key_present = λ e. cc;
  key_no_equals = ((λ e. ground arith), tt);
  key_no_comma = ((λ e. ground arith), tt);
  value_no_comma = ((λ e. ground arith), tt);
  not_deletion = refl;
}

set_options-options_string_example :
    MountOptions.set_options (some []) (MountOptions.options_string (some (x ∷ []))) ≡ ok (x ∷ [])
set_options-options_string_example =
    set_options-options_string (x ∷ []) (λ e. cc) (x-IsPrintable, tt) x-IsKeyed

-- Command line options over `&`.
abbrev plain : Options
plain = record { options = some (a ∷ []); separator = b'&' ∷ []; trim = false }

a-IsDistinct : IsDistinct (a ∷ [])
unfolding contains
a-IsDistinct = (refl, tt)

set_options-trim_example :
    IsDistinct (a ∷ b ∷ [])
    × (contains (a ∷ b ∷ []) b ≡ (
        contains (a ∷ []) b
        || contains (CommandOptions.option_texts true (trim_space (codes "b&a")) (b'&' ∷ [])) b))
unfolding CommandOptions.set_options CommandOptions.option_texts append_options trim_space str_eq
    split contains
set_options-trim_example =
    set_options-trim (trimming b'&' (a ∷ [])) b'&' (a ∷ []) (codes "b&a") b refl refl refl
      a-IsDistinct refl

set_options-options_string_again_example :
    CommandOptions.set_options
      (trimming b'&' [])
      (CommandOptions.options_string (trimming b'&' (a ∷ [])))
    ≡ ok (trimming b'&' (a ∷ []))
set_options-options_string_again_example =
    set_options-options_string_again b'&' (a ∷ []) (λ e. cc)
      ((a-IsTrim, (λ e. cc), ((λ e. ground arith), tt)), tt) a-IsDistinct

-- Three events, two of them recent.
abbrev limit : MetricRateLimit
limit = record { limit = 2; duration = 1000000000 }

abbrev event : ℕ → MetricEvent ℕ
event t = record { time = t; value = 0 }

abbrev events : List (MetricEvent ℕ)
events = event 0 ∷ event 3000000000 ∷ event 3500000000 ∷ []

abbrev fresh : MetricBase ℕ
fresh = record { rate_limit = limit; capacity = 3; events = [] }

events-IsHistory : IsHistory 0 events
events-IsHistory = (omega arith, (omega arith, (omega arith, tt)))

rate-replay_example :
    (m : MetricBase ℕ) × (update_all fresh events ≡ ok m)
    × (rate m 3600000000 ≡ (
      min (2 + 1) (count_recent 3600000000 1000000000 events),
      1000000000,
      leb 2 (count_recent 3600000000 1000000000 events),
    ))
unfolding new_metric_base
rate-replay_example = rate-replay limit events 3600000000 refl (omega arith) events-IsHistory

all_updated : update_all fresh events ≡ ok (replay fresh events)
unfolding update_all update replay updated
all_updated = refl

update_all-length_example :
    (length (replay fresh events).events ≤ 2 + 1) × (min_rate_limit_duration ≤ 1000000000)
unfolding new_metric_base
update_all-length_example = update_all-length limit {new = fresh} events refl all_updated
