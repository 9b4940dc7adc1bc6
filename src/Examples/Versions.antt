-- ===== src/Examples/Versions.antt =====
-- Versions, and what depends on them.
use mathlib.Core.Quot
use example_docker_volume_pl.Common.{
  ◌≡◌, ◌≢◌, refl, ◌↔◌, true, none, some, [], ◌∷◌, ◌++◌, arith, ok, panic,
}
use example_docker_volume_pl.Common.Int.{pos, negate, is_nonpos}
use example_docker_volume_pl.Common.Map.{IsMap}
use example_docker_volume_pl.Common.Number.{decimal, parse_uint}
use example_docker_volume_pl.Common.State.{error_of}
use example_docker_volume_pl.Common.Text.{codes, split, str_eq, join}
use example_docker_volume_pl.Utils.{int8_to_str}
use example_docker_volume_pl.Utils.Numbers.{text, unsigned, signed, w8, w64}
use example_docker_volume_pl.Semver.{VersionInfo, compare, parse}
use example_docker_volume_pl.Semver.Precedence.{sign, specified_rank, precedence, compare-sign}
use example_docker_volume_pl.Semver.Total.{compare_trans}
use example_docker_volume_pl.Semver.Classes.{Class, class_compare, class_compare-zero_iff}
use example_docker_volume_pl.Semver.Reading.{version_text, parse-version_text}
use example_docker_volume_pl.Semver.Failing.{expected_error, core_of, parse-error}
use example_docker_volume_pl.Proc.Status.{Globals, load_process_status_names}
use example_docker_volume_pl.Proc.Status.Names.{named_states, load_process_status_names-names}
use example_docker_volume_pl.Proc.Reset.{reset, scan_word}
use example_docker_volume_pl.Proc.Reset.Loading.{reset-ok}
use example_docker_volume_pl.Examples.World.{system}

-- 1.2.3-rc.1+7, 1.2.3-rc.-5 with a signed number, and 1.2.3.
abbrev candidate : VersionInfo
candidate = record {
  major = 1;
  minor = 2;
  patch = 3;
  pre_release = text (codes "rc") ∷ unsigned w64 1 ∷ [];
  build = unsigned w64 7 ∷ [];
}

abbrev negative : VersionInfo
negative = record candidate { pre_release = text (codes "rc") ∷ signed w8 251 ∷ [] }

abbrev final : VersionInfo
final = record candidate { pre_release = []; build = [] }

compare-sign_example :
    compare candidate negative
    ≡ sign (precedence.cmp (specified_rank candidate) (specified_rank negative))
compare-sign_example = compare-sign candidate negative (refl, (tt, tt)) (refl, (refl, tt))

class_compare-zero_iff_example :
    (class_compare (Quot.mk final) (Quot.mk candidate)
      ≡ negate (class_compare (Quot.mk candidate) (Quot.mk final)))
    × ((class_compare (Quot.mk candidate) (Quot.mk final) ≡ pos 0)
        ↔ (Path Class (Quot.mk candidate) (Quot.mk final)))
class_compare-zero_iff_example = class_compare-zero_iff (Quot.mk candidate) (Quot.mk final)

compare_trans_example : is_nonpos (compare candidate final) ≡ true
unfolding compare str_eq decimal
compare_trans_example = compare_trans candidate negative final refl refl

parse-version_text_example : parse (version_text candidate) ≡ ok candidate
unfolding parse_uint decimal
parse-version_text_example = parse-version_text candidate (
  omega arith,
  omega arith,
  omega arith,
  ((refl, ground arith), (omega arith, tt)),
  (ground arith, (ground arith, tt)),
  (omega arith, tt),
)

parse-error_example :
    (error_of (parse (codes "1.x+y"))
      ≡ expected_error (core_of (codes "1.x+y")) (split (core_of (codes "1.x+y")) (codes ".")))
    × (parse (codes "1.x+y") ≢ panic)
parse-error_example = parse-error (codes "1.x+y")

abbrev globals : Globals
globals = record { btime = 0; release = some final; process_status_names = [] }

load_process_status_names-names_example :
    (load_process_status_names none globals
      ≡ (ok tt, record globals { process_status_names = named_states final }))
    × IsMap (named_states final)
load_process_status_names-names_example = load_process_status_names-names none globals final refl

-- A release with a suffix, as distributions build it.
abbrev generic : VersionInfo
generic = record {
  major = 4;
  minor = 14;
  patch = 0;
  pre_release = text (codes "115-generic") ∷ [];
  build = [];
}

reset-ok_example : reset system (globals, tt) ≡ (
  ok tt,
  (
    record {
      btime = 1700000000;
      release = some generic;
      process_status_names = named_states generic;
    },
    tt,
  ),
)
unfolding parse parse_uint int8_to_str str_eq decimal scan_word join
reset-ok_example =
    reset-ok system globals tt tt tt (codes "cpu  1 2" ∷ []) [] 1700000000
      (codes "4.14.0-115-generic" ++ 0 ∷ 0 ∷ []) generic
      ((((ground arith), (ground arith)), tt), (refl, tt)) (tt, tt) (omega arith) refl refl refl
