-- ===== src/Examples/Starting.antt =====
-- Starting the plugin, and starting it again.
use example_docker_volume_pl.Common.{
  false, ◌≡◌, refl, inl, inr, true, none, some, List, [], ◌∷◌, ◌++◌, arith, ok, ◌*◌,
}
use example_docker_volume_pl.Common.Number.{parse_uint}
use example_docker_volume_pl.Common.Text.{Str, codes, str_eq, trim_space, to_lower}
use example_docker_volume_pl.Os.{Os, found}
use example_docker_volume_pl.Utils.{scan_tokens, scan_all, check_access}
use example_docker_volume_pl.Utils.Scanning.{scan_all-cmdline_text, scan_tokens-enough}
use example_docker_volume_pl.Proc.Recovery.{ignore, panic, recovery_mode_names, recovery_mode_parse}
use example_docker_volume_pl.Proc.Recovery.Parsing.{IsVisit, mode_named, recovery_mode_parse-mode}
use example_docker_volume_pl.Driver.{Driver, save, write_file, snapshot_volume, snapshot, load}
use example_docker_volume_pl.Driver.Counts.{mounted}
use example_docker_volume_pl.Driver.Start.{new_driver, take_over, ensure_folder, access_to}
use example_docker_volume_pl.Driver.Handlers.{mounts_of, set_up}
use example_docker_volume_pl.Driver.Process.{setup_process, start_if_none, pick_up}
use example_docker_volume_pl.Proc.Options.{set_options, new_options}
use example_docker_volume_pl.Driver.Start.Ignoring.{Ignores, Stops}
use example_docker_volume_pl.Driver.Start.Unwatched.{new_driver-Ignores}
use example_docker_volume_pl.Driver.Start.Restart.{new_driver-mounted}
use example_docker_volume_pl.Main.Flags.{Settings, Environment}
use example_docker_volume_pl.Main.Entry.{Host, entry_point}
use example_docker_volume_pl.Main.Exit.{settings_of, IsQuiet, entry_point-late}
use example_docker_volume_pl.Main.Checks.{IsChecked}
use example_docker_volume_pl.Examples.World.{system}
use example_docker_volume_pl.Examples.Drivers.{a, b, volume, empty, busy}
use example_docker_volume_pl.Examples.Persistence.{is_ascii, busy-IsDocument, with_its_file}
use example_docker_volume_pl.Examples.Process.{info}
use example_docker_volume_pl.Examples.Codec.{
  codec, codec-document, write_document, read_document, put_map, get_map, put_saved, get_saved,
  put_option, get_option, put_text, get_text, put_number, get_number, put_entries, get_entries,
}
use example_docker_volume_pl.Utils.Hashes.{hex}
use example_docker_volume_pl.Utils.{atob, scan_strings}
use example_docker_volume_pl.Common.{length, All}
use example_docker_volume_pl.Common.Map.{lookup, insert}
use example_docker_volume_pl.Common.Text.{starts_with, is_space}
use example_docker_volume_pl.Common.Number.{itoa}
use example_docker_volume_pl.Metric.{new_metric_base}
use example_docker_volume_pl.Proc.Info.{unique_id, be_bytes, uint64}
use example_docker_volume_pl.Proc.Stat.{
  make_process_info, words, stat_fields, get_stat, get_cmdline, validate, get_stat_opened,
  first_error, opened_messages, stored, trim_parens,
}
use example_docker_volume_pl.Proc.Query.{
  get_process_info, read_files, proc_path, directory_error, get_process_info_from_unique_id,
}
use example_docker_volume_pl.Proc.Monitor.{monitor_process}
use example_docker_volume_pl.Driver.Process.{take_process, watch_found, watch, keep_monitor}

-- Every path is a folder that everybody may enter.
abbrev open_system : Os
open_system = record system {
  lstat = λ p w. (found true (record { mode = 0o777; owner = 0; group = 0 }), w);
  current_user = λ w. (ok (record { uid = codes "0"; group_ids = some [] }), w);
}

new_driver-mounted_example :
    mounted (new_driver open_system codec 0 with_its_file).1 a b ≡ mounted busy a b
unfolding new_driver save snapshot snapshot_volume write_document read_document put_map get_map
    put_saved get_saved put_option get_option put_text get_text put_number get_number put_entries
    get_entries str_eq write_file ensure_folder load take_over access_to check_access parse_uint
    mounts_of set_up setup_process start_if_none pick_up trim_space
new_driver-mounted_example =
    new_driver-mounted open_system codec 0 is_ascii (λ d bytes valid. codec-document d bytes) busy
      (save open_system codec busy).1 with_its_file (new_driver open_system codec 0 with_its_file).1
      a b busy-IsDocument refl refl refl refl refl

-- A file with a volume whose process runs.
abbrev watching : Driver (Unit {0})
watching = record empty {
  file = write_document (snapshot ([] ∷ []) ((a, record volume { puid = unique_id info }) ∷ []));
}

new_driver-Ignores_example :
    Ignores (new_driver open_system codec 5 watching).1.outside
    × All
        (λ km. Stops open_system 5 km.1)
        (new_driver open_system codec 5 watching).1.outside.monitors
new_driver-Ignores_example = new_driver-Ignores open_system codec 5 watching (refl, refl, tt)

-- Its process is watched.
watched_once : length (new_driver open_system codec 5 watching).1.outside.monitors ≡ 1
unfolding new_driver snapshot snapshot_volume write_document read_document put_map get_map put_saved
    get_saved put_option get_option put_text get_text put_number get_number put_entries get_entries
    str_eq ensure_folder load take_over access_to check_access parse_uint mounts_of set_up
    setup_process start_if_none pick_up trim_space take_process watch_found watch keep_monitor
    monitor_process new_metric_base get_process_info directory_error proc_path itoa starts_with
    read_files make_process_info get_stat get_stat_opened stat_fields words is_space first_error
    opened_messages get_cmdline validate stored scan_all trim_parens scan_strings
    get_process_info_from_unique_id unique_id atob lookup insert hex be_bytes uint64
watched_once = refl

names-IsVisit : IsVisit recovery_mode_names
names-IsVisit = (
  (inl refl, (inr (inl refl), (inr (inr (inl refl)), tt))),
  (inl refl, (inr (inl refl), (inr (inr (inl refl)), tt))),
)

recovery_mode_parse-mode_example :
    recovery_mode_parse recovery_mode_names (codes " Restart") panic
    ≡ mode_named (to_lower (trim_space (codes " Restart"))) panic
recovery_mode_parse-mode_example =
    recovery_mode_parse-mode recovery_mode_names (codes " Restart") panic names-IsVisit

scan_all-cmdline_text_example :
    scan_all (codes "a" ++ 0 ∷ codes "b" ++ 0 ∷ codes "c") ≡ codes "a" ∷ codes "b" ∷ codes "c" ∷ []
scan_all-cmdline_text_example =
    scan_all-cmdline_text (codes "a" ∷ codes "b" ∷ []) (codes "c") (ground arith) (ground arith)

scan_tokens-enough_example : scan_tokens 9 (codes "a" ++ 0 ∷ []) ≡ scan_all (codes "a" ++ 0 ∷ [])
scan_tokens-enough_example = scan_tokens-enough 9 (codes "a" ++ 0 ∷ []) (omega arith)

abbrev host : Host (Unit {0})
host = record {
  look_path = λ p w. (ok p, w);
  root_group = λ w. (ok (codes "0"), w);
  has_build_info = true;
  serve = λ gid d. (none, d);
}

-- No variable of the environment is set.
abbrev nothing_set : Environment
nothing_set key = none

abbrev args : List Str
args = codes "--log-level" ∷ codes "warn" ∷ []

-- The driver of a first start.
abbrev served : Driver (Unit {0})
served = record {
  propagated_mount = codes "/data";
  volumes = [];
  tables = [];
  file = [];
  outside = record {
    world = tt;
    process = none;
    processing = none;
    monitors = [];
    restarting = λ _. false;
    recovery_mode = ignore;
    rate_limit = some (record { limit = 3; duration = 60 * 1000000000 });
  };
}

entry_point-late_example :
    (s : Settings) × (settings_of nothing_set args ≡ some s)
    × IsQuiet s
    × IsChecked (found true (record { mode = 0o777; owner = 0; group = 0 })) s
unfolding entry_point set_options new_options ensure_folder load
entry_point-late_example =
    entry_point-late open_system codec 0 host nothing_set recovery_mode_names [] args tt 0 served
      names-IsVisit refl
