-- ===== src/Examples/World.antt =====
-- A small system: no folder but those below /proc, one process, and calls that succeed.
use example_docker_volume_pl.Common.{true, false, none, [], ◌∷◌, ◌++◌, if◌then◌else◌, ok}
use example_docker_volume_pl.Common.Text.{Str, codes, str_eq, starts_with}
use example_docker_volume_pl.Os.{Os, found, not_exist, opened, ended}
use example_docker_volume_pl.Driver.{Library}

abbrev pub stat_text : Str
stat_text = codes "7 (a) S 1 7 7 0 0 0 0 0 0 0 0 0 0 0 0 0 1 0 5 0 0"

-- /proc/stat
abbrev pub stat_line : Str
stat_line = codes "cpu  1 2" ++ 10 ∷ codes "btime 1700000000" ++ 10 ∷ []

abbrev pub system : Os
system = record {
  World = Unit {0};
  lstat = λ p w. (
    if starts_with (codes "/proc/") p
        then found true (record { mode = 0; owner = 0; group = 0 })
        else not_exist,
    w,
  );
  stat = λ p w. (found false (record { mode = 0; owner = 0; group = 0 }), w);
  mkdir_all = λ p w. (none, w);
  remove = λ p w. (none, w);
  open_file = λ p w. (none, w);
  seek = λ w. (none, w);
  truncate = λ w. (none, w);
  read_all = λ w. (none, w);
  write = λ w. (none, w);
  now = λ w. (100, w);
  current_user = λ w. (ok (record { uid = codes "0"; group_ids = none }), w);
  read_proc = λ p w. (
    opened
        (if str_eq p (codes "/proc/7/stat")
          then stat_text
          else if str_eq p (codes "/proc/stat")
          then stat_line
          else codes "a" ++ 0 ∷ [])
        none none,
    w,
  );
  uname = λ w. (ok (codes "4.14.0-115-generic" ++ 0 ∷ 0 ∷ []), w);
  polls = λ t w. (2, w);
  sleep = λ t w. w;
  schedule = λ w. ((true, true, true), w);
  start_process = λ p a w. (ok 7, w);
  release = λ p w. (none, w);
  find_process = λ p w. (none, w);
  send_signal = λ p s w. (none, w);
  wait = λ p t w. (ended, w);
  ticks = λ n. n;
}

-- A library whose writing always works.
abbrev pub lenient : Library
lenient = record {
  join_path = λ a b. a ++ b'/' ∷ b;
  sha256 = λ s. b'f' ∷ s;
  marshal = λ d. ok (codes "{}");
  unmarshal = λ s. ok [];
  rfc3339 = λ t. [];
}
