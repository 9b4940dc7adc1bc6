-- ===== src/Proc/Stat.antt =====
-- src/proc/proc.go, `GetProcessInfo`: what it makes of the two files below /proc. They are read by two
-- goroutines, which send a message for each error and one when they close the file.
pub mod Sending
pub mod Messages
use mathlib.Core.List.{foldl}
use example_docker_volume_pl.Common.{
  ◌-◌, ℕ, zero, suc, ◌+◌, ◌-◌, ◌*◌, ◌/◌, ◌%◌, ◌^◌, ◌≡◌, refl, Bool, true, false, not, ◌&&◌, ◌||◌,
  Option, none, some, List, [], ◌∷◌, ◌++◌, ◌==◌, ltb, if◌then◌else◌, length, get_elem?, drop, take,
  Outcome, ok, err, panic,
}
use example_docker_volume_pl.Common.Options.{◌>>=◌}
use example_docker_volume_pl.Common.Text.{Str, codes, str_eq, is_space}
use example_docker_volume_pl.Common.Number.{parse_uint, itoa}
use example_docker_volume_pl.Utils.{atob, scan_all}
use example_docker_volume_pl.Utils
use example_docker_volume_pl.Os.{Os, OsError, Stat, Reading}
use example_docker_volume_pl.Proc.Info.{
  ProcessInfo, Error, system, no_such_pid, not_a_directory, bad_field, wrong_pid, no_arguments,
  timed_out, joined, bad_unique_id, other_start_time, uint64,
}

-- The parts between white space, `bufio.ScanWords`.
words_go : Str → Str → List Str
words_go [] word = if str_eq word [] then [] else word ∷ []
words_go (c ∷ s) word = elim (is_space c) [
  | true ↦ if str_eq word [] then words_go s [] else word ∷ words_go s []
  | false ↦ words_go s (word ++ c ∷ [])
]

unfoldable pub words : Str → List Str
unfolding words_go
words s = words_go s []

-- The fields of /proc/<pid>/stat that are read.
pub record Stats : Type 0 where
  pub pid : ℕ
  pub starttime : ℕ
  pub comm : Str
  pub state : Str

abbrev pub message_of : Option OsError → List (Option Error)
message_of none = []
message_of (some e) = some (system e) ∷ []

abbrev pub closing : Option OsError → Option Error
closing none = none
closing (some e) = some (system e)

-- `parseUintField`: the message, if it fails, and the value.
abbrev pub parse_uint_field : ℕ → Str → List (Option Error) × ℕ
parse_uint_field num field = elim (parse_uint 10 64 field) [
  | none ↦ (some (bad_field num) ∷ [], 0)
  | some val ↦ ([], val)
]

-- The texts of the fields that `procPidStatsUInt` and `procPidStatsString` name.
pub record StatFields : Type 0 where
  pub pid : Str
  pub comm : Str
  pub state : Str
  pub starttime : Str

-- They are looked up by their numbers; `none` is an index out of range.
unfoldable pub stat_fields : List Str → Option StatFields
stat_fields fields = do
  pid ← get_elem? fields (1 - 1)
  comm ← get_elem? fields (2 - 1)
  state ← get_elem? fields (3 - 1)
  starttime ← get_elem? fields (22 - 1)
  some (record { pid = pid; comm = comm; state = state; starttime = starttime })

-- The messages of `getStat` between opening and closing the file. The flag is the order in which
-- the map of the numeric fields is visited.
abbrev pub stat_messages : Bool → StatFields → List (Option Error)
stat_messages first fields =
    let m1 = (parse_uint_field 1 fields.pid).0 in
    let m22 = (parse_uint_field 22 fields.starttime).0 in if first then m1 ++ m22 else m22 ++ m1

-- All of its messages, and what it stores.
unfoldable pub opened_messages :
    Bool → StatFields → Option OsError → Option OsError → List (Option Error)
opened_messages first fields scan_error close_error =
    message_of scan_error ++ (stat_messages first fields ++ closing close_error ∷ [])

unfoldable pub stored : StatFields → Stats
stored fields = record {
  pid = (parse_uint_field 1 fields.pid).1;
  starttime = (parse_uint_field 22 fields.starttime).1;
  comm = fields.comm;
  state = fields.state;
}

-- Too few fields end the program, for a panic in a goroutine is not recovered.
unfoldable pub get_stat_opened :
    Bool
    → Option OsError
    → Option OsError
    → Option StatFields
    → Outcome Error (List (Option Error) × Stats)
get_stat_opened first scan_error close_error none = panic
get_stat_opened first scan_error close_error (some fields) =
    ok (opened_messages first fields scan_error close_error, stored fields)

-- `getStat`
unfoldable pub get_stat : Bool → Reading → Outcome Error (List (Option Error) × Stats)
get_stat first (Reading.not_opened e) =
    ok (some (system e) ∷ [], record { pid = 0; starttime = 0; comm = []; state = [] })
get_stat first (Reading.opened content scan_error close_error) =
    get_stat_opened first scan_error close_error (stat_fields (words content))

-- `getCmdline`: the messages, and the arguments.
unfoldable pub get_cmdline : Reading → List (Option Error) × List Str
get_cmdline (Reading.not_opened e) = (some (system e) ∷ [], [])
get_cmdline (Reading.opened content scan_error close_error) =
    (message_of scan_error ++ closing close_error ∷ [], scan_all content)

-- The next message from one goroutine, or from the other where that has sent all.
abbrev pub receive :
    Bool
    → List (Option Error)
    → List (Option Error)
    → Option Error × List (Option Error) × List (Option Error)
receive true (m ∷ ms) ns = (m, ms, ns)
receive true [] (n ∷ ns) = (n, [], ns)
receive true [] [] = (none, [], [])
receive false ms (n ∷ ns) = (n, ms, ns)
receive false (m ∷ ms) [] = (m, ms, [])
receive false [] [] = (none, [], [])

-- The loop over `errLn` messages, of which there are two.
unfoldable pub first_error : Bool → Bool → List (Option Error) → List (Option Error) → Option Error
first_error b c ms ns =
    let (m, ms', ns') = receive b ms ns in
    let (m', _, _) = receive c ms' ns' in elim m [ some e ↦ some e | none ↦ m' ]

-- `strings.Trim(s, "()")`
trim_parens_left : Str → Str
trim_parens_left [] = []
trim_parens_left (c ∷ s) = if c == b'(' || c == b')' then trim_parens_left s else c ∷ s

abbrev put_front_parens : ℕ → Str → Str
put_front_parens c [] = if c == b'(' || c == b')' then [] else c ∷ []
put_front_parens c (d ∷ s) = c ∷ d ∷ s

trim_parens_right : Str → Str
trim_parens_right [] = []
trim_parens_right (c ∷ s) = put_front_parens c (trim_parens_right s)

unfoldable pub trim_parens : Str → Str
unfolding trim_parens_left trim_parens_right
trim_parens s = trim_parens_right (trim_parens_left s)

-- The validation at the end of `GetProcessInfo`.
unfoldable pub validate : ℕ → ProcessInfo → Outcome Error ProcessInfo
validate pid pi =
    let pid_ok = pi.pid == pid in
    let args_ok = ltb 0 (length pi.cmdline) in
    if pid_ok && args_ok
    then ok pi
    else if args_ok
    then err (wrong_pid pi.pid)
    else if pid_ok
    then err no_arguments
    else err (joined (wrong_pid pi.pid) no_arguments)

abbrev pub info_of : (ℕ → ℕ) → ℕ → Stats → List Str → ProcessInfo
info_of ticks btime stat cmdline = record {
  pid = stat.pid;
  comm = trim_parens stat.comm;
  state = stat.state;
  start_time = btime + ticks stat.starttime;
  cmdline = cmdline;
}

-- What is left to do when `getStat` has ended in the last argument.
unfoldable pub finish :
    (ℕ → ℕ)
    → ℕ
    → Bool × Bool
    → ℕ
    → List (Option Error) × List Str
    → Outcome Error (List (Option Error) × Stats)
    → Outcome Error ProcessInfo
finish ticks btime heard pid cmdline panic = panic
finish ticks btime heard pid cmdline (err e) = err e
finish ticks btime heard pid cmdline (ok (ms, stat)) =
    elim (first_error heard.0 heard.1 ms cmdline.0) [
      | some e ↦ err e
      | none ↦ validate pid (info_of ticks btime stat cmdline.1)
    ]

-- What `GetProcessInfo` makes of the two files. The flags say which goroutine is heard first, which
-- is heard then, and in which order the map of the numeric fields is visited.
unfoldable pub make_process_info :
    (ℕ → ℕ) → ℕ → Bool × Bool × Bool → ℕ → Reading → Reading → Outcome Error ProcessInfo
unfolding finish
make_process_info ticks btime order pid stat_file cmdline_file =
    finish ticks btime (order.0, order.1) pid (get_cmdline cmdline_file)
      (get_stat order.2 stat_file)
