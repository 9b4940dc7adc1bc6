-- ===== src/Proc/Stat/Messages.antt =====
-- The order in which the two goroutines of `GetProcessInfo` are heard.
use example_docker_volume_pl.Common.{
  ℕ, ◌<◌, ◌≡◌, refl, Bool, true, Option, none, some, List, [], ◌∷◌, length, Outcome, ok, err, panic,
  arith, ◌∙◌,
}
use example_docker_volume_pl.Common.Text.{Str}
use example_docker_volume_pl.Os.{Reading, OsError}
use example_docker_volume_pl.Proc.Info.{ProcessInfo, Error}
use example_docker_volume_pl.Proc.Stat.{
  Stats, closing, get_stat, get_cmdline, validate, finish, info_of, make_process_info, words,
  stat_messages, opened_messages, stored, get_stat_opened, stat_fields, StatFields,
}
use example_docker_volume_pl.Proc.Stat.Sending.{
  IsSent, is_clean, first_error-clean, clean-first_error, IsErrors, IsSent-append, is_clean-append,
}

-- The order of the two fields changes the order of the messages alone.
is_clean-stat_messages :
    (b c : Bool) (fields : StatFields)
    → is_clean (stat_messages b fields) ≡ is_clean (stat_messages c fields)
is_clean-stat_messages b c fields = ground arith

stat_messages-IsErrors : (b : Bool) (fields : StatFields) → IsErrors (stat_messages b fields)
stat_messages-IsErrors b fields = ground arith

get_cmdline-IsSent : (r : Reading) → IsSent (get_cmdline r).0
unfolding get_cmdline
get_cmdline-IsSent (Reading.not_opened e) = tt
get_cmdline-IsSent (Reading.opened content none close_error) =
    IsSent-append [] (closing close_error) tt
get_cmdline-IsSent (Reading.opened content (some e) close_error) = tt

get_stat_opened-ok :
    (b : Bool) (scan close : Option OsError) (o : Option StatFields) {ms : List (Option Error)}
    {st : Stats}
    → get_stat_opened b scan close o ≡ ok (ms, st)
    → (fields : StatFields) × (o ≡ some fields)
      × (ms ≡ opened_messages b fields scan close)
      × (st ≡ stored fields)
unfolding get_stat_opened
get_stat_opened-ok b scan close none e = absurd (cc)
get_stat_opened-ok b scan close (some fields) e = (fields, refl, ground arith, ground arith)

opened_messages-IsSent :
    (b : Bool) (fields : StatFields) (scan close : Option OsError)
    → IsSent (opened_messages b fields scan close)
unfolding opened_messages
opened_messages-IsSent b fields none close =
    IsSent-append (stat_messages b fields) (closing close) (stat_messages-IsErrors b fields)
opened_messages-IsSent b fields (some x) close = tt

get_stat-IsSent :
    (b : Bool) (r : Reading) {ms : List (Option Error)} {st : Stats}
    → get_stat b r ≡ ok (ms, st)
    → IsSent ms
unfolding get_stat
get_stat-IsSent b (Reading.not_opened x) e = ground arith
get_stat-IsSent b (Reading.opened content scan close) e =
    let (fields, _, m, _) = get_stat_opened-ok b scan close (stat_fields (words content)) e in
    rw m (opened_messages-IsSent b fields scan close)

is_clean-opened_messages :
    (b c : Bool) (fields : StatFields) (scan close : Option OsError)
    → is_clean (opened_messages b fields scan close)
      ≡ is_clean (opened_messages c fields scan close)
unfolding opened_messages
is_clean-opened_messages b c fields none close = ground (
  arith,
  is_clean-append (stat_messages b fields) (closing close ∷ []),
  is_clean-append (stat_messages c fields) (closing close ∷ []),
  is_clean-stat_messages b c fields,
)
is_clean-opened_messages b c fields (some x) close = refl

-- The two orders: what is stored is the same, and there is an error in both or in none.
get_stat-order :
    (b c : Bool) (r : Reading) {ms : List (Option Error)} {st : Stats}
    → get_stat b r ≡ ok (ms, st)
    → (ns : List (Option Error)) × (get_stat c r ≡ ok (ns, st)) × (is_clean ns ≡ is_clean ms)
unfolding get_stat get_stat_opened
get_stat-order b c (Reading.not_opened x) e = (_, e, refl)
get_stat-order b c (Reading.opened content scan close) e =
    let (fields, found, m, s) = get_stat_opened-ok b scan close (stat_fields (words content)) e in
    (
      opened_messages c fields scan close,
      rw (found, s, get_stat_opened),
      rw m (is_clean-opened_messages c b fields scan close),
    )

finish-ok :
    (ticks : ℕ → ℕ) (btime : ℕ) (heard : Bool × Bool) (pid : ℕ)
    (cmdline : List (Option Error) × List Str) (r : Outcome Error (List (Option Error) × Stats))
    {pi : ProcessInfo}
    → ((ms : List (Option Error)) (st : Stats) → r ≡ ok (ms, st) → IsSent ms)
    → IsSent cmdline.0
    → finish ticks btime heard pid cmdline r ≡ ok pi
    → (ms : List (Option Error)) × (st : Stats) × (r ≡ ok (ms, st))
      × (is_clean ms ≡ true)
      × (is_clean cmdline.0 ≡ true)
      × (validate pid (info_of ticks btime st cmdline.1) ≡ ok pi)
unfolding finish
finish-ok ticks btime heard pid cmdline panic sent sent' e = absurd (cc)
finish-ok ticks btime heard pid cmdline (err x) sent sent' e = absurd (cc)
finish-ok ticks btime heard pid cmdline (ok (ms, st)) sent sent' e =
    let heard_all = first_error-clean heard.0 heard.1 ms cmdline.0 (sent ms st refl) sent' in
    (ms, st, refl, ground (arith, heard_all), ground (arith, heard_all), ground arith)

finish-clean :
    (ticks : ℕ → ℕ) (btime : ℕ) (heard : Bool × Bool) (pid : ℕ)
    (cmdline : List (Option Error) × List Str) (ms : List (Option Error)) (st : Stats)
    → is_clean ms ≡ true
    → is_clean cmdline.0 ≡ true
    → finish ticks btime heard pid cmdline (ok (ms, st))
      ≡ validate pid (info_of ticks btime st cmdline.1)
unfolding finish
finish-clean ticks btime heard pid cmdline ms st h k =
    rw (clean-first_error heard.0 heard.1 ms cmdline.0 h k, finish)

-- Where `GetProcessInfo` finds a process, it finds the same one whichever of the two goroutines is
-- heard first and in whichever order the map of fields is visited.
pub make_process_info-order :
    (ticks : ℕ → ℕ) (btime : ℕ) (o o' : Bool × Bool × Bool) (pid : ℕ) (s c : Reading)
    {pi : ProcessInfo}
    → make_process_info ticks btime o pid s c ≡ ok pi
    → make_process_info ticks btime o' pid s c ≡ ok pi
unfolding make_process_info
make_process_info-order ticks btime o o' pid s c e =
    let (ms, st, got, clean, clean', valid) =
      finish-ok ticks btime (o.0, o.1) pid (get_cmdline c) (get_stat o.2 s)
        (λ ms st r. get_stat-IsSent o.2 s r) (get_cmdline-IsSent c) e in
    let (ns, got', same) = get_stat-order o.2 o'.2 s got in
    rw got' (
      finish-clean ticks btime (o'.0, o'.1) pid (get_cmdline c) ns st (same ∙ clean) clean' ∙ valid)

validate-ok :
    (pid : ℕ) (pi : ProcessInfo) {found : ProcessInfo}
    → validate pid pi ≡ ok found
    → (found.pid ≡ pid) × (0 < length found.cmdline)
unfolding validate
validate-ok pid pi e = ground arith

-- A process that is found has the number that was asked for and at least one argument.
pub make_process_info-valid :
    (ticks : ℕ → ℕ) (btime : ℕ) (o : Bool × Bool × Bool) (pid : ℕ) (s c : Reading)
    {pi : ProcessInfo}
    → make_process_info ticks btime o pid s c ≡ ok pi
    → (pi.pid ≡ pid) × (0 < length pi.cmdline)
unfolding make_process_info
make_process_info-valid ticks btime o pid s c e =
    let (ms, st, _, _, _, valid) =
      finish-ok ticks btime (o.0, o.1) pid (get_cmdline c) (get_stat o.2 s)
        (λ ms st r. get_stat-IsSent o.2 s r) (get_cmdline-IsSent c) e in
    validate-ok pid (info_of ticks btime st (get_cmdline c).1) valid
