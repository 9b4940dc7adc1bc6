-- ===== src/Proc/Reset.antt =====
-- src/proc/proc.go: `Reset`, which reads the time of the last boot and the release of the kernel.
pub mod Loading
use example_docker_volume_pl.Common.{
  Bool, true, false, ℕ, ◌-◌, ◌^◌, Bool, true, false, Option, none, some, List, [], ◌∷◌, ◌==◌, ltb,
  leb, if◌then◌else◌, map, Outcome, ok, err, panic,
}
use example_docker_volume_pl.Common.State.{M, ◌>>=◌, ◌>>◌, modify, of_outcome}
use example_docker_volume_pl.Common.Text.{Str, codes, str_eq, is_space, split}
use example_docker_volume_pl.Common.Number.Signed.{parse_int}
use example_docker_volume_pl.Os.{Os, OsError, Reading}
use example_docker_volume_pl.Utils.{int8_to_str}
use example_docker_volume_pl.Semver.{parse}
use example_docker_volume_pl.Proc.Status.{
  Globals, Error, system, bad_btime, bad_version, load_process_status_names,
}

-- The lines of `bufio.Scanner`: a return at the end of a line is dropped, and so is an empty text
-- behind the last end of a line.
abbrev pub drop_return : Str → Str
drop_return [] = []
drop_return (c ∷ []) = if c == 13 then [] else c ∷ []
drop_return (c ∷ d ∷ s) = c ∷ drop_return (d ∷ s)

abbrev pub drop_last_empty : List Str → List Str
drop_last_empty [] = []
drop_last_empty (p ∷ []) = if str_eq p [] then [] else p ∷ []
drop_last_empty (p ∷ q ∷ ps) = p ∷ drop_last_empty (q ∷ ps)

unfoldable pub lines : Str → List Str
unfolding split str_eq
lines s = map drop_return (drop_last_empty (split s (10 ∷ [])))

-- What stands in front of the first white space, and what behind it, if there is one.
abbrev pub cut_at_space : Str → Option (Str × Str)
cut_at_space [] = none
cut_at_space (c ∷ s) =
    let rest = cut_at_space s in
    if is_space c then some ([], s) else elim rest [ none ↦ none | some (t, u) ↦ some (c ∷ t, u) ]

-- `bufio.ScanWords(line, false)`: the first word, if white space ends it, and what it leaves.
unfoldable pub scan_word : Str → Str × Str
unfolding is_space
scan_word [] = ([], [])
scan_word (c ∷ s) =
    let rest = scan_word s in
    if is_space c
    then rest
    else elim (cut_at_space (c ∷ s)) [ none ↦ ([], c ∷ s) | some (t, u) ↦ (t, u) ]

-- The loop of `loadProcStat`: the variables `BTime` and `fail` behind it.
unfoldable pub scan_stat : List Str → ℕ → Option Error → ℕ × Option Error
unfolding scan_word parse_int str_eq
scan_stat [] btime fail = (btime, fail)
scan_stat (line ∷ rest) btime fail =
    let (key, value) = scan_word line in
    elim (str_eq key (codes "btime")) [
      | false ↦ scan_stat rest btime fail
      | true ↦ elim (parse_int value) [
        | none ↦ scan_stat rest btime (some (bad_btime value))
        | some b ↦ scan_stat rest b fail
      ]
    ]

-- The error at the end: that of the scanner, that of a line, or that of closing the file.
abbrev pub last_error : Option OsError → Option Error → Option OsError → Outcome Error (Unit {0})
last_error (some e) fail close_error = err (system e)
last_error none (some e) close_error = err e
last_error none none (some e) = err (system e)
last_error none none none = ok tt

-- What `loadProcStat` makes of the file.
unfoldable pub stat_of : Reading → Globals → Outcome Error (Unit {0}) × Globals
unfolding lines scan_stat
stat_of (Reading.not_opened e) g = (err (system e), g)
stat_of (Reading.opened content scan_error close_error) g =
    let (btime, fail) = scan_stat (lines content) g.btime none in
    (last_error scan_error fail close_error, record g { btime = btime })

-- What `loadUname` makes of the answer of `uname`. `Release` is nil where the text is no version.
unfoldable pub uname_of : Outcome OsError (List ℕ) → Globals → Outcome Error (Unit {0}) × Globals
unfolding parse int8_to_str
uname_of (err e) g = (err (system e), g)
uname_of panic g = (panic, g)
uname_of (ok release) g = elim (parse (int8_to_str release)) [
  | ok v ↦ (ok tt, record g { release = some v })
  | err e ↦ (err (bad_version e), record g { release = none })
  | panic ↦ (panic, g)
]

module _ (os : Os) where
  open os use {World, read_proc, uname}

  -- Code on the variables of the package that asks the system once.
  abbrev pub ask :
      {A : Type 0}
      → (World → A × World)
      → (A → Globals → Outcome Error (Unit {0}) × Globals)
      → M Error (Globals × World) (Unit {0})
  ask f k (g, w) = let (a, w') = f w in let (r, g') = k a g in (r, (g', w'))

  -- `loadProcStat`
  unfoldable pub load_proc_stat : M Error (Globals × World) (Unit {0})
  unfolding stat_of
  load_proc_stat = ask (read_proc (codes "/proc/stat")) stat_of

  -- `loadUname`
  unfoldable pub load_uname : M Error (Globals × World) (Unit {0})
  unfolding uname_of
  load_uname = ask uname uname_of

  -- `loadProcessStatusNames(nil)`
  abbrev pub load_names : M Error (Globals × World) (Unit {0})
  load_names (g, w) = let (r, g') = load_process_status_names none g in (r, (g', w))

  -- `Reset`; the logger is left out.
  unfoldable pub reset : M Error (Globals × World) (Unit {0})
  unfolding load_proc_stat load_uname load_process_status_names
  reset = do load_proc_stat; load_uname; load_names

  -- `init` of the package: a failure of `Reset` ends the program.
  unfoldable pub init : Bool → M Error (Globals × World) (Unit {0})
  unfolding reset
  init no_init s =
      let (r, t) = reset s in
      elim no_init [
        | true ↦ (ok tt, s)
        | false ↦ elim r [ ok _ ↦ (ok tt, t) | err e ↦ (panic, t) | panic ↦ (panic, t) ]
      ]
