-- ===== src/Proc/Reset/Loading.antt =====
-- `Reset` on a system that answers: the boot time, the release and the names of the states.
use example_docker_volume_pl.Common.{
  ℕ, ◌^◌, ◌<◌, ◌≤◌, ◌≡◌, ◌≢◌, refl, ap, ◌∙◌, false, none, some, List, [], ◌∷◌, ◌++◌, map, arith, ok,
  All, All-append, Option, Outcome,
}
use example_docker_volume_pl.Common.State.{◌>>◌}
use example_docker_volume_pl.Common.State.Laws.{>>=-step}
use example_docker_volume_pl.Common.Text.{Str, codes, str_eq, join, split, Lacks}
use example_docker_volume_pl.Common.Text.Split.{split-join}
use example_docker_volume_pl.Common.Number.{decimal}
use example_docker_volume_pl.Common.Number.Decimal.{decimal-Lacks}
use example_docker_volume_pl.Common.Number.Signed.{parse_int-decimal}
use example_docker_volume_pl.Os.{Os, Reading}
use example_docker_volume_pl.Utils.{int8_to_str}
use example_docker_volume_pl.Semver.{VersionInfo, parse}
use example_docker_volume_pl.Proc.Status.{Globals, Error}
use example_docker_volume_pl.Proc.Status.Names.{named_states, load_process_status_names-names}
use example_docker_volume_pl.Proc.Reset.{
  drop_return, drop_last_empty, lines, scan_word, scan_stat, stat_of, uname_of, ask, last_error,
  load_names, load_proc_stat, load_uname, reset,
}

-- A file of lines, each of them ended.
abbrev pub file_text : List Str → Str
file_text ls = join (ls ++ [] ∷ []) (10 ∷ [])

-- A line holds neither of the characters that end it.
abbrev pub IsLine : Str → Type 0
IsLine l = Lacks 10 l × Lacks 13 l

drop_return-Lacks : (l : Str) → Lacks 13 l → drop_return l ≡ l
drop_return-Lacks [] h = refl
drop_return-Lacks (c ∷ []) (h, _) = ground arith
drop_return-Lacks (c ∷ d ∷ l) (h, hs) = ap (◌∷◌ c) (drop_return-Lacks (d ∷ l) hs)

drop_last_empty-lines : (ls : List Str) → drop_last_empty (ls ++ [] ∷ []) ≡ ls
unfolding str_eq
drop_last_empty-lines [] = refl
drop_last_empty-lines (l ∷ []) = refl
drop_last_empty-lines (l ∷ m ∷ ls) = ap (◌∷◌ l) (drop_last_empty-lines (m ∷ ls))

drop_returns : (ls : List Str) → All IsLine ls → map drop_return ls ≡ ls
drop_returns [] h = refl
drop_returns (l ∷ ls) ((_, h), hs) = rw (drop_return-Lacks l h, drop_returns ls hs)

IsLine-Lacks : (ls : List Str) → All IsLine ls → All (Lacks 10) ls
IsLine-Lacks [] h = tt
IsLine-Lacks (l ∷ ls) ((h, _), hs) = (h, IsLine-Lacks ls hs)

lines-of_split :
    (s : Str) (ls : List Str) → All IsLine ls → split s (10 ∷ []) ≡ ls ++ [] ∷ [] → lines s ≡ ls
unfolding lines
lines-of_split s ls h e =
    ap (λ ps. map drop_return (drop_last_empty ps)) e
    ∙ (ap (map drop_return) (drop_last_empty-lines ls) ∙ drop_returns ls h)

text_parts-ne-nil : (ls : List Str) → ls ++ [] ∷ [] ≢ []
text_parts-ne-nil [] = λ e. cc
text_parts-ne-nil (l ∷ ls) = λ e. cc

-- The scanner finds the lines of the file.
pub lines-file_text : (ls : List Str) → All IsLine ls → lines (file_text ls) ≡ ls
lines-file_text ls h = lines-of_split (file_text ls) ls h (
    split-join 10 (ls ++ [] ∷ []) (text_parts-ne-nil ls)
      (All-append (Lacks 10) ls ([] ∷ []) (IsLine-Lacks ls h) (tt, tt)))

-- The line of the boot time, and a line that is none.
abbrev pub btime_line : ℕ → Str
btime_line n = codes "btime " ++ decimal n

abbrev pub IsOther : Str → Type 0
IsOther l = str_eq (scan_word l).0 (codes "btime") ≡ false

scan_stat-others :
    (ls rest : List Str) (b : ℕ) (f : Option Error)
    → All IsOther ls
    → scan_stat (ls ++ rest) b f ≡ scan_stat rest b f
unfolding scan_stat
scan_stat-others [] rest b f h = refl
scan_stat-others (l ∷ ls) rest b f (h, hs) = ground (arith, h, scan_stat-others ls rest b f hs)

scan_stat-btime :
    (n : ℕ) (rest : List Str) (b : ℕ) (f : Option Error)
    → n < 2 ^ 63
    → scan_stat (btime_line n ∷ rest) b f ≡ scan_stat rest n f
unfolding scan_stat scan_word str_eq
scan_stat-btime n rest b f h =
    ap
      (λ (o : Option ℕ). elim o as (λ _. ℕ × Option Error) [
        | none ↦ scan_stat rest b (some (Error.bad_btime (decimal n)))
        | some b ↦ scan_stat rest b f
      ])
      (parse_int-decimal n h)

scan_stat-end :
    (ls : List Str) (b : ℕ) (f : Option Error) → All IsOther ls → scan_stat ls b f ≡ (b, f)
unfolding scan_stat
scan_stat-end [] b f h = refl
scan_stat-end (l ∷ ls) b f (h, hs) = ground (arith, h, scan_stat-end ls b f hs)

btime_line-Lacks : (c n : ℕ) → c < b' ' → Lacks c (btime_line n)
btime_line-Lacks c n h =
    let ne : (d : ℕ) → b' ' ≤ d → d ≢ c = λ d k e. omega arith in
    (
      ne b'b' (omega arith),
      (
        ne b't' (omega arith),
        (
          ne b'i' (omega arith),
          (
            ne b'm' (omega arith),
            (ne b'e' (omega arith), (ne b' ' (omega arith), decimal-Lacks c n (omega arith))),
          ),
        ),
      ),
    )

stat_lines-IsLine :
    (before after : List Str) (n : ℕ)
    → All IsLine before
    → All IsLine after
    → All IsLine (before ++ btime_line n ∷ after)
stat_lines-IsLine before after n hb ha =
    All-append IsLine before (btime_line n ∷ after) hb
      ((btime_line-Lacks 10 n (omega arith), btime_line-Lacks 13 n (omega arith)), ha)

-- Lines of which none tells the boot time.
abbrev pub AreOther : List Str → Type 0
AreOther ls = All IsLine ls × All IsOther ls

-- What `loadProcStat` makes of a file with one line of the boot time.
stat_of-file_text :
    (before after : List Str) (n : ℕ) (g : Globals)
    → AreOther before
    → AreOther after
    → n < 2 ^ 63
    → stat_of (Reading.opened (file_text (before ++ btime_line n ∷ after)) none none) g
      ≡ (ok tt, record g { btime = n })
unfolding stat_of
stat_of-file_text before after n g (lb, hb) (la, ha) h =
    let read : scan_stat (lines (file_text (before ++ btime_line n ∷ after))) g.btime none
        ≡ (n, none) =
      rw
        (
          lines-file_text (before ++ btime_line n ∷ after) (stat_lines-IsLine before after n lb la),
          scan_stat-others before (btime_line n ∷ after) g.btime none hb,
          scan_stat-btime n after g.btime none h,
        )
        (scan_stat-end after n none ha) in
    ap (λ r. (last_error none r.1 none, record g { btime = r.0 })) read

uname_of-ok :
    (bytes : List ℕ) (r : VersionInfo) (g : Globals)
    → parse (int8_to_str bytes) ≡ ok r
    → uname_of (ok bytes) g ≡ (ok tt, record g { release = some r })
unfolding uname_of
uname_of-ok bytes r g h = ground (arith, h)

module _ (os : Os) where
  open os use {World, read_proc, uname}

  ask-step :
      {A : Type 0} (f : World → A × World) (k : A → Globals → Outcome Error (Unit {0}) × Globals)
      (g g' : Globals) (w w' : World) (a : A)
      → f w ≡ (a, w')
      → k a g ≡ (ok tt, g')
      → ask os f k (g, w) ≡ (ok tt, (g', w'))
  ask-step f k g g' w w' a e h =
      ap (λ r. ((k r.0 g).0, ((k r.0 g).1, r.1))) e ∙ ap (λ r. (r.0, (r.1, w'))) h

  -- `Reset` succeeds where /proc/stat has a line with the boot time and the kernel's release is a
  -- version: it takes over both, and the names of the states of that release.
  pub reset-ok :
      (g : Globals) (w w1 w2 : World) (before after : List Str) (n : ℕ) (bytes : List ℕ)
      (r : VersionInfo)
      → AreOther before
      → AreOther after
      → n < 2 ^ 63
      → read_proc (codes "/proc/stat") w
        ≡ (Reading.opened (file_text (before ++ btime_line n ∷ after)) none none, w1)
      → uname w1 ≡ (ok bytes, w2)
      → parse (int8_to_str bytes) ≡ ok r
      → reset os (g, w) ≡ (
        ok tt,
        (record { btime = n; release = some r; process_status_names = named_states r }, w2),
      )
  unfolding reset load_proc_stat load_uname
  reset-ok g w w1 w2 before after n bytes r hb ha h stat name version =
      let g1 = record g { btime = n } in
      let g2 = record g1 { release = some r } in
      let first =
        ask-step (read_proc (codes "/proc/stat")) stat_of g g1 w w1 _ stat
          (stat_of-file_text before after n g hb ha h) in
      let second = ask-step uname uname_of g1 g2 w1 w2 _ name (uname_of-ok bytes r g1 version) in
      let third = (load_process_status_names-names none g2 r refl).0 in
      >>=-step (load_proc_stat os) (λ _. load_uname os >> load_names os) first
      ∙ >>=-step (load_uname os) (λ _. load_names os) second
      ∙ ap (λ r. (r.0, (r.1, w2))) third
