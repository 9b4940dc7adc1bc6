-- ===== src/Proc/Recovery/Parsing.antt =====
-- `RecoveryModeParse` whichever way the map of names is visited.
use example_docker_volume_pl.Common.{
  ◌≡◌, refl, ap, sym, ◌∙◌, ◌⊎◌, inl, inr, false, List, [], ◌∷◌, if◌then◌else◌, Bool-cases, All,
}
use example_docker_volume_pl.Common.Text.{Str, codes, str_eq, str_eq_sound, trim_space, to_lower}
use example_docker_volume_pl.Proc.Recovery.{
  RecoveryMode, ignore, restart, panic, recovery_mode_names, find_mode, recovery_mode_parse,
}

-- The mode of a name in small letters.
abbrev pub mode_named : Str → RecoveryMode → RecoveryMode
mode_named name default_mode =
    if str_eq name (codes "ignore")
    then ignore
    else if str_eq name (codes "restart")
    then restart
    else if str_eq name (codes "panic")
    then panic
    else default_mode

abbrev Entry : Type 0
Entry = RecoveryMode × Str

-- The entry is an element of the list.
abbrev pub Holds : List Entry → Entry → Type 0
Holds [] e = ⊥
Holds (x ∷ xs) e = (x ≡ e) ⊎ Holds xs e

-- A list of all entries of the map and of no others.
abbrev pub IsVisit : List Entry → Type 0
IsVisit visited = All (Holds recovery_mode_names) visited × All (Holds visited) recovery_mode_names

-- Each entry of the map is one of the three.
entry-mode :
    (d : RecoveryMode) (e : Entry) → Holds recovery_mode_names e → mode_named (to_lower e.1) d ≡ e.0
unfolding to_lower str_eq
entry-mode d e (inl h) = ap (λ (e : Entry). mode_named (to_lower e.1) d) (sym h) ∙ ap (λ e. e.0) h
entry-mode d e (inr (inl h)) =
    ap (λ (e : Entry). mode_named (to_lower e.1) d) (sym h) ∙ ap (λ e. e.0) h
entry-mode d e (inr (inr (inl h))) =
    ap (λ (e : Entry). mode_named (to_lower e.1) d) (sym h) ∙ ap (λ e. e.0) h
entry-mode d e (inr (inr (inr h))) = elim h [ ]

-- No entry has the name.
abbrev Differs : Str → Entry → Type 0
Differs name e = str_eq name (to_lower e.1) ≡ false

find_mode-cases :
    (name : Str) (d : RecoveryMode) (visited : List Entry)
    → All (Holds recovery_mode_names) visited
    → (find_mode name d visited ≡ mode_named name d)
      ⊎ ((find_mode name d visited ≡ d) × All (Differs name) visited)
unfolding find_mode
find_mode-cases name d [] h = inr (refl, tt)
find_mode-cases name d ((k, v) ∷ rest) (h, hs) = elim (Bool-cases (str_eq name (to_lower v))) [
  | inl e ↦ inl (
      rw e (
        sym (entry-mode d (k, v) h)
        ∙ ap (λ n. mode_named n d) (sym (str_eq_sound name (to_lower v) e))))
  | inr e ↦ elim (find_mode-cases name d rest hs) [
    | inl f ↦ inl (rw e f)
    | inr (f, g) ↦ inr (rw e f, (e, g))
  ]
]

All-Holds :
    (name : Str) (visited : List Entry) (e : Entry)
    → All (Differs name) visited
    → Holds visited e
    → Differs name e
All-Holds name [] e a h = elim h [ ]
All-Holds name (x ∷ xs) e (a, as') (inl h) =
    ap (λ (e : Entry). str_eq name (to_lower e.1)) (sym h) ∙ a
All-Holds name (x ∷ xs) e (a, as') (inr h) = All-Holds name xs e as' h

-- A name that differs from all is none of the three.
Differs-mode :
    (name : Str) (d : RecoveryMode) (visited : List Entry)
    → All (Differs name) visited
    → All (Holds visited) recovery_mode_names
    → mode_named name d ≡ d
unfolding to_lower
Differs-mode name d visited a (h1, (h2, (h3, _))) =
    rw
      (
        All-Holds name visited (ignore, codes "Ignore") a h1,
        All-Holds name visited (restart, codes "Restart") a h2,
        All-Holds name visited (panic, codes "Panic") a h3,
      )
      refl

no_name : (d : RecoveryMode) → mode_named (to_lower []) d ≡ d
unfolding to_lower str_eq
no_name d = refl

-- `RecoveryModeParse` knows the three names, in any mix of letters and with white space around them,
-- and gives the default for any other text, in whichever order it visits the map of the names.
pub recovery_mode_parse-mode :
    (visited : List Entry) (name : Str) (d : RecoveryMode)
    → IsVisit visited
    → recovery_mode_parse visited name d ≡ mode_named (to_lower (trim_space name)) d
unfolding recovery_mode_parse
recovery_mode_parse-mode visited name d (hv, hn) = elim (Bool-cases (str_eq (trim_space name) [])) [
  | inl e ↦
      rw e (
        sym (ap (λ s. mode_named (to_lower s) d) (str_eq_sound (trim_space name) [] e) ∙ no_name d))
  | inr e ↦ rw e (elim (find_mode-cases (to_lower (trim_space name)) d visited hv) [
    | inl f ↦ f
    | inr (f, g) ↦ f ∙ sym (Differs-mode (to_lower (trim_space name)) d visited g hn)
  ])
]
