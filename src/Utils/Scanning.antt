-- ===== src/Utils/Scanning.antt =====
-- `ScanStrings` under a scanner: it ends, and it finds the strings that null characters end.
use example_docker_volume_pl.Common.{
  ℕ, zero, suc, ◌<◌, ◌≡◌, ◌≢◌, refl, ap, sym, ◌∙◌, true, false, Option, none, some, List, [], ◌∷◌,
  ◌++◌, arith, length, drop, All, length-append,
}
use example_docker_volume_pl.Common.Text.{Lacks}
use example_docker_volume_pl.Utils.{find_null, scan_strings, scan_tokens, scan_all}

-- A string and the null character behind it are found, whatever follows.
find_null-string :
    (s rest : List ℕ) → Lacks 0 s → find_null (s ++ 0 ∷ rest) ≡ some (suc (length s), s)
unfolding find_null
find_null-string [] rest h = ground arith
find_null-string (c ∷ s) rest (h, hs) = ground (arith, find_null-string s rest hs)

find_null-none : (s : List ℕ) → Lacks 0 s → find_null s ≡ none
unfolding find_null
find_null-none [] h = refl
find_null-none (c ∷ s) (h, hs) = ground (arith, find_null-none s hs)

drop_string : (s rest : List ℕ) → drop (suc (length s)) (s ++ 0 ∷ rest) ≡ rest
drop_string [] rest = refl
drop_string (c ∷ s) rest = drop_string s rest

-- The strings of a command line in /proc: each is ended by a null character, but for what comes last.
abbrev pub cmdline_text : List (List ℕ) → List ℕ → List ℕ
cmdline_text [] last = last
cmdline_text (s ∷ ss) last = s ++ 0 ∷ cmdline_text ss last

abbrev pub last_token : List ℕ → List (List ℕ)
last_token [] = []
last_token (c ∷ s) = (c ∷ s) ∷ []

scan_strings-string :
    (s rest : List ℕ) → Lacks 0 s → scan_strings (s ++ 0 ∷ rest) false ≡ (suc (length s), some s)
unfolding scan_strings
scan_strings-string [] rest h = ground (arith, find_null-string [] rest h)
scan_strings-string (c ∷ s) rest h = ground (arith, find_null-string (c ∷ s) rest h)

scan_strings-none : (s : List ℕ) → Lacks 0 s → scan_strings s false ≡ (0, none)
unfolding scan_strings
scan_strings-none [] h = ground (arith, find_null-none [] h)
scan_strings-none (c ∷ s) h = ground (arith, find_null-none (c ∷ s) h)

abbrev at_end : List ℕ → List (List ℕ)
at_end bytes = elim (scan_strings bytes true).1 [ none ↦ [] | some token ↦ token ∷ [] ]

-- A round of the scanner.
scan_tokens-round :
    (fuel : ℕ) (bytes : List ℕ) (r : ℕ × Option (List ℕ))
    → scan_strings bytes false ≡ r
    → scan_tokens (suc fuel) bytes
      ≡ elim r.1 [ some token ↦ token ∷ scan_tokens fuel (drop r.0 bytes) | none ↦ at_end bytes ]
unfolding scan_tokens
scan_tokens-round fuel bytes r e =
    ap
      (λ (r : ℕ × Option (List ℕ)). elim r.1 as (λ _. List (List ℕ)) [
        | some token ↦ token ∷ scan_tokens fuel (drop r.0 bytes)
        | none ↦ at_end bytes
      ])
      e

at_end_lem : (s : List ℕ) → at_end s ≡ last_token s
unfolding scan_strings
at_end_lem [] = refl
at_end_lem (c ∷ s) = refl

scan_tokens-lem :
    (fuel : ℕ) (ss : List (List ℕ)) (last : List ℕ)
    → All (Lacks 0) ss
    → Lacks 0 last
    → length (cmdline_text ss last) < fuel
    → scan_tokens fuel (cmdline_text ss last) ≡ ss ++ last_token last
scan_tokens-lem zero ss last h k l = elim l [ ]
scan_tokens-lem (suc fuel) [] last h k l =
    scan_tokens-round fuel last (0, none) (scan_strings-none last k) ∙ at_end_lem last
scan_tokens-lem (suc fuel) (s ∷ ss) last (h, hs) k l =
    let rest = cmdline_text ss last in
    scan_tokens-round fuel (s ++ 0 ∷ rest) (suc (length s), some s) (scan_strings-string s rest h)
    ∙ ap (◌∷◌ s) (
        ap (scan_tokens fuel) (drop_string s rest)
        ∙ scan_tokens-lem fuel ss last hs k (omega (arith, length-append s (0 ∷ rest))))

-- Every text is strings that null characters end, and what comes last.
abbrev Tokens : List ℕ → Type 0
Tokens bytes =
    (ss : List (List ℕ)) × (last : List ℕ) × (cmdline_text ss last ≡ bytes)
    × All (Lacks 0) ss
    × Lacks 0 last

with_front : (c : ℕ) (bytes : List ℕ) → c ≢ 0 → Tokens bytes → Tokens (c ∷ bytes)
with_front c bytes ne ([], last, e, h, k) = ([], c ∷ last, ap (◌∷◌ c) e, tt, (ne, k))
with_front c bytes ne (s ∷ ss, last, e, (h, hs), k) =
    ((c ∷ s) ∷ ss, last, ap (◌∷◌ c) e, ((ne, h), hs), k)

Tokens-of : (bytes : List ℕ) → Tokens bytes
Tokens-of [] = ([], [], refl, tt, tt)
Tokens-of (zero ∷ bytes) =
    let (ss, last, e, h, k) = Tokens-of bytes in ([] ∷ ss, last, ap (◌∷◌ 0) e, (tt, h), k)
Tokens-of (suc c ∷ bytes) = with_front (suc c) bytes (λ e. omega arith) (Tokens-of bytes)

-- The scanner needs no more rounds than there are bytes, and one: with more it finds the same.
pub scan_tokens-enough :
    (fuel : ℕ) (bytes : List ℕ) → length bytes < fuel → scan_tokens fuel bytes ≡ scan_all bytes
unfolding scan_all
scan_tokens-enough fuel bytes h =
    let (ss, last, e, hs, k) = Tokens-of bytes in
    let less : length (cmdline_text ss last) < fuel = rw e h in
    ap (scan_tokens fuel) (sym e)
    ∙ (scan_tokens-lem fuel ss last hs k less
        ∙ (sym (scan_tokens-lem (suc (length (cmdline_text ss last))) ss last hs k (omega arith))
            ∙ ap (λ bytes. scan_tokens (suc (length bytes)) bytes) e))

-- The scanner finds the strings of a command line in their order, and what stands behind the last
-- null character, if anything does.
pub scan_all-cmdline_text :
    (ss : List (List ℕ)) (last : List ℕ)
    → All (Lacks 0) ss
    → Lacks 0 last
    → scan_all (cmdline_text ss last) ≡ ss ++ last_token last
unfolding scan_all
scan_all-cmdline_text ss last h k =
    scan_tokens-lem (suc (length (cmdline_text ss last))) ss last h k (omega arith)
