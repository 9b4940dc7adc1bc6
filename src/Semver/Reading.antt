-- ===== src/Semver/Reading.antt =====
-- `Parse` reads versions back, and what it makes of texts that are none.
use example_docker_volume_pl.Common.{
  ℕ, suc, ◌^◌, ◌<◌, ◌≡◌, ◌≢◌, refl, sym, ◌∙◌, Option, none, some, List, [], ◌∷◌, ◌++◌, map, arith,
  ok, All, All-append, append-nil,
}
use example_docker_volume_pl.Common.Text.{Str, codes, split, split_two, join, Lacks}
use example_docker_volume_pl.Common.Text.Split.{split-join, split_two-part, split_two-part_sep}
use example_docker_volume_pl.Common.Number.{parse_uint, decimal}
use example_docker_volume_pl.Common.Number.Decimal.{parse_uint-decimal, decimal-Lacks}
use example_docker_volume_pl.Utils.Numbers.{
  Any, text, unsigned, signed, other, word, w8, w16, w32, w64,
}
use example_docker_volume_pl.Semver.{
  VersionInfo, identifier, identifiers, optional_identifiers, parse_numbers, parse, set_number,
}

-- The text of an identifier.
abbrev pub identifier_text : Any → Str
identifier_text (text s) = s
identifier_text (unsigned w n) = decimal n
identifier_text (signed w n) = decimal n
identifier_text (other s) = s

-- What `Parse` makes: numbers of 64 bits, and texts that are no such numbers and hold no dot.
abbrev pub IsIdentifier : Any → Type 0
IsIdentifier (text s) = (parse_uint 10 64 s ≡ none) × Lacks b'.' s
IsIdentifier (unsigned w64 n) = n < 2 ^ 64
IsIdentifier (unsigned word n) = ⊥
IsIdentifier (unsigned w8 n) = ⊥
IsIdentifier (unsigned w16 n) = ⊥
IsIdentifier (unsigned w32 n) = ⊥
IsIdentifier (signed w n) = ⊥
IsIdentifier (other s) = ⊥

abbrev pub identifiers_text : List Any → Option Str
identifiers_text [] = none
identifiers_text (a ∷ as') = some (join (map identifier_text (a ∷ as')) (codes "."))

abbrev pub suffix : ℕ → Option Str → Str
suffix c none = []
suffix c (some s) = c ∷ s

abbrev pub numbers_text : VersionInfo → List Str
numbers_text v = decimal v.major ∷ decimal v.minor ∷ decimal v.patch ∷ []

-- The text of a version: its three numbers, the pre-release behind `-` and the build behind `+`.
abbrev pub version_text : VersionInfo → Str
version_text v =
    (join (numbers_text v) (codes ".") ++ suffix b'-' (identifiers_text v.pre_release))
    ++ suffix b'+' (identifiers_text v.build)

-- The numbers fit their types, and no text of the pre-release holds the mark of the build.
abbrev pub IsVersion : VersionInfo → Type 0
IsVersion v =
    (v.major < 2 ^ 64)
    × (v.minor < 2 ^ 64)
    × (v.patch < 2 ^ 64)
    × All IsIdentifier v.pre_release
    × All (λ a. Lacks b'+' (identifier_text a)) v.pre_release
    × All IsIdentifier v.build

identifier_lem : (a : Any) → IsIdentifier a → identifier (identifier_text a) ≡ a
identifier_lem (text s) (h, _) = rw (h, identifier) refl
identifier_lem (unsigned w64 n) h = rw (parse_uint-decimal 64 n h, identifier) refl
identifier_lem (unsigned word n) h = elim h [ ]
identifier_lem (unsigned w8 n) h = elim h [ ]
identifier_lem (unsigned w16 n) h = elim h [ ]
identifier_lem (unsigned w32 n) h = elim h [ ]
identifier_lem (signed w n) h = elim h [ ]
identifier_lem (other s) h = elim h [ ]

identifiers_lem :
    (as' : List Any) → All IsIdentifier as' → identifiers (map identifier_text as') ≡ as'
identifiers_lem [] h = refl
identifiers_lem (a ∷ as') (h, hs) = rw (identifier_lem a h, identifiers_lem as' hs)

identifier_text-Lacks : (a : Any) → IsIdentifier a → Lacks b'.' (identifier_text a)
identifier_text-Lacks (text s) (_, h) = h
identifier_text-Lacks (unsigned w n) h = decimal-Lacks b'.' n (omega arith)
identifier_text-Lacks (signed w n) h = elim h [ ]
identifier_text-Lacks (other s) h = elim h [ ]

texts-Lacks :
    (b : ℕ) (as' : List Any)
    → All (λ a. Lacks b (identifier_text a)) as'
    → All (Lacks b) (map identifier_text as')
texts-Lacks b [] h = tt
texts-Lacks b (a ∷ as') (h, hs) = (h, texts-Lacks b as' hs)

dots-Lacks : (as' : List Any) → All IsIdentifier as' → All (Lacks b'.') (map identifier_text as')
dots-Lacks [] h = tt
dots-Lacks (a ∷ as') (h, hs) = (identifier_text-Lacks a h, dots-Lacks as' hs)

-- Identifiers are read back from their text.
optional_identifiers_lem :
    (as' : List Any) → All IsIdentifier as' → optional_identifiers (identifiers_text as') ≡ as'
optional_identifiers_lem [] h = refl
optional_identifiers_lem (a ∷ as') h =
    rw (split-join b'.' (map identifier_text (a ∷ as')) (λ e. cc) (dots-Lacks (a ∷ as') h))
      (identifiers_lem (a ∷ as') h)

-- What follows the first separator, if the part before it holds none.
split_two-suffix :
    (b : ℕ) (p : Str) (o : Option Str) → Lacks b p → split_two b (p ++ suffix b o) ≡ (p, o)
split_two-suffix b p none h = rw (append-nil) (split_two-part b p h)
split_two-suffix b p (some s) h = split_two-part_sep b p s h

join-Lacks : (b : ℕ) (ps : List Str) → b ≢ b'.' → All (Lacks b) ps → Lacks b (join ps (codes "."))
unfolding join
join-Lacks b [] ne h = tt
join-Lacks b (p ∷ []) ne (h, _) = h
join-Lacks b (p ∷ q ∷ ps) ne (h, hs) =
    All-append (λ c. c ≢ b) p (b'.' ∷ join (q ∷ ps) (codes ".")) h
      (λ e. ne (sym e), join-Lacks b (q ∷ ps) ne hs)

numbers-Lacks : (b : ℕ) (v : VersionInfo) → b < b'0' → All (Lacks b) (numbers_text v)
numbers-Lacks b v h =
    (decimal-Lacks b v.major h, (decimal-Lacks b v.minor h, (decimal-Lacks b v.patch h, tt)))

suffix-Lacks :
    (b c : ℕ) (as' : List Any)
    → b ≢ b'.'
    → c ≢ b
    → All (λ a. Lacks b (identifier_text a)) as'
    → Lacks b (suffix c (identifiers_text as'))
suffix-Lacks b c [] ne nc h = tt
suffix-Lacks b c (a ∷ as') ne nc h =
    (nc, join-Lacks b (map identifier_text (a ∷ as')) ne (texts-Lacks b (a ∷ as') h))

parse_numbers-step :
    (core e : Str) (i n : ℕ) (es : List Str) (r r' : VersionInfo)
    → parse_uint 10 64 e ≡ some n
    → set_number i n r ≡ some r'
    → parse_numbers core i (e ∷ es) r ≡ parse_numbers core (suc i) es r'
unfolding parse_numbers
parse_numbers-step core e i n es r r' h k = ground (arith, h, k)

-- The numbers of a version are read in their places.
parse_numbers_lem :
    (core : Str) (v r : VersionInfo)
    → v.major < 2 ^ 64
    → v.minor < 2 ^ 64
    → v.patch < 2 ^ 64
    → parse_numbers core 0 (numbers_text v) r
      ≡ ok (record r { major = v.major; minor = v.minor; patch = v.patch })
unfolding parse_numbers
parse_numbers_lem core v r h1 h2 h3 =
    let r1 = record r { major = v.major } in
    let r2 = record r1 { minor = v.minor } in
    let r3 = record r2 { patch = v.patch } in
    let es = decimal v.patch ∷ [] in
    parse_numbers-step core (decimal v.major) 0 v.major (decimal v.minor ∷ es) r r1
      (parse_uint-decimal 64 v.major h1) refl
    ∙ parse_numbers-step core (decimal v.minor) 1 v.minor es r1 r2
        (parse_uint-decimal 64 v.minor h2) refl
    ∙ parse_numbers-step core (decimal v.patch) 2 v.patch [] r2 r3
        (parse_uint-decimal 64 v.patch h3) refl

-- `Parse` in terms of the parts that the separators cut off.
parse_parts :
    (v core rest : Str) (pre build : Option Str)
    → split_two b'+' v ≡ (rest, build)
    → split_two b'-' rest ≡ (core, pre)
    → parse v
      ≡ parse_numbers core 0 (split core (codes ".")) (record {
        major = 0;
        minor = 0;
        patch = 0;
        pre_release = optional_identifiers pre;
        build = optional_identifiers build;
      })
unfolding parse
parse_parts v core rest pre build e f = rw (e, f) refl

-- `Parse` reads a version back from its text.
pub parse-version_text : (v : VersionInfo) → IsVersion v → parse (version_text v) ≡ ok v
parse-version_text v (h1, h2, h3, hp, hl, hb) =
    let core = join (numbers_text v) (codes ".") in
    let front = core ++ suffix b'-' (identifiers_text v.pre_release) in
    let lacks =
      All-append (λ c. c ≢ b'+') core (suffix b'-' (identifiers_text v.pre_release))
        (join-Lacks b'+' (numbers_text v) (λ e. omega arith) (numbers-Lacks b'+' v (omega arith)))
        (suffix-Lacks b'+' b'-' v.pre_release (λ e. omega arith) (λ e. omega arith) hl) in
    rw
      (
        parse_parts (version_text v) core front (identifiers_text v.pre_release)
            (identifiers_text v.build)
            (split_two-suffix b'+' front (identifiers_text v.build) lacks)
            (split_two-suffix b'-' core (identifiers_text v.pre_release) (
              join-Lacks b'-' (numbers_text v) (λ e. omega arith)
                (numbers-Lacks b'-' v (omega arith)))),
        split-join b'.' (numbers_text v) (λ e. cc) (numbers-Lacks b'.' v (omega arith)),
        optional_identifiers_lem v.pre_release hp,
        optional_identifiers_lem v.build hb,
      )
      (parse_numbers_lem core v _ h1 h2 h3)
