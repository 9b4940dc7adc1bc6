-- ===== src/Proc/Options/Setting.antt =====
-- What `Set` does to the list of options, and reading back what `String` wrote.
use example_docker_volume_pl.Common.{
  ℕ, ◌≡◌, ◌≢◌, refl, Bool, true, false, ◌&&◌, ◌||◌, some, List, [], ◌∷◌, ◌++◌, if◌then◌else◌, ok,
  arith, All, ap, sym, ◌∙◌, append_assoc, append-nil, Bool-cases, inl, inr,
}
use example_docker_volume_pl.Common.Text.{
  Str, str_eq, str_eq_iff, str_eq_sym, str_eq_ne, trim_space, split, join, contains,
}
use example_docker_volume_pl.Common.Text.Trim.{IsTrim-trim_space}
use example_docker_volume_pl.Utils.Parts.{
  parts, IsText, join-ne-nil, join-IsTrim, parts-join, parts-IsText,
}
use example_docker_volume_pl.Proc.Options.{
  Options, new_options, append_options, option_texts, set_options, slice, options_string,
}

contains-append :
    (os ps : List Str) (s : Str) → contains (os ++ ps) s ≡ (contains os s || contains ps s)
unfolding contains
contains-append [] ps s = refl
contains-append (o ∷ os) ps s = ground (arith, contains-append os ps s)

-- No option stands twice.
abbrev pub IsDistinct : List Str → Type 0
IsDistinct [] = Unit {0}
IsDistinct (o ∷ os) = (contains os o ≡ false) × IsDistinct os

concat-IsDistinct :
    (os : List Str) (s : Str) → IsDistinct os → contains os s ≡ false → IsDistinct (os ++ s ∷ [])
unfolding contains
concat-IsDistinct [] s h e = (refl, tt)
concat-IsDistinct (o ∷ os) s h e = ground (
  arith,
  concat-IsDistinct os s h.1,
  contains-append os (s ∷ []) o,
  str_eq_sym o s,
  str_eq_iff o s,
)

append_options-IsDistinct :
    (ts os : List Str) → IsDistinct os → IsDistinct (append_options true ts os)
unfolding append_options
append_options-IsDistinct [] os h = h
append_options-IsDistinct (t ∷ ts) os h = elim (Bool-cases (contains os (trim_space t))) [
  | inl e ↦ rw (e, append_options) (append_options-IsDistinct ts os h)
  | inr e ↦
      rw (e, append_options)
        (append_options-IsDistinct ts (os ++ trim_space t ∷ [])
          (concat-IsDistinct os (trim_space t) h e))
]

-- Nothing is taken away and the old options stay in front.
append_options-prefix :
    (trim : Bool) (ts os : List Str)
    → (added : List Str) × (append_options trim ts os ≡ os ++ added)
unfolding append_options
append_options-prefix trim [] os = ([], sym (append-nil os))
append_options-prefix trim (t ∷ ts) os =
    let option = if trim then trim_space t else t in
    elim (Bool-cases (trim && contains os option)) [
      | inl e ↦ rw (e, append_options) (append_options-prefix trim ts os)
      | inr e ↦
          let (added, path) = append_options-prefix trim ts (os ++ option ∷ []) in
          (option ∷ added, rw (e, append_options) (path ∙ append_assoc os (option ∷ []) added))
    ]

contains-append_options :
    (b : ℕ) (ts os : List Str) (s : Str)
    → All (IsText b) ts
    → contains (append_options true ts os) s ≡ (contains os s || contains ts s)
unfolding append_options contains
contains-append_options b [] os s h = ground arith
contains-append_options b (t ∷ ts) os s (ht, hts) = elim (Bool-cases (contains os t)) [
  | inl e ↦
      rw (IsTrim-trim_space t ht.0, e, contains-append_options b ts os s hts)
        (ground (arith, str_eq_iff t s, ap (contains os)))
  | inr e ↦
      rw
        (
          IsTrim-trim_space t ht.0,
          e,
          contains-append_options b ts (os ++ t ∷ []) s hts,
          contains-append os (t ∷ []) s,
        )
        (ground arith)
]

IsDistinct-middle :
    (os : List Str) (t : Str) (ts : List Str) → IsDistinct (os ++ t ∷ ts) → contains os t ≡ false
unfolding contains
IsDistinct-middle [] t ts d = refl
IsDistinct-middle (o ∷ os) t ts d =
    ground (arith, contains-append os (t ∷ ts) o, IsDistinct-middle os t ts d.1, str_eq_sym o t)

append_options-distinct :
    (b : ℕ) (ts os : List Str)
    → All (IsText b) ts
    → IsDistinct (os ++ ts)
    → append_options true ts os ≡ os ++ ts
unfolding append_options
append_options-distinct b [] os h d = sym (append-nil os)
append_options-distinct b (t ∷ ts) os (ht, hts) d =
    rw (IsTrim-trim_space t ht.0, IsDistinct-middle os t ts d)
      (append_options-distinct b ts (os ++ t ∷ []) hts (rw append_assoc d)
        ∙ append_assoc os (t ∷ []) ts)

-- The options that a `Set` that succeeds leaves.
set_options-result :
    (o : Options) {o' : Options} (os : List Str) (value : Str)
    → o.options ≡ some os
    → set_options o value ≡ ok o'
    → let value' = if o.trim then trim_space value else value in
      (o'.separator ≡ o.separator)
      × (o'.trim ≡ o.trim)
      × (slice o' ≡ append_options o.trim (option_texts o.trim value' o.separator) os)
unfolding set_options
set_options-result o os value ho e = ground arith

-- On options that trim, without a duplicate: after a `Set` that succeeds none stands twice, and an
-- option is there exactly if it was there or is one of the text.
pub set_options-trim :
    (o : Options) {o' : Options} (b : ℕ) (os : List Str) (value s : Str)
    → o.trim ≡ true
    → o.separator ≡ b ∷ []
    → o.options ≡ some os
    → IsDistinct os
    → set_options o value ≡ ok o'
    → IsDistinct (slice o')
      × (contains (slice o') s
          ≡ (contains os s || contains (option_texts true (trim_space value) o.separator) s))
unfolding option_texts
set_options-trim o b os value s ht hs ho d e =
    let (_, _, result) = set_options-result o os value ho e in
    let texts = parts-IsText b (trim_space value) in
    rw (result, ht, hs)
      (
        append_options-IsDistinct (parts (trim_space value) (b ∷ [])) os d,
        contains-append_options b (parts (trim_space value) (b ∷ [])) os s texts,
      )

-- A `Set` that succeeds is additive: the options that were there stay in front, in their order, and
-- the separator and the mode stay.
pub set_options-additive :
    (o : Options) {o' : Options} (os : List Str) (value : Str)
    → o.options ≡ some os
    → set_options o value ≡ ok o'
    → (o'.separator ≡ o.separator)
      × (o'.trim ≡ o.trim)
      × ((added : List Str) × (slice o' ≡ os ++ added))
set_options-additive o os value ho e =
    let (separator, trim, result) = set_options-result o os value ho e in
    let texts = option_texts o.trim (if o.trim then trim_space value else value) o.separator in
    (separator, trim, rw result (append_options-prefix o.trim texts os))

append_options-untrimmed : (ts os : List Str) → append_options false ts os ≡ os ++ ts
unfolding append_options
append_options-untrimmed [] os = sym (append-nil os)
append_options-untrimmed (t ∷ ts) os =
    append_options-untrimmed ts (os ++ t ∷ []) ∙ append_assoc os (t ∷ []) ts

-- Without trimming, the parts of the text come behind the old options as they are, empty ones and
-- duplicates too.
pub set_options-untrimmed :
    (o : Options) {o' : Options} (os : List Str) (value : Str)
    → o.trim ≡ false
    → o.options ≡ some os
    → set_options o value ≡ ok o'
    → slice o' ≡ os ++ split value o.separator
unfolding option_texts
set_options-untrimmed o os value ht ho e =
    let (_, _, result) = set_options-result o os value ho e in
    rw (result, ht) (append_options-untrimmed (split value o.separator) os)

-- `NewOptions` never leaves the separator empty.
pub new_options-separator :
    (separator : Str) (trim : Bool) → (new_options separator trim).separator ≢ []
unfolding new_options
new_options-separator separator trim =
    ground (arith, str_eq_iff (if trim then trim_space separator else separator) [])

-- Options that trim, over a separator of one character.
abbrev pub trimming : ℕ → List Str → Options
trimming b os = record { options = some os; separator = b ∷ []; trim = true }

set_options-trimming :
    (b : ℕ) (value : Str)
    → str_eq (trim_space value) [] ≡ false
    → set_options (trimming b []) value
      ≡ ok (trimming b (append_options true (parts (trim_space value) (b ∷ [])) []))
unfolding set_options option_texts
set_options-trimming b value h = rw h

-- Options that trim are read back from their text by new ones: options that are trimmed, not empty,
-- without the separator, of one character, and without a duplicate, at least one.
pub set_options-options_string_again :
    (b : ℕ) (os : List Str)
    → os ≢ []
    → All (IsText b) os
    → IsDistinct os
    → set_options (trimming b []) (options_string (trimming b os)) ≡ ok (trimming b os)
unfolding options_string
set_options-options_string_again b [] ne h d = absurd (ne refl)
set_options-options_string_again b (s ∷ os) ne h d =
    let text = join (s ∷ os) (b ∷ []) in
    let trimmed = IsTrim-trim_space text (join-IsTrim b s os h) in
    rw (
      set_options-trimming b text (rw trimmed (str_eq_ne text [] (join-ne-nil b s os h))),
      trimmed,
      parts-join b (s ∷ os) ne h,
      append_options-distinct b (s ∷ os) [] h d,
    )
