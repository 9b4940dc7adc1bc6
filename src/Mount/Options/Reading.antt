-- ===== src/Mount/Options/Reading.antt =====
-- Reading back what `String` wrote.
use example_docker_volume_pl.Common.{
  ◌≡◌, ◌≢◌, refl, false, none, some, List, [], ◌∷◌, ◌++◌, map, append-nil, append_assoc, arith, ok,
  ap, sym, ◌∙◌, ◌⊎◌, inl, inr, Bool-cases, All, All-append, append-ne-nil,
}
use example_docker_volume_pl.Common.Text.{
  Str, str_eq, str_eq_iff, str_eq_sym, str_eq_sound, str_eq_ne, Lacks, IsTrim,
}
use example_docker_volume_pl.Common.Text.Trim.{IsTrim-trim_space, append-IsTrim}
use example_docker_volume_pl.Utils.Parts.{IsText, join-ne-nil, join-IsTrim, parts-join}
use example_docker_volume_pl.Common.Text.Split.{split_two-part, split_two-part_sep}
use example_docker_volume_pl.Mount.Options.{
  MountOption, index_of, apply_option, apply_options, parse_option, option_texts, set_options,
  deletion_mark, option_string, options_string,
}
use example_docker_volume_pl.Mount.Options.Keys.{Absent, IsKeyed}

-- An option that its text determines: it is not empty, its key and value have no white space at
-- their ends and no separator in them, and it is no deletion.
pub record IsPrintable (o : MountOption) : Type 0 where
  pub trimmed_key : IsTrim o.key
  pub trimmed_value : IsTrim o.value
  pub key_present : o.key ≢ []
  pub key_no_equals : Lacks b'=' o.key
  pub key_no_comma : Lacks b',' o.key
  pub value_no_comma : Lacks b',' o.value
  pub not_deletion : str_eq o.value deletion_mark ≡ false

-- The text of an option: its key alone if there is no value.
option_string-cases :
    (o : MountOption)
    → ((o.value ≡ []) × (option_string o ≡ o.key))
      ⊎ ((o.value ≢ []) × (option_string o ≡ o.key ++ (b'=' ∷ [] ++ o.value)))
unfolding option_string
option_string-cases o = elim (Bool-cases (str_eq o.value [])) [
  | inl e ↦ inl (str_eq_sound o.value [] e, rw e)
  | inr e ↦ inr ((λ v. ground (arith, str_eq_iff o.value [])), rw e)
]

-- An option is read back from its text.
pub parse_option-option_string :
    (o : MountOption) → IsPrintable o → parse_option (option_string o) ≡ o
unfolding parse_option
parse_option-option_string o h = elim (option_string-cases o) [
  | inl (v, e) ↦ ground (
    arith,
    e,
    v,
    split_two-part b'=' o.key h.key_no_equals,
    IsTrim-trim_space o.key h.trimmed_key,
  )
  | inr (v, e) ↦ ground (
    arith,
    e,
    split_two-part_sep b'=' o.key o.value h.key_no_equals,
    IsTrim-trim_space o.key h.trimmed_key,
    IsTrim-trim_space o.value h.trimmed_value,
  )
]

option_string-IsTrim : (o : MountOption) → IsPrintable o → IsTrim (option_string o)
option_string-IsTrim o h = elim (option_string-cases o) [
  | inl (v, e) ↦ rw e h.trimmed_key
  | inr (v, e) ↦
      rw e (append-IsTrim o.key (b'=' ∷ []) o.value h.key_present v h.trimmed_key h.trimmed_value)
]

option_string-Lacks : (o : MountOption) → IsPrintable o → Lacks b',' (option_string o)
option_string-Lacks o h = elim (option_string-cases o) [
  | inl (v, e) ↦ rw e h.key_no_comma
  | inr (v, e) ↦ rw e (
      All-append (λ c. c ≢ b',') o.key (b'=' ∷ [] ++ o.value) h.key_no_comma
        (omega arith, h.value_no_comma))
]

option_string-ne-nil : (o : MountOption) → IsPrintable o → option_string o ≢ []
option_string-ne-nil o h = elim (option_string-cases o) [
  | inl (v, e) ↦ rw e h.key_present
  | inr (v, e) ↦ rw e (append-ne-nil o.key (b'=' ∷ o.value) h.key_present)
]

IsText-option_string : (o : MountOption) → IsPrintable o → IsText b',' (option_string o)
IsText-option_string o h =
    (option_string-IsTrim o h, option_string-ne-nil o h, option_string-Lacks o h)

-- No option of the second list has a key of the first.
abbrev pub Apart : List MountOption → List MountOption → Type 0
Apart os [] = Unit {0}
Apart os (p ∷ ps) = Absent p.key os × Apart os ps

-- A new key goes to the end.
write_found-Absent :
    (opt : MountOption) (os : List MountOption) → Absent opt.key os → index_of opt.key os ≡ none
unfolding index_of
write_found-Absent opt [] h = refl
write_found-Absent opt (o ∷ os) h = ground (arith, write_found-Absent opt os)

Absent-append :
    (k : Str) (p : MountOption) (os : List MountOption)
    → str_eq p.key k ≡ false
    → Absent k os
    → Absent k (os ++ p ∷ [])
Absent-append k p [] e h = (e, tt)
Absent-append k p (o ∷ os) e h = (h.0, Absent-append k p os e h.1)

Apart-step :
    (p : MountOption) (os ps : List MountOption)
    → Absent p.key ps
    → Apart os ps
    → Apart (os ++ p ∷ []) ps
Apart-step p os [] a h = tt
Apart-step p os (q ∷ ps) a h =
    (Absent-append q.key p os (rw str_eq_sym a.0) h.0, Apart-step p os ps a.1 h.1)

apply_option-text :
    (p : MountOption) (os : List MountOption)
    → IsPrintable p
    → Absent p.key os
    → apply_option (parse_option (option_string p)) os ≡ os ++ p ∷ []
unfolding apply_option
apply_option-text p os h a =
    rw (parse_option-option_string p h, h.not_deletion, write_found-Absent p os a)

apply_options-texts :
    (ps os : List MountOption)
    → All IsPrintable ps
    → IsKeyed ps
    → Apart os ps
    → apply_options (map option_string ps) os ≡ os ++ ps
unfolding apply_options apply_option
apply_options-texts [] os h k a = sym (append-nil os)
apply_options-texts (p ∷ ps) os (hp, hps) k a =
    ap (apply_options (map option_string ps)) (apply_option-text p os hp a.0)
    ∙ apply_options-texts ps (os ++ p ∷ []) hps k.1 (Apart-step p os ps k.0 a.1)
    ∙ append_assoc os (p ∷ []) ps

All-IsText : (os : List MountOption) → All IsPrintable os → All (IsText b',') (map option_string os)
All-IsText [] h = tt
All-IsText (o ∷ os) (h, hs) = (IsText-option_string o h, All-IsText os hs)

Apart-nil : (ps : List MountOption) → Apart [] ps
Apart-nil [] = tt
Apart-nil (p ∷ ps) = (tt, Apart-nil ps)

-- Options that are printable and have no key twice, at least one, are read back from their text by
-- a new `Options`.
pub set_options-options_string :
    (os : List MountOption)
    → os ≢ []
    → All IsPrintable os
    → IsKeyed os
    → set_options (some []) (options_string (some os)) ≡ ok os
unfolding set_options options_string option_texts
set_options-options_string [] ne h k = absurd (ne refl)
set_options-options_string (o ∷ os) ne h k =
    let ts = map option_string os in
    let texts = All-IsText (o ∷ os) h in
    rw (
      IsTrim-trim_space _ (join-IsTrim b',' (option_string o) ts texts),
      str_eq_ne _ [] (join-ne-nil b',' (option_string o) ts texts),
      option_texts,
      parts-join b',' (option_string o ∷ ts) (λ e. cc) texts,
      apply_options-texts (o ∷ os) [] h k (Apart-nil (o ∷ os)),
    )
