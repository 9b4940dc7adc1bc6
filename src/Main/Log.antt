-- ===== src/Main/Log.antt =====
-- src/main.go, the attributes of log messages: `replaceAttr`, and the variable `lastLogLevel` as a
-- state. A level of `log/slog` is an `int`, here its bit pattern.
use example_docker_volume_pl.Common.{
  ℕ, ◌-◌, ◌^◌, ◌≡◌, refl, ap, Bool, false, not, Option, none, some, List, [], ◌∷◌, ◌==◌,
  if◌then◌else◌, arith,
}
use example_docker_volume_pl.Common.Text.{Str, codes, str_eq}
use example_docker_volume_pl.Utils.{where_true}

abbrev pub level_debug : ℕ
level_debug = 2 ^ 64 - 4

-- The value of `DEFAULT_LOG_LEVEL`, too.
abbrev pub level_info : ℕ
level_info = 0

abbrev pub level_warn : ℕ
level_warn = 4

abbrev pub level_error : ℕ
level_error = 8

-- `logLevelKeys`
abbrev pub log_level_keys : ℕ → Option Str
log_level_keys level =
    if level == level_debug
    then some (codes "dbg")
    else if level == level_info
    then some (codes "inf")
    else if level == level_warn
    then some (codes "wrn")
    else if level == level_error
    then some (codes "err")
    else none

-- The key, or "unk" for a level that has none.
abbrev pub level_key : ℕ → Str
level_key level = elim (log_level_keys level) [ none ↦ codes "unk" | some key ↦ key ]

-- What a value holds: nothing, a level, or something else.
pub data Value {ℓ} (V : Type ℓ) : Type ℓ where
  nothing : Value V
  level : ℕ → Value V
  other : V → Value V

pub record Attr {ℓ} (V : Type ℓ) : Type ℓ where
  pub key : Str
  pub value : Value V

module _ {ℓ} {V : Type ℓ} where
  -- `slog.Attr{}`
  abbrev pub empty_attr : Attr V
  empty_attr = record { key = []; value = nothing }

  abbrev pub level_or : ℕ → Value V → ℕ
  level_or last nothing = last
  level_or last (level l) = l
  level_or last (other v) = last

  -- `replaceAttr`, from the value of `lastLogLevel` to the next one. It does not read the groups.
  unfoldable pub replace_attr : Attr V → ℕ → Attr V × ℕ
  replace_attr a last =
      if str_eq a.key (codes "time")
      then (empty_attr, last)
      else if str_eq a.key (codes "level")
      then (empty_attr, level_or last a.value)
      else if str_eq a.key (codes "msg")
      then (record { key = level_key last; value = a.value }, level_info)
      else (a, last)

  -- The attributes of a message, one after the other.
  unfoldable pub replace_attrs : List (Attr V) → ℕ → List (Attr V) × ℕ
  unfolding replace_attr
  replace_attrs [] last = ([], last)
  replace_attrs (a ∷ attrs) last =
      let (b, next) = replace_attr a last in
      let (rest, end) = replace_attrs attrs next in (b ∷ rest, end)

  abbrev pub is_empty : Attr V → Bool
  is_empty a = elim a.value [ nothing ↦ str_eq a.key [] | level l ↦ false | other v ↦ false ]

  -- What the log shows: the package leaves out the attributes that are empty.
  unfoldable pub shown : List (Attr V) → List (Attr V)
  shown attrs = where_true attrs (λ a. not (is_empty a))

  -- What the package hands over for a message.
  abbrev pub message_attrs : Value V → ℕ → Value V → List (Attr V) → List (Attr V)
  message_attrs time l text attrs =
      record { key = codes "time"; value = time }
      ∷ record { key = codes "level"; value = level l }
      ∷ record { key = codes "msg"; value = text }
      ∷ attrs

  -- The keys of the package.
  abbrev pub IsOwn : Attr V → Type 0
  IsOwn a =
      (str_eq a.key (codes "time") ≡ false)
      × (str_eq a.key (codes "level") ≡ false)
      × (str_eq a.key (codes "msg") ≡ false)

  abbrev pub AllOwn : List (Attr V) → Type 0
  AllOwn [] = Unit {0}
  AllOwn (a ∷ attrs) = IsOwn a × AllOwn attrs

  replace_attr-own : (a : Attr V) (last : ℕ) → IsOwn a → replace_attr a last ≡ (a, last)
  unfolding replace_attr
  replace_attr-own a last (t, l, m) = ground (arith)

  pub replace_attrs-own :
      (attrs : List (Attr V)) (last : ℕ) → AllOwn attrs → replace_attrs attrs last ≡ (attrs, last)
  unfolding replace_attrs
  replace_attrs-own [] last h = refl
  replace_attrs-own (a ∷ attrs) last (h, hs) =
      rw (replace_attr-own a last h, replace_attrs-own attrs last hs) refl

  -- A message with its time, its level, its text and attributes of the caller's own: the text stands
  -- first, under the key of the level, the time and the level are gone, and the attributes are as
  -- they were. The level of one message has no effect on the next.
  pub replace_attrs-message :
      (time : Value V) (l : ℕ) (text : Value V) (attrs : List (Attr V)) (last : ℕ)
      → AllOwn attrs
      → (shown (replace_attrs (message_attrs time l text attrs) last).0
          ≡ shown (record { key = level_key l; value = text } ∷ attrs))
        × ((replace_attrs (message_attrs time l text attrs) last).1 ≡ level_info)
  unfolding replace_attrs shown str_eq
  replace_attrs-message time l text attrs last h = (
    ap (λ (r : List (Attr V) × ℕ). shown (record { key = level_key l; value = text } ∷ r.0))
        (replace_attrs-own attrs level_info h),
    ap (λ (r : List (Attr V) × ℕ). r.1) (replace_attrs-own attrs level_info h),
  )
