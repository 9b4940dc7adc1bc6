-- ===== src/Utils.antt =====
-- src/utils/utils.go: slices, hexadecimal texts, byte strings and access rights.
pub mod Parts
pub mod Numbers
pub mod Scanning
pub mod Channels
pub mod Hashes
use Prim.Native.Nat.{bit_and, bit_or}
use example_docker_volume_pl.Common.{
  ℕ, zero, suc, ◌+◌, ◌-◌, ◌/◌, ◌^◌, ◌≡◌, refl, Bool, true, false, not, Option, none, some, List, [],
  ◌∷◌, ◌++◌, arith, ◌==◌, if◌then◌else◌, length, take, drop, Outcome, ok, err,
}
use example_docker_volume_pl.Common.Text.{Str}
use example_docker_volume_pl.Common.Number.{parse_uint}
use mathlib.Core.List.{reverse}

module _ {ℓ} {A : Type ℓ} where
  -- `Select`
  abbrev pub select : List A → (A → A) → List A
  select [] action = []
  select (x ∷ xs) action = action x ∷ select xs action

  -- `Where`
  abbrev pub where_true : List A → (A → Bool) → List A
  where_true [] action = []
  where_true (x ∷ xs) action = if action x then x ∷ where_true xs action else where_true xs action

-- What goes wrong in this package.
pub data Error : Type 0 where
  invalid_digits : Str → Error
  bad_user : Error
  no_groups : Error
  not_met : ℕ → ℕ → Error

-- The loop of `Atob`. The number is what is left of the text, `i + 2` in the source.
unfoldable pub atob_loop : Str → ℕ → List ℕ → Outcome Error (List ℕ)
atob_loop s zero bytes = ok bytes
atob_loop s (suc zero) bytes =
    let bytestr = take 1 s in
    elim (parse_uint 16 8 bytestr) [
      | none ↦ err (invalid_digits bytestr)
      | some ubyte ↦ ok (bytes ++ ubyte ∷ [])
    ]
atob_loop s (suc (suc k)) bytes =
    let bytestr = take 2 (drop k s) in
    elim (parse_uint 16 8 bytestr) [
      | none ↦ err (invalid_digits bytestr)
      | some ubyte ↦ atob_loop s k (bytes ++ ubyte ∷ [])
    ]

abbrev pub reversed : Outcome Error (List ℕ) → Outcome Error (List ℕ)
reversed (ok bytes) = ok (reverse bytes)
reversed (err e) = err e
reversed Outcome.panic = Outcome.panic

-- `Atob`
unfoldable pub atob : Str → Outcome Error (List ℕ)
unfolding atob_loop
atob s = reversed (atob_loop s (length s) [])

-- `Int8ToStr` on the bit patterns of the numbers.
unfoldable pub int8_to_str : List ℕ → Str
int8_to_str [] = []
int8_to_str (v ∷ slice) = if v == 0 then [] else v ∷ int8_to_str slice

-- `ScanStrings` in the middle of the input: the number of bytes read and the token, if there is a
-- null character. The number counts the bytes that have been looked at.
find_null : List ℕ → Option (ℕ × List ℕ)
find_null [] = none
find_null (v ∷ rest) =
    let later = find_null rest in
    if v == 0
    then some (1, [])
    else elim later [ none ↦ none | some (i, token) ↦ some (i + 1, v ∷ token) ]

-- `ScanStrings`; it never fails, and `none` is a token that is nil.
unfoldable pub scan_strings : List ℕ → Bool → ℕ × Option (List ℕ)
unfolding find_null
scan_strings [] true = (0, none)
scan_strings (c ∷ bytes) true = (length (c ∷ bytes), some (c ∷ bytes))
scan_strings bytes false = elim (find_null bytes) [
  | none ↦ (0, none)
  | some (i, token) ↦ (i, some token)
]

-- A `bufio.Scanner` over the whole input, with `ScanStrings`: it asks again with `atEOF` where the
-- input that is left gives no token. The limit on a token's length is not modelled.
pub scan_tokens : ℕ → List ℕ → List (List ℕ)
scan_tokens zero bytes = []
scan_tokens (suc fuel) bytes = elim (scan_strings bytes false).1 [
  | some token ↦ token ∷ scan_tokens fuel (drop (scan_strings bytes false).0 bytes)
  | none ↦ elim (scan_strings bytes true).1 [ none ↦ [] | some token ↦ token ∷ [] ]
]

-- Each token takes at least a byte, so the input's length is fuel enough.
unfoldable pub scan_all : List ℕ → List (List ℕ)
unfolding scan_tokens
scan_all bytes = scan_tokens (suc (length bytes)) bytes

-- The part of `os.FileInfo` that `checkAccess` reads.
pub record FileInfo : Type 0 where
  pub mode : ℕ
  pub owner : ℕ
  pub group : ℕ

-- A user's identity is text in the source; `GroupIds` may fail.
pub record User : Type 0 where
  pub uid : Str
  pub group_ids : Option (List Str)

-- The rights of the group, if the file's group is among the user's.
group_rights : ℕ → ℕ → List Str → ℕ → Outcome Error ℕ
group_rights group mod' [] act = ok act
group_rights group mod' (g ∷ gids) act = elim (parse_uint 10 32 g) [
  | none ↦ err (invalid_digits g)
  | some gid ↦
      if group == gid
      then ok (bit_or act (bit_and mod' 0o70 / 2 ^ 3))
      else group_rights group mod' gids act
]

-- The last comparison of `checkAccess`.
met : ℕ → Outcome Error ℕ → Outcome Error (Unit {0})
met exp (ok act) = if bit_and act exp == exp then ok tt else err (not_met exp act)
met exp (err e) = err e
met exp Outcome.panic = Outcome.panic

-- `checkAccess` on a file of Unix.
unfoldable pub check_access : User → ℕ → FileInfo → Outcome Error (Unit {0})
unfolding group_rights met
check_access usr perm file =
    let mod' = bit_and file.mode 0o777 in
    let exp = bit_and perm 0o777 in
    elim (parse_uint 10 32 usr.uid) [
      | none ↦ err bad_user
      | some uid ↦
          let act =
            if file.owner == uid
            then bit_or (bit_and mod' 0o7) (mod' / 2 ^ 6)
            else bit_and mod' 0o7 in
          elim usr.group_ids [
            | none ↦ err no_groups
            | some gids ↦ met exp (group_rights file.group mod' gids act)
          ]
    ]
