-- ===== src/Proc/Info/UniqueId.antt =====
-- The text of `UniqueId` is read back: hexadecimal digits by `Atob`, and numbers by `Uint64`.
use mathlib.Core.List.{reverse, reverse-cons, reverse-reverse}
use example_docker_volume_pl.Common.{
  ℕ, zero, suc, ◌/◌, ◌%◌, ◌^◌, ◌<◌, ◌≡◌, refl, some, List, [], ◌∷◌, ◌++◌, length, drop, take, ok,
  arith, All, All-append, length-append, append_assoc, ap, sym, ◌∙◌, append-nil,
}
use example_docker_volume_pl.Common.Text.{Str}
use example_docker_volume_pl.Common.Number.{parse_uint}
use example_docker_volume_pl.Utils.{atob, atob_loop}
use example_docker_volume_pl.Proc.Info.{be_bytes, be_value, uint64}
use example_docker_volume_pl.Utils.Hashes.{hex, hex_digit}

abbrev pub IsBytes : List ℕ → Type 0
IsBytes = All (λ b. b < 256)

-- Two digits are read as the byte that they write.
parse_uint-hex :
    (b : ℕ) → b < 256 → parse_uint 16 8 (hex_digit (b / 16) ∷ hex_digit (b % 16) ∷ []) ≡ some b
unfolding parse_uint hex_digit
parse_uint-hex b h = ground arith

-- The digits of bytes, the last byte first in the list.
hex_backwards : List ℕ → Str
hex_backwards [] = []
hex_backwards (b ∷ rest) = hex_backwards rest ++ hex_digit (b / 16) ∷ hex_digit (b % 16) ∷ []

hex-append : (xs ys : List ℕ) → hex (xs ++ ys) ≡ hex xs ++ hex ys
unfolding hex
hex-append [] ys = refl
hex-append (x ∷ xs) ys = rw (hex-append xs ys)

hex-reverse : (rs : List ℕ) → hex (reverse rs) ≡ hex_backwards rs
unfolding hex hex_backwards
hex-reverse [] = refl
hex-reverse (r ∷ rs) = rw (reverse-cons r rs, hex-append (reverse rs) (r ∷ []), hex-reverse rs)

drop-append_all : (xs ys : Str) → drop (length xs) (xs ++ ys) ≡ ys
drop-append_all [] ys = refl
drop-append_all (x ∷ xs) ys = drop-append_all xs ys

atob_loop-step :
    (s : Str) (k : ℕ) (bytes : List ℕ) (pair : Str) (b : ℕ)
    → take 2 (drop k s) ≡ pair
    → parse_uint 16 8 pair ≡ some b
    → atob_loop s (suc (suc k)) bytes ≡ atob_loop s k (bytes ++ b ∷ [])
unfolding atob_loop
atob_loop-step s k bytes pair b e p = ground (arith, ap (parse_uint 16 8) e)

atob_loop-hex :
    (rs : List ℕ) (rest : Str) (bytes : List ℕ)
    → IsBytes rs
    → atob_loop (hex_backwards rs ++ rest) (length (hex_backwards rs)) bytes ≡ ok (bytes ++ rs)
unfolding atob_loop hex_backwards
atob_loop-hex [] rest bytes h = rw append-nil
atob_loop-hex (r ∷ rs) rest bytes (h, hs) =
    let pair : Str = hex_digit (r / 16) ∷ hex_digit (r % 16) ∷ [] in
    let two : length (hex_backwards rs ++ pair) ≡ suc (suc (length (hex_backwards rs))) =
      omega (arith, length-append (hex_backwards rs) pair) in
    rw (
      two,
      append_assoc (hex_backwards rs) pair rest,
      atob_loop-step (hex_backwards rs ++ (pair ++ rest)) (length (hex_backwards rs)) bytes pair r
          (ap (take 2) (drop-append_all (hex_backwards rs) (pair ++ rest))) (parse_uint-hex r h),
      atob_loop-hex rs (pair ++ rest) (bytes ++ r ∷ []) hs,
      append_assoc bytes (r ∷ []) rs,
    )

All-reverse : (bytes : List ℕ) → IsBytes bytes → IsBytes (reverse bytes)
All-reverse [] h = tt
All-reverse (b ∷ bytes) (h, hs) =
    rw (reverse-cons b bytes)
      (All-append (λ b. b < 256) (reverse bytes) (b ∷ []) (All-reverse bytes hs) (h, tt))

-- `Atob` reads back the two digits of each byte.
pub atob-hex : (bytes : List ℕ) → IsBytes bytes → atob (hex bytes) ≡ ok bytes
unfolding atob
atob-hex bytes h =
    let backwards : hex bytes ≡ hex_backwards (reverse bytes) =
      ap hex (sym (reverse-reverse bytes)) ∙ hex-reverse (reverse bytes) in
    let read = atob_loop-hex (reverse bytes) [] [] (All-reverse bytes h) in
    rw (backwards, rw append-nil at read) (ap ok (reverse-reverse bytes))

pub be_bytes-IsBytes : (k n : ℕ) → IsBytes (be_bytes k n)
unfolding be_bytes
be_bytes-IsBytes zero n = tt
be_bytes-IsBytes (suc k) n = (omega arith, be_bytes-IsBytes k n)

length-be_bytes : (k n : ℕ) → length (be_bytes k n) ≡ k
unfolding be_bytes
length-be_bytes zero n = refl
length-be_bytes (suc k) n = ap suc (length-be_bytes k n)

pub uint64-be_bytes : (n : ℕ) (rest : List ℕ) → n < 2 ^ 64 → uint64 (be_bytes 8 n ++ rest) ≡ some n
unfolding uint64 be_bytes be_value
uint64-be_bytes n rest h = ground arith
