-- ===== src/Utils/Numbers.antt =====
-- src/utils/utils.go: values of any type, and the integers among them.
use example_docker_volume_pl.Common.{ℕ, ◌+◌, ◌-◌, ◌^◌, Option, none, some, ltb, if◌then◌else◌}
use example_docker_volume_pl.Common.Text.{Str}

-- `int` and `uint` are words, the other types say their bits.
pub data Width : Type 0 where
  word w8 w16 w32 w64 : Width

-- A value of type `any`: an integer is its bit pattern, and a value of a type that the program
-- does not tell apart is the text that `%v` makes of it.
pub data Any : Type 0 where
  text : Str → Any
  unsigned : Width → ℕ → Any
  signed : Width → ℕ → Any
  other : Str → Any

pub data Error : Type 0 where
  not_integer not_unsigned : Error

-- The bit pattern of 64 bits of a signed number of `bits` bits, `ToInt64`.
unfoldable pub to_int64 : ℕ → ℕ → ℕ
to_int64 bits i = if ltb i (2 ^ (bits - 1)) then i else i + (2 ^ 64 - 2 ^ bits)

-- `AsInt64`
unfoldable pub as_int64 : Any → ℕ × Option Error
unfolding to_int64
as_int64 (signed word i) = (i, none)
as_int64 (signed w8 i) = (to_int64 8 i, none)
as_int64 (signed w16 i) = (to_int64 16 i, none)
as_int64 (signed w32 i) = (to_int64 32 i, none)
as_int64 (signed w64 i) = (i, none)
as_int64 (unsigned w i) = (0, some not_integer)
as_int64 (text s) = (0, some not_integer)
as_int64 (other s) = (0, some not_integer)

-- `AsUInt64`
unfoldable pub as_uint64 : Any → ℕ × Option Error
as_uint64 (unsigned w i) = (i, none)
as_uint64 (signed w i) = (0, some not_unsigned)
as_uint64 (text s) = (0, some not_unsigned)
as_uint64 (other s) = (0, some not_unsigned)
