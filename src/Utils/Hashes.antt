-- ===== src/Utils/Hashes.antt =====
-- src/utils/utils.go: the hashes, over the function of crypto/sha256, and the verb `%x` for bytes.
use example_docker_volume_pl.Common.{ℕ, ◌+◌, ◌-◌, ◌/◌, ◌%◌, List, [], ◌∷◌, ltb, if◌then◌else◌}
use example_docker_volume_pl.Common.Text.{Str}

unfoldable pub hex_digit : ℕ → ℕ
hex_digit d = if ltb d 10 then b'0' + d else b'a' + d - 10

-- `%x` of a byte slice.
unfoldable pub hex : List ℕ → Str
unfolding hex_digit
hex [] = []
hex (b ∷ bytes) = hex_digit (b / 16) ∷ hex_digit (b % 16) ∷ hex bytes

-- `SHA256BytesToBytes`; the first argument is `sha256.Sum256`.
abbrev pub sha256_bytes_to_bytes : (List ℕ → List ℕ) → List ℕ → List ℕ
sha256_bytes_to_bytes sum bytes = sum bytes

-- `SHA256StringToString`
unfoldable pub sha256_string_to_string : (List ℕ → List ℕ) → Str → Str
unfolding hex
sha256_string_to_string sum str = hex (sha256_bytes_to_bytes sum str)
