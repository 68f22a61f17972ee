-- ===== src/Queue/Codec/Names.antt =====
-- The quality names of internal/queue/codec.go and their one-byte codes.
use Prim.Native.Char.{code}
use nx_iio_t_gateway_max_gat.Shared.{
  ℕ, ◌<◌, ◌≡◌, refl, Bool, true, false, ◌&&◌, String, List, [], ◌∷◌, Option, none, some, arith,
  ◌==◌, if◌then◌else◌,
}

-- The bytes of an ASCII text.
abbrev pub bytes_of : String → List ℕ
bytes_of String.[] = []
bytes_of (String.◌∷◌ c s) = code c ∷ bytes_of s

-- Go's == on texts.
unfoldable pub same_bytes : List ℕ → List ℕ → Bool
same_bytes [] [] = true
same_bytes (a ∷ as') (b ∷ bs) = a == b && same_bytes as' bs
same_bytes _ _ = false

pub same_bytes→eq : (a b : List ℕ) → same_bytes a b ≡ true → a ≡ b
unfolding same_bytes
same_bytes→eq [] [] h = refl
same_bytes→eq [] (b ∷ bs) h = cc
same_bytes→eq (a ∷ as') [] h = cc
same_bytes→eq (a ∷ as') (b ∷ bs) h = ground (arith, same_bytes→eq as' bs)

-- The map qualityCodes.
unfoldable pub quality_code : List ℕ → Option ℕ
quality_code q =
    if same_bytes q (bytes_of "GOOD")
    then some 0
    else if same_bytes q (bytes_of "TIMEOUT")
    then some 1
    else if same_bytes q (bytes_of "CRC_ERROR")
    then some 2
    else if same_bytes q (bytes_of "DEVICE_OFFLINE")
    then some 3
    else if same_bytes q (bytes_of "INVALID")
    then some 4
    else none

-- The map qualityNames.
unfoldable pub quality_name : ℕ → Option (List ℕ)
quality_name c =
    if c == 0
    then some (bytes_of "GOOD")
    else if c == 1
    then some (bytes_of "TIMEOUT")
    else if c == 2
    then some (bytes_of "CRC_ERROR")
    else if c == 3
    then some (bytes_of "DEVICE_OFFLINE")
    else if c == 4
    then some (bytes_of "INVALID")
    else none

-- A code leads back to the name, and leaves bit 7 and `quality_other` free.
pub quality_name-quality_code :
    (q : List ℕ) (c : ℕ) → quality_code q ≡ some c → (quality_name c ≡ some q) × (c < 5)
unfolding quality_code quality_name
quality_name-quality_code q c h = ground (
  arith,
  same_bytes→eq q (bytes_of "GOOD"),
  same_bytes→eq q (bytes_of "TIMEOUT"),
  same_bytes→eq q (bytes_of "CRC_ERROR"),
  same_bytes→eq q (bytes_of "DEVICE_OFFLINE"),
  same_bytes→eq q (bytes_of "INVALID"),
)
