-- ===== src/Std/Crc32.antt =====
-- zlib.crc32: the reflected polynomial 0xedb88320, one bit at a time.
use mathlib.Core.List.{foldl, foldl-append}
use pysubunit.Prelude.{ℕ, ◌/◌, ◌%◌, ◌≡◌, refl, List, [], ◌∷◌, ◌++◌, bit_xor, ◌==◌, if◌then◌else◌}
use pysubunit.Prelude.Bits.{bit_xor_twice}

abbrev crc_bit : ℕ → ℕ
crc_bit c = if c % 2 == 1 then bit_xor (c / 2) 0xedb88320 else c / 2

crc_byte : ℕ → ℕ → ℕ
crc_byte c b =
    crc_bit (crc_bit (crc_bit (crc_bit (crc_bit (crc_bit (crc_bit (crc_bit (bit_xor c b))))))))

-- crc32(bytes, value)
unfoldable pub crc32 : List ℕ → ℕ → ℕ
unfolding crc_byte
crc32 bs value = bit_xor (foldl crc_byte (bit_xor value 0xffffffff) bs) 0xffffffff

-- Fragment by fragment or all at once.
pub crc32-append : (xs ys : List ℕ) (value : ℕ) → crc32 ys (crc32 xs value) ≡ crc32 (xs ++ ys) value
unfolding crc32
crc32-append xs ys value = rw (bit_xor_twice, foldl-append)

-- The check value of the CRC-32 catalogue, of the text 123456789.
check_value :
    crc32 (b'1' ∷ b'2' ∷ b'3' ∷ b'4' ∷ b'5' ∷ b'6' ∷ b'7' ∷ b'8' ∷ b'9' ∷ []) 0 ≡ 0xcbf43926
unfolding crc32
check_value = refl
