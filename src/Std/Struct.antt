-- ===== src/Std/Struct.antt =====
-- struct.pack and struct.unpack with the big-endian formats of v2.py; `none` is struct.error.
use pysubunit.Prelude.{
  ℕ, ◌+◌, ◌*◌, ◌/◌, ◌%◌, ◌^◌, ◌<◌, ◌≡◌, Option, none, some, List, [], ◌∷◌, arith, ltb,
  if◌then◌else◌,
}

-- '>B'
unfoldable pub pack_8 : ℕ → Option (List ℕ)
pack_8 n = if ltb n 256 then some (n ∷ []) else none

-- '>H'
unfoldable pub pack_16 : ℕ → Option (List ℕ)
pack_16 n = if ltb n (2 ^ 16) then some (n / 256 ∷ n % 256 ∷ []) else none

-- The four bytes of a number below 2 ^ 32.
abbrev pub word_bytes : ℕ → List ℕ
word_bytes n = n / 2 ^ 24 ∷ n / 2 ^ 16 % 256 ∷ n / 256 % 256 ∷ n % 256 ∷ []

-- '>I'
unfoldable pub pack_32 : ℕ → Option (List ℕ)
pack_32 n = if ltb n (2 ^ 32) then some (word_bytes n) else none

unfoldable pub unpack_8 : List ℕ → Option ℕ
unpack_8 (a ∷ []) = some a
unpack_8 _ = none

unfoldable pub unpack_16 : List ℕ → Option ℕ
unpack_16 (a ∷ b ∷ []) = some (a * 256 + b)
unpack_16 _ = none

-- '>HB'
unfoldable pub unpack_24 : List ℕ → Option (ℕ × ℕ)
unpack_24 (a ∷ b ∷ c ∷ []) = some (a * 256 + b, c)
unpack_24 _ = none

unfoldable pub unpack_32 : List ℕ → Option ℕ
unpack_32 (a ∷ b ∷ c ∷ d ∷ []) = some (a * 2 ^ 24 + b * 2 ^ 16 + c * 256 + d)
unpack_32 _ = none

pub unpack_32-word_bytes : (n : ℕ) → n < 2 ^ 32 → unpack_32 (word_bytes n) ≡ some n
unfolding unpack_32
unpack_32-word_bytes n h = ground arith

pub pack_32-some : (n : ℕ) → n < 2 ^ 32 → pack_32 n ≡ some (word_bytes n)
unfolding pack_32
pack_32-some n h = ground arith

pub pack_32-lt : (n : ℕ) (bs : List ℕ) → pack_32 n ≡ some bs → (n < 2 ^ 32) × (bs ≡ word_bytes n)
unfolding pack_32
pack_32-lt n bs h = ground arith
