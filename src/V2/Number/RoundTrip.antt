-- ===== src/V2/Number/RoundTrip.antt =====
-- What encode_number writes in plain arithmetic, and that parse_varint reads it back anywhere.
use pysubunit.Prelude.{
  ℕ, ◌+◌, ◌*◌, ◌/◌, ◌%◌, ◌^◌, ◌≤◌, ◌<◌, ◌≡◌, Bool, true, false, [], ◌∷◌, ◌++◌, bit_and, bit_or,
  drop-drop, drop-append, arith, ltb, if◌then◌else◌, length, drop,
}
use pysubunit.Prelude.Bits.{bit_or_high, bit_or_low, bit_and_mask, top_two_bits}
use pysubunit.Std.Struct.{pack_8, pack_16, pack_32}
use pysubunit.V2.Types.{Bytes, ok, err, value_too_large}
use pysubunit.V2.Number.{encode_number, parse_varint}

abbrev pub number_bytes : ℕ → Bytes
number_bytes v =
    if ltb v 64
    then v ∷ []
    else if ltb v 16384
    then (64 + v / 256) ∷ v % 256 ∷ []
    else if ltb v 4194304
    then (128 + v / 65536) ∷ v / 256 % 256 ∷ v % 256 ∷ []
    else (192 + v / 16777216) ∷ v / 65536 % 256 ∷ v / 256 % 256 ∷ v % 256 ∷ []

pub encode_number-ok :
    (v : ℕ) (bs : Bytes) → encode_number v ≡ ok bs → (v < 1073741824) × (bs ≡ number_bytes v)
unfolding encode_number
encode_number-ok v bs h =
    ground (
      arith,
      bit_or_low 14 1 v,
      bit_or_low 23 1 v,
      bit_or_low 30 3 v,
      bit_and_mask 8 (v + 0x800000),
    )

-- The first byte: its two top bits give the size, the others the highest digits.
first_byte :
    (t d : ℕ)
    → t < 4
    → d < 64
    → (bit_and (t * 64 + d) 0xc0 ≡ t * 64) × (bit_and (t * 64 + d) 0x3f ≡ d)
first_byte t d ht hd =
    omega (arith, top_two_bits (t * 64 + d) (omega arith), bit_and_mask 6 (t * 64 + d))

join_three :
    (x y z : ℕ)
    → y < 65536
    → z < 256
    → bit_or (bit_or (x * 2 ^ 24) (y * 2 ^ 8)) z ≡ x * 2 ^ 24 + y * 2 ^ 8 + z
join_three x y z hy hz =
    let inner : bit_or (x * 2 ^ 24) (y * 2 ^ 8) ≡ (x * 2 ^ 16 + y) * 2 ^ 8 =
      omega (arith, bit_or_high 24 x (y * 2 ^ 8) (omega arith)) in
    rw inner (omega (arith, bit_or_high 8 (x * 2 ^ 16 + y) z hz))

-- What parse_varint reads where a number was written.
pub parse_varint-number :
    (m : Bool) (v : ℕ) (bs rest : Bytes) (at : ℕ)
    → v < 1073741824
    → (m ≡ true → v < 4194304)
    → drop at bs ≡ number_bytes v ++ rest
    → parse_varint m bs at ≡ ok (v, length (number_bytes v))
unfolding parse_varint
parse_varint-number m v bs rest at h short e =
    rw (drop-drop at 1 bs, e)
      (ground (
        arith,
        first_byte 0 v,
        first_byte 1 (v / 256),
        first_byte 2 (v / 65536),
        first_byte 3 (v / 16777216),
        bit_or_high 8 (v / 256) (v % 256),
        bit_or_high 16 (v / 65536) (v / 256 % 256 * 256 + v % 256),
        join_three (v / 16777216) (v / 65536 % 256 * 256 + v / 256 % 256) (v % 256),
      ))

pub encode_number-some : (n : ℕ) → n < 1073741824 → (bs : Bytes) × (encode_number n ≡ ok bs)
unfolding encode_number pack_8 pack_16 pack_32
encode_number-some n h = (
  number_bytes n,
  ground (
    arith,
    bit_or_low 14 1 n,
    bit_or_low 23 1 n,
    bit_or_low 30 3 n,
    bit_and_mask 8 (n + 0x800000),
  ),
)

encode_number-too_large : (v : ℕ) → 1073741824 ≤ v → encode_number v ≡ err (value_too_large v)
unfolding encode_number
encode_number-too_large v h = ground arith

-- A number below 2 ^ 30 is written in one to four bytes, from which the parser reads the number and
-- their count at any position of any data; a larger number is refused with ValueError.
pub parse_varint-encode_number :
    (v : ℕ)
    → (v < 2 ^ 30
        → (bs : Bytes) × (encode_number v ≡ ok bs)
          × (1 ≤ length bs)
          × (length bs ≤ 4)
          × ((before rest : Bytes)
              → parse_varint false (before ++ (bs ++ rest)) (length before) ≡ ok (v, length bs)))
      × (2 ^ 30 ≤ v → encode_number v ≡ err (value_too_large v))
parse_varint-encode_number v = (
  λ h.
      let (bs, e) = encode_number-some v h in
      let (fits, shape) = encode_number-ok v bs e in
      (
        bs,
        e,
        rw shape (ground arith),
        rw shape (ground arith),
        λ before rest. rw shape (
            parse_varint-number false v (before ++ (number_bytes v ++ rest)) rest (length before) h
              (λ p. cc) (drop-append before (number_bytes v ++ rest))),
      ),
  encode_number-too_large v,
)
