-- ===== src/V2/Number.antt =====
-- Numbers of one to four bytes: StreamResultToBytes._encode_number and
-- ByteStreamToStreamResult._parse_varint.
pub mod RoundTrip
use pysubunit.Prelude.{
  ℕ, ◌+◌, ◌*◌, ◌/◌, ◌^◌, Bool, List, ◌++◌, bit_and, bit_or, ltb, ◌==◌, if◌then◌else◌, take, drop,
}
use pysubunit.Std.Struct.{pack_8, pack_16, pack_32, unpack_8, unpack_16, unpack_24}
use pysubunit.V2.Types.{
  Bytes, Result, ok, err, ◌>>=◌, or_raise, struct_error, value_too_large, parse_error,
  length_too_wide,
}

-- The caller's number is never negative.
unfoldable pub encode_number : ℕ → Result Bytes
unfolding pack_8 pack_16 pack_32
encode_number value =
    if ltb value 64
    then or_raise struct_error (pack_8 value)
    else if ltb value 16384
    then or_raise struct_error (pack_16 (bit_or value 0x4000))
    else if ltb value 4194304
    then (do
      let marked = bit_or value 0x800000
      high ← or_raise struct_error (pack_16 (marked / 2 ^ 8))
      low ← or_raise struct_error (pack_8 (bit_and marked 0xff))
      ok (high ++ low))
    else if ltb value 1073741824
    then or_raise struct_error (pack_32 (bit_or value 0xc0000000))
    else err (value_too_large value)

-- _to_bytes: a slice, which is short where the data ends.
abbrev pub to_bytes : Bytes → ℕ → ℕ → Bytes
to_bytes bs at n = take n (drop at bs)

-- The number at a position and the count of bytes that it takes.
unfoldable pub parse_varint : Bool → Bytes → ℕ → Result (ℕ × ℕ)
unfolding unpack_8 unpack_16 unpack_24
parse_varint max_3_bytes bs at = do
  data_0 ← or_raise struct_error (unpack_8 (to_bytes bs at 1))
  let typeenum = bit_and data_0 0xc0
  let value_0 = bit_and data_0 0x3f
  if typeenum == 0x00
      then ok (value_0, 1)
      else if typeenum == 0x40
      then (do
        data_1 ← or_raise struct_error (unpack_8 (to_bytes bs (at + 1) 1))
        ok (bit_or (value_0 * 2 ^ 8) data_1, 2))
      else if typeenum == 0x80
      then (do
        data_1 ← or_raise struct_error (unpack_16 (to_bytes bs (at + 1) 2))
        ok (bit_or (value_0 * 2 ^ 16) data_1, 3))
      else if max_3_bytes
      then err (parse_error length_too_wide)
      else (do
        (data_1, data_2) ← or_raise struct_error (unpack_24 (to_bytes bs (at + 1) 3))
        ok (bit_or (bit_or (value_0 * 2 ^ 24) (data_1 * 2 ^ 8)) data_2, 4))
