-- ===== src/V2/Fields.antt =====
-- ByteStreamToStreamResult: the parts of a packet's body, read at a position that moves on.
pub mod Reads
pub mod Parts
pub mod RoundTrip
pub mod Version
use pysubunit.Prelude.{
  ℕ, zero, suc, ◌+◌, ◌-◌, Bool, true, false, Option, none, some, List, [], ◌∷◌, bit_and, ◌==◌, ◌||◌,
  if◌then◌else◌, length,
}
use pysubunit.Prelude.Int.{sub_ℕ}
use pysubunit.Std.Struct.{unpack_32}
use pysubunit.Std.Timedelta.{Timedelta, from_nanoseconds}
use pysubunit.Std.Utf8
use pysubunit.V2.Types.{
  Text, Bytes, StatusEvent, Error, Result, ok, err, or_raise, struct_error, parse_error,
  content_past_end, text_past_end, text_with_nul, text_partial, text_not_utf8, add_tag,
}
use pysubunit.V2.Number.{to_bytes, parse_varint}
use pysubunit.V2.Flags.{
  flag_test_id, flag_route_code, flag_timestamp, flag_runnable, flag_tags, flag_mime_type, flag_eof,
  flag_file_content, status_lookup, test_flag,
}

-- Reads at a position of the body, and returns the next position.
abbrev pub Reader {ℓ} : Type ℓ → Type ℓ
Reader A = Bytes → ℕ → Result (A × ℕ)

module _ {ℓ} {A : Type ℓ} where
  unfoldable pub pure : A → Reader A
  pure a body at = ok (a, at)

  unfoldable pub raise : Error → Reader A
  raise e body at = err e

-- The rest of the parse, after a step that may have failed.
abbrev pub continue {ℓ κ} :
    {A : Type ℓ} {B : Type κ} → Result (A × ℕ) → (A → Reader B) → Bytes → Result (B × ℕ)
continue (ok (a, at)) f body = f a body at
continue (err e) f body = err e

infixl 5 ◌>>=◌
unfoldable pub ◌>>=◌ {ℓ κ} : {A : Type ℓ} {B : Type κ} → Reader A → (A → Reader B) → Reader B
◌>>=◌ m f body at = continue (m body at) f body

-- `value, consumed = self._parse_varint(body, pos)` and `pos += consumed`.
abbrev advance : ℕ → Result (ℕ × ℕ) → Result (ℕ × ℕ)
advance at (err e) = err e
advance at (ok (value, consumed)) = ok (value, at + consumed)

unfoldable pub read_varint : Reader ℕ
read_varint body at = advance at (parse_varint false body at)

unfoldable pub has_nul : Bytes → Bool
has_nul [] = false
has_nul (b ∷ bs) = b == 0 || has_nul bs

-- utf_8_decode and the two checks on what it returns; `pos` stands behind the length.
abbrev decoded : ℕ → ℕ → Option (Text × ℕ) → Result (Text × ℕ)
decoded size at none = err (parse_error (text_not_utf8 (sub_ℕ at 2)))
decoded size at (some (utf8, used)) =
    if used == size
    then ok (utf8, size + at)
    else err (parse_error (text_partial (sub_ℕ at 2) (size - used)))

unfoldable pub read_text : ℕ → Reader Text
read_text size body at =
    let utf8_bytes = to_bytes body at size in
    if size == length utf8_bytes
    then if has_nul utf8_bytes
      then err (parse_error (text_with_nul (sub_ℕ at 2)))
      else decoded size at (Utf8.decode utf8_bytes)
    else err (parse_error (text_past_end (sub_ℕ at 2) size (length utf8_bytes)))

-- _read_utf8
unfoldable pub read_utf8 : Reader Text
read_utf8 = do size ← read_varint; read_text size

-- struct.unpack(FMT_32, self._to_bytes(body, pos, 4))
abbrev after : ℕ → Result ℕ → Result (ℕ × ℕ)
after at (err e) = err e
after at (ok n) = ok (n, at)

unfoldable pub read_word : Reader ℕ
read_word body at = after (at + 4) (or_raise struct_error (unpack_32 (to_bytes body at 4)))

unfoldable pub read_timestamp : Reader Timedelta
read_timestamp = do
  seconds ← read_word
  nanoseconds ← read_varint
  pure (from_nanoseconds seconds nanoseconds)

-- `for _ in range(tag_count)`
unfoldable pub read_each : ℕ → List Text → Reader (List Text)
read_each zero tags = pure tags
read_each (suc n) tags = do tag ← read_utf8; read_each n (add_tag tags tag)

unfoldable pub read_tags : Reader (List Text)
read_tags = do count ← read_varint; read_each count []

unfoldable pub read_content : ℕ → Reader Bytes
read_content size body at =
    let file_bytes = to_bytes body at size in
    if length file_bytes == size
    then ok (file_bytes, at + size)
    else err (parse_error (content_past_end size (length file_bytes)))

unfoldable pub read_file : Reader (Text × Bytes)
read_file = do
  file_name ← read_utf8
  content_length ← read_varint
  file_bytes ← read_content content_length
  pure (file_name, file_bytes)

-- A part that stands there only if its flag is set.
unfoldable pub read_if {ℓ} : {A : Type ℓ} → Bool → Reader A → Reader (Option A)
read_if false m = pure none
read_if true m = do a ← m; pure (some a)

abbrev pub name_of : Option (Text × Bytes) → Option Text
name_of none = none
name_of (some f) = some f.0

abbrev pub content_of : Option (Text × Bytes) → Option Bytes
content_of none = none
content_of (some f) = some f.1

-- The body of a packet with these flags.
unfoldable pub read_fields : ℕ → Reader StatusEvent
read_fields flags = do
  timestamp ← read_if (test_flag flags flag_timestamp) read_timestamp
  test_id ← read_if (test_flag flags flag_test_id) read_utf8
  test_tags ← read_if (test_flag flags flag_tags) read_tags
  mime_type ← read_if (test_flag flags flag_mime_type) read_utf8
  file ← read_if (test_flag flags flag_file_content) read_file
  route_code ← read_if (test_flag flags flag_route_code) read_utf8
  pure (record {
    test_id = test_id;
    test_status = status_lookup (bit_and flags 0x0007);
    test_tags = test_tags;
    runnable = test_flag flags flag_runnable;
    file_name = name_of file;
    file_bytes = content_of file;
    eof = test_flag flags flag_eof;
    mime_type = mime_type;
    route_code = route_code;
    timestamp = timestamp;
  })
