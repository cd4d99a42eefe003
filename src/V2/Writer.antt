-- ===== src/V2/Writer.antt =====
-- StreamResultToBytes: one packet for each status call.
pub mod Shape
pub mod Limits
use pysubunit.Prelude.{
  ℕ, zero, suc, ◌+◌, ◌-◌, ◌*◌, ◌^◌, ◌%◌, Bool, true, false, Option, none, some, List, [], ◌∷◌, ◌++◌,
  bit_and, ltb, leb, if◌then◌else◌, length, take, drop,
}
use pysubunit.Prelude.Int.{ℤ, pos, negsuc, ◌+ℤ◌, ◌*ℤ◌}
use pysubunit.Std.Struct.{pack_16, pack_32}
use pysubunit.Std.Timedelta.{Timedelta}
use pysubunit.Std.Crc32.{crc32}
use pysubunit.Std.Utf8
use pysubunit.V2.Types.{
  Text, Bytes, StatusEvent, Result, ok, err, ◌>>=◌, or_raise, struct_error, unicode_encode_error,
  type_error, length_too_long,
}
use pysubunit.V2.Number.{encode_number}
use pysubunit.V2.Flags.{Parts, flag_word}

abbrev pub signature : ℕ
signature = 0xb3

-- struct.pack(FMT_32, value): a negative value is refused too.
unfoldable pub pack_seconds : ℤ → Option Bytes
pack_seconds (pos n) = pack_32 n
pack_seconds (negsuc n) = none

-- _write_utf8
unfoldable pub write_utf8 : Text → Result Bytes
write_utf8 a_string = do
  utf8 ← or_raise unicode_encode_error (Utf8.encode a_string)
  size ← encode_number (length utf8)
  ok (size ++ utf8)

unfoldable pub write_timestamp : Option Timedelta → Result Bytes
write_timestamp none = ok []
write_timestamp (some since_epoch) = do
  let nanoseconds = since_epoch.microseconds * 1000
  let seconds = pos since_epoch.seconds +ℤ since_epoch.days *ℤ pos 24 *ℤ pos 3600
  packed ← or_raise struct_error (pack_seconds seconds)
  rest ← encode_number nanoseconds
  ok (packed ++ rest)

-- `if value is not None: self._write_utf8(value, packet)`
unfoldable pub write_optional : Option Text → Result Bytes
write_optional none = ok []
write_optional (some t) = write_utf8 t

-- A text that is there and not empty, and so with tags.
abbrev pub truthy {ℓ} : {A : Type ℓ} → Option (List A) → Option (List A)
truthy none = none
truthy (some []) = none
truthy (some (x ∷ xs)) = some (x ∷ xs)

unfoldable pub write_each : List Text → Result Bytes
write_each [] = ok []
write_each (tag ∷ tags) = do first ← write_utf8 tag; rest ← write_each tags; ok (first ++ rest)

unfoldable pub write_tags : Option (List Text) → Result Bytes
write_tags none = ok []
write_tags (some tags) = do
  count ← encode_number (length tags)
  each ← write_each tags
  ok (count ++ each)

-- len(None) raises TypeError.
unfoldable pub write_file : Option Text → Option Bytes → Result Bytes
write_file none content = ok []
write_file (some name) none = do write_utf8 name >>= λ _. err type_error
write_file (some name) (some content) = do
  label ← write_utf8 name
  size ← encode_number (length content)
  ok (label ++ (size ++ content))

abbrev pub present {ℓ} : {A : Type ℓ} → Option A → Bool
present none = false
present (some a) = true

unfoldable pub parts_of : StatusEvent → Parts
parts_of s = record {
  has_timestamp = present s.timestamp;
  has_test_id = present s.test_id;
  has_tags = present (truthy s.test_tags);
  is_runnable = s.runnable;
  has_mime_type = present (truthy s.mime_type);
  has_file = present s.file_name;
  is_eof = s.eof;
  has_route_code = present s.route_code;
}

-- What stands between the length and the checksum.
unfoldable pub write_body : StatusEvent → Result Bytes
write_body s = do
  timestamp ← write_timestamp s.timestamp
  test_id ← write_optional s.test_id
  tags ← write_tags (truthy s.test_tags)
  mime_type ← write_optional (truthy s.mime_type)
  file ← write_file s.file_name s.file_bytes
  route_code ← write_optional s.route_code
  ok (timestamp ++ (test_id ++ (tags ++ (mime_type ++ (file ++ route_code)))))

-- How many bytes the packet's own length takes.
unfoldable pub length_length : ℕ → Result ℕ
length_length base_length =
    if leb base_length 62
    then ok 1
    else if leb base_length 16381
    then ok 2
    else if leb base_length 4194300
    then ok 3
    else err (length_too_long base_length)

-- The bytes of one packet: signature, flags, length, body, checksum.
unfoldable pub write_packet : StatusEvent → Result Bytes
write_packet s = do
  body ← write_body s
  flags ← or_raise struct_error (pack_16 (flag_word (parts_of s) s.test_status))
  let base_length = 1 + length flags + length body + 4
  extra ← length_length base_length
  size ← encode_number (base_length + extra)
  let content = signature ∷ (flags ++ (size ++ body))
  checksum ← or_raise struct_error (pack_32 (bit_and (crc32 content 0) 0xffffffff))
  ok (content ++ checksum)

-- `while offset < datalen`: the stream takes what it takes of each write. `accepts` answers each
-- write, in order; the loop does not end where it takes nothing for ever, and `none` says that the
-- answers ran out.
unfoldable pub write_loop : List ℕ → Bytes → Bytes → Option Bytes
write_loop accepts sent [] = some sent
write_loop [] sent (b ∷ bs) = none
write_loop (n ∷ accepts) sent (b ∷ bs) =
    write_loop accepts (sent ++ take n (b ∷ bs)) (drop n (b ∷ bs))

-- A run of status calls on one output stream that takes all it is given.
unfoldable pub write_all : List StatusEvent → Result Bytes
write_all [] = ok []
write_all (s ∷ ss) = do first ← write_packet s; rest ← write_all ss; ok (first ++ rest)
