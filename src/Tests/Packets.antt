-- ===== src/Tests/Packets.antt =====
-- Packets of README.rst and of test_test_protocol2.py.
use pysubunit.Prelude.{◌≡◌, refl, [], ◌∷◌, Option, none, some, true, arith, ◌<◌, ◌≤◌, eq_bytes}
use pysubunit.Std.Struct.{pack_8, pack_16, pack_32, unpack_8, unpack_16, unpack_24, unpack_32}
use pysubunit.Std.Utf8
use pysubunit.Std.Crc32.{crc32}
use pysubunit.Std.Timedelta.{from_nanoseconds, thousandths}
use pysubunit.Std.Format.{codes}
use pysubunit.Prelude.Int.{pos, ◌+ℤ◌, ◌*ℤ◌}
use pysubunit.V2.Types.{
  Text, Bytes, StatusEvent, Result, ok, err, exists, inprogress, add_tag, contains,
}
use pysubunit.V2.Number.{encode_number, parse_varint}
use pysubunit.V2.Flags.{flag_word, test_flag, status_mask, status_lookup}
use pysubunit.V2.Writer.{
  write_packet, write_body, write_timestamp, write_optional, write_tags, write_file, write_utf8,
  write_each, pack_seconds, parts_of, length_length, write_loop,
}
use pysubunit.V2.Fields.{
  pure, ◌>>=◌, read_varint, has_nul, read_text, read_utf8, read_word, read_timestamp, read_each,
  read_tags, read_content, read_file, read_if, read_fields,
}
use pysubunit.V2.Parser.{parse, parse_rest, check_and_read, fragments_crc, no_status, Parsed}
use pysubunit.V2.Writer.Limits.{write_loop_complete, write_packet-length, write_packet_limit}

-- The packet of README.rst: test id "foo", runnable, enumeration.
abbrev pub foo : StatusEvent
foo = record no_status { test_id = some (codes "foo"); test_status = some exists }

abbrev pub foo_body : Bytes
foo_body = 0x03 ∷ 0x66 ∷ 0x6f ∷ 0x6f ∷ []

abbrev pub foo_bytes : Bytes
foo_bytes = 0xb3 ∷ 0x29 ∷ 0x01 ∷ 0x0c ∷ 0x03 ∷ 0x66 ∷ 0x6f ∷ 0x6f ∷ 0x08 ∷ 0x55 ∷ 0x5f ∷ 0x1b ∷ []

-- Every part at once.
abbrev pub full : StatusEvent
full = record {
  test_id = some (codes "a.b");
  test_status = some inprogress;
  test_tags = some (codes "foo" ∷ codes "bar" ∷ []);
  runnable = true;
  file_name = some (0xe9 ∷ []);
  file_bytes = some (1 ∷ 2 ∷ 0 ∷ []);
  eof = true;
  mime_type = some (codes "text/plain");
  route_code = some (codes "0/1");
  timestamp = some (record { days = pos 15706; seconds = 3723; microseconds = 45 });
}

-- What a run of the writer computes with.
unfoldable pub write_test : StatusEvent → Result Bytes
unfolding write_packet write_body write_timestamp write_optional write_tags write_each write_file
    write_utf8 pack_seconds parts_of length_length encode_number pack_8 pack_16 pack_32 crc32
    Utf8.encode Utf8.encode_char flag_word status_mask ◌+ℤ◌ ◌*ℤ◌
write_test = write_packet

pub foo_packet : write_packet foo ≡ ok foo_bytes
unfolding write_test
foo_packet = refl

pub foo_wrote_body : write_body foo ≡ ok foo_body
unfolding write_test
foo_wrote_body = refl

pub parse_test : Bytes → Parsed
unfolding parse parse_rest check_and_read fragments_crc read_fields read_if read_file read_content
    read_tags read_each read_timestamp read_word read_utf8 read_text has_nul read_varint ◌>>=◌ pure
    parse_varint unpack_8 unpack_16 unpack_24 unpack_32 crc32 Utf8.decode Utf8.decode_loop
    Utf8.front Utf8.two Utf8.three Utf8.four add_tag contains eq_bytes from_nanoseconds thousandths
    test_flag status_lookup
parse_test = parse

foo_parsed :
    parse (0x29 ∷ 0x01 ∷ 0x0c ∷ 0x03 ∷ 0x66 ∷ 0x6f ∷ 0x6f ∷ 0x08 ∷ 0x55 ∷ 0x5f ∷ 0x1b ∷ 7 ∷ [])
    ≡ record { packet = foo_bytes; source = 7 ∷ []; outcome = ok foo }
unfolding parse_test
foo_parsed = refl

-- The 66 bytes of `full`, and back.
abbrev parsed_back : Result Bytes → Option Parsed
parsed_back (ok (b ∷ bs)) = some (parse bs)
parsed_back _ = none

abbrev pub bytes_of : Result Bytes → Bytes
bytes_of (ok bs) = bs
bytes_of _ = []

full_parsed :
    parsed_back (write_packet full)
    ≡ some (record { packet = bytes_of (write_packet full); source = []; outcome = ok full })
unfolding write_test parse_test
full_parsed = refl

write_packet-length_example :
    (12 ≤ 4194303) × (back : Bytes) × (foo_bytes ≡ 0xb3 ∷ 0x29 ∷ 0x01 ∷ 12 ∷ back)
unfolding write_test
write_packet-length_example = write_packet-length foo foo_bytes foo_packet

write_packet_limit_example :
    (4 ≤ 4194293 → (bs : Bytes) × (write_packet foo ≡ ok bs))
    × (4194293 < 4 → write_packet foo ≡ err (pysubunit.V2.Types.length_too_long 11))
write_packet_limit_example = write_packet_limit foo foo_body foo_wrote_body

write_loop_complete_example :
    write_loop (2 ∷ 5 ∷ 1 ∷ []) [] (7 ∷ 8 ∷ 9 ∷ []) ≡ some (7 ∷ 8 ∷ 9 ∷ [])
write_loop_complete_example =
    write_loop_complete (2 ∷ 5 ∷ 1 ∷ []) [] (7 ∷ 8 ∷ 9 ∷ []) (omega arith) (omega arith)
