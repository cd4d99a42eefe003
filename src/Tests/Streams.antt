-- ===== src/Tests/Streams.antt =====
-- Streams of packets and text, damaged and cut.
use pysubunit.Prelude.{
  ◌≡◌, ◌≢◌, refl, ℕ, List, [], ◌∷◌, ◌++◌, map, Option, none, some, true, false, arith, ◌<◌, ◌≤◌,
  ◌+◌, ◌^◌, ◌*◌, eq_bytes,
}
use pysubunit.Std.Struct.{word_bytes}
use pysubunit.Std.Format.{codes}
use pysubunit.V2.Types.{Bytes, ok, err, value_too_large, struct_error, ParseError}
use pysubunit.V2.Number.{encode_number, parse_varint}
use pysubunit.V2.Number.RoundTrip.{parse_varint-encode_number}
use pysubunit.V2.Flags.{test_flag, flag_timestamp}
use pysubunit.V2.Writer.{signature, write_all}
use pysubunit.V2.Writer.Shape.{middle, checksum_of}
use pysubunit.V2.Fields.{read_fields}
use pysubunit.V2.Fields.RoundTrip.{IsSendable, delivered}
use pysubunit.V2.Fields.Version.{read_fields-version}
use pysubunit.V2.Parser.{parse_packet}
use pysubunit.V2.Parser.Errors.{
  reported, IsShort, parse_packet-truncated, parse_packet-struct_error,
}
use pysubunit.V2.Run.{fresh, emit, non_subunit, run, run_loop, run_packet, end_of_file, out_of_fuel}
use pysubunit.V2.Run.Packets.{
  call, text, write_items, write_item, received, run-write_items, run-write_all,
}
use pysubunit.V2.Run.Ends.{run-ne-out_of_fuel}
use pysubunit.V2.Run.Characters.{run-signature_in_character}
use pysubunit.Tests.Packets.{foo, foo_bytes, foo_packet, write_test}

pub foo-IsSendable : IsSendable foo
foo-IsSendable = record {
  test_id = omega arith;
  tags = tt;
  mime_type = tt;
  file_name = tt;
  route_code = tt;
  timestamp = tt;
}

pub two_foos : write_all (foo ∷ foo ∷ []) ≡ ok (foo_bytes ++ foo_bytes)
unfolding write_test write_all
two_foos = refl

run-write_all_example :
    run none (some (true ∷ [])) (foo_bytes ++ foo_bytes)
    ≡ record { events = delivered foo ∷ delivered foo ∷ []; end = end_of_file }
run-write_all_example =
    run-write_all (foo ∷ foo ∷ []) (foo_bytes ++ foo_bytes) none (some (true ∷ []))
      (foo-IsSendable, (foo-IsSendable, tt)) two_foos

foo_and_text : write_items (text (codes "hi") ∷ call foo ∷ []) ≡ ok (0x68 ∷ 0x69 ∷ foo_bytes)
unfolding write_test write_items write_item
foo_and_text = refl

run-write_items_example : run (some (codes "stdout")) none (0x68 ∷ 0x69 ∷ foo_bytes) ≡ record {
  events = received (codes "stdout") (text (codes "hi") ∷ call foo ∷ []);
  end = end_of_file;
}
run-write_items_example =
    run-write_items (text (codes "hi") ∷ call foo ∷ []) (0x68 ∷ 0x69 ∷ foo_bytes) (codes "stdout")
      (omega arith, (foo-IsSendable, tt)) foo_and_text

run-ne-out_of_fuel_example : (run none none (0xb3 ∷ 1 ∷ [])).end ≢ out_of_fuel
run-ne-out_of_fuel_example = run-ne-out_of_fuel none none (0xb3 ∷ 1 ∷ [])

parse_packet-truncated_example :
    (packet : Bytes) × (e : ParseError) × IsShort e
    × (parse_packet (0x29 ∷ 0x01 ∷ 0x0c ∷ 0x03 ∷ 0x66 ∷ 0x6f ∷ []) ≡ reported packet e [])
parse_packet-truncated_example =
    parse_packet-truncated foo foo_bytes (0x29 ∷ 0x01 ∷ 0x0c ∷ 0x03 ∷ 0x66 ∷ 0x6f ∷ [])
      (0x08 ∷ 0x55 ∷ 0x5f ∷ 0x1b ∷ []) 0x6f foo_packet refl

has_timestamp : test_flag 0x2200 flag_timestamp ≡ true
unfolding test_flag
has_timestamp = refl

parse_packet-struct_error_example :
    parse_packet (
      (middle 0x2200 8 [] ++ word_bytes (checksum_of (signature ∷ middle 0x2200 8 [])))
      ++ foo_bytes)
    ≡ record { events = []; source = foo_bytes; raised = some struct_error }
parse_packet-struct_error_example = parse_packet-struct_error 0x2200 foo_bytes has_timestamp

read_fields-version_example : read_fields (5 * 2 ^ 12 + 0x901) ≡ read_fields 0x901
read_fields-version_example = read_fields-version 5 0x901 (omega arith)

parse_varint-encode_number_example :
    (300 < 2 ^ 30
      → (bs : Bytes) × (encode_number 300 ≡ ok bs)
        × (1 ≤ pysubunit.Prelude.length bs)
        × (pysubunit.Prelude.length bs ≤ 4)
        × ((before rest : Bytes)
            → parse_varint false (before ++ (bs ++ rest)) (pysubunit.Prelude.length before)
              ≡ ok (300, pysubunit.Prelude.length bs)))
    × (2 ^ 30 ≤ 300 → encode_number 300 ≡ err (value_too_large 300))
parse_varint-encode_number_example = parse_varint-encode_number 300

-- The word "ó" in front of a packet.
run-signature_in_character_example :
    run (some (codes "stdout")) none (0xc3 ∷ 0xb3 ∷ foo_bytes)
    ≡ emit
        (non_subunit (codes "stdout") (0xc3 ∷ []) ∷ non_subunit (codes "stdout") (0xb3 ∷ []) ∷ [])
        (run_packet (run_loop 13 (some (codes "stdout"))) fresh none foo_bytes)
run-signature_in_character_example =
    run-signature_in_character 0xc3 (codes "stdout") foo_bytes (omega arith) (omega arith)
