-- ===== src/V2/Parser.antt =====
-- ByteStreamToStreamResult._parse and _parse_packet: one packet behind its signature. The source is
-- an in-memory binary stream (io.BytesIO), the list of the bytes that are still to be read.
pub mod RoundTrip
pub mod Source
pub mod Errors
use pysubunit.Prelude.{
  ℕ, ◌+◌, ◌-◌, Bool, true, false, not, ◌||◌, Option, none, some, List, [], ◌∷◌, ◌++◌, bit_and, ltb,
  ◌==◌, if◌then◌else◌, length, take, drop,
}
use pysubunit.Prelude.Int.{ℤ, sub_ℕ}
use pysubunit.Std.Struct.{unpack_16, unpack_32}
use pysubunit.Std.Crc32.{crc32}
use pysubunit.Std.Utf8
use pysubunit.Std.Format.{codes}
use pysubunit.V2.Types.{
  Text, Bytes, StatusEvent, fail, ParseError, short_header, short_packet, bad_checksum, Error,
  parse_error, struct_error, Result, ok, err, ◌>>=◌, or_raise, message,
}
use pysubunit.V2.Number.{parse_varint}
use pysubunit.V2.Fields.{read_fields}
use pysubunit.V2.Writer.{signature}

-- source.read(n) for an n that may be negative: then all that is left.
abbrev pub read : ℕ → ℕ → Bytes → Bytes
read n less source = if ltb n less then source else take (n - less) source

abbrev pub unread : ℕ → ℕ → Bytes → Bytes
unread n less source = if ltb n less then [] else drop (n - less) source

-- `bs[:-4]` and `bs[-4:]`
abbrev pub before_last_4 : Bytes → Bytes
before_last_4 bs = take (length bs - 4) bs

abbrev pub last_4 : Bytes → Bytes
last_4 bs = drop (length bs - 4) bs

-- What a parse leaves: the bytes of the packet that were kept, what is unread, and the outcome.
pub record Parsed : Type 0 where
  pub packet : Bytes
  pub source : Bytes
  pub outcome : Result StatusEvent

-- crc32(packet[0]), then the other fragments but the last, then the last without its four bytes.
unfoldable pub fragments_crc : List Bytes → Bytes → ℕ → ℕ
fragments_crc [] last crc = bit_and (crc32 (before_last_4 last) crc) 0xffffffff
fragments_crc (x ∷ xs) last crc = fragments_crc xs last (crc32 x crc)

abbrev value_of : Result (StatusEvent × ℕ) → Result StatusEvent
value_of (ok (s, at)) = ok s
value_of (err e) = err e

-- The checksum, and then the body without it. `packet` is what stands before the last fragment.
unfoldable pub check_and_read : ℕ → List Bytes → Bytes → ℕ → Result StatusEvent
check_and_read flags packet last at = do
  let crc = fragments_crc packet last 0
  packet_crc ← or_raise struct_error (unpack_32 (last_4 last))
  if crc == packet_crc
      then value_of (read_fields flags (before_last_4 last) at)
      else err (parse_error (bad_checksum crc packet_crc))

-- The length includes the six bytes that are read already.
unfoldable pub parse_rest : ℕ → Bytes → Bytes → ℕ × ℕ → Parsed
parse_rest flags header source (size, consumed) =
    let remainder = read size 6 source in
    if ltb size 6 || not (length remainder == size - 6)
    then record {
      packet = signature ∷ header;
      source = unread size 6 source;
      outcome = err (parse_error (short_packet (length remainder) (sub_ℕ size 6)));
    }
    else record {
      packet = signature ∷ (header ++ remainder);
      source = unread size 6 source;
      outcome =
          if consumed == 3
          then check_and_read flags ((signature ∷ []) ∷ header ∷ []) remainder 0
          else check_and_read flags ((signature ∷ []) ∷ []) (header ++ remainder) (2 + consumed);
    }

abbrev failed : Bytes → Bytes → Error → Parsed
failed packet source e = record { packet = packet; source = source; outcome = err e }

abbrev with_length : Bytes → Bytes → ℕ → Result (ℕ × ℕ) → Parsed
with_length header source flags (err e) = failed (signature ∷ header) source e
with_length header source flags (ok p) = parse_rest flags header source p

abbrev with_flags : Bytes → Bytes → Result ℕ → Parsed
with_flags header source (err e) = failed (signature ∷ header) source e
with_flags header source (ok flags) = with_length header source flags (parse_varint true header 2)

-- _parse: 2 bytes flags, at most 3 bytes length.
unfoldable pub parse : Bytes → Parsed
parse source =
    let header = take 5 source in
    let source = drop 5 source in
    if length header == 5
    then with_flags header source (or_raise struct_error (unpack_16 (take 2 header)))
    else failed (signature ∷ header) source (parse_error (short_header (length header)))

-- The defaults of status's arguments.
abbrev pub no_status : StatusEvent
no_status = record {
  test_id = none;
  test_status = none;
  test_tags = none;
  runnable = true;
  file_name = none;
  file_bytes = none;
  eof = false;
  mime_type = none;
  route_code = none;
  timestamp = none;
}

-- error.args[0].encode('utf8'): the texts are ASCII.
unfoldable pub packet_data : Bytes → StatusEvent
packet_data packet = record no_status {
  test_id = some (codes "subunit.parser");
  eof = true;
  file_name = some (codes "Packet data");
  file_bytes = some packet;
  mime_type = some (codes "application/octet-stream");
}

unfoldable pub parser_error : ParseError → StatusEvent
parser_error e = record no_status {
  test_id = some (codes "subunit.parser");
  test_status = some fail;
  eof = true;
  file_name = some (codes "Parser Error");
  file_bytes = some (message e);
  mime_type = some (codes "text/plain;charset=utf8");
}

-- What _parse_packet does: the calls of result.status, what is unread, and an exception that is no
-- ParseError.
pub record Handled : Type 0 where
  pub events : List StatusEvent
  pub source : Bytes
  pub raised : Option Error

abbrev handle : Bytes → Bytes → Result StatusEvent → Handled
handle packet source (ok s) = record { events = s ∷ []; source = source; raised = none }
handle packet source (err (parse_error e)) = record {
  events = packet_data packet ∷ parser_error e ∷ [];
  source = source;
  raised = none;
}
handle packet source (err e) = record { events = []; source = source; raised = some e }

unfoldable pub parse_packet : Bytes → Handled
parse_packet source = let p = parse source in handle p.packet p.source p.outcome
