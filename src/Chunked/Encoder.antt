-- ===== src/Chunked/Encoder.antt =====
-- chunked.Encoder. The output stream is the list of the bytes that it was given.
pub mod Coded
use pysubunit.Prelude.{ℕ, ◌+◌, List, [], ◌∷◌, ◌++◌, leb, ◌==◌, ◌&&◌, if◌then◌else◌, length}
use pysubunit.Std.Format.{codes, hex_upper}
use pysubunit.V2.Types.{Bytes}

pub record Encoder : Type 0 where
  pub output : Bytes
  pub buffered_bytes : List Bytes
  pub buffer_size : ℕ

abbrev pub new : Encoder
new = record { output = []; buffered_bytes = []; buffer_size = 0 }

-- b''.join(fragments)
unfoldable pub join : List Bytes → Bytes
join [] = []
join (x ∷ xs) = x ++ join xs

-- "%X\r\n" % size
abbrev pub chunk_header : ℕ → Bytes
chunk_header size = hex_upper size ++ codes "\r\n"

abbrev buffered_part : Encoder → Bytes
buffered_part e = if e.buffer_size == 0 then [] else join e.buffered_bytes

unfoldable pub flush : Encoder → ℕ → Encoder
flush e extra_len = if e.buffer_size == 0 && extra_len == 0 then e else record {
  output = e.output ++ (chunk_header (e.buffer_size + extra_len) ++ buffered_part e);
  buffered_bytes = [];
  buffer_size = 0;
}

abbrev put : Encoder → Bytes → Encoder
put e bytes = record e { output = e.output ++ bytes }

unfoldable pub write : Encoder → Bytes → Encoder
write e bytes =
    if leb 65536 (e.buffer_size + length bytes)
    then put (flush e (length bytes)) bytes
    else record e {
      buffered_bytes = e.buffered_bytes ++ bytes ∷ [];
      buffer_size = e.buffer_size + length bytes;
    }

unfoldable pub close : Encoder → Encoder
close e = put (flush e 0) (codes "0\r\n")

-- A number of writes.
unfoldable pub writes : Encoder → List Bytes → Encoder
writes e [] = e
writes e (bytes ∷ more) = writes (write e bytes) more
