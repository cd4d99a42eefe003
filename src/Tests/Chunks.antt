-- ===== src/Tests/Chunks.antt =====
-- chunked.py on concrete bytes.
use pysubunit.Prelude.{
  ◌≡◌, ◌≢◌, refl, List, [], ◌∷◌, ◌++◌, none, ◌<◌, length, arith, true, eq_bytes,
}
use pysubunit.Std.Format.{codes, hex_upper}
use pysubunit.Std.Hex.{int_16, rstrip}
use pysubunit.V2.Types.{Bytes}
use pysubunit.Chunked.Encoder.{join}
use pysubunit.Chunked.Encoder
use pysubunit.Chunked.Encoder.Coded.{coded, IsChunk, close-coded}
use pysubunit.Chunked.Decoder
use pysubunit.Chunked.Decoder.Ends.{write-ne-out_of_fuel}
use pysubunit.Chunked.Decoder.RoundTrip.{feed, IsDecoded, feed-close}
use pysubunit.Prelude.{All}

two_writes :
    (Encoder.close (Encoder.writes Encoder.new (codes "ab" ∷ codes "c" ∷ []))).output
    ≡ codes "3\r\nabc0\r\n"
unfolding Encoder.close Encoder.writes Encoder.write Encoder.flush Encoder.join hex_upper
two_writes = refl

close-coded_example :
    (cs : List Bytes) × All IsChunk cs
    × (join cs ≡ join (codes "ab" ∷ codes "c" ∷ []))
    × ((Encoder.close (Encoder.writes Encoder.new (codes "ab" ∷ codes "c" ∷ []))).output ≡ coded cs)
close-coded_example = close-coded (codes "ab" ∷ codes "c" ∷ [])

abbrev decode_runs : Bytes → Decoder.Written
decode_runs bs = Decoder.write (Decoder.new true) bs

whole_stream : decode_runs (codes "3\r\nabc0\r\nxy") ≡ record {
  decoder = record {
    output = codes "abc";
    buffered_bytes = [];
    state = Decoder.finished;
    body_length = 0;
    strict = true;
  };
  outcome = Decoder.returns (codes "xy");
}
unfolding Decoder.write Decoder.call Decoder.turn_read_length Decoder.turn_finished
    Decoder.body_loop Decoder.drop_bytes Decoder.count_chars Decoder.line_chars Decoder.has_cr join
    int_16 rstrip eq_bytes
whole_stream = refl

-- A character that no header may hold, at the end of the first of two writes.
abbrev hidden : Decoder.Decoder
hidden = (Decoder.write (decode_runs (codes "3x")).decoder (codes "\r\nabc0\r\n")).decoder

hidden_character : hidden.output ≡ codes "\nab"
unfolding Decoder.write Decoder.call Decoder.turn_read_length Decoder.turn_finished
    Decoder.body_loop Decoder.drop_bytes Decoder.count_chars Decoder.line_chars Decoder.has_cr join
    int_16 rstrip eq_bytes
hidden_character = refl

write-ne-out_of_fuel_example :
    (Decoder.write (Decoder.new true) (codes "3\r\nabc0\r\nxy")).outcome ≢ Decoder.out_of_fuel
write-ne-out_of_fuel_example = write-ne-out_of_fuel (Decoder.new true) (codes "3\r\nabc0\r\nxy")

-- Cut in the middle of a header and of a chunk.
abbrev pieces : List Bytes
pieces = codes "3" ∷ codes "\r\na" ∷ codes "bc0\r" ∷ codes "\nx" ∷ codes "y" ∷ []

pieces_joined :
    join pieces
    ≡ (Encoder.close (Encoder.writes Encoder.new (codes "ab" ∷ codes "c" ∷ []))).output
      ++ codes "xy"
unfolding Encoder.close Encoder.writes Encoder.write Encoder.flush Encoder.join hex_upper
pieces_joined = refl

pieces_some : All (λ x. 0 < length x) pieces
pieces_some = omega arith

feed-close_example :
    IsDecoded true (codes "abc") (codes "xy") (feed (Decoder.new true) pieces)
    × (Decoder.close (feed (Decoder.new true) pieces).decoder ≡ none)
unfolding join
feed-close_example =
    feed-close (codes "ab" ∷ codes "c" ∷ []) true (codes "xy") pieces pieces_some pieces_joined
