-- ===== src/V2/Run.antt =====
-- ByteStreamToStreamResult.run: packets and other content in one stream.
pub mod Packets
pub mod Ends
pub mod Characters
use pysubunit.Prelude.{
  ℕ, zero, suc, ◌+◌, Bool, true, false, not, ◌&&◌, ◌||◌, Option, none, some, List, [], ◌∷◌, ◌++◌,
  leb, ◌==◌, if◌then◌else◌, length, drop,
}
use pysubunit.Std.Utf8
use pysubunit.V2.Types.{Text, Bytes, StatusEvent, Error, non_subunit_content}
use pysubunit.V2.Writer.{signature}
use pysubunit.V2.Parser.{Handled, parse_packet, no_status}

-- The incremental UTF-8 decoder keeps the bytes of a character that is not complete, and keeps what
-- it had when it raises. `mid_character` is the loop's own variable.
pub record Codec : Type 0 where
  pub kept : Bytes
  pub mid_character : Bool

abbrev pub fresh : Codec
fresh = record { kept = []; mid_character = false }

abbrev is_empty : Text → Bool
is_empty [] = true
is_empty (c ∷ cs) = false

abbrev after_decode : Codec → Bytes → Option (Text × ℕ) → Codec
after_decode c fed none = record c { mid_character = false }
after_decode c fed (some (t, used)) = record { kept = drop used fed; mid_character = is_empty t }

-- self.codec.decode(content) and the three branches around it.
unfoldable pub feed : Codec → ℕ → Codec
feed c b = let fed = c.kept ++ b ∷ [] in after_decode c fed (Utf8.decode fed)

-- The end of the aggregating loop: `content` is what was read last, none at the end of the file.
pub record Gathered : Type 0 where
  pub buffered : Bytes
  pub content : Option ℕ
  pub codec : Codec
  pub source : Bytes
  pub polls : Option (List Bool)

-- `polls` is what the environment answers: none if source.fileno() raises (or on Windows), else
-- whether each select finds the source readable, and not readable when the answers end.
unfoldable pub aggregate : Bytes → ℕ → Codec → Option (List Bool) → Bytes → Gathered
aggregate buffered last c none source = record {
  buffered = buffered;
  content = some last;
  codec = c;
  source = source;
  polls = none;
}
aggregate buffered last c (some []) source = record {
  buffered = buffered;
  content = some last;
  codec = c;
  source = source;
  polls = some [];
}
aggregate buffered last c (some (false ∷ ps)) source = record {
  buffered = buffered;
  content = some last;
  codec = c;
  source = source;
  polls = some ps;
}
aggregate buffered last c (some (true ∷ ps)) [] = record {
  buffered = buffered;
  content = none;
  codec = c;
  source = [];
  polls = some ps;
}
aggregate buffered last c (some (true ∷ ps)) (b ∷ source) =
    let here = buffered ++ b ∷ [] in
    let c' = feed c b in
    let more = aggregate here b c' (some ps) source in
    if not c.mid_character && b == signature
    then record {
      buffered = buffered;
      content = some b;
      codec = c;
      source = source;
      polls = some ps;
    }
    else if leb 1048576 (length here)
    then record { buffered = here; content = some b; codec = c'; source = source; polls = some ps }
    else more

-- How run ends: at the end of the source, or by an exception. The model's loop has fuel.
pub data End : Type 0 where
  end_of_file : End
  raised : Error → End
  out_of_fuel : End

pub record Trace : Type 0 where
  pub events : List StatusEvent
  pub end : End

abbrev pub emit : List StatusEvent → Trace → Trace
emit es t = record t { events = es ++ t.events }

-- The rest of the run after a packet, if nothing was raised.
abbrev go_on : Option Error → Trace → Trace
go_on none t = t
go_on (some e) t = record { events = []; end = raised e }

-- Whether the byte that ended the aggregation begins a packet.
abbrev starts_packet : Codec → Option ℕ → Bool
starts_packet c none = false
starts_packet c (some b) = not c.mid_character && b == signature

abbrev pub non_subunit : Text → Bytes → StatusEvent
non_subunit name bs = record no_status { file_name = some name; file_bytes = some bs }

abbrev pub Rest : Type 0
Rest = Codec → Option (List Bool) → Bytes → Trace

-- The signature was read: a packet, and the rest of the run.
unfoldable pub run_packet : Rest → Codec → Option (List Bool) → Bytes → Trace
run_packet rest c polls source =
    let h = parse_packet source in emit h.events (go_on h.raised (rest c polls h.source))

-- What was gathered is emitted, and a packet follows if its signature was read.
unfoldable pub run_gathered : Rest → Text → Gathered → Trace
run_gathered rest label g = emit (non_subunit label g.buffered ∷ []) (
    if starts_packet g.codec g.content
    then run_packet rest g.codec g.polls g.source
    else rest g.codec g.polls g.source)

-- Another byte was read.
unfoldable pub run_content : Rest → Option Text → ℕ → Codec → Option (List Bool) → Bytes → Trace
run_content rest none b c polls source = record {
  events = [];
  end = raised (non_subunit_content (b ∷ []));
}
run_content rest (some label) b c polls source =
    run_gathered rest label (aggregate (b ∷ []) b (feed c b) polls source)

unfoldable pub run_loop : ℕ → Option Text → Codec → Option (List Bool) → Bytes → Trace
run_loop zero name c polls source = record { events = []; end = out_of_fuel }
run_loop (suc fuel) name c polls [] = record { events = []; end = end_of_file }
run_loop (suc fuel) name c polls (b ∷ source) =
    if not c.mid_character && b == signature
    then run_packet (run_loop fuel name) c polls source
    else run_content (run_loop fuel name) name b c polls source

-- run: each round reads a byte at least.
unfoldable pub run : Option Text → Option (List Bool) → Bytes → Trace
run name polls source = run_loop (suc (length source)) name fresh polls source
