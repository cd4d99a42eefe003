-- ===== src/V1/Details.antt =====
-- details.SimpleDetailsParser and details.MultipartDetailsParser.
pub mod Errors
use pysubunit.Prelude.{
  ◌-◌, Option, none, some, [], ◌∷◌, ◌++◌, eq_bytes, if◌then◌else◌, length, take, drop, true,
}
use pysubunit.Std.Format.{codes}
use pysubunit.Std.Words.{split_at, split_in_two}
use pysubunit.Std.Words
use pysubunit.Std.Dict.{set_item}
use pysubunit.V2.Types.{Text, Bytes}
use pysubunit.Chunked.Decoder.{Decoder, Outcome, nothing, returns, raises, out_of_fuel}
use pysubunit.Chunked.Decoder
use pysubunit.V1.Calls.{
  Content, Details, Error, unicode_decode_error, invalid_mime_type, no_space, residue_left,
  chunk_error,
}

abbrev pub end_marker : Bytes
end_marker = codes "]\n"

abbrev pub quoted_marker : Bytes
quoted_marker = codes " ]"

-- `line[:-1]`
abbrev pub but_last : Bytes → Bytes
but_last line = take (length line - 1) line

-- Where the parser of the multipart form stands: _look_for_content, _get_name, _feed_chunks, with
-- what the method after it reads of the object.
pub data Phase : Type 0 where
  look_for_content : Phase
  get_name : Text → Text → Phase
  feed_chunks : Text → Text → Text → Decoder → Phase

pub data Parser : Type 0 where
  simple : Bytes → Parser
  multipart : Details → Phase → Parser

abbrev pub new_simple : Parser
new_simple = simple []

abbrev pub new_multipart : Parser
new_multipart = multipart [] look_for_content

-- What a line does: the parser goes on, the details end, or an exception is raised.
pub data Read : Type 0 where
  more : Parser → Read
  ended : Read
  raised : Parser → Error → Read

unfoldable pub simple_line : Bytes → Bytes → Read
simple_line message line =
    if eq_bytes line end_marker
    then ended
    else if eq_bytes (take 2 line) quoted_marker
    then more (simple (message ++ drop 1 line))
    else more (simple (message ++ line))

-- `main, sub = value.split('/')`
abbrev pub typed : Details → Text → Option (Text × Text) → Read
typed ds value none = raised (multipart ds look_for_content) (invalid_mime_type value)
typed ds value (some (main, sub)) = more (multipart ds (get_name main sub))

-- `field, value = text.split(' ', 1)`
abbrev pub with_field : Details → Text → Option (Text × Text) → Read
with_field ds text none = raised (multipart ds look_for_content) (no_space text)
with_field ds text (some (field, value)) = typed ds value (split_in_two b'/' value)

abbrev pub with_text : Details → Option Text → Read
with_text ds none = raised (multipart ds look_for_content) unicode_decode_error
with_text ds (some text) = with_field ds text (split_at 32 text)

unfoldable pub content_line : Details → Bytes → Read
content_line ds line =
    if eq_bytes line end_marker then ended else with_text ds (Words.decode (but_last line))

abbrev pub named : Details → Text → Text → Option Text → Read
named ds main sub none = raised (multipart ds (get_name main sub)) unicode_decode_error
named ds main sub (some name) = more (multipart ds (feed_chunks main sub name (Decoder.new true)))

unfoldable pub name_line : Details → Text → Text → Bytes → Read
name_line ds main sub line = named ds main sub (Words.decode (but_last line))

-- The chunk parser is done: no bytes may be left over.
abbrev pub finish : Details → Text → Text → Text → Decoder → Bytes → Read
finish ds main sub name d [] = more (
    multipart
      (set_item name (record { main = main; sub = sub; parameters = []; chunks = d.output ∷ [] })
        ds)
      look_for_content)
finish ds main sub name d (c ∷ cs) =
    raised (multipart ds (feed_chunks main sub name d)) (residue_left (c ∷ cs))

-- The decoder's fuel does not run out.
abbrev pub fed : Details → Text → Text → Text → Decoder → Outcome → Read
fed ds main sub name d nothing = more (multipart ds (feed_chunks main sub name d))
fed ds main sub name d (returns residue) = finish ds main sub name d residue
fed ds main sub name d (raises e) =
    raised (multipart ds (feed_chunks main sub name d)) (chunk_error e)
fed ds main sub name d out_of_fuel = more (multipart ds (feed_chunks main sub name d))

unfoldable pub chunk_line : Details → Text → Text → Text → Decoder → Bytes → Read
chunk_line ds main sub name d line =
    let w = Decoder.write d line in fed ds main sub name w.decoder w.outcome

-- lineReceived
unfoldable pub line_received : Parser → Bytes → Read
unfolding simple_line content_line name_line chunk_line
line_received (simple message) line = simple_line message line
line_received (multipart ds look_for_content) line = content_line ds line
line_received (multipart ds (get_name main sub)) line = name_line ds main sub line
line_received (multipart ds (feed_chunks main sub name d)) line = chunk_line ds main sub name d line

-- The argument of get_details: none, "skip" or "success".
pub data Style : Type 0 where
  no_style skip_style success_style : Style

abbrev message_name : Style → Text
message_name no_style = codes "traceback"
message_name skip_style = codes "reason"
message_name success_style = codes "message"

abbrev message_type : Style → Bytes → Content
message_type no_style message = record {
  main = codes "text";
  sub = codes "x-traceback";
  parameters = (codes "charset", codes "utf8") ∷ [];
  chunks = message ∷ [];
}
message_type _ message = record {
  main = codes "text";
  sub = codes "plain";
  parameters = [];
  chunks = message ∷ [];
}

unfoldable pub get_details : Style → Parser → Details
get_details style (simple message) = (message_name style, message_type style message) ∷ []
get_details style (multipart ds phase) = ds
