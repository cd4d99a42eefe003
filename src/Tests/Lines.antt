-- ===== src/Tests/Lines.antt =====
-- Version 1 streams, as in test_test_protocol.py.
use pysubunit.Prelude.{
  true, ◌≡◌, ◌↔◌, refl, ℕ, List, ◌++◌, [], ◌∷◌, Option, none, some, eq_bytes, All,
}
use pysubunit.Std.Format.{codes}
use pysubunit.Std.Hex.{int_16, rstrip}
use pysubunit.Std.Words.{
  split_once, split, strip, int, decode, readlines, starts_with, is_in, split_at, split_in_two,
}
use pysubunit.Std.Utf8
use pysubunit.Std.Dict.{set_item}
use pysubunit.V2.Types.{Bytes, add_tag, contains}
use pysubunit.Chunked.Decoder
use pysubunit.Chunked.Encoder.{join}
use pysubunit.V1.Calls.{Call, start_test, stop_test, add, failure, skip, tags, attribute_error}
use pysubunit.V1.Details.{line_received, get_details}
use pysubunit.V1.Server
use pysubunit.V1.Server.{Step, Server, Effect, client, passed, forwarded, read_from}
use pysubunit.V1.Server.Keyword.{command_of}
use pysubunit.V1.Server.Brackets.{read_from-Follows}
use pysubunit.V1.Server.Brackets.Order.{Phase, idle, Follows, Ended, calls}
use pysubunit.V1.Server.Errors.{is_missing, line_step-attribute_error}
use pysubunit.V1.Server.Echo.{IsEchoed, written, read_from-written}

abbrev pub no_time : Bytes → Option ℕ
no_time bs = none

unfoldable pub read_test : Bytes → Server → Step ℕ
unfolding read_from Server.read_lines Server.line_step Server.lost_connection Server.handle_time
    Server.handle_tags Server.handle_progress Server.outside_start Server.in_test_outcome
    Server.tags_to_new_gone command_of readlines split_once split strip int decode starts_with is_in
    rstrip eq_bytes line_received get_details set_item split_at split_in_two Utf8.decode
    Utf8.decode_loop Utf8.front Utf8.two Utf8.three Utf8.four add_tag contains Decoder.write
    Decoder.call Decoder.turn_read_length Decoder.turn_finished Decoder.body_loop Decoder.drop_bytes
    Decoder.count_chars Decoder.line_chars Decoder.has_cr join int_16
read_test = read_from no_time

abbrev stream : Bytes
stream = codes "hi\ntags: a -b\ntest: t\nsuccess: x\nfailure: t [\nbad\n ]\n]\n"

read_stream :
    (read_test stream Server.new).effects
    ≡ passed (codes "hi\n")
      ∷ client (tags (codes "a" ∷ []) (codes "b" ∷ []))
      ∷ forwarded (codes "tags: a -b\n")
      ∷ client (start_test (some (codes "t")))
      ∷ forwarded (codes "test: t\n")
      ∷ passed (codes "success: x\n")
      ∷ forwarded (codes "failure: t [\n")
      ∷ forwarded (codes "bad\n")
      ∷ forwarded (codes " ]\n")
      ∷ client (
          add failure (some (codes "t")) (
            some (
              (
                codes "traceback",
                record {
                  main = codes "text";
                  sub = codes "x-traceback";
                  parameters = (codes "charset", codes "utf8") ∷ [];
                  chunks = codes "bad\n]\n" ∷ [];
                },
              )
              ∷ [])))
      ∷ client (stop_test (some (codes "t")))
      ∷ forwarded (codes "]\n")
      ∷ []
unfolding read_test
read_stream = refl

multipart_stream :
    (read_test
      (codes "test: t\nskip: t [ multipart\nContent-Type: text/plain\nlog\n3\r\nab\n0\r\n]\n")
      Server.new).effects
    ≡ client (start_test (some (codes "t")))
      ∷ forwarded (codes "test: t\n")
      ∷ forwarded (codes "skip: t [ multipart\n")
      ∷ forwarded (codes "Content-Type: text/plain\n")
      ∷ forwarded (codes "log\n")
      ∷ forwarded (codes "3\r\n")
      ∷ forwarded (codes "ab\n")
      ∷ forwarded (codes "0\r\n")
      ∷ client (
          add skip (some (codes "t")) (
            some (
              (
                codes "log",
                record {
                  main = codes "text";
                  sub = codes "plain";
                  parameters = [];
                  chunks = codes "ab\n" ∷ [];
                },
              )
              ∷ [])))
      ∷ client (stop_test (some (codes "t")))
      ∷ forwarded (codes "]\n")
      ∷ []
unfolding read_test
multipart_stream = refl

-- A stream of one test that it ends, and of one that it does not.
abbrev pub cut_stream : Bytes
cut_stream = codes "test: t\nsuccess: t\nhi\ntest: u\n"

read_from-Follows_example :
    (q : Phase) × (cs : List (Call ℕ)) × (ds : List (Call ℕ)) × Follows idle cs q
    × (calls (read_from no_time cut_stream Server.new).effects ≡ cs ++ ds)
    × Ended (read_from no_time cut_stream Server.new).exception q ds
read_from-Follows_example = read_from-Follows no_time cut_stream Server.new

cut_stream-IsEchoed : All IsEchoed (readlines cut_stream)
unfolding command_of readlines split_once starts_with is_in rstrip eq_bytes
cut_stream-IsEchoed = (refl, (refl, (refl, (refl, tt))))

cut_stream_passes : (read_test cut_stream Server.new).exception ≡ none
unfolding read_test
cut_stream_passes = refl

pub cut_stream_no_exception : (read_from no_time cut_stream Server.new).exception ≡ none
unfolding read_test
cut_stream_no_exception = cut_stream_passes

read_from-written_example :
    join (written (read_from no_time cut_stream Server.new).effects) ≡ cut_stream
read_from-written_example =
    read_from-written no_time cut_stream Server.new cut_stream-IsEchoed cut_stream_no_exception

-- What a line that starts a test leaves if its name is not UTF-8.
abbrev undecoded : Server
undecoded = record { state = Server.in_test; current_test = none; description = Server.unset }

undecoded_start : (read_test (codes "test: " ++ 0xff ∷ 10 ∷ []) Server.new).server ≡ undecoded
unfolding read_test
undecoded_start = refl

line_step-attribute_error_example :
    (Server.line_step no_time undecoded (codes "success: t\n")).exception ≡ some attribute_error ↔ (
      is_missing undecoded.state undecoded.description
        (codes "success: t\n")
        (command_of (codes "success: t\n"))
      ≡ true)
line_step-attribute_error_example =
    line_step-attribute_error ℕ no_time undecoded (codes "success: t\n")

-- The directives are found, so the exception is raised.
outcome_missing :
    is_missing undecoded.state undecoded.description
      (codes "success: t\n")
      (command_of (codes "success: t\n"))
    ≡ true
unfolding command_of split_once starts_with is_in rstrip eq_bytes decode Utf8.decode
    Utf8.decode_loop Utf8.front Utf8.two Utf8.three Utf8.four
outcome_missing = refl

uxsuccess_missing :
    is_missing Server.outside_test Server.unset
      (codes "uxsuccess: t\n")
      (command_of (codes "uxsuccess: t\n"))
    ≡ true
unfolding command_of split_once starts_with is_in rstrip eq_bytes
uxsuccess_missing = refl
