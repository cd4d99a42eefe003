-- ===== src/Tests/Output.antt =====
-- subunit-output on a small file, and on standard input with a name.
use pysubunit.Prelude.{◌≡◌, ◌↔◌, refl, List, [], ◌∷◌, Option, none, some, true, arith, eq_bytes}
use pysubunit.Prelude.Int.{pos}
use pysubunit.Std.Format.{codes}
use pysubunit.Std.Timedelta.{Timedelta}
use pysubunit.V2.Types.{Text, Bytes, StatusEvent, success, ok, add_tag, contains}
use pysubunit.V2.Writer.{write_all}
use pysubunit.V2.Run.{run, end_of_file}
use pysubunit.Output.{
  Options, Args, File, opened, left_as_text, checked, check_options, sent, attribute_error,
  generate_stream_results, hunk_loop, attached_calls, chunk_size,
}
use pysubunit.Results.Tags.{update}
use pysubunit.Output.Calls.{calls_of, AreHunks, generate-calls}
use pysubunit.Output.Streams.{AreSendable, contents, run-generate}
use pysubunit.Output.Errors.{named_stdin, generate-attribute_error}
use pysubunit.Tests.Packets.{write_test, bytes_of}

abbrev options : Options
options = record {
  action = some success;
  test_id = some (codes "t");
  attach_file = some (codes "log");
  file_name = none;
  mimetype = some (codes "text/plain");
  tags = codes "a" ∷ codes "a" ∷ [];
}

abbrev log : File
log = record { name = codes "log"; content = codes "hi" }

abbrev args : Args
args = record { options = options; attachment = opened log }

abbrev now : Timedelta
now = record { days = pos 15706; seconds = 3723; microseconds = 45 }

abbrev attached : List StatusEvent
attached =
    record {
      test_id = some (codes "t");
      test_status = some success;
      test_tags = some (codes "a" ∷ []);
      runnable = true;
      file_name = some (codes "log");
      file_bytes = some (codes "hi");
      eof = true;
      mime_type = some (codes "text/plain");
      route_code = none;
      timestamp = some now;
    }
    ∷ []

one_call : generate_stream_results args now ≡ sent attached
unfolding generate_stream_results attached_calls hunk_loop update add_tag contains eq_bytes
one_call = refl

-- Three hunks of at most two bytes.
abbrev three_hunks : Option (List StatusEvent)
three_hunks = attached_calls 2 args (record log { content = codes "hello" }) now

hunks_of : Option (List StatusEvent) → List (Option Bytes)
hunks_of none = []
hunks_of (some []) = []
hunks_of (some (s ∷ ss)) = s.file_bytes ∷ hunks_of (some ss)

generate-calls_example :
    (hunks : List Bytes) × (generate_stream_results args now ≡ sent (calls_of args log now hunks))
    × AreHunks chunk_size (codes "hi") hunks
generate-calls_example = generate-calls args log now refl

args-AreSendable : AreSendable args log now
args-AreSendable = record {
  test_id = omega arith;
  file_name = tt;
  mimetype = omega arith;
  tags = omega arith;
  name = omega arith;
  clock = record { seconds_fit = omega arith; microseconds_fit = omega arith };
}

attached_written : write_all attached ≡ ok (bytes_of (write_all attached))
unfolding write_test write_all
attached_written = refl

run-generate_example :
    ((run none none (bytes_of (write_all attached))).end ≡ end_of_file)
    × (contents (run none none (bytes_of (write_all attached))).events ≡ codes "hi")
run-generate_example =
    run-generate args log now attached (bytes_of (write_all attached)) none none refl
      args-AreSendable one_call attached_written

-- `--attach-file - --file-name log`
abbrev named : Options
named = record options { attach_file = some (codes "-"); file_name = some (codes "log") }

abbrev no_file : Text → Option Bytes
no_file path = none

named_checked :
    check_options no_file (codes "hi") (codes "<stdin>") named
    ≡ checked (record { options = named; attachment = left_as_text (codes "-") })
unfolding check_options eq_bytes
named_checked = refl

generate-attribute_error_example :
    (generate_stream_results (record { options = named; attachment = left_as_text (codes "-") }) now
      ≡ attribute_error)
    ↔ (named_stdin (some (codes "-")) (some (codes "log")) ≡ true)
generate-attribute_error_example =
    generate-attribute_error no_file (codes "hi") (codes "<stdin>") named
      (record { options = named; attachment = left_as_text (codes "-") }) now named_checked

three_hunks_cut :
    hunks_of three_hunks ≡ some (codes "he") ∷ some (codes "ll") ∷ some (codes "o") ∷ []
unfolding attached_calls hunk_loop update add_tag contains eq_bytes hunks_of
three_hunks_cut = refl
