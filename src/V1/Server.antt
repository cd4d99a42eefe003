-- ===== src/V1/Server.antt =====
-- TestProtocolServer with its states: _OutSideTest, _InTest and the six _Reading...Details. A line
-- gives calls of the client and writes to the two streams, in order.
pub mod Keyword
mod Base
pub mod Brackets
pub mod Echo
pub mod Errors
pub use Base.*
unfoldable pub use Base.{sort_tags, tags_to_new_gone}
use pysubunit.Prelude.{
  ℕ, ◌+◌, ◌-◌, Option, none, some, List, [], ◌∷◌, ◌++◌, eq_bytes, if◌then◌else◌, length, take, drop,
  true, false, Bool,
}
use pysubunit.Prelude.{◌==◌, ◌||◌}
use pysubunit.Prelude.Int.{ℤ}
use pysubunit.Std.Format.{codes}
use pysubunit.Std.Words
use pysubunit.V2.Types.{Text, Bytes, add_tag}
use pysubunit.V1.Calls.{
  Outcome, error, failure, skip, success, xfail, uxsuccess, Call, start_test, stop_test, add,
  add_remote_error, progress, tags, time, Progress, set, cur, push, pop, Error,
  unicode_decode_error, attribute_error, not_a_number, unparsed_time, type_error, index_error,
}
use pysubunit.V1.Details.{
  Parser, new_simple, new_multipart, Read, more, ended, raised, line_received, Style, no_style,
  skip_style, success_style, get_details,
}
use pysubunit.V1.Server.Keyword.{
  Command, test_command, outcome_command, progress_command, tags_command, time_command,
  other_command, command_of, named_part,
}

module _ {Time : Type 0} where
  abbrev pub goes : List (Effect Time) → Server → Step Time
  goes es s = record { effects = es; server = s; exception = none }

  abbrev pub fails : Server → Error → Step Time
  fails s e = record { effects = []; server = s; exception = some e }

  -- An outcome without details: a success that was not expected has none at all.
  abbrev pub plain_outcome : Outcome → Option Text → Call Time
  plain_outcome uxsuccess test = add uxsuccess test none
  plain_outcome outcome test = add outcome test (some [])

  abbrev pub begin_details : Outcome → Parser → Server → Bytes → Step Time
  begin_details outcome p s line =
      goes (forwarded line ∷ []) (record s { state = reading outcome p })

  -- _InTest._outcome, where the description is `d` and the line names `name`.
  abbrev pub named_outcome : Outcome → Server → Bytes → Text → Text → Step Time
  named_outcome outcome s line d name =
      if eq_bytes d name
      then goes
          (client (plain_outcome outcome s.current_test)
            ∷ client (stop_test s.current_test)
            ∷ forwarded line
            ∷ [])
          (record { state = outside_test; current_test = none; description = cleared })
      else if eq_bytes (d ++ codes " [") name
      then begin_details outcome new_simple s line
      else if eq_bytes (d ++ codes " [ multipart") name
      then begin_details outcome new_multipart s line
      else goes (passed line ∷ []) s

  -- The name is decoded first. The description is then compared with it, which fails where the
  -- attribute is not there, and extended, which fails for None.
  abbrev pub described_outcome : Outcome → Server → Bytes → Description → Option Text → Step Time
  described_outcome outcome s line d none = fails s unicode_decode_error
  described_outcome outcome s line unset (some name) = fails s attribute_error
  described_outcome outcome s line cleared (some name) = fails s type_error
  described_outcome outcome s line (describes d) (some name) = named_outcome outcome s line d name

  unfoldable pub in_test_outcome : Outcome → Server → Bytes → ℕ → Step Time
  in_test_outcome outcome s line offset =
      described_outcome outcome s line s.description (Words.decode (named_part offset line))

  -- _OutSideTest.startTest: the state changes before the name is decoded.
  abbrev pub started : Server → Bytes → Option Text → Step Time
  started s line none = fails (record s { state = in_test }) unicode_decode_error
  started s line (some name) =
      goes (client (start_test (some name)) ∷ forwarded line ∷ [])
        (record { state = in_test; current_test = some name; description = describes name })

  unfoldable pub outside_start : Server → Bytes → ℕ → Step Time
  outside_start s line offset = started s line (Words.decode (named_part offset line))

  -- An outcome outside of a test. The class has no addUnexpectedSuccess there.
  abbrev pub outside_outcome : Outcome → Server → Bytes → Step Time
  outside_outcome uxsuccess s line = fails s attribute_error
  outside_outcome _ s line = goes (passed line ∷ []) s

  -- _handleProgress
  abbrev pub numbered : (ℤ → Progress) → Server → Bytes → Option ℤ → Step Time
  numbered whence s text none = fails s (not_a_number text)
  numbered whence s text (some delta) = goes (client (progress (whence delta)) ∷ []) s

  abbrev pub progress_of : Server → Bytes → Step Time
  progress_of s [] = fails s index_error
  progress_of s (c ∷ cs) =
      if is_sign c
      then numbered cur s (c ∷ cs) (Words.int (c ∷ cs))
      else if eq_bytes (c ∷ cs) (codes "push")
      then goes (client (progress push) ∷ []) s
      else if eq_bytes (c ∷ cs) (codes "pop")
      then goes (client (progress pop) ∷ []) s
      else numbered set s (c ∷ cs) (Words.int (c ∷ cs))

  unfoldable pub handle_progress : Server → Bytes → ℕ → Step Time
  handle_progress s line offset = progress_of s (Words.strip (drop offset line))

  -- _handleTags, and the line is forwarded.
  abbrev pub told : Server → Bytes → Option (List Text × List Text) → Step Time
  told s line none = fails s index_error
  told s line (some (new_tags, gone_tags)) =
      goes (client (tags new_tags gone_tags) ∷ forwarded line ∷ []) s

  abbrev pub tagged : Server → Bytes → Option Text → Step Time
  tagged s line none = fails s unicode_decode_error
  tagged s line (some text) = told s line (tags_to_new_gone (Words.split text))

  unfoldable pub handle_tags : Server → Bytes → ℕ → Step Time
  handle_tags s line offset = tagged s line (Words.decode (drop offset line))

  -- _ReadingDetails.endDetails, and the line that ends them is forwarded.
  abbrev pub details_read : Outcome → Parser → Server → Bytes → Read → Step Time
  details_read outcome p s line (more q) =
      goes (forwarded line ∷ []) (record s { state = reading outcome q })
  details_read outcome p s line ended =
      goes
        (client (add outcome s.current_test (some (get_details (style_of outcome) p)))
          ∷ client (stop_test s.current_test)
          ∷ forwarded line
          ∷ [])
        (record s { state = outside_test; description = cleared })
  details_read outcome p s line (raised q e) = fails (record s { state = reading outcome q }) e

  abbrev pub lost_with : Text → Server → Text → Step Time
  lost_with what s description =
      goes
        (client (
            add_remote_error s.current_test (
              codes "lost connection during "
              ++ (what ++ (codes "test '" ++ (description ++ codes "'")))))
          ∷ client (stop_test s.current_test)
          ∷ [])
        s

  -- The message shows the description before any call is made.
  abbrev pub lost_described : Text → Server → Description → Step Time
  lost_described what s unset = fails s attribute_error
  lost_described what s cleared = lost_with what s (codes "None")
  lost_described what s (describes description) = lost_with what s description

  -- _lostConnectionInTest
  abbrev pub lost_in_test : Text → Server → Step Time
  lost_in_test what s = lost_described what s s.description

  unfoldable pub lost_connection : Server → Step Time
  lost_connection s = elim s.state [
    | outside_test ↦ goes [] s
    | in_test ↦ lost_in_test [] s
    | reading outcome p ↦ lost_in_test (label outcome ++ codes " report of ") s
  ]

  -- _handleTime, and the line is forwarded.
  abbrev pub timed : Server → Bytes → Option Time → Step Time
  timed s line none = fails s (unparsed_time line)
  timed s line (some t) = goes (client (time t) ∷ forwarded line ∷ []) s

  abbrev pub after : Step Time → (Server → Step Time) → Step Time
  after first rest = elim first.exception [
    | none ↦
        let second = rest first.server in
        record second { effects = first.effects ++ second.effects }
    | some e ↦ first
  ]

  module _ (parse_time : Bytes → Option Time) where
    unfoldable pub handle_time : Server → Bytes → ℕ → Step Time
    handle_time s line offset = timed s line (parse_time (named_part offset line))

    -- _ParserState.lineReceived outside of a test, for what the line says.
    abbrev pub outside : Server → Bytes → Command → Step Time
    outside s line (test_command offset) = outside_start s line offset
    outside s line (outcome_command outcome offset) = outside_outcome outcome s line
    outside s line (progress_command offset) = handle_progress s line offset
    outside s line (tags_command offset) = handle_tags s line offset
    outside s line (time_command offset) = handle_time s line offset
    outside s line other_command = goes (passed line ∷ []) s

    -- The same in a test.
    abbrev pub inside : Server → Bytes → Command → Step Time
    inside s line (test_command offset) = goes (passed line ∷ []) s
    inside s line (outcome_command outcome offset) = in_test_outcome outcome s line offset
    inside s line (progress_command offset) = handle_progress s line offset
    inside s line (tags_command offset) = handle_tags s line offset
    inside s line (time_command offset) = handle_time s line offset
    inside s line other_command = goes (passed line ∷ []) s

    abbrev pub in_state : State → Server → Bytes → Step Time
    in_state outside_test s line = outside s line (command_of line)
    in_state in_test s line = inside s line (command_of line)
    in_state (reading outcome p) s line = details_read outcome p s line (line_received p line)

    -- lineReceived
    unfoldable pub line_step : Server → Bytes → Step Time
    line_step s line = in_state s.state s line

    -- readFrom, and ProtocolTestCase.run: each line, then the end of the connection.
    unfoldable pub read_lines : List Bytes → Server → Step Time
    read_lines [] s = lost_connection s
    read_lines (line ∷ lines) s = after (line_step s line) (read_lines lines)

    unfoldable pub read_from : Bytes → Server → Step Time
    read_from stream s = read_lines (Words.readlines stream) s
