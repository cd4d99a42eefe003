-- ===== src/Tap.antt =====
-- pysubunit/__init__.py: TAP2SubUnit, which makes status calls of the lines of a TAP stream.
pub mod Lines
mod Emit
pub mod Numbers
pub mod Printed
pub mod Producer
pub use Emit.*
unfoldable pub use Emit.{and_then, encode_log, emit_test, missing_loop, missing_up_to}
use pysubunit.Prelude.{
  ℕ, zero, suc, ◌+◌, ◌-◌, ◌*◌, Bool, true, false, not, ◌&&◌, ◌||◌, Option, none, some, List, [],
  ◌∷◌, ◌++◌, ltb, leb, ◌==◌, if◌then◌else◌, eq_bytes, length, take,
}
use pysubunit.Std.Format.{codes, decimal}
use pysubunit.Std.Utf8
use pysubunit.V2.Types.{Text, Bytes, TestStatus, success, fail, xfail, skip, StatusEvent}
use pysubunit.Output.{bare_call}
use pysubunit.Tap.Lines.{plan_of, TestLine, test_of, bail_of, is_comment}

-- A plan line.
abbrev pub file_skip : Bytes → StatusEvent
file_skip comment = record bare_call {
  test_id = some (codes "file skip");
  test_status = some skip;
  file_bytes = some comment;
  eof = true;
  file_name = some (codes "tap comment");
}

abbrev skipped : State → Option Bytes → Step
skipped t none = fails t unicode_encode_error
skipped t (some comment) = goes (file_skip comment ∷ []) t

abbrev skipped_file : State → Option Text → Step
skipped_file t none = fails t attribute_error
skipped_file t (some comment) = skipped t (Utf8.encode comment)

unfoldable pub plan_line : State → ℕ × Option Text → Step
plan_line t (stop, comment) =
    if ltb stop t.plan_start && stop == 0
    then skipped_file (record t { plan = skip_stream; plan_stop = stop }) comment
    else goes [] (record t { plan = after_plan; plan_stop = stop })

-- What a test line says of its result.
abbrev pub is_todo : Text → Bool
is_todo d = eq_bytes d (codes "TODO") || eq_bytes d (codes "todo")

abbrev pub is_skip : Text → Bool
is_skip d = eq_bytes d (codes "SKIP") || eq_bytes d (codes "skip")

abbrev pub directed : TestStatus → Option Text → TestStatus
directed status none = status
directed status (some directive) =
    if is_todo directive then xfail else if is_skip directive then skip else status

abbrev pub result_of : TestLine → TestStatus
result_of line = directed (if line.is_ok then success else fail) line.directive

abbrev pub described : Option Text → Text
described none = []
described (some description) = codes " " ++ description

abbrev comment_log : Option Text → Option Text → List Text
comment_log none comment = []
comment_log (some directive) none = []
comment_log (some directive) (some comment) = comment ∷ []

abbrev missing_before : Option ℕ → State → Step
missing_before none t = goes [] t
missing_before (some number) t = missing_up_to number t

abbrev named_test : TestLine → State → Step
named_test line t = goes [] (record t {
  test_name = some (test_number t.plan_start ++ described line.description);
  plan_start = t.plan_start + 1;
})

-- The part for a test line behind _emit_test.
abbrev read_test : TestLine → State → State
read_test line t = record t {
  result = some (result_of line);
  log = t.log ++ comment_log line.directive line.comment;
}

unfoldable pub next_test : TestLine → State → Step
unfolding and_then
next_test line t = and_then (missing_before line.number (read_test line t)) (named_test line)

unfoldable pub test_line : State → TestLine → Step
unfolding and_then
test_line t line = and_then (emit_test t) (next_test line)

abbrev reason_text : Option Text → Text
reason_text none = []
reason_text (some reason) = codes " " ++ reason

abbrev pub bail_name : Option Text → Text
bail_name reason = codes "Bail out!" ++ reason_text reason

abbrev bailed_out : Option Text → State → Step
bailed_out reason t =
    goes []
      (record t { test_name = some (bail_name reason); result = some fail; plan = skip_stream })

unfoldable pub bail_line : State → Option Text → Step
unfolding and_then
bail_line t reason = and_then (emit_test t) (bailed_out reason)

-- Any other line.
abbrev pub output_call : Bytes → StatusEvent
output_call bytes = record bare_call {
  file_bytes = some bytes;
  file_name = some (codes "stdout");
  mime_type = some utf8_text;
}

abbrev other_line : State → Option Bytes → Step
other_line t none = fails t unicode_encode_error
other_line t (some bytes) = goes (output_call bytes ∷ []) t

-- The body of the loop behind the test for a plan, and the loop. `digit` is the value of a character
-- that is a decimal digit in Unicode.
module _ (digit : ℕ → Option ℕ) where
  abbrev commented : State → Text → Bool → Step
  commented t line true = goes [] (record t { log = t.log ++ take (length line - 1) line ∷ [] })
  commented t line false = other_line t (Utf8.encode line)

  abbrev bailed : State → Text → Option (Option Text) → Step
  bailed t line none = commented t line (is_comment line)
  bailed t line (some reason) = bail_line t reason

  abbrev tested : State → Text → Option TestLine → Step
  tested t line none = bailed t line (bail_of line)
  tested t line (some parts) = test_line t parts

  abbrev planned : State → Text → Option (ℕ × Option Text) → Step
  planned t line none = tested t line (test_of digit line)
  planned t line (some parts) = plan_line t parts

  abbrev plan_looked_for : Plan → Text → Option (ℕ × Option Text)
  plan_looked_for before_plan line = plan_of digit line
  plan_looked_for after_plan line = none
  plan_looked_for skip_stream line = none

  unfoldable pub line_step : State → Text → Step
  line_step t line = planned t line (plan_looked_for t.plan line)

  -- The lines, then the last test and the tests that the plan has and that did not come.
  abbrev rest_of_plan : State → Step
  rest_of_plan t = missing_up_to (t.plan_stop + 1) t

  unfoldable pub end_of_lines : State → Step
  unfolding and_then
  end_of_lines t = and_then (emit_test t) rest_of_plan

  unfoldable pub read_lines : List Text → State → Step
  read_lines [] t = end_of_lines t
  read_lines (line ∷ lines) t = and_then (line_step t line) (read_lines lines)

  -- TAP2SubUnit, up to the writing of its calls.
  unfoldable pub tap_to_subunit : List Text → Step
  tap_to_subunit lines = read_lines lines new
