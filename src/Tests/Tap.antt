-- ===== src/Tests/Tap.antt =====
-- TAP2SubUnit on lines of TAP.
use pysubunit.Prelude.{
  arith, ℕ, ◌≡◌, refl, true, false, ◌&&◌, ◌-◌, Option, none, some, List, [], ◌∷◌, ◌++◌, leb,
  eq_bytes, if◌then◌else◌,
}
use pysubunit.Std.Format.{codes, decimal}
use pysubunit.V2.Types.{Text, fail, success, xfail}
use pysubunit.Tap.Lines.{test_of, plan_of, bail_of, is_comment}
use pysubunit.Tap.{
  tap_to_subunit, attribute_error, plain_test, logged_test, missing_test, output_call,
}
use pysubunit.Tap.Numbers.{Numbered}
use pysubunit.Tap.Numbers.Stream.{PlanReported, tap_to_subunit-Numbered}
use pysubunit.Tap.Printed.{AsciiDigits, printed_plan}
use pysubunit.Tap.Producer.{
  Emits, printed_results, reports, missing_from, tap_to_subunit-printed,
  tap_to_subunit-attribute_error,
}
use pysubunit.Std.Utf8
use pysubunit.Tap

abbrev digit : ℕ → Option ℕ
digit c = if leb b'0' c && leb c b'9' then some (c - b'0') else none

plan_lines :
    (plan_of digit (codes "1..12\n") ≡ some (12, none))
    × (plan_of digit (codes "1..0 # Skipped: entire file skipped\n")
        ≡ some (0, some (codes "Skipped: entire file skipped")))
    × (plan_of digit (codes "1..\n") ≡ none)
unfolding plan_of
plan_lines = (refl, refl, refl)

test_lines :
    (test_of digit (codes "ok\n")
      ≡ some (record {
        is_ok = true;
        number = none;
        description = none;
        directive = none;
        comment = none;
      }))
    × (test_of digit (codes "not ok 3 third test\n")
        ≡ some (record {
          is_ok = false;
          number = some 3;
          description = some (codes "third test");
          directive = none;
          comment = none;
        }))
    × (test_of digit (codes "ok 1 foo  # SKIP Not done\n")
        ≡ some (record {
          is_ok = true;
          number = some 1;
          description = some (codes "foo");
          directive = some (codes "SKIP");
          comment = some (codes "Not done");
        }))
    × (test_of digit (codes "ok # TODO\n")
        ≡ some (record {
          is_ok = true;
          number = none;
          description = none;
          directive = some (codes "TODO");
          comment = none;
        }))
unfolding test_of eq_bytes
test_lines = (refl, refl, refl, refl)

bail_lines :
    (bail_of (codes "Bail out! Lifejacket engaged\n") ≡ some (some (codes "Lifejacket engaged")))
    × (bail_of (codes "Bail out!\n") ≡ some (some []))
unfolding bail_of
bail_lines = (refl, refl)

-- A test of the repository: the second of three tests is missing.
abbrev missing_lines : List Text
missing_lines = codes "1..3\n" ∷ codes "ok first test\n" ∷ codes "not ok 3 third test\n" ∷ []

missing_calls :
    (tap_to_subunit digit missing_lines).calls
    ≡ plain_test (codes "test 1 first test") (some success)
      ∷ missing_test 2
      ∷ plain_test (codes "test 3 third test") (some fail)
      ∷ []
unfolding tap_to_subunit decimal eq_bytes Tap.read_lines Tap.and_then Tap.line_step plan_of
    Tap.plan_line test_of Tap.test_line Tap.emit_test Tap.next_test Tap.missing_up_to
    Tap.missing_loop Tap.end_of_lines
missing_calls = refl

abbrev commented_lines : List Text
commented_lines =
    codes "# comment\n"
    ∷ codes "ok # TODO later\n"
    ∷ codes "noise\n"
    ∷ codes "Bail out! stop\n"
    ∷ []

commented_calls :
    (tap_to_subunit digit commented_lines).calls
    ≡ output_call (codes "noise\n")
      ∷ logged_test (codes "test 1") (some xfail) (codes "# comment\nlater")
      ∷ plain_test (codes "Bail out! stop") (some fail)
      ∷ []
unfolding tap_to_subunit decimal eq_bytes Utf8.encode Utf8.encode_char Tap.read_lines Tap.and_then
    Tap.line_step plan_of test_of bail_of is_comment Tap.test_line Tap.emit_test Tap.next_test
    Tap.bail_line Tap.encode_log Tap.end_of_lines Tap.missing_up_to Tap.missing_loop
commented_calls = refl

tap_to_subunit-Numbered_example :
    (m : ℕ) × Numbered 1 (tap_to_subunit digit commented_lines).calls m
    × PlanReported (tap_to_subunit digit commented_lines) m
tap_to_subunit-Numbered_example = tap_to_subunit-Numbered digit commented_lines

digit-AsciiDigits : AsciiDigits digit
digit-AsciiDigits c h = refl

tap_to_subunit-printed_example :
    Emits
      (tap_to_subunit digit (printed_plan 3 ∷ printed_results 1 (true ∷ false ∷ [])))
      (reports 1 (true ∷ false ∷ []) ++ missing_from 3 1)
tap_to_subunit-printed_example =
    tap_to_subunit-printed digit (true ∷ false ∷ []) 1 digit-AsciiDigits (omega arith)

tap_to_subunit-attribute_error_example :
    ((tap_to_subunit digit (printed_plan 0 ∷ missing_lines)).calls ≡ [])
    × ((tap_to_subunit digit (printed_plan 0 ∷ missing_lines)).exception ≡ some attribute_error)
tap_to_subunit-attribute_error_example =
    tap_to_subunit-attribute_error digit missing_lines digit-AsciiDigits
