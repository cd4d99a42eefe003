-- ===== src/V1/Server/Keyword.antt =====
-- _ParserState.lineReceived: which command a line is.
use pysubunit.Prelude.{
  ◌≡◌, refl, ℕ, ◌+◌, ◌-◌, Option, none, some, eq_bytes, if◌then◌else◌, ◌||◌, ◌==◌, length, take,
  drop, Bool,
}
use pysubunit.Std.Format.{codes}
use pysubunit.Std.Hex.{rstrip}
use pysubunit.Std.Words.{split_once, starts_with, is_in}
use pysubunit.V2.Types.{Bytes}
use pysubunit.V1.Calls.{Outcome, error, failure, skip, success, xfail, uxsuccess}

-- With the offset at which the rest of the line begins.
pub data Command : Type 0 where
  test_command progress_command tags_command time_command : ℕ → Command
  outcome_command : Outcome → ℕ → Command
  other_command : Command

-- `line[offset:-1]`
abbrev pub named_part : ℕ → Bytes → Bytes
named_part offset line = drop offset (take (length line - 1) line)

-- The chain of tests on the word without its colons. `b'skip'` is no tuple, so `in` asks for a part
-- of it.
abbrev keyword : Bytes → ℕ → Command
keyword cmd offset =
    if eq_bytes cmd (codes "test") || eq_bytes cmd (codes "testing")
    then test_command offset
    else if eq_bytes cmd (codes "error")
    then outcome_command error offset
    else if eq_bytes cmd (codes "failure")
    then outcome_command failure offset
    else if eq_bytes cmd (codes "progress")
    then progress_command offset
    else if is_in cmd (codes "skip")
    then outcome_command skip offset
    else if eq_bytes cmd (codes "success") || eq_bytes cmd (codes "successful")
    then outcome_command success offset
    else if eq_bytes cmd (codes "tags")
    then tags_command offset
    else if eq_bytes cmd (codes "time")
    then time_command offset
    else if eq_bytes cmd (codes "xfail")
    then outcome_command xfail offset
    else if eq_bytes cmd (codes "uxsuccess")
    then outcome_command uxsuccess offset
    else other_command

abbrev is_colon : ℕ → Bool
is_colon c = c == b':'

abbrev in_two : Bytes → Option (Bytes × Bytes) → Command
in_two line none = other_command
in_two line (some (word, rest)) =
    if starts_with word line
    then keyword (rstrip is_colon word) (length word + 1)
    else other_command

unfoldable pub command_of : Bytes → Command
command_of line = in_two line (split_once line)

commands :
    (command_of (codes "test: a b\n") ≡ test_command 6)
    × (command_of (codes "successful a\n") ≡ outcome_command success 11)
    × (command_of (codes " test: a\n") ≡ other_command)
    × (command_of (codes "ki: a\n") ≡ outcome_command skip 4)
    × (command_of (codes "test:\n") ≡ other_command)
unfolding command_of split_once starts_with is_in rstrip eq_bytes
commands = (refl, refl, refl, refl, refl)
