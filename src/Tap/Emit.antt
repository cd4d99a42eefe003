-- ===== src/Tap/Emit.antt =====
-- The variables of TAP2SubUnit and the calls that report a test: _emit_test and missing_test.
use pysubunit.Prelude.{
  ℕ, zero, suc, ◌+◌, ◌-◌, true, false, Option, none, some, List, [], ◌∷◌, ◌++◌, ltb, if◌then◌else◌,
}
use pysubunit.Std.Format.{codes, decimal}
use pysubunit.Std.Utf8
use pysubunit.V2.Types.{Text, Bytes, TestStatus, fail, StatusEvent}
use pysubunit.Output.{bare_call}

-- BEFORE_PLAN, AFTER_PLAN and SKIP_STREAM.
pub data Plan : Type 0 where
  before_plan after_plan skip_stream : Plan

-- The variables of TAP2SubUnit.
pub record State : Type 0 where
  pub plan : Plan
  pub plan_start : ℕ
  pub plan_stop : ℕ
  pub test_name : Option Text
  pub log : List Text
  pub result : Option TestStatus

abbrev pub new : State
new = record {
  plan = before_plan;
  plan_start = 1;
  plan_stop = 0;
  test_name = none;
  log = [];
  result = none;
}

pub data TapError : Type 0 where
  attribute_error unicode_encode_error : TapError

-- The status calls that a part of the code makes, its variables behind it, and the exception that
-- ended it.
pub record Step : Type 0 where
  pub calls : List StatusEvent
  pub state : State
  pub exception : Option TapError

abbrev pub goes : List StatusEvent → State → Step
goes ss t = record { calls = ss; state = t; exception = none }

abbrev pub fails : State → TapError → Step
fails t e = record { calls = []; state = t; exception = some e }

abbrev pub after : List StatusEvent → Option TapError → State → Step → Step
after ss none t rest = record rest { calls = ss ++ rest.calls }
after ss (some e) t rest = record { calls = ss; state = t; exception = some e }

-- One part of the code and what comes behind it.
unfoldable pub and_then : Step → (State → Step) → Step
and_then first rest = after first.calls first.exception first.state (rest first.state)

abbrev pub utf8_text : Text
utf8_text = codes "text/plain; charset=UTF8"

abbrev pub test_number : ℕ → Text
test_number n = codes "test " ++ decimal n

-- missing_test
abbrev pub missing_test : ℕ → StatusEvent
missing_test n = record bare_call {
  test_id = some (test_number n);
  test_status = some fail;
  runnable = false;
  mime_type = some utf8_text;
  eof = true;
  file_name = some (codes "tap meta");
  file_bytes = some (codes "test missing from TAP output");
}

-- b'\n'.join(log_line.encode('utf8') for log_line in log)
abbrev joined : Option Bytes → Option Bytes → Option Bytes
joined none rest = none
joined (some line) none = none
joined (some line) (some rest) = some (line ++ (codes "\n" ++ rest))

unfoldable pub encode_log : List Text → Option Bytes
encode_log [] = some []
encode_log (line ∷ []) = Utf8.encode line
encode_log (line ∷ more ∷ rest) = joined (Utf8.encode line) (encode_log (more ∷ rest))

-- The call of _emit_test without a log, and with one.
abbrev pub plain_test : Text → Option TestStatus → StatusEvent
plain_test name result = record bare_call {
  test_id = some name;
  test_status = result;
  runnable = false;
  eof = true;
}

abbrev pub logged_test : Text → Option TestStatus → Bytes → StatusEvent
logged_test name result bytes = record (plain_test name result) {
  file_bytes = some bytes;
  mime_type = some utf8_text;
  file_name = some (codes "tap comment");
}

abbrev pub emit_logged : State → Text → Option Bytes → Step
emit_logged t name none = fails t unicode_encode_error
emit_logged t name (some bytes) =
    goes (logged_test name t.result bytes ∷ []) (record t { log = [] })

abbrev pub emit_named : State → List Text → Option Text → Step
emit_named t log none = goes [] t
emit_named t [] (some name) = goes (plain_test name t.result ∷ []) t
emit_named t (line ∷ lines) (some name) = emit_logged t name (encode_log (line ∷ lines))

-- _emit_test
unfoldable pub emit_test : State → Step
emit_test t = emit_named t t.log t.test_name

-- The missing tests from plan_start up to `stop`, which is not one of them. Each round makes the
-- difference smaller, which is the fuel.
unfoldable pub missing_loop : ℕ → ℕ → ℕ → List StatusEvent
missing_loop zero start stop = []
missing_loop (suc fuel) start stop =
    let rest = missing_loop fuel (start + 1) stop in
    if ltb start stop then missing_test start ∷ rest else []

unfoldable pub missing_up_to : ℕ → State → Step
missing_up_to stop t =
    goes (missing_loop (stop - t.plan_start) t.plan_start stop)
      (record t { plan_start = if ltb t.plan_start stop then stop else t.plan_start })
