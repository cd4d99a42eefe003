-- ===== src/Tests/Reports.antt =====
-- TestByTestResult on two tests.
use pysubunit.Prelude.{◌≡◌, refl, ℕ, [], ◌∷◌, map, Option, none, some, eq_bytes}
use pysubunit.Std.Format.{codes}
use pysubunit.Std.Dict.{set_item}
use pysubunit.V2.Types.{Text}
use pysubunit.Results.ByTest
use pysubunit.Results.ByTest.Reports.{Case, calls_of, report_of, run-report_of}

-- An error and a content are texts here, and a traceback prints the error.
abbrev traceback : Text → Text → Text
traceback err test = err

abbrev text_content : Option Text → Text
text_content none = []
text_content (some t) = t

abbrev idle : ByTest.ByTest Text ℕ
idle = record { current_status = none; current_details = none; started = none; stopped = none }

abbrev skipped : Case Text Text Text ℕ
skipped = record {
  subject = codes "a";
  from = 1;
  adds = ByTest.add_skip (some (codes "no db")) (some ((codes "reason", codes "x") ∷ [])) ∷ [];
  until = 2;
  tags_at_end = [];
}

abbrev failed : Case Text Text Text ℕ
failed = record {
  subject = codes "b";
  from = 3;
  adds = ByTest.add_failure (codes "err") none ∷ [];
  until = 5;
  tags_at_end = codes "slow" ∷ [];
}

reason_replaced :
    ByTest.outcome_of traceback text_content
      (codes "a")
      (ByTest.add_skip (some (codes "no db")) (some ((codes "reason", codes "x") ∷ [])))
    ≡ (ByTest.skip, some ((codes "reason", codes "no db") ∷ []))
unfolding ByTest.outcome_of set_item eq_bytes
reason_replaced = refl

run-report_of_example :
    ByTest.run traceback text_content idle (calls_of (skipped ∷ failed ∷ []))
    ≡ map (report_of traceback text_content) (skipped ∷ failed ∷ [])
run-report_of_example = run-report_of traceback text_content (skipped ∷ failed ∷ []) idle
