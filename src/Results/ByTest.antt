-- ===== src/Results/ByTest.antt =====
-- test_results.TestByTestResult. What it calls on_test with is a list of reports.
pub mod Reports
use pysubunit.Prelude.{Option, none, some, List, [], ◌∷◌, ◌++◌, eq_bytes, if◌then◌else◌}
use pysubunit.Std.Format.{codes}
use pysubunit.Std.Dict.{set_item}
use pysubunit.V2.Types.{Text}

pub data Status : Type 0 where
  success failure error skip xfail : Status

-- A dict of details: names with contents.
abbrev pub Details : Type 0 → Type 0
Details Content = List (Text × Content)

-- The calls between startTest and stopTest.
pub data Add (Err Content : Type 0) : Type 0 where
  add_success : Option (Details Content) → Add Err Content
  add_failure : Err → Option (Details Content) → Add Err Content
  add_error : Err → Option (Details Content) → Add Err Content
  add_skip : Option Text → Option (Details Content) → Add Err Content
  add_expected_failure : Err → Option (Details Content) → Add Err Content
  add_unexpected_success : Option (Details Content) → Add Err Content

-- startTest and stopTest with what self._now() and current_tags answer.
pub data Call (Test Err Content Time : Type 0) : Type 0 where
  start : Test → Time → Call Test Err Content Time
  add : Test → Add Err Content → Call Test Err Content Time
  stop : Test → Time → List Text → Call Test Err Content Time

-- The arguments of on_test.
pub record Report (Test Content Time : Type 0) : Type 0 where
  pub test : Test
  pub status : Option Status
  pub start_time : Option Time
  pub stop_time : Option Time
  pub tags : List Text
  pub details : Option (Details Content)

pub record ByTest (Content Time : Type 0) : Type 0 where
  pub current_status : Option Status
  pub current_details : Option (Details Content)
  pub started : Option Time
  pub stopped : Option Time

-- testtools.content: TracebackContent(err, test), and text_content(reason).
module _ {Test Err Content : Type 0} (traceback : Err → Test → Content)
    (text_content : Option Text → Content) where
  -- _err_to_details: a dict without items counts as none.
  abbrev err_to_details : Test → Err → Option (Details Content) → Details Content
  err_to_details test err none = (codes "traceback", traceback err test) ∷ []
  err_to_details test err (some []) = (codes "traceback", traceback err test) ∷ []
  err_to_details test err (some (d ∷ ds)) = d ∷ ds

  -- A reason that is None or empty does not replace what the details say.
  abbrev with_reason : Option Text → Option (Details Content) → Details Content
  with_reason reason none = (codes "reason", text_content reason) ∷ []
  with_reason none (some ds) = ds
  with_reason (some []) (some ds) = ds
  with_reason (some (c ∷ cs)) (some ds) =
      set_item (codes "reason") (text_content (some (c ∷ cs))) ds

  -- The status and the details that a call leaves.
  unfoldable pub outcome_of : Test → Add Err Content → Status × Option (Details Content)
  outcome_of test (add_success details) = (success, details)
  outcome_of test (add_failure err details) = (failure, some (err_to_details test err details))
  outcome_of test (add_error err details) = (error, some (err_to_details test err details))
  outcome_of test (add_skip reason details) = (skip, some (with_reason reason details))
  outcome_of test (add_expected_failure err details) =
      (xfail, some (err_to_details test err details))
  outcome_of test (add_unexpected_success details) = (success, details)

  module _ {Time : Type 0} where
    unfoldable pub step :
        ByTest Content Time
        → Call Test Err Content Time
        → List (Report Test Content Time) × ByTest Content Time
    step s (start test now) = (
      [],
      record { current_status = none; current_details = none; started = some now; stopped = none },
    )
    step s (add test a) =
        let o = outcome_of test a in
        ([], record s { current_status = some o.0; current_details = o.1 })
    step s (stop test now current_tags) = (
      record {
        test = test;
        status = s.current_status;
        start_time = s.started;
        stop_time = some now;
        tags = current_tags;
        details = s.current_details;
      }
          ∷ [],
      record s { stopped = some now },
    )

    unfoldable pub run :
        ByTest Content Time → List (Call Test Err Content Time) → List (Report Test Content Time)
    run s [] = []
    run s (c ∷ cs) = let b = step s c in b.0 ++ run b.1 cs
