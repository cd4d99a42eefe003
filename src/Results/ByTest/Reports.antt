-- ===== src/Results/ByTest/Reports.antt =====
-- What TestByTestResult reports of a number of tests.
use pysubunit.Prelude.{◌≡◌, refl, ap, ◌∙◌, Option, none, some, List, [], ◌∷◌, map}
use pysubunit.V2.Types.{Text}
use pysubunit.Results.ByTest.{
  Status, Details, Add, Call, start, add, stop, Report, ByTest, outcome_of, step, run,
}

-- One test: its calls of add in order, when it starts and stops, and its tags at the end.
pub record Case (Test Err Content Time : Type 0) : Type 0 where
  pub subject : Test
  pub from : Time
  pub adds : List (Add Err Content)
  pub until : Time
  pub tags_at_end : List Text

module _ {Test Err Content Time : Type 0} where
  unfoldable pub adds_of :
      Test
      → List (Add Err Content)
      → List (Call Test Err Content Time)
      → List (Call Test Err Content Time)
  adds_of test [] rest = rest
  adds_of test (a ∷ more) rest = add test a ∷ adds_of test more rest

  -- The calls of tests that run one after another.
  unfoldable pub calls_of : List (Case Test Err Content Time) → List (Call Test Err Content Time)
  calls_of [] = []
  calls_of (c ∷ cs) =
      start c.subject c.from
      ∷ adds_of c.subject c.adds (stop c.subject c.until c.tags_at_end ∷ calls_of cs)

module _ {Test Err Content : Type 0} (traceback : Err → Test → Content)
    (text_content : Option Text → Content) where
  abbrev of_call : Test → Add Err Content → Option Status × Option (Details Content)
  of_call test a = let o = outcome_of traceback text_content test a in (some o.0, o.1)

  -- The last call of add decides; without one there is no status and there are no details.
  unfoldable pub verdict :
      Test
      → Option Status × Option (Details Content)
      → List (Add Err Content)
      → Option Status × Option (Details Content)
  verdict test before [] = before
  verdict test before (a ∷ more) = verdict test (of_call test a) more

  module _ {Time : Type 0} where
    abbrev pub report_of : Case Test Err Content Time → Report Test Content Time
    report_of c =
        let v = verdict c.subject (none, none) c.adds in
        record {
          test = c.subject;
          status = v.0;
          start_time = some c.from;
          stop_time = some c.until;
          tags = c.tags_at_end;
          details = v.1;
        }

    abbrev during : Option Status × Option (Details Content) → Time → ByTest Content Time
    during v from = record {
      current_status = v.0;
      current_details = v.1;
      started = some from;
      stopped = none;
    }

    abbrev after : Option Status × Option (Details Content) → Time → Time → ByTest Content Time
    after v from until = record (during v from) { stopped = some until }

    run_adds :
        (adds : List (Add Err Content)) (test : Test) (v : Option Status × Option (Details Content))
        (from until : Time) (ts : List Text) (rest : List (Call Test Err Content Time))
        → run traceback text_content (during v from) (adds_of test adds (stop test until ts ∷ rest))
          ≡ record {
            test = test;
            status = (verdict test v adds).0;
            start_time = some from;
            stop_time = some until;
            tags = ts;
            details = (verdict test v adds).1;
          }
            ∷ run traceback text_content (after (verdict test v adds) from until) rest
    unfolding run step adds_of verdict
    run_adds [] test v from until ts rest = refl
    run_adds (a ∷ adds) test v from until ts rest =
        run_adds adds test (of_call test a) from until ts rest

    -- Tests that run one after another are reported once each, in their order, with their own start
    -- and stop, and with the status and the details of their own last outcome: none of it comes from
    -- an earlier test or from the state before.
    pub run-report_of :
        (cs : List (Case Test Err Content Time)) (s : ByTest Content Time)
        → run traceback text_content s (calls_of cs) ≡ map report_of cs
    unfolding run step calls_of
    run-report_of [] s = refl
    run-report_of (c ∷ cs) s =
        run_adds c.adds c.subject (none, none) c.from c.until c.tags_at_end (calls_of cs)
        ∙ ap (λ rs. report_of c ∷ rs)
            (run-report_of cs (after (verdict c.subject (none, none) c.adds) c.from c.until))
