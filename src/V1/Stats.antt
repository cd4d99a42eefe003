-- ===== src/V1/Stats.antt =====
-- TestResultStats, on the calls that the parser makes.
pub mod Counts
use pysubunit.Prelude.{
  ℕ, zero, suc, ◌+◌, ◌-◌, Bool, true, false, Option, none, some, List, [], ◌∷◌, ◌++◌, ◌==◌,
  if◌then◌else◌, length,
}
use pysubunit.Prelude.Int.{ℤ, sub_ℕ}
use pysubunit.Std.Format.{codes, decimal}
use pysubunit.V2.Types.{Text, print_int}
use pysubunit.Results.Tags.{update}
use pysubunit.V1.Calls.{
  Outcome, error, failure, skip, success, xfail, uxsuccess, Call, start_test, stop_test, add,
  add_remote_error, progress, tags, time,
}
use pysubunit.V1.Client.{text_le}

pub record Stats : Type 0 where
  pub tests_run : ℕ
  pub failed_tests : ℕ
  pub skipped_tests : ℕ
  pub seen_tags : List Text

abbrev pub new : Stats
new = record { tests_run = 0; failed_tests = 0; skipped_tests = 0; seen_tags = [] }

-- addError, addFailure and addSkip; the other outcomes are those of testtools, which keeps no count.
abbrev pub counted : Outcome → Stats → Stats
counted error s = record s { failed_tests = s.failed_tests + 1 }
counted failure s = record s { failed_tests = s.failed_tests + 1 }
counted skip s = record s { skipped_tests = s.skipped_tests + 1 }
counted _ s = s

-- testtools counts in startTest.
abbrev pub step : {Time : Type 0} → Stats → Call Time → Stats
step s (start_test test) = record s { tests_run = s.tests_run + 1 }
step s (stop_test test) = s
step s (add outcome test details) = counted outcome s
step s (add_remote_error test message) = counted error s
step s (progress p) = s
step s (tags new_tags gone_tags) = record s { seen_tags = update s.seen_tags new_tags }
step s (time t) = s

unfoldable pub run : {Time : Type 0} → Stats → List (Call Time) → Stats
run s [] = s
run s (c ∷ cs) = run (step s c) cs

abbrev pub total_tests : Stats → ℕ
total_tests s = s.tests_run

abbrev pub passed_tests : Stats → ℤ
passed_tests s = sub_ℕ (total_tests s) (s.failed_tests + s.skipped_tests)

abbrev pub was_successful : Stats → Bool
was_successful s = s.failed_tests == 0

-- "%5d"
unfoldable pub spaces : ℕ → Text
spaces zero = []
spaces (suc n) = 32 ∷ spaces n

unfoldable pub in_five : ℤ → Text
unfolding spaces
in_five n = let text = print_int n in spaces (5 - length text) ++ text

-- sorted(tags)
unfoldable pub insert_tag : Text → List Text → List Text
insert_tag tag [] = tag ∷ []
insert_tag tag (other ∷ others) =
    let rest = insert_tag tag others in
    if text_le tag other then tag ∷ other ∷ others else other ∷ rest

unfoldable pub sort_tags : List Text → List Text
unfolding insert_tag
sort_tags [] = []
sort_tags (tag ∷ others) = insert_tag tag (sort_tags others)

-- ", ".join(tags)
unfoldable pub join_tags : List Text → Text
join_tags [] = []
join_tags (x ∷ []) = x
join_tags (x ∷ y ∷ ys) = x ++ (codes ", " ++ join_tags (y ∷ ys))

unfoldable pub format_stats : Stats → Text
unfolding in_five
format_stats s =
    codes "Total tests:   "
    ++ (in_five (sub_ℕ (total_tests s) 0)
        ++ (codes "\n"
            ++ (codes "Passed tests:  "
                ++ (in_five (passed_tests s)
                    ++ (codes "\n"
                        ++ (codes "Failed tests:  "
                            ++ (in_five (sub_ℕ s.failed_tests 0)
                                ++ (codes "\n"
                                    ++ (codes "Skipped tests: "
                                        ++ (in_five (sub_ℕ s.skipped_tests 0)
                                            ++ (codes "\n"
                                                ++ (codes "Seen tags: "
                                                    ++ (join_tags (sort_tags s.seen_tags)
                                                        ++ codes "\n")))))))))))))
