-- ===== src/Tests/Results.antt =====
-- test_results.py and progress_model.py on concrete calls.
use pysubunit.Prelude.{
  All, ◌≡◌, refl, ℕ, Bool, true, false, not, ◌&&◌, ◌||◌, ◌==◌, List, [], ◌∷◌, ◌++◌, map, none, some,
  eq_bytes, if◌then◌else◌,
}
use pysubunit.Prelude.Int.{pos, ◌+ℤ◌}
use pysubunit.Std.Format.{codes}
use pysubunit.V2.Types.{Text, contains, add_tag}
use pysubunit.Results.Tags.{
  Tags, empty, clear_tags, active_tags, change, change_tags, start_test, stop_test, update,
  difference, check_tags, subset, meets,
}
use pysubunit.Results.Tags.Active.{active_tags-change_tags}
use pysubunit.Results
use pysubunit.Results.Tags.{TagCall, non_empty}
use pysubunit.Results.Tags.Collapsed
use pysubunit.Results.Tags.Collapsed.{collected, IsOneSided, received-collected, run-collected}
use pysubunit.Results.Times
use pysubunit.Results.Times.Collapsed.{last, between, run-times}
use pysubunit.Results.Filter
use pysubunit.Results.Filter.Whole
use pysubunit.Results.Filter.Whole.{run-test}
use pysubunit.Progress
use pysubunit.Progress.Summary
use pysubunit.Progress.Summary.{push-pop}

abbrev slow : Text
slow = codes "slow"

abbrev quick : Text
quick = codes "quick"

abbrev in_test : Tags
in_test = record {
  global_tags = record { new_tags = slow ∷ []; gone_tags = [] };
  test_tags = some empty;
}

not_both : (contains (quick ∷ []) slow && contains (slow ∷ []) slow) ≡ false
unfolding contains eq_bytes
not_both = refl

active_tags-change_tags_example :
    contains (active_tags (change_tags (quick ∷ []) (slow ∷ []) in_test)) slow ≡ (
      (contains (active_tags in_test) slow || contains (quick ∷ []) slow)
      && not (contains (slow ∷ []) slow))
active_tags-change_tags_example =
    active_tags-change_tags in_test (quick ∷ []) (slow ∷ []) slow not_both

filter_by_tags :
    (check_tags (slow ∷ []) (quick ∷ []) (slow ∷ codes "db" ∷ []) ≡ true)
    × (check_tags (slow ∷ []) [] [] ≡ false)
    × (check_tags [] (quick ∷ []) (quick ∷ []) ≡ false)
unfolding check_tags subset meets contains eq_bytes
filter_by_tags = (refl, refl, refl)

abbrev two_calls : List TagCall
two_calls = (slow ∷ [], []) ∷ (quick ∷ [], slow ∷ []) ∷ []

one_sided : All (IsOneSided slow) two_calls
unfolding contains eq_bytes
one_sided = (refl, (refl, tt))

received-collected_example :
    contains (Collapsed.received (non_empty (collected two_calls empty)) (slow ∷ [])) slow
    ≡ contains (Collapsed.received two_calls (slow ∷ [])) slow
received-collected_example = received-collected two_calls (slow ∷ []) slow one_sided

run-collected_example :
    Results.Tags.run clear_tags (Results.Tags.tag_calls two_calls ++ Results.Tags.event quick ∷ [])
    ≡ Results.Tags.tag_calls (non_empty (collected two_calls empty))
      ++ Results.Tags.event quick ∷ Results.Tags.run clear_tags []
run-collected_example = run-collected two_calls quick []

abbrev same : ℕ → ℕ → Bool
same a b = a == b

abbrev received : Times.Collapsing ℕ
received = record { last_received_time = none; last_sent_time = none }

abbrev some_calls : List (Times.Call ℕ Text)
some_calls = Times.time 5 ∷ Times.time 6 ∷ Times.event slow ∷ Times.tags quick ∷ []

run-times_example :
    Times.run same received (map Times.time (5 ∷ 6 ∷ 7 ∷ []) ++ Times.event slow ∷ [])
    ≡ Times.time 5
      ∷ ((if same (last 5 (6 ∷ 7 ∷ [])) 5 then [] else Times.time (last 5 (6 ∷ 7 ∷ [])) ∷ [])
          ++ Times.event slow
            ∷ Times.run same
                (between (if same (last 5 (6 ∷ 7 ∷ [])) 5 then 5 else last 5 (6 ∷ 7 ∷ [])))
                [])
run-times_example = run-times same received 5 (6 ∷ 7 ∷ []) slow [] refl

-- A predicate that accepts what is not tagged slow.
abbrev not_slow : Filter.Predicate Text Text
not_slow test outcome info tag_set = not (contains tag_set slow)

abbrev one_test : List (Filter.Call Text Text ℕ Text)
one_test =
    Filter.tags (slow ∷ []) []
    ∷ Filter.time 5
    ∷ Filter.add Filter.success (codes "t") (codes "")
    ∷ []

run-test_example :
    Filter.run not_slow
      (Whole.between (record { global_tags = empty; test_tags = none }))
      (Filter.start (codes "t") ∷ one_test ++ Filter.stop (codes "t") ∷ [])
    ≡ (
      Whole.at_once one_test
          ++ (if Whole.keeps not_slow one_test
                (record { global_tags = empty; test_tags = some empty })
              then (Filter.start (codes "t") ∷ Whole.waiting one_test)
                ++ Filter.stop (codes "t") ∷ []
              else []),
      Whole.between (record { global_tags = empty; test_tags = none }),
    )
run-test_example = run-test not_slow (codes "t") one_test empty (tt, (tt, (tt, tt)))

slow_test_filtered :
    Whole.keeps not_slow one_test (record { global_tags = empty; test_tags = some empty }) ≡ false
unfolding Whole.keeps change_tags change active_tags update difference add_tag contains eq_bytes
slow_test_filtered = refl

abbrev defaults : Filter.Options
defaults = record {
  filter_error = false;
  filter_failure = false;
  filter_success = true;
  filter_skip = false;
  filter_xfail = false;
}

-- An operation of 4 steps, one of them taken.
abbrev one_of_4 : Progress.Task
one_of_4 = record {
  position = pos 1;
  task_width = pos 4;
  overall_numerator = pos 0;
  overall_denominator = pos 0;
}

-- A subtask of 2 steps: the summary counts eighths.
halfway :
    Progress.apply_all (Progress.do_push ∷ Progress.do_set_width (pos 2) ∷ []) (one_of_4 ∷ [])
    ≡ some (
        record {
          position = pos 0;
          task_width = pos 2;
          overall_numerator = pos 1;
          overall_denominator = pos 4;
        }
        ∷ one_of_4
        ∷ [])
unfolding Progress.apply_all Progress.push Progress.set_width Progress.summary_pos
    Progress.summary_width ◌+ℤ◌
halfway = refl

abbrev inner_ops : List Progress.Op
inner_ops =
    Progress.do_set_width (pos 2)
    ∷ Progress.do_push
    ∷ Progress.do_advance
    ∷ Progress.do_pop
    ∷ Progress.do_advance
    ∷ []

balanced : Summary.depth_after inner_ops 0 ≡ some 0
unfolding Summary.depth_after
balanced = refl

push-pop_example :
    Progress.apply_all (Progress.do_push ∷ (inner_ops ++ Progress.do_pop ∷ [])) (one_of_4 ∷ [])
    ≡ some (one_of_4 ∷ [])
push-pop_example = push-pop (one_of_4 ∷ []) inner_ops balanced
