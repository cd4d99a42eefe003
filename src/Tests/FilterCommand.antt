-- ===== src/Tests/FilterCommand.antt =====
-- Options of subunit-filter.
use pysubunit.Prelude.{◌≡◌, refl, true, false, Bool, some, List, [], ◌∷◌, ◌++◌}
use pysubunit.Std.Format.{codes}
use pysubunit.V2.Types.{Text}
use pysubunit.Results.Tags.{Tags, clear_tags, start_test, change_tags}
use pysubunit.Results.Filter.{Outcome}
use pysubunit.Results.Filter
use pysubunit.FilterCommand.{
  Flag, no_error, success, with_regexp, with_tag, only_genuine_failures, defaults, parse_args,
}
use pysubunit.Std.Words.{is_in}

abbrev test_text : Text → Outcome → Text → Text
test_text test outcome info = test ++ info

-- The expressions of the test hold no operators.
abbrev search : Text → Text → Bool
search r text = is_in r text

abbrev flags : List Flag
flags = success ∷ with_regexp (codes "foo") ∷ with_tag (codes "slow") ∷ no_error ∷ []

later_wins :
    parse_args 9 (only_genuine_failures ∷ success ∷ []) defaults
    ≡ some (record defaults { success = false; skip = true; no_passthrough = true })
unfolding parse_args
later_wins = refl

abbrev slow_test : Tags
slow_test = change_tags (codes "slow" ∷ []) [] (start_test clear_tags)
