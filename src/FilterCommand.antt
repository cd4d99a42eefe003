-- ===== src/FilterCommand.antt =====
-- pysubunit/commands/subunit_filter.py: the options of subunit-filter and the predicate that it makes
-- of them.
pub mod Genuine
use pysubunit.Prelude.{
  ℕ, zero, suc, Bool, true, false, not, ◌&&◌, Option, none, some, List, [], ◌∷◌, ◌++◌,
}
use pysubunit.Std.Format.{codes}
use pysubunit.V2.Types.{Text}
use pysubunit.Results.Tags.{check_tags}
use pysubunit.Results.Filter.{Outcome, Predicate, and_predicates, filter_of}
use pysubunit.Results.Filter

-- The options of the command line, with their values.
pub data Flag : Type 0 where
  error no_error failure no_failure passthrough no_passthrough success no_success : Flag
  no_skip xfail no_xfail only_genuine_failures : Flag
  with_tag without_tag with_regexp without_regexp fixup_expected_failures : Text → Flag

-- The values of the parser: None is false, or an empty list.
pub record Values : Type 0 where
  pub error : Bool
  pub failure : Bool
  pub no_passthrough : Bool
  pub success : Bool
  pub skip : Bool
  pub xfail : Bool
  pub with_tags : List Text
  pub without_tags : List Text
  pub with_regexps : List Text
  pub without_regexps : List Text
  pub fixups : List Text

abbrev pub defaults : Values
defaults = record {
  error = false;
  failure = false;
  no_passthrough = false;
  success = true;
  skip = false;
  xfail = true;
  with_tags = [];
  without_tags = [];
  with_regexps = [];
  without_regexps = [];
  fixups = [];
}

-- What an option stores.
abbrev pub store : Flag → Values → Values
store error v = record v { error = false }
store no_error v = record v { error = true }
store failure v = record v { failure = false }
store no_failure v = record v { failure = true }
store passthrough v = record v { no_passthrough = false }
store no_passthrough v = record v { no_passthrough = true }
store success v = record v { success = false }
store no_success v = record v { success = true }
store no_skip v = record v { skip = true }
store xfail v = record v { xfail = false }
store no_xfail v = record v { xfail = true }
store only_genuine_failures v = v
store (with_tag t) v = record v { with_tags = v.with_tags ++ t ∷ [] }
store (without_tag t) v = record v { without_tags = v.without_tags ++ t ∷ [] }
store (with_regexp r) v = record v { with_regexps = v.with_regexps ++ r ∷ [] }
store (without_regexp r) v = record v { without_regexps = v.without_regexps ++ r ∷ [] }
store (fixup_expected_failures path) v = record v { fixups = v.fixups ++ path ∷ [] }

-- only_genuine_failures_callback: what is left to parse behind it.
abbrev pub callback : List Flag → List Flag
callback rest = no_success ∷ no_skip ∷ no_xfail ∷ no_passthrough ∷ rest

abbrev pub has_callback : Flag → Bool
has_callback only_genuine_failures = true
has_callback _ = false

-- The loop of the parser. None: out of fuel.
unfoldable pub parse_args : ℕ → List Flag → Values → Option Values
parse_args zero flags v = none
parse_args (suc fuel) [] v = some v
parse_args (suc fuel) (flag ∷ rest) v = elim (has_callback flag) [
  | true ↦ parse_args fuel (callback rest) v
  | false ↦ parse_args fuel rest (store flag v)
]

-- "|".join(l)
unfoldable pub join_regexps : List Text → Text
join_regexps [] = []
join_regexps (r ∷ []) = r
join_regexps (r ∷ s ∷ rest) = r ++ (codes "|" ++ join_regexps (s ∷ rest))

-- `test_text` is the text of a test with its outcome and its details, `search` is search of a compiled
-- expression.
module _ {Test Info : Type 0} (test_text : Test → Outcome → Info → Text)
    (search : Text → Text → Bool) where
  -- Whether one of the expressions is found, where there are any.
  abbrev pub finds : Bool → List Text → Text → Bool
  finds without [] text = without
  finds without (r ∷ rs) text = search (join_regexps (r ∷ rs)) text

  -- check_regexps
  abbrev pub check_regexps : Values → Predicate Test Info
  check_regexps v test outcome info tag_set =
      finds true v.with_regexps (test_text test outcome info)
      && not (finds false v.without_regexps (test_text test outcome info))

  abbrev tag_filter : Values → Predicate Test Info
  tag_filter v test outcome info tag_set = check_tags v.with_tags v.without_tags tag_set

  -- main
  abbrev pub filter_predicate : Values → Predicate Test Info
  filter_predicate v = and_predicates (check_regexps v ∷ tag_filter v ∷ [])

  -- _make_result: the arguments of TestResultFilter.
  abbrev pub filter_options : Values → Filter.Options
  filter_options v = record {
    filter_error = v.error;
    filter_failure = v.failure;
    filter_success = v.success;
    filter_skip = v.skip;
    filter_xfail = v.xfail;
  }

  unfoldable pub result_predicate : Values → Predicate Test Info
  unfolding filter_of
  result_predicate v = filter_of (filter_options v) (some (filter_predicate v))
