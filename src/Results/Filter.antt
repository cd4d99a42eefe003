-- ===== src/Results/Filter.antt =====
-- test_results._PredicateFilter and TestResultFilter. What they hand on to the decorated result is a
-- list of calls.
pub mod Whole
pub mod Predicates
use pysubunit.Prelude.{
  ℕ, Bool, true, false, not, ◌&&◌, Option, none, some, List, [], ◌∷◌, ◌++◌, ◌==◌, if◌then◌else◌,
}
use pysubunit.V2.Types.{Text}
use pysubunit.Results.Tags.{Tags, clear_tags, active_tags, change_tags, start_test, stop_test}

-- addError, addFailure, addSkip, addExpectedFailure, addSuccess, addUnexpectedSuccess.
pub data Outcome : Type 0 where
  error failure skip expectedfailure success unexpectedsuccess : Outcome

-- `Info` is what an add call says besides its test (error, reason, details), `Time` a time, and
-- `Other` a call that the filter does not define (startTestRun, progress, ...).
pub data Call (Test Info Time Other : Type 0) : Type 0 where
  start : Test → Call Test Info Time Other
  stop : Test → Call Test Info Time Other
  add : Outcome → Test → Info → Call Test Info Time Other
  tags : List Text → List Text → Call Test Info Time Other
  time : Time → Call Test Info Time Other
  other : Other → Call Test Info Time Other

pub record PredicateFilter (Test Info Time Other : Type 0) : Type 0 where
  pub tag_state : Tags
  pub current_test : Option Test
  pub current_test_filtered : Option Bool
  pub buffered_calls : List (Call Test Info Time Other)

abbrev pub Predicate : Type 0 → Type 0 → Type 0
Predicate Test Info = Test → Outcome → Info → List Text → Bool

-- A value that is there and true.
abbrev is_true : Option Bool → Bool
is_true none = false
is_true (some b) = b

module _ {Test Info : Type 0} where
  -- An unexpected success is not shown to the predicate.
  abbrev pub accepts : Predicate Test Info → Outcome → Test → Info → Tags → Bool
  accepts predicate unexpectedsuccess test info t = true
  accepts predicate error test info t = predicate test error info (active_tags t)
  accepts predicate failure test info t = predicate test failure info (active_tags t)
  accepts predicate skip test info t = predicate test skip info (active_tags t)
  accepts predicate expectedfailure test info t =
      predicate test expectedfailure info (active_tags t)
  accepts predicate success test info t = predicate test success info (active_tags t)

  -- and_predicates
  unfoldable pub and_predicates : List (Predicate Test Info) → Predicate Test Info
  and_predicates [] test outcome info tag_set = true
  and_predicates (p ∷ ps) test outcome info tag_set =
      p test outcome info tag_set && and_predicates ps test outcome info tag_set

module _ {Test Info Time Other : Type 0} where
  abbrev pub new : PredicateFilter Test Info Time Other
  new = record {
    tag_state = clear_tags;
    current_test = none;
    current_test_filtered = none;
    buffered_calls = [];
  }

  abbrev pub buffer :
      Call Test Info Time Other
      → PredicateFilter Test Info Time Other
      → PredicateFilter Test Info Time Other
  buffer c f = record f { buffered_calls = f.buffered_calls ++ c ∷ [] }

  abbrev between_tests : PredicateFilter Test Info Time Other → PredicateFilter Test Info Time Other
  between_tests f = record {
    tag_state = stop_test f.tag_state;
    current_test = none;
    current_test_filtered = none;
    buffered_calls = [];
  }

  abbrev stopped : Test → PredicateFilter Test Info Time Other → List (Call Test Info Time Other)
  stopped test f =
      if is_true f.current_test_filtered then [] else f.buffered_calls ++ stop test ∷ []

  abbrev tag_call :
      Option Test
      → List Text
      → List Text
      → PredicateFilter Test Info Time Other
      → List (Call Test Info Time Other) × PredicateFilter Test Info Time Other
  tag_call none new_tags gone_tags f = (tags new_tags gone_tags ∷ [], f)
  tag_call (some test) new_tags gone_tags f = ([], buffer (tags new_tags gone_tags) f)

  -- One call: what is handed on, and the state after it.
  unfoldable pub step :
      Predicate Test Info
      → PredicateFilter Test Info Time Other
      → Call Test Info Time Other
      → List (Call Test Info Time Other) × PredicateFilter Test Info Time Other
  step predicate f (start test) = (
    [],
    buffer (start test) (record f {
      tag_state = start_test f.tag_state;
      current_test = some test;
      current_test_filtered = some false;
    }),
  )
  step predicate f (stop test) = (stopped test f, between_tests f)
  step predicate f (add outcome test info) = (
    [],
    if accepts predicate outcome test info f.tag_state
        then buffer (add outcome test info) f
        else record f { current_test_filtered = some true },
  )
  step predicate f (tags new_tags gone_tags) =
      tag_call f.current_test new_tags gone_tags
        (record f { tag_state = change_tags new_tags gone_tags f.tag_state })
  step predicate f (time t) = (time t ∷ [], f)
  step predicate f (other o) = (other o ∷ [], f)

  unfoldable pub run :
      Predicate Test Info
      → PredicateFilter Test Info Time Other
      → List (Call Test Info Time Other)
      → List (Call Test Info Time Other) × PredicateFilter Test Info Time Other
  run predicate f [] = ([], f)
  run predicate f (c ∷ cs) =
      let first = step predicate f c in
      let rest = run predicate first.1 cs in (first.0 ++ rest.0, rest.1)

-- The arguments of TestResultFilter.
pub record Options : Type 0 where
  pub filter_error : Bool
  pub filter_failure : Bool
  pub filter_success : Bool
  pub filter_skip : Bool
  pub filter_xfail : Bool

abbrev number : Outcome → ℕ
number error = 0
number failure = 1
number skip = 2
number expectedfailure = 3
number success = 4
number unexpectedsuccess = 5

abbrev pub is_outcome : Outcome → Outcome → Bool
is_outcome a b = number a == number b

abbrev pub only_if {ℓ} : {A : Type ℓ} → Bool → A → List A
only_if b a = if b then a ∷ [] else []

module _ {Test Info : Type 0} where
  abbrev pub but : Outcome → Predicate Test Info
  but excluded test outcome info tag_set = not (is_outcome outcome excluded)

  abbrev given : Option (Predicate Test Info) → List (Predicate Test Info)
  given none = []
  given (some p) = p ∷ []

  -- The predicates of TestResultFilter, in its order.
  unfoldable pub filter_of : Options → Option (Predicate Test Info) → Predicate Test Info
  unfolding and_predicates
  filter_of o filter_predicate = and_predicates (
      only_if o.filter_error (but error)
      ++ (only_if o.filter_failure (but failure)
          ++ (only_if o.filter_success (but success)
              ++ (only_if o.filter_skip (but skip)
                  ++ (only_if o.filter_xfail (but expectedfailure) ++ given filter_predicate)))))

-- The outcome that TestResultFilter makes of one, for a test that is expected to fail or not.
abbrev pub fixup : Bool → Outcome → Outcome
fixup true error = expectedfailure
fixup true failure = expectedfailure
fixup true success = unexpectedsuccess
fixup _ outcome = outcome

module _ {Test Info Time Other : Type 0} where
  -- A call of TestResultFilter, as the _PredicateFilter that it decorates gets it.
  abbrev pub fixup_call : (Test → Bool) → Call Test Info Time Other → Call Test Info Time Other
  fixup_call failure_expected (add outcome test info) =
      add (fixup (failure_expected test) outcome) test info
  fixup_call failure_expected c = c
