-- ===== src/Results/Filter/Predicates.antt =====
-- The predicate that TestResultFilter makes of its arguments.
use pysubunit.Prelude.{◌≡◌, refl, Bool, true, false, not, ◌&&◌, ◌||◌, some, List, ◌++◌, arith}
use pysubunit.V2.Types.{Text}
use pysubunit.Results.Filter.{
  Outcome, error, failure, skip, expectedfailure, success, unexpectedsuccess, Predicate, Options,
  filter_of, and_predicates, is_outcome, only_if, but,
}

-- Whether the arguments of TestResultFilter leave an outcome out.
abbrev pub excluded : Options → Outcome → Bool
excluded o error = o.filter_error
excluded o failure = o.filter_failure
excluded o success = o.filter_success
excluded o skip = o.filter_skip
excluded o expectedfailure = o.filter_xfail
excluded o unexpectedsuccess = false

and_predicates-only_if :
    {Test Info : Type 0}
    → (b : Bool) (x outcome : Outcome) (rest : List (Predicate Test Info)) (test : Test)
      (info : Info)
    → (tag_set : List Text)
    → and_predicates (only_if b (but x) ++ rest) test outcome info tag_set
      ≡ ((not b || not (is_outcome outcome x)) && and_predicates rest test outcome info tag_set)
unfolding and_predicates
and_predicates-only_if true x outcome rest test info tag_set = refl
and_predicates-only_if false x outcome rest test info tag_set = refl

pub and_true : (b : Bool) → (b && true) ≡ b
and_true true = refl
and_true false = refl

-- What the five arguments ask of an outcome, one after the other.
five_tests :
    (o : Options) (outcome : Outcome) (b : Bool)
    → ((not o.filter_error || not (is_outcome outcome error))
        && ((not o.filter_failure || not (is_outcome outcome failure))
            && ((not o.filter_success || not (is_outcome outcome success))
                && ((not o.filter_skip || not (is_outcome outcome skip))
                    && ((not o.filter_xfail || not (is_outcome outcome expectedfailure))
                        && (b && true))))))
      ≡ (not (excluded o outcome) && b)
five_tests o error b = ground arith
five_tests o failure b = ground arith
five_tests o skip b = ground arith
five_tests o expectedfailure b = ground arith
five_tests o success b = ground arith
five_tests o unexpectedsuccess b = ground arith

-- The predicate of TestResultFilter accepts an outcome that its arguments do not leave out and that
-- the filter_predicate accepts, and no other.
pub filter_of-excluded :
    {Test Info : Type 0}
    → (o : Options) (p : Predicate Test Info) (test : Test) (outcome : Outcome) (info : Info)
    → (tag_set : List Text)
    → filter_of o (some p) test outcome info tag_set
      ≡ (not (excluded o outcome) && p test outcome info tag_set)
unfolding filter_of and_predicates
filter_of-excluded o p test outcome info tag_set =
    simp and_predicates-only_if (five_tests o outcome (p test outcome info tag_set))
