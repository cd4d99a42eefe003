-- ===== src/Tap/Producer.antt =====
-- TAP2SubUnit on what a TAP producer prints: a plan, and the results of numbered tests.
use pysubunit.Prelude.{
  ℕ, zero, suc, ◌+◌, ◌-◌, ◌<◌, ◌≡◌, refl, sym, subst, ap, ◌∙◌, Bool, true, false, Option, none,
  some, List, [], ◌∷◌, ◌++◌, ltb, ◌==◌, ◌&&◌, if◌then◌else◌, length, arith, append-nil,
}
use pysubunit.V2.Types.{Text, TestStatus, success, fail, StatusEvent}
use pysubunit.Tap
use pysubunit.Tap.{
  State, new, after_plan, skip_stream, attribute_error, Step, goes, fails, after, and_then,
  test_number, missing_test, plain_test, emit_named, emit_test, missing_loop, missing_up_to,
  plan_line, test_line, next_test, planned, tested, rest_of_plan, line_step, end_of_lines,
  read_lines, tap_to_subunit,
}
use pysubunit.Tap.Printed.{
  AsciiDigits, printed_plan, printed_test, plan_of-printed_plan, test_of-printed_test, parsed_test,
}

-- The lines for the results from number `n` on.
abbrev pub printed_results : ℕ → List Bool → List Text
printed_results n [] = []
printed_results n (is_ok ∷ results) = printed_test is_ok n ∷ printed_results (n + 1) results

abbrev pub verdict : Bool → TestStatus
verdict is_ok = if is_ok then success else fail

-- The calls for them.
abbrev pub reports : ℕ → List Bool → List StatusEvent
reports n [] = []
reports n (is_ok ∷ results) =
    plain_test (test_number n) (some (verdict is_ok)) ∷ reports (n + 1) results

-- The calls for so many tests that are missing.
abbrev pub missing_from : ℕ → ℕ → List StatusEvent
missing_from n zero = []
missing_from n (suc k) = missing_test n ∷ missing_from (n + 1) k

abbrev held : Option Text → Option TestStatus → List StatusEvent
held none result = []
held (some name) result = plain_test name result ∷ []

abbrev state_at : ℕ → ℕ → Option Text → Option TestStatus → State
state_at stop n name result = record {
  plan = after_plan;
  plan_start = n;
  plan_stop = stop;
  test_name = name;
  log = [];
  result = result;
}

emit_test-held :
    (stop n : ℕ) (name : Option Text) (result : Option TestStatus)
    → emit_test (state_at stop n name result)
      ≡ goes (held name result) (state_at stop n name result)
unfolding emit_test
emit_test-held stop n none result = refl
emit_test-held stop n (some name) result = refl

missing_up_to-none : (t : State) → missing_up_to t.plan_start t ≡ goes [] t
unfolding missing_up_to missing_loop
missing_up_to-none t =
    let n = t.plan_start in
    let same : n - n ≡ 0 = omega arith in
    let not_less : ltb n n ≡ false = ground arith in rw (same, not_less) refl

missing_loop-missing_from : (k n stop : ℕ) → stop ≡ n + k → missing_loop k n stop ≡ missing_from n k
unfolding missing_loop
missing_loop-missing_from zero n stop e = refl
missing_loop-missing_from (suc k) n stop e =
    let less : ltb n stop ≡ true = ground arith in
    rw (less, missing_loop-missing_from k (n + 1) stop (omega arith)) refl

abbrev pub Emits : Step → List StatusEvent → Type 0
Emits st ss = (st.calls ≡ ss) × (st.exception ≡ none)

module _ (digit : ℕ → Option ℕ) (ascii : AsciiDigits digit) where
  next_test-printed :
      (is_ok : Bool) (stop n : ℕ) (name : Option Text) (result : Option TestStatus)
      → next_test (parsed_test is_ok n) (state_at stop n name result)
        ≡ goes [] (state_at stop (n + 1) (some (test_number n)) (some (verdict is_ok)))
  unfolding next_test and_then
  next_test-printed is_ok stop n name result =
      ap (λ st. and_then st (Tap.named_test (parsed_test is_ok n)))
        (missing_up_to-none (Tap.read_test (parsed_test is_ok n) (state_at stop n name result)))
      ∙ ap (λ name. goes [] (state_at stop (n + 1) (some name) (some (verdict is_ok))))
          (append-nil (test_number n))

  line_step-printed :
      (is_ok : Bool) (stop n : ℕ) (name : Option Text) (result : Option TestStatus)
      → line_step digit (state_at stop n name result) (printed_test is_ok n)
        ≡ goes
            (held name result)
            (state_at stop (n + 1) (some (test_number n)) (some (verdict is_ok)))
  unfolding line_step test_line and_then
  line_step-printed is_ok stop n name result =
      ap (tested digit (state_at stop n name result) (printed_test is_ok n))
        (test_of-printed_test digit ascii is_ok n)
      ∙ ap (λ st. and_then st (next_test (parsed_test is_ok n))) (emit_test-held stop n name result)
      ∙ ap (λ (st : Step). after (held name result) none (state_at stop n name result) st)
          (next_test-printed is_ok stop n name result)
      ∙ ap
          (λ calls.
            goes calls (state_at stop (n + 1) (some (test_number n)) (some (verdict is_ok))))
          (append-nil (held name result))

  end_of_lines-printed :
      (stop n k : ℕ) (name : Option Text) (result : Option TestStatus)
      → stop + 1 ≡ n + k
      → Emits
          (end_of_lines digit (state_at stop n name result))
          (held name result ++ missing_from n k)
  unfolding end_of_lines and_then missing_up_to
  end_of_lines-printed stop n k name result e =
      let left : stop + 1 - n ≡ k = omega arith in
      subst (λ st. Emits (and_then st (rest_of_plan digit)) (held name result ++ missing_from n k))
        (sym (emit_test-held stop n name result))
        (
          ap (λ ss. held name result ++ ss)
              (ap (λ k. missing_loop k n (stop + 1)) left
                ∙ missing_loop-missing_from k n (stop + 1) e),
          refl,
        )

  read_lines-printed :
      (results : List Bool) (stop n k : ℕ) (name : Option Text) (result : Option TestStatus)
      → stop + 1 ≡ n + length results + k
      → Emits
          (read_lines digit (printed_results n results) (state_at stop n name result))
          (held name result ++ (reports n results ++ missing_from (n + length results) k))
  unfolding read_lines and_then
  read_lines-printed [] stop n k name result e =
      let same : n ≡ n + 0 = omega arith in
      subst
        (λ m.
          Emits (end_of_lines digit (state_at stop n name result))
            (held name result ++ missing_from m k))
        same (end_of_lines-printed stop n k name result (omega arith))
  read_lines-printed (is_ok ∷ results) stop n k name result e =
      let report = plain_test (test_number n) (some (verdict is_ok)) in
      let after_it : n + 1 + length results ≡ n + suc (length results) = omega arith in
      let (calls, raises) =
        read_lines-printed results stop (n + 1) k (some (test_number n)) (some (verdict is_ok))
          (omega arith) in
      let all = calls ∙ ap (λ m. report ∷ (reports (n + 1) results ++ missing_from m k)) after_it in
      subst
        (λ st. Emits (and_then st (read_lines digit (printed_results (n + 1) results))) (
          held name result
          ++ (reports n (is_ok ∷ results) ++ missing_from (n + suc (length results)) k)))
        (sym (line_step-printed is_ok stop n name result))
        (ap (λ ss. held name result ++ ss) all, raises)

  line_step-plan :
      (stop : ℕ)
      → 0 < stop
      → line_step digit new (printed_plan stop) ≡ goes [] (state_at stop 1 none none)
  unfolding line_step plan_line
  line_step-plan stop h =
      let some_tests : (ltb stop 1 && stop == 0) ≡ false = ground arith in
      ap (planned digit new (printed_plan stop)) (plan_of-printed_plan digit ascii stop)
      ∙ rw some_tests refl

  line_step-no_tests :
      line_step digit new (printed_plan 0)
      ≡ fails (record new { plan = skip_stream }) attribute_error
  unfolding line_step plan_line
  line_step-no_tests = ap (planned digit new (printed_plan 0)) (plan_of-printed_plan digit ascii 0)

-- A producer prints a plan of one test or more and the results of numbered tests, as many as planned or
-- fewer. TAP2SubUnit makes one call for each result, with success or fail, then a call with fail for
-- each test of the plan that has none, and raises nothing. The digits of ASCII are digits.
pub tap_to_subunit-printed :
    (digit : ℕ → Option ℕ) (results : List Bool) (k : ℕ)
    → AsciiDigits digit
    → 0 < length results + k
    → Emits
        (tap_to_subunit digit (printed_plan (length results + k) ∷ printed_results 1 results))
        (reports 1 results ++ missing_from (1 + length results) k)
unfolding tap_to_subunit read_lines and_then
tap_to_subunit-printed digit results k ascii h =
    let stop = length results + k in
    subst
      (λ st.
        Emits (and_then st (read_lines digit (printed_results 1 results)))
          (reports 1 results ++ missing_from (1 + length results) k))
      (sym (line_step-plan digit ascii stop h))
      (read_lines-printed digit ascii results stop 1 k none none (omega arith))

-- A plan without tests and without a comment, in front of any lines, raises AttributeError before a
-- call is made.
pub tap_to_subunit-attribute_error :
    (digit : ℕ → Option ℕ) (lines : List Text)
    → AsciiDigits digit
    → ((tap_to_subunit digit (printed_plan 0 ∷ lines)).calls ≡ [])
      × ((tap_to_subunit digit (printed_plan 0 ∷ lines)).exception ≡ some attribute_error)
unfolding tap_to_subunit read_lines and_then
tap_to_subunit-attribute_error digit lines ascii =
    subst
      (λ st.
        ((and_then st (read_lines digit lines)).calls ≡ [])
        × ((and_then st (read_lines digit lines)).exception ≡ some attribute_error))
      (sym (line_step-no_tests digit ascii)) (refl, refl)
