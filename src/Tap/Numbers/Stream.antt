-- ===== src/Tap/Numbers/Stream.antt =====
-- The numbers that the lines of a stream give.
use pysubunit.Prelude.{
  ℕ, ◌+◌, ◌<◌, ◌≡◌, refl, ap, ◌∙◌, Bool, true, false, Option, none, some, List, [], ◌∷◌, ◌++◌, ltb,
  ◌&&◌, ◌==◌, if◌then◌else◌, arith,
}
use pysubunit.Std.Utf8
use pysubunit.V2.Types.{Text, Bytes, TestStatus, success, fail, xfail, skip}
use pysubunit.Tap.Lines.{TestLine, test_of, bail_of, is_comment}
use pysubunit.Tap.{
  State, new, TapError, Step, goes, fails, after, and_then, test_number, missing_test, encode_log,
  emit_logged, emit_named, emit_test, missing_loop, missing_up_to, plan_line, described, test_line,
  bail_name, bail_line, line_step, end_of_lines, read_lines, tap_to_subunit, result_of, directed,
  is_todo, is_skip, skipped_file, before_plan, after_plan, skip_stream, next_test, bailed_out,
  rest_of_plan, missing_before, read_test, named_test, commented, other_line, tested, planned,
  plan_looked_for,
}
use pysubunit.Tap
use pysubunit.Tap.Numbers.{
  is_result, output, skipped, Numbered, no_calls, other_call, Numbers, and_then-Numbers, Holds,
  no_test, a_test, a_bail, IsNext, emit_test-Numbers, reached, missing_up_to-Numbers,
}

chosen-is_result :
    (b : Bool) (first second : TestStatus)
    → is_result (some first) ≡ true
    → is_result (some second) ≡ true
    → is_result (some (if b then first else second)) ≡ true
chosen-is_result true first second h k = h
chosen-is_result false first second h k = k

directed-is_result :
    (status : TestStatus) (directive : Option Text)
    → is_result (some status) ≡ true
    → is_result (some (directed status directive)) ≡ true
directed-is_result status none h = h
directed-is_result status (some d) h =
    chosen-is_result (is_todo d) xfail _ refl (chosen-is_result (is_skip d) skip status refl h)

result_of-is_result : (line : TestLine) → is_result (some (result_of line)) ≡ true
result_of-is_result line =
    directed-is_result _ line.directive (chosen-is_result line.is_ok success fail refl refl)

-- What is held does not depend on the log and the plan.
Holds-same :
    (n : ℕ) (t u : State)
    → u.test_name ≡ t.test_name
    → u.result ≡ t.result
    → u.plan_start ≡ t.plan_start
    → Holds n t
    → Holds n u
Holds-same n t u h r p (no_test e q) = no_test (h ∙ e) (p ∙ q)
Holds-same n t u h r p (a_test d e i q) = a_test d (h ∙ e) (ap is_result r ∙ i) (p ∙ q)
Holds-same n t u h r p (a_bail b e q) = a_bail b (h ∙ e) (p ∙ q)

plan_line-Numbers :
    (n : ℕ) (t : State) (parts : ℕ × Option Text) → Holds n t → Numbers Holds n (plan_line t parts)
unfolding plan_line
plan_line-Numbers n t (stop, comment) h = by_test (ltb stop t.plan_start && stop == 0)
  where
    by_bytes :
        (u : State) (bytes : Option Bytes) → Holds n u → Numbers Holds n (Tap.skipped u bytes)
    by_bytes u none k = (n, no_calls, λ x. cc)
    by_bytes u (some bytes) k = (n, other_call (skipped refl) no_calls, λ x. k)

    by_comment : (u : State) (c : Option Text) → Holds n u → Numbers Holds n (skipped_file u c)
    by_comment u none k = (n, no_calls, λ x. cc)
    by_comment u (some c) k = by_bytes u (Utf8.encode c) k

    by_test :
        (b : Bool)
        → Numbers Holds n (
            if b
            then skipped_file (record t { plan = skip_stream; plan_stop = stop }) comment
            else goes [] (record t { plan = after_plan; plan_stop = stop }))
    by_test true = by_comment _ comment (Holds-same n t _ refl refl refl h)
    by_test false = (n, no_calls, λ x. Holds-same n t _ refl refl refl h)

-- Between the last test and the next.
abbrev Between : ℕ → State → Type 0
Between n t = IsNext n t × (is_result t.result ≡ true)

missing_before-Numbers :
    (n : ℕ) (t : State) (number : Option ℕ)
    → Between n t
    → Numbers Between n (missing_before number t)
missing_before-Numbers n t none b = (n, no_calls, λ x. b)
missing_before-Numbers n t (some number) (e, r) =
    missing_up_to-Numbers Between n number t e (ap (λ start. reached start number) e, r)

next_test-Numbers :
    (n : ℕ) (t : State) (line : TestLine) → IsNext n t → Numbers Holds n (next_test line t)
unfolding next_test
next_test-Numbers n t line e =
    and_then-Numbers Between Holds n (missing_before line.number (read_test line t))
      (named_test line)
      (missing_before-Numbers n (read_test line t) line.number (e, result_of-is_result line))
      (λ k v b. (
        k,
        no_calls,
        λ x.
            a_test line.description
              (ap (λ start. some (test_number start ++ described line.description)) b.0) b.1
              (ap (λ start. start + 1) b.0),
      ))

test_line-Numbers :
    (n : ℕ) (t : State) (line : TestLine) → Holds n t → Numbers Holds n (test_line t line)
unfolding test_line
test_line-Numbers n t line h =
    and_then-Numbers IsNext Holds n (emit_test t) (next_test line) (emit_test-Numbers n t h)
      (λ m u e. next_test-Numbers m u line e)

bail_line-Numbers :
    (n : ℕ) (t : State) (reason : Option Text) → Holds n t → Numbers Holds n (bail_line t reason)
unfolding bail_line
bail_line-Numbers n t reason h =
    and_then-Numbers IsNext Holds n (emit_test t) (bailed_out reason) (emit_test-Numbers n t h)
      (λ m u e. (m, no_calls, λ x. a_bail reason refl e))

module _ (digit : ℕ → Option ℕ) (n : ℕ) (t : State) (line : Text) (h : Holds n t) where
  commented-Numbers : (b : Bool) → Numbers Holds n (commented digit t line b)
  commented-Numbers true = (n, no_calls, λ x. Holds-same n t _ refl refl refl h)
  commented-Numbers false = by_encoding (Utf8.encode line)
    where
      by_encoding : (bytes : Option Bytes) → Numbers Holds n (other_line t bytes)
      by_encoding none = (n, no_calls, λ x. cc)
      by_encoding (some bytes) = (n, other_call (output refl) no_calls, λ x. h)

  bailed-Numbers :
      (reason : Option (Option Text)) → Numbers Holds n (Tap.bailed digit t line reason)
  bailed-Numbers none = commented-Numbers (is_comment line)
  bailed-Numbers (some reason) = bail_line-Numbers n t reason h

  tested-Numbers : (parts : Option TestLine) → Numbers Holds n (tested digit t line parts)
  tested-Numbers none = bailed-Numbers (bail_of line)
  tested-Numbers (some parts) = test_line-Numbers n t parts h

  planned-Numbers :
      (parts : Option (ℕ × Option Text)) → Numbers Holds n (planned digit t line parts)
  planned-Numbers none = tested-Numbers (test_of digit line)
  planned-Numbers (some parts) = plan_line-Numbers n t parts h

  line_step-Numbers : Numbers Holds n (line_step digit t line)
  unfolding line_step
  line_step-Numbers = planned-Numbers (plan_looked_for digit t.plan line)

-- At the end every test of the plan is reported.
abbrev PlanDone : ℕ → State → Type 0
PlanDone n t = IsNext n t × (t.plan_stop < n)

end_of_lines-Numbers :
    (digit : ℕ → Option ℕ) (n : ℕ) (t : State)
    → Holds n t
    → Numbers PlanDone n (end_of_lines digit t)
unfolding end_of_lines
end_of_lines-Numbers digit n t h =
    and_then-Numbers IsNext PlanDone n (emit_test t) (rest_of_plan digit) (emit_test-Numbers n t h)
      (λ m u e.
        missing_up_to-Numbers PlanDone m (u.plan_stop + 1) u e
          (ap (λ start. reached start (u.plan_stop + 1)) e, reached_least m u.plan_stop))
  where
    reached_least : (start stop : ℕ) → stop < reached start (stop + 1)
    reached_least start stop = ground arith

read_lines-Numbers :
    (digit : ℕ → Option ℕ) (lines : List Text) (n : ℕ) (t : State)
    → Holds n t
    → Numbers PlanDone n (read_lines digit lines t)
unfolding read_lines
read_lines-Numbers digit [] n t h = end_of_lines-Numbers digit n t h
read_lines-Numbers digit (line ∷ lines) n t h =
    and_then-Numbers Holds PlanDone n (line_step digit t line) (read_lines digit lines)
      (line_step-Numbers digit n t line h) (λ m u k. read_lines-Numbers digit lines m u k)

-- An exception, or no number of the plan that is not below `m`.
pub data PlanReported (st : Step) (m : ℕ) : Type 0 where
  raised : (e : TapError) → st.exception ≡ some e → PlanReported st m
  reported : st.exception ≡ none → st.state.plan_stop < m → PlanReported st m

plan-PlanReported :
    (st : Step) (m : ℕ) → (st.exception ≡ none → PlanDone m st.state) → PlanReported st m
plan-PlanReported st m p = by_exception st.exception refl
  where
    by_exception : (e : Option TapError) → st.exception ≡ e → PlanReported st m
    by_exception none h = reported h (p h).1
    by_exception (some e) h = raised e h

-- Whatever the lines are, the tests that TAP2SubUnit reports have the numbers from 1 on, each once and
-- in order, with a final result; the other calls are output, the skip of the file and bail outs. If it
-- raises nothing, the numbers go on to the end of the plan at least.
pub tap_to_subunit-Numbered :
    (digit : ℕ → Option ℕ) (lines : List Text)
    → (m : ℕ) × Numbered 1 (tap_to_subunit digit lines).calls m
      × PlanReported (tap_to_subunit digit lines) m
unfolding tap_to_subunit
tap_to_subunit-Numbered digit lines =
    let (m, a, p) = read_lines-Numbers digit lines 1 new (no_test refl refl) in
    (m, a, plan-PlanReported (read_lines digit lines new) m p)
