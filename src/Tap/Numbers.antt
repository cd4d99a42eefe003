-- ===== src/Tap/Numbers.antt =====
-- The numbers of the tests that TAP2SubUnit reports.
pub mod Stream
use pysubunit.Prelude.{
  ℕ, zero, suc, ◌+◌, ◌-◌, ◌<◌, ◌≡◌, refl, sym, subst, ap, ◌∙◌, Bool, true, false, Option, none,
  some, List, [], ◌∷◌, ◌++◌, ltb, ◌&&◌, ◌==◌, if◌then◌else◌, append-nil, arith,
}
use pysubunit.Std.Format.{codes}
use pysubunit.Std.Utf8
use pysubunit.V2.Types.{Text, Bytes, TestStatus, success, fail, xfail, skip, StatusEvent}
use pysubunit.Tap.Lines.{TestLine, test_of, bail_of, is_comment}
use pysubunit.Tap.{
  State, new, TapError, Step, goes, fails, after, and_then, test_number, missing_test, encode_log,
  emit_logged, emit_named, emit_test, missing_loop, missing_up_to, plan_line, described, test_line,
  bail_name, bail_line, line_step, end_of_lines, read_lines, tap_to_subunit, result_of, directed,
  is_todo, is_skip, skipped_file, before_plan, after_plan, skip_stream, next_test, bailed_out,
  rest_of_plan, missing_before, read_test, named_test, commented, other_line, tested, planned,
  plan_looked_for,
}
use pysubunit.Tap

-- The results that a TAP test has.
abbrev pub is_result : Option TestStatus → Bool
is_result (some success) = true
is_result (some fail) = true
is_result (some xfail) = true
is_result (some skip) = true
is_result _ = false

-- A call with the result of a test of this number, whose name may be followed by a description.
pub record ReportsTest (n : ℕ) (s : StatusEvent) : Type 0 where
  pub description : Option Text
  pub named : s.test_id ≡ some (test_number n ++ described description)
  pub has_result : is_result s.test_status ≡ true
  pub complete : s.eof ≡ true

-- Output, the skip of a whole file, or the end by "Bail out!".
pub data ReportsNoTest (s : StatusEvent) : Type 0 where
  output : s.test_id ≡ none → ReportsNoTest s
  skipped : s.test_id ≡ some (codes "file skip") → ReportsNoTest s
  bail_out : (reason : Option Text) → s.test_id ≡ some (bail_name reason) → ReportsNoTest s

-- Calls that report tests with the numbers from `n` on up to `m`, which is not one of them, each once
-- and in order.
pub data Numbered : ℕ → List StatusEvent → ℕ → Type 0 where
  no_calls : {n : ℕ} → Numbered n [] n
  test_call :
      {n m : ℕ} {s : StatusEvent} {ss : List StatusEvent}
      → ReportsTest n s
      → Numbered (n + 1) ss m
      → Numbered n (s ∷ ss) m
  other_call :
      {n m : ℕ} {s : StatusEvent} {ss : List StatusEvent}
      → ReportsNoTest s
      → Numbered n ss m
      → Numbered n (s ∷ ss) m

Numbered-append :
    {n m k : ℕ} {ss ts : List StatusEvent}
    → Numbered n ss m
    → Numbered m ts k
    → Numbered n (ss ++ ts) k
Numbered-append no_calls b = b
Numbered-append (test_call r a) b = test_call r (Numbered-append a b)
Numbered-append (other_call r a) b = other_call r (Numbered-append a b)

-- A step whose calls are numbered from `n` on, and the state behind it if there is no exception.
abbrev pub Numbers : (ℕ → State → Type 0) → ℕ → Step → Type 0
Numbers P n st = (m : ℕ) × Numbered n st.calls m × (st.exception ≡ none → P m st.state)

pub and_then-Numbers :
    (P Q : ℕ → State → Type 0) (n : ℕ) (first : Step) (rest : State → Step)
    → Numbers P n first
    → ((m : ℕ) (t : State) → P m t → Numbers Q m (rest t))
    → Numbers Q n (and_then first rest)
unfolding and_then
and_then-Numbers P Q n first rest (m, a, p) f = by_exception first.exception refl
  where
    by_exception :
        (e : Option TapError)
        → first.exception ≡ e
        → Numbers Q n (after first.calls e first.state (rest first.state))
    by_exception (some e) h = (m, a, λ x. cc)
    by_exception none h = let (k, b, q) = f m first.state (p h) in (k, Numbered-append a b, q)

-- The next number to report is `n`: the test that is held back has it, or the next test line.
pub data Holds (n : ℕ) (t : State) : Type 0 where
  no_test : t.test_name ≡ none → t.plan_start ≡ n → Holds n t
  a_test :
      (d : Option Text)
      → t.test_name ≡ some (test_number n ++ described d)
      → is_result t.result ≡ true
      → t.plan_start ≡ n + 1
      → Holds n t
  a_bail : (r : Option Text) → t.test_name ≡ some (bail_name r) → t.plan_start ≡ n → Holds n t

abbrev pub IsNext : ℕ → State → Type 0
IsNext n t = t.plan_start ≡ n

-- The call for the test that is held back.
held-Numbered :
    (n : ℕ) (t : State) (name : Text) (s : StatusEvent)
    → Holds n t
    → t.test_name ≡ some name
    → s.test_id ≡ some name
    → s.test_status ≡ t.result
    → s.eof ≡ true
    → Numbered n (s ∷ []) t.plan_start
held-Numbered n t name s (no_test e p) h i r f = cc
held-Numbered n t name s (a_test d e q p) h i r f = subst (Numbered n (s ∷ [])) (sym p) (
    test_call
      (record {
        description = d;
        named = i ∙ sym h ∙ e;
        has_result = ap is_result r ∙ q;
        complete = f;
      })
      no_calls)
held-Numbered n t name s (a_bail b e p) h i r f =
    subst (Numbered n (s ∷ [])) (sym p) (other_call (bail_out b (i ∙ sym h ∙ e)) no_calls)

emit_named-Numbers :
    (n : ℕ) (t : State) (log : List Text) (name : Option Text)
    → Holds n t
    → t.test_name ≡ name
    → Numbers IsNext n (emit_named t log name)
emit_named-Numbers n t log none (no_test e p) h = (n, no_calls, λ x. p)
emit_named-Numbers n t log none (a_test d e q p) h = cc
emit_named-Numbers n t log none (a_bail b e p) h = cc
emit_named-Numbers n t [] (some name) k h =
    (t.plan_start, held-Numbered n t name _ k h refl refl refl, λ x. refl)
emit_named-Numbers n t (line ∷ lines) (some name) k h = by_encoding (encode_log (line ∷ lines))
  where
    by_encoding : (bytes : Option Bytes) → Numbers IsNext n (emit_logged t name bytes)
    by_encoding none = (n, no_calls, λ x. cc)
    by_encoding (some bytes) =
        (t.plan_start, held-Numbered n t name _ k h refl refl refl, λ x. refl)

pub emit_test-Numbers : (n : ℕ) (t : State) → Holds n t → Numbers IsNext n (emit_test t)
unfolding emit_test
emit_test-Numbers n t h = emit_named-Numbers n t t.log t.test_name h refl

abbrev pub reached : ℕ → ℕ → ℕ
reached start stop = if ltb start stop then stop else start

missing_test-ReportsTest : (n : ℕ) → ReportsTest n (missing_test n)
missing_test-ReportsTest n = record {
  description = none;
  named = ap some (sym (append-nil (test_number n)));
  has_result = refl;
  complete = refl;
}

missing_loop-Numbered :
    (fuel start stop : ℕ)
    → stop - start ≡ fuel
    → Numbered start (missing_loop fuel start stop) (reached start stop)
unfolding missing_loop
missing_loop-Numbered zero start stop h = subst (Numbered start []) (ground arith) no_calls
missing_loop-Numbered (suc fuel) start stop h =
    let less : ltb start stop ≡ true = ground arith in
    let same : reached (start + 1) stop ≡ stop = ground arith in
    rw less (
      test_call (missing_test-ReportsTest start) (
        subst (Numbered (start + 1) (missing_loop fuel (start + 1) stop)) same
          (missing_loop-Numbered fuel (start + 1) stop (omega arith))))

pub missing_up_to-Numbers :
    (P : ℕ → State → Type 0) (n stop : ℕ) (t : State)
    → IsNext n t
    → P (reached n stop) (record t { plan_start = reached t.plan_start stop })
    → Numbers P n (missing_up_to stop t)
unfolding missing_up_to
missing_up_to-Numbers P n stop t e p = (
  reached n stop,
  subst (λ start. Numbered n (missing_loop (stop - start) start stop) (reached n stop)) (sym e)
      (missing_loop-Numbered (stop - n) n stop refl),
  λ x. p,
)
