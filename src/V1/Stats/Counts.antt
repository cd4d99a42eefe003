-- ===== src/V1/Stats/Counts.antt =====
-- What the statistics of a stream count.
use pysubunit.Prelude.{
  ℕ, ◌+◌, ◌≡◌, sym, subst, ap, ◌∙◌, Bool, true, false, Option, none, List, [], ◌∷◌, ◌++◌, ◌==◌,
  arith,
}
use native.Mathlib.Nat.{zero-add}
use pysubunit.Prelude.Int.{pos, sub_ℕ}
use pysubunit.V2.Types.{Text, Bytes}
use pysubunit.V1.Calls.{
  Details, Outcome, error, failure, skip, success, xfail, uxsuccess, Call, start_test, stop_test,
  add, add_remote_error, progress, tags, time, Error,
}
use pysubunit.V1.Server
use pysubunit.V1.Server.{Server, read_from}
use pysubunit.V1.Server.Brackets.{read_from-Follows}
use pysubunit.V1.Server.Brackets.Order.{
  Phase, idle, running, reported, Follows, finished, starts, reports, stops, aside, IsAside, Ended,
  broken_off, between, cut, calls,
}
use pysubunit.V1.Stats.{Stats, new, counted, step, run, passed_tests, was_successful}

-- How many tests are reported by an outcome that satisfies `counts`.
abbrev pub is_pass : Outcome → Bool
is_pass success = true
is_pass xfail = true
is_pass uxsuccess = true
is_pass _ = false

abbrev pub is_failed : Outcome → Bool
is_failed error = true
is_failed failure = true
is_failed _ = false

abbrev pub one_if : Bool → ℕ
one_if true = 1
one_if false = 0

unfoldable pub reported_as : {Time : Type 0} → (Outcome → Bool) → List (Call Time) → ℕ
reported_as counts [] = 0
reported_as counts (add outcome test details ∷ cs) = one_if (counts outcome) + reported_as counts cs
reported_as counts (add_remote_error test message ∷ cs) =
    one_if (counts error) + reported_as counts cs
reported_as counts (_ ∷ cs) = reported_as counts cs

-- A test that has begun and has no outcome yet.
abbrev pending : Phase → ℕ
pending idle = 0
pending (running t) = 1
pending (reported t) = 0

sub_ℕ-add : (n k : ℕ) → sub_ℕ (n + k) n ≡ pos k
sub_ℕ-add n k = ground arith

module _ {Time : Type 0} where
  -- What a stretch of the calls adds to the counts.
  abbrev IsBalanced : Phase → Phase → List (Call Time) → Stats → Type 0
  IsBalanced p q cs s =
      (run s cs).tests_run + pending p + (s.failed_tests + s.skipped_tests)
      ≡ s.tests_run
        + pending q
        + ((run s cs).failed_tests + (run s cs).skipped_tests)
        + reported_as is_pass cs

  add-IsBalanced :
      (t : Option Text) (o : Outcome) (details : Option Details) (q : Phase) (cs : List (Call Time))
      (s : Stats)
      → IsBalanced (reported t) q cs (counted o s)
      → IsBalanced (running t) q (add o t details ∷ cs) s
  unfolding run reported_as
  add-IsBalanced t error details q cs s b = omega (arith, b)
  add-IsBalanced t failure details q cs s b = omega (arith, b)
  add-IsBalanced t skip details q cs s b = omega (arith, b)
  add-IsBalanced t success details q cs s b = omega (arith, b)
  add-IsBalanced t xfail details q cs s b = omega (arith, b)
  add-IsBalanced t uxsuccess details q cs s b = omega (arith, b)

  aside-IsBalanced :
      (c : Call Time) (p q : Phase) (cs : List (Call Time)) (s : Stats)
      → IsAside c
      → ((t : Stats) → IsBalanced p q cs t)
      → IsBalanced p q (c ∷ cs) s
  unfolding run reported_as
  aside-IsBalanced (progress x) p q cs s h b = b s
  aside-IsBalanced (tags new_tags gone_tags) p q cs s h b =
      b (step {Time = Time} s (tags new_tags gone_tags))
  aside-IsBalanced (time x) p q cs s h b = b s
  aside-IsBalanced (start_test _) p q cs s h b = elim h [ ]
  aside-IsBalanced (stop_test _) p q cs s h b = elim h [ ]
  aside-IsBalanced (add _ _ _) p q cs s h b = elim h [ ]
  aside-IsBalanced (add_remote_error _ _) p q cs s h b = elim h [ ]

  -- Calls that end test by test, and what comes behind them.
  run-IsBalanced :
      {p q : Phase} {cs : List (Call Time)} (r : Phase) (more : List (Call Time)) (s : Stats)
      → Follows p cs q
      → ((t : Stats) → IsBalanced q r more t)
      → IsBalanced p r (cs ++ more) s
  unfolding run reported_as
  run-IsBalanced r more s finished k = k s
  run-IsBalanced r more s (starts {t} f) k =
      omega (arith, run-IsBalanced r more (step {Time = Time} s (start_test t)) f k)
  run-IsBalanced r more s (reports {t} {o} {ds} {cs} {q} f) k =
      add-IsBalanced t o ds r (cs ++ more) s (run-IsBalanced r more (counted o s) f k)
  run-IsBalanced r more s (stops f) k = run-IsBalanced r more s f k
  run-IsBalanced r more s (aside {c} {p} {cs} {q} h u f) k =
      aside-IsBalanced c p r (cs ++ more) s h (λ t. run-IsBalanced r more t f k)

  ended-IsBalanced :
      {e : Option Error} {q : Phase} {ds : List (Call Time)}
      → Ended e q ds
      → e ≡ none
      → (s : Stats) → IsBalanced q idle ds s
  unfolding run reported_as
  ended-IsBalanced broken_off h s = cc
  ended-IsBalanced between h s = omega arith
  ended-IsBalanced cut h s = omega arith

  add-failed :
      (o : Outcome) (ds : Option Details) (cs : List (Call Time)) (s : Stats)
      → ((t : Stats) → (run t cs).failed_tests ≡ t.failed_tests + reported_as is_failed cs)
      → (run (counted o s) cs).failed_tests
        ≡ s.failed_tests + (one_if (is_failed o) + reported_as is_failed cs)
  add-failed error ds cs s f = omega (arith, f (counted error s))
  add-failed failure ds cs s f = omega (arith, f (counted failure s))
  add-failed skip ds cs s f = omega (arith, f (counted skip s))
  add-failed success ds cs s f = omega (arith, f s)
  add-failed xfail ds cs s f = omega (arith, f s)
  add-failed uxsuccess ds cs s f = omega (arith, f s)

  run-failed :
      (cs : List (Call Time)) (s : Stats)
      → (run s cs).failed_tests ≡ s.failed_tests + reported_as is_failed cs
  unfolding run reported_as
  run-failed [] s = omega arith
  run-failed (start_test t ∷ cs) s = run-failed cs (step {Time = Time} s (start_test t))
  run-failed (stop_test t ∷ cs) s = run-failed cs s
  run-failed (add o t ds ∷ cs) s = add-failed o ds cs s (λ t. run-failed cs t)
  run-failed (add_remote_error t m ∷ cs) s = omega (arith, run-failed cs (counted error s))
  run-failed (progress x ∷ cs) s = run-failed cs s
  run-failed (tags n g ∷ cs) s = run-failed cs (step {Time = Time} s (tags n g))
  run-failed (time x ∷ cs) s = run-failed cs s

  -- The statistics of a stream that is read without an exception. The tests that passed, which are
  -- counted by subtraction, are as many as were reported by success, xfail and uxsuccess; and the run
  -- was successful if and only if no test was reported by error or failure.
  pub read_from-stats :
      (parse_time : Bytes → Option Time) (stream : Bytes)
      → (read_from parse_time stream Server.new).exception ≡ none
      → (passed_tests (run new (calls (read_from parse_time stream Server.new).effects))
          ≡ pos (reported_as is_pass (calls (read_from parse_time stream Server.new).effects)))
        × (was_successful (run new (calls (read_from parse_time stream Server.new).effects))
            ≡ (reported_as is_failed (calls (read_from parse_time stream Server.new).effects) == 0))
  read_from-stats parse_time stream h =
      let cs = calls (read_from parse_time stream Server.new).effects in
      let (q, ks, ds, f, made, ended) = read_from-Follows parse_time stream Server.new in
      let st = run new cs in
      let balanced : IsBalanced idle idle cs new =
        subst (λ all. IsBalanced idle idle all new) (sym made)
          (run-IsBalanced idle ds new f (ended-IsBalanced ended h)) in
      let balance : st.tests_run ≡ (st.failed_tests + st.skipped_tests) + reported_as is_pass cs =
        omega (arith, balanced) in
      (
        ap (λ n. sub_ℕ n (st.failed_tests + st.skipped_tests)) balance
            ∙ sub_ℕ-add (st.failed_tests + st.skipped_tests) (reported_as is_pass cs),
        ap (λ n. n == 0) (run-failed cs new ∙ zero-add (reported_as is_failed cs)),
      )
