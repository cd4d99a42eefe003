-- ===== src/Results/Filter/Whole.antt =====
-- What the filter hands on of a test: all of it or nothing.
use pysubunit.Prelude.{
  ◌≡◌, refl, sym, ap, ◌∙◌, Bool, true, false, ◌&&◌, ◌||◌, Bool-cases, inl, inr, none, some, List,
  [], ◌∷◌, ◌++◌, append_assoc, append-nil, All, if◌then◌else◌,
}
use pysubunit.Results.Tags.{Scope, Tags, active_tags, empty, stop_test, change, change_tags}
use pysubunit.Results.Filter.{
  Outcome, error, failure, skip, expectedfailure, success, unexpectedsuccess, is_outcome, Call,
  start, stop, add, tags, time, other, PredicateFilter, Predicate, accepts, step, run,
}

module _ {Test Info : Type 0} where
  -- What the filter says of an outcome.
  accepts-or :
      (p : Predicate Test Info) (outcome : Outcome) (test : Test) (info : Info) (s : Tags)
      → (is_outcome outcome unexpectedsuccess || p test outcome info (active_tags s))
        ≡ accepts p outcome test info s
  accepts-or p error test info s = refl
  accepts-or p failure test info s = refl
  accepts-or p skip test info s = refl
  accepts-or p expectedfailure test info s = refl
  accepts-or p success test info s = refl
  accepts-or p unexpectedsuccess test info s = refl

module _ {Test Info Time Other : Type 0} where
  -- A call between startTest and stopTest.
  abbrev pub IsInner : Call Test Info Time Other → Type 0
  IsInner (start test) = ⊥
  IsInner (stop test) = ⊥
  IsInner _ = Unit

  -- The calls that are handed on when they are made, and those that wait for stopTest.
  unfoldable pub at_once : List (Call Test Info Time Other) → List (Call Test Info Time Other)
  at_once [] = []
  at_once (time t ∷ cs) = time t ∷ at_once cs
  at_once (other o ∷ cs) = other o ∷ at_once cs
  at_once (_ ∷ cs) = at_once cs

  unfoldable pub waiting : List (Call Test Info Time Other) → List (Call Test Info Time Other)
  waiting [] = []
  waiting (time t ∷ cs) = waiting cs
  waiting (other o ∷ cs) = waiting cs
  waiting (c ∷ cs) = c ∷ waiting cs

  -- The tags of the test after the calls.
  unfoldable pub tags_after : List (Call Test Info Time Other) → Tags → Tags
  tags_after [] s = s
  tags_after (tags new_tags gone_tags ∷ cs) s = tags_after cs (change_tags new_tags gone_tags s)
  tags_after (_ ∷ cs) s = tags_after cs s

  -- The predicate is true of every outcome but the unexpected successes, each with the tags that the
  -- test has then. Of an unexpected success it is not asked.
  unfoldable pub keeps : Predicate Test Info → List (Call Test Info Time Other) → Tags → Bool
  keeps p [] s = true
  keeps p (add outcome test info ∷ cs) s =
      let rest = keeps p cs s in
      (is_outcome outcome unexpectedsuccess || p test outcome info (active_tags s)) && rest
  keeps p (tags new_tags gone_tags ∷ cs) s = keeps p cs (change_tags new_tags gone_tags s)
  keeps p (_ ∷ cs) s = keeps p cs s

  abbrev inside :
      Tags → Test → Bool → List (Call Test Info Time Other) → PredicateFilter Test Info Time Other
  inside s test filtered buffered = record {
    tag_state = s;
    current_test = some test;
    current_test_filtered = some filtered;
    buffered_calls = buffered;
  }

  abbrev pub between : Tags → PredicateFilter Test Info Time Other
  between s = record {
    tag_state = s;
    current_test = none;
    current_test_filtered = none;
    buffered_calls = [];
  }

  abbrev handed :
      Predicate Test Info
      → List (Call Test Info Time Other)
      → Tags
      → Test
      → Bool
      → List (Call Test Info Time Other)
      → List (Call Test Info Time Other)
  handed p cs s test filtered buffered =
      if filtered
      then []
      else if keeps p cs s
      then (buffered ++ waiting cs) ++ stop test ∷ []
      else []

  -- A call that waits stands behind those that wait already.
  handed_more :
      (filtered kept : Bool) (buffered : List (Call Test Info Time Other))
      (c : Call Test Info Time Other) (cs ends : List (Call Test Info Time Other))
      → (if filtered then [] else if kept then ((buffered ++ c ∷ []) ++ cs) ++ ends else [])
        ≡ (if filtered then [] else if kept then (buffered ++ c ∷ cs) ++ ends else [])
  handed_more filtered kept buffered c cs ends =
      ap
        (λ (ds : List (Call Test Info Time Other)).
          if filtered then [] else if kept then ds ++ ends else [])
        (append_assoc buffered (c ∷ []) cs)

  nothing_handed :
      (filtered : Bool)
      → ◌≡◌ {A = List (Call Test Info Time Other)} [] (if filtered then [] else [])
  nothing_handed true = refl
  nothing_handed false = refl

  stopped_at_once :
      (filtered : Bool) (buffered ends : List (Call Test Info Time Other))
      → (if filtered then [] else buffered ++ ends) ++ []
        ≡ (if filtered then [] else (buffered ++ []) ++ ends)
  stopped_at_once true buffered ends = refl
  stopped_at_once false buffered ends =
      append-nil (buffered ++ ends)
      ∙ ap (λ (ds : List (Call Test Info Time Other)). ds ++ ends) (sym (append-nil buffered))

  module _ (p : Predicate Test Info) (test : Test) where
    run-inside :
        (cs : List (Call Test Info Time Other)) (s : Tags) (filtered : Bool)
        (buffered : List (Call Test Info Time Other))
        → All IsInner cs
        → run p (inside s test filtered buffered) (cs ++ stop test ∷ []) ≡ (
          at_once cs ++ handed p cs s test filtered buffered,
          between (stop_test (tags_after cs s)),
        )
    unfolding run step at_once waiting tags_after keeps
    run-inside [] s filtered buffered h =
        ap (λ (ds : List (Call Test Info Time Other)). (ds, between (stop_test s)))
          (stopped_at_once filtered buffered (stop test ∷ []))
    run-inside (start x ∷ cs) s filtered buffered (h, k) = absurd h
    run-inside (stop x ∷ cs) s filtered buffered (h, k) = absurd h
    run-inside (add outcome x info ∷ cs) s filtered buffered (h, k) =
        elim (Bool-cases (accepts p outcome x info s)) [
          | inl y ↦
              rw (accepts-or p outcome x info s, y)
                (run-inside cs s filtered (buffered ++ add outcome x info ∷ []) k
                  ∙ ap
                      (λ (ds : List (Call Test Info Time Other)).
                        (at_once cs ++ ds, between (stop_test (tags_after cs s))))
                      (handed_more filtered (keeps p cs s) buffered (add outcome x info)
                        (waiting cs) (stop test ∷ [])))
          | inr y ↦
              rw (accepts-or p outcome x info s, y)
                (run-inside cs s true buffered k
                  ∙ ap
                      (λ (ds : List (Call Test Info Time Other)).
                        (at_once cs ++ ds, between (stop_test (tags_after cs s))))
                      (nothing_handed filtered))
        ]
    run-inside (tags n g ∷ cs) s filtered buffered (h, k) =
        run-inside cs (change_tags n g s) filtered (buffered ++ tags n g ∷ []) k
        ∙ ap
            (λ (ds : List (Call Test Info Time Other)).
              (at_once cs ++ ds, between (stop_test (tags_after cs (change_tags n g s)))))
            (handed_more filtered (keeps p cs (change_tags n g s)) buffered (tags n g) (waiting cs)
              (stop test ∷ []))
    run-inside (time t ∷ cs) s filtered buffered (h, k) =
        ap
          (λ (r : List (Call Test Info Time Other) × PredicateFilter Test Info Time Other).
            (time t ∷ r.0, r.1))
          (run-inside cs s filtered buffered k)
    run-inside (other o ∷ cs) s filtered buffered (h, k) =
        ap
          (λ (r : List (Call Test Info Time Other) × PredicateFilter Test Info Time Other).
            (other o ∷ r.0, r.1))
          (run-inside cs s filtered buffered k)

    tags_after-global :
        (cs : List (Call Test Info Time Other)) (g c : Scope)
        → stop_test (tags_after cs (record { global_tags = g; test_tags = some c }))
          ≡ record { global_tags = g; test_tags = none }
    unfolding tags_after change_tags
    tags_after-global [] g c = refl
    tags_after-global (start x ∷ cs) g c = tags_after-global cs g c
    tags_after-global (stop x ∷ cs) g c = tags_after-global cs g c
    tags_after-global (add outcome x info ∷ cs) g c = tags_after-global cs g c
    tags_after-global (tags n gone ∷ cs) g c = tags_after-global cs g (change n gone c)
    tags_after-global (time t ∷ cs) g c = tags_after-global cs g c
    tags_after-global (other o ∷ cs) g c = tags_after-global cs g c

    -- Of one whole test, times and the calls that the filter does not define are handed on when they
    -- are made. startTest, the outcomes, the calls of tags and stopTest are handed on together at
    -- stopTest, in their order, if the predicate is true of every outcome other than an unexpected
    -- success, with the tags that the test has at that point, and else none of them. Of unexpected
    -- successes the predicate is not asked: they do not keep a test back. Then the filter is as it was
    -- before the test.
    pub run-test :
        (cs : List (Call Test Info Time Other)) (g : Scope)
        → All IsInner cs
        → run p
            (between (record { global_tags = g; test_tags = none }))
            (start test ∷ cs ++ stop test ∷ [])
          ≡ (
            at_once cs
                ++ (if keeps p cs (record { global_tags = g; test_tags = some empty })
                    then (start test ∷ waiting cs) ++ stop test ∷ []
                    else []),
            between (record { global_tags = g; test_tags = none }),
          )
    unfolding run step
    run-test cs g h =
        run-inside cs (record { global_tags = g; test_tags = some empty }) false (start test ∷ []) h
        ∙ ap
            (λ s. (
              at_once cs
                  ++ handed p cs (record { global_tags = g; test_tags = some empty }) test false
                      (start test ∷ []),
              between s,
            ))
            (tags_after-global cs g empty)
