-- ===== src/V1/Server/Brackets/Order.antt =====
-- The order of the calls, and steps that keep it.
use pysubunit.Prelude.{
  ◌≡◌, ◌≢◌, refl, sym, subst, ap, Bool, true, false, Option, none, some, List, [], ◌∷◌, ◌++◌,
  if◌then◌else◌,
}
use pysubunit.Std.Format.{codes}
use pysubunit.V2.Types.{Text, Bytes}
use pysubunit.V1.Calls.{
  Outcome, Call, start_test, stop_test, add, add_remote_error, progress, tags, time, Details, Error,
}
use pysubunit.V1.Server.{
  Description, State, outside_test, in_test, reading, Server, Effect, client, passed, forwarded,
  Step, goes, fails,
}

-- Between tests, in a test that has no outcome yet, and in one that has.
pub data Phase : Type 0 where
  idle : Phase
  running reported : Option Text → Phase

abbrev pub phase_in : State → Option Text → Phase
phase_in outside_test t = idle
phase_in in_test t = running t
phase_in (reading o p) t = running t

abbrev pub phase_of : Server → Phase
phase_of s = phase_in s.state s.current_test

abbrev pub server_at : Option Text → State → Description → Server
server_at t state d = record { state = state; current_test = t; description = d }

-- No test has an outcome and waits for its end.
abbrev pub IsUnreported : Phase → Type 0
IsUnreported (reported t) = ⊥
IsUnreported _ = Unit

phase_in-IsUnreported : (state : State) (t : Option Text) → IsUnreported (phase_in state t)
phase_in-IsUnreported outside_test t = tt
phase_in-IsUnreported in_test t = tt
phase_in-IsUnreported (reading o p) t = tt

module _ {Time : Type 0} where
  abbrev pub IsAside : Call Time → Type 0
  IsAside (progress p) = Unit
  IsAside (tags new_tags gone_tags) = Unit
  IsAside (time t) = Unit
  IsAside _ = ⊥

  -- startTest, one outcome and stopTest, all of one test, and then the next; progress, tags and times
  -- at any place but between an outcome and its stopTest.
  pub data Follows : Phase → List (Call Time) → Phase → Type 0 where
    finished : {p : Phase} → Follows p [] p
    starts :
        {t : Option Text} {cs : List (Call Time)} {q : Phase}
        → Follows (running t) cs q
        → Follows idle (start_test t ∷ cs) q
    reports :
        {t : Option Text} {o : Outcome} {ds : Option Details} {cs : List (Call Time)} {q : Phase}
        → Follows (reported t) cs q
        → Follows (running t) (add o t ds ∷ cs) q
    stops :
        {t : Option Text} {cs : List (Call Time)} {q : Phase}
        → Follows idle cs q
        → Follows (reported t) (stop_test t ∷ cs) q
    aside :
        {c : Call Time} {p : Phase} {cs : List (Call Time)} {q : Phase}
        → IsAside c
        → IsUnreported p
        → Follows p cs q
        → Follows p (c ∷ cs) q

  pub Follows-append :
      {p q r : Phase} {cs ds : List (Call Time)}
      → Follows p cs q
      → Follows q ds r
      → Follows p (cs ++ ds) r
  Follows-append finished g = g
  Follows-append (starts f) g = starts (Follows-append f g)
  Follows-append (reports f) g = reports (Follows-append f g)
  Follows-append (stops f) g = stops (Follows-append f g)
  Follows-append (aside h u f) g = aside h u (Follows-append f g)

  -- What the calls of a stream end with, for the exception that ended it and the phase that it left: a
  -- test that is open when the connection is lost is reported with an error and stopped.
  pub data Ended : Option Error → Phase → List (Call Time) → Type 0 where
    broken_off : {e : Error} {q : Phase} → Ended (some e) q []
    between : Ended none idle []
    cut :
        {t : Option Text} {what : Text}
        → Ended none
            (running t)
            (add_remote_error t (codes "lost connection during " ++ what) ∷ stop_test t ∷ [])

  unfoldable pub calls : List (Effect Time) → List (Call Time)
  calls [] = []
  calls (client c ∷ es) = c ∷ calls es
  calls (passed line ∷ es) = calls es
  calls (forwarded line ∷ es) = calls es

  pub calls-append : (es fs : List (Effect Time)) → calls (es ++ fs) ≡ calls es ++ calls fs
  unfolding calls
  calls-append [] fs = refl
  calls-append (client c ∷ es) fs = ap (λ cs. c ∷ cs) (calls-append es fs)
  calls-append (passed line ∷ es) fs = calls-append es fs
  calls-append (forwarded line ∷ es) fs = calls-append es fs

  -- A step that raises nothing goes on from the phase; one that raises has made no call.
  pub record IsOrderly (p : Phase) (st : Step Time) : Type 0 where
    pub goes_on : st.exception ≡ none → Follows p (calls st.effects) (phase_of st.server)
    pub quiet : st.exception ≢ none → calls st.effects ≡ []

  pub orderly :
      (p : Phase) (es : List (Effect Time)) (s : Server)
      → Follows p (calls es) (phase_of s)
      → IsOrderly p (goes es s)
  orderly p es s f = record { goes_on = λ _. f; quiet = λ h. absurd (h refl) }

  pub IsOrderly-failure : (p : Phase) (s : Server) (e : Error) → IsOrderly p (fails s e)
  unfolding calls
  IsOrderly-failure p s e = record { goes_on = λ h. cc; quiet = λ _. refl }

  pub IsOrderly-if :
      (p : Phase) (b : Bool) (x y : Step Time)
      → IsOrderly p x
      → IsOrderly p y
      → IsOrderly p (if b then x else y)
  IsOrderly-if p true x y f g = f
  IsOrderly-if p false x y f g = g

  -- A command that makes a call aside and changes nothing.
  pub said :
      (s : Server) (c : Call Time) (es : List (Effect Time))
      → IsAside c
      → calls es ≡ []
      → IsOrderly (phase_of s) (goes (client c ∷ es) s)
  unfolding calls
  said s c es h e = orderly (phase_of s) (client c ∷ es) s (
      aside h (phase_in-IsUnreported s.state s.current_test)
        (subst (λ cs. Follows (phase_of s) cs (phase_of s)) (sym e) finished))

  pub ignored : (s : Server) (line : Bytes) → IsOrderly (phase_of s) (goes (passed line ∷ []) s)
  unfolding calls
  ignored s line = orderly (phase_of s) (passed line ∷ []) s finished
