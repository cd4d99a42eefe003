-- ===== src/V1/Client/Session/RoundTrip.antt =====
-- A session that is read again.
use pysubunit.Prelude.{
  ◌≡◌, refl, sym, subst, ap, ◌∙◌, Option, none, some, List, [], ◌∷◌, ◌++◌, All, append_assoc,
}
use pysubunit.Std.Format.{codes}
use pysubunit.Std.Words.{readlines}
use pysubunit.V2.Types.{Text, Bytes}
use pysubunit.V1.Calls.{
  Outcome, Call, start_test, stop_test, add, error, failure, skip, success, xfail, uxsuccess,
}
use pysubunit.V1.Server
use pysubunit.V1.Server.{
  Description, unset, cleared, describes, Server, outside_test, in_test, plain_outcome, Step,
  line_step, read_lines, read_from, after, lost_connection,
}
use pysubunit.V1.Server.Brackets.Order.{server_at, calls}
use pysubunit.V1.Client.{Output}
use pysubunit.V1.Client.{sort_items}
use pysubunit.V1.Details.{new_multipart}
use pysubunit.V1.Server.{reading}
use pysubunit.V1.Calls.{Details}
use pysubunit.V1.Client.Session.{
  Test, IsLineName, encoding, IsReportable, session, calls_of, delivered_details, received, IsPlain,
  ArePlain,
}
use pysubunit.V1.Client.Session.Lines.{word_of, lines_from-join}
use pysubunit.V1.Client.Session.Contents.{all_lines, sort_items-All, KeepsAscii}
use pysubunit.V1.Client.Session.Reading.{Gives, read_items}
use pysubunit.V1.Client.Session.Steps.{
  line_step-start, line_step-plain, line_step-multipart, line_step-end,
}
use pysubunit.V1.Client.Session.Written.{
  outcome_lines, session_lines, session_lines-IsLine, session-lines,
}

plain_outcome-delivered_details :
    {Time : Type 0} (o : Outcome) (test : Option Text)
    → plain_outcome {Time = Time} o test ≡ add o test (delivered_details o none)
plain_outcome-delivered_details error test = refl
plain_outcome-delivered_details failure test = refl
plain_outcome-delivered_details skip test = refl
plain_outcome-delivered_details success test = refl
plain_outcome-delivered_details xfail test = refl
plain_outcome-delivered_details uxsuccess test = refl

module _ {Time : Type 0} (parse_time : Bytes → Option Time) where
  abbrev GivesAfter : List Bytes → List (Call Time) → Type 0
  GivesAfter lines cs =
      (t : Option Text) (d : Description)
      → Gives (read_lines parse_time lines (server_at t outside_test d)) cs

  outcome-Gives :
      (id : Text) (n : IsLineName id) (o : Outcome) (details : Option Details) (lines : List Bytes)
      (cs : List (Call Time))
      → ArePlain details
      → GivesAfter lines cs
      → Gives
          (read_lines parse_time
            (outcome_lines (encoding n) o details ++ lines)
            (server_at (some id) in_test (describes id)))
          (add o (some id) (delivered_details o details) ∷ stop_test (some id) ∷ cs)
  unfolding read_lines calls
  outcome-Gives id n o none lines cs p f =
      let (e, x) = f none cleared in
      subst
        (λ st.
          Gives (after st (read_lines parse_time lines))
            (add o (some id) (delivered_details o none) ∷ stop_test (some id) ∷ cs))
        (sym (
          ap (line_step parse_time (server_at (some id) in_test (describes id)))
            (append_assoc (word_of o) (encoding n ++ []) (10 ∷ []))
          ∙ line_step-plain parse_time id n o))
        (
          ap
                (λ c.
                  c
                  ∷ stop_test (some id)
                  ∷ calls
                      (read_lines parse_time lines (server_at none outside_test cleared)).effects)
                (plain_outcome-delivered_details o (some id))
              ∙ ap (λ z. add o (some id) (delivered_details o none) ∷ stop_test (some id) ∷ z) e,
          x,
        )
  outcome-Gives id n o (some ds) lines cs p f =
      let items = sort_items ds in
      let item_lines = all_lines items in
      let calls_made = add o (some id) (some (received [] items)) ∷ stop_test (some id) ∷ cs in
      let (e, x) = f (some id) cleared in
      let first =
        ap (line_step parse_time (server_at (some id) in_test (describes id)))
          (append_assoc (word_of o) (encoding n ++ codes " [ multipart") (10 ∷ []))
        ∙ line_step-multipart parse_time id n o in
      let at_end =
        subst (λ st. Gives (after st (read_lines parse_time lines)) calls_made)
          (sym (line_step-end parse_time id n o (received [] items)))
          (ap (λ z. add o (some id) (some (received [] items)) ∷ stop_test (some id) ∷ z) e, x) in
      subst
        (λ st.
          Gives (after st (read_lines parse_time ((item_lines ++ codes "]\n" ∷ []) ++ lines)))
            calls_made)
        (sym first)
        (subst
          (λ ls.
            Gives
              (read_lines parse_time ls
                (server_at (some id) (reading o new_multipart) (describes id)))
              calls_made)
          (sym (append_assoc item_lines (codes "]\n" ∷ []) lines))
          (read_items parse_time id o calls_made [] items (codes "]\n" ∷ lines)
            (sort_items-All IsPlain ds p) at_end))

  session-Gives :
      (ts : List Test) (a : All IsReportable ts) → GivesAfter (session_lines ts a) (calls_of ts)
  unfolding read_lines lost_connection calls calls_of
  session-Gives [] a t d = (refl, refl)
  session-Gives (test ∷ ts) (n, a) t d =
      let lines = session_lines ts a in
      let (e, x) =
        outcome-Gives test.id n.named test.outcome test.details lines (calls_of ts) n.plain
          (session-Gives ts a) in
      subst
        (λ st.
          Gives
            (after st (
              read_lines parse_time
                (outcome_lines (encoding n.named) test.outcome test.details ++ lines)))
            (calls_of (test ∷ ts)))
        (sym (line_step-start parse_time test.id n.named t d))
        (ap (λ z. start_test (some test.id) ∷ z) e, x)

-- A session of tests, written by TestProtocolClient and read by TestProtocolServer, is written without
-- an exception, and is read without one as the same calls: each test starts, gets its outcome and
-- ends. The details come in the order of their names, each content with its bytes in one chunk and
-- with its parameters as a part of the subtype. Each test name has an encoding without a newline and
-- with no white space in front; the names and types of the details are ASCII, with no newline and
-- with the one slash of the type; success and unexpected success alone may have no details. The
-- encoder of texts keeps ASCII.
pub read_from-session :
    {Err Time : Type 0} (latin : Text → Option Bytes) (traceback : Err → Text → List Bytes)
    (parse_time : Bytes → Option Time) (ts : List Test)
    → KeepsAscii latin
    → All IsReportable ts
    → ((session latin traceback ts).exception ≡ none)
      × Gives (read_from parse_time (session latin traceback ts).bytes Server.new) (calls_of ts)
unfolding read_from readlines
read_from-session latin traceback parse_time ts keeps a =
    let e = session-lines latin traceback keeps ts a in
    (
      ap (λ (o : Output). o.exception) e,
      subst (λ (o : Output). Gives (read_from parse_time o.bytes Server.new) (calls_of ts)) (sym e)
          (subst (λ ls. Gives (read_lines parse_time ls Server.new) (calls_of ts))
            (sym (lines_from-join (session_lines ts a) (session_lines-IsLine ts a)))
            (session-Gives parse_time ts a none unset)),
    )
