-- ===== src/V1/Server/Brackets.antt =====
-- The calls of the client come test by test.
pub mod Order
mod Commands
use pysubunit.Prelude.{
  ◌≡◌, ◌≢◌, refl, sym, subst, ap, ℕ, Bool, true, false, Option, none, some, List, [], ◌∷◌, ◌++◌,
  ◌∙◌, append_assoc, if◌then◌else◌, eq_bytes, drop,
}
use pysubunit.Prelude.Int.{ℤ}
use pysubunit.Std.Format.{codes}
use pysubunit.Std.Words
use pysubunit.V2.Types.{Text, Bytes}
use pysubunit.V1.Calls.{
  Outcome, error, failure, skip, success, xfail, uxsuccess, Call, start_test, stop_test, add,
  add_remote_error, progress, tags, time, Progress, set, cur, push, pop, Details, Error,
}
use pysubunit.V1.Details.{Parser, Read, more, ended, raised, line_received}
use pysubunit.V1.Server.{
  Description, unset, cleared, describes, State, outside_test, in_test, reading, Server, Effect,
  client, passed, forwarded, Step, goes, fails, outside, inside, in_state, line_step, is_sign,
  read_lines, read_from, after, lost_connection, lost_described, label, handle_progress,
  handle_tags, handle_time, progress_of, numbered, tagged, told, timed, outside_start, started,
  outside_outcome, in_test_outcome, described_outcome, named_outcome, details_read,
  tags_to_new_gone, plain_outcome,
}
use pysubunit.V1.Server.Keyword.{
  named_part, Command, test_command, outcome_command, progress_command, tags_command, time_command,
  other_command, command_of,
}
use pysubunit.V1.Server.Brackets.Order.{
  Phase, idle, running, reported, phase_in, phase_of, server_at, IsAside, Follows, finished, starts,
  reports, stops, aside, Ended, broken_off, between, cut, Follows-append, calls, calls-append,
  IsOrderly, orderly, IsOrderly-failure, IsOrderly-if, said, ignored,
}
use pysubunit.V1.Server.Brackets.Commands.{
  numbered-IsOrderly, progress_of-IsOrderly, told-IsOrderly, tagged-IsOrderly, timed-IsOrderly,
  started-IsOrderly, outside_outcome-IsOrderly, reported_and_stopped, plain_outcome-Follows,
}

module _ {Time : Type 0} where
  module _ (t : Option Text) where
    named_outcome-IsOrderly :
        (o : Outcome) (line : Bytes) (d name : Text)
        → IsOrderly {Time = Time}
            (running t)
            (named_outcome o (server_at t in_test (describes d)) line d name)
    unfolding calls
    named_outcome-IsOrderly o line d name =
        IsOrderly-if (running t) (eq_bytes d name) _ _
          (orderly (running t) _ _
            (reported_and_stopped (plain_outcome o t) t (plain_outcome-Follows o t)))
          (IsOrderly-if (running t) (eq_bytes (d ++ codes " [") name) _ _
            (orderly (running t) _ _ finished)
            (IsOrderly-if (running t) (eq_bytes (d ++ codes " [ multipart") name) _ _
              (orderly (running t) _ _ finished) (orderly (running t) _ _ finished)))

    described_outcome-IsOrderly :
        (o : Outcome) (line : Bytes) (d : Description) (name : Option Text)
        → IsOrderly {Time = Time}
            (running t)
            (described_outcome o (server_at t in_test d) line d name)
    described_outcome-IsOrderly o line unset none = IsOrderly-failure _ _ _
    described_outcome-IsOrderly o line cleared none = IsOrderly-failure _ _ _
    described_outcome-IsOrderly o line (describes d) none = IsOrderly-failure _ _ _
    described_outcome-IsOrderly o line unset (some name) = IsOrderly-failure _ _ _
    described_outcome-IsOrderly o line cleared (some name) = IsOrderly-failure _ _ _
    described_outcome-IsOrderly o line (describes d) (some name) =
        named_outcome-IsOrderly o line d name

    details_read-IsOrderly :
        (o : Outcome) (p : Parser) (d : Description) (line : Bytes) (r : Read)
        → IsOrderly {Time = Time}
            (running t)
            (details_read o p (server_at t (reading o p) d) line r)
    unfolding calls
    details_read-IsOrderly o p d line (more q) = orderly _ _ _ finished
    details_read-IsOrderly o p d line ended = orderly _ _ _ (reports (stops finished))
    details_read-IsOrderly o p d line (raised q e) = IsOrderly-failure _ _ _

    module _ (parse_time : Bytes → Option Time) where
      aside-IsOrderly :
          (s : Server) (line : Bytes) (o : ℕ)
          → IsOrderly {Time = Time} (phase_of s) (handle_progress s line o)
            × IsOrderly {Time = Time} (phase_of s) (handle_tags s line o)
            × IsOrderly {Time = Time} (phase_of s) (handle_time parse_time s line o)
      unfolding handle_progress handle_tags handle_time
      aside-IsOrderly s line o = (
        progress_of-IsOrderly s (Words.strip (drop o line)),
        tagged-IsOrderly s line (Words.decode (drop o line)),
        timed-IsOrderly s line (parse_time (named_part o line)),
      )

      outside-IsOrderly :
          (d : Description) (line : Bytes) (c : Command)
          → IsOrderly {Time = Time} idle (outside parse_time (server_at t outside_test d) line c)
      unfolding outside_start
      outside-IsOrderly d line (test_command o) =
          started-IsOrderly t d line (Words.decode (named_part o line))
      outside-IsOrderly d line (outcome_command outcome o) =
          outside_outcome-IsOrderly outcome (server_at t outside_test d) line
      outside-IsOrderly d line (progress_command o) =
          (aside-IsOrderly (server_at t outside_test d) line o).0
      outside-IsOrderly d line (tags_command o) =
          (aside-IsOrderly (server_at t outside_test d) line o).1
      outside-IsOrderly d line (time_command o) =
          (aside-IsOrderly (server_at t outside_test d) line o).2
      outside-IsOrderly d line other_command = ignored (server_at t outside_test d) line

      inside-IsOrderly :
          (d : Description) (line : Bytes) (c : Command)
          → IsOrderly {Time = Time} (running t) (inside parse_time (server_at t in_test d) line c)
      unfolding in_test_outcome
      inside-IsOrderly d line (test_command o) = ignored (server_at t in_test d) line
      inside-IsOrderly d line (outcome_command outcome o) =
          described_outcome-IsOrderly outcome line d (Words.decode (named_part o line))
      inside-IsOrderly d line (progress_command o) =
          (aside-IsOrderly (server_at t in_test d) line o).0
      inside-IsOrderly d line (tags_command o) = (aside-IsOrderly (server_at t in_test d) line o).1
      inside-IsOrderly d line (time_command o) = (aside-IsOrderly (server_at t in_test d) line o).2
      inside-IsOrderly d line other_command = ignored (server_at t in_test d) line

      in_state-IsOrderly :
          (state : State) (d : Description) (line : Bytes)
          → IsOrderly {Time = Time}
              (phase_in state t)
              (in_state parse_time state (server_at t state d) line)
      in_state-IsOrderly outside_test d line = outside-IsOrderly d line (command_of line)
      in_state-IsOrderly in_test d line = inside-IsOrderly d line (command_of line)
      in_state-IsOrderly (reading o p) d line =
          details_read-IsOrderly o p d line (line_received p line)

  -- The calls that end test by test with `q`, and what the end of the stream makes of that.
  abbrev Ends : Step Time → Phase → Type 0
  Ends st p =
      (q : Phase) × (cs : List (Call Time)) × (ds : List (Call Time)) × Follows p cs q
      × (calls st.effects ≡ cs ++ ds)
      × Ended st.exception q ds

  lost_described-Ends :
      (t : Option Text) (state : State) (what : Text) (d : Description)
      → Ends (lost_described what (server_at t state d) d) (running t)
  unfolding calls
  lost_described-Ends t state what unset = (running t, [], [], finished, refl, broken_off)
  lost_described-Ends t state what cleared = (running t, [], _, finished, refl, cut)
  lost_described-Ends t state what (describes d) = (running t, [], _, finished, refl, cut)

  lost-Ends :
      (t : Option Text) (state : State) (d : Description)
      → Ends (lost_connection (server_at t state d)) (phase_in state t)
  unfolding lost_connection calls
  lost-Ends t outside_test d = (idle, [], [], finished, refl, between)
  lost-Ends t in_test d = lost_described-Ends t in_test [] d
  lost-Ends t (reading o p) d =
      lost_described-Ends t (reading o p) (label o ++ codes " report of ") d

  after-Ends :
      (p : Phase) (es : List (Effect Time)) (s : Server) (e : Option Error)
      (rest : Server → Step Time)
      → IsOrderly {Time = Time} p (record { effects = es; server = s; exception = e })
      → Ends (rest s) (phase_of s)
      → Ends (after (record { effects = es; server = s; exception = e }) rest) p
  after-Ends p es s none rest f (q, cs, ds, g, c, h) = (
    q,
    calls es ++ cs,
    ds,
    Follows-append (f.goes_on refl) g,
    calls-append es (rest s).effects
        ∙ ap (λ ks. calls es ++ ks) c
        ∙ sym (append_assoc (calls es) cs ds),
    h,
  )
  after-Ends p es s (some e) rest f g = (p, [], [], finished, f.quiet (λ h. cc), broken_off)

  module _ (parse_time : Bytes → Option Time) where
    read_lines-Ends :
        (lines : List Bytes) (s : Server) → Ends (read_lines parse_time lines s) (phase_of s)
    unfolding read_lines line_step
    read_lines-Ends [] s = lost-Ends s.current_test s.state s.description
    read_lines-Ends (line ∷ lines) s =
        let st = in_state parse_time s.state s line in
        after-Ends (phase_of s) st.effects st.server st.exception (read_lines parse_time lines)
          (in_state-IsOrderly s.current_test parse_time s.state s.description line)
          (read_lines-Ends lines st.server)

    -- On any bytes and whatever dateutil makes of a time, the parser's calls come test by test:
    -- startTest, one outcome and stopTest, all of one test, and then the next. Calls of progress, tags
    -- and time stand before and after these, but none between an outcome and its stopTest. If no
    -- exception is raised, the stream ends between tests, or a last test is open: then an error that
    -- tells of the lost connection and stopTest of that test are the last calls. Up to an
    -- exception the calls keep this order too.
    pub read_from-Follows :
        (stream : Bytes) (s : Server)
        → (q : Phase) × (cs : List (Call Time)) × (ds : List (Call Time)) × Follows
            (phase_of s)
            cs
            q
          × (calls (read_from parse_time stream s).effects ≡ cs ++ ds)
          × Ended (read_from parse_time stream s).exception q ds
    unfolding read_from
    read_from-Follows stream s = read_lines-Ends (Words.readlines stream) s
