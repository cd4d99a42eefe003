-- ===== src/V1/Server/Echo.antt =====
-- Where the lines of a stream go.
use pysubunit.Prelude.{
  ◌≡◌, refl, sym, ap, ◌∙◌, Bool, true, false, Option, none, some, List, [], ◌∷◌, ◌++◌, append_assoc,
  append-nil, All, arith, drop, ◌==◌,
}
use pysubunit.Std.Words
use pysubunit.Std.Words.{close_word, lines_from, readlines}
use pysubunit.V2.Types.{Text, Bytes}
use pysubunit.Chunked.Encoder.{join}
use pysubunit.V1.Calls.{Outcome, error, failure, skip, success, xfail, uxsuccess, Error}
use pysubunit.V1.Details.{Parser, Read, more, ended, raised, line_received}
use pysubunit.V1.Server.{
  Description, unset, cleared, describes, State, outside_test, in_test, reading, Server, Effect,
  client, passed, forwarded, Step, outside, inside, in_state, line_step, read_lines, read_from,
  after, lost_connection, handle_tags, handle_time, tagged, told, timed, outside_start, started,
  outside_outcome, in_test_outcome, described_outcome, details_read, tags_to_new_gone,
}
use pysubunit.V1.Server.Keyword.{
  named_part, Command, test_command, outcome_command, progress_command, tags_command, time_command,
  other_command, command_of,
}

-- A line that gives progress, which is not written to a stream.
abbrev pub is_progress : Command → Bool
is_progress (progress_command o) = true
is_progress _ = false

-- Lines that give no progress.
abbrev pub IsEchoed : Bytes → Type 0
IsEchoed line = is_progress (command_of line) ≡ false

module _ {Time : Type 0} where
  -- What is written, to one stream or the other.
  unfoldable pub written : List (Effect Time) → List Bytes
  written [] = []
  written (client c ∷ es) = written es
  written (passed line ∷ es) = line ∷ written es
  written (forwarded line ∷ es) = line ∷ written es

  written-append : (es fs : List (Effect Time)) → written (es ++ fs) ≡ written es ++ written fs
  unfolding written
  written-append [] fs = refl
  written-append (client c ∷ es) fs = written-append es fs
  written-append (passed line ∷ es) fs = ap (λ ls. line ∷ ls) (written-append es fs)
  written-append (forwarded line ∷ es) fs = ap (λ ls. line ∷ ls) (written-append es fs)

  -- The step writes the line once, unless an exception is raised.
  abbrev Echoes : Bytes → Step Time → Type 0
  Echoes line st = st.exception ≡ none → written st.effects ≡ line ∷ []

module _ (Time : Type 0) (line : Bytes) where
  told-Echoes :
      (s : Server) (sets : Option (List Text × List Text))
      → Echoes line (told {Time = Time} s line sets)
  unfolding written
  told-Echoes s none h = cc
  told-Echoes s (some (n, g)) h = refl

  tagged-Echoes : (s : Server) (t : Option Text) → Echoes line (tagged {Time = Time} s line t)
  tagged-Echoes s none h = cc
  tagged-Echoes s (some t) h = told-Echoes s (tags_to_new_gone (Words.split t)) h

  timed-Echoes : (s : Server) (t : Option Time) → Echoes line (timed s line t)
  unfolding written
  timed-Echoes s none h = cc
  timed-Echoes s (some t) h = refl

  started-Echoes :
      (s : Server) (name : Option Text) → Echoes line (started {Time = Time} s line name)
  unfolding written
  started-Echoes s none h = cc
  started-Echoes s (some name) h = refl

  outside_outcome-Echoes :
      (o : Outcome) (s : Server) → Echoes line (outside_outcome {Time = Time} o s line)
  unfolding written
  outside_outcome-Echoes error s h = refl
  outside_outcome-Echoes failure s h = refl
  outside_outcome-Echoes skip s h = refl
  outside_outcome-Echoes success s h = refl
  outside_outcome-Echoes xfail s h = refl
  outside_outcome-Echoes uxsuccess s h = cc

  described_outcome-Echoes :
      (o : Outcome) (s : Server) (d : Description) (name : Option Text)
      → Echoes line (described_outcome {Time = Time} o s line d name)
  unfolding written
  described_outcome-Echoes o s unset none h = cc
  described_outcome-Echoes o s cleared none h = cc
  described_outcome-Echoes o s (describes d) none h = cc
  described_outcome-Echoes o s unset (some name) h = cc
  described_outcome-Echoes o s cleared (some name) h = cc
  described_outcome-Echoes o s (describes d) (some name) h = ground arith

  details_read-Echoes :
      (o : Outcome) (p : Parser) (s : Server) (r : Read)
      → Echoes line (details_read {Time = Time} o p s line r)
  unfolding written
  details_read-Echoes o p s (more q) h = refl
  details_read-Echoes o p s ended h = refl
  details_read-Echoes o p s (raised q e) h = cc

  module _ (parse_time : Bytes → Option Time) where
    outside-Echoes :
        (s : Server) (c : Command)
        → is_progress c ≡ false
        → Echoes line (outside parse_time s line c)
    unfolding written outside_start handle_tags handle_time
    outside-Echoes s (test_command o) k h = started-Echoes s (Words.decode (named_part o line)) h
    outside-Echoes s (outcome_command outcome o) k h = outside_outcome-Echoes outcome s h
    outside-Echoes s (progress_command o) k h = cc
    outside-Echoes s (tags_command o) k h = tagged-Echoes s (Words.decode (drop o line)) h
    outside-Echoes s (time_command o) k h = timed-Echoes s (parse_time (named_part o line)) h
    outside-Echoes s other_command k h = refl

    inside-Echoes :
        (s : Server) (c : Command)
        → is_progress c ≡ false
        → Echoes line (inside parse_time s line c)
    unfolding written in_test_outcome handle_tags handle_time
    inside-Echoes s (test_command o) k h = refl
    inside-Echoes s (outcome_command outcome o) k h =
        described_outcome-Echoes outcome s s.description (Words.decode (named_part o line)) h
    inside-Echoes s (progress_command o) k h = cc
    inside-Echoes s (tags_command o) k h = tagged-Echoes s (Words.decode (drop o line)) h
    inside-Echoes s (time_command o) k h = timed-Echoes s (parse_time (named_part o line)) h
    inside-Echoes s other_command k h = refl

    in_state-Echoes :
        (state : State) (s : Server)
        → is_progress (command_of line) ≡ false
        → Echoes line (in_state parse_time state s line)
    in_state-Echoes outside_test s k = outside-Echoes s (command_of line) k
    in_state-Echoes in_test s k = inside-Echoes s (command_of line) k
    in_state-Echoes (reading o p) s k = details_read-Echoes o p s (line_received p line)

lost_connection-written :
    (Time : Type 0) (t : Option Text) (state : State) (d : Description)
    → written
        (lost_connection {Time = Time}
          (record { state = state; current_test = t; description = d })).effects
      ≡ []
unfolding written lost_connection
lost_connection-written Time t outside_test d = refl
lost_connection-written Time t in_test unset = refl
lost_connection-written Time t in_test cleared = refl
lost_connection-written Time t in_test (describes d) = refl
lost_connection-written Time t (reading o p) unset = refl
lost_connection-written Time t (reading o p) cleared = refl
lost_connection-written Time t (reading o p) (describes d) = refl

module _ {Time : Type 0} (parse_time : Bytes → Option Time) where
  after-written :
      (es : List (Effect Time)) (s : Server) (e : Option Error) (rest : Server → Step Time)
      (line : Bytes) (lines : List Bytes)
      → Echoes line (record { effects = es; server = s; exception = e })
      → ((rest s).exception ≡ none → written (rest s).effects ≡ lines)
      → (after (record { effects = es; server = s; exception = e }) rest).exception ≡ none
      → written (after (record { effects = es; server = s; exception = e }) rest).effects
        ≡ line ∷ lines
  after-written es s none rest line lines f g h =
      written-append es (rest s).effects
      ∙ ap (λ ls. ls ++ written (rest s).effects) (f refl)
      ∙ ap (λ ls. line ∷ ls) (g h)
  after-written es s (some e) rest line lines f g h = cc

  read_lines-written :
      (lines : List Bytes) (s : Server)
      → All IsEchoed lines
      → (read_lines parse_time lines s).exception ≡ none
      → written (read_lines parse_time lines s).effects ≡ lines
  unfolding read_lines line_step
  read_lines-written [] s a h = lost_connection-written Time s.current_test s.state s.description
  read_lines-written (line ∷ lines) s (k, a) h =
      let st = in_state parse_time s.state s line in
      after-written st.effects st.server st.exception (read_lines parse_time lines) line lines
        (in_state-Echoes Time line parse_time s.state s k) (read_lines-written lines st.server a) h

close_word-join : (line : Bytes) → join (close_word line []) ≡ line
unfolding join
close_word-join [] = refl
close_word-join (c ∷ cs) = append-nil (c ∷ cs)

lines_from-join : (cs line : Bytes) → join (lines_from line cs) ≡ line ++ cs
unfolding lines_from join
lines_from-join [] line = close_word-join line ∙ sym (append-nil line)
lines_from-join (c ∷ cs) line =
    elim (c == 10)
      as (λ b.
        join (elim b [
          | true ↦ (line ++ c ∷ []) ∷ lines_from [] cs
          | false ↦ lines_from (line ++ c ∷ []) cs
        ])
        ≡ line ++ c ∷ cs) [
          | true ↦
              ap (λ (bs : Bytes). (line ++ c ∷ []) ++ bs) (lines_from-join cs [])
              ∙ append_assoc line (c ∷ []) cs
          | false ↦ lines_from-join cs (line ++ c ∷ []) ∙ append_assoc line (c ∷ []) cs
        ]

module _ {Time : Type 0} (parse_time : Bytes → Option Time) where
  -- If the two streams are one, it gets the stream again, byte for byte, where no line gives progress
  -- and no exception is raised: every line goes to exactly one of them, in order.
  pub read_from-written :
      (stream : Bytes) (s : Server)
      → All IsEchoed (readlines stream)
      → (read_from parse_time stream s).exception ≡ none
      → join (written (read_from parse_time stream s).effects) ≡ stream
  unfolding read_from readlines
  read_from-written stream s a h =
      ap join (read_lines-written parse_time (lines_from [] stream) s a h)
      ∙ lines_from-join stream []
