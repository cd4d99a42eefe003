-- ===== src/V1/Server/Errors.antt =====
-- Which lines raise AttributeError: the two attributes that are missing.
use pysubunit.Prelude.{
  ◌≡◌, ◌↔◌, refl, sym, ap, ◌∙◌, ℕ, Bool, true, false, Option, none, some, List, [], ◌∷◌, ◌++◌,
  eq_bytes, drop,
}
use pysubunit.Prelude.Int.{ℤ}
use pysubunit.Std.Format.{codes}
use pysubunit.Std.Words
use pysubunit.Std.Words.{split_at, split_in_two}
use pysubunit.V2.Types.{Text, Bytes}
use pysubunit.V1.Calls.{
  Outcome, error, failure, skip, success, xfail, uxsuccess, Progress, set, cur, Error,
  attribute_error,
}
use pysubunit.V1.Details.{Parser, Read, more, ended, raised, line_received}
use pysubunit.V1.Server.{
  Description, unset, cleared, describes, State, outside_test, in_test, reading, Server, Step,
  outside, inside, in_state, line_step, is_sign, handle_progress, handle_tags, handle_time,
  progress_of, numbered, tagged, told, timed, outside_start, started, outside_outcome,
  in_test_outcome, described_outcome, details_read, tags_to_new_gone,
}
use pysubunit.V1.Server.Keyword.{
  named_part, Command, test_command, outcome_command, progress_command, tags_command, time_command,
  other_command, command_of,
}
use pysubunit.V1.Details.Errors.{
  is_attribute_error, is_attribute_error-eq, read_lacks, if_lacks, line_received-lacks,
}

abbrev lacks : Option Error → Bool
lacks none = false
lacks (some e) = is_attribute_error e

lacks-some : (o : Option Error) → lacks o ≡ true → o ≡ some attribute_error
lacks-some none h = cc
lacks-some (some e) h = ap some (is_attribute_error-eq e h)

abbrev is_uxsuccess : Outcome → Bool
is_uxsuccess uxsuccess = true
is_uxsuccess _ = false

abbrev pub names_uxsuccess : Command → Bool
names_uxsuccess (outcome_command o n) = is_uxsuccess o
names_uxsuccess _ = false

-- There is a name for the outcome, and the description was never set.
abbrev pub lacks_description : Description → Option Text → Bool
lacks_description unset (some name) = true
lacks_description _ _ = false

-- A uxsuccess directive outside of a test; in a test, an outcome where the description was never set.
abbrev pub is_missing : State → Description → Bytes → Command → Bool
is_missing outside_test d line c = names_uxsuccess c
is_missing in_test d line (outcome_command o n) =
    lacks_description d (Words.decode (named_part n line))
is_missing _ d line c = false

module _ (Time : Type 0) where
  abbrev step_lacks : Step Time → Bool
  step_lacks st = lacks st.exception

  numbered-lacks :
      (whence : ℤ → Progress) (s : Server) (text : Bytes) (n : Option ℤ)
      → step_lacks (numbered {Time = Time} whence s text n) ≡ false
  numbered-lacks whence s text none = refl
  numbered-lacks whence s text (some n) = refl

  progress_of-lacks :
      (s : Server) (text : Bytes) → step_lacks (progress_of {Time = Time} s text) ≡ false
  progress_of-lacks s [] = refl
  progress_of-lacks s (c ∷ cs) =
      let text = c ∷ cs in
      if_lacks step_lacks (is_sign c) _ _ (numbered-lacks cur s text (Words.int text)) (
        if_lacks step_lacks (eq_bytes text (codes "push")) _ _ refl (
          if_lacks step_lacks (eq_bytes text (codes "pop")) _ _ refl
            (numbered-lacks set s text (Words.int text))))

  tagged-lacks :
      (s : Server) (line : Bytes) (t : Option Text)
      → step_lacks (tagged {Time = Time} s line t) ≡ false
  tagged-lacks s line none = refl
  tagged-lacks s line (some t) = told-lacks (tags_to_new_gone (Words.split t))
    where
      told-lacks :
          (sets : Option (List Text × List Text))
          → step_lacks (told {Time = Time} s line sets) ≡ false
      told-lacks none = refl
      told-lacks (some (n, g)) = refl

  timed-lacks : (s : Server) (line : Bytes) (t : Option Time) → step_lacks (timed s line t) ≡ false
  timed-lacks s line none = refl
  timed-lacks s line (some t) = refl

  started-lacks :
      (s : Server) (line : Bytes) (o : Option Text)
      → step_lacks (started {Time = Time} s line o) ≡ false
  started-lacks s line none = refl
  started-lacks s line (some name) = refl

  described_outcome-lacks :
      (o : Outcome) (s : Server) (line : Bytes) (d : Description) (name : Option Text)
      → step_lacks (described_outcome {Time = Time} o s line d name) ≡ lacks_description d name
  described_outcome-lacks o s line unset none = refl
  described_outcome-lacks o s line cleared none = refl
  described_outcome-lacks o s line (describes d) none = refl
  described_outcome-lacks o s line unset (some name) = refl
  described_outcome-lacks o s line cleared (some name) = refl
  described_outcome-lacks o s line (describes d) (some name) =
      if_lacks step_lacks (eq_bytes d name) _ _ refl (
        if_lacks step_lacks (eq_bytes (d ++ codes " [") name) _ _ refl
          (if_lacks step_lacks (eq_bytes (d ++ codes " [ multipart") name) _ _ refl refl))

  details_read-lacks :
      (o : Outcome) (p : Parser) (s : Server) (line : Bytes) (r : Read)
      → read_lacks r ≡ false
      → step_lacks (details_read {Time = Time} o p s line r) ≡ false
  details_read-lacks o p s line (more q) h = refl
  details_read-lacks o p s line ended h = refl
  details_read-lacks o p s line (raised q e) h = h

  outside_outcome-lacks :
      (o : Outcome) (s : Server) (line : Bytes)
      → step_lacks (outside_outcome {Time = Time} o s line) ≡ is_uxsuccess o
  outside_outcome-lacks error s line = refl
  outside_outcome-lacks failure s line = refl
  outside_outcome-lacks skip s line = refl
  outside_outcome-lacks success s line = refl
  outside_outcome-lacks xfail s line = refl
  outside_outcome-lacks uxsuccess s line = refl

  module _ (parse_time : Bytes → Option Time) where
    asides-lack :
        (s : Server) (line : Bytes) (n : ℕ)
        → (step_lacks (handle_progress {Time = Time} s line n) ≡ false)
          × (step_lacks (handle_tags {Time = Time} s line n) ≡ false)
          × (step_lacks (handle_time parse_time s line n) ≡ false)
    unfolding handle_progress handle_tags handle_time
    asides-lack s line n = (
      progress_of-lacks s (Words.strip (drop n line)),
      tagged-lacks s line (Words.decode (drop n line)),
      timed-lacks s line (parse_time (named_part n line)),
    )

    outside-lacks :
        (s : Server) (line : Bytes) (c : Command)
        → step_lacks (outside parse_time s line c) ≡ names_uxsuccess c
    unfolding outside_start
    outside-lacks s line (test_command n) = started-lacks s line (Words.decode (named_part n line))
    outside-lacks s line (outcome_command o n) = outside_outcome-lacks o s line
    outside-lacks s line (progress_command n) = (asides-lack s line n).0
    outside-lacks s line (tags_command n) = (asides-lack s line n).1
    outside-lacks s line (time_command n) = (asides-lack s line n).2
    outside-lacks s line other_command = refl

    inside-lacks :
        (s : Server) (line : Bytes) (c : Command)
        → step_lacks (inside parse_time s line c) ≡ is_missing in_test s.description line c
    unfolding in_test_outcome
    inside-lacks s line (test_command n) = refl
    inside-lacks s line (outcome_command o n) =
        described_outcome-lacks o s line s.description (Words.decode (named_part n line))
    inside-lacks s line (progress_command n) = (asides-lack s line n).0
    inside-lacks s line (tags_command n) = (asides-lack s line n).1
    inside-lacks s line (time_command n) = (asides-lack s line n).2
    inside-lacks s line other_command = refl

    in_state-lacks :
        (state : State) (s : Server) (line : Bytes)
        → step_lacks (in_state parse_time state s line)
          ≡ is_missing state s.description line (command_of line)
    in_state-lacks outside_test s line = outside-lacks s line (command_of line)
    in_state-lacks in_test s line = inside-lacks s line (command_of line)
    in_state-lacks (reading o p) s line =
        details_read-lacks o p s line (line_received p line) (line_received-lacks p line)

    -- Of all lines in all states, those that raise AttributeError are the uxsuccess directives outside
    -- of a test, and in a test the outcome directives whose name can be decoded, where no description
    -- was ever set.
    pub line_step-attribute_error :
        (s : Server) (line : Bytes)
        → (line_step parse_time s line).exception ≡ some attribute_error
          ↔ (is_missing s.state s.description line (command_of line) ≡ true)
    unfolding line_step
    line_step-attribute_error s line =
        let e = in_state-lacks s.state s line in
        (
          λ h. sym e ∙ ap lacks h,
          λ h. lacks-some (in_state parse_time s.state s line).exception (e ∙ h),
        )
