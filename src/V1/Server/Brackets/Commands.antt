-- ===== src/V1/Server/Brackets/Commands.antt =====
-- Each command keeps the order of the calls.
use pysubunit.Prelude.{refl, Option, none, some, List, [], ◌∷◌, eq_bytes}
use pysubunit.Prelude.Int.{ℤ}
use pysubunit.Std.Format.{codes}
use pysubunit.Std.Words
use pysubunit.V2.Types.{Text, Bytes}
use pysubunit.V1.Calls.{
  Outcome, error, failure, skip, success, xfail, uxsuccess, Call, stop_test, progress, tags, time,
  Progress, set, cur, push, pop,
}
use pysubunit.V1.Server.{
  Description, outside_test, Server, forwarded, is_sign, progress_of, numbered, tagged, told, timed,
  started, outside_outcome, tags_to_new_gone, plain_outcome,
}
use pysubunit.V1.Server.Brackets.Order.{
  idle, running, reported, phase_of, Follows, finished, starts, reports, stops, Follows-append,
  calls, IsOrderly, orderly, IsOrderly-failure, IsOrderly-if, said, ignored,
}

module _ {Time : Type 0} where
  pub numbered-IsOrderly :
      (whence : ℤ → Progress) (s : Server) (text : Bytes) (n : Option ℤ)
      → IsOrderly {Time = Time} (phase_of s) (numbered whence s text n)
  unfolding calls
  numbered-IsOrderly whence s text none = IsOrderly-failure _ _ _
  numbered-IsOrderly whence s text (some n) = said s (progress (whence n)) [] tt refl

  pub progress_of-IsOrderly :
      (s : Server) (text : Bytes) → IsOrderly {Time = Time} (phase_of s) (progress_of s text)
  unfolding calls
  progress_of-IsOrderly s [] = IsOrderly-failure _ _ _
  progress_of-IsOrderly s (c ∷ cs) =
      let text = c ∷ cs in
      let p = phase_of s in
      IsOrderly-if p (is_sign c) _ _ (numbered-IsOrderly cur s text (Words.int text)) (
        IsOrderly-if p (eq_bytes text (codes "push")) _ _ (said s (progress push) [] tt refl) (
          IsOrderly-if p (eq_bytes text (codes "pop")) _ _ (said s (progress pop) [] tt refl)
            (numbered-IsOrderly set s text (Words.int text))))

  pub told-IsOrderly :
      (s : Server) (line : Bytes) (sets : Option (List Text × List Text))
      → IsOrderly {Time = Time} (phase_of s) (told s line sets)
  unfolding calls
  told-IsOrderly s line none = IsOrderly-failure _ _ _
  told-IsOrderly s line (some (n, g)) = said s (tags n g) (forwarded line ∷ []) tt refl

  pub tagged-IsOrderly :
      (s : Server) (line : Bytes) (t : Option Text)
      → IsOrderly {Time = Time} (phase_of s) (tagged s line t)
  tagged-IsOrderly s line none = IsOrderly-failure _ _ _
  tagged-IsOrderly s line (some t) = told-IsOrderly s line (tags_to_new_gone (Words.split t))

  pub timed-IsOrderly :
      (s : Server) (line : Bytes) (t : Option Time)
      → IsOrderly {Time = Time} (phase_of s) (timed s line t)
  unfolding calls
  timed-IsOrderly s line none = IsOrderly-failure _ _ _
  timed-IsOrderly s line (some t) = said s (time t) (forwarded line ∷ []) tt refl

  pub started-IsOrderly :
      (t : Option Text) (d : Description) (line : Bytes) (name : Option Text)
      → IsOrderly {Time = Time} idle
          (started (record { state = outside_test; current_test = t; description = d }) line name)
  unfolding calls
  started-IsOrderly t d line none = IsOrderly-failure _ _ _
  started-IsOrderly t d line (some name) = orderly _ _ _ (starts finished)

  pub outside_outcome-IsOrderly :
      (o : Outcome) (s : Server) (line : Bytes)
      → IsOrderly {Time = Time} (phase_of s) (outside_outcome o s line)
  outside_outcome-IsOrderly uxsuccess s line = IsOrderly-failure _ _ _
  outside_outcome-IsOrderly error s line = ignored s line
  outside_outcome-IsOrderly failure s line = ignored s line
  outside_outcome-IsOrderly skip s line = ignored s line
  outside_outcome-IsOrderly success s line = ignored s line
  outside_outcome-IsOrderly xfail s line = ignored s line

  -- The calls that report a test and end it.
  pub reported_and_stopped :
      (c : Call Time) (t : Option Text)
      → Follows {Time = Time} (running t) (c ∷ []) (reported t)
      → Follows {Time = Time} (running t) (c ∷ stop_test t ∷ []) idle
  reported_and_stopped c t f = Follows-append f (stops finished)

  pub plain_outcome-Follows :
      (o : Outcome) (t : Option Text)
      → Follows {Time = Time} (running t) (plain_outcome o t ∷ []) (reported t)
  plain_outcome-Follows uxsuccess t = reports finished
  plain_outcome-Follows error t = reports finished
  plain_outcome-Follows failure t = reports finished
  plain_outcome-Follows skip t = reports finished
  plain_outcome-Follows success t = reports finished
  plain_outcome-Follows xfail t = reports finished
