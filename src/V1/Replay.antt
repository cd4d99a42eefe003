-- ===== src/V1/Replay.antt =====
-- ProtocolTestCase.run, which reads the stream line by line.
pub mod Lines
use pysubunit.Prelude.{ℕ, zero, suc, Option, none, some, List, [], ◌∷◌, ◌++◌, length}
use pysubunit.Std.Words.{readline}
use pysubunit.V2.Types.{Bytes}
use pysubunit.V1.Calls.{Error}
use pysubunit.V1.Server
use pysubunit.V1.Server.{Server, Step, line_step, lost_connection}

module _ {Time : Type 0} where
  abbrev pub with_effects_of : Step Time → Option (Step Time) → Option (Step Time)
  with_effects_of first none = none
  with_effects_of first (some second) =
      some (record second { effects = first.effects ++ second.effects })

  -- An exception ends the loop.
  abbrev pub unless_raised : Option Error → Step Time → Option (Step Time) → Option (Step Time)
  unless_raised none first rest = with_effects_of first rest
  unless_raised (some e) first rest = some first

  module _ (parse_time : Bytes → Option Time) where
    -- `while line`. None: out of fuel.
    unfoldable pub replay_loop : ℕ → Bytes → Server → Option (Step Time)
    replay_loop zero stream s = none
    replay_loop (suc fuel) stream s =
        let (line, rest) = readline stream in
        let first = line_step parse_time s line in
        let behind = replay_loop fuel rest first.server in
        elim line [
          | [] ↦ some (lost_connection s)
          | c ∷ cs ↦ unless_raised first.exception first behind
        ]

    unfoldable pub replay : Bytes → Option (Step Time)
    replay stream = replay_loop (suc (length stream)) stream Server.new
