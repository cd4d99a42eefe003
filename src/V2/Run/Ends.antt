-- ===== src/V2/Run/Ends.antt =====
-- How a run ends, on any input.
use pysubunit.Prelude.{
  ℕ, zero, suc, ◌≤◌, ◌<◌, ◌≢◌, Bool, true, false, Option, none, some, List, [], ◌∷◌, ◌++◌, arith,
  length,
}
use pysubunit.V2.Types.{Text, Bytes}
use pysubunit.V2.Parser.{parse_packet}
use pysubunit.V2.Parser.Source.{parse_packet-source}
use pysubunit.V2.Run.{
  Codec, fresh, feed, out_of_fuel, aggregate, run_packet, run_content, run_gathered, run_loop, run,
  Gathered, Rest,
}

aggregate-source :
    (buffered : Bytes) (last : ℕ) (c : Codec) (polls : Option (List Bool)) (source : Bytes)
    → length (aggregate buffered last c polls source).source ≤ length source
unfolding aggregate
aggregate-source buffered last c none source = omega arith
aggregate-source buffered last c (some []) source = omega arith
aggregate-source buffered last c (some (false ∷ ps)) source = omega arith
aggregate-source buffered last c (some (true ∷ ps)) [] = omega arith
aggregate-source buffered last c (some (true ∷ ps)) (b ∷ source) =
    ground (arith, aggregate-source (buffered ++ b ∷ []) b (feed c b) (some ps) source)

-- The rest of a run that does not run out of fuel on shorter sources.
abbrev Ends : ℕ → Rest → Type 0
Ends n rest =
    (c : Codec) (polls : Option (List Bool)) (source : Bytes)
    → length source ≤ n
    → (rest c polls source).end ≢ out_of_fuel

run_packet-Ends :
    (n : ℕ) (rest : Rest) (c : Codec) (polls : Option (List Bool)) (source : Bytes)
    → Ends n rest
    → length source ≤ n
    → (run_packet rest c polls source).end ≢ out_of_fuel
unfolding run_packet
run_packet-Ends n rest c polls source h k =
    ground (arith, parse_packet-source source, h c polls (parse_packet source).source)

run_gathered-Ends :
    (n : ℕ) (rest : Rest) (label : Text) (g : Gathered)
    → Ends n rest
    → length g.source ≤ n
    → (run_gathered rest label g).end ≢ out_of_fuel
unfolding run_gathered
run_gathered-Ends n rest label g h k =
    ground
      (arith, run_packet-Ends n rest g.codec g.polls g.source h k, h g.codec g.polls g.source k)

run_content-Ends :
    (n : ℕ) (rest : Rest) (name : Option Text) (b : ℕ) (c : Codec) (polls : Option (List Bool))
    (source : Bytes)
    → Ends n rest
    → length source ≤ n
    → (run_content rest name b c polls source).end ≢ out_of_fuel
unfolding run_content
run_content-Ends n rest none b c polls source h k = λ e. cc
run_content-Ends n rest (some label) b c polls source h k =
    run_gathered-Ends n rest label (aggregate (b ∷ []) b (feed c b) polls source) h
      (omega (arith, aggregate-source (b ∷ []) b (feed c b) polls source))

run_loop-Ends :
    (fuel : ℕ) (name : Option Text) (c : Codec) (polls : Option (List Bool)) (source : Bytes)
    → length source < fuel
    → (run_loop fuel name c polls source).end ≢ out_of_fuel
unfolding run_loop
run_loop-Ends zero name c polls source h = absurd (omega arith)
run_loop-Ends (suc fuel) name c polls [] h = λ e. cc
run_loop-Ends (suc fuel) name c polls (b ∷ source) h =
    let ends : Ends (length source) (run_loop fuel name) =
      λ c' p' s' k. run_loop-Ends fuel name c' p' s' (omega arith) in
    ground (
      arith,
      run_packet-Ends (length source) (run_loop fuel name) c polls source ends,
      run_content-Ends (length source) (run_loop fuel name) name b c polls source ends,
    )

-- On every stream, with every name and every answers of select, the loop of run ends by the end of
-- the file or by an exception: a round for each byte and one more are enough.
pub run-ne-out_of_fuel :
    (name : Option Text) (polls : Option (List Bool)) (source : Bytes)
    → (run name polls source).end ≢ out_of_fuel
unfolding run
run-ne-out_of_fuel name polls source =
    run_loop-Ends (suc (length source)) name fresh polls source (omega arith)
