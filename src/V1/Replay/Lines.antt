-- ===== src/V1/Replay/Lines.antt =====
-- Reading line by line is reading all lines.
use pysubunit.Prelude.{
  ℕ, zero, suc, ◌+◌, ◌<◌, ◌≡◌, refl, ◌≢◌, sym, ap, ◌∙◌, Bool, true, false, Option, none, some, List,
  [], ◌∷◌, ◌++◌, ◌==◌, length, append-nil, append_assoc, length-append, arith,
}
use pysubunit.Std.Words.{close_word, lines_from, readlines, readline, cut_line}
use pysubunit.V2.Types.{Bytes}
use pysubunit.V1.Server
use pysubunit.V1.Server.{Server, Step, line_step, lost_connection, read_lines, read_from, after}
use pysubunit.V1.Replay.{unless_raised, replay_loop, replay}

close_word-snoc :
    (xs : Bytes) (x : ℕ) (lines : List Bytes)
    → close_word (xs ++ x ∷ []) lines ≡ (xs ++ x ∷ []) ∷ lines
close_word-snoc [] x lines = refl
close_word-snoc (c ∷ cs) x lines = refl

lines_from-readline :
    (line cs : Bytes)
    → lines_from line cs ≡ close_word (line ++ (readline cs).0) (lines_from [] (readline cs).1)
unfolding lines_from readline
lines_from-readline line [] = ap (λ bs. close_word bs []) (sym (append-nil line))
lines_from-readline line (c ∷ cs) =
    elim (c == 10)
      as (λ b.
        elim b [
          | true ↦ (line ++ c ∷ []) ∷ lines_from [] cs
          | false ↦ lines_from (line ++ c ∷ []) cs
        ]
        ≡ close_word (line ++ (cut_line b c cs (readline cs)).0)
            (lines_from [] (cut_line b c cs (readline cs)).1)) [
              | true ↦ sym (close_word-snoc line c (lines_from [] cs))
              | false ↦
                  lines_from-readline (line ++ c ∷ []) cs
                  ∙ ap (λ bs. close_word bs (lines_from [] (readline cs).1))
                      (append_assoc line (c ∷ []) (readline cs).0)
            ]

-- A line and the rest are the stream, and only its end gives no line.
readline-append : (cs : Bytes) → (readline cs).0 ++ (readline cs).1 ≡ cs
unfolding readline
readline-append [] = refl
readline-append (c ∷ cs) =
    elim (c == 10)
      as (λ b. (cut_line b c cs (readline cs)).0 ++ (cut_line b c cs (readline cs)).1 ≡ c ∷ cs) [
        | true ↦ refl
        | false ↦ ap (λ bs. c ∷ bs) (readline-append cs)
      ]

cut_line-ne : (b : Bool) (c : ℕ) (cs : Bytes) (more : Bytes × Bytes) → (cut_line b c cs more).0 ≢ []
cut_line-ne true c cs more = λ h. cc
cut_line-ne false c cs (line, rest) = λ h. cc

readline-end : (cs : Bytes) → (readline cs).0 ≡ [] → (readline cs).1 ≡ []
unfolding readline
readline-end [] h = refl
readline-end (c ∷ cs) h = absurd (cut_line-ne (c == 10) c cs (readline cs) h)

module _ {Time : Type 0} (parse_time : Bytes → Option Time) where
  then_lines :
      (first : Step Time) (lines : List Bytes)
      → unless_raised first.exception first (some (read_lines parse_time lines first.server))
        ≡ some (after first (read_lines parse_time lines))
  then_lines first lines =
      elim first.exception
        as (λ e.
          unless_raised e first (some (read_lines parse_time lines first.server))
          ≡ some (elim e [
            | none ↦ record (read_lines parse_time lines first.server) {
              effects = first.effects ++ (read_lines parse_time lines first.server).effects;
            }
            | some x ↦ first
          ])) [ none ↦ refl | some e ↦ refl ]

  replay_loop-line :
      (fuel : ℕ) (line rest : Bytes) (s : Server)
      → (line ≡ [] → rest ≡ [])
      → (0 < length line
          → (t : Server)
          → replay_loop parse_time fuel rest t
            ≡ some (read_lines parse_time (lines_from [] rest) t))
      → (elim line as (λ _. Option (Step Time)) [
        | [] ↦ some (lost_connection s)
        | c ∷ cs ↦
            unless_raised
              (line_step parse_time s line).exception
              (line_step parse_time s line)
              (replay_loop parse_time fuel rest (line_step parse_time s line).server)
      ])
        ≡ some (read_lines parse_time (close_word line (lines_from [] rest)) s)
  unfolding read_lines lines_from
  replay_loop-line fuel [] rest s e f =
      sym (ap (λ r. some (read_lines parse_time (lines_from [] r) s)) (e refl))
  replay_loop-line fuel (c ∷ cs) rest s e f =
      let first = line_step parse_time s (c ∷ cs) in
      ap (unless_raised first.exception first) (f (omega arith) first.server)
      ∙ then_lines first (lines_from [] rest)

  replay_loop-read_lines :
      (fuel : ℕ) (stream : Bytes) (s : Server)
      → length stream < fuel
      → replay_loop parse_time fuel stream s ≡ some (read_lines parse_time (lines_from [] stream) s)
  unfolding replay_loop
  replay_loop-read_lines zero stream s k = absurd (omega arith)
  replay_loop-read_lines (suc fuel) stream s k =
      let line = (readline stream).0 in
      let rest = (readline stream).1 in
      let total : length line + length rest ≡ length stream =
        sym (length-append line rest) ∙ ap length (readline-append stream) in
      replay_loop-line fuel line rest s (readline-end stream)
        (λ p t. replay_loop-read_lines fuel rest t (omega arith))
      ∙ ap (λ ls. some (read_lines parse_time ls s)) (sym (lines_from-readline [] stream))

  -- ProtocolTestCase.run ends, and does on any stream what readFrom does on a new server: reading a
  -- line at a time until nothing comes gives the lines that readlines gives.
  pub replay-read_from :
      (stream : Bytes) → replay parse_time stream ≡ some (read_from parse_time stream Server.new)
  unfolding replay read_from readlines
  replay-read_from stream =
      replay_loop-read_lines (suc (length stream)) stream Server.new (omega arith)
