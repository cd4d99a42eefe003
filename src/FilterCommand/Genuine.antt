-- ===== src/FilterCommand/Genuine.antt =====
-- What --only-genuine-failures does.
use pysubunit.Prelude.{
  ℕ, zero, suc, ◌-◌, ◌*◌, if◌then◌else◌, Option, ◌≤◌, ◌<◌, ◌≡◌, refl, ap, ◌∙◌, Bool, true, false,
  not, ◌&&◌, some, List, [], ◌∷◌, length, arith,
}
use pysubunit.Results.Tags.{Tags}
use pysubunit.Results.Filter.{Outcome}
use pysubunit.Results.Filter
use pysubunit.FilterCommand.{Flag, Values, store, callback, has_callback, parse_args}

-- What --only-genuine-failures comes to.
abbrev pub genuine : Values → Values
genuine v = record v { success = true; skip = true; xfail = true; no_passthrough = true }

-- The options one after the other.
abbrev pub stores : List Flag → Values → Values
stores [] v = v
stores (flag ∷ rest) v = stores rest (if has_callback flag then genuine v else store flag v)

callback-genuine :
    (fuel : ℕ) (rest : List Flag) (v : Values)
    → 4 ≤ fuel
    → parse_args fuel (callback rest) v ≡ parse_args (fuel - 4) rest (genuine v)
unfolding parse_args
callback-genuine fuel rest v h =
    let same : fuel ≡ suc (suc (suc (suc (fuel - 4)))) = omega arith in
    ap (λ n. parse_args n (callback rest) v) same

-- Each option takes one round of the parser, or five.
pub parse_args-stores :
    (flags : List Flag) (fuel : ℕ) (v : Values)
    → 5 * length flags < fuel
    → parse_args fuel flags v ≡ some (stores flags v)
unfolding parse_args
parse_args-stores flags zero v h = absurd (omega arith)
parse_args-stores [] (suc fuel) v h = refl
parse_args-stores (flag ∷ rest) (suc fuel) v h =
    elim (has_callback flag)
      as (λ b.
        elim b as (λ _. Option Values) [
          | true ↦ parse_args fuel (callback rest) v
          | false ↦ parse_args fuel rest (store flag v)
        ]
        ≡ some (stores rest (if b then genuine v else store flag v))) [
          | true ↦
              callback-genuine fuel rest v (omega arith)
              ∙ parse_args-stores rest (fuel - 4) (genuine v) (omega arith)
          | false ↦ parse_args-stores rest fuel (store flag v) (omega arith)
        ]

-- What no option takes away: errors and failures that the options leave in, and unexpected successes.
abbrev pub is_genuine : Values → Outcome → Bool
is_genuine v Filter.error = not v.error
is_genuine v Filter.failure = not v.failure
is_genuine v Filter.unexpectedsuccess = true
is_genuine v _ = false

-- The outcomes that pass when the expressions and tags of the options let the test through, or do not.
abbrev pub passes : Values → Outcome → Bool → Bool
passes v Filter.error let_through = not v.error && let_through
passes v Filter.failure let_through = not v.failure && let_through
passes v Filter.unexpectedsuccess let_through = true
passes v _ let_through = false
