-- ===== src/Std/Regex.antt =====
-- re.match on the patterns that the program has: characters, greedy repetition of a character,
-- optional parts, alternatives and groups. The search goes back as re does: the first way through the
-- pattern that ends.
pub mod Ways
use pysubunit.Prelude.{
  ℕ, ◌-◌, ◌≡◌, refl, Bool, true, false, ◌==◌, Option, none, some, List, [], ◌∷◌, length, take,
  if◌then◌else◌,
}
use pysubunit.Std.Format.{codes}

pub data Regex : Type 0 where
  empty : Regex
  char : (ℕ → Bool) → Regex
  many : (ℕ → Bool) → Regex
  optional : Regex → Regex
  either : Regex → Regex → Regex
  follows : Regex → Regex → Regex
  group : ℕ → Regex → Regex

infixr 5 ◌⨟◌
abbrev pub ◌⨟◌ : Regex → Regex → Regex
first ⨟ second = follows first second

abbrev pub literal : List ℕ → Regex
literal [] = empty
literal (c ∷ cs) = char (λ d. d == c) ⨟ literal cs

-- One or more.
abbrev pub some_of : (ℕ → Bool) → Regex
some_of p = char p ⨟ many p

-- The texts of the groups that took part, the last first.
abbrev pub Groups : Type 0
Groups = List (ℕ × List ℕ)

abbrev pub group_text : ℕ → Groups → Option (List ℕ)
group_text n [] = none
group_text n ((m, text) ∷ groups) = if m == n then some text else group_text n groups

unfoldable pub many_loop : (ℕ → Bool) → List ℕ → (List ℕ → Option Groups) → Option Groups
many_loop p [] next = next []
many_loop p (c ∷ cs) next = elim (p c) [
  | false ↦ next (c ∷ cs)
  | true ↦ elim (many_loop p cs next) [ none ↦ next (c ∷ cs) | some groups ↦ some groups ]
]

-- `next` is what has to match behind.
unfoldable pub match_at :
    Regex → List ℕ → Groups → (List ℕ → Groups → Option Groups) → Option Groups
unfolding many_loop
match_at empty text groups next = next text groups
match_at (char p) [] groups next = none
match_at (char p) (c ∷ cs) groups next = elim (p c) [ false ↦ none | true ↦ next cs groups ]
match_at (many p) text groups next = many_loop p text (λ rest. next rest groups)
match_at (optional r) text groups next = elim (match_at r text groups next) [
  | none ↦ next text groups
  | some found ↦ some found
]
match_at (either r s) text groups next = elim (match_at r text groups next) [
  | none ↦ match_at s text groups next
  | some found ↦ some found
]
match_at (follows r s) text groups next =
    match_at r text groups (λ rest found. match_at s rest found next)
match_at (group n r) text groups next =
    match_at r text groups
      (λ rest found. next rest ((n, take (length text - length rest) text) ∷ found))

unfoldable pub re_match : Regex → List ℕ → Option Groups
unfolding match_at
re_match r text = match_at r text [] (λ rest groups. some groups)

goes_back :
    re_match (group 1 (many (λ c. c == b'a')) ⨟ group 2 (literal (codes "ab"))) (codes "aaab!")
    ≡ some ((2, codes "ab") ∷ (1, codes "aa") ∷ [])
unfolding re_match
goes_back = refl
