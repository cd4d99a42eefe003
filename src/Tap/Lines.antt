-- ===== src/Tap/Lines.antt =====
-- The lines of a TAP stream: the patterns of TAP2SubUnit and what it takes from their groups.
use pysubunit.Prelude.{
  ℕ, ◌+◌, ◌*◌, Bool, true, false, not, ◌||◌, ◌==◌, Option, none, some, [], ◌∷◌, eq_bytes,
}
use pysubunit.Std.Format.{codes}
use pysubunit.Std.Words.{is_text_space}
use pysubunit.Std.Regex.{
  Regex, many, optional, either, ◌⨟◌, literal, some_of, group, Groups, group_text, re_match,
}
use pysubunit.V2.Types.{Text}

-- `.`, `[^#]` and `[^#\s]`
abbrev pub not_newline : ℕ → Bool
not_newline c = not (c == 10)

abbrev pub not_hash : ℕ → Bool
not_hash c = not (c == b'#')

abbrev pub not_hash_or_space : ℕ → Bool
not_hash_or_space c = not (c == b'#' || is_text_space c)

-- The groups of a test line.
pub record TestLine : Type 0 where
  pub is_ok : Bool
  pub number : Option ℕ
  pub description : Option Text
  pub directive : Option Text
  pub comment : Option Text

abbrev pub found {ℓ} : {A : Type ℓ} → (Groups → A) → Option Groups → Option A
found f none = none
found f (some groups) = some (f groups)

abbrev is_text : Text → Option Text → Bool
is_text text none = false
is_text text (some other) = eq_bytes other text

abbrev text_of : Option Text → Text
text_of none = []
text_of (some text) = text

-- Bail out\!(?:\s*(.*))?\n
abbrev pub bail_pattern : Regex
bail_pattern =
    literal (codes "Bail out!")
    ⨟ optional (many is_text_space ⨟ group 1 (many not_newline))
    ⨟ literal (codes "\n")

-- The reason, which may be missing.
unfoldable pub bail_of : Text → Option (Option Text)
unfolding re_match
bail_of line = found (group_text 1) (re_match bail_pattern line)

-- \#.*\n
abbrev pub comment_pattern : Regex
comment_pattern = literal (codes "#") ⨟ many not_newline ⨟ literal (codes "\n")

abbrev matches : Option Groups → Bool
matches none = false
matches (some groups) = true

unfoldable pub is_comment : Text → Bool
unfolding re_match
is_comment line = matches (re_match comment_pattern line)

-- (?:\s+([^#]*[^#\s]+)\s*)?(?:\s+#\s+(TODO|SKIP|skip|todo)(?:\s+(.*))?)?\n
abbrev pub description_pattern : Regex
description_pattern =
    optional (
      some_of is_text_space
      ⨟ group 3 (many not_hash ⨟ some_of not_hash_or_space)
      ⨟ many is_text_space)
    ⨟ optional (
        some_of is_text_space
        ⨟ literal (codes "#")
        ⨟ some_of is_text_space
        ⨟ group 4 (
            either (literal (codes "TODO")) (
              either (literal (codes "SKIP"))
                (either (literal (codes "skip")) (literal (codes "todo")))))
        ⨟ optional (some_of is_text_space ⨟ group 5 (many not_newline)))
    ⨟ literal (codes "\n")

-- `digit` is the value of a character that is a decimal digit in Unicode.
module _ (digit : ℕ → Option ℕ) where
  abbrev is_some : Option ℕ → Bool
  is_some none = false
  is_some (some n) = true

  abbrev pub is_digit : ℕ → Bool
  is_digit c = is_some (digit c)

  abbrev value_of : Option ℕ → ℕ
  value_of none = 0
  value_of (some n) = n

  -- int of a text of digits.
  unfoldable pub int_loop : ℕ → Text → ℕ
  int_loop n [] = n
  int_loop n (c ∷ cs) = int_loop (n * 10 + value_of (digit c)) cs

  abbrev number_of : Option Text → Option ℕ
  number_of none = none
  number_of (some text) = some (int_loop 0 text)

  -- (\d+)\.\.(\d+)\s*(?:\#\s+(.*))?\n
  abbrev pub plan_pattern : Regex
  plan_pattern =
      group 1 (some_of is_digit)
      ⨟ literal (codes "..")
      ⨟ group 2 (some_of is_digit)
      ⨟ many is_text_space
      ⨟ optional (literal (codes "#") ⨟ some_of is_text_space ⨟ group 3 (many not_newline))
      ⨟ literal (codes "\n")

  abbrev pub plan_parts : Groups → ℕ × Option Text
  plan_parts groups = (int_loop 0 (text_of (group_text 2 groups)), group_text 3 groups)

  -- plan_stop and the comment.
  unfoldable pub plan_of : Text → Option (ℕ × Option Text)
  unfolding re_match int_loop
  plan_of line = found plan_parts (re_match plan_pattern line)

  -- (ok|not ok)(?:\s+(\d+)?)? and what follows.
  abbrev pub test_pattern : Regex
  test_pattern =
      group 1 (either (literal (codes "ok")) (literal (codes "not ok")))
      ⨟ optional (some_of is_text_space ⨟ optional (group 2 (some_of is_digit)))
      ⨟ description_pattern

  abbrev pub test_parts : Groups → TestLine
  test_parts groups = record {
    is_ok = is_text (codes "ok") (group_text 1 groups);
    number = number_of (group_text 2 groups);
    description = group_text 3 groups;
    directive = group_text 4 groups;
    comment = group_text 5 groups;
  }

  unfoldable pub test_of : Text → Option TestLine
  unfolding re_match int_loop
  test_of line = found test_parts (re_match test_pattern line)
