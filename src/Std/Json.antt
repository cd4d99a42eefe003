-- ===== src/Std/Json.antt =====
-- json.dumps with ensure_ascii=False.
use pysubunit.Prelude.{
  ℕ, ◌≡◌, refl, Option, none, some, List, [], ◌∷◌, ◌++◌, ltb, ◌==◌, if◌then◌else◌,
}
use pysubunit.Std.Format.{codes, hex_lower}

-- A control character without a short form.
abbrev unicode_escape : ℕ → List ℕ
unicode_escape c = codes "\\u00" ++ ((if ltb c 16 then codes "0" else []) ++ hex_lower c)

unfoldable pub print_char : ℕ → List ℕ
unfolding hex_lower
print_char c =
    if c == b'"'
    then codes "\\\""
    else if c == 0x5c
    then codes "\\\\"
    else if c == 10
    then codes "\\n"
    else if c == 13
    then codes "\\r"
    else if c == 9
    then codes "\\t"
    else if c == 8
    then codes "\\b"
    else if c == 12
    then codes "\\f"
    else if ltb c 32
    then unicode_escape c
    else c ∷ []

unfoldable pub print_chars : List ℕ → List ℕ
unfolding print_char
print_chars [] = []
print_chars (c ∷ cs) = print_char c ++ print_chars cs

abbrev pub print_text : List ℕ → List ℕ
print_text text = codes "\"" ++ (print_chars text ++ codes "\"")

-- A text or None.
abbrev pub print_optional : Option (List ℕ) → List ℕ
print_optional none = codes "null"
print_optional (some text) = print_text text

unfoldable pub print_items : List (List ℕ) → List ℕ
unfolding print_chars
print_items [] = []
print_items (text ∷ []) = print_text text
print_items (text ∷ more ∷ rest) = print_text text ++ (codes ", " ++ print_items (more ∷ rest))

abbrev pub print_list : List (List ℕ) → List ℕ
print_list texts = codes "[" ++ (print_items texts ++ codes "]")

escapes :
    print_list ((codes "a\n\"" ++ 1 ∷ []) ∷ codes "b" ∷ []) ≡ codes "[\"a\\n\\\"\\u0001\", \"b\"]"
unfolding print_items
escapes = refl
