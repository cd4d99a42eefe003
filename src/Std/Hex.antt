-- ===== src/Std/Hex.antt =====
-- bytes.rstrip(chars) and int(text, 16) for a text of hexadecimal digits and white space.
pub mod Headers
use pysubunit.Prelude.{
  ℕ, ◌+◌, ◌-◌, ◌*◌, ◌≡◌, refl, Bool, ◌||◌, ◌&&◌, Option, none, some, List, [], ◌∷◌, leb, ◌==◌,
  if◌then◌else◌,
}
use pysubunit.Std.Format.{codes}

abbrev pub between : ℕ → ℕ → ℕ → Bool
between low high c = leb low c && leb c high

abbrev pub hex_digit : ℕ → Option ℕ
hex_digit c =
    if between b'0' b'9' c
    then some (c - b'0')
    else if between b'a' b'f' c
    then some (c - b'a' + 10)
    else if between b'A' b'F' c
    then some (c - b'A' + 10)
    else none

-- What is left when the last elements that `drops` holds of are taken off.
abbrev pub before_rest : (ℕ → Bool) → ℕ → List ℕ → List ℕ
before_rest drops c [] = if drops c then [] else c ∷ []
before_rest drops c (d ∷ ds) = c ∷ d ∷ ds

unfoldable pub rstrip : (ℕ → Bool) → List ℕ → List ℕ
rstrip drops [] = []
rstrip drops (c ∷ cs) = before_rest drops c (rstrip drops cs)

unfoldable pub lstrip : (ℕ → Bool) → List ℕ → List ℕ
lstrip drops [] = []
lstrip drops (c ∷ cs) = let rest = lstrip drops cs in if drops c then rest else c ∷ cs

abbrev pub is_space : ℕ → Bool
is_space c = between 9 13 c || c == 32

-- The value of the digits, with that of the digits in front of them.
unfoldable pub hex_value : ℕ → List ℕ → Option ℕ
hex_value front [] = some front
hex_value front (c ∷ cs) = elim (hex_digit c) [
  | none ↦ none
  | some d ↦ hex_value (front * 16 + d) cs
]

abbrev pub of_digits : List ℕ → Option ℕ
of_digits [] = none
of_digits (c ∷ cs) = hex_value 0 (c ∷ cs)

-- int(text, 16), none for ValueError.
unfoldable pub int_16 : List ℕ → Option ℕ
unfolding rstrip lstrip hex_value
int_16 cs = of_digits (lstrip is_space (rstrip is_space cs))

reads :
    (int_16 (codes " 1aF\n") ≡ some 431)
    × (int_16 (codes "\r\n") ≡ none)
    × (int_16 (codes "1\r2") ≡ none)
unfolding int_16
reads = (refl, refl, refl)
