-- ===== src/Std/Format.antt =====
-- The printing of numbers (%d, %x, %X), int(text, 16), and the codes of a text literal.
pub mod Decimals
use Prim.Native.Char.{code}
use pysubunit.Prelude.{
  ℕ, zero, suc, ◌+◌, ◌-◌, ◌/◌, ◌%◌, ◌≡◌, refl, String, List, [], ◌∷◌, ◌++◌, ltb, if◌then◌else◌,
}

-- The code points of a text; its bytes, if it is ASCII.
abbrev pub codes : String → List ℕ
codes String.[] = []
codes (String.◌∷◌ c s) = code c ∷ codes s

-- Digits in a base, highest first. A division by the base makes the number smaller, so the number
-- itself is fuel enough.
unfoldable pub print_loop : ℕ → (ℕ → ℕ) → ℕ → ℕ → List ℕ
print_loop base digit zero n = digit n ∷ []
print_loop base digit (suc fuel) n =
    let more = print_loop base digit fuel (n / base) ++ digit (n % base) ∷ [] in
    if ltb n base then digit n ∷ [] else more

abbrev pub lower_digit : ℕ → ℕ
lower_digit d = if ltb d 10 then b'0' + d else b'a' + (d - 10)

abbrev pub upper_digit : ℕ → ℕ
upper_digit d = if ltb d 10 then b'0' + d else b'A' + (d - 10)

-- "%d" of a number that is not negative.
unfoldable pub decimal : ℕ → List ℕ
unfolding print_loop
decimal n = print_loop 10 lower_digit n n

-- "%x"
unfoldable pub hex_lower : ℕ → List ℕ
unfolding print_loop
hex_lower n = print_loop 16 lower_digit n n

-- "%X"
unfoldable pub hex_upper : ℕ → List ℕ
unfolding print_loop
hex_upper n = print_loop 16 upper_digit n n

prints :
    (decimal 1207 ≡ codes "1207") × (hex_upper 65535 ≡ codes "FFFF") × (hex_lower 0 ≡ codes "0")
unfolding decimal hex_upper hex_lower
prints = (refl, refl, refl)
