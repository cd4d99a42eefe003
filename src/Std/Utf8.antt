-- ===== src/Std/Utf8.antt =====
-- The UTF-8 codec. A text is the list of its code points, a byte string the list of its bytes.
pub mod RoundTrip
use pysubunit.Prelude.{
  ℕ, zero, suc, ◌+◌, ◌-◌, ◌*◌, ◌/◌, ◌%◌, Bool, not, ◌&&◌, Option, none, some, List, [], ◌∷◌, ◌++◌,
  ltb, leb, ◌==◌, if◌then◌else◌, length, drop,
}

-- str.encode('utf-8') of one character: a surrogate is a UnicodeEncodeError, `none`.
unfoldable pub encode_char : ℕ → Option (List ℕ)
encode_char c =
    if ltb c 0x80
    then some (c ∷ [])
    else if ltb c 0x800
    then some ((0xc0 + c / 64) ∷ (0x80 + c % 64) ∷ [])
    else if leb 0xd800 c && ltb c 0xe000
    then none
    else if ltb c 0x10000
    then some ((0xe0 + c / 4096) ∷ (0x80 + c / 64 % 64) ∷ (0x80 + c % 64) ∷ [])
    else if ltb c 0x110000
    then some
        ((0xf0 + c / 262144) ∷ (0x80 + c / 4096 % 64) ∷ (0x80 + c / 64 % 64) ∷ (0x80 + c % 64) ∷ [])
    else none

abbrev join : Option (List ℕ) → Option (List ℕ) → Option (List ℕ)
join none _ = none
join (some a) none = none
join (some a) (some b) = some (a ++ b)

unfoldable pub encode : List ℕ → Option (List ℕ)
encode [] = some []
encode (c ∷ cs) = join (encode_char c) (encode cs)

-- What the strict decoder finds at the front of its input: a character and the number of bytes
-- that it takes, the proper start of one (more input may complete it), or bytes that no input can
-- complete.
pub data Front : Type 0 where
  char : ℕ → ℕ → Front
  partial : Front
  invalid : Front

abbrev continues : ℕ → Bool
continues b = leb 0x80 b && ltb b 0xc0

-- The second byte's range excludes overlong forms, surrogates and what is past 0x10ffff.
abbrev second_of_three : ℕ → ℕ → Bool
second_of_three a b = continues b && not (a == 0xe0 && ltb b 0xa0) && not (a == 0xed && leb 0xa0 b)

abbrev second_of_four : ℕ → ℕ → Bool
second_of_four a b = continues b && not (a == 0xf0 && ltb b 0x90) && not (a == 0xf4 && leb 0x90 b)

unfoldable pub two : ℕ → List ℕ → Front
two a [] = partial
two a (b ∷ _) = if continues b then char ((a - 0xc0) * 64 + (b - 0x80)) 2 else invalid

unfoldable pub three : ℕ → List ℕ → Front
three a [] = partial
three a (b ∷ []) = if second_of_three a b then partial else invalid
three a (b ∷ c ∷ _) =
    if second_of_three a b && continues c
    then char ((a - 0xe0) * 4096 + (b - 0x80) * 64 + (c - 0x80)) 3
    else invalid

unfoldable pub four : ℕ → List ℕ → Front
four a [] = partial
four a (b ∷ []) = if second_of_four a b then partial else invalid
four a (b ∷ c ∷ []) = if second_of_four a b && continues c then partial else invalid
four a (b ∷ c ∷ d ∷ _) =
    if second_of_four a b && continues c && continues d
    then char ((a - 0xf0) * 262144 + (b - 0x80) * 4096 + (c - 0x80) * 64 + (d - 0x80)) 4
    else invalid

unfoldable pub front : ℕ → List ℕ → Front
unfolding two three four
front a rest =
    if ltb a 0x80
    then char a 1
    else if ltb a 0xc2
    then invalid
    else if ltb a 0xe0
    then two a rest
    else if ltb a 0xf0
    then three a rest
    else if ltb a 0xf5
    then four a rest
    else invalid

-- One more character in front of what the rest decodes to.
abbrev prepend : ℕ → ℕ → Option (List ℕ × ℕ) → Option (List ℕ × ℕ)
prepend c n none = none
prepend c n (some (cs, used)) = some (c ∷ cs, n + used)

-- codecs.utf_8_decode(bytes): the text and the count of bytes consumed, which stops before a
-- partial character at the end; `none` is UnicodeDecodeError. A character takes a byte at least, so
-- the count of bytes is fuel enough.
unfoldable pub decode_loop : ℕ → List ℕ → Option (List ℕ × ℕ)
decode_loop zero bs = some ([], 0)
decode_loop (suc fuel) [] = some ([], 0)
decode_loop (suc fuel) (a ∷ rest) = elim (front a rest) [
  | char c n ↦ prepend c n (decode_loop fuel (drop n (a ∷ rest)))
  | partial ↦ some ([], 0)
  | invalid ↦ none
]

unfoldable pub decode : List ℕ → Option (List ℕ × ℕ)
decode bs = decode_loop (length bs) bs
