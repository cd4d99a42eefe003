-- ===== src/Std/Words.antt =====
-- The methods of bytes and str that the program uses: split, strip, rstrip, startswith, int.
use pysubunit.Prelude.{
  ℕ, ◌+◌, ◌-◌, ◌*◌, ◌≡◌, refl, Bool, true, false, ◌||◌, ◌&&◌, Option, none, some, List, [], ◌∷◌,
  ◌++◌, leb, ◌==◌, if◌then◌else◌, length,
}
use pysubunit.Prelude.Int.{ℤ, pos, negsuc, sub_ℕ}
use pysubunit.Std.Format.{codes}
use pysubunit.Std.Hex.{rstrip, lstrip}
use pysubunit.Std.Utf8

-- White space of bytes.
abbrev pub is_space : ℕ → Bool
is_space c = leb 9 c && leb c 13 || c == 32

-- White space of str.
abbrev pub is_text_space : ℕ → Bool
is_text_space c =
    is_space c
    || (leb 28 c && leb c 31
        || (c == 0x85
            || (c == 0xa0
                || (c == 0x1680
                    || (leb 0x2000 c && leb c 0x200a
                        || (c == 0x2028
                            || (c == 0x2029 || (c == 0x202f || (c == 0x205f || c == 0x3000)))))))))

-- The front of a text up to the first character that `ends` holds of, and what begins there.
abbrev push_front : ℕ → List ℕ × List ℕ → List ℕ × List ℕ
push_front c (front, rest) = (c ∷ front, rest)

unfoldable pub cut_at : (ℕ → Bool) → List ℕ → List ℕ × List ℕ
cut_at ends [] = ([], [])
cut_at ends (c ∷ cs) =
    let more = cut_at ends cs in if ends c then ([], c ∷ cs) else push_front c more

unfoldable pub starts_with : List ℕ → List ℕ → Bool
starts_with [] cs = true
starts_with (p ∷ ps) [] = false
starts_with (p ∷ ps) (c ∷ cs) = p == c && starts_with ps cs

-- `part in text`
unfoldable pub is_in : List ℕ → List ℕ → Bool
unfolding starts_with
is_in part [] = starts_with part []
is_in part (c ∷ cs) = starts_with part (c ∷ cs) || is_in part cs

abbrev two_parts : List ℕ → List ℕ → Option (List ℕ × List ℕ)
two_parts word [] = none
two_parts word (c ∷ cs) = some (word, c ∷ cs)

-- line.split(None, 1), if that makes two parts: a word, and what stands behind the white space.
unfoldable pub split_once : List ℕ → Option (List ℕ × List ℕ)
unfolding cut_at lstrip
split_once line =
    let (word, rest) = cut_at is_space (lstrip is_space line) in
    two_parts word (lstrip is_space rest)

-- line.strip()
unfoldable pub strip : List ℕ → List ℕ
unfolding lstrip rstrip
strip line = lstrip is_space (rstrip is_space line)

-- text.split(): the words between white space. `word` is the one that is being read.
abbrev pub close_word : List ℕ → List (List ℕ) → List (List ℕ)
close_word [] words = words
close_word (c ∷ cs) words = (c ∷ cs) ∷ words

unfoldable pub words_from : List ℕ → List ℕ → List (List ℕ)
words_from word [] = close_word word []
words_from word (c ∷ cs) = elim (is_text_space c) [
  | true ↦ close_word word (words_from [] cs)
  | false ↦ words_from (word ++ c ∷ []) cs
]

unfoldable pub split : List ℕ → List (List ℕ)
unfolding words_from
split text = words_from [] text

-- text.split(sep), if that makes two parts.
abbrev behind : List ℕ → List ℕ → Option (List ℕ × List ℕ)
behind front [] = none
behind front (c ∷ cs) = some (front, cs)

-- text.split(sep, 1) of one character, if that makes two parts.
unfoldable pub split_at : ℕ → List ℕ → Option (List ℕ × List ℕ)
unfolding cut_at
split_at sep text = let (front, rest) = cut_at (λ c. c == sep) text in behind front rest

unfoldable pub has_char : ℕ → List ℕ → Bool
has_char x [] = false
has_char x (c ∷ cs) = c == x || has_char x cs

abbrev only_one : ℕ → Option (List ℕ × List ℕ) → Option (List ℕ × List ℕ)
only_one sep none = none
only_one sep (some (a, b)) = if has_char sep b then none else some (a, b)

-- `a, b = text.split(sep)`: none for ValueError.
unfoldable pub split_in_two : ℕ → List ℕ → Option (List ℕ × List ℕ)
unfolding split_at has_char
split_in_two sep text = only_one sep (split_at sep text)

-- int(text) of digits, with single underscores between them. `digit` says that a digit stands in
-- front.
unfoldable pub int_loop : ℕ → Bool → List ℕ → Option ℕ
int_loop n digit [] = if digit then some n else none
int_loop n digit (c ∷ cs) =
    let next = int_loop (n * 10 + (c - b'0')) true cs in
    let skipped = int_loop n false cs in
    if leb b'0' c && leb c b'9' then next else if c == b'_' && digit then skipped else none

abbrev signed : Bool → Option ℕ → Option ℤ
signed negative none = none
signed true (some n) = some (sub_ℕ 0 n)
signed false (some n) = some (pos n)

abbrev int_of : List ℕ → Option ℤ
int_of [] = none
int_of (c ∷ cs) =
    if c == b'-'
    then signed true (int_loop 0 false cs)
    else if c == b'+'
    then signed false (int_loop 0 false cs)
    else signed false (int_loop 0 false (c ∷ cs))

-- int(text), none for ValueError.
unfoldable pub int : List ℕ → Option ℤ
unfolding strip int_loop
int text = int_of (strip text)

-- bytes.decode('utf8'), none for UnicodeDecodeError.
abbrev complete : ℕ → Option (List ℕ × ℕ) → Option (List ℕ)
complete size none = none
complete size (some (text, used)) = if used == size then some text else none

unfoldable pub decode : List ℕ → Option (List ℕ)
decode bs = complete (length bs) (Utf8.decode bs)

-- stream.readlines(): each line with its newline. `line` is the one that is being read.
unfoldable pub lines_from : List ℕ → List ℕ → List (List ℕ)
lines_from line [] = close_word line []
lines_from line (c ∷ cs) = elim (c == 10) [
  | true ↦ (line ++ c ∷ []) ∷ lines_from [] cs
  | false ↦ lines_from (line ++ c ∷ []) cs
]

unfoldable pub readlines : List ℕ → List (List ℕ)
unfolding lines_from
readlines stream = lines_from [] stream

-- stream.readline(), and what the stream has left.
abbrev pub cut_line : Bool → ℕ → List ℕ → List ℕ × List ℕ → List ℕ × List ℕ
cut_line true c cs more = (c ∷ [], cs)
cut_line false c cs (line, rest) = (c ∷ line, rest)

unfoldable pub readline : List ℕ → List ℕ × List ℕ
readline [] = ([], [])
readline (c ∷ cs) = cut_line (c == 10) c cs (readline cs)

splits :
    (split_once (codes "test:  a b\n") ≡ some (codes "test:", codes "a b\n"))
    × (split_once (codes "test \n") ≡ none)
    × (split (codes " a  -b\n") ≡ codes "a" ∷ codes "-b" ∷ [])
    × (split_in_two b'/' (codes "text/plain") ≡ some (codes "text", codes "plain"))
    × (split_in_two b'/' (codes "a/b/c") ≡ none)
    × (readlines (codes "a\n\nb") ≡ codes "a\n" ∷ codes "\n" ∷ codes "b" ∷ [])
unfolding split_once split split_in_two readlines
splits = (refl, refl, refl, refl, refl, refl)

integers :
    (int (codes "+12\n") ≡ some (pos 12))
    × (int (codes "-1_0") ≡ some (negsuc 9))
    × (int (codes "1 2") ≡ none)
    × (int (codes "+") ≡ none)
unfolding int
integers = (refl, refl, refl, refl)
