-- ===== src/V1/Client/Session/Lines.antt =====
-- The lines of a session, as the parser takes them.
use pysubunit.Prelude.{
  ℕ, ◌-◌, ◌≡◌, ◌≢◌, refl, sym, subst, ap, ◌∙◌, true, false, List, ◌==◌, some, [], ◌∷◌, ◌++◌, All,
  All-append, length, length-append, take, drop, take-append_of_eq, drop-append, eq_bytes,
  append_assoc, arith,
}
use native.Mathlib.Decide.{ℕ_discrete}
use pysubunit.Chunked.Encoder.{join}
use pysubunit.Std.Format.{codes}
use pysubunit.Std.Hex.{rstrip, lstrip}
use pysubunit.Std.Utf8
use pysubunit.Std.Utf8.RoundTrip.{decode-encode}
use pysubunit.Std.Words
use pysubunit.Std.Words.{
  is_space, split_once, starts_with, is_in, cut_at, lines_from, readlines, close_word,
}
use pysubunit.V2.Types.{Text, Bytes}
use pysubunit.V1.Calls.{Outcome, error, failure, skip, success, xfail, uxsuccess}
use pysubunit.V1.Server.Keyword.{test_command, outcome_command, command_of, named_part}

-- The word of an outcome, with its colon and a blank.
abbrev pub word_of : Outcome → Bytes
word_of error = codes "error: "
word_of failure = codes "failure: "
word_of skip = codes "skip: "
word_of success = codes "successful: "
word_of xfail = codes "xfail: "
word_of uxsuccess = codes "uxsuccess: "

pub command_of-test :
    (b : ℕ) (bs : Bytes)
    → is_space b ≡ false
    → command_of (codes "test: " ++ b ∷ bs) ≡ test_command 6
unfolding command_of split_once starts_with is_in rstrip lstrip cut_at eq_bytes
command_of-test b bs h = rw h

pub command_of-outcome :
    (o : Outcome) (b : ℕ) (bs : Bytes)
    → is_space b ≡ false
    → command_of (word_of o ++ b ∷ bs) ≡ outcome_command o (length (word_of o))
unfolding command_of split_once starts_with is_in rstrip lstrip cut_at eq_bytes
command_of-outcome error b bs h = rw h
command_of-outcome failure b bs h = rw h
command_of-outcome skip b bs h = rw h
command_of-outcome success b bs h = rw h
command_of-outcome xfail b bs h = rw h
command_of-outcome uxsuccess b bs h = rw h

pub named_part-line : (w x : Bytes) → named_part (length w) (w ++ (x ++ 10 ∷ [])) ≡ x
named_part-line w x =
    let line = w ++ (x ++ 10 ∷ []) in
    ap (drop (length w)) (
      ap (take (length line - 1)) (sym (append_assoc w x (10 ∷ [])))
      ∙ take-append_of_eq (length line - 1) (w ++ x) (10 ∷ []) (
          omega
            (arith, length-append w (x ++ 10 ∷ []), length-append x (10 ∷ []), length-append w x)))
    ∙ drop-append w x

pub decode-name : (id : Text) (x : Bytes) → Utf8.encode id ≡ some x → Words.decode x ≡ some id
unfolding Words.decode
decode-name id x h = rw (decode-encode id x h) (ground arith)

test_eq : (b c : ℕ) → b ≡ c → (b == c) ≡ true
test_eq b c e = ground arith

test_ne : (b c : ℕ) → b ≢ c → (b == c) ≡ false
test_ne b c n = ground arith

-- A line of a stream, which has no newline but its own.
pub lines_from-line :
    (x rest acc : Bytes)
    → All (λ b. b ≢ 10) x
    → lines_from acc (x ++ 10 ∷ rest) ≡ (acc ++ (x ++ 10 ∷ [])) ∷ lines_from [] rest
unfolding lines_from
lines_from-line [] rest acc a = refl
lines_from-line (b ∷ x) rest acc (n, a) =
    rw (lines_from, test_ne b 10 n)
      (lines_from-line x rest (acc ++ b ∷ []) a
        ∙ ap (λ bs. bs ∷ lines_from [] rest) (append_assoc acc (b ∷ []) (x ++ 10 ∷ [])))

pub eq_bytes-append : (xs ys zs : Bytes) → eq_bytes (xs ++ ys) (xs ++ zs) ≡ eq_bytes ys zs
unfolding eq_bytes
eq_bytes-append [] ys zs = refl
eq_bytes-append (x ∷ xs) ys zs = ground (arith, eq_bytes-append xs ys zs)

-- A line with its newline.
abbrev pub line_of : Bytes → Bytes
line_of x = x ++ 10 ∷ []

abbrev pub OneLine : Bytes → Type 0
OneLine x = All (λ b. b ≢ 10) x

abbrev pub IsLine : Bytes → Type 0
IsLine line = (x : Bytes) × (line ≡ line_of x) × OneLine x

pub lines_from-join : (lines : List Bytes) → All IsLine lines → lines_from [] (join lines) ≡ lines
unfolding lines_from join
lines_from-join [] a = refl
lines_from-join (line ∷ lines) ((x, e, o), a) =
    ap (λ l. lines_from [] (l ++ join lines)) e
    ∙ ap (lines_from []) (append_assoc x (10 ∷ []) (join lines))
    ∙ lines_from-line x (join lines) [] o
    ∙ ap (λ ls. line_of x ∷ ls) (lines_from-join lines a)
    ∙ ap (λ l. l ∷ lines) (sym e)

lines_from-newline :
    (c : ℕ) (bs line : Bytes) → c ≡ 10 → lines_from line (c ∷ bs) ≡ line_of line ∷ lines_from [] bs
unfolding lines_from
lines_from-newline c bs line e = rw (lines_from, test_eq c 10 e) (rw e refl)

lines_from-other :
    (c : ℕ) (bs line : Bytes) → c ≢ 10 → lines_from line (c ∷ bs) ≡ lines_from (line ++ c ∷ []) bs
unfolding lines_from
lines_from-other c bs line n = rw (lines_from, test_ne c 10 n) refl

pub join-lines_from : (bs line : Bytes) → join (lines_from line bs) ≡ line ++ bs
unfolding lines_from join
join-lines_from [] [] = refl
join-lines_from [] (c ∷ line) = refl
join-lines_from (c ∷ bs) line = elim (ℕ_discrete c 10) [
  | yes e ↦
      ap join (lines_from-newline c bs line e)
      ∙ ap (λ z. line_of line ++ z) (join-lines_from bs [])
      ∙ append_assoc line (10 ∷ []) bs
      ∙ ap (λ b. line ++ b ∷ bs) (sym e)
  | no n ↦
      ap join (lines_from-other c bs line n)
      ∙ join-lines_from bs (line ++ c ∷ [])
      ∙ append_assoc line (c ∷ []) bs
]

-- A stream that ends in a newline is made of lines.
pub lines_from-IsLine : (bs line : Bytes) → OneLine line → All IsLine (lines_from line (line_of bs))
unfolding lines_from
lines_from-IsLine [] line o = ((line, refl, o), tt)
lines_from-IsLine (c ∷ bs) line o = elim (ℕ_discrete c 10) [
  | yes e ↦
      subst (All IsLine) (sym (lines_from-newline c (line_of bs) line e))
        ((line, refl, o), lines_from-IsLine bs [] tt)
  | no n ↦
      subst (All IsLine) (sym (lines_from-other c (line_of bs) line n))
        (lines_from-IsLine bs (line ++ c ∷ []) (All-append (λ b. b ≢ 10) line (c ∷ []) o (n, tt)))
]

pub join-append_lines : (xs ys : List Bytes) → join (xs ++ ys) ≡ join xs ++ join ys
unfolding join
join-append_lines [] ys = refl
join-append_lines (x ∷ xs) ys =
    ap (λ bs. x ++ bs) (join-append_lines xs ys) ∙ sym (append_assoc x (join xs) (join ys))
