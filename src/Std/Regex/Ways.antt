-- ===== src/Std/Regex/Ways.antt =====
-- Ways through a pattern: what leads to a match.
use pysubunit.Prelude.{
  ℕ, ◌-◌, ◌≡◌, ◌==◌, refl, Bool, true, false, Option, none, some, List, [], ◌∷◌, ◌++◌, All, length,
  take, take-append_of_eq, length-append, arith,
}
use pysubunit.Std.Regex.{
  Regex, empty, char, many, optional, either, follows, group, Groups, many_loop, match_at, literal,
}

abbrev pub Next : Type 0
Next = List ℕ → Groups → Option Groups

-- The character in front of a text is none of `p`.
abbrev pub StopsAt : (ℕ → Bool) → List ℕ → Type 0
StopsAt p [] = Unit
StopsAt p (c ∷ cs) = p c ≡ false

pub many_loop-greedy :
    (p : ℕ → Bool) (xs rest : List ℕ) (next : List ℕ → Option Groups) {found : Groups}
    → All (λ c. p c ≡ true) xs
    → StopsAt p rest
    → next rest ≡ some found
    → many_loop p (xs ++ rest) next ≡ some found
unfolding many_loop
many_loop-greedy p [] [] next a s e = e
many_loop-greedy p [] (c ∷ cs) next a s e = rw s e
many_loop-greedy p (x ∷ xs) rest next (h, a) s e = rw (h, many_loop-greedy p xs rest next a s e)

-- What a group holds when `rest` is left.
pub take-group : (xs rest : List ℕ) → take (length (xs ++ rest) - length rest) (xs ++ rest) ≡ xs
take-group xs rest =
    take-append_of_eq (length (xs ++ rest) - length rest) xs rest
      (omega (arith, length-append xs rest))

-- A way through a pattern to what matches behind.
pub data Way : Regex → List ℕ → Groups → Next → Groups → Type 0 where
  empty_way :
      {text : List ℕ} {groups : Groups} {next : Next} {found : Groups}
      → next text groups ≡ some found
      → Way empty text groups next found
  follows_way :
      {r s : Regex} {text : List ℕ} {groups : Groups} {next : Next} {found : Groups}
      → Way r text groups (λ rest held. match_at s rest held next) found
      → Way (follows r s) text groups next found
  optional_way :
      {r : Regex} {text : List ℕ} {groups : Groups} {next : Next} {found : Groups}
      → Way r text groups next found
      → Way (optional r) text groups next found
  first_way :
      {r s : Regex} {text : List ℕ} {groups : Groups} {next : Next} {found : Groups}
      → Way r text groups next found
      → Way (either r s) text groups next found
  second_way :
      {r s : Regex} {text : List ℕ} {groups : Groups} {next : Next} {found : Groups}
      → match_at r text groups next ≡ none
      → Way s text groups next found
      → Way (either r s) text groups next found
  group_way :
      {n : ℕ} {r : Regex} {text : List ℕ} {groups : Groups} {next : Next} {found : Groups}
      → Way r text groups
          (λ rest held. next rest ((n, take (length text - length rest) text) ∷ held))
          found
      → Way (group n r) text groups next found
  char_way :
      {p : ℕ → Bool} {c : ℕ} {text : List ℕ} {groups : Groups} {next : Next} {found : Groups}
      → p c ≡ true
      → next text groups ≡ some found
      → Way (char p) (c ∷ text) groups next found
  many_way :
      {p : ℕ → Bool} (xs rest : List ℕ) {groups : Groups} {next : Next} {found : Groups}
      → All (λ c. p c ≡ true) xs
      → StopsAt p rest
      → next rest groups ≡ some found
      → Way (many p) (xs ++ rest) groups next found

pub way :
    {r : Regex} {text : List ℕ} {groups : Groups} {next : Next} {found : Groups}
    → Way r text groups next found
    → match_at r text groups next ≡ some found
unfolding match_at
way (empty_way e) = e
way (follows_way w) = way w
way (optional_way w) = rw (way w)
way (first_way w) = rw (way w)
way (second_way e w) = rw e (way w)
way (group_way w) = way w
way (char_way h e) = rw h e
way (many_way xs rest a s e) = many_loop-greedy _ xs rest _ a s e

pub literal-Way :
    (cs text : List ℕ) {groups : Groups} {next : Next} {found : Groups}
    → next text groups ≡ some found
    → Way (literal cs) (cs ++ text) groups next found
literal-Way [] text e = empty_way e
literal-Way (c ∷ cs) text e = follows_way (char_way same (way (literal-Way cs text e)))
  where
    same : (c == c) ≡ true
    same = ground arith

pub literal-none :
    (c : ℕ) (cs : List ℕ) (d : ℕ) (text : List ℕ) (groups : Groups) (next : Next)
    → (d == c) ≡ false
    → match_at (literal (c ∷ cs)) (d ∷ text) groups next ≡ none
unfolding match_at
literal-none c cs d text groups next h = rw (match_at, h) refl
