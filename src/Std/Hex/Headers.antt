-- ===== src/Std/Hex/Headers.antt =====
-- The digits that %X prints, and what reading them gives.
use pysubunit.Prelude.{
  ℕ, zero, suc, ◌+◌, ◌*◌, ◌/◌, ◌%◌, ◌<◌, ◌≤◌, ◌≡◌, ◌⊎◌, inl, inr, refl, sym, ap, ◌∙◌, Bool, true,
  false, Option, none, some, List, [], ◌∷◌, ◌++◌, ltb, if◌then◌else◌, All, All-append, length,
  length-append, arith, append-nil,
}
use native.Mathlib.Decide.{dec_lt}
use pysubunit.Std.Format.{hex_upper, upper_digit, print_loop}
use pysubunit.Std.Hex.{
  hex_digit, rstrip, lstrip, hex_value, int_16, is_space, before_rest, of_digits,
}

-- 0 to 9 and A to F.
abbrev pub IsDigit : ℕ → Type 0
IsDigit c = ((b'0' ≤ c) × (c ≤ b'9')) ⊎ ((b'A' ≤ c) × (c ≤ b'F'))

upper_digit-IsDigit : (d : ℕ) → d < 16 → IsDigit (upper_digit d)
upper_digit-IsDigit d p = elim (dec_lt d 10) [
  | yes q ↦ inl (ground arith, ground arith)
  | no q ↦ inr (ground arith, ground arith)
]

hex_digit-upper_digit : (d : ℕ) → d < 16 → hex_digit (upper_digit d) ≡ some d
hex_digit-upper_digit d p = elim (dec_lt d 10) [ yes q ↦ ground arith | no q ↦ ground arith ]

All-if :
    (b : Bool) (xs ys : List ℕ)
    → (b ≡ true → All IsDigit xs)
    → (b ≡ false → All IsDigit ys)
    → All IsDigit (if b then xs else ys)
All-if true xs ys f g = f refl
All-if false xs ys f g = g refl

print_loop-IsDigit : (fuel n : ℕ) → n ≤ fuel → All IsDigit (print_loop 16 upper_digit fuel n)
unfolding print_loop
print_loop-IsDigit zero n k = (upper_digit-IsDigit n (omega arith), tt)
print_loop-IsDigit (suc fuel) n k =
    All-if (ltb n 16) _ _ (λ h. (upper_digit-IsDigit n (ground arith), tt))
      (λ h.
        All-append IsDigit (print_loop 16 upper_digit fuel (n / 16)) (upper_digit (n % 16) ∷ [])
          (print_loop-IsDigit fuel (n / 16) (ground arith))
          (upper_digit-IsDigit (n % 16) (omega arith), tt))

pub hex_upper-IsDigit : (n : ℕ) → All IsDigit (hex_upper n)
unfolding hex_upper
hex_upper-IsDigit n = print_loop-IsDigit n n (omega arith)

hex_value-append :
    (xs ys : List ℕ) (front n : ℕ)
    → hex_value front xs ≡ some n
    → hex_value front (xs ++ ys) ≡ hex_value n ys
unfolding hex_value
hex_value-append [] ys front n h =
    ap (λ o. elim o as (λ _. Option ℕ) [ none ↦ none | some m ↦ hex_value m ys ]) h
hex_value-append (x ∷ xs) ys front n h =
    elim (hex_digit x)
        as (λ o.
          elim o as (λ _. Option ℕ) [ none ↦ none | some d ↦ hex_value (front * 16 + d) xs ]
            ≡ some n
          → elim o as (λ _. Option ℕ) [
            | none ↦ none
            | some d ↦ hex_value (front * 16 + d) (xs ++ ys)
          ]
            ≡ hex_value n ys) [
              | none ↦ λ e. cc
              | some d ↦ λ e. hex_value-append xs ys (front * 16 + d) n e
            ]
      h

hex_value-upper : (fuel n : ℕ) → n ≤ fuel → hex_value 0 (print_loop 16 upper_digit fuel n) ≡ some n
unfolding hex_value print_loop
hex_value-upper zero n k = ground (arith, hex_digit-upper_digit n (omega arith))
hex_value-upper (suc fuel) n k = elim (dec_lt n 16) [
  | yes p ↦ ground (arith, hex_digit-upper_digit n p)
  | no p ↦
      let before = hex_value-upper fuel (n / 16) (omega arith) in
      let last = hex_digit-upper_digit (n % 16) (omega arith) in
      ground (
        arith,
        hex_value-append (print_loop 16 upper_digit fuel (n / 16)) (upper_digit (n % 16) ∷ []) 0
            (n / 16) before,
        last,
      )
]

pub hex_value-hex_upper : (n : ℕ) → hex_value 0 (hex_upper n) ≡ some n
unfolding hex_upper
hex_value-hex_upper n = hex_value-upper n n (omega arith)

digit-is_space : (c : ℕ) → IsDigit c → is_space c ≡ false
digit-is_space c (inl d) = ground arith
digit-is_space c (inr d) = ground arith

-- What is taken off the end of digits and what follows them.
pub rstrip-digits :
    (drops : ℕ → Bool)
    → ((c : ℕ) → IsDigit c → drops c ≡ false)
    → (cs end : List ℕ) → All IsDigit cs
    → rstrip drops end ≡ []
    → rstrip drops (cs ++ end) ≡ cs
unfolding rstrip
rstrip-digits drops f [] end a e = e
rstrip-digits drops f (c ∷ []) end (d, a) e =
    ap (before_rest drops c) (rstrip-digits drops f [] end a e) ∙ rw (f c d)
rstrip-digits drops f (c ∷ b ∷ cs) end (d, a) e =
    ap (before_rest drops c) (rstrip-digits drops f (b ∷ cs) end a e)

lstrip-digits : (cs : List ℕ) → All IsDigit cs → lstrip is_space cs ≡ cs
unfolding lstrip
lstrip-digits [] a = refl
lstrip-digits (c ∷ cs) (d, a) = rw (digit-is_space c d)

print_loop-some : (fuel n : ℕ) → 0 < length (print_loop 16 upper_digit fuel n)
unfolding print_loop
print_loop-some zero n = omega arith
print_loop-some (suc fuel) n =
    ground
      (arith, length-append (print_loop 16 upper_digit fuel (n / 16)) (upper_digit (n % 16) ∷ []))

pub hex_upper-some : (n : ℕ) → 0 < length (hex_upper n)
unfolding hex_upper
hex_upper-some n = print_loop-some n n

of_digits-some :
    (cs : List ℕ) (n : ℕ) → 0 < length cs → hex_value 0 cs ≡ some n → of_digits cs ≡ some n
of_digits-some [] n p h = absurd (omega arith)
of_digits-some (c ∷ cs) n p h = h

pub int_16-hex_upper : (n : ℕ) → int_16 (hex_upper n) ≡ some n
unfolding int_16 rstrip
int_16-hex_upper n =
    let cs = hex_upper n in
    ap (λ bs. of_digits (lstrip is_space (rstrip is_space bs))) (sym (append-nil cs))
    ∙ ap (λ bs. of_digits (lstrip is_space bs))
        (rstrip-digits is_space digit-is_space cs [] (hex_upper-IsDigit n) refl)
    ∙ ap of_digits (lstrip-digits cs (hex_upper-IsDigit n))
    ∙ of_digits-some cs n (hex_upper-some n) (hex_value-hex_upper n)
