-- ===== src/Std/Format/Decimals.antt =====
-- The digits of a printed number.
use pysubunit.Prelude.{
  ℕ, false, zero, suc, ◌+◌, ◌-◌, ◌*◌, ◌/◌, ◌%◌, ◌≤◌, ◌<◌, ◌≡◌, refl, sym, subst, ap, ◌∙◌, List, [],
  ◌∷◌, ◌++◌, All, All-append, ltb, length, arith, length-append,
}
use native.Mathlib.Decide.{dec_lt}
use pysubunit.Std.Format.{decimal, print_loop, lower_digit}

abbrev pub IsDecimal : ℕ → Type 0
IsDecimal c = (b'0' ≤ c) × (c ≤ b'9')

-- The value that digits have behind digits of the value `n`.
unfoldable pub value_from : ℕ → List ℕ → ℕ
value_from n [] = n
value_from n (c ∷ cs) = value_from (n * 10 + (c - b'0')) cs

print_loop-small : (fuel n : ℕ) → n < 10 → print_loop 10 lower_digit fuel n ≡ (b'0' + n) ∷ []
unfolding print_loop
print_loop-small zero n h = ground arith
print_loop-small (suc fuel) n h = ground arith

print_loop-large :
    (fuel n : ℕ)
    → 10 ≤ n
    → print_loop 10 lower_digit (suc fuel) n
      ≡ print_loop 10 lower_digit fuel (n / 10) ++ (b'0' + n % 10) ∷ []
unfolding print_loop
print_loop-large fuel n h =
    let last : lower_digit (n % 10) ≡ b'0' + n % 10 = ground arith in
    let big : ltb n 10 ≡ false = ground arith in
    rw big (ap (λ c. print_loop 10 lower_digit fuel (n / 10) ++ c ∷ []) last)

value_from-append :
    (xs : List ℕ) (a c : ℕ) → value_from a (xs ++ c ∷ []) ≡ value_from a xs * 10 + (c - b'0')
unfolding value_from
value_from-append [] a c = refl
value_from-append (x ∷ xs) a c = value_from-append xs (a * 10 + (x - b'0')) c

-- What holds of the print of each number, by its last digit.
module _ (P : ℕ → List ℕ → Type 0) (one : (n : ℕ) → n < 10 → P n ((b'0' + n) ∷ []))
    (next : (n : ℕ) (cs : List ℕ) → 10 ≤ n → P (n / 10) cs → P n (cs ++ (b'0' + n % 10) ∷ [])) where
  print_loop-ind : (fuel n : ℕ) → n ≤ fuel → P n (print_loop 10 lower_digit fuel n)
  print_loop-ind zero n k =
      subst (P n) (sym (print_loop-small zero n (omega arith))) (one n (omega arith))
  print_loop-ind (suc fuel) n k = elim (dec_lt n 10) [
    | yes p ↦ subst (P n) (sym (print_loop-small (suc fuel) n p)) (one n p)
    | no p ↦
        subst (P n) (sym (print_loop-large fuel n (omega arith)))
          (next n _ (omega arith) (print_loop-ind fuel (n / 10) (omega arith)))
  ]

  decimal_ind : (n : ℕ) → P n (decimal n)
  unfolding decimal
  decimal_ind n = print_loop-ind n n (omega arith)

pub decimal-IsDecimal : (n : ℕ) → All IsDecimal (decimal n)
decimal-IsDecimal =
    decimal_ind (λ n cs. All IsDecimal cs) (λ n p. ((omega arith, omega arith), tt))
      (λ n cs p a. All-append IsDecimal cs _ a ((omega arith, omega arith), tt))

pub decimal-some : (n : ℕ) → 0 < length (decimal n)
decimal-some =
    decimal_ind (λ n cs. 0 < length cs) (λ n p. omega arith)
      (λ n cs p a. omega (arith, length-append cs ((b'0' + n % 10) ∷ [])))

pub value_from-decimal : (n : ℕ) → value_from 0 (decimal n) ≡ n
unfolding value_from
value_from-decimal =
    decimal_ind (λ n cs. value_from 0 cs ≡ n) (λ n p. omega arith)
      (λ n cs p e. value_from-append cs 0 (b'0' + n % 10) ∙ omega (arith, e))
