-- ===== src/Tap/Printed.antt =====
-- The lines that a TAP producer prints, as TAP2SubUnit reads them.
use pysubunit.Prelude.{
  ℕ, ◌+◌, ◌-◌, ◌*◌, ◌<◌, ◌≡◌, refl, ap, ◌∙◌, Bool, true, false, Option, none, some, [], ◌∷◌, ◌++◌,
  All, leb, ◌&&◌, if◌then◌else◌, length, take, eq_bytes, arith,
}
use pysubunit.Std.Format.{codes, decimal}
use pysubunit.Std.Regex.{re_match, match_at, Groups, many, optional, literal, group, some_of, ◌⨟◌}
use pysubunit.Std.Words.{is_text_space}
use pysubunit.Std.Format.Decimals.{
  IsDecimal, value_from, decimal-IsDecimal, decimal-some, value_from-decimal,
}
use pysubunit.Std.Regex.Ways.{
  way, follows_way, optional_way, first_way, group_way, char_way, many_way, literal-Way, second_way,
  literal-none, take-group,
}
use pysubunit.V2.Types.{Text}
use pysubunit.Tap.Lines.{
  TestLine, not_newline, found, plan_parts, test_parts, description_pattern, is_digit, int_loop,
  plan_pattern, plan_of, test_pattern, test_of,
}

-- Unicode's decimal digits among the characters of ASCII.
abbrev pub AsciiDigits : (ℕ → Option ℕ) → Type 0
AsciiDigits digit =
    (c : ℕ) → c < 128 → digit c ≡ (if leb b'0' c && leb c b'9' then some (c - b'0') else none)

-- A plan, and the line of a test.
abbrev pub printed_plan : ℕ → Text
printed_plan n = codes "1.." ++ (decimal n ++ codes "\n")

abbrev pub printed_word : Bool → Text
printed_word true = codes "ok"
printed_word false = codes "not ok"

abbrev pub printed_test : Bool → ℕ → Text
printed_test is_ok n = printed_word is_ok ++ (codes " " ++ (decimal n ++ codes "\n"))

abbrev pub parsed_test : Bool → ℕ → TestLine
parsed_test is_ok n = record {
  is_ok = is_ok;
  number = some n;
  description = none;
  directive = none;
  comment = none;
}

abbrev last : Text → Groups → Option Groups
last rest groups = some groups

module _ (digit : ℕ → Option ℕ) (ascii : AsciiDigits digit) where
  digit-decimal : (c : ℕ) → IsDecimal c → digit c ≡ some (c - b'0')
  digit-decimal c (p, q) = ascii c (omega arith) ∙ ground arith

  int_loop-value_from :
      (xs : Text) (n : ℕ) → All IsDecimal xs → int_loop digit n xs ≡ value_from n xs
  unfolding int_loop value_from
  int_loop-value_from [] n a = refl
  int_loop-value_from (x ∷ xs) n (d, a) =
      rw (digit-decimal x d) (int_loop-value_from xs (n * 10 + (x - b'0')) a)

  are_digits : (xs : Text) → All IsDecimal xs → All (λ c. is_digit digit c ≡ true) xs
  are_digits [] a = tt
  are_digits (x ∷ xs) (d, a) = (rw (digit-decimal x d) refl, are_digits xs a)

  no_digit : (c : ℕ) → c < 48 → is_digit digit c ≡ false
  no_digit c h = rw (ascii c (omega arith)) (ground arith)

  plan_end :
      (groups : Groups)
      → match_at
          (many is_text_space
            ⨟ optional (literal (codes "#") ⨟ some_of is_text_space ⨟ group 3 (many not_newline))
            ⨟ literal (codes "\n"))
          (codes "\n")
          groups
          last
        ≡ some groups
  unfolding match_at
  plan_end groups = refl

  plan_groups :
      (d : ℕ) (ds : Text)
      → All IsDecimal (d ∷ ds)
      → match_at (plan_pattern digit) (codes "1.." ++ ((d ∷ ds) ++ codes "\n")) [] last
        ≡ some (
            (2, take (length ((d ∷ ds) ++ codes "\n") - 1) ((d ∷ ds) ++ codes "\n"))
            ∷ (
              1,
              take
                  (length (codes "1.." ++ ((d ∷ ds) ++ codes "\n"))
                    - length (codes ".." ++ ((d ∷ ds) ++ codes "\n")))
                  (codes "1.." ++ ((d ∷ ds) ++ codes "\n")),
            )
            ∷ [])
  plan_groups d ds a =
      let all = are_digits (d ∷ ds) a in
      way (
        follows_way (
          group_way (
            follows_way (
              char_way (are_digits (codes "1") (((omega arith, omega arith)), tt)).0 (
                way (
                  many_way [] (codes ".." ++ ((d ∷ ds) ++ codes "\n")) tt
                    (no_digit 46 (omega arith))
                    (way (
                      follows_way (
                        literal-Way (codes "..") ((d ∷ ds) ++ codes "\n") (
                          way (
                            follows_way (
                              group_way (
                                follows_way (
                                  char_way all.0 (
                                    way (
                                      many_way ds (codes "\n") all.1 (no_digit 10 (omega arith))
                                        (plan_end _)))))))))))))))))

  plan_of-digits :
      (cs : Text)
      → All IsDecimal cs
      → 0 < length cs
      → plan_of digit (codes "1.." ++ (cs ++ codes "\n")) ≡ some (value_from 0 cs, none)
  unfolding plan_of re_match
  plan_of-digits [] a h = absurd (omega arith)
  plan_of-digits (d ∷ ds) a h =
      ap (found (plan_parts digit)) (plan_groups d ds a)
      ∙ ap (λ cs. some (int_loop digit 0 cs, none)) (take-group (d ∷ ds) (codes "\n"))
      ∙ ap (λ n. some (n, none)) (int_loop-value_from (d ∷ ds) 0 a)

  pub plan_of-printed_plan : (n : ℕ) → plan_of digit (printed_plan n) ≡ some (n, none)
  plan_of-printed_plan n =
      plan_of-digits (decimal n) (decimal-IsDecimal n) (decimal-some n)
      ∙ ap (λ m. some (m, none)) (value_from-decimal n)

  test_end : (groups : Groups) → match_at description_pattern (codes "\n") groups last ≡ some groups
  unfolding match_at
  test_end groups = refl

  not_space : (c : ℕ) → IsDecimal c → is_text_space c ≡ false
  not_space c (p, q) = ground arith

  number_way :
      (d : ℕ) (ds : Text) (groups : Groups)
      → All IsDecimal (d ∷ ds)
      → match_at
          (optional (some_of is_text_space ⨟ optional (group 2 (some_of (is_digit digit))))
            ⨟ description_pattern)
          (codes " " ++ ((d ∷ ds) ++ codes "\n"))
          groups
          last
        ≡ some ((2, take (length ((d ∷ ds) ++ codes "\n") - 1) ((d ∷ ds) ++ codes "\n")) ∷ groups)
  number_way d ds groups a =
      let all = are_digits (d ∷ ds) a in
      way (
        follows_way (
          optional_way (
            follows_way (
              follows_way (
                char_way refl (
                  way (
                    many_way [] ((d ∷ ds) ++ codes "\n") tt (not_space d a.0) (
                      way (
                        optional_way (
                          group_way (
                            follows_way (
                              char_way all.0 (
                                way (
                                  many_way ds (codes "\n") all.1 (no_digit 10 (omega arith))
                                    (test_end _)))))))))))))))

  abbrev captured : Text → Text → Text
  captured word rest = take (length (word ++ rest) - length rest) (word ++ rest)

  test_groups :
      (is_ok : Bool) (rest : Text) (found : Groups)
      → match_at
          (optional (some_of is_text_space ⨟ optional (group 2 (some_of (is_digit digit))))
            ⨟ description_pattern)
          rest
          ((1, captured (printed_word is_ok) rest) ∷ [])
          last
        ≡ some found
      → match_at (test_pattern digit) (printed_word is_ok ++ rest) [] last ≡ some found
  test_groups true rest found e =
      way (follows_way (group_way (first_way (literal-Way (codes "ok") rest e))))
  test_groups false rest found e = way (
      follows_way (
        group_way (
          second_way (literal-none 111 (codes "k") 110 (codes "ot ok" ++ rest) [] _ refl)
            (literal-Way (codes "not ok") rest e))))

  parts_of-word :
      (is_ok : Bool) (ds : Text) (text : Text)
      → test_parts digit ((2, text) ∷ (1, captured (printed_word is_ok) ds) ∷ [])
        ≡ parsed_test is_ok (int_loop digit 0 text)
  unfolding eq_bytes
  parts_of-word true ds text = rw (take-group (codes "ok") ds) refl
  parts_of-word false ds text = rw (take-group (codes "not ok") ds) refl

  test_of-digits :
      (is_ok : Bool) (cs : Text)
      → All IsDecimal cs
      → 0 < length cs
      → test_of digit (printed_word is_ok ++ (codes " " ++ (cs ++ codes "\n")))
        ≡ some (parsed_test is_ok (value_from 0 cs))
  unfolding test_of re_match
  test_of-digits is_ok [] a h = absurd (omega arith)
  test_of-digits is_ok (d ∷ ds) a h =
      let rest = codes " " ++ ((d ∷ ds) ++ codes "\n") in
      ap (found (test_parts digit)) (test_groups is_ok rest _ (number_way d ds _ a))
      ∙ ap some (parts_of-word is_ok rest (captured (d ∷ ds) (codes "\n")))
      ∙ ap (λ cs. some (parsed_test is_ok (int_loop digit 0 cs))) (take-group (d ∷ ds) (codes "\n"))
      ∙ ap (λ n. some (parsed_test is_ok n)) (int_loop-value_from (d ∷ ds) 0 a)

  pub test_of-printed_test :
      (is_ok : Bool) (n : ℕ) → test_of digit (printed_test is_ok n) ≡ some (parsed_test is_ok n)
  test_of-printed_test is_ok n =
      test_of-digits is_ok (decimal n) (decimal-IsDecimal n) (decimal-some n)
      ∙ ap (λ m. some (parsed_test is_ok m)) (value_from-decimal n)
