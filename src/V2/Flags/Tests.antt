-- ===== src/V2/Flags/Tests.antt =====
-- The parser's tests on a flag word that the writer made.
use pysubunit.Prelude.{
  ℕ, ◌≡◌, refl, ap, ◌∙◌, ==_iff, Bool, true, false, Option, none, some, bit_and, ltb, ◌<◌, ◌&&◌,
  and-true, arith, ◌==◌, not,
}
use pysubunit.V2.Types.{TestStatus, exists, inprogress, success, uxsuccess, skip, fail, xfail}
use pysubunit.V2.Flags.{
  flag_test_id, flag_route_code, flag_timestamp, flag_runnable, flag_tags, flag_mime_type, flag_eof,
  flag_file_content, status_mask, status_lookup, Parts, flag_word, test_flag,
}

-- What the tests on `flags` give back: the parts, the status, and that two bytes hold the word.
pub record IsWordOf (p : Parts) (status : Option TestStatus) (flags : ℕ) : Type 0 where
  pub timestamp : test_flag flags flag_timestamp ≡ p.has_timestamp
  pub test_id : test_flag flags flag_test_id ≡ p.has_test_id
  pub tags : test_flag flags flag_tags ≡ p.has_tags
  pub runnable : test_flag flags flag_runnable ≡ p.is_runnable
  pub mime_type : test_flag flags flag_mime_type ≡ p.has_mime_type
  pub file : test_flag flags flag_file_content ≡ p.has_file
  pub eof : test_flag flags flag_eof ≡ p.is_eof
  pub route_code : test_flag flags flag_route_code ≡ p.has_route_code
  pub status_of : status_lookup (bit_and flags 0x0007) ≡ status
  pub fits : flags < 65536

abbrev parts : (a b c d e f g h : Bool) → Parts
parts a b c d e f g h = record {
  has_timestamp = a;
  has_test_id = b;
  has_tags = c;
  is_runnable = d;
  has_mime_type = e;
  has_file = f;
  is_eof = g;
  has_route_code = h;
}

abbrev same : Bool → Bool → Bool
same true b = b
same false b = not b

same_sound : (a b : Bool) → same a b ≡ true → a ≡ b
same_sound true true h = refl
same_sound true false h = cc
same_sound false true h = cc
same_sound false false h = refl

-- Every test on one word.
word_check : Parts → Option TestStatus → ℕ → Bool
word_check p status flags =
    same (test_flag flags flag_timestamp) p.has_timestamp
    && (same (test_flag flags flag_test_id) p.has_test_id
        && (same (test_flag flags flag_tags) p.has_tags
            && (same (test_flag flags flag_runnable) p.is_runnable
                && (same (test_flag flags flag_mime_type) p.has_mime_type
                    && (same (test_flag flags flag_file_content) p.has_file
                        && (same (test_flag flags flag_eof) p.is_eof
                            && (same (test_flag flags flag_route_code) p.has_route_code
                                && (bit_and flags 0x0007 == status_mask status
                                    && ltb flags 65536))))))))

status_lookup-status_mask :
    (status : Option TestStatus) → status_lookup (status_mask status) ≡ status
unfolding status_lookup status_mask
status_lookup-status_mask none = refl
status_lookup-status_mask (some exists) = refl
status_lookup-status_mask (some inprogress) = refl
status_lookup-status_mask (some success) = refl
status_lookup-status_mask (some uxsuccess) = refl
status_lookup-status_mask (some skip) = refl
status_lookup-status_mask (some fail) = refl
status_lookup-status_mask (some xfail) = refl

word_check_sound :
    (p : Parts) (status : Option TestStatus) (w : ℕ)
    → word_check p status w ≡ true
    → IsWordOf p status w
unfolding word_check
word_check_sound p status w h =
    let (h₁, r₁) = and-true _ _ h in
    let (h₂, r₂) = and-true _ _ r₁ in
    let (h₃, r₃) = and-true _ _ r₂ in
    let (h₄, r₄) = and-true _ _ r₃ in
    let (h₅, r₅) = and-true _ _ r₄ in
    let (h₆, r₆) = and-true _ _ r₅ in
    let (h₇, r₇) = and-true _ _ r₆ in
    let (h₈, r₈) = and-true _ _ r₇ in
    let (h₉, r₉) = and-true _ _ r₈ in
    record {
      timestamp = same_sound _ _ h₁;
      test_id = same_sound _ _ h₂;
      tags = same_sound _ _ h₃;
      runnable = same_sound _ _ h₄;
      mime_type = same_sound _ _ h₅;
      file = same_sound _ _ h₆;
      eof = same_sound _ _ h₇;
      route_code = same_sound _ _ h₈;
      status_of = ap status_lookup ((==_iff _ _).0 h₉) ∙ status_lookup-status_mask status;
      fits = ground arith;
    }

both : (Bool → Bool) → Bool
both p = p true && p false

both_sound : (p : Bool → Bool) → both p ≡ true → (b : Bool) → p b ≡ true
unfolding both
both_sound p h true = ground arith
both_sound p h false = ground arith

-- All words with a status.
all_words : Option TestStatus → Bool
unfolding word_check flag_word test_flag status_mask
all_words status = both λ a. both λ b. both λ c. both λ d. both λ e. both λ f.
    both λ g. both λ h. let p = parts a b c d e f g h in word_check p status (flag_word p status)

all_words-true : (status : Option TestStatus) → all_words status ≡ true
unfolding all_words both
all_words-true none = refl
all_words-true (some exists) = refl
all_words-true (some inprogress) = refl
all_words-true (some success) = refl
all_words-true (some uxsuccess) = refl
all_words-true (some skip) = refl
all_words-true (some fail) = refl
all_words-true (some xfail) = refl

-- Every word that the writer makes answers the parser's tests with the parts it was made from.
pub flag_word-IsWordOf :
    (p : Parts) (status : Option TestStatus) → IsWordOf p status (flag_word p status)
flag_word-IsWordOf p status = word_check_sound p status (flag_word p status) (
    unfold all_words in
    both_sound _
      (both_sound _
        (both_sound _
          (both_sound _
            (both_sound _
              (both_sound _
                (both_sound _ (both_sound _ (all_words-true status) p.has_timestamp) p.has_test_id)
                p.has_tags)
              p.is_runnable)
            p.has_mime_type)
          p.has_file)
        p.is_eof)
      p.has_route_code)
