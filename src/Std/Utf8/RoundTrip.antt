-- ===== src/Std/Utf8/RoundTrip.antt =====
-- Decoding what was encoded, and where NUL bytes come from.
use pysubunit.Prelude.{
  ℕ, zero, suc, ◌≤◌, ◌≡◌, ◌≢◌, refl, sym, subst, ap, ◌∙◌, some, List, [], ◌∷◌, ◌++◌, arith, length,
  All, length-append, drop-append, All-append, append_assoc,
}
use pysubunit.Std.Utf8.{char, prepend, encode_char, encode, front, decode_loop, decode}

-- The front of an encoded character is that character, whatever follows.
front-encode_char :
    (c : ℕ) (bs rest : List ℕ)
    → encode_char c ≡ some bs
    → (a : ℕ) × (tail : List ℕ) × (bs ≡ a ∷ tail) × (front a (tail ++ rest) ≡ char c (length bs))
unfolding encode_char front
front-encode_char c [] rest h = ground arith
front-encode_char c (a ∷ []) rest h = (a, [], refl, ground arith)
front-encode_char c (a ∷ b ∷ []) rest h = (a, b ∷ [], refl, ground arith)
front-encode_char c (a ∷ b ∷ d ∷ []) rest h = (a, b ∷ d ∷ [], refl, ground arith)
front-encode_char c (a ∷ b ∷ d ∷ e ∷ []) rest h = (a, b ∷ d ∷ e ∷ [], refl, ground arith)
front-encode_char c (a ∷ b ∷ d ∷ e ∷ f ∷ l) rest h = ground arith

encode-cons :
    (c : ℕ) (cs bs : List ℕ)
    → encode (c ∷ cs) ≡ some bs
    → (x : List ℕ) × (y : List ℕ) × (encode_char c ≡ some x) × (encode cs ≡ some y) × (bs ≡ x ++ y)
unfolding encode
encode-cons c cs bs h = ground arith

decode_loop-char :
    (fuel c : ℕ) (x y : List ℕ)
    → encode_char c ≡ some x
    → decode_loop (suc fuel) (x ++ y) ≡ prepend c (length x) (decode_loop fuel y)
unfolding decode_loop
decode_loop-char fuel c [] y h = unfold encode_char in ground arith
decode_loop-char fuel c (b ∷ bs) y h =
    let (a, tail, ea, fr) = front-encode_char c (b ∷ bs) y h in
    ground (arith, ea, fr, drop-append (b ∷ bs) y)

char_takes_one : (c : ℕ) (x : List ℕ) → encode_char c ≡ some x → 1 ≤ length x
unfolding encode_char
char_takes_one c x h = ground arith

-- An encoded text decodes to itself, all its bytes consumed.
decode_loop-encode :
    (fuel : ℕ) (cs bs : List ℕ)
    → encode cs ≡ some bs
    → length bs ≤ fuel
    → decode_loop fuel bs ≡ some (cs, length bs)
decode_loop-encode zero [] bs h k = unfold encode decode_loop in ground arith
decode_loop-encode (suc fuel) [] bs h k = unfold encode decode_loop in ground arith
decode_loop-encode zero (c ∷ cs) bs h k =
    let (x, y, ex, ey, eb) = encode-cons c cs bs h in
    absurd (omega (arith, char_takes_one c x ex, ap length eb, length-append x y))
decode_loop-encode (suc fuel) (c ∷ cs) bs h k =
    let (x, y, ex, ey, eb) = encode-cons c cs bs h in
    ground (
      arith,
      eb,
      char_takes_one c x ex,
      length-append x y,
      decode_loop-char fuel c x y ex,
      decode_loop-encode fuel cs y ey,
    )

pub decode-encode : (cs bs : List ℕ) → encode cs ≡ some bs → decode bs ≡ some (cs, length bs)
unfolding decode
decode-encode cs bs h = decode_loop-encode (length bs) cs bs h (omega arith)

char_no_nul : (c : ℕ) (x : List ℕ) → c ≢ 0 → encode_char c ≡ some x → All (λ b. b ≢ 0) x
unfolding encode_char
char_no_nul c [] n h = ground arith
char_no_nul c (a ∷ []) n h = ground arith
char_no_nul c (a ∷ b ∷ []) n h = ground arith
char_no_nul c (a ∷ b ∷ d ∷ []) n h = ground arith
char_no_nul c (a ∷ b ∷ d ∷ e ∷ []) n h = ground arith
char_no_nul c (a ∷ b ∷ d ∷ e ∷ f ∷ l) n h = ground arith

-- A text with no NUL character has no NUL byte.
pub encode_no_nul :
    (cs bs : List ℕ) → All (λ c. c ≢ 0) cs → encode cs ≡ some bs → All (λ b. b ≢ 0) bs
encode_no_nul [] [] n h = tt
encode_no_nul [] (b ∷ bs) n h = unfold encode in ground arith
encode_no_nul (c ∷ cs) bs n h =
    let (x, y, ex, ey, eb) = encode-cons c cs bs h in
    subst (All (λ b. b ≢ 0)) (sym eb)
      (All-append _ x y (char_no_nul c x n.0 ex) (encode_no_nul cs y n.1 ey))

pub encode-append :
    (xs ys a b : List ℕ)
    → encode xs ≡ some a
    → encode ys ≡ some b
    → encode (xs ++ ys) ≡ some (a ++ b)
unfolding encode
encode-append [] ys a b h k = let e : [] ≡ a = cc in subst (λ z. encode ys ≡ some (z ++ b)) e k
encode-append (c ∷ cs) ys a b h k =
    let (x, y, ex, ey, ea) = encode-cons c cs a h in
    rw (ex, encode-append cs ys y b ey k)
      (ap some (sym (append_assoc x y b) ∙ ap (λ z. z ++ b) (sym ea)))
