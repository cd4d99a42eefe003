-- ===== src/Chunked/Decoder/Open.antt =====
-- The decoder on a header that comes in fragments.
use pysubunit.Prelude.{
  ℕ, zero, suc, ◌+◌, ◌-◌, ◌≤◌, ◌<◌, ◌≡◌, ◌⊎◌, inl, inr, refl, sym, subst, ap, ◌∙◌, ◌==◌, true,
  false, List, [], ◌∷◌, ◌++◌, arith, length, length-append, drop, eq_bytes, All, All-append,
  append-nil, append_assoc,
}
use pysubunit.Std.Format.{codes, hex_upper}
use pysubunit.Std.Hex.Headers.{IsDigit, hex_upper-IsDigit}
use pysubunit.V2.Types.{Bytes}
use pysubunit.Chunked.Encoder.{join, chunk_header}
use pysubunit.Chunked.Decoder.{
  Decoder, stop, nothing, line_chars, count_chars, drop_bytes, turn_read_length, matches, sized,
}
use pysubunit.Chunked.Decoder.Sizes.{
  remaining, turn_counted, chunk_header-IsHeader, drop_bytes-remaining, digit-matches,
  digit-ne_newline,
}

-- One text cut in two ways: the first cut comes before the second, or not.
pub cut_twice :
    (x s v a : Bytes)
    → x ++ s ≡ v ++ a
    → ((w : Bytes) × (0 < length w) × (x ++ w ≡ v) × (s ≡ w ++ a))
      ⊎ ((w : Bytes) × (x ≡ v ++ w) × (w ++ s ≡ a))
cut_twice [] s [] a e = inr ([], refl, e)
cut_twice [] s (b ∷ v) a e = inl (b ∷ v, omega arith, refl, e)
cut_twice (c ∷ x) s [] a e = inr (c ∷ x, refl, e)
cut_twice (c ∷ x) s (b ∷ v) a e =
    let same : c ≡ b = cc in
    let rest : x ++ s ≡ v ++ a = cc in
    elim (cut_twice x s v a rest) [
      | inl (w, p, f, g) ↦ inl (w, p, ap₂-cons same f, g)
      | inr (w, f, g) ↦ inr (w, ap₂-cons same f, g)
    ]
  where
    ap₂-cons : {c b : ℕ} {xs ys : Bytes} → c ≡ b → xs ≡ ys → (c ∷ xs) ≡ (b ∷ ys)
    ap₂-cons p q = cc

-- A character that a header may hold and that does not end it.
abbrev pub IsOpen : ℕ → Type 0
IsOpen c = (matches c ≡ true) × ((c == 10) ≡ false)

digits-IsOpen : (cs : Bytes) → All IsDigit cs → All IsOpen cs
digits-IsOpen [] a = tt
digits-IsOpen (c ∷ cs) (d, a) = ((digit-matches c d, digit-ne_newline c d), digits-IsOpen cs a)

pub All-front : (xs ys : Bytes) → All IsOpen (xs ++ ys) → All IsOpen xs
All-front [] ys a = tt
All-front (x ∷ xs) ys (p, a) = (p, All-front xs ys a)

pub All-back : (xs ys : Bytes) → All IsOpen (xs ++ ys) → All IsOpen ys
All-back [] ys a = a
All-back (x ∷ xs) ys (p, a) = All-back xs ys a

line_chars-open : (cs : Bytes) → All IsOpen cs → line_chars cs ≡ cs
unfolding line_chars
line_chars-open [] a = refl
line_chars-open (c ∷ cs) ((m, n), a) = rw (m, n, line_chars-open cs a)

line_chars-line : (cs rest : Bytes) → All IsOpen cs → line_chars (cs ++ 10 ∷ rest) ≡ cs ++ 10 ∷ []
unfolding line_chars
line_chars-line [] rest a = refl
line_chars-line (c ∷ cs) rest ((m, n), a) = rw (m, n, line_chars-line cs rest a)

count_chars-open :
    (fs : List Bytes) (x : Bytes)
    → All IsOpen (join fs)
    → count_chars (fs ++ x ∷ []) ≡ join fs ++ line_chars x
unfolding count_chars join
count_chars-open [] x a = append-nil (line_chars x)
count_chars-open (f ∷ fs) x a =
    rw (line_chars-open f (All-front f (join fs) a), count_chars-open fs x (All-back f (join fs) a))
      (sym (append_assoc f (join fs) (line_chars x)))

last-open : (k : ℕ) (cs : Bytes) → All IsOpen cs → eq_bytes (drop k cs) (codes "\n") ≡ false
unfolding eq_bytes
last-open zero [] a = refl
last-open zero (c ∷ cs) ((m, n), a) = rw n
last-open (suc k) [] a = refl
last-open (suc k) (c ∷ cs) (p, a) = last-open k cs a

-- What a header is made of, where it is cut.
pub record IsCut (u v : Bytes) : Type 0 where
  pub before : Bytes
  pub ends : v ≡ before ++ 10 ∷ []
  pub open_front : All IsOpen u
  pub open_before : All IsOpen before

open_part : ℕ → Bytes
open_part n = hex_upper n ++ 13 ∷ []

chunk_header-open : (n : ℕ) → chunk_header n ≡ open_part n ++ 10 ∷ []
unfolding open_part
chunk_header-open n = sym (append_assoc (hex_upper n) (13 ∷ []) (10 ∷ []))

open_part-IsOpen : (n : ℕ) → All IsOpen (open_part n)
unfolding open_part
open_part-IsOpen n =
    All-append IsOpen (hex_upper n) (13 ∷ []) (digits-IsOpen (hex_upper n) (hex_upper-IsDigit n))
      ((refl, refl), tt)

IsCut-before : (u v o : Bytes) → All IsOpen o → u ++ v ≡ o ++ 10 ∷ [] → 0 < length v → IsCut u v
IsCut-before u v o a e p = elim (cut_twice u v o (10 ∷ []) e) [
  | inl (w, q, f, g) ↦ record {
    before = w;
    ends = g;
    open_front = All-front u w (subst (All IsOpen) (sym f) a);
    open_before = All-back u w (subst (All IsOpen) (sym f) a);
  }
  | inr (w, f, g) ↦ at_end w f g
]
  where
    at_end : (w : Bytes) → u ≡ o ++ w → w ++ v ≡ 10 ∷ [] → IsCut u v
    at_end [] f g = record {
      before = [];
      ends = g;
      open_front = subst (All IsOpen) (sym (f ∙ append-nil o)) a;
      open_before = tt;
    }
    at_end (c ∷ w) f g = absurd (omega (arith, ap length g, length-append w v))

pub header-IsCut : (n : ℕ) (u v : Bytes) → u ++ v ≡ chunk_header n → 0 < length v → IsCut u v
header-IsCut n u v e p =
    IsCut-before u v (open_part n) (open_part-IsOpen n) (e ∙ chunk_header-open n) p

-- Without the end of the header the decoder waits.
pub turn-open :
    (d : Decoder) (fs : List Bytes) (x : Bytes)
    → d.buffered_bytes ≡ fs ++ x ∷ []
    → All IsOpen (join fs)
    → All IsOpen x
    → turn_read_length d ≡ stop d nothing
unfolding turn_read_length
turn-open d fs x e a b =
    let counted : count_chars d.buffered_bytes ≡ join fs ++ x =
      ap count_chars e ∙ count_chars-open fs x a ∙ ap (λ cs. join fs ++ cs) (line_chars-open x b) in
    rw (
      counted,
      last-open (length (join fs ++ x) - 1) (join fs ++ x) (All-append IsOpen (join fs) x a b),
    )

drop_bytes-cons :
    (n : ℕ) (f : Bytes) (fs : List Bytes)
    → length f ≤ n
    → 0 < n
    → drop_bytes n (f ∷ fs) ≡ drop_bytes (n - length f) fs
unfolding drop_bytes
drop_bytes-cons n f fs h p = ground arith

drop_bytes-fragments :
    (fs : List Bytes) (v w : Bytes)
    → 0 < length v
    → drop_bytes (length (join fs ++ v)) (fs ++ (v ++ w) ∷ []) ≡ remaining w
unfolding join
drop_bytes-fragments [] v w p = drop_bytes-remaining v w p
drop_bytes-fragments (f ∷ fs) v w p =
    let n = length ((f ++ join fs) ++ v) in
    let total : n ≡ length f + length (join fs ++ v) =
      ap length (append_assoc f (join fs) v) ∙ length-append f (join fs ++ v) in
    drop_bytes-cons n f (fs ++ (v ++ w) ∷ []) (omega arith)
      (omega (arith, length-append (join fs) v))
    ∙ ap (λ m. drop_bytes m (fs ++ (v ++ w) ∷ [])) (omega arith)
    ∙ drop_bytes-fragments fs v w p

-- With it, the number is read and what stands behind it stays.
pub turn_complete :
    (d : Decoder) (fs : List Bytes) (v w : Bytes) (n : ℕ)
    → d.buffered_bytes ≡ fs ++ (v ++ w) ∷ []
    → join fs ++ v ≡ chunk_header n
    → 0 < length v
    → turn_read_length d ≡ sized d (remaining w) n
turn_complete d fs v w n e h p =
    let c = header-IsCut n (join fs) v h p in
    let line : line_chars (v ++ w) ≡ v =
      ap (λ (cs : Bytes). line_chars (cs ++ w)) c.ends
      ∙ ap line_chars (append_assoc c.before (10 ∷ []) w)
      ∙ line_chars-line c.before w c.open_before
      ∙ sym c.ends in
    let counted : count_chars d.buffered_bytes ≡ chunk_header n =
      ap count_chars e
      ∙ count_chars-open fs (v ++ w) c.open_front
      ∙ ap (λ cs. join fs ++ cs) line
      ∙ h in
    turn_counted d (chunk_header n) n counted (chunk_header-IsHeader n)
    ∙ ap (λ bs. sized d bs n)
        (ap (λ cs. drop_bytes (length cs) d.buffered_bytes) (sym h)
          ∙ ap (drop_bytes (length (join fs ++ v))) e
          ∙ drop_bytes-fragments fs v w p)
