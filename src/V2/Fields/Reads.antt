-- ===== src/V2/Fields/Reads.antt =====
-- Reading back what the writer wrote, part by part.
use pysubunit.Prelude.{
  ℕ, ◌+◌, ◌≡◌, ◌≢◌, refl, sym, subst, ap, ◌∙◌, true, false, Option, none, some, [], ◌∷◌, ◌++◌,
  arith, append_assoc, append-nil, length, drop, All, length-append, take-append, drop-append,
  drop-drop,
}
use pysubunit.Std.Utf8
use pysubunit.Std.Utf8.RoundTrip.{decode-encode, encode_no_nul}
use pysubunit.V2.Types.{Text, Bytes, Result, ok, ok-injective}
use pysubunit.V2.Number.{encode_number}
use pysubunit.V2.Number.RoundTrip.{encode_number-ok, parse_varint-number}
use pysubunit.V2.Writer.{write_utf8}
use pysubunit.V2.Fields.{Reader, pure, ◌>>=◌, read_varint, has_nul, read_text, read_utf8, read_if}

abbrev pub NoNul : Text → Type 0
NoNul t = All (λ c. c ≢ 0) t

-- Where these bytes stand, the reader returns this value and goes on behind them.
pub record Reads {ℓ} {A : Type ℓ} (m : Reader A) (written : Bytes) (a : A) : Type ℓ where
  pub at :
      (body rest : Bytes) (at : ℕ)
      → drop at body ≡ written ++ rest
      → m body at ≡ ok (a, at + length written)

pub Reads-pure {ℓ} : {A : Type ℓ} (a : A) → Reads (pure a) [] a
unfolding pure
Reads-pure a = record { at = λ body rest at h. ground arith }

pub Reads-bind {ℓ κ} :
    {A : Type ℓ} {B : Type κ} (m : Reader A) (f : A → Reader B) (x y : Bytes) (a : A) (b : B)
    → Reads m x a
    → Reads (f a) y b
    → Reads (m >>= f) (x ++ y) b
unfolding ◌>>=◌
Reads-bind m f x y a b hm hf = record {
  at = λ body rest at h.
      let h' : drop at body ≡ x ++ (y ++ rest) = h ∙ append_assoc x y rest in
      let there : drop (at + length x) body ≡ y ++ rest =
        drop-drop at (length x) body ∙ ap (drop (length x)) h' ∙ drop-append x (y ++ rest) in
      rw (hm.at body (y ++ rest) at h') (
        hf.at body rest (at + length x) there
        ∙ ap (λ n. ok (b, n)) (omega (arith, length-append x y)));
}

pub Reads-varint : (v : ℕ) (bs : Bytes) → encode_number v ≡ ok bs → Reads read_varint bs v
unfolding read_varint
Reads-varint v bs h =
    let (fits, e) = encode_number-ok v bs h in
    record {
      at = λ body rest at k.
          rw (parse_varint-number false v body rest at fits (λ p. cc) (rw e at k))
            (ground (arith, e));
    }

has_nul-false : (bs : Bytes) → All (λ b. b ≢ 0) bs → has_nul bs ≡ false
unfolding has_nul
has_nul-false [] h = refl
has_nul-false (b ∷ bs) h = ground (arith, h.0, has_nul-false bs h.1)

Reads-text :
    (t utf8 : Text)
    → All (λ c. c ≢ 0) t
    → Utf8.encode t ≡ some utf8
    → Reads (read_text (length utf8)) utf8 t
unfolding read_text
Reads-text t utf8 n e = record {
  at = λ body rest at k.
      rw (k, take-append utf8 rest)
        (ground (arith, has_nul-false utf8 (encode_no_nul t utf8 n e), decode-encode t utf8 e));
}

write_utf8-ok :
    (t : Text) (bs : Bytes)
    → write_utf8 t ≡ ok bs
    → (utf8 : Bytes) × (size : Bytes) × (Utf8.encode t ≡ some utf8)
      × (encode_number (length utf8) ≡ ok size)
      × (bs ≡ size ++ utf8)
unfolding write_utf8
write_utf8-ok t bs h = ground arith

pub Reads-utf8 :
    (t : Text) (bs : Bytes) → All (λ c. c ≢ 0) t → write_utf8 t ≡ ok bs → Reads read_utf8 bs t
unfolding read_utf8
Reads-utf8 t bs n h =
    let (utf8, size, h₁, h₂, e) = write_utf8-ok t bs h in
    subst (λ b. Reads (read_varint >>= read_text) b t) (sym e)
      (Reads-bind read_varint read_text size utf8 (length utf8) t
        (Reads-varint (length utf8) size h₂) (Reads-text t utf8 n h₁))

-- A part behind its flag.
pub Reads-some {ℓ} :
    {A : Type ℓ} (m : Reader A) (bs : Bytes) (a : A)
    → Reads m bs a
    → Reads (read_if true m) bs (some a)
unfolding read_if
Reads-some m bs a h =
    subst (λ b. Reads (m >>= λ x. pure (some x)) b (some a)) (append-nil bs)
      (Reads-bind m _ bs [] a (some a) h (Reads-pure (some a)))

pub Reads-none {ℓ} :
    {A : Type ℓ} (m : Reader A) (bs : Bytes)
    → ◌≡◌ {A = Result Bytes} (ok []) (ok bs)
    → Reads (read_if false m) bs none
unfolding read_if
Reads-none {A} m bs h =
    subst (λ b. Reads {A = Option A} (pure none) b none) (ok-injective h) (Reads-pure none)
