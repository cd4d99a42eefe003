-- ===== src/Chunked/Decoder/Sizes.antt =====
-- The decoder on a header that the encoder writes.
use pysubunit.Prelude.{
  ℕ, ◌-◌, ◌<◌, ◌≡◌, inl, inr, refl, sym, ap, ◌∙◌, ◌==◌, true, false, some, List, [], ◌∷◌, ◌++◌,
  arith, length, length-append, take-append_of_eq, drop-append_of_eq, drop-append, eq_bytes, All,
  append-nil, append_assoc,
}
use pysubunit.Std.Format.{codes, hex_upper}
use pysubunit.Std.Hex.{int_16, rstrip}
use pysubunit.Std.Hex.Headers.{IsDigit, hex_upper-IsDigit, rstrip-digits, int_16-hex_upper}
use pysubunit.V2.Types.{Bytes}
use pysubunit.Chunked.Encoder.{chunk_header}
use pysubunit.Chunked.Decoder.{
  Decoder, count_chars, drop_bytes, turn_read_length, last_of, before_last, has_cr, is_newline,
  matches, sized,
}

pub digit-matches : (c : ℕ) → IsDigit c → matches c ≡ true
digit-matches c (inl d) = ground arith
digit-matches c (inr d) = ground arith

digit-is_newline : (c : ℕ) → IsDigit c → is_newline c ≡ false
digit-is_newline c (inl d) = ground arith
digit-is_newline c (inr d) = ground arith

pub digit-ne_newline : (c : ℕ) → IsDigit c → (c == 10) ≡ false
digit-ne_newline c (inl d) = ground arith
digit-ne_newline c (inr d) = ground arith

digit-ne_cr : (c : ℕ) → IsDigit c → (c == 13) ≡ false
digit-ne_cr c (inl d) = ground arith
digit-ne_cr c (inr d) = ground arith

has_cr-digits : (cs : Bytes) → All IsDigit cs → has_cr cs ≡ false
unfolding has_cr
has_cr-digits [] a = refl
has_cr-digits (c ∷ cs) (d, a) = rw (digit-ne_cr c d, has_cr-digits cs a)

-- What the decoder asks of the characters that it has counted.
pub record IsHeader (header : Bytes) (n : ℕ) : Type 0 where
  ends_line : last_of 1 header ≡ codes "\n"
  ends_cr : last_of 2 header ≡ codes "\r\n"
  no_cr : has_cr (before_last 2 header) ≡ false
  number : int_16 (rstrip is_newline header) ≡ some n

pub turn_counted :
    (d : Decoder) (header : Bytes) (n : ℕ)
    → count_chars d.buffered_bytes ≡ header
    → IsHeader header n
    → turn_read_length d ≡ sized d (drop_bytes (length header) d.buffered_bytes) n
unfolding turn_read_length eq_bytes
turn_counted d header n e h = rw (e, h.ends_line, h.ends_cr, h.no_cr, h.number) (ground arith)

pub chunk_header-IsHeader : (n : ℕ) → IsHeader (chunk_header n) n
unfolding rstrip
chunk_header-IsHeader n =
    let cs = hex_upper n in
    let split : cs ++ codes "\r\n" ≡ (cs ++ 13 ∷ []) ++ 10 ∷ [] =
      sym (append_assoc cs (13 ∷ []) (10 ∷ [])) in
    record {
      ends_line =
          ap (last_of 1) split
          ∙ drop-append_of_eq (length ((cs ++ 13 ∷ []) ++ 10 ∷ []) - 1) (cs ++ 13 ∷ []) (10 ∷ [])
              (omega (arith, length-append (cs ++ 13 ∷ []) (10 ∷ [])));
      ends_cr =
          drop-append_of_eq (length (cs ++ codes "\r\n") - 2) cs (codes "\r\n")
            (omega (arith, length-append cs (codes "\r\n")));
      no_cr =
          ap has_cr (
            take-append_of_eq (length (cs ++ codes "\r\n") - 2) cs (codes "\r\n")
              (omega (arith, length-append cs (codes "\r\n"))))
          ∙ has_cr-digits cs (hex_upper-IsDigit n);
      number =
          ap int_16
            (rstrip-digits is_newline digit-is_newline cs (codes "\r\n") (hex_upper-IsDigit n) refl)
          ∙ int_16-hex_upper n;
    }

-- The fragment that a fragment leaves behind the part that is used up.
abbrev pub remaining : Bytes → List Bytes
remaining [] = []
remaining (c ∷ cs) = (c ∷ cs) ∷ []

pub drop_bytes-remaining :
    (used rest : Bytes)
    → 0 < length used
    → drop_bytes (length used) ((used ++ rest) ∷ []) ≡ remaining rest
unfolding drop_bytes
drop_bytes-remaining used [] p = ground (arith, length-append used [], append-nil used)
drop_bytes-remaining used (c ∷ cs) p =
    ground (arith, length-append used (c ∷ cs), drop-append used (c ∷ cs))
