-- ===== src/V2/Parser/Errors.antt =====
-- Packets that are not what the writer makes: damaged, cut short, or with a body that ends early.
use pysubunit.Prelude.{
  ℕ, ◌+◌, ◌-◌, ◌/◌, ◌%◌, ◌≤◌, ◌<◌, ◌≡◌, refl, sym, ap, ◌∙◌, [], ◌∷◌, ◌++◌, arith, length,
  length-append, take, drop, true, some, none, ==_refl, take-append_le, length-take, length-drop,
  drop-all, append-nil,
}
use native.Mathlib.Decide.{dec_lt}
use pysubunit.Prelude.Int.{sub_ℕ}
use pysubunit.Std.Struct.{word_bytes, unpack_32}
use pysubunit.V2.Types.{
  Bytes, StatusEvent, ok, err, ParseError, parse_error, short_header, short_packet, struct_error,
}
use pysubunit.V2.Number.{parse_varint}
use pysubunit.V2.Number.RoundTrip.{number_bytes}
use pysubunit.V2.Flags.{flag_timestamp, test_flag}
use pysubunit.V2.Writer.{signature, write_packet}
use pysubunit.V2.Writer.Shape.{middle, checksum_of, checksum-lt, word_of, write_packet-Packet}
use pysubunit.V2.Fields.{read_fields, read_if, read_timestamp, read_word, ◌>>=◌}
use pysubunit.V2.Parser.{
  Parsed, Handled, parse, parse_rest, parse_packet, handle, packet_data, parser_error, with_length,
}
use pysubunit.V2.Parser.RoundTrip.{
  parse-whole, verdict, tail, header, length-tail, header-length, parse-header,
}

abbrev pub reported : Bytes → ParseError → Bytes → Handled
reported packet e source = record {
  events = packet_data packet ∷ parser_error e ∷ [];
  source = source;
  raised = none;
}

-- The two errors of a source that ends too early.
abbrev pub IsShort : ParseError → Type 0
IsShort (short_header n) = Unit
IsShort (short_packet n wanted) = Unit
IsShort _ = ⊥

short_header_of :
    (source : Bytes)
    → length source < 5
    → parse_packet source ≡ reported (signature ∷ source) (short_header (length source)) []
unfolding parse_packet parse
short_header_of [] h = refl
short_header_of (a ∷ []) h = refl
short_header_of (a ∷ b ∷ []) h = refl
short_header_of (a ∷ b ∷ c ∷ []) h = refl
short_header_of (a ∷ b ∷ c ∷ d ∷ []) h = refl
short_header_of (a ∷ b ∷ c ∷ d ∷ e ∷ l) h = absurd (omega arith)

parse_rest-short :
    (flags size consumed : ℕ) (header source : Bytes)
    → 6 ≤ size
    → length source < size - 6
    → parse_rest flags header source (size, consumed) ≡ record {
      packet = signature ∷ header;
      source = [];
      outcome = err (parse_error (short_packet (length source) (sub_ℕ size 6)));
    }
unfolding parse_rest
parse_rest-short flags size consumed header source k h =
    ground (arith, length-take (size - 6) source, drop-all (size - 6) source)

-- The packet is cut behind its first five bytes.
module _ (word size : ℕ) (body : Bytes) (crc x : ℕ) (front back : Bytes)
    (size_of : size ≡ 7 + length (number_bytes size) + length body) (fits : size ≤ 4194303)
    (cut : tail word size body [] crc ≡ front ++ x ∷ back) where
  cut_after_header :
      3 ≤ length front
      → parse_packet (word / 256 ∷ word % 256 ∷ front)
        ≡ reported
            (signature ∷ header word size body [] crc)
            (short_packet (length front - 3) (sub_ℕ size 6))
            []
  unfolding parse_packet
  cut_after_header h = ap (λ (p : Parsed). handle p.packet p.source p.outcome) parsed
    where
      whole_length : length front + 1 + length back + 3 ≡ size
      whole_length = omega (
        arith,
        length-tail word size body [] crc size_of fits,
        ap length cut,
        length-append front (x ∷ back),
      )

      same : take 3 front ≡ take 3 (tail word size body [] crc)
      same = sym (ap (take 3) cut ∙ take-append_le 3 front (x ∷ back) h)

      left : length (drop 3 front) ≡ length front - 3
      left = length-drop 3 front

      parsed : parse (word / 256 ∷ word % 256 ∷ front) ≡ record {
        packet = signature ∷ header word size body [] crc;
        source = [];
        outcome = err (parse_error (short_packet (length front - 3) (sub_ℕ size 6)));
      }
      parsed =
          ap (λ f. parse (word / 256 ∷ word % 256 ∷ f)) (sym (append-nil front))
          ∙ parse-header (word / 256) (word % 256) front [] h
          ∙ ap
              (λ w.
                with_length (word / 256 ∷ word % 256 ∷ take 3 front) (drop 3 front ++ []) w
                  (parse_varint true (word / 256 ∷ word % 256 ∷ take 3 front) 2))
              (omega arith)
          ∙ ap
              (λ d.
                with_length (word / 256 ∷ word % 256 ∷ take 3 front) d word
                  (parse_varint true (word / 256 ∷ word % 256 ∷ take 3 front) 2))
              (append-nil (drop 3 front))
          ∙ ap
              (λ t.
                with_length (word / 256 ∷ word % 256 ∷ t) (drop 3 front) word
                  (parse_varint true (word / 256 ∷ word % 256 ∷ t) 2))
              same
          ∙ ap (with_length (header word size body [] crc) (drop 3 front) word)
              (header-length word size body [] crc size_of fits)
          ∙ parse_rest-short word size _ _ (drop 3 front) (omega (arith, whole_length))
              (omega (arith, left, whole_length))
          ∙ ap
              (λ n. record {
                packet = signature ∷ header word size body [] crc;
                source = [];
                outcome = err (parse_error (short_packet n (sub_ℕ size 6)));
              })
              left

verdict_empty :
    (word crc : ℕ) (bs : Bytes) (at : ℕ)
    → test_flag word flag_timestamp ≡ true
    → drop at bs ≡ []
    → verdict word crc crc bs at ≡ err struct_error
unfolding read_fields read_if ◌>>=◌ read_timestamp read_word unpack_32
verdict_empty word crc bs at h e = rw (==_refl crc, h, e)

-- A stream that ends inside the packet of an accepted call, at any byte behind the signature, makes
-- exactly the two calls of a short read, and leaves nothing unread.
pub parse_packet-truncated :
    (s : StatusEvent) (bs front back : Bytes) (x : ℕ)
    → write_packet s ≡ ok bs
    → bs ≡ signature ∷ (front ++ x ∷ back)
    → (packet : Bytes) × (e : ParseError) × IsShort e × (parse_packet front ≡ reported packet e [])
parse_packet-truncated s bs [] back x h cut = (_, _, tt, short_header_of [] (omega arith))
parse_packet-truncated s bs (a ∷ []) back x h cut =
    (_, _, tt, short_header_of (a ∷ []) (omega arith))
parse_packet-truncated s bs (a ∷ b ∷ front) back x h cut = elim (dec_lt (length front) 3) [
  | yes short ↦ (_, _, tt, short_header_of (a ∷ b ∷ front) (omega arith))
  | no long ↦
      let p = write_packet-Packet s bs h in
      let same = sym cut ∙ p.joined in
      let hi : a ≡ word_of s / 256 = cc in
      let lo : b ≡ word_of s % 256 = cc in
      let w = word_of s in
      (
        _,
        _,
        tt,
        ap (λ z. parse_packet (z ∷ b ∷ front)) hi
            ∙ ap (λ z. parse_packet (w / 256 ∷ z ∷ front)) lo
            ∙ cut_after_header w p.size p.body _ x front back p.size_of p.size_fits
                (sym (ap (λ (l : Bytes). drop 3 l) same)) (omega arith),
      )
]

-- A packet that announces a timestamp, whose body is empty and whose checksum is right: the exception
-- is struct.error and no ParseError, so it leaves run and no call of status reports it.
pub parse_packet-struct_error :
    (word : ℕ) (rest : Bytes)
    → test_flag word flag_timestamp ≡ true
    → parse_packet
        ((middle word 8 [] ++ word_bytes (checksum_of (signature ∷ middle word 8 []))) ++ rest)
      ≡ record { events = []; source = rest; raised = some struct_error }
unfolding parse_packet
parse_packet-struct_error word rest h =
    let crc = checksum_of (signature ∷ middle word 8 []) in
    rw (
      parse-whole word 8 [] rest crc (omega arith) (omega arith) (checksum-lt _) (err struct_error)
        (verdict_empty word crc (middle word 8 []) 3 h refl) (verdict_empty word crc [] 0 h refl))
