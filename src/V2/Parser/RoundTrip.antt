-- ===== src/V2/Parser/RoundTrip.antt =====
-- Parsing a packet that the writer made, whatever follows it in the stream.
use pysubunit.Prelude.{
  ℕ, ◌+◌, ◌-◌, ◌*◌, ◌/◌, ◌%◌, ◌≤◌, ◌<◌, ◌≡◌, sym, ap, ◌∙◌, List, [], ◌∷◌, ◌++◌, arith, append_assoc,
  append-nil, length, length-append, take, drop, take-append_of_eq, take-append_ge,
  take-append-drop, drop-append_le, take-append_le, drop-append_of_eq, true, length-take,
  length-drop, ==_refl, ◌==◌, if◌then◌else◌,
}
use pysubunit.Std.Struct.{unpack_16, unpack_32-word_bytes, word_bytes}
use pysubunit.Std.Crc32.{crc32-append}
use pysubunit.V2.Types.{Bytes, StatusEvent, ok, err, Result, parse_error, bad_checksum}
use pysubunit.V2.Number.{parse_varint}
use pysubunit.V2.Number.RoundTrip.{number_bytes, parse_varint-number}
use pysubunit.V2.Flags.Tests.{flag_word-IsWordOf}
use pysubunit.V2.Writer.{signature, parts_of, write_packet}
use pysubunit.V2.Writer.Shape.{word_of, middle, checksum_of, checksum-lt, write_packet-Packet}
use pysubunit.V2.Fields.{read_fields}
use pysubunit.V2.Fields.Reads.{Reads}
use pysubunit.V2.Fields.RoundTrip.{IsSendable, delivered, Reads-fields}
use pysubunit.V2.Parser.{
  before_last_4, last_4, fragments_crc, value_of, check_and_read, parse_rest, parse, with_length,
}

before_last_4-append : (xs : Bytes) (n : ℕ) → before_last_4 (xs ++ word_bytes n) ≡ xs
before_last_4-append xs n =
    take-append_of_eq (length (xs ++ word_bytes n) - 4) xs (word_bytes n)
      (omega (arith, length-append xs (word_bytes n)))

last_4-append : (xs : Bytes) (n : ℕ) → last_4 (xs ++ word_bytes n) ≡ word_bytes n
last_4-append xs n =
    drop-append_of_eq (length (xs ++ word_bytes n) - 4) xs (word_bytes n)
      (omega (arith, length-append xs (word_bytes n)))

-- Fragment by fragment, the checksum is that of the bytes in a row.
fragments_one :
    (x last : Bytes) → fragments_crc (x ∷ []) last 0 ≡ checksum_of (x ++ before_last_4 last)
unfolding fragments_crc
fragments_one x last = rw crc32-append

fragments_two :
    (x y last : Bytes)
    → fragments_crc (x ∷ y ∷ []) last 0 ≡ checksum_of (x ++ (y ++ before_last_4 last))
unfolding fragments_crc
fragments_two x y last =
    rw (crc32-append x y 0, crc32-append (x ++ y) (before_last_4 last) 0, append_assoc)

-- What the parser makes of bytes before a checksum, given what their checksum should be.
abbrev pub verdict : ℕ → ℕ → ℕ → Bytes → ℕ → Result StatusEvent
verdict flags calculated stored xs at =
    if calculated == stored
    then value_of (read_fields flags xs at)
    else err (parse_error (bad_checksum calculated stored))

check-verdict :
    (flags : ℕ) (packet : List Bytes) (xs : Bytes) (calculated stored at : ℕ)
    → stored < 4294967296
    → fragments_crc packet (xs ++ word_bytes stored) 0 ≡ calculated
    → check_and_read flags packet (xs ++ word_bytes stored) at
      ≡ verdict flags calculated stored xs at
unfolding check_and_read
check-verdict flags packet xs calculated stored at k h =
    rw (last_4-append xs stored, h, before_last_4-append xs stored, unpack_32-word_bytes stored k)

-- The first five bytes.
pub parse-header :
    (hi lo : ℕ) (tl rest : Bytes)
    → 3 ≤ length tl
    → parse (hi ∷ lo ∷ (tl ++ rest))
      ≡ with_length
          (hi ∷ lo ∷ take 3 tl)
          (drop 3 tl ++ rest)
          (hi * 256 + lo)
          (parse_varint true (hi ∷ lo ∷ take 3 tl) 2)
unfolding parse unpack_16
parse-header hi lo tl rest h =
    rw (take-append_le 3 tl rest h, drop-append_le 3 tl rest h) (ground (arith, length-take 3 tl))

-- A well-formed packet cut into what the parser reads first and what it reads then.
module _ (word size : ℕ) (body rest : Bytes) (crc : ℕ) where
  abbrev pub tail : Bytes
  tail = (number_bytes size ++ body) ++ word_bytes crc

  abbrev pub header : Bytes
  header = word / 256 ∷ word % 256 ∷ take 3 tail

  module _ (size_of : size ≡ 7 + length (number_bytes size) + length body)
      (fits : size ≤ 4194303) where
    pub length-tail : length tail + 3 ≡ size
    length-tail = omega (
      arith,
      length-append (number_bytes size ++ body) (word_bytes crc),
      length-append (number_bytes size) body,
    )

    number_bytes-le : length (number_bytes size) ≤ 3
    number_bytes-le = ground arith

    take-tail :
        take 3 tail
        ≡ number_bytes size ++ take (3 - length (number_bytes size)) (body ++ word_bytes crc)
    take-tail = rw append_assoc (
        take-append_ge 3 _ (number_bytes size) (body ++ word_bytes crc)
          (omega (arith, number_bytes-le)))

    pub header-length : parse_varint true header 2 ≡ ok (size, length (number_bytes size))
    header-length =
        parse_varint-number true size header _ 2 (omega arith) (λ p. omega arith) take-tail

    remainder_of : take (size - 6) (drop 3 tail ++ rest) ≡ drop 3 tail
    remainder_of =
        take-append_of_eq (size - 6) (drop 3 tail) rest
          (omega (arith, length-drop 3 tail, length-tail))

    rest_of : drop (size - 6) (drop 3 tail ++ rest) ≡ rest
    rest_of =
        drop-append_of_eq (size - 6) (drop 3 tail) rest
          (omega (arith, length-drop 3 tail, length-tail))

    module _ (crc-lt : crc < 4294967296) (o : Result StatusEvent)
        (joined : verdict word
            (checksum_of (signature ∷ middle word size body))
            crc
            (middle word size body)
            (2 + length (number_bytes size))
          ≡ o)
        (split : verdict word (checksum_of (signature ∷ middle word size body)) crc body 0
          ≡ o) where
      -- A length of one or two bytes: the packet is put together again.
      read_joined :
          check_and_read word
            ((signature ∷ []) ∷ [])
            (header ++ drop 3 tail)
            (2 + length (number_bytes size))
          ≡ o
      read_joined =
          let m = middle word size body in
          let at = 2 + length (number_bytes size) in
          let whole : header ++ drop 3 tail ≡ m ++ word_bytes crc =
            ap (λ t. word / 256 ∷ word % 256 ∷ t) (take-append-drop 3 tail) in
          let sum : fragments_crc ((signature ∷ []) ∷ []) (m ++ word_bytes crc) 0
              ≡ checksum_of (signature ∷ m) =
            fragments_one (signature ∷ []) (m ++ word_bytes crc)
            ∙ ap (λ t. checksum_of (signature ∷ t)) (before_last_4-append m crc) in
          ap (λ t. check_and_read word ((signature ∷ []) ∷ []) t at) whole
          ∙ check-verdict word ((signature ∷ []) ∷ []) m _ crc at crc-lt sum
          ∙ joined

      -- A length of three bytes: header and body are two fragments.
      read_split :
          length (number_bytes size) ≡ 3
          → check_and_read word ((signature ∷ []) ∷ header ∷ []) (drop 3 tail) 0 ≡ o
      read_split three =
          let h : Bytes = word / 256 ∷ word % 256 ∷ number_bytes size in
          let frags : List Bytes = (signature ∷ []) ∷ h ∷ [] in
          let header_is : header ≡ h =
            ap (λ t. word / 256 ∷ word % 256 ∷ t)
              (rw append_assoc
                (take-append_of_eq 3 (number_bytes size) (body ++ word_bytes crc) three)) in
          let body_is : drop 3 tail ≡ body ++ word_bytes crc =
            rw append_assoc
              (drop-append_of_eq 3 (number_bytes size) (body ++ word_bytes crc) three) in
          let sum : fragments_crc frags (body ++ word_bytes crc) 0
              ≡ checksum_of (signature ∷ (h ++ body)) =
            fragments_two (signature ∷ []) h (body ++ word_bytes crc)
            ∙ ap (λ t. checksum_of (signature ∷ (h ++ t))) (before_last_4-append body crc) in
          ap (λ t. check_and_read word ((signature ∷ []) ∷ t ∷ []) (drop 3 tail) 0) header_is
          ∙ ap (λ t. check_and_read word frags t 0) body_is
          ∙ check-verdict word frags body _ crc 0 crc-lt sum
          ∙ split

      parse_rest-whole :
          parse_rest word header (drop 3 tail ++ rest) (size, length (number_bytes size))
          ≡ record { packet = signature ∷ (header ++ drop 3 tail); source = rest; outcome = o }
      unfolding parse_rest
      parse_rest-whole =
          ground
            (arith, remainder_of, rest_of, length-drop 3 tail, length-tail, read_joined, read_split)

      pub parse-whole : parse ((middle word size body ++ word_bytes crc) ++ rest) ≡ record {
        packet = signature ∷ (middle word size body ++ word_bytes crc);
        source = rest;
        outcome = o;
      }
      parse-whole =
          parse-header (word / 256) (word % 256) tail rest (omega (arith, length-tail))
          ∙ ap (λ w. with_length header (drop 3 tail ++ rest) w (parse_varint true header 2))
              (omega arith)
          ∙ ap (with_length header (drop 3 tail ++ rest) word) header-length
          ∙ parse_rest-whole
          ∙ ap
              (λ t. record {
                packet = signature ∷ word / 256 ∷ word % 256 ∷ t;
                source = rest;
                outcome = o;
              })
              (take-append-drop 3 tail)

-- A packet with the right checksum, where its body can be read.
parse-right :
    (word size : ℕ) (body rest : Bytes) (v : StatusEvent)
    → size ≡ 7 + length (number_bytes size) + length body
    → size ≤ 4194303
    → Reads (read_fields word) body v
    → parse (
        (middle word size body ++ word_bytes (checksum_of (signature ∷ middle word size body)))
        ++ rest)
      ≡ record {
        packet =
            signature
            ∷ (middle word size body
                ++ word_bytes (checksum_of (signature ∷ middle word size body)));
        source = rest;
        outcome = ok v;
      }
parse-right word size body rest v e k reads =
    let crc = checksum_of (signature ∷ middle word size body) in
    let at = 2 + length (number_bytes size) in
    let there : drop at (middle word size body) ≡ body ++ [] =
      drop-append_of_eq at (word / 256 ∷ word % 256 ∷ number_bytes size) body (omega arith)
      ∙ sym (append-nil body) in
    parse-whole word size body rest crc e k (checksum-lt _) (ok v)
      (rw (==_refl crc) (ap value_of (reads.at (middle word size body) [] at there)))
      (rw (==_refl crc) (ap value_of (reads.at body [] 0 (sym (append-nil body)))))

-- The parser takes exactly the packet of an accepted call from the front of the source, and returns
-- the call as delivered.
pub parse-write_packet :
    (s : StatusEvent) (bs : Bytes)
    → IsSendable s
    → write_packet s ≡ ok bs
    → (tl : Bytes) × (bs ≡ signature ∷ tl)
      × ((rest : Bytes)
          → parse (tl ++ rest) ≡ record { packet = bs; source = rest; outcome = ok (delivered s) })
parse-write_packet s bs n h =
    let p = write_packet-Packet s bs h in
    let reads =
      Reads-fields s p.body (word_of s) n (flag_word-IsWordOf (parts_of s) s.test_status)
        p.written in
    (
      _,
      p.joined,
      λ rest.
          parse-right (word_of s) p.size p.body rest (delivered s) p.size_of p.size_fits reads
          ∙ ap (λ b. record { packet = b; source = rest; outcome = ok (delivered s) })
              (sym p.joined),
    )
