-- ===== src/V2/Writer/Shape.antt =====
-- The bytes of a packet, and when write_packet makes one.
use pysubunit.Prelude.{
  ℕ, ◌+◌, ◌/◌, ◌%◌, ◌≤◌, ◌<◌, ◌≡◌, ap, ◌∙◌, [], ◌∷◌, ◌++◌, arith, bit_and, length, some,
}
use pysubunit.Prelude.Bits.{bit_and_mask}
use pysubunit.Std.Struct.{pack_16, pack_32, pack_32-some, word_bytes}
use pysubunit.Std.Crc32.{crc32}
use pysubunit.V2.Types.{Bytes, StatusEvent, ok}
use pysubunit.V2.Number.{encode_number}
use pysubunit.V2.Number.RoundTrip.{number_bytes, encode_number-ok}
use pysubunit.V2.Flags.{flag_word}
use pysubunit.V2.Writer.{signature, parts_of, write_body, length_length, write_packet}

abbrev pub word_of : StatusEvent → ℕ
word_of s = flag_word (parts_of s) s.test_status

-- Flags, length and body: what stands between the signature and the checksum.
abbrev pub middle : ℕ → ℕ → Bytes → Bytes
middle word size body = word / 256 ∷ word % 256 ∷ (number_bytes size ++ body)

abbrev pub checksum_of : Bytes → ℕ
checksum_of content = bit_and (crc32 content 0) 0xffffffff

-- The layout of a packet for a body: its own length counts the signature, the flags, the length
-- itself, the body and the checksum.
pub record Packet (s : StatusEvent) (bs : Bytes) : Type 0 where
  pub body : Bytes
  pub size : ℕ
  pub written : write_body s ≡ ok body
  pub size_of : size ≡ 7 + length (number_bytes size) + length body
  pub size_fits : size ≤ 4194303
  pub joined :
      bs
      ≡ signature
        ∷ (middle (word_of s) size body
            ++ word_bytes (checksum_of (signature ∷ middle (word_of s) size body)))

pub checksum-lt : (content : Bytes) → checksum_of content < 4294967296
checksum-lt content = omega (arith, bit_and_mask 32 (crc32 content 0))

length_length-ok :
    (base k : ℕ)
    → length_length base ≡ ok k
    → (base + k ≤ 4194303) × (length (number_bytes (base + k)) ≡ k)
unfolding length_length
length_length-ok base k h = ground arith

-- What each step of a successful write_packet returned.
record Steps (s : StatusEvent) (bs : Bytes) : Type 0 where
  body : Bytes
  flags : Bytes
  extra : ℕ
  size : Bytes
  checksum : Bytes
  wrote_body : write_body s ≡ ok body
  wrote_flags : pack_16 (word_of s) ≡ some flags
  wrote_extra : length_length (1 + length flags + length body + 4) ≡ ok extra
  wrote_size : encode_number (1 + length flags + length body + 4 + extra) ≡ ok size
  wrote_checksum : pack_32 (checksum_of (signature ∷ (flags ++ (size ++ body)))) ≡ some checksum
  joined : bs ≡ signature ∷ ((flags ++ (size ++ body)) ++ checksum)

write_packet-Steps : (s : StatusEvent) (bs : Bytes) → write_packet s ≡ ok bs → Steps s bs
unfolding write_packet
write_packet-Steps s bs h = ground arith

pack_16-word : (w : ℕ) (bs : Bytes) → pack_16 w ≡ some bs → bs ≡ w / 256 ∷ w % 256 ∷ []
unfolding pack_16
pack_16-word w bs h = ground arith

pack_32-word : (n : ℕ) (bs : Bytes) → n < 4294967296 → pack_32 n ≡ some bs → bs ≡ word_bytes n
pack_32-word n bs k h = cc (pack_32-some n k)

pub write_packet-Packet : (s : StatusEvent) (bs : Bytes) → write_packet s ≡ ok bs → Packet s bs
write_packet-Packet s bs h =
    let st = write_packet-Steps s bs h in
    let ef = pack_16-word (word_of s) st.flags st.wrote_flags in
    let n = 7 + length st.body in
    let base : 1 + length st.flags + length st.body + 4 ≡ n = omega (arith, ap length ef) in
    let (fits, size_length) = length_length-ok n st.extra (rw base at st.wrote_extra) in
    let (_, es) = encode_number-ok (n + st.extra) st.size (rw base at st.wrote_size) in
    let middle_of : st.flags ++ (st.size ++ st.body) ≡ middle (word_of s) (n + st.extra) st.body =
      ap (λ f. f ++ (st.size ++ st.body)) ef
      ∙ ap (λ z. word_of s / 256 ∷ word_of s % 256 ∷ (z ++ st.body)) es in
    let crc = checksum_of (signature ∷ (st.flags ++ (st.size ++ st.body))) in
    let sum : st.checksum ≡ word_bytes crc =
      pack_32-word crc st.checksum (checksum-lt _) st.wrote_checksum in
    record {
      body = st.body;
      size = n + st.extra;
      written = st.wrote_body;
      size_of = omega (arith, size_length);
      size_fits = fits;
      joined =
          st.joined
          ∙ ap (λ c. signature ∷ ((st.flags ++ (st.size ++ st.body)) ++ c)) sum
          ∙ ap (λ m. signature ∷ (m ++ word_bytes (checksum_of (signature ∷ m)))) middle_of;
    }
