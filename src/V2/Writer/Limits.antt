-- ===== src/V2/Writer/Limits.antt =====
-- How large a packet may be, and the loop that hands it to the stream.
use pysubunit.Prelude.{
  ℕ, ◌+◌, ◌/◌, ◌%◌, ◌≤◌, ◌<◌, ◌≡◌, sym, ap, ◌∙◌, List, [], ◌∷◌, ◌++◌, arith, length, take, drop,
  length-append, length-drop, All, append_assoc, append-nil, take-append-drop, some,
}
use native.Mathlib.Decide.{dec_lt}
use pysubunit.Std.Struct.{pack_16, pack_32, pack_32-some, word_bytes}
use pysubunit.V2.Types.{
  Bytes, StatusEvent, ok, err, Result, length_too_long, or_raise, struct_error, ◌>>=◌,
}
use pysubunit.V2.Number.{encode_number}
use pysubunit.V2.Number.RoundTrip.{number_bytes, encode_number-some}
use pysubunit.V2.Flags.Tests.{flag_word-IsWordOf}
use pysubunit.V2.Writer.{signature, write_body, write_packet, write_loop, length_length, parts_of}
use pysubunit.V2.Writer.Shape.{word_of, middle, checksum_of, write_packet-Packet, checksum-lt}

-- A packet takes at most 4194303 bytes, and the number behind its flags is its whole length.
pub write_packet-length :
    (s : StatusEvent) (bs : Bytes)
    → write_packet s ≡ ok bs
    → (length bs ≤ 4194303)
      × (back : Bytes) × (bs
          ≡ signature ∷ word_of s / 256 ∷ word_of s % 256 ∷ (number_bytes (length bs) ++ back))
write_packet-length s bs h =
    let p = write_packet-Packet s bs h in
    let z = number_bytes p.size in
    let crc = word_bytes (checksum_of (signature ∷ middle (word_of s) p.size p.body)) in
    let whole : length bs ≡ p.size = omega (
      arith,
      ap length p.joined,
      length-append (z ++ p.body) crc,
      length-append z p.body,
      p.size_of,
    ) in
    let regrouped : bs ≡ signature ∷ word_of s / 256 ∷ word_of s % 256 ∷ (z ++ (p.body ++ crc)) =
      p.joined
      ∙ ap (λ (t : Bytes). signature ∷ word_of s / 256 ∷ word_of s % 256 ∷ t)
          (append_assoc z p.body crc) in
    (
      omega (arith, p.size_fits),
      p.body ++ crc,
      regrouped
          ∙ ap
              (λ n.
                signature ∷ word_of s / 256 ∷ word_of s % 256 ∷ (number_bytes n ++ (p.body ++ crc)))
              (sym whole),
    )

length_length-none : (n : ℕ) → 4194300 < n → length_length n ≡ err (length_too_long n)
unfolding length_length
length_length-none n h = ground arith

length_length-some : (n : ℕ) → n ≤ 4194300 → (k : ℕ) × (length_length n ≡ ok k) × (k ≤ 3)
unfolding length_length
length_length-some n h = elim (dec_lt n 63) [
  | yes p ↦ (1, ground arith, omega arith)
  | no p ↦ elim (dec_lt n 16382) [
    | yes q ↦ (2, ground arith, omega arith)
    | no q ↦ (3, ground arith, omega arith)
  ]
]

pack_16-some : (n : ℕ) → n < 65536 → pack_16 n ≡ some (n / 256 ∷ n % 256 ∷ [])
unfolding pack_16
pack_16-some n h = ground arith

word_of-lt : (s : StatusEvent) → word_of s < 65536
word_of-lt s = (flag_word-IsWordOf (parts_of s) s.test_status).fits

-- What write_packet does once it has the body.
abbrev seal : ℕ → Bytes → Bytes → Result Bytes
seal w body size =
    let content = signature ∷ w / 256 ∷ w % 256 ∷ (size ++ body) in
    or_raise struct_error (pack_32 (checksum_of content)) >>= λ checksum. ok (content ++ checksum)

write_packet-body :
    (s : StatusEvent) (body : Bytes)
    → write_body s ≡ ok body
    → write_packet s ≡ (
        length_length (7 + length body) >>= λ extra.
        encode_number (7 + length body + extra) >>= seal (word_of s) body)
unfolding write_packet
write_packet-body s body h =
    let base : 1 + 2 + length body + 4 ≡ 7 + length body = omega arith in
    rw (h, pack_16-some (word_of s) (word_of-lt s), base)

-- With a body of up to 4194293 bytes a packet is made; with a longer one ValueError is raised, which
-- tells the length without the number that would hold it.
pub write_packet_limit :
    (s : StatusEvent) (body : Bytes)
    → write_body s ≡ ok body
    → (length body ≤ 4194293 → (bs : Bytes) × (write_packet s ≡ ok bs))
      × (4194293 < length body → write_packet s ≡ err (length_too_long (7 + length body)))
write_packet_limit s body h = (made, refused)
  where
    made : length body ≤ 4194293 → (bs : Bytes) × (write_packet s ≡ ok bs)
    made k =
        let (extra, ee, le) = length_length-some (7 + length body) (omega arith) in
        let (size, es) = encode_number-some (7 + length body + extra) (omega (arith, le)) in
        let content = signature ∷ word_of s / 256 ∷ word_of s % 256 ∷ (size ++ body) in
        (
          content ++ word_bytes (checksum_of content),
          write_packet-body s body h
              ∙ rw (ee, es, pack_32-some (checksum_of content) (checksum-lt content)),
        )

    refused : 4194293 < length body → write_packet s ≡ err (length_too_long (7 + length body))
    refused k = write_packet-body s body h ∙ rw (length_length-none (7 + length body) (omega arith))

-- A stream that takes at least a byte of each write gets all bytes, in order, in as many writes as
-- there are bytes at most.
pub write_loop_complete :
    (accepts : List ℕ) (sent bs : Bytes)
    → All (λ n. 1 ≤ n) accepts
    → length bs ≤ length accepts
    → write_loop accepts sent bs ≡ some (sent ++ bs)
unfolding write_loop
write_loop_complete accepts sent [] a h = ap some (sym (append-nil sent))
write_loop_complete [] sent (b ∷ bs) a h = absurd (omega arith)
write_loop_complete (n ∷ accepts) sent (b ∷ bs) a h =
    write_loop_complete accepts (sent ++ take n (b ∷ bs)) (drop n (b ∷ bs)) a.1
      (omega (arith, length-drop n (b ∷ bs), a.0))
    ∙ ap some (append_assoc sent (take n (b ∷ bs)) (drop n (b ∷ bs)))
    ∙ ap (λ (t : Bytes). some (sent ++ t)) (take-append-drop n (b ∷ bs))
