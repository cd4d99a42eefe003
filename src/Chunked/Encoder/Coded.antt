-- ===== src/Chunked/Encoder/Coded.antt =====
-- What the encoder writes, for any writes to it.
use pysubunit.Prelude.{
  ℕ, ◌+◌, ◌≤◌, ◌<◌, ◌≡◌, refl, sym, ap, ◌∙◌, leb, true, List, [], ◌∷◌, ◌++◌, arith, append-nil,
  append_assoc, length, length-append, All,
}
use native.Mathlib.Decide.{dec_lt}
use pysubunit.Std.Format.{codes}
use pysubunit.V2.Types.{Bytes}
use pysubunit.Chunked.Encoder.{Encoder, new, join, chunk_header, flush, write, close, writes}

-- The chunks of the coding, with the last one, which is empty.
unfoldable pub coded : List Bytes → Bytes
coded [] = codes "0\r\n"
coded (c ∷ cs) = chunk_header (length c) ++ (c ++ coded cs)

abbrev pub IsChunk : Bytes → Type 0
IsChunk c = 1 ≤ length c

pub join-append : (xs : List Bytes) (w : Bytes) → join (xs ++ w ∷ []) ≡ join xs ++ w
unfolding join
join-append [] w = append-nil w
join-append (x ∷ xs) w = ap (λ bs. x ++ bs) (join-append xs w) ∙ sym (append_assoc x (join xs) w)

abbrev IsCounted : Encoder → Type 0
IsCounted e = e.buffer_size ≡ length (join e.buffered_bytes)

-- The chunks that follow what an encoder has written already.
abbrev Closes : Encoder → List Bytes → Type 0
Closes e ws =
    (cs : List Bytes) × All IsChunk cs
    × (join cs ≡ join e.buffered_bytes ++ join ws)
    × ((close (writes e ws)).output ≡ e.output ++ coded cs)

nothing_left : (bs : Bytes) → length bs ≡ 0 → bs ≡ []
nothing_left [] h = refl
nothing_left (b ∷ bs) h = absurd (omega arith)

abbrev emptied : Encoder → Bytes → Encoder
emptied e more = record { output = e.output ++ more; buffered_bytes = []; buffer_size = 0 }

flush-chunk :
    (e : Encoder) (n : ℕ)
    → IsCounted e
    → 1 ≤ e.buffer_size + n
    → flush e n ≡ emptied e (chunk_header (e.buffer_size + n) ++ join e.buffered_bytes)
unfolding flush
flush-chunk e n h k = elim (dec_lt 0 e.buffer_size) [
  | yes p ↦ ground arith
  | no p ↦ rw (nothing_left (join e.buffered_bytes) (omega arith)) (ground arith)
]

flush-nothing : (e : Encoder) → e.buffer_size ≡ 0 → flush e 0 ≡ e
unfolding flush
flush-nothing e h = ground arith

regroup : (a b c d : Bytes) → (a ++ (b ++ c)) ++ d ≡ a ++ (b ++ (c ++ d))
regroup a b c d = append_assoc a (b ++ c) d ∙ ap (λ (bs : Bytes). a ++ bs) (append_assoc b c d)

close-Closes : (e : Encoder) → IsCounted e → Closes e []
unfolding close writes join coded
close-Closes e h = elim (dec_lt 0 e.buffer_size) [
  | yes p ↦ (
    join e.buffered_bytes ∷ [],
    (omega arith, tt),
    refl,
    ap (λ (t : Encoder). t.output ++ codes "0\r\n") (flush-chunk e 0 h (omega arith))
        ∙ ap (λ n. (e.output ++ (chunk_header n ++ join e.buffered_bytes)) ++ codes "0\r\n")
            (omega (arith, h))
        ∙ regroup e.output (chunk_header (length (join e.buffered_bytes))) (join e.buffered_bytes)
            (codes "0\r\n"),
  )
  | no p ↦ (
    [],
    tt,
    ap (λ (bs : Bytes). bs ++ []) (sym (nothing_left (join e.buffered_bytes) (omega arith))),
    ap (λ (t : Encoder). t.output ++ codes "0\r\n") (flush-nothing e (omega arith)),
  )
]

abbrev kept : Encoder → Bytes → Encoder
kept e w = record e {
  buffered_bytes = e.buffered_bytes ++ w ∷ [];
  buffer_size = e.buffer_size + length w;
}

write-kept : (e : Encoder) (w : Bytes) → e.buffer_size + length w < 65536 → write e w ≡ kept e w
unfolding write
write-kept e w h = ground arith

write-emptied :
    (e : Encoder) (w : Bytes)
    → IsCounted e
    → 65536 ≤ e.buffer_size + length w
    → write e w
      ≡ emptied e
          (chunk_header (length (join e.buffered_bytes ++ w)) ++ (join e.buffered_bytes ++ w))
unfolding write
write-emptied e w h k =
    let n : e.buffer_size + length w ≡ length (join e.buffered_bytes ++ w) =
      omega (arith, length-append (join e.buffered_bytes) w) in
    let b = join e.buffered_bytes in
    let large : leb 65536 (e.buffer_size + length w) ≡ true = ground arith in
    rw (flush-chunk e (length w) h (omega arith), large)
      (ap (λ bs. record { output = bs; buffered_bytes = []; buffer_size = 0 })
        (regroup e.output (chunk_header (e.buffer_size + length w)) b w
          ∙ ap (λ m. e.output ++ (chunk_header m ++ (b ++ w))) n))

writes-Closes : (e : Encoder) (ws : List Bytes) → IsCounted e → Closes e ws
unfolding writes join coded
writes-Closes e [] h = close-Closes e h
writes-Closes e (w ∷ ws) h = elim (dec_lt (e.buffer_size + length w) 65536) [
  | yes p ↦
      let counted : IsCounted (kept e w) = omega (
        arith,
        ap length (join-append e.buffered_bytes w),
        length-append (join e.buffered_bytes) w,
      ) in
      let (cs, chunks, joined, out) = writes-Closes (kept e w) ws counted in
      (
        cs,
        chunks,
        joined
            ∙ ap (λ (bs : Bytes). bs ++ join ws) (join-append e.buffered_bytes w)
            ∙ append_assoc (join e.buffered_bytes) w (join ws),
        ap (λ t. (close (writes t ws)).output) (write-kept e w p) ∙ out,
      )
  | no p ↦
      let b = join e.buffered_bytes in
      let more = chunk_header (length (b ++ w)) ++ (b ++ w) in
      let (cs, chunks, joined, out) = writes-Closes (emptied e more) ws refl in
      (
        (b ++ w) ∷ cs,
        (omega (arith, length-append b w), chunks),
        ap (λ (bs : Bytes). (b ++ w) ++ bs) joined ∙ append_assoc b w (join ws),
        ap (λ t. (close (writes t ws)).output) (write-emptied e w h (omega arith))
            ∙ out
            ∙ regroup e.output (chunk_header (length (b ++ w))) (b ++ w) (coded cs),
      )
]

-- After any writes and close, the output is a chunked coding of what was written: chunks that are
-- not empty, each behind its length, then the empty chunk. The chunks joined are the writes joined.
pub close-coded :
    (ws : List Bytes)
    → (cs : List Bytes) × All IsChunk cs
      × (join cs ≡ join ws)
      × ((close (writes new ws)).output ≡ coded cs)
unfolding join
close-coded ws = writes-Closes new ws refl
