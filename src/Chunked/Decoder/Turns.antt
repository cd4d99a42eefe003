-- ===== src/Chunked/Decoder/Turns.antt =====
-- A call of the decoder on one fragment.
use pysubunit.Prelude.{
  ℕ, zero, suc, ◌-◌, ◌<◌, ◌≡◌, refl, ap, List, [], ◌∷◌, ◌++◌, arith, length, length-append,
  take-append, drop-append, Bool, append-nil,
}
use pysubunit.V2.Types.{Bytes}
use pysubunit.Chunked.Encoder.{join}
use pysubunit.Chunked.Decoder.{
  Decoder, State, read_length, read_body, finished, nothing, returns, stop, call_state, body_loop,
  turn_finished, call, follow, sized, Written,
}
use pysubunit.Chunked.Decoder.Sizes.{remaining}

abbrev pub decoder_at : Bool → State → Bytes → List Bytes → ℕ → Decoder
decoder_at strict state out held n = record {
  output = out;
  buffered_bytes = held;
  state = state;
  body_length = n;
  strict = strict;
}

-- At the end of the stream.
abbrev pub done : Bool → Bytes → Bytes → Written
done strict out rest = record {
  decoder = decoder_at strict finished out [] 0;
  outcome = returns rest;
}

module _ (strict : Bool) where
  pub call-sized_end :
      (fuel : ℕ) (out w : Bytes) (held : List Bytes)
      → length w < fuel
      → follow (sized (decoder_at strict read_length out held 0) (remaining w) 0) (call fuel)
        ≡ done strict out w
  unfolding call turn_finished join
  call-sized_end fuel out [] held p = refl
  call-sized_end zero out (c ∷ cs) held p = absurd (omega arith)
  call-sized_end (suc fuel) out (c ∷ cs) held p = ap (done strict out) (append-nil (c ∷ cs))

  pub body_loop-some :
      (out : Bytes) (n : ℕ) (w : Bytes)
      → 0 < n
      → length w < n
      → body_loop (decoder_at strict read_body out (w ∷ []) n) (w ∷ [])
        ≡ stop (decoder_at strict read_body (out ++ w) [] (n - length w)) nothing
  unfolding body_loop
  body_loop-some out n w p q = ground arith

  pub body_loop-all :
      (out c : Bytes)
      → 0 < length c
      → body_loop (decoder_at strict read_body out (c ∷ []) (length c)) (c ∷ [])
        ≡ stop (decoder_at strict read_length (out ++ c) [] 0) nothing
  unfolding body_loop
  body_loop-all out c p = ground arith

  pub body_loop-more :
      (out c more : Bytes)
      → 0 < length c
      → 0 < length more
      → body_loop (decoder_at strict read_body out ((c ++ more) ∷ []) (length c)) ((c ++ more) ∷ [])
        ≡ call_state (decoder_at strict read_length (out ++ c) (more ∷ []) 0)
  unfolding body_loop
  body_loop-more out c more p q =
      ground (arith, length-append c more, take-append c more, drop-append c more)

  pub sized-chunk :
      (out c w : Bytes) (held : List Bytes)
      → 0 < length c
      → sized (decoder_at strict read_length out held 0) (remaining w) (length c)
        ≡ call_state (decoder_at strict read_body out (remaining w) (length c))
  sized-chunk out c w held p = ground arith
