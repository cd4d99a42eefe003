-- ===== src/Chunked/Decoder/Fragments.antt =====
-- The decoder between two writes, in the middle of what an encoder wrote.
use pysubunit.Prelude.{
  ℕ, zero, suc, ◌+◌, ◌-◌, ◌<◌, ◌≡◌, inl, inr, refl, sym, subst, ap, ◌∙◌, List, [], ◌∷◌, ◌++◌, arith,
  length, length-append, Bool, All, append-nil, append_assoc,
}
use pysubunit.Std.Format.{codes, hex_upper}
use pysubunit.V2.Types.{Bytes}
use pysubunit.Chunked.Encoder.{join, chunk_header}
use pysubunit.Chunked.Encoder.Coded.{coded, IsChunk, join-append}
use pysubunit.Chunked.Decoder.{
  Decoder, read_length, read_body, nothing, body_loop, call, follow, sized, Written, write, new,
}
use pysubunit.Chunked.Decoder.Sizes.{remaining}
use pysubunit.Chunked.Decoder.Turns.{
  decoder_at, done, call-sized_end, body_loop-some, body_loop-all, body_loop-more, sized-chunk,
}
use pysubunit.Chunked.Decoder.Open.{
  cut_twice, header-IsCut, turn-open, turn_complete, All-front, All-back,
}

-- The number in the next header, and what stands behind that header.
abbrev size_of : List Bytes → ℕ
size_of [] = 0
size_of (c ∷ cs) = length c

abbrev after_header : List Bytes → Bytes
after_header [] = []
after_header (c ∷ cs) = c ++ coded cs

coded-header : (cs : List Bytes) → coded cs ≡ chunk_header (size_of cs) ++ after_header cs
unfolding coded hex_upper
coded-header [] = refl
coded-header (c ∷ cs) = refl

chunk_header-some : (n : ℕ) → 0 < length (chunk_header n)
chunk_header-some n = omega (arith, length-append (hex_upper n) (codes "\r\n"))

module _ (strict : Bool) (total rest : Bytes) where
  -- The decoder has written a part of `total`; what it still gets holds the other, with `rest` behind.
  pub data Waiting (d : Decoder) (future : Bytes) : Type 0 where
    in_header :
        (out : Bytes) (fs : List Bytes) (v : Bytes) (cs : List Bytes)
        → d ≡ decoder_at strict read_length out fs 0
        → 0 < length v
        → join fs ++ v ≡ chunk_header (size_of cs)
        → future ≡ v ++ (after_header cs ++ rest)
        → All IsChunk cs
        → out ++ join cs ≡ total
        → Waiting d future
    in_body :
        (out c : Bytes) (cs : List Bytes)
        → d ≡ decoder_at strict read_body out [] (length c)
        → 0 < length c
        → future ≡ c ++ (coded cs ++ rest)
        → All IsChunk cs
        → out ++ (c ++ join cs) ≡ total
        → Waiting d future

  -- A write leaves the decoder waiting, or it has met the end and returns what it holds of `rest`.
  pub data Went (w : Written) (future : Bytes) : Type 0 where
    waits : w.outcome ≡ nothing → Waiting w.decoder future → Went w future
    ends : (left : Bytes) → w ≡ done strict total left → left ++ future ≡ rest → Went w future

  abbrev Held : List Bytes → Type 0
  Held cs =
      (fuel : ℕ) (out : Bytes) (fs : List Bytes) (x v future : Bytes)
      → 0 < length v
      → join fs ++ v ≡ chunk_header (size_of cs)
      → x ++ future ≡ v ++ (after_header cs ++ rest)
      → All IsChunk cs
      → out ++ join cs ≡ total
      → length x < fuel
      → Went (call fuel (decoder_at strict read_length out (fs ++ x ∷ []) 0)) future

  -- One fragment for a body, and what is behind it if the header behind it is `Held`.
  call-body-some :
      (fuel : ℕ) (out w c u future : Bytes) (cs : List Bytes)
      → 0 < length w
      → 0 < length u
      → w ++ u ≡ c
      → future ≡ u ++ (coded cs ++ rest)
      → All IsChunk cs
      → out ++ (c ++ join cs) ≡ total
      → Went (call (suc fuel) (decoder_at strict read_body out (w ∷ []) (length c))) future
  unfolding call
  call-body-some fuel out w c u future cs p q e f a t =
      let sizes : length c ≡ length w + length u = ap length (sym e) ∙ length-append w u in
      let left : length c - length w ≡ length u = omega arith in
      let went =
        ap (λ o. follow o (call fuel))
          (body_loop-some strict out (length c) w (omega arith) (omega arith))
        ∙ ap
            (λ n. record {
              decoder = decoder_at strict read_body (out ++ w) [] n;
              outcome = nothing;
            })
            left in
      subst (λ o. Went o future) (sym went)
        (waits refl (
          in_body (out ++ w) u cs refl q f a (
            append_assoc out w (u ++ join cs)
            ∙ ap (λ bs. out ++ bs) (sym (append_assoc w u (join cs)) ∙ ap (λ bs. bs ++ join cs) e)
            ∙ t)))

  header_next :
      (cs : List Bytes) → coded cs ++ rest ≡ chunk_header (size_of cs) ++ (after_header cs ++ rest)
  header_next cs =
      ap (λ x. x ++ rest) (coded-header cs)
      ∙ append_assoc (chunk_header (size_of cs)) (after_header cs) rest

  call-body :
      (fuel : ℕ) (out w c future : Bytes) (cs : List Bytes)
      → 0 < length c
      → w ++ future ≡ c ++ (coded cs ++ rest)
      → All IsChunk cs
      → out ++ (c ++ join cs) ≡ total
      → length w < fuel
      → Held cs
      → Went (call fuel (decoder_at strict read_body out (remaining w) (length c))) future
  unfolding call body_loop join
  call-body zero out w c future cs p e a t k held = absurd (omega arith)
  call-body (suc fuel) out [] c future cs p e a t k held =
      waits refl (in_body out c cs refl p e a t)
  call-body (suc fuel) out (b ∷ bs) c future cs p e a t k held =
      elim (cut_twice (b ∷ bs) future c (coded cs ++ rest) e) [
        | inl (u, q, f, g) ↦ call-body-some fuel out (b ∷ bs) c u future cs (omega arith) q f g a t
        | inr (u, f, g) ↦
            subst
              (λ x.
                Went (call (suc fuel) (decoder_at strict read_body out (x ∷ []) (length c))) future)
              (sym f) (behind u g (subst (λ x. length x < suc fuel) f k))
      ]
    where
      whole : out ++ (c ++ join cs) ≡ (out ++ c) ++ join cs
      whole = sym (append_assoc out c (join cs))

      behind :
          (u : Bytes)
          → u ++ future ≡ coded cs ++ rest
          → length (c ++ u) < suc fuel
          → Went
              (call (suc fuel) (decoder_at strict read_body out ((c ++ u) ∷ []) (length c)))
              future
      behind [] g l =
          subst (λ o. Went o future)
            (sym (
              ap (λ x. call (suc fuel) (decoder_at strict read_body out (x ∷ []) (length c)))
                (append-nil c)
              ∙ ap (λ o. follow o (call fuel)) (body_loop-all strict out c p)))
            (waits refl (
              in_header (out ++ c) [] (chunk_header (size_of cs)) cs refl
                (chunk_header-some (size_of cs)) refl (g ∙ header_next cs) a (sym whole ∙ t)))
      behind (x ∷ u) g l =
          subst (λ o. Went o future)
            (sym (
              ap (λ o. follow o (call fuel)) (body_loop-more strict out c (x ∷ u) p (omega arith))))
            (held fuel (out ++ c) [] (x ∷ u) (chunk_header (size_of cs)) future
              (chunk_header-some (size_of cs)) refl (g ∙ header_next cs) a (sym whole ∙ t)
              (omega (arith, length-append c (x ∷ u))))

  abbrev HeldBehind : List Bytes → Type 0
  HeldBehind [] = Unit
  HeldBehind (c ∷ cs) = Held cs

  -- The header is complete, and `w` stands behind it.
  call-sized :
      (cs : List Bytes) (fuel : ℕ) (out w future : Bytes) (held : List Bytes)
      → w ++ future ≡ after_header cs ++ rest
      → All IsChunk cs
      → out ++ join cs ≡ total
      → length w < fuel
      → HeldBehind cs
      → Went
          (follow
            (sized (decoder_at strict read_length out held 0) (remaining w) (size_of cs))
            (call fuel))
          future
  unfolding join
  call-sized [] fuel out w future held e a t k behind =
      ends w
        (call-sized_end strict fuel out w held k
          ∙ ap (λ bs. done strict bs w) (sym (append-nil out) ∙ t))
        e
  call-sized (c ∷ cs) fuel out w future held e (p, a) t k behind =
      subst (λ o. Went o future)
        (sym (ap (λ o. follow o (call fuel)) (sized-chunk strict out c w held p)))
        (call-body fuel out w c future cs p (e ∙ append_assoc c (coded cs) rest) a t k behind)

  call-Held : (cs : List Bytes) → HeldBehind cs → Held cs
  unfolding call join
  call-Held cs behind zero out fs x v future p h e a t k = absurd (omega arith)
  call-Held cs behind (suc fuel) out fs x v future p h e a t k =
      elim (cut_twice x future v (after_header cs ++ rest) e) [
        | inl (w, q, f, g) ↦
            let next : join (fs ++ x ∷ []) ++ w ≡ chunk_header (size_of cs) =
              ap (λ y. y ++ w) (join-append fs x)
              ∙ append_assoc (join fs) x w
              ∙ ap (λ y. join fs ++ y) f
              ∙ h in
            let cut =
              header-IsCut (size_of cs) (join fs ++ x) w
                (append_assoc (join fs) x w ∙ ap (λ y. join fs ++ y) f ∙ h) q in
            subst (λ o. Went o future)
              (sym (
                ap (λ o. follow o (call fuel))
                  (turn-open (decoder_at strict read_length out (fs ++ x ∷ []) 0) fs x refl
                    (All-front (join fs) x cut.open_front) (All-back (join fs) x cut.open_front))))
              (waits refl (in_header out (fs ++ x ∷ []) w cs refl q next g a t))
        | inr (w, f, g) ↦
            subst (λ o. Went o future)
              (sym (
                ap (λ o. follow o (call fuel))
                  (turn_complete (decoder_at strict read_length out (fs ++ x ∷ []) 0) fs v w
                    (size_of cs) (ap (λ y. fs ++ y ∷ []) f) h p)))
              (call-sized cs fuel out w future (fs ++ x ∷ []) g a t
                (omega (arith, ap length f, length-append v w)) behind)
      ]

  call-header : (cs : List Bytes) → Held cs
  call-header [] = call-Held [] tt
  call-header (c ∷ cs) = call-Held (c ∷ cs) (call-header cs)

  -- A write of the next fragment to a waiting decoder.
  pub write-Went :
      (d : Decoder) (x future : Bytes)
      → 0 < length x
      → Waiting d (x ++ future)
      → Went (write d x) future
  unfolding write join
  write-Went d [] future p w = absurd (omega arith)
  write-Went d (b ∷ x) future p (in_header out fs v cs e q h f a t) =
      subst (λ d. Went (write d (b ∷ x)) future) (sym e)
        (call-header cs (suc (length (join (fs ++ (b ∷ x) ∷ [])))) out fs (b ∷ x) v future q h f a t
          (omega (arith, ap length (join-append fs (b ∷ x)), length-append (join fs) (b ∷ x))))
  write-Went d (b ∷ x) future p (in_body out c cs e q f a t) =
      subst (λ d. Went (write d (b ∷ x)) future) (sym e)
        (call-body (suc (length (join ((b ∷ x) ∷ [])))) out (b ∷ x) c future cs q f a t
          (omega (arith, length-append (b ∷ x) [])) (call-header cs))

  pub new-Waiting :
      (cs : List Bytes) → All IsChunk cs → join cs ≡ total → Waiting (new strict) (coded cs ++ rest)
  unfolding join
  new-Waiting cs a t =
      in_header [] [] (chunk_header (size_of cs)) cs refl (chunk_header-some (size_of cs)) refl
        (header_next cs) a t
