-- ===== src/Chunked/Decoder/RoundTrip.antt =====
-- The decoder on what the encoder writes, cut into any fragments.
use pysubunit.Prelude.{
  ◌<◌, ◌≡◌, refl, sym, subst, ap, ◌∙◌, none, List, [], ◌∷◌, ◌++◌, arith, length, length-append,
  Bool, All,
}
use pysubunit.V2.Types.{Bytes}
use pysubunit.Chunked.Encoder
use pysubunit.Chunked.Encoder.{join}
use pysubunit.Chunked.Encoder.Coded.{coded, close-coded}
use pysubunit.Chunked.Decoder.{
  Decoder, finished, Outcome, nothing, returns, Written, write, new, close,
}
use pysubunit.Chunked.Decoder.Turns.{decoder_at}
use pysubunit.Chunked.Decoder.Fragments.{
  Waiting, in_header, in_body, Went, waits, ends, write-Went, new-Waiting,
}

-- Writes of fragments until one returns something: what it returns, and the fragments that are left.
pub record Fed : Type 0 where
  pub decoder : Decoder
  pub outcome : Outcome
  pub unread : List Bytes

abbrev fed_by : Outcome → Decoder → List Bytes → Fed → Fed
fed_by nothing d xs rest = rest
fed_by o d xs rest = record { decoder = d; outcome = o; unread = xs }

unfoldable pub feed : Decoder → List Bytes → Fed
feed d [] = record { decoder = d; outcome = nothing; unread = [] }
feed d (x ∷ xs) =
    let w = write d x in let rest = feed w.decoder xs in fed_by w.outcome w.decoder xs rest

-- All is holds_all, and what the last write and the fragments behind it hold is `rest`.
pub record IsDecoded (strict : Bool) (total rest : Bytes) (f : Fed) : Type 0 where
  pub left : Bytes
  pub holds_all : f.decoder ≡ decoder_at strict finished total [] 0
  pub returned : f.outcome ≡ returns left
  pub all : left ++ join f.unread ≡ rest

module _ (strict : Bool) (total rest : Bytes) where
  pub not_at_end : (d : Decoder) → Waiting strict total rest d [] → ⊥
  not_at_end d (in_header out fs v cs e p h f a t) =
      absurd (omega (arith, ap length f, length-append v (_ ++ rest)))
  not_at_end d (in_body out c cs e p f a t) =
      absurd (omega (arith, ap length f, length-append c (coded cs ++ rest)))

  feed-IsDecoded :
      (xs : List Bytes) (d : Decoder)
      → All (λ x. 0 < length x) xs
      → Waiting strict total rest d (join xs)
      → IsDecoded strict total rest (feed d xs)
  unfolding feed join
  feed-IsDecoded [] d a w = absurd (not_at_end d w)
  feed-IsDecoded (x ∷ xs) d (p, a) w =
      after_write (write d x) (write-Went strict total rest d x (join xs) p w)
        (feed-IsDecoded xs (write d x).decoder a)
    where
      after_write :
          (o : Written)
          → Went strict total rest o (join xs)
          → (Waiting strict total rest o.decoder (join xs)
              → IsDecoded strict total rest (feed o.decoder xs))
          → IsDecoded strict total rest (fed_by o.outcome o.decoder xs (feed o.decoder xs))
      after_write o (waits e v) f = rw e (f v)
      after_write o (ends left e h) f =
          subst
            (λ o. IsDecoded strict total rest (fed_by o.outcome o.decoder xs (feed o.decoder xs)))
            (sym e) (record { left = left; holds_all = refl; returned = refl; all = h })

-- What the encoder wrote for any writes and close, with anything behind it, comes in fragments to a
-- new decoder, strict or not. No fragment is empty; they are cut anywhere. All writes return None up
-- to the one that has the end of the coding. Then the output is what the encoder was given, close
-- finds the end, and what that write returns, with the fragments behind it, is what stands behind.
pub feed-close :
    (ws : List Bytes) (strict : Bool) (rest : Bytes) (xs : List Bytes)
    → All (λ x. 0 < length x) xs
    → join xs ≡ (Encoder.close (Encoder.writes Encoder.new ws)).output ++ rest
    → IsDecoded strict (join ws) rest (feed (new strict) xs)
      × (close (feed (new strict) xs).decoder ≡ none)
unfolding close
feed-close ws strict rest xs a e =
    let (cs, chunks, joined, out) = close-coded ws in
    let holds_all = feed-IsDecoded strict (join ws) rest xs (new strict) a (
      subst (Waiting strict (join ws) rest (new strict)) (sym (e ∙ ap (λ bs. bs ++ rest) out))
        (new-Waiting strict (join ws) rest cs chunks joined)) in
    (holds_all, ap close holds_all.holds_all)
