-- ===== src/V2/Run/Characters.antt =====
-- Text outside packets whose UTF-8 holds the signature byte.
use pysubunit.Prelude.{ℕ, suc, ◌≤◌, ◌<◌, ◌≡◌, true, some, none, [], ◌∷◌, arith, length}
use pysubunit.Std.Utf8
use pysubunit.V2.Types.{Text, Bytes}
use pysubunit.V2.Writer.{signature}
use pysubunit.V2.Run.{
  Codec, fresh, feed, emit, run_packet, run_content, run_gathered, run_loop, run, aggregate,
  non_subunit,
}

abbrev inside : ℕ → Codec
inside lead = record { kept = lead ∷ []; mid_character = true }

feed_lead : (lead : ℕ) → 0xc2 ≤ lead → lead < 0xe0 → feed fresh lead ≡ inside lead
unfolding feed Utf8.decode Utf8.decode_loop Utf8.front Utf8.two
feed_lead lead h k = ground arith

feed_last : (lead : ℕ) → 0xc2 ≤ lead → lead < 0xe0 → feed (inside lead) 0xb3 ≡ fresh
unfolding feed Utf8.decode Utf8.decode_loop Utf8.front Utf8.two
feed_last lead h k = ground arith

-- A character of two bytes that ends in 0xb3, in content that select does not serve: both bytes are
-- emitted as content, and the second is then taken for the signature of a packet as well.
pub run-signature_in_character :
    (lead : ℕ) (label : Text) (source : Bytes)
    → 0xc2 ≤ lead
    → lead < 0xe0
    → run (some label) none (lead ∷ signature ∷ source)
      ≡ emit
          (non_subunit label (lead ∷ []) ∷ non_subunit label (signature ∷ []) ∷ [])
          (run_packet (run_loop (suc (length source)) (some label)) fresh none source)
unfolding run run_loop run_content run_gathered aggregate
run-signature_in_character lead label source h k =
    ground (arith, feed_lead lead h k, feed_last lead h k)
