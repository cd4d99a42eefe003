-- ===== src/Chunked/Decoder/Ends.antt =====
-- How a write to the decoder ends, on any bytes.
use pysubunit.Prelude.{
  ℕ, zero, suc, ◌+◌, ◌-◌, ◌≤◌, ◌<◌, ◌≡◌, ◌≢◌, refl, ◌==◌, leb, true, false, if◌then◌else◌, ◌&&◌,
  Option, some, none, List, [], ◌∷◌, arith, length, length-append, length-drop, drop, eq_bytes, not,
  Bool,
}
use native.Mathlib.Decide.{dec_lt}
use pysubunit.Std.Format.{codes}
use pysubunit.Std.Hex.{int_16, rstrip}
use pysubunit.V2.Types.{Bytes}
use pysubunit.Chunked.Encoder.{join}
use pysubunit.Chunked.Decoder.{
  Decoder, State, read_length, read_body, finished, Outcome, ValueError, nothing, raises, returns,
  out_of_fuel, Turn, stop, call_state, line_chars, count_chars, drop_bytes, body_loop,
  turn_read_length, turn_finished, turn, call, follow, last_of, before_last, has_cr, is_newline,
  chunk_header_invalid, too_many_crs, sized, numbered, write, Written, append_bytes,
}

abbrev held : List Bytes → ℕ
held xs = length (join xs)

nothing_ne : nothing ≢ out_of_fuel
nothing_ne e = cc

returns_ne : (bs : Bytes) → returns bs ≢ out_of_fuel
returns_ne bs e = cc

raises_ne : (e : ValueError) → raises e ≢ out_of_fuel
raises_ne e h = cc

-- The turn ends the write, or leaves fewer than `n` bytes for the next.
abbrev Smaller : ℕ → Turn → Type 0
Smaller n (stop d o) = o ≢ out_of_fuel
Smaller n (call_state d) = held d.buffered_bytes < n

record Shrinks (n : ℕ) (t : Turn) : Type 0 where
  smaller : Smaller n t

stops : (n : ℕ) (d : Decoder) (o : Outcome) → o ≢ out_of_fuel → Shrinks n (stop d o)
stops n d o h = record { smaller = h }

calls : (n : ℕ) (d : Decoder) → held d.buffered_bytes < n → Shrinks n (call_state d)
calls n d h = record { smaller = h }

held_cons : (x : Bytes) (xs : List Bytes) → held (x ∷ xs) ≡ length x + held xs
unfolding join
held_cons x xs = length-append x (join xs)

drop_bytes-held : (n : ℕ) (xs : List Bytes) → held (drop_bytes n xs) ≡ held xs - n
unfolding drop_bytes join
drop_bytes-held n [] = omega arith
drop_bytes-held n (x ∷ xs) = elim (dec_lt 0 n) [
  | yes p ↦ elim (dec_lt n (length x)) [
    | yes q ↦ ground (arith, held_cons (drop n x) xs, held_cons x xs, length-drop n x)
    | no q ↦ ground (arith, held_cons x xs, drop_bytes-held (n - length x) xs)
  ]
  | no p ↦ ground arith
]

length-line_chars : (x : Bytes) → length (line_chars x) ≤ length x
unfolding line_chars
length-line_chars [] = omega arith
length-line_chars (c ∷ cs) = ground (arith, length-line_chars cs)

length-count_chars : (xs : List Bytes) → length (count_chars xs) ≤ held xs
unfolding count_chars join
length-count_chars [] = omega arith
length-count_chars (x ∷ xs) = omega (
  arith,
  length-append (line_chars x) (count_chars xs),
  length-append x (join xs),
  length-line_chars x,
  length-count_chars xs,
)

shrinks_more : (m n : ℕ) (t : Turn) → m ≤ n → Shrinks m t → Shrinks n t
shrinks_more m n (stop d o) h k = stops n d o k.smaller
shrinks_more m n (call_state d) h k = calls n d (omega (arith, k.smaller))

shrinks_if :
    (n : ℕ) (b : Bool) (s t : Turn) → Shrinks n s → Shrinks n t → Shrinks n (if b then s else t)
shrinks_if n true s t h k = h
shrinks_if n false s t h k = k

shrinks_unless :
    (n : ℕ) (b : Bool) (s t : Turn)
    → Shrinks n s
    → (b ≡ false → Shrinks n t)
    → Shrinks n (if b then s else t)
shrinks_unless n true s t h k = h
shrinks_unless n false s t h k = k refl

body_loop-Shrinks : (xs : List Bytes) (d : Decoder) → Shrinks (held xs) (body_loop d xs)
unfolding body_loop
body_loop-Shrinks [] d = stops _ _ _ nothing_ne
body_loop-Shrinks (x ∷ xs) d = elim (dec_lt 0 d.body_length) [
  | no p ↦ let z : (d.body_length == 0) ≡ true = ground arith in rw z (stops _ _ _ nothing_ne)
  | yes p ↦
      let z : (d.body_length == 0) ≡ false = ground arith in
      elim (dec_lt d.body_length (length x)) [
        | yes q ↦
            let l : leb (length x) d.body_length ≡ false = ground arith in
            rw (z, l)
              (calls _ _ (
                omega (
                  arith,
                  held_cons x xs,
                  held_cons (drop d.body_length x) xs,
                  length-drop d.body_length x,
                )))
        | no q ↦
            let l : leb (length x) d.body_length ≡ true = ground arith in
            rw (z, l)
              (shrinks_more (held xs) (held (x ∷ xs)) _ (omega (arith, held_cons x xs))
                (body_loop-Shrinks xs _))
      ]
]

sized-Shrinks :
    (d : Decoder) (rest : List Bytes) (size n : ℕ) → held rest < n → Shrinks n (sized d rest size)
sized-Shrinks d [] size n h =
    shrinks_if n (size == 0) _ _ (stops _ _ _ (returns_ne [])) (calls _ _ h)
sized-Shrinks d (x ∷ xs) size n h = shrinks_if n (size == 0) _ _ (calls _ _ h) (calls _ _ h)

some_chars : (cs : Bytes) → not (eq_bytes (last_of 1 cs) (codes "\n")) ≡ false → 1 ≤ length cs
unfolding eq_bytes
some_chars [] h = cc
some_chars (c ∷ cs) h = omega arith

numbered-Shrinks :
    (d : Decoder) (size : Option ℕ)
    → 1 ≤ length (count_chars d.buffered_bytes)
    → Shrinks (held d.buffered_bytes) (numbered d (count_chars d.buffered_bytes) size)
numbered-Shrinks d none h = stops _ _ _ (raises_ne _)
numbered-Shrinks d (some size) h =
    sized-Shrinks d (drop_bytes (length (count_chars d.buffered_bytes)) d.buffered_bytes) size
      (held d.buffered_bytes)
      (omega (
        arith,
        drop_bytes-held (length (count_chars d.buffered_bytes)) d.buffered_bytes,
        length-count_chars d.buffered_bytes,
      ))

turn_read_length-Shrinks : (d : Decoder) → Shrinks (held d.buffered_bytes) (turn_read_length d)
unfolding turn_read_length
turn_read_length-Shrinks d =
    let cs = count_chars d.buffered_bytes in
    let n = held d.buffered_bytes in
    shrinks_unless n (not (eq_bytes (last_of 1 cs) (codes "\n"))) _ _ (stops n d nothing nothing_ne)
      (λ h.
        shrinks_if n (d.strict && not (eq_bytes (last_of 2 cs) (codes "\r\n"))) _ _
          (stops n d (raises (chunk_header_invalid cs)) (raises_ne _))
          (shrinks_if n (d.strict && has_cr (before_last 2 cs)) _ _
            (stops n d (raises (too_many_crs cs)) (raises_ne _))
            (numbered-Shrinks d (int_16 (rstrip is_newline cs)) (some_chars cs h))))

turn_finished-Shrinks : (d : Decoder) → Shrinks (held d.buffered_bytes) (turn_finished d)
unfolding turn_finished
turn_finished-Shrinks d =
    shrinks_if _ _ _ _ (stops _ _ _ (raises_ne _)) (stops _ _ _ (returns_ne _))

turn-Shrinks : (s : State) (d : Decoder) → Shrinks (held d.buffered_bytes) (turn s d)
turn-Shrinks read_length d = turn_read_length-Shrinks d
turn-Shrinks read_body d = body_loop-Shrinks d.buffered_bytes d
turn-Shrinks finished d = turn_finished-Shrinks d

follow_ends :
    (n : ℕ) (t : Turn) (again : Decoder → Written)
    → Shrinks n t
    → ((d : Decoder) → held d.buffered_bytes < n → (again d).outcome ≢ out_of_fuel)
    → (follow t again).outcome ≢ out_of_fuel
follow_ends n (stop d o) again h k = h.smaller
follow_ends n (call_state d) again h k = k d h.smaller

call_ends :
    (fuel : ℕ) (d : Decoder) → held d.buffered_bytes < fuel → (call fuel d).outcome ≢ out_of_fuel
unfolding call
call_ends zero d h = absurd (omega arith)
call_ends (suc fuel) d h =
    follow_ends (held d.buffered_bytes) (turn d.state d) (call fuel) (turn-Shrinks d.state d)
      (λ d' k. call_ends fuel d' (omega arith))

-- A write to any decoder, of any bytes, ends: the calls of the state's method are at most one more
-- than the bytes that are buffered.
pub write-ne-out_of_fuel : (d : Decoder) (bytes : Bytes) → (write d bytes).outcome ≢ out_of_fuel
unfolding write
write-ne-out_of_fuel d bytes = call_ends _ (append_bytes d bytes) (omega arith)
