-- ===== src/Chunked/Decoder.antt =====
-- chunked.Decoder: three states, each a method that `write` calls.
pub mod Ends
pub mod Sizes
pub mod Open
pub mod Turns
pub mod Fragments
pub mod RoundTrip
use pysubunit.Prelude.{
  ℕ, zero, suc, ◌+◌, ◌-◌, Bool, true, false, not, ◌&&◌, ◌||◌, Option, none, some, List, [], ◌∷◌,
  ◌++◌, ltb, leb, ◌==◌, if◌then◌else◌, length, take, drop, eq_bytes,
}
use pysubunit.Std.Format.{codes}
use pysubunit.Std.Hex.{hex_digit, rstrip, int_16}
use pysubunit.V2.Types.{Bytes}
use pysubunit.Chunked.Encoder.{join}

pub data State : Type 0 where
  read_length read_body finished : State

pub record Decoder : Type 0 where
  pub output : Bytes
  pub buffered_bytes : List Bytes
  pub state : State
  pub body_length : ℕ
  pub strict : Bool

abbrev pub new : Bool → Decoder
new strict = record {
  output = [];
  buffered_bytes = [];
  state = read_length;
  body_length = 0;
  strict = strict;
}

pub data ValueError : Type 0 where
  stream_is_finished incomplete_stream : ValueError
  chunk_header_invalid too_many_crs not_a_number : Bytes → ValueError

-- What write returns: None, bytes, or an exception. The model's recursion has fuel.
pub data Outcome : Type 0 where
  nothing : Outcome
  returns : Bytes → Outcome
  raises : ValueError → Outcome
  out_of_fuel : Outcome

-- A method ends, or it ends with `return self.state()`.
pub data Turn : Type 0 where
  stop : Decoder → Outcome → Turn
  call_state : Decoder → Turn

-- "\r\n" and self._match_chars
abbrev pub is_newline : ℕ → Bool
is_newline c = c == 13 || c == 10

abbrev some_digit : Option ℕ → Bool
some_digit none = false
some_digit (some d) = true

abbrev pub matches : ℕ → Bool
matches c = some_digit (hex_digit c) || is_newline c

-- The characters of one fragment up to the first that is no header's, or with the first '\n'.
unfoldable pub line_chars : Bytes → Bytes
line_chars [] = []
line_chars (c ∷ cs) =
    let rest = line_chars cs in if not (matches c) then [] else if c == 10 then c ∷ [] else c ∷ rest

-- `break` leaves the loop on one fragment only.
unfoldable pub count_chars : List Bytes → Bytes
count_chars [] = []
count_chars (x ∷ xs) = line_chars x ++ count_chars xs

-- bs[-1:], bs[-2:] and bs[:-2]
abbrev pub last_of : ℕ → Bytes → Bytes
last_of n bs = drop (length bs - n) bs

abbrev pub before_last : ℕ → Bytes → Bytes
before_last n bs = take (length bs - n) bs

unfoldable pub has_cr : Bytes → Bool
has_cr [] = false
has_cr (c ∷ cs) = c == 13 || has_cr cs

-- The loop on `excess_bytes`.
unfoldable pub drop_bytes : ℕ → List Bytes → List Bytes
drop_bytes n [] = []
drop_bytes n (x ∷ xs) =
    let rest = drop_bytes (n - length x) xs in
    if n == 0 then x ∷ xs else if leb (length x) n then rest else drop n x ∷ xs

abbrev is_empty {ℓ} : {A : Type ℓ} → List A → Bool
is_empty [] = true
is_empty (x ∷ xs) = false

unfoldable pub turn_finished : Decoder → Turn
turn_finished d =
    if is_empty d.buffered_bytes
    then stop d (raises stream_is_finished)
    else stop (record d { buffered_bytes = [] }) (returns (join d.buffered_bytes))

-- `while self.body_length and self.buffered_bytes`. The writes to output come first.
unfoldable pub body_loop : Decoder → List Bytes → Turn
body_loop d [] = stop (record d { buffered_bytes = [] }) nothing
body_loop d (x ∷ xs) =
    let rest =
      body_loop
        (record d {
          output = d.output ++ x;
          body_length = d.body_length - length x;
          state = if d.body_length == length x then read_length else d.state;
        })
        xs in
    if d.body_length == 0
    then stop (record d { buffered_bytes = x ∷ xs }) nothing
    else if leb (length x) d.body_length
    then rest
    else call_state (record d {
      output = d.output ++ take d.body_length x;
      buffered_bytes = drop d.body_length x ∷ xs;
      body_length = 0;
      state = read_length;
    })

-- The header is complete: `size` is its number, `rest` what stands behind it.
abbrev pub sized : Decoder → List Bytes → ℕ → Turn
sized d rest size =
    if size == 0
    then if is_empty rest
      then stop (record d { buffered_bytes = []; body_length = 0; state = finished }) (returns [])
      else call_state (record d { buffered_bytes = rest; body_length = 0; state = finished })
    else call_state (record d { buffered_bytes = rest; body_length = size; state = read_body })

abbrev pub numbered : Decoder → Bytes → Option ℕ → Turn
numbered d count_str none = stop d (raises (not_a_number count_str))
numbered d count_str (some size) = sized d (drop_bytes (length count_str) d.buffered_bytes) size

unfoldable pub turn_read_length : Decoder → Turn
turn_read_length d =
    let count_str = count_chars d.buffered_bytes in
    if not (eq_bytes (last_of 1 count_str) (codes "\n"))
    then stop d nothing
    else if d.strict && not (eq_bytes (last_of 2 count_str) (codes "\r\n"))
    then stop d (raises (chunk_header_invalid count_str))
    else if d.strict && has_cr (before_last 2 count_str)
    then stop d (raises (too_many_crs count_str))
    else numbered d count_str (int_16 (rstrip is_newline count_str))

abbrev pub turn : State → Decoder → Turn
turn read_length d = turn_read_length d
turn read_body d = body_loop d d.buffered_bytes
turn finished d = turn_finished d

pub record Written : Type 0 where
  pub decoder : Decoder
  pub outcome : Outcome

abbrev pub follow : Turn → (Decoder → Written) → Written
follow (stop d o) again = record { decoder = d; outcome = o }
follow (call_state d) again = again d

-- self.state(), with fuel for the calls that one call leads to.
unfoldable pub call : ℕ → Decoder → Written
call zero d = record { decoder = d; outcome = out_of_fuel }
call (suc fuel) d = follow (turn d.state d) (call fuel)

abbrev pub append_bytes : Decoder → Bytes → Decoder
append_bytes d [] = d
append_bytes d (c ∷ cs) = record d { buffered_bytes = d.buffered_bytes ++ (c ∷ cs) ∷ [] }

unfoldable pub write : Decoder → Bytes → Written
write d bytes = let d' = append_bytes d bytes in call (suc (length (join d'.buffered_bytes))) d'

-- close raises unless the end of the stream was seen.
unfoldable pub close : Decoder → Option ValueError
close d = elim d.state [ finished ↦ none | _ ↦ some incomplete_stream ]
