-- ===== src/V1/Details/Errors.antt =====
-- Reading details never raises AttributeError.
use pysubunit.Prelude.{
  ◌≡◌, refl, Bool, true, false, Option, none, some, [], ◌∷◌, if◌then◌else◌, eq_bytes, take,
}
use pysubunit.Std.Words
use pysubunit.Std.Words.{split_at, split_in_two}
use pysubunit.V2.Types.{Text, Bytes}
use pysubunit.Chunked.Decoder.{Decoder, nothing, returns, raises, out_of_fuel}
use pysubunit.Chunked.Decoder
use pysubunit.V1.Calls.{
  Details, Error, attribute_error, unicode_decode_error, index_error, invalid_mime_type, no_space,
  not_a_number, residue_left, chunk_error, unparsed_time, type_error,
}
use pysubunit.V1.Details.{
  Parser, simple, multipart, look_for_content, get_name, feed_chunks, Read, raised, line_received,
  simple_line, content_line, name_line, chunk_line, end_marker, quoted_marker, but_last, with_text,
  with_field, typed, named, fed,
}

abbrev pub is_attribute_error : Error → Bool
is_attribute_error attribute_error = true
is_attribute_error _ = false

pub is_attribute_error-eq : (e : Error) → is_attribute_error e ≡ true → e ≡ attribute_error
is_attribute_error-eq attribute_error h = refl
is_attribute_error-eq unicode_decode_error h = cc
is_attribute_error-eq index_error h = cc
is_attribute_error-eq (invalid_mime_type t) h = cc
is_attribute_error-eq (no_space t) h = cc
is_attribute_error-eq (not_a_number t) h = cc
is_attribute_error-eq (residue_left t) h = cc
is_attribute_error-eq (chunk_error t) h = cc
is_attribute_error-eq (unparsed_time t) h = cc
is_attribute_error-eq type_error h = cc

abbrev pub read_lacks : Read → Bool
read_lacks (raised p e) = is_attribute_error e
read_lacks _ = false

pub if_lacks :
    {A : Type 0} (f : A → Bool) (b : Bool) (x y : A)
    → f x ≡ false
    → f y ≡ false
    → f (if b then x else y) ≡ false
if_lacks f true x y g h = g
if_lacks f false x y g h = h

typed-lacks :
    (ds : Details) (value : Text) (o : Option (Text × Text)) → read_lacks (typed ds value o) ≡ false
typed-lacks ds value none = refl
typed-lacks ds value (some (main, sub)) = refl

with_field-lacks :
    (ds : Details) (text : Text) (o : Option (Text × Text))
    → read_lacks (with_field ds text o) ≡ false
with_field-lacks ds text none = refl
with_field-lacks ds text (some (field, value)) = typed-lacks ds value (split_in_two b'/' value)

with_text-lacks : (ds : Details) (o : Option Text) → read_lacks (with_text ds o) ≡ false
with_text-lacks ds none = refl
with_text-lacks ds (some text) = with_field-lacks ds text (split_at 32 text)

named-lacks :
    (ds : Details) (main sub : Text) (o : Option Text) → read_lacks (named ds main sub o) ≡ false
named-lacks ds main sub none = refl
named-lacks ds main sub (some name) = refl

fed-lacks :
    (ds : Details) (main sub name : Text) (d : Decoder) (o : Decoder.Outcome)
    → read_lacks (fed ds main sub name d o) ≡ false
fed-lacks ds main sub name d nothing = refl
fed-lacks ds main sub name d (returns []) = refl
fed-lacks ds main sub name d (returns (c ∷ cs)) = refl
fed-lacks ds main sub name d (raises e) = refl
fed-lacks ds main sub name d out_of_fuel = refl

pub line_received-lacks : (p : Parser) (line : Bytes) → read_lacks (line_received p line) ≡ false
unfolding line_received simple_line content_line name_line chunk_line
line_received-lacks (simple message) line =
    if_lacks read_lacks (eq_bytes line end_marker) _ _ refl
      (if_lacks read_lacks (eq_bytes (take 2 line) quoted_marker) _ _ refl refl)
line_received-lacks (multipart ds look_for_content) line =
    if_lacks read_lacks (eq_bytes line end_marker) _ _ refl
      (with_text-lacks ds (Words.decode (but_last line)))
line_received-lacks (multipart ds (get_name main sub)) line =
    named-lacks ds main sub (Words.decode (but_last line))
line_received-lacks (multipart ds (feed_chunks main sub name d)) line =
    fed-lacks ds main sub name (Decoder.write d line).decoder (Decoder.write d line).outcome
