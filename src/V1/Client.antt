-- ===== src/V1/Client.antt =====
-- TestProtocolClient. A method writes bytes to the stream, and an exception may end it.
pub mod Session
use pysubunit.Prelude.{
  ℕ, zero, suc, ◌-◌, Bool, true, false, ◌&&◌, ◌||◌, Option, none, some, List, [], ◌∷◌, ◌++◌, ltb,
  ◌==◌, if◌then◌else◌, length,
}
use pysubunit.Prelude.Int.{ℤ, pos, negsuc}
use pysubunit.Std.Format.{codes, decimal}
use pysubunit.Std.Utf8
use pysubunit.V2.Types.{Text, Bytes, print_int, add_tag}
use pysubunit.Chunked.Encoder
use pysubunit.V1.Calls.{
  Content, Details, Outcome, error, failure, skip, success, xfail, uxsuccess, Progress, set, cur,
  push, pop,
}

pub data ClientError : Type 0 where
  value_error unicode_encode_error : ClientError

-- What a method wrote, and the exception that ended it.
pub record Output : Type 0 where
  pub bytes : Bytes
  pub exception : Option ClientError

abbrev pub put : Bytes → Output
put bs = record { bytes = bs; exception = none }

abbrev pub raise : ClientError → Output
raise e = record { bytes = []; exception = some e }

abbrev next : Bytes → Option ClientError → Output → Output
next bs none rest = record rest { bytes = bs ++ rest.bytes }
next bs (some e) rest = record { bytes = bs; exception = some e }

-- One after the other.
infixr 5 ◌>>◌
unfoldable pub ◌>>◌ : Output → Output → Output
first >> rest = next first.bytes first.exception rest

-- `self._stream.write` of bytes that an encoding may refuse.
abbrev pub put_encoded : Option Bytes → Output
put_encoded none = raise unicode_encode_error
put_encoded (some bs) = put bs

abbrev join_encoded : Bytes → Option Bytes → Bytes → Option Bytes
join_encoded before none behind = none
join_encoded before (some bs) behind = some (before ++ (bs ++ behind))

-- _test_id between two byte literals.
unfoldable pub with_id : Bytes → Text → Bytes → Option Bytes
with_id before id behind = join_encoded before (Utf8.encode id) behind

-- sorted(details.items()): no two names are equal.
unfoldable pub text_le : Text → Text → Bool
text_le [] ys = true
text_le (x ∷ xs) [] = false
text_le (x ∷ xs) (y ∷ ys) = ltb x y || x == y && text_le xs ys

unfoldable pub insert_item : Text × Content → Details → Details
insert_item item [] = item ∷ []
insert_item item (other ∷ items) =
    let rest = insert_item item items in
    if text_le item.0 other.0 then item ∷ other ∷ items else other ∷ rest

unfoldable pub sort_items : Details → Details
unfolding insert_item text_le
sort_items [] = []
sort_items (item ∷ items) = insert_item item (sort_items items)

-- ",".join("%s=%s" % (param, value))
unfoldable pub print_parameters : List (Text × Text) → Text
print_parameters [] = []
print_parameters ((param, value) ∷ []) = param ++ (codes "=" ++ value)
print_parameters ((param, value) ∷ more ∷ rest) =
    (param ++ (codes "=" ++ value)) ++ (codes "," ++ print_parameters (more ∷ rest))

-- encoder.write for each chunk, and encoder.close
unfoldable pub chunked : List Bytes → Bytes
chunked chunks = (Encoder.close (Encoder.writes Encoder.new chunks)).output

-- "%04d" and the like
unfoldable pub zeros : ℕ → Text
zeros zero = []
zeros (suc n) = b'0' ∷ zeros n

unfoldable pub padded : ℕ → ℕ → Text
unfolding decimal zeros
padded width n = zeros (width - length (decimal n)) ++ decimal n

-- A datetime in UTC.
pub record UtcTime : Type 0 where
  pub year : ℕ
  pub month : ℕ
  pub day : ℕ
  pub hour : ℕ
  pub minute : ℕ
  pub second : ℕ
  pub microsecond : ℕ

unfoldable pub print_time : UtcTime → Bytes
unfolding padded
print_time t =
    padded 4 t.year
    ++ (codes "-"
        ++ (padded 2 t.month
            ++ (codes "-"
                ++ (padded 2 t.day
                    ++ (codes " "
                        ++ (padded 2 t.hour
                            ++ (codes ":"
                                ++ (padded 2 t.minute
                                    ++ (codes ":"
                                        ++ (padded 2 t.second
                                            ++ (codes "."
                                                ++ (padded 6 t.microsecond ++ codes "Z"))))))))))))

-- time, on what astimezone(UTC) gives.
unfoldable pub time : UtcTime → Output
time t = put (codes "time: " ++ (print_time t ++ codes "\n"))

abbrev print_offset : ℤ → Text
print_offset (pos n) = codes "+" ++ print_int (pos n)
print_offset (negsuc n) = print_int (negsuc n)

unfoldable pub progress : Progress → Output
progress (cur offset) = put (codes "progress: " ++ (print_offset offset ++ codes "\n"))
progress (set offset) = put (codes "progress: " ++ (print_int offset ++ codes "\n"))
progress push = put (codes "progress: push\n")
progress pop = put (codes "progress: pop\n")

-- b" ".join(tags)
unfoldable pub join_words : List Bytes → Bytes
join_words [] = []
join_words (x ∷ []) = x
join_words (x ∷ y ∷ ys) = x ++ (codes " " ++ join_words (y ∷ ys))

-- The set of the encoded tags, with those that it holds already.
unfoldable pub encode_tags : Bytes → List Text → List Bytes → Option (List Bytes)
encode_tags sign [] held = some held
encode_tags sign (t ∷ ts) held = elim (Utf8.encode t) [
  | none ↦ none
  | some bs ↦ encode_tags sign ts (add_tag held (sign ++ bs))
]

unfoldable pub start_test : Text → Output
start_test id = put_encoded (with_id (codes "test: ") id (codes "\n"))

-- `order` is the order in which Python walks a set of bytes.
module _ (order : List Bytes → List Bytes) where
  abbrev tag_line : Option (List Bytes) → Output
  tag_line none = raise unicode_encode_error
  tag_line (some tag_set) = put (codes "tags: " ++ (join_words (order tag_set) ++ codes "\n"))

  abbrev gone_too : List Text → Option (List Bytes) → Option (List Bytes)
  gone_too gone_tags none = none
  gone_too gone_tags (some held) = encode_tags (codes "-") gone_tags held

  unfoldable pub tags : List Text → List Text → Output
  unfolding encode_tags
  tags [] [] = put []
  tags new_tags gone_tags = tag_line (gone_too gone_tags (encode_tags [] new_tags []))

-- `latin` is testtools.compat._b, which turns a text into bytes. `traceback` gives the bytes of
-- TracebackContent.
module _ {Err : Type 0} (latin : Text → Option Bytes) (traceback : Err → Text → List Bytes) where
  abbrev pub put_parameters : List (Text × Text) → Output
  put_parameters [] = put []
  put_parameters (p ∷ ps) = put (codes ";") >> put_encoded (latin (print_parameters (p ∷ ps)))

  unfoldable pub write_content : Text → Content → Output
  write_content name content =
      put_encoded (latin (codes "Content-Type: " ++ (content.main ++ (codes "/" ++ content.sub))))
      >> put_parameters content.parameters
      >> put_encoded (latin (codes "\n" ++ (name ++ codes "\n")))
      >> put (chunked content.chunks)

  unfoldable pub write_items : Details → Output
  write_items [] = put []
  write_items ((name, content) ∷ items) = write_content name content >> write_items items

  unfoldable pub write_details : Details → Output
  write_details details = put (codes " [ multipart\n") >> write_items (sort_items details)

  -- What follows the name of the test in _addOutcome.
  abbrev outcome_rest : Text → Option Err → Option Details → Bool → Output
  outcome_rest id none none true = raise value_error
  outcome_rest id none none false = put (codes "\n")
  outcome_rest id none (some details) permitted = write_details details >> put (codes "]\n")
  outcome_rest id (some e) details false = raise value_error
  outcome_rest id (some e) details true =
      put (codes " [\n") >> put (Encoder.join (traceback e id)) >> put (codes "]\n")

  -- _addOutcome
  unfoldable pub add_outcome : Text → Text → Option Err → Option Details → Bool → Output
  add_outcome outcome id e details permitted =
      put_encoded (with_id (outcome ++ codes ": ") id []) >> outcome_rest id e details permitted

  -- addError, addFailure, addExpectedFailure, addSuccess, addUnexpectedSuccess and addSkip without a
  -- reason; an error is no argument of the last three.
  unfoldable pub add : Outcome → Text → Option Err → Option Details → Output
  add error id e details = add_outcome (codes "error") id e details true
  add failure id e details = add_outcome (codes "failure") id e details true
  add xfail id e details = add_outcome (codes "xfail") id e details true
  add skip id e details = add_outcome (codes "skip") id none details true
  add success id e details = add_outcome (codes "successful") id none details false
  add uxsuccess id e details = add_outcome (codes "uxsuccess") id none details false

  -- addSkip with a reason.
  unfoldable pub skip_with_reason : Text → Text → Output
  skip_with_reason id reason =
      put_encoded (latin (codes "skip: " ++ (id ++ codes " [\n")))
      >> put_encoded (latin (reason ++ codes "\n"))
      >> put (codes "]\n")

-- Whether an outcome calls stop when failfast is set.
abbrev pub stops_fast : Outcome → Bool
stops_fast error = true
stops_fast failure = true
stops_fast uxsuccess = true
stops_fast _ = false
