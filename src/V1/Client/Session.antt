-- ===== src/V1/Client/Session.antt =====
-- A session of tests, written by TestProtocolClient.
pub mod Lines
pub mod Contents
pub mod Steps
pub mod Reading
pub mod Written
pub mod RoundTrip
use pysubunit.Prelude.{
  ℕ, ◌<◌, ◌≡◌, ◌≢◌, Bool, true, false, Option, none, some, List, [], ◌∷◌, ◌++◌, All,
}
use pysubunit.Std.Format.{codes}
use pysubunit.Std.Utf8
use pysubunit.Std.Words.{is_space, has_char}
use pysubunit.Std.Dict.{set_item}
use pysubunit.Chunked.Encoder.{join}
use pysubunit.V2.Types.{Text, Bytes}
use pysubunit.V1.Calls.{
  Outcome, error, failure, skip, success, xfail, uxsuccess, Call, start_test, stop_test, add,
  Content, Details,
}
use pysubunit.V1.Client.{Output, put, ◌>>◌, sort_items, print_parameters}
use pysubunit.V1.Client

-- A test with its outcome, and the details of the outcome if it has any.
pub record Test : Type 0 where
  pub id : Text
  pub outcome : Outcome
  pub details : Option Details

abbrev has_details : Option Details → Bool
has_details none = false
has_details (some ds) = true

-- An outcome that needs an error or details is not reported without.
abbrev pub may_report : Outcome → Option Details → Bool
may_report success details = true
may_report uxsuccess details = true
may_report _ details = has_details details

-- The subtype of a content as it stands in the stream: the parameters follow it.
abbrev pub parameter_part : List (Text × Text) → Text
parameter_part [] = []
parameter_part (p ∷ ps) = codes ";" ++ print_parameters (p ∷ ps)

abbrev pub full_sub : Content → Text
full_sub c = c.sub ++ parameter_part c.parameters

-- A text of ASCII characters in one line.
abbrev pub IsPlainText : Text → Type 0
IsPlainText t = All (λ c. (c < 128) × (c ≢ 10)) t

-- Details whose content type and name make one line each, with one slash in the type.
pub record IsPlain (item : Text × Content) : Type 0 where
  pub plain_name : IsPlainText item.0
  pub plain_main : IsPlainText item.1.main
  pub plain_sub : IsPlainText (full_sub item.1)
  pub whole_main : has_char b'/' item.1.main ≡ false
  pub whole_sub : has_char b'/' (full_sub item.1) ≡ false

abbrev pub ArePlain : Option Details → Type 0
ArePlain none = Unit
ArePlain (some ds) = All IsPlain ds

-- A name that makes one line and that a parser finds: it has an encoding, without a newline and with
-- no white space in front.
pub record IsLineName (id : Text) : Type 0 where
  pub first : ℕ
  pub rest : Bytes
  pub encoded : Utf8.encode id ≡ some (first ∷ rest)
  pub one_line : All (λ b. b ≢ 10) (first ∷ rest)
  pub in_front : is_space first ≡ false

abbrev pub encoding : {id : Text} → IsLineName id → Bytes
encoding n = n.first ∷ n.rest

pub record IsReportable (t : Test) : Type 0 where
  pub named : IsLineName t.id
  pub allowed : may_report t.outcome t.details ≡ true
  pub plain : ArePlain t.details

module _ {Err : Type 0} (latin : Text → Option Bytes) (traceback : Err → Text → List Bytes) where
  -- startTest and the outcome of each test.
  unfoldable pub session : List Test → Output
  session [] = put []
  session (t ∷ ts) =
      Client.start_test t.id
      >> Client.add latin traceback t.outcome t.id none t.details
      >> session ts

-- The content that the parser makes of one: one chunk, and the parameters are a part of the subtype.
abbrev pub received_content : Content → Content
received_content c = record {
  main = c.main;
  sub = full_sub c;
  parameters = [];
  chunks = join c.chunks ∷ [];
}

-- The dict of the parser, which held `held`, when it has read these items.
unfoldable pub received : Details → Details → Details
received held [] = held
received held ((name, c) ∷ items) = received (set_item name (received_content c) held) items

-- The details that the parser gives: no details of a success are empty ones.
abbrev pub delivered_details : Outcome → Option Details → Option Details
delivered_details o (some ds) = some (received [] (sort_items ds))
delivered_details uxsuccess none = none
delivered_details _ none = some []

unfoldable pub calls_of : {Time : Type 0} → List Test → List (Call Time)
calls_of [] = []
calls_of (t ∷ ts) =
    start_test (some t.id)
    ∷ add t.outcome (some t.id) (delivered_details t.outcome t.details)
    ∷ stop_test (some t.id)
    ∷ calls_of ts
