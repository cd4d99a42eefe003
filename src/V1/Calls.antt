-- ===== src/V1/Calls.antt =====
-- What goes through the protocol: the calls of a test result, and contents.
use pysubunit.Prelude.{Option, List}
use pysubunit.Prelude.Int.{ℤ}
use pysubunit.V2.Types.{Text, Bytes}
use pysubunit.Chunked.Decoder.{ValueError}

-- testtools.content.Content with its ContentType: the chunks are what iter_bytes gives.
pub record Content : Type 0 where
  pub main : Text
  pub sub : Text
  pub parameters : List (Text × Text)
  pub chunks : List Bytes

abbrev pub Details : Type 0
Details = List (Text × Content)

pub data Outcome : Type 0 where
  error failure skip success xfail uxsuccess : Outcome

-- PROGRESS_SET and PROGRESS_CUR with their offset, PROGRESS_PUSH, PROGRESS_POP.
pub data Progress : Type 0 where
  set : ℤ → Progress
  cur : ℤ → Progress
  push pop : Progress

-- The calls that the parser makes. A test is a RemotedTestCase, which is its description; `Time` is
-- what dateutil makes of a time. The details of an unexpected success may be left out.
pub data Call (Time : Type 0) : Type 0 where
  start_test stop_test : Option Text → Call Time
  add : Outcome → Option Text → Option Details → Call Time
  add_remote_error : Option Text → Text → Call Time
  progress : Progress → Call Time
  tags : List Text → List Text → Call Time
  time : Time → Call Time

-- What the parser raises.
pub data Error : Type 0 where
  unicode_decode_error attribute_error index_error : Error
  invalid_mime_type : Text → Error
  no_space : Text → Error
  not_a_number : Bytes → Error
  residue_left : Bytes → Error
  chunk_error : ValueError → Error
  unparsed_time : Bytes → Error
  type_error : Error
