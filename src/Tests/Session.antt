-- ===== src/Tests/Session.antt =====
-- A session of two tests, written and read.
use pysubunit.Prelude.{◌≡◌, refl, ℕ, List, [], ◌∷◌, Option, none, some, arith, ◌++◌, eq_bytes}
use pysubunit.Std.Format.{codes}
use pysubunit.Std.Utf8
use pysubunit.Std.Dict.{set_item}
use pysubunit.Chunked.Encoder.{join}
use pysubunit.Std.Words.{has_char}
use pysubunit.V1.Client.{print_parameters, sort_items}
use pysubunit.V2.Types.{Text, Bytes}
use pysubunit.V1.Calls.{success, error, Content, Details}
use pysubunit.V1.Server
use pysubunit.V1.Server.{read_from}
use pysubunit.V1.Client.Session.{Test, IsPlain, IsReportable, session, calls_of, received}
use pysubunit.V1.Client.Session.RoundTrip.{read_from-session}
use pysubunit.V1.Client.Session.Reading.{Gives}
use pysubunit.Tests.Lines.{no_time}

abbrev first : Test
first = record { id = codes "a b"; outcome = success; details = none }

abbrev log : Content
log = record {
  main = codes "text";
  sub = codes "plain";
  parameters = (codes "charset", codes "utf8") ∷ [];
  chunks = codes "one\n" ∷ (0xff ∷ []) ∷ [];
}

abbrev items : Details
items = (codes "log", log) ∷ (codes "a b", record log { parameters = [] }) ∷ []

abbrev second : Test
second = record { id = 0xe9 ∷ []; outcome = error; details = some items }

first-IsReportable : IsReportable first
unfolding Utf8.encode Utf8.encode_char
first-IsReportable = record {
  named = record {
    first = 97;
    rest = codes " b";
    encoded = refl;
    one_line = omega arith;
    in_front = refl;
  };
  allowed = refl;
  plain = tt;
}

log-IsPlain : IsPlain (codes "log", log)
unfolding print_parameters has_char
log-IsPlain = record {
  plain_name = omega arith;
  plain_main = omega arith;
  plain_sub = omega arith;
  whole_main = refl;
  whole_sub = refl;
}

other-IsPlain : IsPlain (codes "a b", record log { parameters = [] })
unfolding has_char
other-IsPlain = record {
  plain_name = omega arith;
  plain_main = omega arith;
  plain_sub = omega arith;
  whole_main = refl;
  whole_sub = refl;
}

second-IsReportable : IsReportable second
unfolding Utf8.encode Utf8.encode_char
second-IsReportable = record {
  named = record {
    first = 0xc3;
    rest = 0xa9 ∷ [];
    encoded = refl;
    one_line = omega arith;
    in_front = refl;
  };
  allowed = refl;
  plain = (log-IsPlain, (other-IsPlain, tt));
}

abbrev latin : Text → Option Bytes
latin text = some text

abbrev no_traceback : ℕ → Text → List Bytes
no_traceback e test = []

read_from-session_example :
    ((session latin no_traceback (first ∷ second ∷ [])).exception ≡ none)
    × Gives
        (read_from no_time (session latin no_traceback (first ∷ second ∷ [])).bytes Server.new)
        (calls_of (first ∷ second ∷ []))
read_from-session_example =
    read_from-session latin no_traceback no_time (first ∷ second ∷ []) (λ t a. refl)
      (first-IsReportable, (second-IsReportable, tt))

-- What is delivered of the details.
delivered :
    received [] (sort_items items)
    ≡ (codes "a b", record log { parameters = []; chunks = (codes "one\n" ++ 0xff ∷ []) ∷ [] })
      ∷ (
        codes "log",
        record log {
          sub = codes "plain;charset=utf8";
          parameters = [];
          chunks = (codes "one\n" ++ 0xff ∷ []) ∷ [];
        },
      )
      ∷ []
unfolding received sort_items print_parameters set_item eq_bytes join
delivered = refl
