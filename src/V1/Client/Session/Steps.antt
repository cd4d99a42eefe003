-- ===== src/V1/Client/Session/Steps.antt =====
-- What the parser does with each line of a session.
use pysubunit.Prelude.{
  ◌≡◌, refl, sym, ap, ◌∙◌, false, Option, none, some, [], ◌∷◌, ◌++◌, eq_bytes, eq_bytes_refl,
  append-nil,
}
use pysubunit.Std.Format.{codes}
use pysubunit.Std.Utf8
use pysubunit.Std.Utf8.RoundTrip.{encode-append}
use pysubunit.Std.Words
use pysubunit.V2.Types.{Text, Bytes}
use pysubunit.V1.Calls.{Outcome, start_test, stop_test, add, Details}
use pysubunit.V1.Details.{
  multipart, look_for_content, new_multipart, line_received, content_line, get_details,
}
use pysubunit.V1.Server.{
  Description, cleared, describes, outside_test, in_test, reading, client, forwarded, goes,
  line_step, outside, inside, outside_start, started, in_test_outcome, described_outcome,
  named_outcome, plain_outcome,
}
use pysubunit.V1.Server.Brackets.Order.{server_at}
use pysubunit.V1.Client.Session.{IsLineName, encoding}
use pysubunit.V1.Client.Session.Lines.{
  word_of, command_of-test, command_of-outcome, named_part-line, decode-name, eq_bytes-append,
}

multipart_encoded : Utf8.encode (codes " [ multipart") ≡ some (codes " [ multipart")
unfolding Utf8.encode Utf8.encode_char
multipart_encoded = refl

module _ {Time : Type 0} (parse_time : Bytes → Option Time) (id : Text) (n : IsLineName id) where
  abbrev name : Bytes
  name = encoding n

  pub line_step-start :
      (t : Option Text) (d : Description)
      → line_step parse_time (server_at t outside_test d) (codes "test: " ++ (name ++ 10 ∷ []))
        ≡ goes
            (client (start_test (some id)) ∷ forwarded (codes "test: " ++ (name ++ 10 ∷ [])) ∷ [])
            (server_at (some id) in_test (describes id))
  unfolding line_step outside_start
  line_step-start t d =
      let line = codes "test: " ++ (name ++ 10 ∷ []) in
      let s = server_at t outside_test d in
      ap (outside parse_time s line) (command_of-test n.first (n.rest ++ 10 ∷ []) n.in_front)
      ∙ ap (started s line)
          (ap Words.decode (named_part-line (codes "test: ") name) ∙ decode-name id name n.encoded)

  -- An outcome line whose text behind the word is `text`.
  line_step-text :
      (o : Outcome) (text : Text) (more : Bytes)
      → Utf8.encode text ≡ some (name ++ more)
      → line_step parse_time
          (server_at (some id) in_test (describes id))
          (word_of o ++ ((name ++ more) ++ 10 ∷ []))
        ≡ named_outcome o
            (server_at (some id) in_test (describes id))
            (word_of o ++ ((name ++ more) ++ 10 ∷ []))
            id
            text
  unfolding line_step in_test_outcome
  line_step-text o text more e =
      let line = word_of o ++ ((name ++ more) ++ 10 ∷ []) in
      let s = server_at (some id) in_test (describes id) in
      ap (inside parse_time s line)
        (command_of-outcome o n.first ((n.rest ++ more) ++ 10 ∷ []) n.in_front)
      ∙ ap (described_outcome o s line (describes id)) (
          ap Words.decode (named_part-line (word_of o) (name ++ more))
          ∙ decode-name text (name ++ more) e)

  pub line_step-plain :
      (o : Outcome)
      → line_step parse_time
          (server_at (some id) in_test (describes id))
          (word_of o ++ ((name ++ []) ++ 10 ∷ []))
        ≡ goes
            (client (plain_outcome o (some id))
              ∷ client (stop_test (some id))
              ∷ forwarded (word_of o ++ ((name ++ []) ++ 10 ∷ []))
              ∷ [])
            (server_at none outside_test cleared)
  line_step-plain o =
      line_step-text o id [] (n.encoded ∙ ap some (sym (append-nil name))) ∙ rw (eq_bytes_refl id)

  id_shorter : eq_bytes id (id ++ codes " [ multipart") ≡ false
  unfolding eq_bytes
  id_shorter =
      ap (λ t. eq_bytes t (id ++ codes " [ multipart")) (sym (append-nil id))
      ∙ eq_bytes-append id [] (codes " [ multipart")

  simple_shorter : eq_bytes (id ++ codes " [") (id ++ codes " [ multipart") ≡ false
  unfolding eq_bytes
  simple_shorter = eq_bytes-append id (codes " [") (codes " [ multipart")

  pub line_step-multipart :
      (o : Outcome)
      → line_step parse_time
          (server_at (some id) in_test (describes id))
          (word_of o ++ ((name ++ codes " [ multipart") ++ 10 ∷ []))
        ≡ goes
            (forwarded (word_of o ++ ((name ++ codes " [ multipart") ++ 10 ∷ [])) ∷ [])
            (server_at (some id) (reading o new_multipart) (describes id))
  line_step-multipart o =
      line_step-text o (id ++ codes " [ multipart") (codes " [ multipart") (
        encode-append id (codes " [ multipart") name (codes " [ multipart") n.encoded
          multipart_encoded)
      ∙ rw (id_shorter, simple_shorter, eq_bytes_refl (id ++ codes " [ multipart"))

  pub line_step-end :
      (o : Outcome) (ds : Details)
      → line_step parse_time
          (server_at (some id) (reading o (multipart ds look_for_content)) (describes id))
          (codes "]\n")
        ≡ goes
            (client (add o (some id) (some ds))
              ∷ client (stop_test (some id))
              ∷ forwarded (codes "]\n")
              ∷ [])
            (server_at (some id) outside_test cleared)
  unfolding line_step line_received content_line eq_bytes get_details
  line_step-end o ds = refl
