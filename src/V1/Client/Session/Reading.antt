-- ===== src/V1/Client/Session/Reading.antt =====
-- The parser on the lines of the details of an outcome.
use pysubunit.Prelude.{
  ◌-◌, take-append_of_eq, ◌<◌, ◌≡◌, refl, sym, subst, ap, ◌∙◌, true, Option, none, some, List, [],
  ◌∷◌, ◌++◌, All, append_assoc, append-nil, arith, eq_bytes, length, length-append,
}
use pysubunit.Std.Words
use pysubunit.Std.Words.{split_at, split_in_two, lines_from}
use pysubunit.Std.Dict.{set_item}
use pysubunit.V2.Types.{Text, Bytes}
use pysubunit.Chunked.Encoder.{join}
use pysubunit.Chunked.Encoder.Coded.{coded, close-coded}
use pysubunit.Chunked.Decoder.{Decoder, Written, write, new}
use pysubunit.Chunked.Decoder.Fragments.{Waiting, Went, waits, ends, write-Went, new-Waiting}
use pysubunit.Chunked.Decoder.RoundTrip.{not_at_end}
use pysubunit.V1.Calls.{Outcome, Call, Details, Content}
use pysubunit.V1.Details.{
  Parser, Read, multipart, look_for_content, get_name, feed_chunks, more, line_received,
  content_line, with_text, typed, fed, but_last, name_line, chunk_line, named,
}
use pysubunit.V1.Server.{describes, reading, Step, line_step, read_lines}
use pysubunit.V1.Server.Brackets.Order.{server_at, calls}
use pysubunit.V1.Client.{chunked}
use pysubunit.V1.Client.Session.{IsPlain, IsPlainText, full_sub, received_content, received}
use pysubunit.V1.Client.Session.Lines.{line_of, IsLine, decode-name, join-lines_from}
use pysubunit.V1.Client.Session.Contents.{
  encode-ascii, split_in_two-plain, type_text, type_text-IsPlainText, item_lines, all_lines,
  chunked-IsLine,
}

-- A step that makes these calls and raises nothing.
abbrev pub Gives : {Time : Type 0} → Step Time → List (Call Time) → Type 0
Gives st cs = (calls st.effects ≡ cs) × (st.exception ≡ none)

but_last-line : (x : Bytes) → but_last (line_of x) ≡ x
but_last-line x =
    take-append_of_eq (length (line_of x) - 1) x (10 ∷ [])
      (omega (arith, length-append x (10 ∷ [])))

decode-plain : (t : Text) → IsPlainText t → Words.decode (but_last (line_of t)) ≡ some t
decode-plain t a = ap Words.decode (but_last-line t) ∙ decode-name t t (encode-ascii t a)

line_received-type :
    (ds : Details) (item : Text × Content)
    → IsPlain item
    → line_received (multipart ds look_for_content) (line_of (type_text item.1))
      ≡ more (multipart ds (get_name item.1.main (full_sub item.1)))
unfolding line_received content_line eq_bytes split_at
line_received-type ds item p =
    ap (with_text ds) (decode-plain (type_text item.1) (type_text-IsPlainText item p))
    ∙ ap (typed ds _)
        (split_in_two-plain b'/' item.1.main (full_sub item.1) p.whole_main p.whole_sub)

line_received-name :
    (ds : Details) (item : Text × Content) (main sub : Text)
    → IsPlain item
    → line_received (multipart ds (get_name main sub)) (line_of item.0)
      ≡ more (multipart ds (feed_chunks main sub item.0 (new true)))
unfolding line_received name_line
line_received-name ds item main sub p = ap (named ds main sub) (decode-plain item.0 p.plain_name)

some_line : (line : Bytes) → IsLine line → 0 < length line
some_line line (x, e, o) = omega (arith, ap length e, length-append x (10 ∷ []))

module _ {Time : Type 0} (parse_time : Bytes → Option Time) (id : Text) (o : Outcome)
    (lines : List Bytes) (cs : List (Call Time)) where
  -- The lines, and the ones behind them, from where the parser stands.
  abbrev Reads : List Bytes → Parser → Type 0
  Reads front p =
      Gives
        (read_lines parse_time (front ++ lines) (server_at (some id) (reading o p) (describes id)))
        cs

  read_on :
      (line : Bytes) (front : List Bytes) (p q : Parser)
      → line_received p line ≡ more q
      → Reads front q
      → Reads (line ∷ front) p
  unfolding read_lines line_step calls
  read_on line front p q e r = rw e r

  module _ (ds : Details) (main sub name : Text) (total : Bytes) where
    abbrev after_chunks : Parser
    after_chunks =
        multipart
          (set_item name (record { main = main; sub = sub; parameters = []; chunks = total ∷ [] })
            ds)
          look_for_content

    abbrev chunk_step : Written → Read
    chunk_step w = fed ds main sub name w.decoder w.outcome

    read_written :
        (front : List Bytes) (w : Written)
        → Went true total [] w (join front)
        → All IsLine front
        → Reads [] after_chunks
        → (Waiting true total [] w.decoder (join front)
            → Reads front (multipart ds (feed_chunks main sub name w.decoder)))
        → (q : Parser) × (chunk_step w ≡ more q) × Reads front q
    unfolding join
    read_written front w (waits e v) a r f =
        (multipart ds (feed_chunks main sub name w.decoder), rw e refl, f v)
    read_written [] w (ends [] e h) a r f = (after_chunks, rw e refl, r)
    read_written (line ∷ front) w (ends left e h) (l, a) r f = absurd (
        omega (
          arith,
          ap length h,
          length-append left (line ++ join front),
          length-append line (join front),
          some_line line l,
        ))
    read_written [] w (ends (b ∷ left) e h) a r f = absurd (omega (arith, ap length h))

    read_chunks :
        (front : List Bytes) (d : Decoder)
        → All IsLine front
        → Waiting true total [] d (join front)
        → Reads [] after_chunks
        → Reads front (multipart ds (feed_chunks main sub name d))
    unfolding line_received chunk_line join
    read_chunks [] d a w r = absurd (not_at_end true total [] d w)
    read_chunks (line ∷ front) d (l, a) w r =
        let (q, e, z) =
          read_written front (write d line)
            (write-Went true total [] d line (join front) (some_line line l) w) a r
            (λ v. read_chunks front (write d line).decoder a v r) in
        read_on line front (multipart ds (feed_chunks main sub name d)) q e z

-- The lines of one content, and the lines of all.
module _ {Time : Type 0} (parse_time : Bytes → Option Time) (id : Text) (o : Outcome)
    (cs : List (Call Time)) where
  abbrev ReadsAll : List Bytes → Parser → Type 0
  ReadsAll lines p =
      Gives (read_lines parse_time lines (server_at (some id) (reading o p) (describes id))) cs

  chunked-Waiting :
      (chunks : List Bytes)
      → Waiting true (join chunks) [] (new true) (join (lines_from [] (chunked chunks)))
  unfolding chunked
  chunked-Waiting chunks =
      let (xs, a, e, f) = close-coded chunks in
      subst (Waiting true (join chunks) [] (new true))
        (append-nil (coded xs) ∙ sym (join-lines_from (chunked chunks) [] ∙ f))
        (new-Waiting true (join chunks) [] xs a e)

  read_item :
      (ds : Details) (item : Text × Content) (lines : List Bytes)
      → IsPlain item
      → ReadsAll lines (multipart (set_item item.0 (received_content item.1) ds) look_for_content)
      → ReadsAll (item_lines item ++ lines) (multipart ds look_for_content)
  read_item ds item lines p r =
      let c = item.1 in
      let chunk_lines = lines_from [] (chunked c.chunks) in
      let sub = full_sub c in
      read_on parse_time id o lines cs (line_of (type_text c)) (line_of item.0 ∷ chunk_lines) _ _
        (line_received-type ds item p)
        (read_on parse_time id o lines cs (line_of item.0) chunk_lines _ _
          (line_received-name ds item c.main sub p)
          (read_chunks parse_time id o lines cs ds c.main sub item.0 (join c.chunks) chunk_lines
            (new true) (chunked-IsLine c.chunks) (chunked-Waiting c.chunks) r))

  pub read_items :
      (ds items : Details) (lines : List Bytes)
      → All IsPlain items
      → ReadsAll lines (multipart (received ds items) look_for_content)
      → ReadsAll (all_lines items ++ lines) (multipart ds look_for_content)
  unfolding received
  read_items ds [] lines a r = r
  read_items ds (item ∷ items) lines (p, a) r =
      subst (λ ls. ReadsAll ls (multipart ds look_for_content))
        (sym (append_assoc (item_lines item) (all_lines items) lines))
        (read_item ds item (all_lines items ++ lines) p
          (read_items (set_item item.0 (received_content item.1) ds) items lines a r))
